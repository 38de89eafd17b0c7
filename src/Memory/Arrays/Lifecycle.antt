-- ===== src/Memory/Arrays/Lifecycle.antt =====
-- A request or a response of rpc/marshall.c from its first allocation to its release.
use remote_file_procedure_ca.Prelude.{
  ℕ, zero, suc, ◌+◌, ◌<◌, ◌≡◌, ◌≢◌, refl, sym, ◌∙◌, ap, List, [], ◌∷◌, ◌++◌, arith, get_elem?, set,
  some, All, ltb, lt→ltb, length, ℤ, pos, negsuc, rounds, ltb_ℤ, ltb_ℤ-pos, replicate, true,
  length-set,
}
use remote_file_procedure_ca.Result.{Result, ok, ◌>>=◌}
use remote_file_procedure_ca.Marshall.{store}
use remote_file_procedure_ca.Memory.{Heap, malloc, count}
use remote_file_procedure_ca.Memory.Balance.{Balance, count-append, count-set, free-Balance}
use remote_file_procedure_ca.Memory.Arrays.{
  Arrays, init_blocks, pack_block, field_blocks, deserialize_blocks, free_vals, free_request,
  free_response,
}

abbrev pub frame_of : Arrays → List ℕ
frame_of a = a.vals_block ∷ a.sizes_block ∷ a.struct_block ∷ []

-- The structure is whole, and besides its blocks those of `base` are in use.
abbrev pub IsOwned : Arrays → Heap → Heap → Type 0
IsOwned a base h = (length a.vals ≡ rounds a.num) × Balance (a.vals ++ frame_of a) base h

free_vals-Balance :
    (vals ps : List ℕ) (base h : Heap)
    → Balance (vals ++ ps) base h
    → (h' : Heap) × (free_vals (length vals) vals h ≡ ok h') × Balance ps base h'
unfolding free_vals
free_vals-Balance [] ps base h b = (h, refl, b)
free_vals-Balance (p ∷ vals) ps base h b =
    let (h1, freed, b1) = free-Balance p (vals ++ ps) base h b in
    let (h2, done, b2) = free_vals-Balance vals ps base h1 b1 in (h2, rw freed done, b2)

free_request-IsOwned :
    (a : Arrays) (base h : Heap)
    → IsOwned a base h
    → (h' : Heap) × (free_request a h ≡ ok h') × Balance [] base h'
unfolding free_request
free_request-IsOwned a base h (whole, b) =
    let (h1, vals_freed, b1) = free_vals-Balance a.vals (frame_of a) base h b in
    let (h2, freed2, b2) =
      free-Balance a.vals_block (a.sizes_block ∷ a.struct_block ∷ []) base h1 b1 in
    let (h3, freed3, b3) = free-Balance a.sizes_block (a.struct_block ∷ []) base h2 b2 in
    let (h4, freed4, b4) = free-Balance a.struct_block [] base h3 b3 in
    (h4, rw (sym whole, vals_freed, freed2, freed3) freed4, b4)

free_response-request : (a : Arrays) (h : Heap) → free_response a h ≡ free_request a h
unfolding free_response free_request
free_response-request a h = refl

count-replicate : (q n : ℕ) → count (suc q) (replicate n 0) ≡ 0
count-replicate q zero = refl
count-replicate q (suc n) = ground (arith, count-replicate q n)

ltb_rounds : (i : ℕ) (num : ℤ) → i < rounds num → ltb_ℤ (pos i) num ≡ true
ltb_rounds i (pos n) h = ltb_ℤ-pos i n ∙ lt→ltb i n h
ltb_rounds i (negsuc n) h = absurd (omega arith)

length-replicate : (n : ℕ) → length {A = ℕ} (replicate n 0) ≡ n
length-replicate zero = refl
length-replicate (suc n) = ap suc (length-replicate n)

init_blocks-IsOwned : (num : ℤ) (h : Heap) → IsOwned (init_blocks num h).0 h (init_blocks num h).1
unfolding init_blocks
init_blocks-IsOwned (pos n) h = (
  length-replicate n,
  λ q. ground (
    arith,
    count-append (suc q) (replicate n 0) (frame_of (init_blocks (pos n) h).0),
    count-replicate q n,
  ),
)
init_blocks-IsOwned (negsuc n) h = (refl, λ q. ground arith)

pack_block-IsOwned :
    (a : Arrays) (base h : Heap) (i : ℕ)
    → IsOwned a base h
    → i < rounds a.num
    → get_elem? a.vals i ≡ some 0
    → (h' : Heap) × (pack_block a i h ≡ ok (record a { vals = set a.vals i (suc h.next) }, h'))
      × IsOwned (record a { vals = set a.vals i (suc h.next) }) base h'
unfolding pack_block store
pack_block-IsOwned a base h i (whole, b) small empty =
    let in_num : ltb_ℤ (pos i) a.num ≡ true = ltb_rounds i a.num small in
    let in_vals : ltb i (length a.vals) ≡ true = lt→ltb i (length a.vals) (omega (arith, whole)) in
    (
      (malloc h).1,
      rw (in_num, in_vals) refl,
      (
        length-set a.vals i (suc h.next) ∙ whole,
        λ q. ground (
          arith,
          b q,
          count-append (suc q) a.vals (frame_of a),
          count-append (suc q) (set a.vals i (suc h.next)) (frame_of a),
          count-set q a.vals i (suc h.next) empty,
        ),
      ),
    )

-- `pack_` or `marshall_` calls for these offsets, one after the other.
abbrev pub pack_blocks : List ℕ → Arrays → Heap → Result (Arrays × Heap)
pack_blocks [] a h = ok (a, h)
pack_blocks (i ∷ offsets) a h = pack_block a i h >>= λ r. pack_blocks offsets r.0 r.1

-- Offsets of the structure, none of them twice.
abbrev pub AreDistinct : ℕ → List ℕ → Type 0
AreDistinct n [] = Unit
AreDistinct n (i ∷ offsets) = (i < n) × All (λ j. j ≢ i) offsets × AreDistinct n offsets

abbrev AreEmpty : List ℕ → List ℕ → Type 0
AreEmpty vals [] = Unit
AreEmpty vals (i ∷ offsets) = (get_elem? vals i ≡ some 0) × AreEmpty vals offsets

get_elem?-set_other : (xs : List ℕ) (i j p : ℕ) → j ≢ i → get_elem? (set xs i p) j ≡ get_elem? xs j
get_elem?-set_other [] i j p ne = refl
get_elem?-set_other (x ∷ xs) zero zero p ne = absurd (ne refl)
get_elem?-set_other (x ∷ xs) zero (suc j) p ne = refl
get_elem?-set_other (x ∷ xs) (suc i) zero p ne = refl
get_elem?-set_other (x ∷ xs) (suc i) (suc j) p ne =
    get_elem?-set_other xs i j p (λ e. ne (ap suc e))

AreEmpty-set :
    (vals offsets : List ℕ) (i p : ℕ)
    → All (λ j. j ≢ i) offsets
    → AreEmpty vals offsets
    → AreEmpty (set vals i p) offsets
AreEmpty-set vals [] i p distinct empty = tt
AreEmpty-set vals (j ∷ offsets) i p (ne, distinct) (first, empty) =
    (get_elem?-set_other vals i j p ne ∙ first, AreEmpty-set vals offsets i p distinct empty)

pack_blocks-IsOwned :
    (offsets : List ℕ) (a : Arrays) (base h : Heap)
    → IsOwned a base h
    → AreDistinct (rounds a.num) offsets
    → AreEmpty a.vals offsets
    → (a' : Arrays) × (h' : Heap) × (pack_blocks offsets a h ≡ ok (a', h')) × IsOwned a' base h'
pack_blocks-IsOwned [] a base h owned distinct empty = (a, h, refl, owned)
pack_blocks-IsOwned (i ∷ offsets) a base h owned (small, others, distinct) (first, empty) =
    let (h1, packed, owned1) = pack_block-IsOwned a base h i owned small first in
    let (a', h', done, owned') =
      pack_blocks-IsOwned offsets (record a { vals = set a.vals i (suc h.next) }) base h1 owned1
        distinct (AreEmpty-set a.vals offsets i (suc h.next) others empty) in
    (a', h', rw packed done, owned')

get_elem?-replicate : (n i : ℕ) → i < n → get_elem? {A = ℕ} (replicate n 0) i ≡ some 0
get_elem?-replicate zero i h = absurd (omega arith)
get_elem?-replicate (suc n) zero h = refl
get_elem?-replicate (suc n) (suc i) h = get_elem?-replicate n i (omega arith)

AreEmpty-replicate :
    (n : ℕ) (offsets : List ℕ) → AreDistinct n offsets → AreEmpty (replicate n 0) offsets
AreEmpty-replicate n [] distinct = tt
AreEmpty-replicate n (i ∷ offsets) (small, others, distinct) =
    (get_elem?-replicate n i small, AreEmpty-replicate n offsets distinct)

init_blocks-AreEmpty :
    (num : ℤ) (h : Heap) (offsets : List ℕ)
    → AreDistinct (rounds num) offsets
    → AreEmpty (init_blocks num h).0.vals offsets
unfolding init_blocks
init_blocks-AreEmpty num h offsets distinct = AreEmpty-replicate (rounds num) offsets distinct

init_blocks-num : (num : ℤ) (h : Heap) → (init_blocks num h).0.num ≡ num
unfolding init_blocks
init_blocks-num num h = refl

-- A request that is initialised, packed at any offsets but at none twice, and freed: no assertion
-- fails, no block is freed twice, and in use are the blocks from before, and no others. The same
-- holds of a response.
pub pack_blocks-free_request :
    (num : ℤ) (offsets : List ℕ) (h : Heap)
    → AreDistinct (rounds num) offsets
    → (a : Arrays) × (h1 h2 : Heap) × (pack_blocks offsets
          (init_blocks num h).0
          (init_blocks num h).1
        ≡ ok (a, h1))
      × (free_request a h1 ≡ ok h2)
      × (free_response a h1 ≡ ok h2)
      × Balance [] h h2
pack_blocks-free_request num offsets h distinct =
    let (a, h1, packed, owned) =
      pack_blocks-IsOwned offsets (init_blocks num h).0 h (init_blocks num h).1
        (init_blocks-IsOwned num h) (rw (init_blocks-num num h) distinct)
        (init_blocks-AreEmpty num h offsets distinct) in
    let (h2, freed, balance) = free_request-IsOwned a h h1 owned in
    (a, h1, h2, packed, freed, free_response-request a h1 ∙ freed, balance)

length-field_blocks : (n : ℕ) (h : Heap) → length (field_blocks n h).0 ≡ n
length-field_blocks zero h = refl
length-field_blocks (suc n) h = ap suc (length-field_blocks n (malloc h).1)

field_blocks-live :
    (n q : ℕ) (h : Heap)
    → count q (field_blocks n h).1.live ≡ count q (field_blocks n h).0 + count q h.live
field_blocks-live zero q h = omega arith
field_blocks-live (suc n) q h = ground (arith, field_blocks-live n q (malloc h).1)

deserialize_blocks-IsOwned :
    (num : ℤ) (h : Heap) → IsOwned (deserialize_blocks num h).0 h (deserialize_blocks num h).1
unfolding deserialize_blocks
deserialize_blocks-IsOwned (pos n) h =
    let h3 = (malloc (malloc (malloc h).1).1).1 in
    (
      length-field_blocks n h3,
      λ q. ground (
        arith,
        count-append (suc q) (field_blocks n h3).0 (frame_of (deserialize_blocks (pos n) h).0),
        field_blocks-live n (suc q) h3,
      ),
    )
deserialize_blocks-IsOwned (negsuc n) h = (refl, λ q. ground arith)

-- A request that `deserialize_request` has built is freed without a fault, and then in use are the
-- blocks from before, and no others, whatever count of parameters the input has. The same holds of
-- a response.
pub deserialize_blocks-free_request :
    (num : ℤ) (h : Heap)
    → (h' : Heap) × (free_request (deserialize_blocks num h).0 (deserialize_blocks num h).1 ≡ ok h')
      × (free_response (deserialize_blocks num h).0 (deserialize_blocks num h).1 ≡ ok h')
      × Balance [] h h'
deserialize_blocks-free_request num h =
    let a = (deserialize_blocks num h).0 in
    let h1 = (deserialize_blocks num h).1 in
    let (h', freed, balance) = free_request-IsOwned a h h1 (deserialize_blocks-IsOwned num h) in
    (h', freed, free_response-request a h1 ∙ freed, balance)
