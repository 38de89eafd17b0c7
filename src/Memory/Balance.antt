-- ===== src/Memory/Balance.antt =====
-- Which blocks of the heap are whose.
use remote_file_procedure_ca.Prelude.{
  ℕ, zero, suc, ◌+◌, ◌<◌, ◌≡◌, refl, List, [], ◌∷◌, ◌++◌, arith, get_elem?, set, some, ◌==◌,
  if◌then◌else◌, lt→ltb,
}
use remote_file_procedure_ca.Result.{ok}
use remote_file_procedure_ca.Memory.{Heap, count, delete, free}

-- In use are the blocks of `base`, and these besides. A NULL among them does not count.
abbrev pub Balance : List ℕ → Heap → Heap → Type 0
Balance ps base h = (q : ℕ) → count (suc q) h.live ≡ count (suc q) ps + count (suc q) base.live

pub count-append : (q : ℕ) (xs ys : List ℕ) → count q (xs ++ ys) ≡ count q xs + count q ys
count-append q [] ys = omega arith
count-append q (x ∷ xs) ys = omega (arith, count-append q xs ys)

count-delete :
    (p q : ℕ) (xs : List ℕ)
    → 0 < count p xs
    → (if p == q then 1 else 0) + count q (delete p xs) ≡ count q xs
count-delete p q [] h = absurd (omega arith)
count-delete p q (x ∷ xs) h = ground (arith, count-delete p q xs)

-- A new value in an empty slot.
pub count-set :
    (q : ℕ) (xs : List ℕ) (i p : ℕ)
    → get_elem? xs i ≡ some 0
    → count (suc q) (set xs i p) ≡ (if p == suc q then 1 else 0) + count (suc q) xs
count-set q [] i p empty = ground arith
count-set q (x ∷ xs) zero p empty = ground arith
count-set q (x ∷ xs) (suc i) p empty = ground (arith, count-set q xs i p empty)

pub free-Balance :
    (p : ℕ) (ps : List ℕ) (base h : Heap)
    → Balance (p ∷ ps) base h
    → (h' : Heap) × (free p h ≡ ok h') × Balance ps base h'
unfolding free
free-Balance zero ps base h b = (h, refl, λ q. ground (arith, b q))
free-Balance (suc p) ps base h b =
    let alive : 0 < count (suc p) h.live = ground (arith, b p) in
    (
      record h { live = delete (suc p) h.live },
      rw (lt→ltb 0 (count (suc p) h.live) alive) refl,
      λ q. ground (arith, b q, count-delete (suc p) (suc q) h.live alive),
    )
