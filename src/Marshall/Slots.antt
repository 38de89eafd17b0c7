-- ===== src/Marshall/Slots.antt =====
-- The arrays of a request or of a response while it is packed: a slot is empty, as `calloc` left
-- it, or holds its content.
use remote_file_procedure_ca.Prelude.{
  ℕ, zero, suc, ◌<◌, ◌≡◌, refl, ap, Option, none, some, List, [], ◌∷◌, length, set, replicate,
  arith, lt→ltb, ℤ, FitsLong,
}
use remote_file_procedure_ca.Text.{Bytes}
use remote_file_procedure_ca.Number.{print_int}
use remote_file_procedure_ca.Number.Width.{length-print_int}
use remote_file_procedure_ca.Result.{ok}
use remote_file_procedure_ca.Marshall.{Block, store, temp_line, temp_buf_size}
use remote_file_procedure_ca.Marshall.Fields.RoundTrip.{sizes_of, blocks_of, block_of}

abbrev pub slot_size : Option Bytes → ℕ
slot_size none = 0
slot_size (some c) = length c

abbrev pub slot_block : Option Bytes → Block
slot_block none = none
slot_block (some c) = block_of c

abbrev pub slot_sizes : List (Option Bytes) → List ℕ
slot_sizes [] = []
slot_sizes (o ∷ os) = slot_size o ∷ slot_sizes os

abbrev pub slot_blocks : List (Option Bytes) → List Block
slot_blocks [] = []
slot_blocks (o ∷ os) = slot_block o ∷ slot_blocks os

abbrev pub filled : List Bytes → List (Option Bytes)
filled [] = []
filled (c ∷ cs) = some c ∷ filled cs

pub length-slot_sizes : (os : List (Option Bytes)) → length (slot_sizes os) ≡ length os
length-slot_sizes [] = refl
length-slot_sizes (o ∷ os) = ap suc (length-slot_sizes os)

pub length-slot_blocks : (os : List (Option Bytes)) → length (slot_blocks os) ≡ length os
length-slot_blocks [] = refl
length-slot_blocks (o ∷ os) = ap suc (length-slot_blocks os)

pub set-slot_sizes :
    (os : List (Option Bytes)) (i : ℕ) (c : Bytes)
    → set (slot_sizes os) i (length c) ≡ slot_sizes (set os i (some c))
set-slot_sizes [] i c = refl
set-slot_sizes (o ∷ os) zero c = refl
set-slot_sizes (o ∷ os) (suc i) c = ap (λ l. slot_size o ∷ l) (set-slot_sizes os i c)

pub set-slot_blocks :
    (os : List (Option Bytes)) (i : ℕ) (c : Bytes)
    → set (slot_blocks os) i (block_of c) ≡ slot_blocks (set os i (some c))
set-slot_blocks [] i c = refl
set-slot_blocks (o ∷ os) zero c = refl
set-slot_blocks (o ∷ os) (suc i) c = ap (λ l. slot_block o ∷ l) (set-slot_blocks os i c)

pub slot_sizes-replicate : (n : ℕ) → slot_sizes (replicate n none) ≡ replicate n 0
slot_sizes-replicate zero = refl
slot_sizes-replicate (suc n) = ap (λ l. 0 ∷ l) (slot_sizes-replicate n)

pub slot_blocks-replicate : (n : ℕ) → slot_blocks (replicate n none) ≡ replicate n none
slot_blocks-replicate zero = refl
slot_blocks-replicate (suc n) = ap (λ l. none ∷ l) (slot_blocks-replicate n)

pub slot_sizes-filled : (cs : List Bytes) → slot_sizes (filled cs) ≡ sizes_of cs
slot_sizes-filled [] = refl
slot_sizes-filled (c ∷ cs) = ap (λ l. length c ∷ l) (slot_sizes-filled cs)

pub slot_blocks-filled : (cs : List Bytes) → slot_blocks (filled cs) ≡ blocks_of cs
slot_blocks-filled [] = refl
slot_blocks-filled (c ∷ cs) = ap (λ l. block_of c ∷ l) (slot_blocks-filled cs)

pub length-filled : (cs : List Bytes) → length (filled cs) ≡ length cs
length-filled [] = refl
length-filled (c ∷ cs) = ap suc (length-filled cs)

pub store-eq {ℓ} :
    {A : Type ℓ} (xs : List A) (i : ℕ) (v : A) → i < length xs → store xs i v ≡ ok (set xs i v)
unfolding store
store-eq xs i v h = rw (lt→ltb i (length xs) h)

pub temp_line-numeral : (z : ℤ) → FitsLong z → temp_line (print_int z) ≡ ok (print_int z)
unfolding temp_line
temp_line-numeral z h =
    rw (lt→ltb (length (print_int z)) temp_buf_size (omega (arith, length-print_int z h)))
