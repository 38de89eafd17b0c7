-- ===== src/Memory.antt =====
-- `malloc`, `calloc` and `free` as rpc/marshall.c calls them: which addresses are in use.
--
-- Here a structure is the addresses of its blocks, and the other modules have their contents. Address
-- 0 is NULL. An allocation succeeds and gives an address that has not been given before.
pub mod Balance
pub mod Arrays
pub mod Tree
use remote_file_procedure_ca.Prelude.{
  ℕ, zero, suc, ◌+◌, List, [], ◌∷◌, ℤ, pos, negsuc, ltb, ◌==◌, if◌then◌else◌,
}
use remote_file_procedure_ca.Result.{Result, ok, err, bad_memory}

pub record Heap : Type 0 where
  pub live : List ℕ
  pub next : ℕ

abbrev pub malloc : Heap → ℕ × Heap
malloc h = (suc h.next, record { live = suc h.next ∷ h.live; next = suc h.next })

-- `calloc` of a negative count asks for more than there is.
abbrev pub calloc : ℤ → Heap → ℕ × Heap
calloc (pos n) h = malloc h
calloc (negsuc n) h = (0, h)

-- How many times `p` stands in the list.
abbrev pub count : ℕ → List ℕ → ℕ
count p [] = 0
count p (x ∷ xs) = (if x == p then 1 else 0) + count p xs

-- The list without the first `p` of it.
abbrev pub delete : ℕ → List ℕ → List ℕ
delete p [] = []
delete p (x ∷ xs) = let rest = delete p xs in if x == p then xs else x ∷ rest

-- Of an address that is not in use, `free` is undefined; of NULL it does nothing.
unfoldable pub free : ℕ → Heap → Result Heap
free zero h = ok h
free (suc p) h =
    if ltb 0 (count (suc p) h.live)
    then ok (record h { live = delete (suc p) h.live })
    else err bad_memory
