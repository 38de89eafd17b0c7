-- ===== src/Text/Search.antt =====
-- Where `strstr` stops in a text that is built from parts.
use remote_file_procedure_ca.Prelude.{
  ℕ, zero, suc, ◌+◌, ◌≤◌, ◌<◌, ◌≡◌, refl, ◌≢◌, true, false, Option, none, some, Option_map, [], ◌∷◌,
  ◌++◌, inl, inr, arith, length, replicate, Option-cases, Bool-cases, All, ◌==◌,
}
use remote_file_procedure_ca.Text.{Bytes, starts_with, strstr, c_string, Lacks, IsLine}

map_zero : (o : Option ℕ) → o ≡ Option_map (λ k. 0 + k) o
map_zero none = refl
map_zero (some k) = ground arith

map_suc :
    (n : ℕ) (o : Option ℕ)
    → Option_map suc (Option_map (λ k. n + k) o) ≡ Option_map (λ k. suc n + k) o
map_suc n none = refl
map_suc n (some k) = ground arith

past : (b c : ℕ) (n text : Bytes) → c ≢ b → starts_with (b ∷ n) (c ∷ text) ≡ false
past b c n text h = ground arith

ltb_nul : (c : ℕ) → c ≢ 0 → (c == 0) ≡ false
ltb_nul c h = ground arith

pub starts_with-append : (n text : Bytes) → starts_with n (n ++ text) ≡ true
starts_with-append [] text = refl
starts_with-append (c ∷ n) text = ground (arith, starts_with-append n text)

-- The search goes past a prefix that holds neither a NUL nor the first byte of the needle.
pub strstr-append :
    (b : ℕ) (n p text : Bytes)
    → Lacks b p
    → strstr (p ++ text) (b ∷ n) ≡ Option_map (λ k. length p + k) (strstr text (b ∷ n))
unfolding strstr
strstr-append b n [] text h = map_zero (strstr text (b ∷ n))
strstr-append b n (c ∷ p) text h =
    rw (past b c n (p ++ text) h.0.1, ltb_nul c h.0.0, strstr-append b n p text h.1)
      (map_suc (length p) (strstr text (b ∷ n)))

pub strstr_here : (b : ℕ) (n text : Bytes) → strstr (b ∷ n ++ text) (b ∷ n) ≡ some 0
unfolding strstr
strstr_here b n text = rw (starts_with-append (b ∷ n) text)

-- The first line break behind a line is the one that ends it.
pub strstr-line :
    (s rest : Bytes) → IsLine s → strstr (s ++ 13 ∷ 10 ∷ rest) (13 ∷ 10 ∷ []) ≡ some (length s)
unfolding strstr
strstr-line [] rest h = refl
strstr-line (c ∷ []) rest h = ground arith
strstr-line (c ∷ d ∷ s) rest h = ground (arith, strstr-line (d ∷ s) rest h.2)

-- A search cannot stop past the end.
pub strstr-lt :
    (text : Bytes) (b : ℕ) (n : Bytes) (k : ℕ) → strstr text (b ∷ n) ≡ some k → k < length text
unfolding strstr
strstr-lt [] b n k h = ground arith
strstr-lt (c ∷ text) b n k h = elim (Option-cases (strstr text (b ∷ n))) [
  | inl e ↦ ground arith
  | inr (j, e) ↦ ground (arith, strstr-lt text b n j e)
]

pub c_string-append : (s rest : Bytes) → All (λ c. c ≢ 0) s → c_string (s ++ 0 ∷ rest) ≡ s
unfolding c_string
c_string-append [] rest h = refl
c_string-append (c ∷ s) rest h = ground (arith, c_string-append s rest h.1)

pub IsLine-append : (p s : Bytes) → Lacks 13 p → IsLine s → IsLine (p ++ s)
IsLine-append [] s h l = l
IsLine-append (c ∷ p) s h l = (h.0.0, ground arith, IsLine-append p s h.1 l)

pub IsLine-of_Lacks : (p : Bytes) → Lacks 13 p → IsLine p
IsLine-of_Lacks [] h = tt
IsLine-of_Lacks (c ∷ p) h = (h.0.0, ground arith, IsLine-of_Lacks p h.1)

-- A match lies inside the text.
starts_with-le : (n text : Bytes) → starts_with n text ≡ true → length n ≤ length text
starts_with-le [] text h = omega arith
starts_with-le (b ∷ n) [] h = cc
starts_with-le (b ∷ n) (c ∷ text) h = ground (arith, starts_with-le n text)

pub strstr-le :
    (text : Bytes) (b : ℕ) (n : Bytes) (k : ℕ)
    → strstr text (b ∷ n) ≡ some k
    → k + length (b ∷ n) ≤ length text
unfolding strstr
strstr-le [] b n k h = cc
strstr-le (c ∷ text) b n k h = elim (Bool-cases (starts_with (b ∷ n) (c ∷ text))) [
  | inl here ↦ ground (arith, starts_with-le (b ∷ n) (c ∷ text) here)
  | inr later ↦ elim (Option-cases (strstr text (b ∷ n))) [
    | inl e ↦ ground arith
    | inr (j, e) ↦ ground (arith, strstr-le text b n j e)
  ]
]

-- More text behind does not change a comparison that ends inside.
starts_with-append_le :
    (n text more : Bytes)
    → length n ≤ length text
    → starts_with n (text ++ more) ≡ starts_with n text
starts_with-append_le [] text more h = refl
starts_with-append_le (b ∷ n) [] more h = absurd (omega arith)
starts_with-append_le (b ∷ n) (c ∷ text) more h =
    rw (starts_with-append_le n text more (omega arith))

-- Nor does it move a match.
pub strstr-append_more :
    (text : Bytes) (b : ℕ) (n more : Bytes) (k : ℕ)
    → strstr text (b ∷ n) ≡ some k
    → strstr (text ++ more) (b ∷ n) ≡ some k
unfolding strstr
strstr-append_more [] b n more k h = cc
strstr-append_more (c ∷ text) b n more k h =
    let inside : length (b ∷ n) ≤ length (c ∷ text) = omega (arith, strstr-le (c ∷ text) b n k h) in
    let same = starts_with-append_le (b ∷ n) (c ∷ text) more inside in
    elim (Option-cases (strstr text (b ∷ n))) [
      | inl e ↦ ground (arith, same)
      | inr (j, e) ↦ ground (arith, same, strstr-append_more text b n more j e)
    ]

-- The cells behind a text are NULs, and a search does not stop in them.
abbrev pub IsNulFree : Bytes → Type 0
IsNulFree = All (λ c. c ≢ 0)

starts_with-zeros :
    (n text : Bytes) (k : ℕ)
    → IsNulFree n
    → starts_with n (text ++ replicate k 0) ≡ starts_with n text
starts_with-zeros [] text k h = refl
starts_with-zeros (b ∷ n) [] zero h = refl
starts_with-zeros (b ∷ n) [] (suc k) h = ground arith
starts_with-zeros (b ∷ n) (c ∷ text) k h = rw (starts_with-zeros n text k h.1)

pub strstr-zeros :
    (text : Bytes) (b : ℕ) (n : Bytes) (k : ℕ)
    → IsNulFree (b ∷ n)
    → strstr (text ++ replicate k 0) (b ∷ n) ≡ strstr text (b ∷ n)
unfolding strstr
strstr-zeros [] b n zero h = refl
strstr-zeros [] b n (suc k) h = let no_match : (b == 0) ≡ false = ground arith in rw no_match
strstr-zeros (c ∷ text) b n k h = rw (starts_with-zeros n text k h.1, strstr-zeros text b n k h)
