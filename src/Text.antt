-- ===== src/Text.antt =====
-- Bytes and C strings: the parts of <string.h> that rpc/socket.c and rpc/marshall.c call. A block
-- of memory is the list of its bytes, and a pointer into it is the rest of the list from there on.
pub mod Search
use Prim.Native.Char.{code}
use remote_file_procedure_ca.Prelude.{
  ℕ, zero, suc, ◌+◌, ◌≡◌, refl, ◌≢◌, String, Bool, true, false, ◌&&◌, Option, none, some,
  Option_map, List, [], ◌∷◌, ◌++◌, arith, All, ◌==◌, if◌then◌else◌,
}

abbrev pub Bytes : Type 0
Bytes = List ℕ

-- The bytes of an ASCII literal.
abbrev pub codes : String → Bytes
codes String.[] = []
codes (String.◌∷◌ c s) = code c ∷ codes s

-- `strncmp(text, needle, strlen(needle)) == 0`.
abbrev pub starts_with : Bytes → Bytes → Bool
starts_with [] text = true
starts_with (n ∷ needle) [] = false
starts_with (n ∷ needle) (c ∷ text) = n == c && starts_with needle text

-- `strstr(text, needle)` as an offset: the search ends at the terminating NUL, or where the list
-- ends, which stands for a NUL too.
unfoldable pub strstr : Bytes → Bytes → Option ℕ
strstr [] needle = if starts_with needle [] then some 0 else none
strstr (c ∷ text) needle =
    let rest = strstr text needle in
    if starts_with needle (c ∷ text) then some 0 else if c == 0 then none else Option_map suc rest

-- The text that a `char *` points to: the bytes before the NUL.
unfoldable pub c_string : Bytes → Bytes
c_string [] = []
c_string (c ∷ text) = let rest = c_string text in if c == 0 then [] else c ∷ rest

-- No byte is a NUL or the byte `b`, so a search for a text that begins with `b` goes past.
abbrev pub Lacks : ℕ → Bytes → Type 0
Lacks b = All (λ c. (c ≢ 0) × (c ≢ b))

-- A C string with no line break in it.
abbrev pub IsLine : Bytes → Type 0
IsLine [] = Unit
IsLine (c ∷ s) = (c ≢ 0) × (starts_with (13 ∷ 10 ∷ []) (c ∷ s) ≡ false) × IsLine s

strstr_crlf : strstr (codes "ab\r\r\ncd\r\n") (codes "\r\n") ≡ some 3
unfolding strstr
strstr_crlf = refl

strstr_nul : strstr (b'a' ∷ 0 ∷ codes "\r\n") (codes "\r\n") ≡ none
unfolding strstr
strstr_nul = refl
