-- ===== src/Marshall/Header.antt =====
-- The header lines `Name:number` of requests and responses.
use remote_file_procedure_ca.Prelude.{
  ℕ, ◌+◌, ◌-◌, ◌<◌, ◌≤◌, ◌≡◌, refl, ap, inl, some, [], ◌++◌, append_assoc, arith, ℤ, FitsInt,
  length, length-append, take, take-append, drop, drop-append_add, lt→ltb,
}
use remote_file_procedure_ca.Text.{Bytes, strstr, Lacks, IsLine}
use remote_file_procedure_ca.Text.Search.{
  strstr-line, strstr_here, strstr-append, IsLine-append, IsLine-of_Lacks,
}
use remote_file_procedure_ca.Number.{print_int}
use remote_file_procedure_ca.Number.RoundTrip.{sscanf_int-print}
use remote_file_procedure_ca.Number.Width.{length-print_int, Lacks-print_int}
use remote_file_procedure_ca.Result.{ok}
use remote_file_procedure_ca.Marshall.{
  line_split, colon, temp_line, temp_buf_size, header_line, scanned_field,
}

-- The line `name:z`.
unfoldable pub number_line : Bytes → ℤ → Bytes
number_line name z = name ++ (colon ++ (print_int z ++ line_split))

pub temp_line-header :
    (name : Bytes) (z : ℤ)
    → length name ≤ 64
    → FitsInt z
    → temp_line (name ++ (colon ++ (print_int z ++ line_split))) ≡ ok (number_line name z)
unfolding temp_line number_line
temp_line-header name z short fits =
    let text = name ++ (colon ++ (print_int z ++ line_split)) in
    rw (
      lt→ltb (length text) temp_buf_size (
        omega (
          arith,
          length-append name (colon ++ (print_int z ++ line_split)),
          length-append (print_int z) line_split,
          length-print_int z (omega arith),
        )))

-- A name holds neither a NUL, a colon nor a carriage return.
abbrev pub IsName : Bytes → Type 0
IsName name = Lacks b':' name × Lacks 13 name

header_line_at :
    (buf : Bytes) (line_end at_colon len : ℕ)
    → strstr buf line_split ≡ some line_end
    → strstr buf colon ≡ some at_colon
    → at_colon + 1 + len ≡ line_end
    → len < temp_buf_size
    → header_line buf ≡ ok (take len (drop (at_colon + 1) buf), drop (line_end + 2) buf)
unfolding header_line
header_line_at buf line_end at_colon len found_end found_colon split short =
    let len_eq : line_end - at_colon - 1 ≡ len = omega arith in
    rw (
      found_end,
      header_line,
      found_colon,
      lt→ltb at_colon line_end (omega arith),
      len_eq,
      lt→ltb len temp_buf_size short,
    )

colon_found :
    (name rest : Bytes)
    → Lacks b':' name
    → strstr (name ++ (colon ++ rest)) colon ≡ some (length name)
colon_found name rest h =
    rw (strstr-append b':' [] name (colon ++ rest) h, strstr_here b':' [] rest)
      (ap some (omega arith))

-- A header line is split at its first colon, and the text behind it may hold more of them.
pub header_line-text :
    (name text rest : Bytes)
    → IsName name
    → IsLine text
    → length text < temp_buf_size
    → header_line ((name ++ (colon ++ (text ++ line_split))) ++ rest) ≡ ok (text, rest)
header_line-text name text rest (no_colon, no_cr) line short =
    let front = name ++ (colon ++ text) in
    let tail = line_split ++ rest in
    let buf_eq : (name ++ (colon ++ (text ++ line_split))) ++ rest
        ≡ name ++ (colon ++ (text ++ tail)) =
      simp append_assoc in
    let as_line : name ++ (colon ++ (text ++ tail)) ≡ front ++ tail = simp append_assoc in
    let is_line : IsLine front =
      IsLine-append name (colon ++ text) no_cr (omega arith, refl, line) in
    let content : drop (length name + 1) (name ++ (colon ++ (text ++ tail))) ≡ text ++ tail =
      drop-append_add name (colon ++ (text ++ tail)) 1 in
    let next : drop (length front + 2) (name ++ (colon ++ (text ++ tail))) ≡ rest =
      rw as_line (drop-append_add front tail 2) in
    rw (
      buf_eq,
      header_line_at (name ++ (colon ++ (text ++ tail))) (length front) (length name) (length text)
          (rw as_line (strstr-line front rest is_line)) (colon_found name (text ++ tail) no_colon)
          (omega (arith, length-append name (colon ++ text))) short,
      content,
      next,
      take-append text tail,
    )

pub header_line-print :
    (name : Bytes) (z : ℤ) (rest : Bytes)
    → IsName name
    → FitsInt z
    → header_line (number_line name z ++ rest) ≡ ok (print_int z, rest)
unfolding number_line
header_line-print name z rest is_name fits =
    header_line-text name (print_int z) rest is_name
      (IsLine-of_Lacks (print_int z) (Lacks-print_int 13 z (inl (omega arith))))
      (omega (arith, length-print_int z (omega arith)))

pub scanned_field-print : (z : ℤ) → FitsInt z → scanned_field (print_int z) ≡ ok z
scanned_field-print z h = rw (sscanf_int-print z h, scanned_field)
