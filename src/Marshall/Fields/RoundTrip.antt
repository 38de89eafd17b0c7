-- ===== src/Marshall/Fields/RoundTrip.antt =====
-- The fields of requests and responses in rpc/marshall.c and their layout.
use remote_file_procedure_ca.Prelude.{
  ℕ, ◌<◌, ◌^◌, ◌≡◌, refl, ap, inl, true, some, List, [], ◌∷◌, ◌++◌, append_assoc, arith, All,
  length, length-append, take-append, drop-append_add, ltb, lt→ltb, le→leb,
}
use remote_file_procedure_ca.Text.{Bytes, strstr}
use remote_file_procedure_ca.Text.Search.{strstr-line, IsLine-of_Lacks}
use remote_file_procedure_ca.Number.{print_size}
use remote_file_procedure_ca.Number.RoundTrip.{sscanf_size-print}
use remote_file_procedure_ca.Number.Width.{length-print_size, Lacks-print_size}
use remote_file_procedure_ca.Result.{ok}
use remote_file_procedure_ca.Marshall.{Block, temp_buf_size, line_split, copy_block, temp_line}
use remote_file_procedure_ca.Marshall.Fields.{
  serialize_fields, scanned_size, size_line, read_field, deserialize_fields,
}

-- The heap block of a field with this content.
abbrev pub block_of : Bytes → Block
block_of content = some (content ++ 0 ∷ [])

abbrev pub sizes_of : List Bytes → List ℕ
sizes_of [] = []
sizes_of (c ∷ cs) = length c ∷ sizes_of cs

abbrev pub blocks_of : List Bytes → List Block
blocks_of [] = []
blocks_of (c ∷ cs) = block_of c ∷ blocks_of cs

abbrev pub AreSized : List Bytes → Type 0
AreSized = All (λ c. length c < 2 ^ 64)

-- The layout of the fields: for each a line with its size, and a line that is its content.
unfoldable pub layout : List Bytes → Bytes
layout [] = []
layout (c ∷ cs) = print_size (length c) ++ (line_split ++ (c ++ (line_split ++ layout cs)))

copy_block-whole : (c : Bytes) → copy_block (block_of c) (length c) ≡ ok c
unfolding copy_block
copy_block-whole c =
    rw (le→leb (length c) (length (c ++ 0 ∷ [])) (omega (arith, length-append c (0 ∷ []))))
      (ap ok (take-append c (0 ∷ [])))

temp_line-size :
    (n : ℕ) → n < 2 ^ 64 → temp_line (print_size n ++ line_split) ≡ ok (print_size n ++ line_split)
unfolding temp_line
temp_line-size n h = rw (
    lt→ltb (length (print_size n ++ line_split)) temp_buf_size
      (omega (arith, length-append (print_size n) line_split, length-print_size n h)))

-- Writing the fields gives their layout.
pub serialize_fields-layout :
    (cs : List Bytes)
    → AreSized cs
    → serialize_fields (length cs) (sizes_of cs) (blocks_of cs) ≡ ok (layout cs)
unfolding serialize_fields layout
serialize_fields-layout [] h = refl
serialize_fields-layout (c ∷ cs) (hc, hs) =
    rw (temp_line-size (length c) hc, copy_block-whole c, serialize_fields-layout cs hs)
      (ap ok (append_assoc (print_size (length c)) line_split (c ++ (line_split ++ layout cs))))

size_line-print :
    (n : ℕ) (rest : Bytes)
    → n < 2 ^ 64
    → size_line (print_size n ++ (line_split ++ rest)) ≡ ok (n, rest)
unfolding size_line
size_line-print n rest h =
    let p = print_size n in
    let found : strstr (p ++ (line_split ++ rest)) line_split ≡ some (length p) =
      strstr-line p rest (IsLine-of_Lacks p (Lacks-print_size 13 n (inl (omega arith)))) in
    let fits : ltb (length p) temp_buf_size ≡ true =
      lt→ltb (length p) temp_buf_size (omega (arith, length-print_size n h)) in
    rw
      (
        found,
        size_line,
        fits,
        take-append p (line_split ++ rest),
        sscanf_size-print n h,
        scanned_size,
      )
      (ap (λ next. ok (n, next)) (drop-append_add p (line_split ++ rest) 2))

read_field-layout :
    (c rest : Bytes)
    → length c < 2 ^ 64
    → read_field (print_size (length c) ++ (line_split ++ (c ++ (line_split ++ rest))))
      ≡ ok (length c, c ++ 0 ∷ [], rest)
unfolding read_field
read_field-layout c rest h = rw (size_line-print (length c) (c ++ (line_split ++ rest)) h) (
    rw (
      le→leb (length c) (length (c ++ (line_split ++ rest)))
          (omega (arith, length-append c (line_split ++ rest))),
      take-append c (line_split ++ rest),
      drop-append_add c (line_split ++ rest) 2,
    ))

-- Reading the layout gives the fields.
pub deserialize_fields-layout :
    (cs : List Bytes) (rest : Bytes)
    → AreSized cs
    → deserialize_fields (length cs) (layout cs ++ rest) ≡ ok (sizes_of cs, blocks_of cs)
unfolding deserialize_fields layout
deserialize_fields-layout [] rest h = refl
deserialize_fields-layout (c ∷ cs) rest (hc, hs) =
    rw (regroup, read_field-layout c (layout cs ++ rest) hc, deserialize_fields-layout cs rest hs)
  where
    regroup :
        (print_size (length c) ++ (line_split ++ (c ++ (line_split ++ layout cs)))) ++ rest
        ≡ print_size (length c) ++ (line_split ++ (c ++ (line_split ++ (layout cs ++ rest))))
    regroup = simp append_assoc
