-- ===== src/Marshall/Print.antt =====
-- `print_request` and `print_response` of rpc/marshall.c, which write to `stdout`.
use remote_file_procedure_ca.Prelude.{
  ℕ, zero, suc, ◌+◌, ◌≡◌, refl, Bool, true, false, none, some, List, [], ◌∷◌, ◌++◌, ℤ, pos, rounds,
  ◌==◌, leb, length, take, if◌then◌else◌,
}
use remote_file_procedure_ca.Text.{Bytes, codes, c_string}
use remote_file_procedure_ca.Number.{print_int, print_size}
use remote_file_procedure_ca.Result.{
  Result, ok, err, bad_memory, ◌>>=◌, ◌>>◌, require, Returns, Returns-bind, Returns-require,
  Returns-then, IsOk, bind-IsOk,
}
use remote_file_procedure_ca.Marshall.{Block, header_line, scanned_field}
use remote_file_procedure_ca.Marshall.Fields.{deserialize_fields, read_field, size_line}
use remote_file_procedure_ca.Marshall.Request.{
  Request, header_command, header_param_num, deserialize_request,
}
use remote_file_procedure_ca.Marshall.Response.{Response, header_errno, header_return_num}

-- There is a NUL in the block.
abbrev pub has_nul : Bytes → Bool
has_nul [] = false
has_nul (c ∷ bytes) = let rest = has_nul bytes in if c == 0 then true else rest

-- `%s` of this pointer.
abbrev pub print_string : Block → Result Bytes
print_string none = err bad_memory
print_string (some bytes) = require (has_nul bytes) bad_memory >> ok (c_string bytes)

-- The lines of the loop from index `i` on.
unfoldable pub print_fields : ℕ → ℕ → List ℕ → List Block → Result Bytes
print_fields zero i sizes vals = ok []
print_fields (suc n) i [] vals = err bad_memory
print_fields (suc n) i (size ∷ sizes) [] = err bad_memory
print_fields (suc n) i (size ∷ sizes) (val ∷ vals) = do
  content ← print_string val
  rest ← print_fields n (i + 1) sizes vals
  ok (
      (codes "Param"
        ++ (print_int (pos (i + 1))
            ++ (codes ": size="
                ++ (print_size size ++ (codes " content=" ++ (content ++ (10 ∷ [])))))))
      ++ rest)

-- A line `name: value`.
abbrev pub print_number : Bytes → ℤ → Bytes
print_number name value = name ++ (codes ": " ++ (print_int value ++ (10 ∷ [])))

unfoldable pub print_request : Request → Result Bytes
unfolding print_fields
print_request request = do
  fields ← print_fields (rounds request.param_num) 0 request.param_sizes request.params
  ok (
      codes "========RPC Request========\n"
      ++ (print_number header_command request.command_op
          ++ (print_number header_param_num request.param_num
              ++ (fields ++ codes "===========End==========\n"))))

unfoldable pub print_response : Response → Result Bytes
unfolding print_fields
print_response response = do
  fields ← print_fields (rounds response.return_num) 0 response.return_sizes response.return_vals
  ok (
      codes "========RPC Response========\n"
      ++ (print_number header_errno response.errno_num
          ++ (print_number header_return_num response.return_num
              ++ (fields ++ codes "===========End==========\n"))))

-- Arrays that the loop prints without a fault.
abbrev ArePrinted : ℕ → List ℕ → List Block → Type 0
ArePrinted n sizes vals = (i : ℕ) → IsOk (print_fields n i sizes vals)

if_same : {A : Type 0} (b : Bool) (a : A) → (if b then a else a) ≡ a
if_same true a = refl
if_same false a = refl

pub has_nul-append : (bytes rest : Bytes) → has_nul (bytes ++ 0 ∷ rest) ≡ true
has_nul-append [] rest = refl
has_nul-append (c ∷ bytes) rest = rw (has_nul-append bytes rest) (if_same (c == 0) true)

read_field-has_nul : (buf : Bytes) → Returns (λ r. has_nul r.1 ≡ true) (read_field buf)
unfolding read_field
read_field-has_nul buf =
    Returns-then (λ r. has_nul r.1 ≡ true) (size_line buf) _
      (λ (size, content).
        Returns-require (λ (r : ℕ × Bytes × Bytes). has_nul r.1 ≡ true) (leb size (length content))
          bad_memory _ (has_nul-append (take size content) []))

deserialize_fields-ArePrinted :
    (n : ℕ) (buf : Bytes) → Returns (λ r. ArePrinted n r.0 r.1) (deserialize_fields n buf)
unfolding deserialize_fields print_fields
deserialize_fields-ArePrinted zero buf = λ i. ([], refl)
deserialize_fields-ArePrinted (suc n) buf =
    Returns-bind (λ r. has_nul r.1 ≡ true) (λ r. ArePrinted (suc n) r.0 r.1) (read_field buf) _
      (read_field-has_nul buf)
      (λ (size, block, next) terminated.
        Returns-bind (λ r. ArePrinted n r.0 r.1) (λ r. ArePrinted (suc n) r.0 r.1)
          (deserialize_fields n next) _ (deserialize_fields-ArePrinted n next)
          (λ (sizes, vals) printed i.
            rw terminated (bind-IsOk (print_fields n (i + 1) sizes vals) _ (printed (i + 1)))))

deserialize_request-printed :
    (buf : Bytes) → Returns (λ r. IsOk (print_request r)) (deserialize_request buf)
unfolding deserialize_request print_request
deserialize_request-printed buf =
    let Printed : Request → Type 0 = λ r. IsOk (print_request r) in
    Returns-then Printed (header_line buf) _ (λ (command, second).
      Returns-then Printed (scanned_field command) _ (λ command_op.
        Returns-then Printed (header_line second) _ (λ (number, third).
          Returns-then Printed (scanned_field number) _ (λ param_num.
            Returns-bind (λ r. ArePrinted (rounds param_num) r.0 r.1) Printed
              (deserialize_fields (rounds param_num) third) _
              (deserialize_fields-ArePrinted (rounds param_num) third)
              (λ (sizes, vals) printed.
                bind-IsOk (print_fields (rounds param_num) 0 sizes vals) _ (printed 0))))))

-- A request that `deserialize_request` has read, whatever the input, is printed without a fault: each
-- of its parameters is a text with a NUL behind it.
pub print_request-deserialize :
    (buf : Bytes) (request : Request)
    → deserialize_request buf ≡ ok request
    → IsOk (print_request request)
print_request-deserialize buf request read = rw read at (deserialize_request-printed buf)
