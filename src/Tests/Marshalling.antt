-- ===== src/Tests/Marshalling.antt =====
-- rpc/marshall.c on concrete requests, responses and trees.
use remote_file_procedure_ca.Prelude.{
  ◌≡◌, ◌≢◌, refl, Option, some, none, List, [], ◌∷◌, ◌++◌, arith, pos,
}
use remote_file_procedure_ca.Text
use remote_file_procedure_ca.Text.{Bytes, codes, c_string}
use remote_file_procedure_ca.Number.{print_int, print_size}
use remote_file_procedure_ca.Result.{ok, err, assertion, out_of_fuel}
use remote_file_procedure_ca.Marshall.Fields.{serialize_fields}
use remote_file_procedure_ca.Marshall.Request.{serialize_request, deserialize_request}
use remote_file_procedure_ca.Marshall.Request.RoundTrip.{request_of, deserialize-serialize_request}
use remote_file_procedure_ca.Marshall.Response.{serialize_response, deserialize_response}
use remote_file_procedure_ca.Marshall.Response.RoundTrip.{
  response_of, deserialize-serialize_response,
}
use remote_file_procedure_ca.Marshall.Tree.{
  DirTree, node, nil, cons, serialize_dirtree, deserialize_dirtree,
}
use remote_file_procedure_ca.Marshall.Tree.Shape.{IsTree}
use remote_file_procedure_ca.Marshall.Tree.RoundTrip.{deserialize-serialize_dirtree}
use remote_file_procedure_ca.Marshall.Tree.Total.{deserialize_dirtree-ne-out_of_fuel}

-- A content with a line end and a colon in it, and an empty one.
abbrev contents : List Bytes
contents = codes "a:b\r\n" ∷ [] ∷ codes "42" ∷ []

request_bytes :
    serialize_request (request_of (pos 3) contents)
    ≡ ok (codes "Command:3\r\nParamNum:3\r\n5\r\na:b\r\n\r\n0\r\n\r\n2\r\n42\r\n")
unfolding serialize_request serialize_fields print_int print_size
request_bytes = refl

deserialize-serialize_request_example :
    deserialize_request
      (codes "Command:3\r\nParamNum:3\r\n5\r\na:b\r\n\r\n0\r\n\r\n2\r\n42\r\n" ++ 0 ∷ [])
    ≡ ok (request_of (pos 3) contents)
deserialize-serialize_request_example =
    deserialize-serialize_request (pos 3) contents (omega arith) (omega arith) (omega arith)
      (codes "Command:3\r\nParamNum:3\r\n5\r\na:b\r\n\r\n0\r\n\r\n2\r\n42\r\n") (0 ∷ [])
      request_bytes

response_bytes :
    serialize_response (response_of (pos 2) (codes "-1" ∷ []))
    ≡ ok (codes "Errno:2\r\nReturnNum:1\r\n2\r\n-1\r\n")
unfolding serialize_response serialize_fields print_int print_size
response_bytes = refl

deserialize-serialize_response_example :
    deserialize_response (codes "Errno:2\r\nReturnNum:1\r\n2\r\n-1\r\n" ++ 0 ∷ [])
    ≡ ok (response_of (pos 2) (codes "-1" ∷ []))
deserialize-serialize_response_example =
    deserialize-serialize_response (pos 2) (codes "-1" ∷ []) (omega arith) (omega arith)
      (omega arith) (codes "Errno:2\r\nReturnNum:1\r\n2\r\n-1\r\n") (0 ∷ []) response_bytes

-- The request of a `read`, with its first slot filled.
abbrev slots : List (Option Bytes)
slots = some (codes "12348") ∷ none ∷ none ∷ []

-- A directory with two entries.
abbrev directory : DirTree
directory =
    node (codes "d" ++ 0 ∷ []) (pos 2)
      (cons (node (codes "a:b" ++ 0 ∷ []) (pos 0) nil) (cons (node (0 ∷ []) (pos 0) nil) nil))

abbrev directory_stream : Bytes
directory_stream =
    codes "NodeName:d\r\nChildNum:2\r\nNodeName:a:b\r\nChildNum:0\r\nNodeName:\r\nChildNum:0\r\n"

directory-IsTree : IsTree directory
unfolding c_string
directory-IsTree = (
  (refl, (omega arith, refl, tt), omega arith),
  refl,
  omega arith,
  (
    (
      (refl, (omega arith, refl, (omega arith, refl, (omega arith, refl, tt))), omega arith),
      refl,
      omega arith,
      tt,
    ),
    (((refl, tt, omega arith), refl, omega arith, tt), tt),
  ),
)

directory_bytes : serialize_dirtree directory ≡ ok directory_stream
unfolding serialize_dirtree c_string print_int print_size
directory_bytes = refl

deserialize-serialize_dirtree_example :
    deserialize_dirtree (directory_stream ++ 0 ∷ []) ≡ ok directory
deserialize-serialize_dirtree_example =
    deserialize-serialize_dirtree directory directory_stream (0 ∷ []) directory-IsTree
      directory_bytes

deserialize_dirtree-ne-out_of_fuel_example :
    deserialize_dirtree (codes "NodeName:d\r\nChildNum:9\r\n") ≢ err out_of_fuel
deserialize_dirtree-ne-out_of_fuel_example =
    deserialize_dirtree-ne-out_of_fuel (codes "NodeName:d\r\nChildNum:9\r\n")

-- A header line with no line end stops at the assertion.
no_line_end : deserialize_request (codes "Command:3" ++ 0 ∷ []) ≡ err assertion
unfolding deserialize_request Text.strstr
no_line_end = refl
