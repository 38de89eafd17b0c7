-- ===== src/Tests/Memory.antt =====
-- Release of memory, and requests that are printed.
use remote_file_procedure_ca.Prelude.{◌≡◌, refl, [], ◌∷◌, ◌++◌, List, arith, pos}
use remote_file_procedure_ca.Text.{Bytes, codes, c_string}
use remote_file_procedure_ca.Number.{print_int, print_size}
use remote_file_procedure_ca.Result.{ok}
use remote_file_procedure_ca.Marshall.Request.{deserialize_request}
use remote_file_procedure_ca.Marshall.Request.RoundTrip.{
  request_of, request_stream, serialize_request-stream, deserialize-serialize_request,
}
use remote_file_procedure_ca.Marshall.Print.{print_request}
use remote_file_procedure_ca.Marshall.Tree.{deserialize_dirtree}
use remote_file_procedure_ca.Marshall.Tree.Shape.{tree_stream, serialize_dirtree-eq}
use remote_file_procedure_ca.Marshall.Tree.RoundTrip.{deserialize-serialize_dirtree}
use remote_file_procedure_ca.Server.Service.{dispatch}
use remote_file_procedure_ca.Server.Wire.{dispatch-unknown}
use remote_file_procedure_ca.Memory.{Heap}
use remote_file_procedure_ca.Memory.Balance.{Balance}
use remote_file_procedure_ca.Memory.Arrays.{Arrays, init_blocks, free_request, free_response}
use remote_file_procedure_ca.Memory.Arrays.Lifecycle.{pack_blocks, pack_blocks-free_request}
use remote_file_procedure_ca.Memory.Tree.{node_blocks, freedirtree}
use remote_file_procedure_ca.Memory.Tree.Lifecycle.{deserialize_dirtree-free}
use remote_file_procedure_ca.Tests.Handlers.{tiny, fresh, leaf, leaf-IsTree}

abbrev some_heap : Heap
some_heap = record { live = 2 ∷ 1 ∷ []; next = 2 }

-- Three parameters, of which the last is packed first and the middle one never.
pack_blocks-free_request_example :
    (a : Arrays) × (h1 h2 : Heap) × (pack_blocks
        (2 ∷ 0 ∷ [])
        (init_blocks (pos 3) some_heap).0
        (init_blocks (pos 3) some_heap).1
      ≡ ok (a, h1))
    × (free_request a h1 ≡ ok h2)
    × (free_response a h1 ≡ ok h2)
    × Balance [] some_heap h2
pack_blocks-free_request_example =
    pack_blocks-free_request (pos 3) (2 ∷ 0 ∷ []) some_heap
      (omega arith, ((λ e. absurd (omega (arith, e))), tt), (omega arith, tt, tt))

leaf-read : deserialize_dirtree (tree_stream leaf ++ 0 ∷ []) ≡ ok leaf
leaf-read =
    deserialize-serialize_dirtree leaf (tree_stream leaf) (0 ∷ []) leaf-IsTree
      (serialize_dirtree-eq leaf leaf-IsTree)

deserialize_dirtree-free_example :
    (h' : Heap) × (freedirtree (node_blocks leaf some_heap).0 (node_blocks leaf some_heap).1
      ≡ ok h')
    × Balance [] some_heap h'
deserialize_dirtree-free_example =
    deserialize_dirtree-free (tree_stream leaf ++ 0 ∷ []) leaf some_heap leaf-read

-- A request with an option that is none of the nine.
abbrev odd_params : List Bytes
odd_params = codes "x" ∷ []

odd-read :
    deserialize_request (request_stream (pos 9) odd_params ++ 0 ∷ [])
    ≡ ok (request_of (pos 9) odd_params)
odd-read =
    deserialize-serialize_request (pos 9) odd_params (omega arith) (omega arith) (omega arith)
      (request_stream (pos 9) odd_params) (0 ∷ [])
      (serialize_request-stream (pos 9) odd_params (omega arith) (omega arith) (omega arith))

odd_printed :
    print_request (request_of (pos 9) odd_params)
    ≡ ok (
        codes
          "========RPC Request========\nCommand: 9\nParamNum: 1\nParam1: size=1 content=x\n===========End==========\n")
unfolding print_request c_string print_int print_size
odd_printed = refl

dispatch-unknown_example : dispatch tiny fresh (request_of (pos 9) odd_params) ≡ ok fresh
dispatch-unknown_example =
    dispatch-unknown tiny fresh (request_stream (pos 9) odd_params ++ 0 ∷ [])
      (request_of (pos 9) odd_params) odd-read refl
