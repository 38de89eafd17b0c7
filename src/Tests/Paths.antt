-- ===== src/Tests/Paths.antt =====
-- Whole remote calls on paths and directories with a small operating system.
use remote_file_procedure_ca.Prelude.{ℕ, ◌≤◌, ◌≡◌, refl, List, [], ◌∷◌, ◌++◌, arith, pos, length}
use remote_file_procedure_ca.Text.{Bytes, codes, c_string}
use remote_file_procedure_ca.Number.{print_int, print_size, atol, scan_number}
use remote_file_procedure_ca.Result.{ok}
use remote_file_procedure_ca.Marshall.Header.{number_line}
use remote_file_procedure_ca.Marshall.Fields.RoundTrip.{layout}
use remote_file_procedure_ca.Marshall.Request.RoundTrip.{request_stream}
use remote_file_procedure_ca.Marshall.Response.RoundTrip.{response_stream}
use remote_file_procedure_ca.Marshall.Tree.Shape.{text_line, tree_stream}
use remote_file_procedure_ca.Socket.Write.Stream.{message_header}
use remote_file_procedure_ca.FileService.{client_fd}
use remote_file_procedure_ca.Server.Service.{
  open_op, stat_op, unlink_op, getdirentries_op, getdirtree_op,
}
use remote_file_procedure_ca.Client.{Client}
use remote_file_procedure_ca.Client.Calls.{HasSent}
use remote_file_procedure_ca.Client.Stubs.{open_stub, stat_stub, unlink_stub, getdirentries_stub}
use remote_file_procedure_ca.Client.Remote.{Answered}
use remote_file_procedure_ca.Client.Path.{open_params}
use remote_file_procedure_ca.Client.Directory.{entries_params, TreeReturned, TreeFailed}
use remote_file_procedure_ca.Session.{Served}
use remote_file_procedure_ca.Session.Path.{open-Served, stat-Served, unlink-Served}
use remote_file_procedure_ca.Session.Directory.{
  getdirentries-Served, getdirtree-Served, getdirtree-failed,
}
use remote_file_procedure_ca.Tests.Handlers.{tiny, fresh, done, leaf, leaf-IsTree}
use remote_file_procedure_ca.Tests.Session.{query, holding, asked, AreSmall, carried, fd, willing}

abbrev path : Bytes
path = codes "f"

abbrev opened : List Bytes
opened = print_int (client_fd (pos 3)) ∷ []

open-AreSmall : AreSmall open_op (open_params path (pos 65) 420) (pos 0) opened
unfolding request_stream response_stream number_line layout message_header print_int print_size
open-AreSmall = (omega arith, omega arith)

-- The flags 65 are `O_WRONLY | O_CREAT`.
open-Served_example :
    Served tiny fresh
      (holding (query open_op (open_params path (pos 65) 420)))
      (done (pos 0))
      (response_stream (pos 0) opened)
    × ((client' : Client ℕ) × (open_stub (asked (pos 0) opened) (path ++ 0 ∷ []) (pos 65) 420
          ≡ ok (client_fd (pos 3), client'))
        × Answered
            (asked (pos 0) opened)
            (query open_op (open_params path (pos 65) 420))
            (pos 0)
            (client_fd (pos 3))
            client')
open-Served_example =
    open-Served tiny (asked (pos 0) opened) fresh
      (holding (query open_op (open_params path (pos 65) 420))) path (done (pos 0)) (omega arith)
      (omega arith) (omega arith) (pos 65) 420 (pos 3) (omega arith) (omega arith) (omega arith)
      refl (carried open_op (open_params path (pos 65) 420) (pos 0) opened open-AreSmall)

abbrev stated : List Bytes
stated = print_int (pos 0) ∷ codes "stat" ∷ []

stat-AreSmall : AreSmall stat_op (path ∷ []) (pos 0) stated
unfolding request_stream response_stream number_line layout message_header print_int print_size
stat-AreSmall = (omega arith, omega arith)

stat-Served_example :
    Served tiny fresh
      (holding (query stat_op (path ∷ [])))
      (done (pos 0))
      (response_stream (pos 0) stated)
    × ((client' : Client ℕ) × (stat_stub (asked (pos 0) stated) 4 (path ++ 0 ∷ []) (codes "....+")
          ≡ ok (pos 0, codes "stat+", client'))
        × Answered (asked (pos 0) stated) (query stat_op (path ∷ [])) (pos 0) (pos 0) client')
stat-Served_example =
    stat-Served tiny (asked (pos 0) stated) fresh (holding (query stat_op (path ∷ []))) path
      (done (pos 0)) (omega arith) (omega arith) (omega arith) (pos 0) (codes "stat")
      (codes "....+") (omega arith) refl (omega arith) (omega arith) refl
      (carried stat_op (path ∷ []) (pos 0) stated stat-AreSmall)

abbrev removed : List Bytes
removed = print_int (pos 0) ∷ []

unlink-AreSmall : AreSmall unlink_op (path ∷ []) (pos 0) removed
unfolding request_stream response_stream number_line layout message_header print_int print_size
unlink-AreSmall = (omega arith, omega arith)

unlink-Served_example :
    Served willing fresh
      (holding (query unlink_op (path ∷ [])))
      (done (pos 0))
      (response_stream (pos 0) removed)
    × ((client' : Client ℕ) × (unlink_stub (asked (pos 0) removed) (path ++ 0 ∷ [])
          ≡ ok (pos 0, client'))
        × Answered (asked (pos 0) removed) (query unlink_op (path ∷ [])) (pos 0) (pos 0) client')
unlink-Served_example =
    unlink-Served willing (asked (pos 0) removed) fresh (holding (query unlink_op (path ∷ []))) path
      (done (pos 0)) (omega arith) (omega arith) (omega arith) (pos 0) (omega arith) refl
      (carried unlink_op (path ∷ []) (pos 0) removed unlink-AreSmall)

-- The entries begin with no number, so the new base is 0.
abbrev listed : List Bytes
listed = print_int (pos 2) ∷ codes "ab" ∷ print_int (pos 7) ∷ []

entries-AreSmall : AreSmall getdirentries_op (entries_params fd 4 (pos 1)) (pos 0) listed
unfolding request_stream response_stream number_line layout message_header print_int print_size
entries-AreSmall = (omega arith, omega arith)

getdirentries-Served_example :
    Served tiny fresh
      (holding (query getdirentries_op (entries_params fd 4 (pos 1))))
      (done (pos 0))
      (response_stream (pos 0) listed)
    × ((client' : Client ℕ) × (getdirentries_stub tiny
            (asked (pos 0) listed)
            fd
            (codes "wxyz")
            4
            (pos 1)
          ≡ ok (pos 2, codes "abyz", pos 0, client'))
        × HasSent
            (asked (pos 0) listed)
            (query getdirentries_op (entries_params fd 4 (pos 1)))
            client')
unfolding atol scan_number
getdirentries-Served_example =
    getdirentries-Served tiny (asked (pos 0) listed) fresh
      (holding (query getdirentries_op (entries_params fd 4 (pos 1)))) (done (pos 0)) (omega arith)
      tiny fd (codes "wxyz") 4 (pos 1) (pos 7) (codes "ab") refl (omega arith) (omega arith)
      (omega arith) (omega arith) (omega arith) (omega arith) refl
      (carried getdirentries_op (entries_params fd 4 (pos 1)) (pos 0) listed entries-AreSmall)

tree-AreSmall : AreSmall getdirtree_op ([] ∷ []) (pos 0) (tree_stream leaf ∷ [])
unfolding request_stream response_stream number_line layout message_header print_int print_size
    tree_stream text_line c_string
tree-AreSmall = (omega arith, omega arith)

leaf-sized : length (tree_stream leaf) ≤ 100
unfolding tree_stream text_line number_line c_string print_int print_size
leaf-sized = omega arith

getdirtree-Served_example :
    Served tiny fresh
      (holding (query getdirtree_op ([] ∷ [])))
      (done (pos 0))
      (response_stream (pos 0) (tree_stream leaf ∷ []))
    × TreeReturned (asked (pos 0) (tree_stream leaf ∷ [])) leaf []
getdirtree-Served_example =
    getdirtree-Served tiny (asked (pos 0) (tree_stream leaf ∷ [])) fresh
      (holding (query getdirtree_op ([] ∷ []))) (done (pos 0)) (omega arith) [] leaf tt
      (omega arith) leaf-IsTree (omega (arith, leaf-sized)) refl refl
      (carried getdirtree_op ([] ∷ []) (pos 0) (tree_stream leaf ∷ []) tree-AreSmall)

no_tree-AreSmall : AreSmall getdirtree_op (path ∷ []) (pos 2) ([] ∷ [])
unfolding request_stream response_stream number_line layout message_header print_int print_size
no_tree-AreSmall = (omega arith, omega arith)

getdirtree-failed_example :
    Served tiny fresh
      (holding (query getdirtree_op (path ∷ [])))
      (done (pos 2))
      (response_stream (pos 2) ([] ∷ []))
    × TreeFailed (asked (pos 2) ([] ∷ [])) (pos 2) path
getdirtree-failed_example =
    getdirtree-failed tiny (asked (pos 2) ([] ∷ [])) fresh
      (holding (query getdirtree_op (path ∷ []))) (done (pos 2)) (omega arith) path (omega arith)
      (omega arith) refl refl (carried getdirtree_op (path ∷ []) (pos 2) ([] ∷ []) no_tree-AreSmall)
