-- ===== src/Session/Directory.antt =====
-- A remote `getdirentries` and a remote `getdirtree`, from the stub of rpc/mylib.c through
-- rpc/server.c and back.
use remote_file_procedure_ca.Prelude.{
  eqb_ℤ, ℕ, ◌<◌, ◌≤◌, ◌^◌, ◌≡◌, refl, false, [], ◌∷◌, ◌++◌, drop, arith, ℤ, pos, FitsInt, FitsLong,
  length, to_long, to_long-FitsLong, le→leb,
}
use remote_file_procedure_ca.Text.{Bytes}
use remote_file_procedure_ca.Text.Search.{IsNulFree}
use remote_file_procedure_ca.Number.{print_int, atol}
use remote_file_procedure_ca.Result.{ok}
use remote_file_procedure_ca.Marshall.Request.RoundTrip.{request_of, request_stream}
use remote_file_procedure_ca.Marshall.Response.RoundTrip.{response_stream}
use remote_file_procedure_ca.Marshall.Tree.{DirTree, null}
use remote_file_procedure_ca.Marshall.Tree.Shape.{IsTree, tree_stream}
use remote_file_procedure_ca.Socket.{Storage, storage_size}
use remote_file_procedure_ca.Server.{Process, System, Server}
use remote_file_procedure_ca.Server.Handlers.{cleared}
use remote_file_procedure_ca.Server.Answer.{answer, server_fd}
use remote_file_procedure_ca.Server.Replies.{
  serve_getdirentries-answer, serve_getdirtree-answer, serve_getdirtree-null,
}
use remote_file_procedure_ca.Server.Service.{op_number, getdirentries_op, getdirtree_op, serve}
use remote_file_procedure_ca.Client.{Client}
use remote_file_procedure_ca.Client.Calls.{HasSent}
use remote_file_procedure_ca.Client.Stubs.{is_local, getdirentries_stub}
use remote_file_procedure_ca.Client.Remote.{numeral-sized}
use remote_file_procedure_ca.Client.Directory.{
  entries_params, TreeReturned, TreeFailed, getdirtree_stub-remote, getdirtree_stub-failed,
  getdirentries_stub-remote,
}
use remote_file_procedure_ca.Session.{Served, Carries, answer-Served}

module _ {V W : Type 0} (sys : System W) (client : Client V) (server : Server W) (s : Storage)
    (after : Process W) (errno_fits : FitsInt after.errno) where
  -- A remote `getdirentries` from end to end. Where the connection carries the request and the
  -- answer, the server reads the entries of its own descriptor from the client's base on, and the
  -- client returns their size and has them at the start of its buffer, and EAGAIN in errno. The client's new base is the
  -- number that the text of the entries begins with, and not the one that the call of the server has
  -- left. The call returns at most as many bytes as it was asked for, the buffer holds these, and
  -- the numbers have the widths of their types.
  pub getdirentries-Served :
      (local_sys : System V) (fd : ℤ) (buf : Bytes) (nbytes : ℕ) (basep new_basep : ℤ)
      (entries : Bytes)
      → is_local fd ≡ false
      → FitsInt fd
      → nbytes < 2 ^ 63
      → nbytes ≤ length buf
      → FitsLong basep
      → FitsLong new_basep
      → length entries ≤ nbytes
      → sys.sys_getdirentries (server_fd fd) nbytes basep (cleared server)
        ≡ (pos (length entries), entries, new_basep, after)
      → Carries client server s after getdirentries_op
          (entries_params fd nbytes basep)
          (print_int (pos (length entries)) ∷ entries ∷ print_int new_basep ∷ [])
      → Served sys server s after (
          response_stream after.errno
            (print_int (pos (length entries)) ∷ entries ∷ print_int new_basep ∷ []))
        × ((client' : Client V) × (getdirentries_stub local_sys client fd buf nbytes basep
              ≡ ok (
                pos (length entries),
                entries ++ drop (length entries) buf,
                atol (entries ++ 0 ∷ []),
                client',
              ))
            × HasSent client
                (request_stream (op_number getdirentries_op) (entries_params fd nbytes basep))
                client')
  unfolding serve
  getdirentries-Served local_sys fd buf nbytes basep new_basep entries remote fd_fits small le
        basep_fits new_fits few called carries =
      let n = pos (length entries) in
      let nb = to_long (pos nbytes) in
      (
        answer-Served sys client server s after errno_fits getdirentries_op
            (entries_params fd nbytes basep) (print_int n ∷ entries ∷ print_int new_basep ∷ [])
            (omega arith) (omega arith)
            (
              numeral-sized fd (omega arith),
              (
                numeral-sized nb (to_long-FitsLong nbytes (omega arith)),
                (numeral-sized basep basep_fits, tt),
              ),
            )
            (numeral-sized n (omega arith), (omega arith, (numeral-sized new_basep new_fits, tt)))
            carries
            (serve_getdirentries-answer sys server fd nbytes basep n entries new_basep after fd_fits
              basep_fits called (omega arith) (refl, few, small) new_fits),
        getdirentries_stub-remote client after.errno errno_fits local_sys fd buf nbytes basep
            new_basep entries remote fd_fits (omega arith) basep_fits new_fits (omega arith)
            (omega arith) carries.3,
      )

  -- A remote `getdirtree` from end to end. Where the connection carries the request and the answer,
  -- and libdirtree builds a tree for the client's path and leaves errno 0, the client is given the
  -- same tree, with EAGAIN in its errno. The stream of the tree has at most `STORAGE_SIZE` bytes, the path has no NUL, and the
  -- tree has no NULL pointers, its counts are the sizes of the arrays, and its names are lines of at
  -- most 1012 bytes.
  pub getdirtree-Served :
      (path : Bytes) (tree : DirTree)
      → IsNulFree path
      → length path < 2 ^ 64
      → IsTree tree
      → length (tree_stream tree) ≤ storage_size
      → after.errno ≡ pos 0
      → sys.sys_getdirtree path (cleared server) ≡ (tree, after)
      → Carries client server s after getdirtree_op (path ∷ []) (tree_stream tree ∷ [])
      → Served sys server s after (response_stream after.errno (tree_stream tree ∷ []))
        × TreeReturned client tree path
  unfolding serve
  getdirtree-Served path tree nul_free path_sized is_tree fits fine called carries =
      let handled : serve sys getdirtree_op server
            (request_of (op_number getdirtree_op) (path ∷ []))
          ≡ answer server after (tree_stream tree ∷ []) =
        rw (le→leb (length (tree_stream tree)) storage_size fits) at
          (serve_getdirtree-answer sys server path tree after nul_free called is_tree) in
      (
        answer-Served sys client server s after errno_fits getdirtree_op (path ∷ [])
            (tree_stream tree ∷ []) (omega arith) (omega arith) (path_sized, tt) (omega arith, tt)
            carries handled,
        getdirtree_stub-remote client path nul_free path_sized tree is_tree (omega arith)
            (rw fine at carries.3),
      )

  -- A remote `getdirtree` that fails, from end to end. Where the connection carries the request and the
  -- answer, and libdirtree returns NULL and leaves an errno that is not 0, the client is given NULL
  -- with that errno. The path has no NUL.
  pub getdirtree-failed :
      (path : Bytes)
      → IsNulFree path
      → length path < 2 ^ 64
      → eqb_ℤ after.errno (pos 0) ≡ false
      → sys.sys_getdirtree path (cleared server) ≡ (null, after)
      → Carries client server s after getdirtree_op (path ∷ []) ([] ∷ [])
      → Served sys server s after (response_stream after.errno ([] ∷ []))
        × TreeFailed client after.errno path
  unfolding serve
  getdirtree-failed path nul_free path_sized fails called carries = (
    answer-Served sys client server s after errno_fits getdirtree_op (path ∷ []) ([] ∷ [])
        (omega arith) (omega arith) (path_sized, tt) (omega arith, tt) carries
        (serve_getdirtree-null sys server path after nul_free called),
    getdirtree_stub-failed client path nul_free path_sized after.errno [] errno_fits fails
        (omega arith) carries.3,
  )
