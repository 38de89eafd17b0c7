-- ===== src/Server/Replies.antt =====
-- The handlers of rpc/server.c on the requests that the stubs of rpc/mylib.c send.
use remote_file_procedure_ca.Prelude.{
  ℕ, ◌^◌, ◌<◌, ◌≡◌, true, none, [], ◌∷◌, ◌++◌, arith, ℤ, pos, to_long, FitsInt, FitsLong, length,
  length-append, take-append, take-length, leb, le→leb, if◌then◌else◌, Bool-cases, inl, inr,
}
use remote_file_procedure_ca.Text.{Bytes}
use remote_file_procedure_ca.Text.Search.{IsNulFree, c_string-append}
use remote_file_procedure_ca.Number.{print_int}
use remote_file_procedure_ca.Result.{err, bad_memory}
use remote_file_procedure_ca.Marshall.Request.RoundTrip.{request_of}
use remote_file_procedure_ca.Marshall.Tree.{DirTree, null, node}
use remote_file_procedure_ca.Marshall.Tree.Shape.{IsTree, tree_stream, serialize_dirtree-eq}
use remote_file_procedure_ca.Socket.{storage_size}
use remote_file_procedure_ca.Server.{Process, System, Server}
use remote_file_procedure_ca.Server.Packed.{
  pack_one, pack_first_of_two, pack_first_of_three, pack_second, pack_third, pack_text, atoi-param,
  atol-param, size-param, mode-param,
}
use remote_file_procedure_ca.Server.Handlers.{
  remote_fd, size_returned, call_buffer, cleared, serve_open, serve_close, serve_read, serve_write,
  serve_lseek, serve_stat, serve_unlink, serve_getdirentries, serve_getdirtree,
}
use remote_file_procedure_ca.Server.Service.{
  op_number, open_op, close_op, read_op, write_op, lseek_op, stat_op, unlink_op, getdirentries_op,
  getdirtree_op,
}
use remote_file_procedure_ca.Server.Answer.{
  answer, remote_fd-FitsLong, read_bytes-length, Stores, call_buffer-take, server_fd,
}

module _ {W : Type 0} (sys : System W) (server : Server W) where
  -- `serve_open` makes the call with the path, flags and mode of the request, and answers with the
  -- errno that it left and the descriptor, moved into the remote range; -1 stays -1. The path has no NUL, and flags, mode and descriptor have the widths of
  -- their types.
  pub serve_open-answer :
      (path : Bytes) (flags : ℤ) (mode : ℕ) (fd : ℤ) (after : Process W)
      → IsNulFree path
      → FitsInt flags
      → mode < 2 ^ 32
      → sys.sys_open path flags mode (cleared server) ≡ (fd, after)
      → FitsInt fd
      → serve_open sys server
          (request_of (op_number open_op) (path ∷ print_int flags ∷ print_int (pos mode) ∷ []))
        ≡ answer server after (print_int (remote_fd fd) ∷ [])
  unfolding serve_open
  serve_open-answer path flags mode fd after nul_free flags_fit mode_fits called fd_fits = rw (
    atoi-param flags flags_fit,
    mode-param mode mode_fits,
    c_string-append path [] nul_free,
    called,
    pack_one after.errno (remote_fd fd) (remote_fd-FitsLong fd (omega arith)),
  )

  -- `serve_close` closes the descriptor that is the request's, moved out of the remote range, and
  -- answers with the errno and the result of the call. Descriptor and result have the widths of
  -- their types.
  pub serve_close-answer :
      (fd result : ℤ) (after : Process W)
      → FitsInt fd
      → sys.sys_close (server_fd fd) (cleared server) ≡ (result, after)
      → FitsLong result
      → serve_close sys server (request_of (op_number close_op) (print_int fd ∷ []))
        ≡ answer server after (print_int result ∷ [])
  unfolding serve_close
  serve_close-answer fd result after fd_fits called result_fits =
      rw (atoi-param fd fd_fits, called, pack_one after.errno result result_fits)

  -- `serve_read` makes the call with the server's descriptor and the count of the request, whatever
  -- buffer content came with it, and answers with the errno, the result and the bytes read.
  -- Descriptor and result have the widths of their types, the count is below 2^63, and the call
  -- stores as many bytes as its result says, and at most as many as it was asked for.
  pub serve_read-answer :
      (fd : ℤ) (old : Bytes) (count : ℕ) (result : ℤ) (stored : Bytes) (after : Process W)
      → FitsInt fd
      → sys.sys_read (server_fd fd) count (cleared server) ≡ (result, stored, after)
      → FitsLong result
      → Stores result stored count
      → serve_read sys server (
          request_of
            (op_number read_op)
            (print_int fd ∷ old ∷ print_int (to_long (pos count)) ∷ []))
        ≡ answer server after (print_int result ∷ stored ∷ [])
  unfolding serve_read
  serve_read-answer fd old count result stored after fd_fits called result_fits stores =
      let (room, copied) = call_buffer-take result stored count stores in
      rw (
        atoi-param fd fd_fits,
        size-param count (omega arith),
        called,
        pack_first_of_two after.errno result result_fits,
        pack_second after.errno (print_int result) (call_buffer count stored) (size_returned result)
            [] room,
        copied,
      )

  -- `serve_write` writes exactly the bytes of the request to the server's descriptor, and answers
  -- with the errno and the result. Descriptor and result have the widths of their types, and the
  -- bytes are fewer than 2^64.
  pub serve_write-answer :
      (fd : ℤ) (buf : Bytes) (result : ℤ) (after : Process W)
      → FitsInt fd
      → length buf < 2 ^ 64
      → sys.sys_write (server_fd fd) buf (cleared server) ≡ (result, after)
      → FitsLong result
      → serve_write sys server (
          request_of
            (op_number write_op)
            (print_int fd ∷ buf ∷ print_int (to_long (pos (length buf))) ∷ []))
        ≡ answer server after (print_int result ∷ [])
  unfolding serve_write
  serve_write-answer fd buf result after fd_fits small called result_fits =
      let enough : leb (length buf) (length (buf ++ 0 ∷ [])) ≡ true =
        le→leb (length buf) (length (buf ++ 0 ∷ [])) (omega (arith, length-append buf (0 ∷ []))) in
      rw (
        atoi-param fd fd_fits,
        size-param (length buf) small,
        enough,
        take-append buf (0 ∷ []),
        called,
        pack_one after.errno result result_fits,
      )

  -- `serve_lseek` makes the call with the server's descriptor and the offset and whence of the
  -- request, and answers with the errno and the result. All four have the widths of their types.
  pub serve_lseek-answer :
      (fd offset whence result : ℤ) (after : Process W)
      → FitsInt fd
      → FitsLong offset
      → FitsInt whence
      → sys.sys_lseek (server_fd fd) offset whence (cleared server) ≡ (result, after)
      → FitsLong result
      → serve_lseek sys server (
          request_of (op_number lseek_op) (print_int fd ∷ print_int offset ∷ print_int whence ∷ []))
        ≡ answer server after (print_int result ∷ [])
  unfolding serve_lseek
  serve_lseek-answer fd offset whence result after fd_fits offset_fits whence_fits called
        result_fits =
      rw (
        atoi-param fd fd_fits,
        atol-param offset offset_fits,
        atoi-param whence whence_fits,
        called,
        pack_one after.errno result result_fits,
      )

  -- `serve_stat` makes the call with the path of the request, and answers with the errno, the
  -- result and the bytes of the structure. The path has no NUL, the result has the width of its
  -- type, and the call fills the structure.
  pub serve_stat-answer :
      (path : Bytes) (result : ℤ) (temp_stat : Bytes) (after : Process W)
      → IsNulFree path
      → sys.sys_stat path (cleared server) ≡ (result, temp_stat, after)
      → FitsLong result
      → length temp_stat ≡ sys.stat_size
      → serve_stat sys server (request_of (op_number stat_op) (path ∷ []))
        ≡ answer server after (print_int result ∷ temp_stat ∷ [])
  unfolding serve_stat
  serve_stat-answer path result temp_stat after nul_free called result_fits size = rw (
    c_string-append path [] nul_free,
    called,
    ← size,
    read_bytes-length temp_stat,
    pack_first_of_two after.errno result result_fits,
    pack_second after.errno (print_int result) temp_stat (length temp_stat) [] (omega arith),
    take-length temp_stat,
  )

  -- `serve_unlink` makes the call with the path of the request, and answers with the errno and the
  -- result.
  pub serve_unlink-answer :
      (path : Bytes) (result : ℤ) (after : Process W)
      → IsNulFree path
      → sys.sys_unlink path (cleared server) ≡ (result, after)
      → FitsLong result
      → serve_unlink sys server (request_of (op_number unlink_op) (path ∷ []))
        ≡ answer server after (print_int result ∷ [])
  unfolding serve_unlink
  serve_unlink-answer path result after nul_free called result_fits =
      rw (c_string-append path [] nul_free, called, pack_one after.errno result result_fits)

  -- `serve_getdirentries` makes the call with the server's descriptor, the count and the base of
  -- the request, and answers with the errno, the result, the entries, and the new base behind them.
  -- The numbers have the widths of their types, the count is below 2^63, and the call stores as
  -- many bytes as its result says, and at most as many as it was asked for.
  pub serve_getdirentries-answer :
      (fd : ℤ) (nbytes : ℕ) (basep result : ℤ) (stored : Bytes) (new_basep : ℤ) (after : Process W)
      → FitsInt fd
      → FitsLong basep
      → sys.sys_getdirentries (server_fd fd) nbytes basep (cleared server)
        ≡ (result, stored, new_basep, after)
      → FitsLong result
      → Stores result stored nbytes
      → FitsLong new_basep
      → serve_getdirentries sys server (
          request_of
            (op_number getdirentries_op)
            (print_int fd ∷ print_int (to_long (pos nbytes)) ∷ print_int basep ∷ []))
        ≡ answer server after (print_int result ∷ stored ∷ print_int new_basep ∷ [])
  unfolding serve_getdirentries
  serve_getdirentries-answer fd nbytes basep result stored new_basep after fd_fits basep_fits called
        result_fits stores new_fits =
      let (room, copied) = call_buffer-take result stored nbytes stores in
      rw (
        atoi-param fd fd_fits,
        size-param nbytes (omega arith),
        atol-param basep basep_fits,
        called,
        pack_first_of_three after.errno result result_fits,
        pack_second after.errno (print_int result) (call_buffer nbytes stored)
            (size_returned result) (none ∷ []) room,
        copied,
        pack_third after.errno (print_int result) stored new_basep new_fits,
      )

  -- `serve_getdirtree` hands the stream of a tree to `send_response` where it has at most
  -- `STORAGE_SIZE` bytes, and runs into bad memory where it has more. The path has no NUL, and the tree has no NULL
  -- pointers, its counts are the sizes of the arrays, and its names are lines of at most 1012
  -- bytes.
  pub serve_getdirtree-answer :
      (path : Bytes) (tree : DirTree) (after : Process W)
      → IsNulFree path
      → sys.sys_getdirtree path (cleared server) ≡ (tree, after)
      → IsTree tree
      → serve_getdirtree sys server (request_of (op_number getdirtree_op) (path ∷ [])) ≡ (
          if leb (length (tree_stream tree)) storage_size
          then answer server after (tree_stream tree ∷ [])
          else err bad_memory)
  unfolding serve_getdirtree
  serve_getdirtree-answer path null after nul_free called is_tree = absurd is_tree
  serve_getdirtree-answer path (node name num subdirs) after nul_free called is_tree =
      let tree = node name num subdirs in
      elim (Bool-cases (leb (length (tree_stream tree)) storage_size)) [
        | inl fits ↦ rw (
          c_string-append path [] nul_free,
          called,
          serve_getdirtree,
          serialize_dirtree-eq tree is_tree,
          fits,
          pack_text after.errno (tree_stream tree),
          take-length (tree_stream tree),
        )
        | inr large ↦ rw (
          c_string-append path [] nul_free,
          called,
          serve_getdirtree,
          serialize_dirtree-eq tree is_tree,
          large,
        )
      ]

  -- `serve_getdirtree` answers NULL with an empty text and the errno.
  pub serve_getdirtree-null :
      (path : Bytes) (after : Process W)
      → IsNulFree path
      → sys.sys_getdirtree path (cleared server) ≡ (null, after)
      → serve_getdirtree sys server (request_of (op_number getdirtree_op) (path ∷ []))
        ≡ answer server after ([] ∷ [])
  unfolding serve_getdirtree
  serve_getdirtree-null path after nul_free called =
      rw (c_string-append path [] nul_free, called, pack_text after.errno [])
