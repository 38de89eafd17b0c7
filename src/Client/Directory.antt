-- ===== src/Client/Directory.antt =====
-- `getdirtree` and `getdirentries` of rpc/mylib.c on an exchange with the server.
use remote_file_procedure_ca.Prelude.{
  refl, ap, eqb_ℤ, ℕ, ◌<◌, ◌≤◌, ◌^◌, ◌≡◌, true, false, none, some, List, [], ◌∷◌, ◌++◌, drop,
  take-append, arith, ℤ, pos, FitsInt, FitsLong, to_long, to_long-FitsLong, length, length-append,
  leb, le→leb,
}
use remote_file_procedure_ca.Text.{Bytes}
use remote_file_procedure_ca.Text.Search.{IsNulFree, c_string-append}
use remote_file_procedure_ca.Number.{print_int, atol}
use remote_file_procedure_ca.Result.{ok}
use remote_file_procedure_ca.Marshall.{copy_block}
use remote_file_procedure_ca.Marshall.Request.RoundTrip.{request_stream}
use remote_file_procedure_ca.Marshall.Request.Pack.{
  init_request-eq, pack_pointer-eq, pack_integral-eq,
}
use remote_file_procedure_ca.Marshall.Response.RoundTrip.{response_of, response_stream}
use remote_file_procedure_ca.Marshall.Tree.{DirTree, null}
use remote_file_procedure_ca.Socket.Write.Stream.{message_header}
use remote_file_procedure_ca.Marshall.Tree.Shape.{IsTree, tree_stream, serialize_dirtree-eq}
use remote_file_procedure_ca.Marshall.Tree.RoundTrip.{deserialize-serialize_dirtree}
use remote_file_procedure_ca.Server.{System}
use remote_file_procedure_ca.Server.Packed.{atol-param}
use remote_file_procedure_ca.Server.Service.{op_number, getdirtree_op, getdirentries_op}
use remote_file_procedure_ca.Client.{Client, return_val, note_errno}
use remote_file_procedure_ca.Client.Calls.{Exchange, HasSent}
use remote_file_procedure_ca.Client.Stubs.{
  with_process, is_local, copy_second, copy_out, getdirtree_stub, getdirentries_stub,
  finish_getdirentries,
}
use remote_file_procedure_ca.Client.Remote.{call_remote-eq, numeral-sized}

-- The end of a successful `getdirentries`.
finish_getdirentries-done :
    {W : Type 0} (after : Client W) (errno : ℤ) (entries buf : Bytes) (basep new_basep : ℤ)
    → length entries ≤ length buf
    → length entries < 2 ^ 63
    → finish_getdirentries after
        (response_of errno (print_int (pos (length entries)) ∷ entries ∷ print_int new_basep ∷ []))
        buf
        basep
      ≡ ok (
        pos (length entries),
        entries ++ drop (length entries) buf,
        atol (entries ++ 0 ∷ []),
        after,
      )
unfolding finish_getdirentries copy_second copy_out return_val copy_block note_errno
finish_getdirentries-done after errno entries buf basep new_basep fits small =
    let n = length entries in
    let copies : leb n (length (entries ++ 0 ∷ [])) ≡ true =
      le→leb n (length (entries ++ 0 ∷ [])) (omega (arith, length-append entries (0 ∷ []))) in
    rw (
      atol-param (pos n) (omega arith),
      finish_getdirentries,
      copies,
      take-append entries (0 ∷ []),
      le→leb n (length buf) fits,
    )

-- The parameters of `getdirentries`.
abbrev pub entries_params : ℤ → ℕ → ℤ → List Bytes
entries_params fd nbytes basep =
    print_int fd ∷ print_int (to_long (pos nbytes)) ∷ print_int basep ∷ []

module _ {W : Type 0} (client : Client W) (errno : ℤ) (errno_fits : FitsInt errno) where
  -- Where the connection takes the request and brings a response with entries that the buffer
  -- holds, `getdirentries` of a remote descriptor returns their size and puts them at the start of
  -- the buffer. The new `*basep` is the number that the text of the entries begins with, whatever
  -- the base is that the server sent. The numbers have the widths of their types.
  pub getdirentries_stub-remote :
      (sys : System W) (fd : ℤ) (buf : Bytes) (nbytes : ℕ) (basep new_basep : ℤ) (entries : Bytes)
      → is_local fd ≡ false
      → FitsInt fd
      → nbytes < 2 ^ 64
      → FitsLong basep
      → FitsLong new_basep
      → length entries ≤ length buf
      → length entries < 2 ^ 63
      → Exchange client
          (request_stream (op_number getdirentries_op) (entries_params fd nbytes basep))
          (response_stream errno
            (print_int (pos (length entries)) ∷ entries ∷ print_int new_basep ∷ []))
      → (after : Client W) × (getdirentries_stub sys client fd buf nbytes basep
          ≡ ok (
            pos (length entries),
            entries ++ drop (length entries) buf,
            atol (entries ++ 0 ∷ []),
            after,
          ))
        × HasSent client
            (request_stream (op_number getdirentries_op) (entries_params fd nbytes basep))
            after
  unfolding getdirentries_stub
  getdirentries_stub-remote sys fd buf nbytes basep new_basep entries remote fd_fits small
        basep_fits new_fits fits entries_small exchange =
      let op = op_number getdirentries_op in
      let nb = to_long (pos nbytes) in
      let (sent, e, has_sent) =
        call_remote-eq client op errno (entries_params fd nbytes basep)
          (print_int (pos (length entries)) ∷ entries ∷ print_int new_basep ∷ []) (omega arith)
          errno_fits (omega arith) (omega arith)
          (
            numeral-sized fd (omega arith),
            (
              numeral-sized nb (to_long-FitsLong nbytes small),
              (numeral-sized basep basep_fits, tt),
            ),
          )
          (
            numeral-sized (pos (length entries)) (omega arith),
            (omega arith, (numeral-sized new_basep new_fits, tt)),
          )
          exchange in
      (
        sent,
        rw (
          remote,
          init_request-eq op 3,
          pack_integral-eq op (none ∷ none ∷ none ∷ []) 0 fd (omega arith),
          pack_integral-eq op (some (print_int fd) ∷ none ∷ none ∷ []) 1 nb
              (to_long-FitsLong nbytes small),
          pack_integral-eq op (some (print_int fd) ∷ some (print_int nb) ∷ none ∷ []) 2 basep
              basep_fits,
          e,
          finish_getdirentries-done sent errno entries buf basep new_basep fits entries_small,
        ),
        has_sent,
      )

-- What `getdirtree` is given back, by the errno in the response.
abbrev pub TreeReturned : {W : Type 0} → Client W → DirTree → Bytes → Type 0
TreeReturned {W} client tree path =
    (after : Client W) × (getdirtree_stub client (path ++ 0 ∷ []) ≡ ok (tree, after))
    × HasSent client (request_stream (op_number getdirtree_op) (path ∷ [])) after

-- It is given NULL, with this errno.
abbrev pub TreeFailed : {W : Type 0} → Client W → ℤ → Bytes → Type 0
TreeFailed {W} client errno path =
    (after : Client W) × (getdirtree_stub client (path ++ 0 ∷ []) ≡ ok (null, after))
    × (after.process.errno ≡ errno)
    × (after.process.world ≡ client.process.world)
    × (after.wire
        ≡ client.wire
          ++ (message_header (request_stream (op_number getdirtree_op) (path ∷ []))
              ++ request_stream (op_number getdirtree_op) (path ∷ [])))

module _ {W : Type 0} (client : Client W) (path : Bytes) (nul_free : IsNulFree path)
    (sized : length path < 2 ^ 64) where
  -- Where the connection takes the request and brings a response with errno 0 and the stream of a
  -- tree, `getdirtree` returns that tree. The path has no NUL, and the tree has no NULL pointers,
  -- its counts are the sizes of the arrays, and its names are lines of at most 1012 bytes.
  pub getdirtree_stub-remote :
      (tree : DirTree)
      → IsTree tree
      → length (tree_stream tree) < 2 ^ 64
      → Exchange client
          (request_stream (op_number getdirtree_op) (path ∷ []))
          (response_stream (pos 0) (tree_stream tree ∷ []))
      → TreeReturned client tree path
  unfolding getdirtree_stub return_val
  getdirtree_stub-remote tree is_tree tree_sized exchange =
      let op = op_number getdirtree_op in
      let (sent, e, has_sent) =
        call_remote-eq client op (pos 0) (path ∷ []) (tree_stream tree ∷ []) (omega arith)
          (omega arith) (omega arith) (omega arith) (sized, tt) (tree_sized, tt) exchange in
      let enough : leb (length path) (length (path ++ 0 ∷ [])) ≡ true =
        le→leb (length path) (length (path ++ 0 ∷ []))
          (omega (arith, length-append path (0 ∷ []))) in
      (
        sent,
        rw (
          c_string-append path [] nul_free,
          init_request-eq op 1,
          pack_pointer-eq op (none ∷ []) 0 (path ++ 0 ∷ []) (length path),
          enough,
          take-append path (0 ∷ []),
          e,
          getdirtree_stub,
          deserialize-serialize_dirtree tree (tree_stream tree) (0 ∷ []) is_tree
              (serialize_dirtree-eq tree is_tree),
        ),
        has_sent,
      )

  -- What `getdirtree` returns where the errno in the response is not 0, whatever text comes with it.
  pub getdirtree_stub-failed :
      (errno : ℤ) (text : Bytes)
      → FitsInt errno
      → eqb_ℤ errno (pos 0) ≡ false
      → length text < 2 ^ 64
      → Exchange client
          (request_stream (op_number getdirtree_op) (path ∷ []))
          (response_stream errno (text ∷ []))
      → TreeFailed client errno path
  unfolding getdirtree_stub return_val
  getdirtree_stub-failed errno text errno_fits fails text_sized exchange =
      let op = op_number getdirtree_op in
      let (sent, e, (process, wire)) =
        call_remote-eq client op errno (path ∷ []) (text ∷ []) (omega arith) errno_fits
          (omega arith) (omega arith) (sized, tt) (text_sized, tt) exchange in
      let enough : leb (length path) (length (path ++ 0 ∷ [])) ≡ true =
        le→leb (length path) (length (path ++ 0 ∷ []))
          (omega (arith, length-append path (0 ∷ []))) in
      (
        with_process sent (record { errno = errno; world = sent.process.world }),
        rw
            (
              c_string-append path [] nul_free,
              init_request-eq op 1,
              pack_pointer-eq op (none ∷ []) 0 (path ++ 0 ∷ []) (length path),
              enough,
              take-append path (0 ∷ []),
              e,
              getdirtree_stub,
              fails,
            )
            refl,
        refl,
        ap (λ p. p.world) process,
        wire,
      )
