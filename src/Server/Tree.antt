-- ===== src/Server/Tree.antt =====
-- `serve_getdirtree` of rpc/server.c on trees of any size.
use remote_file_procedure_ca.Prelude.{
  ◌+◌, ◌<◌, ◌≤◌, ◌≡◌, ◌∙◌, [], ◌∷◌, ◌++◌, arith, ℤ, pos, FitsInt, length, length-append, leb,
  le→leb, leb→le, Bool-cases, inl, inr, true, false, if◌then◌else◌,
}
use remote_file_procedure_ca.Text.{Bytes}
use remote_file_procedure_ca.Text.Search.{IsNulFree}
use remote_file_procedure_ca.Result.{ok, err, bad_memory}
use remote_file_procedure_ca.Number.{print_size}
use remote_file_procedure_ca.Marshall.{line_split}
use remote_file_procedure_ca.Marshall.Header.{number_line}
use remote_file_procedure_ca.Marshall.Response.{header_errno, header_return_num}
use remote_file_procedure_ca.Marshall.Fields.RoundTrip.{layout}
use remote_file_procedure_ca.Marshall.Request.RoundTrip.{request_of}
use remote_file_procedure_ca.Marshall.Response.RoundTrip.{
  response_stream, serialize_response-stream,
}
use remote_file_procedure_ca.Marshall.Tree.{DirTree}
use remote_file_procedure_ca.Marshall.Tree.Shape.{IsTree, tree_stream}
use remote_file_procedure_ca.Socket.{storage_size}
use remote_file_procedure_ca.Socket.Write.Stream.{IsHealthy, total_room, message_header}
use remote_file_procedure_ca.Server.{Process, System, Server, send_response}
use remote_file_procedure_ca.Server.Handlers.{cleared, serve_getdirtree}
use remote_file_procedure_ca.Server.Answer.{answer}
use remote_file_procedure_ca.Server.Replies.{serve_getdirtree-answer}
use remote_file_procedure_ca.Server.Service.{op_number, getdirtree_op}
use remote_file_procedure_ca.Server.Wire.{replied, answer-replied}

-- The stream of a response has its values and more.
response_stream-longer :
    (errno : ℤ) (text : Bytes) → length text < length (response_stream errno (text ∷ []))
unfolding response_stream layout
response_stream-longer errno text =
    let first = number_line header_errno errno in
    let second = number_line header_return_num (pos 1) in
    let size = print_size (length text) in
    omega (
      arith,
      length-append first (second ++ layout (text ∷ [])),
      length-append second (layout (text ∷ [])),
      length-append size (line_split ++ (text ++ (line_split ++ []))),
      length-append text (line_split ++ []),
    )

module _ {W : Type 0} (sys : System W) (server : Server W) (after : Process W)
    (errno_fits : FitsInt after.errno) where
  answer_too_long :
      (text : Bytes)
      → length text ≤ storage_size
      → leb (length (response_stream after.errno (text ∷ []))) (storage_size + 1) ≡ false
      → answer server after (text ∷ []) ≡ err bad_memory
  unfolding send_response
  answer_too_long text small long = rw (
    serialize_response-stream after.errno (text ∷ []) errno_fits (omega arith) (omega arith, tt),
    send_response,
    long,
  )

  -- What `serve_getdirtree` does with a tree, by the size of the response: where the stream of the
  -- response fits into the buffer for it, which has `STORAGE_SIZE + 1` bytes, the handler returns and
  -- that stream is on the wire, with the errno that libdirtree has left; where it is longer, a buffer is
  -- overrun, the one for the tree or the one for the response. The path has no NUL, the tree has no
  -- NULL pointers, its counts are the sizes of the arrays, its names are lines of at most 1012
  -- bytes, errno is an `int`, and the connection takes the response.
  pub serve_getdirtree-by_size :
      (path : Bytes) (tree : DirTree)
      → IsNulFree path
      → sys.sys_getdirtree path (cleared server) ≡ (tree, after)
      → IsTree tree
      → IsHealthy server.send_events
      → length (
          message_header (response_stream after.errno (tree_stream tree ∷ []))
          ++ response_stream after.errno (tree_stream tree ∷ []))
        ≤ total_room server.send_events
      → serve_getdirtree sys server (request_of (op_number getdirtree_op) (path ∷ [])) ≡ (
          if leb (length (response_stream after.errno (tree_stream tree ∷ []))) (storage_size + 1)
          then ok (replied server after (response_stream after.errno (tree_stream tree ∷ [])))
          else err bad_memory)
  serve_getdirtree-by_size path tree nul_free called is_tree healthy room =
      let text = tree_stream tree in
      let reply = response_stream after.errno (text ∷ []) in
      let longer = response_stream-longer after.errno text in
      let handled = serve_getdirtree-answer sys server path tree after nul_free called is_tree in
      elim (Bool-cases (leb (length reply) (storage_size + 1))) [
        | inl fits ↦
            let small = leb→le (length reply) (storage_size + 1) fits in
            let tree_fits : leb (length text) storage_size ≡ true =
              le→leb (length text) storage_size (omega arith) in
            rw fits (
              rw tree_fits at handled
              ∙ answer-replied sys server after (text ∷ []) errno_fits (omega arith)
                  (omega arith, tt) (small, healthy, room))
        | inr long ↦ rw long (elim (Bool-cases (leb (length text) storage_size)) [
          | inl tree_fits ↦
              rw tree_fits at handled
              ∙ answer_too_long text (leb→le (length text) storage_size tree_fits) long
          | inr too_large ↦ rw too_large at handled
        ])
      ]
