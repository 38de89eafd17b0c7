-- ===== src/FileService/Handlers.antt =====
-- The handlers of rpc/server.c do what the file service promises.
use remote_file_procedure_ca.Prelude.{
  zero, suc, false, ◌==◌, ◌+◌, ◌+ℤ◌, to_int, ap, negsuc, ℤ, FitsLong, ◌∙◌, ◌≤◌, ◌≡◌, refl, inl, inr,
  List, [], ◌∷◌, arith, pos, to_long, to_long-FitsLong, FitsInt, length, le→leb,
}
use remote_file_procedure_ca.Text.{Bytes}
use remote_file_procedure_ca.Text.Search.{IsNulFree}
use remote_file_procedure_ca.Marshall.Fields.RoundTrip.{AreSized}
use remote_file_procedure_ca.Marshall.Request.RoundTrip.{request_of}
use remote_file_procedure_ca.Marshall.Tree.{DirTree, null, node}
use remote_file_procedure_ca.Marshall.Tree.Shape.{tree_stream}
use remote_file_procedure_ca.Socket.{storage_size}
use remote_file_procedure_ca.Server.{fd_offset, Process, System, Server}
use remote_file_procedure_ca.Server.Handlers.{cleared, remote_fd, serve_getdirtree}
use remote_file_procedure_ca.Server.Answer.{answer, server_fd, remote_fd-FitsLong}
use remote_file_procedure_ca.Server.Replies.{
  serve_open-answer, serve_close-answer, serve_read-answer, serve_write-answer, serve_lseek-answer,
  serve_stat-answer, serve_unlink-answer, serve_getdirentries-answer, serve_getdirtree-answer,
  serve_getdirtree-null,
}
use remote_file_procedure_ca.Server.Service.{op_number, serve, getdirtree_op}
use remote_file_procedure_ca.Server.Wire.{HasRoom, replied, answer-replied}
use remote_file_procedure_ca.Marshall.Response.RoundTrip.{response_stream}
use remote_file_procedure_ca.Result.{ok}
use remote_file_procedure_ca.Client.Remote.{numeral-sized}
use remote_file_procedure_ca.FileService.{
  Call, open_call, close_call, read_call, write_call, lseek_call, stat_call, unlink_call,
  getdirentries_call, getdirtree_call, procedure, params, perform, IsCall, SystemLaws, clear,
  tree_text, client_fd, IsSmallTree, TreeFits,
}

pub params-AreSized : (call : Call) → IsCall call → AreSized (params call)
params-AreSized (open_call path flags mode) (nul_free, sized, flags_fit, mode_fits) =
    (sized, (numeral-sized flags (omega arith), (numeral-sized (pos mode) (omega arith), tt)))
params-AreSized (close_call fd) fits = (numeral-sized fd (omega arith), tt)
params-AreSized (read_call fd old count) (fits, sized, small) = (
  numeral-sized fd (omega arith),
  (sized, (numeral-sized (to_long (pos count)) (to_long-FitsLong count (omega arith)), tt)),
)
params-AreSized (write_call fd buf) (fits, sized) = (
  numeral-sized fd (omega arith),
  (sized, (numeral-sized (to_long (pos (length buf))) (to_long-FitsLong (length buf) sized), tt)),
)
params-AreSized (lseek_call fd offset whence) (fits, offset_fits, whence_fits) = (
  numeral-sized fd (omega arith),
  (numeral-sized offset offset_fits, (numeral-sized whence (omega arith), tt)),
)
params-AreSized (stat_call path) (nul_free, sized) = (sized, tt)
params-AreSized (unlink_call path) (nul_free, sized) = (sized, tt)
params-AreSized (getdirentries_call fd nbytes basep) (fits, small, basep_fits) = (
  numeral-sized fd (omega arith),
  (
    numeral-sized (to_long (pos nbytes)) (to_long-FitsLong nbytes (omega arith)),
    (numeral-sized basep basep_fits, tt),
  ),
)
params-AreSized (getdirtree_call path) (nul_free, sized) = (sized, tt)

pub length-params : (call : Call) → length (params call) ≤ 3
length-params (open_call path flags mode) = omega arith
length-params (close_call fd) = omega arith
length-params (read_call fd old count) = omega arith
length-params (write_call fd buf) = omega arith
length-params (lseek_call fd offset whence) = omega arith
length-params (stat_call path) = omega arith
length-params (unlink_call path) = omega arith
length-params (getdirentries_call fd nbytes basep) = omega arith
length-params (getdirtree_call path) = omega arith

tree_text-small : (tree : DirTree) → IsSmallTree tree → length (tree_text tree) ≤ storage_size
tree_text-small tree (inl e) = rw e (omega arith)
tree_text-small null (inr (is_tree, small)) = omega arith
tree_text-small (node name num subdirs) (inr (is_tree, small)) = small

pub remote_fd-client_fd : (fd : ℤ) → remote_fd fd ≡ client_fd fd
remote_fd-client_fd (pos n) =
    let up : pos n +ℤ pos fd_offset ≡ pos (n + fd_offset) = ground arith in ap to_int up
remote_fd-client_fd (negsuc zero) = refl
remote_fd-client_fd (negsuc (suc n)) =
    let differ : (suc n == 0) ≡ false = ground arith in rw differ refl

client_fd-FitsLong : (fd : ℤ) → FitsLong fd → FitsLong (client_fd fd)
client_fd-FitsLong fd h = rw (remote_fd-client_fd fd) at (remote_fd-FitsLong fd h)

-- An answer that a response can hold.
abbrev pub IsAnswer : {W : Type 0} → List Bytes × Process W → Type 0
IsAnswer (vals, after) = (length vals ≤ 3) × AreSized vals × FitsInt after.errno

module _ {W : Type 0} (sys : System W) (laws : SystemLaws sys) where
  pub perform-IsAnswer :
      (call : Call) (w : W)
      → IsCall call
      → TreeFits sys call w
      → IsAnswer (perform sys call (clear w))
  perform-IsAnswer (open_call path flags mode) w is_call tree_fits =
      let (fits, errno_fits) = laws.open_fits path flags mode w in
      let fd = (sys.sys_open path flags mode (clear w)).0 in
      (
        omega arith,
        (numeral-sized (client_fd fd) (client_fd-FitsLong fd (omega arith)), tt),
        errno_fits,
      )
  perform-IsAnswer (close_call fd) w is_call tree_fits =
      let (fits, errno_fits) = laws.close_fits (server_fd fd) w in
      (
        omega arith,
        (numeral-sized (sys.sys_close (server_fd fd) (clear w)).0 (omega arith), tt),
        errno_fits,
      )
  perform-IsAnswer (read_call fd old count) w is_call tree_fits =
      let (fits, size, few, errno_fits) = laws.read_fits (server_fd fd) count w in
      (
        omega arith,
        (
          numeral-sized (sys.sys_read (server_fd fd) count (clear w)).0 fits,
          (omega (arith, few, is_call.2), tt),
        ),
        errno_fits,
      )
  perform-IsAnswer (write_call fd buf) w is_call tree_fits =
      let (fits, errno_fits) = laws.write_fits (server_fd fd) buf w in
      (
        omega arith,
        (numeral-sized (sys.sys_write (server_fd fd) buf (clear w)).0 fits, tt),
        errno_fits,
      )
  perform-IsAnswer (lseek_call fd offset whence) w is_call tree_fits =
      let (fits, errno_fits) = laws.lseek_fits (server_fd fd) offset whence w in
      (
        omega arith,
        (numeral-sized (sys.sys_lseek (server_fd fd) offset whence (clear w)).0 fits, tt),
        errno_fits,
      )
  perform-IsAnswer (stat_call path) w is_call tree_fits =
      let (fits, size, errno_fits) = laws.stat_fits path w in
      (
        omega arith,
        (
          numeral-sized (sys.sys_stat path (clear w)).0 (omega arith),
          (omega (arith, size, laws.stat_law), tt),
        ),
        errno_fits,
      )
  perform-IsAnswer (unlink_call path) w is_call tree_fits =
      let (fits, errno_fits) = laws.unlink_fits path w in
      (omega arith, (numeral-sized (sys.sys_unlink path (clear w)).0 (omega arith), tt), errno_fits)
  perform-IsAnswer (getdirentries_call fd nbytes basep) w is_call tree_fits =
      let (fits, size, few, base_fits, errno_fits) =
        laws.getdirentries_fits (server_fd fd) nbytes basep w in
      let r = sys.sys_getdirentries (server_fd fd) nbytes basep (clear w) in
      (
        omega arith,
        (
          numeral-sized r.0 fits,
          (omega (arith, few, is_call.1), (numeral-sized r.2 base_fits, tt)),
        ),
        errno_fits,
      )
  perform-IsAnswer (getdirtree_call path) w is_call tree_fits =
      let small = tree_text-small (sys.sys_getdirtree path (clear w)).0 tree_fits in
      (omega arith, (omega (arith, small), tt), laws.getdirtree_fits path w)

  serve_tree :
      (server : Server W) (path : Bytes) (tree : DirTree) (after : Process W)
      → IsNulFree path
      → sys.sys_getdirtree path (cleared server) ≡ (tree, after)
      → IsSmallTree tree
      → serve_getdirtree sys server (request_of (op_number getdirtree_op) (path ∷ []))
        ≡ answer server after (tree_text tree ∷ [])
  serve_tree server path tree after nul_free called (inl e) =
      rw e (serve_getdirtree-null sys server path after nul_free (rw e at called))
  serve_tree server path null after nul_free called (inr (is_tree, small)) = absurd is_tree
  serve_tree server path (node name num subdirs) after nul_free called (inr (is_tree, small)) =
      rw (le→leb (length (tree_stream (node name num subdirs))) storage_size small) at (
        serve_getdirtree-answer sys server path (node name num subdirs) after nul_free called
          is_tree)

  serve-perform :
      (call : Call) (server : Server W)
      → IsCall call
      → TreeFits sys call server.process.world
      → serve sys (procedure call) server (request_of (op_number (procedure call)) (params call))
        ≡ answer server
            (perform sys call (clear server.process.world)).1
            (perform sys call (clear server.process.world)).0
  unfolding serve
  serve-perform (open_call path flags mode) server (nul_free, sized, flags_fit, mode_fits)
        tree_fits =
      rw (remote_fd-client_fd _) at (
        serve_open-answer sys server path flags mode _ _ nul_free flags_fit mode_fits refl
          (laws.open_fits path flags mode server.process.world).0)
  serve-perform (close_call fd) server fits tree_fits =
      let result_fits = (laws.close_fits (server_fd fd) server.process.world).0 in
      serve_close-answer sys server fd _ _ fits refl (omega arith)
  serve-perform (read_call fd old count) server (fits, sized, small) tree_fits =
      let (result_fits, size, few, errno_fits) =
        laws.read_fits (server_fd fd) count server.process.world in
      serve_read-answer sys server fd old count _ _ _ fits refl result_fits (size, few, small)
  serve-perform (write_call fd buf) server (fits, sized) tree_fits =
      serve_write-answer sys server fd buf _ _ fits sized refl
        (laws.write_fits (server_fd fd) buf server.process.world).0
  serve-perform (lseek_call fd offset whence) server (fits, offset_fits, whence_fits) tree_fits =
      serve_lseek-answer sys server fd offset whence _ _ fits offset_fits whence_fits refl
        (laws.lseek_fits (server_fd fd) offset whence server.process.world).0
  serve-perform (stat_call path) server (nul_free, sized) tree_fits =
      let (result_fits, size, errno_fits) = laws.stat_fits path server.process.world in
      serve_stat-answer sys server path _ _ _ nul_free refl (omega arith) size
  serve-perform (unlink_call path) server (nul_free, sized) tree_fits =
      let result_fits = (laws.unlink_fits path server.process.world).0 in
      serve_unlink-answer sys server path _ _ nul_free refl (omega arith)
  serve-perform (getdirentries_call fd nbytes basep) server (fits, small, basep_fits) tree_fits =
      let (result_fits, size, few, base_fits, errno_fits) =
        laws.getdirentries_fits (server_fd fd) nbytes basep server.process.world in
      serve_getdirentries-answer sys server fd nbytes basep _ _ _ _ fits basep_fits refl result_fits
        (size, few, small) base_fits
  serve-perform (getdirtree_call path) server (nul_free, sized) tree_fits =
      serve_tree server path _ _ nul_free refl tree_fits

  -- Where a request is one of a call with arguments of the widths of their types, its handler makes the
  -- call on the server's files, with errno 0 before it, and no fault: it returns, the world is as
  -- the file service has it, and what has been put on the wire is the response with the values and
  -- the errno that the file service promises. The operating system keeps its laws, the tree of a
  -- `getdirtree` fits into the buffer for it, and the response into its own, and the connection takes it.
  pub serve-replied :
      (call : Call) (server : Server W) (vals : List Bytes) (after : Process W)
      → IsCall call
      → TreeFits sys call server.process.world
      → perform sys call (clear server.process.world) ≡ (vals, after)
      → HasRoom server (response_stream after.errno vals)
      → serve sys (procedure call) server (request_of (op_number (procedure call)) (params call))
        ≡ ok (replied server after (response_stream after.errno vals))
  serve-replied call server vals after is_call tree_fits performed room =
      let (few, sized, errno_fits) =
        rw performed at (perform-IsAnswer call server.process.world is_call tree_fits) in
      rw performed at (serve-perform call server is_call tree_fits)
      ∙ answer-replied sys server after vals errno_fits (omega arith) sized room
