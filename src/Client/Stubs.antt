-- ===== src/Client/Stubs.antt =====
-- The stubs of rpc/mylib.c.
use Prim.Native.Nat.{bit_and}
use remote_file_procedure_ca.Prelude.{
  Bool, eqb_ℤ, take, ℕ, none, some, ℤ, pos, bits32, to_long, is_neg, ltb_ℤ, rounds, length,
  get_elem?, leb, ltb, if◌then◌else◌,
}
use remote_file_procedure_ca.Text.{Bytes, c_string}
use remote_file_procedure_ca.Number.{atoi, atol}
use remote_file_procedure_ca.Result.{Result, ok, bad_memory, ◌>>=◌, ◌>>◌, require}
use remote_file_procedure_ca.Marshall.{copy_block}
use remote_file_procedure_ca.Marshall.Request.{init_request, pack_integral, pack_pointer}
use remote_file_procedure_ca.Marshall.Response.{Response}
use remote_file_procedure_ca.Marshall.Tree.{DirTree, null, deserialize_dirtree}
use remote_file_procedure_ca.Socket.{write_bytes}
use remote_file_procedure_ca.Server.{fd_offset, Process, System}
use remote_file_procedure_ca.Server.Service.{
  op_number, open_op, close_op, read_op, write_op, lseek_op, stat_op, unlink_op, getdirentries_op,
  getdirtree_op,
}
use remote_file_procedure_ca.Client.{Client, call_remote, return_val, note_errno}

-- `fd < OFFSET`
abbrev pub is_local : ℤ → Bool
is_local fd = ltb_ℤ fd (pos fd_offset)

-- `flags & O_CREAT`
abbrev pub wants_mode : ℤ → Bool
wants_mode flags = ltb 0 (bit_and (bits32 flags) 0x40)

-- `response->return_sizes[i]`; `return_val` has checked the index.
abbrev pub size_of : Response → ℕ → ℕ
size_of response i = elim (get_elem? response.return_sizes i) [ none ↦ 0 | some size ↦ size ]

-- `memcpy` to the start of the caller's memory.
unfoldable pub copy_out : Bytes → Bytes → Result Bytes
copy_out content memory = do
  require (leb (length content) (length memory)) bad_memory
  ok (write_bytes 0 content memory)

abbrev pub with_process : {W : Type 0} → Client W → Process W → Client W
with_process client process = record client { process = process }

-- The end of most stubs: the result, as `int`, and `errno`.
unfoldable pub finish_int : {W : Type 0} → Client W → Response → Result (ℤ × Client W)
unfolding return_val note_errno
finish_int client response = do
  text ← return_val response 0
  let remote_return = atoi text
  ok (remote_return, note_errno client remote_return response)

-- The same as `ssize_t`.
unfoldable pub finish_long : {W : Type 0} → Client W → Response → Result (ℤ × Client W)
unfolding return_val note_errno
finish_long client response = do
  text ← return_val response 0
  let remote_return = atol text
  ok (remote_return, note_errno client remote_return response)

-- The `size` bytes of the second return value, for `memcpy(buf, …, size)`.
unfoldable pub copy_second : Response → ℕ → Bytes → Result Bytes
unfolding return_val copy_block copy_out
copy_second response size buf = do
  content ← return_val response 1
  content ← copy_block (some content) size
  copy_out content buf

-- The end of `read`: the result and the buffer.
unfoldable pub finish_read :
    {W : Type 0} → Client W → Response → Bytes → Result (ℤ × Bytes × Client W)
unfolding finish_long copy_second
finish_read client response buf = do
  (size, client) ← finish_long client response
  let copied = (do buf ← copy_second response (rounds size) buf; ok (size, buf, client))
  if is_neg size then ok (size, buf, client) else copied

-- The end of `getdirentries`: the result, the buffer and the new `*basep`, which is scanned from the
-- second return value.
unfoldable pub finish_getdirentries :
    {W : Type 0} → Client W → Response → Bytes → ℤ → Result (ℤ × Bytes × ℤ × Client W)
unfolding finish_long copy_second return_val
finish_getdirentries client response buf basep = do
  (size, client) ← finish_long client response
  let copied = (do
    text ← return_val response 1
    buf ← copy_second response (size_of response 1) buf
    ok (size, buf, atol text, client))
  if is_neg size then ok (size, buf, basep, client) else copied

module _ {W : Type 0} where
  -- `pathname` is the memory at the pointer, and `mode` the third argument, if there is one.
  unfoldable pub open_stub : Client W → Bytes → ℤ → ℕ → Result (ℤ × Client W)
  unfolding call_remote finish_int
  open_stub client pathname flags mode = do
    let m = if wants_mode flags then mode else 0
    request ←
        pack_pointer (init_request (op_number open_op) (pos 3)) 0 pathname
          (length (c_string pathname))
    request ← pack_integral request 1 flags
    request ← pack_integral request 2 (pos m)
    (response, client) ← call_remote client request
    finish_int client response

  -- The structure is copied whatever the result.
  unfoldable pub stat_stub : Client W → ℕ → Bytes → Bytes → Result (ℤ × Bytes × Client W)
  unfolding call_remote finish_int copy_block copy_out
  stat_stub client stat_size pathname statbuf = do
    request ←
        pack_pointer (init_request (op_number stat_op) (pos 1)) 0 pathname
          (length (c_string pathname))
    (response, client) ← call_remote client request
    content ← return_val response 1
    content ← copy_block (some content) stat_size
    statbuf ← copy_out content statbuf
    (remote_return, client) ← finish_int client response
    ok (remote_return, statbuf, client)

  unfoldable pub unlink_stub : Client W → Bytes → Result (ℤ × Client W)
  unfolding call_remote finish_int
  unlink_stub client pathname = do
    request ←
        pack_pointer (init_request (op_number unlink_op) (pos 1)) 0 pathname
          (length (c_string pathname))
    (response, client) ← call_remote client request
    finish_int client response

  -- The tree, or NULL and `errno`.
  unfoldable pub getdirtree_stub : Client W → Bytes → Result (DirTree × Client W)
  unfolding call_remote return_val
  getdirtree_stub client path = do
    request ←
        pack_pointer (init_request (op_number getdirtree_op) (pos 1)) 0 path
          (length (c_string path))
    (response, client) ← call_remote client request
    let failed = ok (
      null,
      with_process client (record { errno = response.errno_num; world = client.process.world }),
    )
    let found = (do
      stream ← return_val response 0
      tree ← deserialize_dirtree stream
      ok (tree, client))
    if eqb_ℤ response.errno_num (pos 0) then found else failed

module _ {W : Type 0} (sys : System W) where
  unfoldable pub close_stub : Client W → ℤ → Result (ℤ × Client W)
  unfolding call_remote finish_int
  close_stub client fd =
      let (result, process) = sys.sys_close fd client.process in
      let remote = (do
        request ← pack_integral (init_request (op_number close_op) (pos 1)) 0 fd
        (response, client) ← call_remote client request
        finish_int client response) in
      if is_local fd then ok (result, with_process client process) else remote

  -- The request carries the old content of the buffer along.
  unfoldable pub read_stub : Client W → ℤ → Bytes → ℕ → Result (ℤ × Bytes × Client W)
  unfolding call_remote finish_read
  read_stub client fd buf count =
      let (result, stored, process) = sys.sys_read fd count client.process in
      let remote = (do
        request ← pack_integral (init_request (op_number read_op) (pos 3)) 0 fd
        request ← pack_pointer request 1 buf count
        request ← pack_integral request 2 (to_long (pos count))
        (response, client) ← call_remote client request
        finish_read client response buf) in
      if is_local fd
      then ok (result, write_bytes 0 stored buf, with_process client process)
      else remote

  unfoldable pub write_stub : Client W → ℤ → Bytes → ℕ → Result (ℤ × Client W)
  unfolding call_remote finish_long
  write_stub client fd buf count =
      let (result, process) = sys.sys_write fd (take count buf) client.process in
      let remote = (do
        request ← pack_integral (init_request (op_number write_op) (pos 3)) 0 fd
        request ← pack_pointer request 1 buf count
        request ← pack_integral request 2 (to_long (pos count))
        (response, client) ← call_remote client request
        finish_long client response) in
      if is_local fd then ok (result, with_process client process) else remote

  unfoldable pub lseek_stub : Client W → ℤ → ℤ → ℤ → Result (ℤ × Client W)
  unfolding call_remote finish_long
  lseek_stub client fd offset whence =
      let (result, process) = sys.sys_lseek fd offset whence client.process in
      let remote = (do
        request ← pack_integral (init_request (op_number lseek_op) (pos 3)) 0 fd
        request ← pack_integral request 1 offset
        request ← pack_integral request 2 whence
        (response, client) ← call_remote client request
        finish_long client response) in
      if is_local fd then ok (result, with_process client process) else remote

  -- The result, the buffer and the new `*basep`.
  unfoldable pub getdirentries_stub :
      Client W → ℤ → Bytes → ℕ → ℤ → Result (ℤ × Bytes × ℤ × Client W)
  unfolding call_remote finish_getdirentries
  getdirentries_stub client fd buf nbytes basep =
      let (result, stored, basep', process) =
        sys.sys_getdirentries fd nbytes basep client.process in
      let remote = (do
        request ← pack_integral (init_request (op_number getdirentries_op) (pos 3)) 0 fd
        request ← pack_integral request 1 (to_long (pos nbytes))
        request ← pack_integral request 2 basep
        (response, client) ← call_remote client request
        finish_getdirentries client response buf basep) in
      if is_local fd
      then ok (result, write_bytes 0 stored buf, basep', with_process client process)
      else remote
