-- ===== src/Server/Handlers.antt =====
-- The `serve_` functions of rpc/server.c, one for each procedure.
use remote_file_procedure_ca.Prelude.{
  bits32, eqb_ℤ, leb, ℕ, ◌+◌, ◌%◌, ◌^◌, some, [], ℤ, pos, negsuc, ◌+ℤ◌, ◌-ℤ◌, to_int, to_size,
  rounds, length, if◌then◌else◌,
}
use remote_file_procedure_ca.Text.{Bytes, c_string}
use remote_file_procedure_ca.Number.{atoi, atol}
use remote_file_procedure_ca.Result.{Result, ok, bad_memory, ◌>>=◌, ◌>>◌, require}
use remote_file_procedure_ca.Marshall.{copy_block}
use remote_file_procedure_ca.Marshall.Request.{Request}
use remote_file_procedure_ca.Marshall.Response.{init_response, marshall_integral, marshall_pointer}
use remote_file_procedure_ca.Marshall.Tree.{DirTree, null, node, serialize_dirtree}
use remote_file_procedure_ca.Socket.{storage_size, read_bytes}
use remote_file_procedure_ca.Server.{fd_offset, Process, System, Server, param, send_response}

-- `int fd = atoi(text) - OFFSET`
abbrev pub local_fd : Bytes → ℤ
local_fd text = to_int (atoi text -ℤ pos fd_offset)

-- `if (fd != -1) fd += OFFSET`
abbrev pub remote_fd : ℤ → ℤ
remote_fd fd = if eqb_ℤ fd (negsuc 0) then fd else to_int (fd +ℤ pos fd_offset)

-- `(return_val >= 0) ? return_val : 0`
abbrev pub size_returned : ℤ → ℕ
size_returned = rounds

-- A buffer from `calloc(count + 1)` in which a call has stored these bytes.
abbrev pub call_buffer : ℕ → Bytes → Bytes
call_buffer count stored = read_bytes ((count + 1) % 2 ^ 64) stored

-- `errno = 0` before the call; `errno = old_errno` behind it.
abbrev pub cleared : {W : Type 0} → Server W → Process W
cleared server = record { errno = pos 0; world = server.process.world }

abbrev pub restored : {W : Type 0} → Server W → Process W → Server W
restored server after = record server {
  process = record { errno = server.process.errno; world = after.world };
}

-- What `serve_getdirtree` puts in `tree_buf`, which has `STORAGE_SIZE` bytes. No tree is NULL.
unfoldable pub tree_bytes : DirTree → Result Bytes
tree_bytes null = ok []
tree_bytes (node name num_subdirs subdirs) = do
  stream ← serialize_dirtree (node name num_subdirs subdirs)
  require (leb (length stream) storage_size) bad_memory
  ok stream

module _ {W : Type 0} (sys : System W) where
  unfoldable pub serve_open : Server W → Request → Result (Server W)
  unfolding param send_response
  serve_open server request = do
    flags ← param request 1
    mode ← param request 2
    path ← param request 0
    let (fd, after) =
        sys.sys_open (c_string path) (atoi flags) (bits32 (atoi mode)) (cleared server)
    response ← marshall_integral (init_response after.errno (pos 1)) 0 (remote_fd fd)
    send_response (restored server after) response

  unfoldable pub serve_close : Server W → Request → Result (Server W)
  unfolding param send_response
  serve_close server request = do
    fd ← param request 0
    let (return_val, after) = sys.sys_close (local_fd fd) (cleared server)
    response ← marshall_integral (init_response after.errno (pos 1)) 0 return_val
    send_response (restored server after) response

  unfoldable pub serve_read : Server W → Request → Result (Server W)
  unfolding param send_response
  serve_read server request = do
    fd ← param request 0
    count_text ← param request 2
    let count = to_size (atol count_text)
    let (return_val, stored, after) = sys.sys_read (local_fd fd) count (cleared server)
    response ← marshall_integral (init_response after.errno (pos 2)) 0 return_val
    response ← marshall_pointer response 1 (call_buffer count stored) (size_returned return_val)
    send_response (restored server after) response

  unfoldable pub serve_write : Server W → Request → Result (Server W)
  unfolding param send_response copy_block
  serve_write server request = do
    fd ← param request 0
    count_text ← param request 2
    buf ← param request 1
    data_bytes ← copy_block (some buf) (to_size (atol count_text))
    let (return_val, after) = sys.sys_write (local_fd fd) data_bytes (cleared server)
    response ← marshall_integral (init_response after.errno (pos 1)) 0 return_val
    send_response (restored server after) response

  unfoldable pub serve_lseek : Server W → Request → Result (Server W)
  unfolding param send_response
  serve_lseek server request = do
    fd ← param request 0
    offset ← param request 1
    whence ← param request 2
    let (return_val, after) =
        sys.sys_lseek (local_fd fd) (atol offset) (atoi whence) (cleared server)
    response ← marshall_integral (init_response after.errno (pos 1)) 0 return_val
    send_response (restored server after) response

  unfoldable pub serve_stat : Server W → Request → Result (Server W)
  unfolding param send_response
  serve_stat server request = do
    path ← param request 0
    let (return_val, temp_stat, after) = sys.sys_stat (c_string path) (cleared server)
    response ← marshall_integral (init_response after.errno (pos 2)) 0 return_val
    response ← marshall_pointer response 1 (read_bytes sys.stat_size temp_stat) sys.stat_size
    send_response (restored server after) response

  unfoldable pub serve_unlink : Server W → Request → Result (Server W)
  unfolding param send_response
  serve_unlink server request = do
    path ← param request 0
    let (return_val, after) = sys.sys_unlink (c_string path) (cleared server)
    response ← marshall_integral (init_response after.errno (pos 1)) 0 return_val
    send_response (restored server after) response

  unfoldable pub serve_getdirentries : Server W → Request → Result (Server W)
  unfolding param send_response
  serve_getdirentries server request = do
    fd ← param request 0
    nbytes_text ← param request 1
    basep_text ← param request 2
    let nbytes = to_size (atol nbytes_text)
    let (return_val, stored, basep, after) =
        sys.sys_getdirentries (local_fd fd) nbytes (atol basep_text) (cleared server)
    response ← marshall_integral (init_response after.errno (pos 3)) 0 return_val
    response ← marshall_pointer response 1 (call_buffer nbytes stored) (size_returned return_val)
    response ← marshall_integral response 2 basep
    send_response (restored server after) response

  unfoldable pub serve_getdirtree : Server W → Request → Result (Server W)
  unfolding param send_response tree_bytes
  serve_getdirtree server request = do
    path ← param request 0
    let (local_root, after) = sys.sys_getdirtree (c_string path) (cleared server)
    tree_buf ← tree_bytes local_root
    response ← marshall_pointer (init_response after.errno (pos 1)) 0 tree_buf (length tree_buf)
    send_response (restored server after) response
