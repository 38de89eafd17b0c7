-- ===== src/Server.antt =====
-- rpc/server.c: the process that serves one client. This file has the state, the system calls that
-- the handlers make, and `send_response`.
--
-- The operating system and libdirtree are a parameter: each call takes and returns the process,
-- with its `errno` and the rest of the world.
pub mod Handlers
pub mod Service
pub mod Packed
pub mod Answer
pub mod Replies
pub mod Receive
pub mod Loop
pub mod Wire
pub mod Alike
pub mod Tree
pub mod Fuel
use remote_file_procedure_ca.Prelude.{
  ℕ, ◌+◌, Option, none, some, List, [], ◌∷◌, ◌++◌, ℤ, length, get_elem?, leb,
}
use remote_file_procedure_ca.Text.{Bytes}
use remote_file_procedure_ca.Result.{Result, ok, err, bad_memory, ◌>>=◌, ◌>>◌, require}
use remote_file_procedure_ca.Marshall.Request.{Request}
use remote_file_procedure_ca.Marshall.Response.{Response, serialize_response}
use remote_file_procedure_ca.Marshall.Tree.{DirTree}
use remote_file_procedure_ca.Socket.{storage_size}
use remote_file_procedure_ca.Socket.Write.{SendEvent, Sent, send_message, send_errno}

-- Added to a remote file descriptor, to tell it from a local one.
abbrev pub fd_offset : ℕ
fd_offset = 12345

pub record Process (W : Type 0) : Type 0 where
  pub errno : ℤ
  pub world : W

-- The system calls of the server. A path is the C string that the call is given. `sys_read` and
-- `sys_getdirentries` return the bytes that they store at the start of the buffer, and `sys_stat`
-- the bytes of the `struct stat`, of which there are `stat_size`. `sys_write` is given the bytes that
-- it is to write.
pub record System (W : Type 0) : Type 0 where
  pub stat_size : ℕ
  pub sys_open : Bytes → ℤ → ℕ → Process W → ℤ × Process W
  pub sys_close : ℤ → Process W → ℤ × Process W
  pub sys_read : ℤ → ℕ → Process W → ℤ × Bytes × Process W
  pub sys_write : ℤ → Bytes → Process W → ℤ × Process W
  pub sys_lseek : ℤ → ℤ → ℤ → Process W → ℤ × Process W
  pub sys_stat : Bytes → Process W → ℤ × Bytes × Process W
  pub sys_unlink : Bytes → Process W → ℤ × Process W
  pub sys_getdirentries : ℤ → ℕ → ℤ → Process W → ℤ × Bytes × ℤ × Process W
  pub sys_getdirtree : Bytes → Process W → DirTree × Process W

-- The server process and its connection: what `send` will do, and the bytes sent so far.
pub record Server (W : Type 0) : Type 0 where
  pub process : Process W
  pub send_events : List SendEvent
  pub wire : Bytes

-- What the system calls of the connection leave in `errno`.
abbrev pub with_errno : {W : Type 0} → Server W → ℤ → Server W
with_errno server errno = record server {
  process = record { errno = errno; world = server.process.world };
}

-- `request->params[i]`, followed.
unfoldable pub param : Request → ℕ → Result Bytes
param request i = elim (get_elem? request.params i) [
  | none ↦ err bad_memory
  | some block ↦ elim block [ none ↦ err bad_memory | some bytes ↦ ok bytes ]
]

-- `stream` has `STORAGE_SIZE + 1` bytes.
unfoldable pub send_response : {W : Type 0} → Server W → Response → Result (Server W)
send_response server response = do
  stream ← serialize_response response
  require (leb (length stream) (storage_size + 1)) bad_memory
  let sent = send_message server.send_events stream
  done ← sent.result
  let errno = send_errno server.send_events stream server.process.errno
  ok (record server {
    process = record { errno = errno; world = server.process.world };
    send_events = sent.events;
    wire = server.wire ++ sent.wire;
  })
