-- ===== src/FileService.antt =====
-- What the server of rpc/server.c promises to a client, with no byte stream in it: a call is an operation
-- on the server's files, which changes the world and has an answer.
pub mod Handlers
pub mod Stream
use remote_file_procedure_ca.Prelude.{
  ℕ, zero, suc, ◌+◌, negsuc, ◌+ℤ◌, to_int, ◌<◌, ◌≤◌, ◌^◌, ◌≡◌, ◌⊎◌, List, [], ◌∷◌, ℤ, pos, to_long,
  FitsInt, FitsLong, length,
}
use remote_file_procedure_ca.Text.{Bytes}
use remote_file_procedure_ca.Text.Search.{IsNulFree}
use remote_file_procedure_ca.Number.{print_int}
use remote_file_procedure_ca.Marshall.Tree.{DirTree, null, node}
use remote_file_procedure_ca.Marshall.Tree.Shape.{IsTree, tree_stream}
use remote_file_procedure_ca.Socket.{storage_size}
use remote_file_procedure_ca.Server.{fd_offset, Process, System}
use remote_file_procedure_ca.Server.Handlers.{size_returned}
use remote_file_procedure_ca.Server.Answer.{server_fd}
use remote_file_procedure_ca.Server.Service.{
  Procedure, open_op, close_op, read_op, write_op, lseek_op, stat_op, unlink_op, getdirentries_op,
  getdirtree_op,
}

-- The calls, with the client's descriptors. A `read` has the old content of the client's buffer with it.
pub data Call : Type 0 where
  open_call : Bytes → ℤ → ℕ → Call
  close_call : ℤ → Call
  read_call : ℤ → Bytes → ℕ → Call
  write_call : ℤ → Bytes → Call
  lseek_call : ℤ → ℤ → ℤ → Call
  stat_call unlink_call : Bytes → Call
  getdirentries_call : ℤ → ℕ → ℤ → Call
  getdirtree_call : Bytes → Call

abbrev pub procedure : Call → Procedure
procedure (open_call path flags mode) = open_op
procedure (close_call fd) = close_op
procedure (read_call fd old count) = read_op
procedure (write_call fd buf) = write_op
procedure (lseek_call fd offset whence) = lseek_op
procedure (stat_call path) = stat_op
procedure (unlink_call path) = unlink_op
procedure (getdirentries_call fd nbytes basep) = getdirentries_op
procedure (getdirtree_call path) = getdirtree_op

-- What the stub of the call packs into its request.
abbrev pub params : Call → List Bytes
params (open_call path flags mode) = path ∷ print_int flags ∷ print_int (pos mode) ∷ []
params (close_call fd) = print_int fd ∷ []
params (read_call fd old count) = print_int fd ∷ old ∷ print_int (to_long (pos count)) ∷ []
params (write_call fd buf) = print_int fd ∷ buf ∷ print_int (to_long (pos (length buf))) ∷ []
params (lseek_call fd offset whence) = print_int fd ∷ print_int offset ∷ print_int whence ∷ []
params (stat_call path) = path ∷ []
params (unlink_call path) = path ∷ []
params (getdirentries_call fd nbytes basep) =
    print_int fd ∷ print_int (to_long (pos nbytes)) ∷ print_int basep ∷ []
params (getdirtree_call path) = path ∷ []

-- The descriptor that a client is given for the result of an `open` on the server: -1 stays -1, and the
-- others move up by `OFFSET`, as an `int`.
abbrev pub client_fd : ℤ → ℤ
client_fd (pos n) = to_int (pos (n + fd_offset))
client_fd (negsuc zero) = negsuc 0
client_fd (negsuc (suc n)) = to_int (negsuc (suc n) +ℤ pos fd_offset)

abbrev pub tree_text : DirTree → Bytes
tree_text null = []
tree_text (node name num subdirs) = tree_stream (node name num subdirs)

-- The operation on the server's files: the values of the answer, and the process behind it.
abbrev pub perform : {W : Type 0} → System W → Call → Process W → List Bytes × Process W
perform sys (open_call path flags mode) p =
    let (fd, after) = sys.sys_open path flags mode p in (print_int (client_fd fd) ∷ [], after)
perform sys (close_call fd) p =
    let (result, after) = sys.sys_close (server_fd fd) p in (print_int result ∷ [], after)
perform sys (read_call fd old count) p =
    let (result, stored, after) = sys.sys_read (server_fd fd) count p in
    (print_int result ∷ stored ∷ [], after)
perform sys (write_call fd buf) p =
    let (result, after) = sys.sys_write (server_fd fd) buf p in (print_int result ∷ [], after)
perform sys (lseek_call fd offset whence) p =
    let (result, after) = sys.sys_lseek (server_fd fd) offset whence p in
    (print_int result ∷ [], after)
perform sys (stat_call path) p =
    let (result, temp_stat, after) = sys.sys_stat path p in
    (print_int result ∷ temp_stat ∷ [], after)
perform sys (unlink_call path) p =
    let (result, after) = sys.sys_unlink path p in (print_int result ∷ [], after)
perform sys (getdirentries_call fd nbytes basep) p =
    let (result, stored, new_basep, after) = sys.sys_getdirentries (server_fd fd) nbytes basep p in
    (print_int result ∷ stored ∷ print_int new_basep ∷ [], after)
perform sys (getdirtree_call path) p =
    let (tree, after) = sys.sys_getdirtree path p in (tree_text tree ∷ [], after)

-- The arguments have the widths of their types, and a path has no NUL.
abbrev pub IsCall : Call → Type 0
IsCall (open_call path flags mode) =
    IsNulFree path × (length path < 2 ^ 64) × FitsInt flags × (mode < 2 ^ 32)
IsCall (close_call fd) = FitsInt fd
IsCall (read_call fd old count) = FitsInt fd × (length old < 2 ^ 64) × (count < 2 ^ 63)
IsCall (write_call fd buf) = FitsInt fd × (length buf < 2 ^ 64)
IsCall (lseek_call fd offset whence) = FitsInt fd × FitsLong offset × FitsInt whence
IsCall (stat_call path) = IsNulFree path × (length path < 2 ^ 64)
IsCall (unlink_call path) = IsNulFree path × (length path < 2 ^ 64)
IsCall (getdirentries_call fd nbytes basep) = FitsInt fd × (nbytes < 2 ^ 63) × FitsLong basep
IsCall (getdirtree_call path) = IsNulFree path × (length path < 2 ^ 64)

-- The process before a call, with errno 0.
abbrev pub clear : {W : Type 0} → W → Process W
clear world = record { errno = pos 0; world = world }

-- What the code relies on: the results of the system calls and errno have the widths of their types, a
-- call stores as many bytes as its result says and no more than it was asked for, and `stat` fills its
-- structure.
pub record SystemLaws {W : Type 0} (sys : System W) : Type 0 where
  pub stat_law : sys.stat_size < 2 ^ 64
  pub open_fits :
      (path : Bytes) (flags : ℤ) (mode : ℕ) (w : W)
      → FitsInt (sys.sys_open path flags mode (clear w)).0
        × FitsInt (sys.sys_open path flags mode (clear w)).1.errno
  pub close_fits :
      (fd : ℤ) (w : W)
      → FitsInt (sys.sys_close fd (clear w)).0 × FitsInt (sys.sys_close fd (clear w)).1.errno
  pub read_fits :
      (fd : ℤ) (count : ℕ) (w : W)
      → FitsLong (sys.sys_read fd count (clear w)).0
        × (size_returned (sys.sys_read fd count (clear w)).0
            ≡ length (sys.sys_read fd count (clear w)).1)
        × (length (sys.sys_read fd count (clear w)).1 ≤ count)
        × FitsInt (sys.sys_read fd count (clear w)).2.errno
  pub write_fits :
      (fd : ℤ) (buf : Bytes) (w : W)
      → FitsLong (sys.sys_write fd buf (clear w)).0
        × FitsInt (sys.sys_write fd buf (clear w)).1.errno
  pub lseek_fits :
      (fd offset whence : ℤ) (w : W)
      → FitsLong (sys.sys_lseek fd offset whence (clear w)).0
        × FitsInt (sys.sys_lseek fd offset whence (clear w)).1.errno
  pub stat_fits :
      (path : Bytes) (w : W)
      → FitsInt (sys.sys_stat path (clear w)).0
        × (length (sys.sys_stat path (clear w)).1 ≡ sys.stat_size)
        × FitsInt (sys.sys_stat path (clear w)).2.errno
  pub unlink_fits :
      (path : Bytes) (w : W)
      → FitsInt (sys.sys_unlink path (clear w)).0 × FitsInt (sys.sys_unlink path (clear w)).1.errno
  pub getdirentries_fits :
      (fd : ℤ) (nbytes : ℕ) (basep : ℤ) (w : W)
      → FitsLong (sys.sys_getdirentries fd nbytes basep (clear w)).0
        × (size_returned (sys.sys_getdirentries fd nbytes basep (clear w)).0
            ≡ length (sys.sys_getdirentries fd nbytes basep (clear w)).1)
        × (length (sys.sys_getdirentries fd nbytes basep (clear w)).1 ≤ nbytes)
        × FitsLong (sys.sys_getdirentries fd nbytes basep (clear w)).2
        × FitsInt (sys.sys_getdirentries fd nbytes basep (clear w)).3.errno
  pub getdirtree_fits : (path : Bytes) (w : W) → FitsInt (sys.sys_getdirtree path (clear w)).1.errno

-- No tree, or one whose stream fits into the buffer for it. A tree has no NULL pointers, its counts are
-- the sizes of the arrays, and its names are lines of at most 1012 bytes.
abbrev pub IsSmallTree : DirTree → Type 0
IsSmallTree tree = (tree ≡ null) ⊎ (IsTree tree × (length (tree_stream tree) ≤ storage_size))

-- Where the call is a `getdirtree` on these files, `serve_getdirtree` has room for the tree. libdirtree
-- promises no such bound, so this is a condition on the call.
abbrev pub TreeFits : {W : Type 0} → System W → Call → W → Type 0
TreeFits sys (getdirtree_call path) w = IsSmallTree (sys.sys_getdirtree path (clear w)).0
TreeFits sys _ w = Unit
