-- ===== src/Client/Descriptor.antt =====
-- The file descriptors of rpc/mylib.c and rpc/server.c: local ones below `OFFSET`, remote ones from
-- there on.
use remote_file_procedure_ca.Prelude.{
  ℕ, ◌+◌, ◌<◌, ◌^◌, ◌≡◌, false, arith, pos, to_int-eq, ◌+ℤ◌, ◌-ℤ◌, ltb, le→ltb_false,
}
use remote_file_procedure_ca.Server.{fd_offset}
use remote_file_procedure_ca.Server.Handlers.{remote_fd}
use remote_file_procedure_ca.Server.Answer.{server_fd}
use remote_file_procedure_ca.Client.Stubs.{is_local}

-- A descriptor of the server that `OFFSET` does not push out of `int` is remote for the client, and
-- goes back to the server as it was.
remote_fd-round_trip :
    (n : ℕ)
    → n + fd_offset < 2 ^ 31
    → (is_local (remote_fd (pos n)) ≡ false) × (server_fd (remote_fd (pos n)) ≡ pos n)
remote_fd-round_trip n h =
    let up : pos n +ℤ pos fd_offset ≡ pos (n + fd_offset) = ground arith in
    let down : pos (n + fd_offset) -ℤ pos fd_offset ≡ pos n = ground arith in
    let moved : remote_fd (pos n) ≡ pos (n + fd_offset) =
      rw up (to_int-eq (pos (n + fd_offset)) (omega arith)) in
    let above : ltb (n + fd_offset + 0) (fd_offset + 0) ≡ false =
      le→ltb_false (n + fd_offset + 0) (fd_offset + 0) (omega arith) in
    (rw moved above, rw (moved, down) (to_int-eq (pos n) (omega arith)))
