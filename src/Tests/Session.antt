-- ===== src/Tests/Session.antt =====
-- Whole remote calls with a small operating system.
use remote_file_procedure_ca.Prelude.{
  ℕ, ◌+◌, ◌≤◌, ◌≡◌, refl, sym, List, [], ◌∷◌, ◌++◌, append-nil, arith, ℤ, pos, negsuc, length,
  length-append,
}
use remote_file_procedure_ca.Text.{Bytes, codes}
use remote_file_procedure_ca.Number.{print_int, print_size}
use remote_file_procedure_ca.Result.{ok}
use remote_file_procedure_ca.Marshall.Header.{number_line}
use remote_file_procedure_ca.Marshall.Fields.RoundTrip.{layout}
use remote_file_procedure_ca.Marshall.Request.RoundTrip.{request_stream}
use remote_file_procedure_ca.Marshall.Response.RoundTrip.{response_stream}
use remote_file_procedure_ca.Socket.{Storage}
use remote_file_procedure_ca.Socket.Write.Stream.{message_header}
use remote_file_procedure_ca.Server.{System}
use remote_file_procedure_ca.Server.Service.{
  Procedure, op_number, close_op, read_op, write_op, lseek_op,
}
use remote_file_procedure_ca.Client.{Client}
use remote_file_procedure_ca.Client.Calls.{HasSent}
use remote_file_procedure_ca.Client.Stubs.{close_stub, read_stub, write_stub, lseek_stub}
use remote_file_procedure_ca.Client.Remote.{Answered}
use remote_file_procedure_ca.Client.Transfer.{transfer}
use remote_file_procedure_ca.Client.Position.{seek_params}
use remote_file_procedure_ca.Session.{Served, Carries}
use remote_file_procedure_ca.Session.Transfer.{write-Served, read-Served, read-failed}
use remote_file_procedure_ca.Session.Descriptor.{close-Served, lseek-Served}
use remote_file_procedure_ca.Tests.Handlers.{tiny, fresh, done}
use remote_file_procedure_ca.Tests.Stubs.{told, reply}

-- A buffer with one message.
abbrev pub holding : Bytes → Storage
holding content = record {
  buf = message_header content ++ content;
  size = length (message_header content ++ content);
}

abbrev pub query : Procedure → List Bytes → Bytes
query procedure params = request_stream (op_number procedure) params

-- The client to whom this answer comes.
abbrev pub asked : ℤ → List Bytes → Client ℕ
asked errno vals = told (reply (response_stream errno vals))

-- Both messages are small.
abbrev pub AreSmall : Procedure → List Bytes → ℤ → List Bytes → Type 0
AreSmall procedure params errno vals =
    (length (message_header (query procedure params) ++ query procedure params) ≤ 500)
    × (length (message_header (response_stream errno vals) ++ response_stream errno vals) ≤ 500)

-- Every small exchange is carried.
pub carried :
    (procedure : Procedure) (params : List Bytes) (errno : ℤ) (vals : List Bytes)
    → AreSmall procedure params errno vals
    → Carries
        (asked errno vals)
        fresh
        (holding (query procedure params))
        (done errno)
        procedure
        params
        vals
carried procedure params errno vals (small, small_reply) =
    let q = query procedure params in
    let r = response_stream errno vals in
    let fits : length q ≤ 500 = omega (arith, length-append (message_header q) q) in
    let fits_reply : length r ≤ 500 = omega (arith, length-append (message_header r) r) in
    (
      omega arith,
      (0, sym (append-nil (message_header q ++ q)), refl),
      (omega arith, tt, omega arith),
      (
        omega arith,
        (refl, tt),
        omega arith,
        refl,
        omega arith,
        (reply r, [], refl, append-nil (message_header r ++ r)),
      ),
    )

abbrev pub fd : ℤ
fd = pos 12348

write-AreSmall : AreSmall write_op (transfer fd (codes "abcd") 3) (pos 0) (print_int (pos 3) ∷ [])
unfolding request_stream response_stream number_line layout message_header print_int print_size
write-AreSmall = (omega arith, omega arith)

write-Served_example :
    Served tiny fresh
      (holding (query write_op (transfer fd (codes "abcd") 3)))
      (done (pos 0))
      (response_stream (pos 0) (print_int (pos 3) ∷ []))
    × ((client' : Client ℕ) × (write_stub tiny
            (asked (pos 0) (print_int (pos 3) ∷ []))
            fd
            (codes "abcd")
            3
          ≡ ok (pos 3, client'))
        × Answered
            (asked (pos 0) (print_int (pos 3) ∷ []))
            (query write_op (transfer fd (codes "abcd") 3))
            (pos 0)
            (pos 3)
            client')
write-Served_example =
    write-Served tiny tiny (asked (pos 0) (print_int (pos 3) ∷ [])) fresh
      (holding (query write_op (transfer fd (codes "abcd") 3))) fd (codes "abcd") 3 (done (pos 0))
      refl (omega arith) (omega arith) (omega arith) (omega arith) (pos 3) (omega arith) refl
      (carried write_op (transfer fd (codes "abcd") 3) (pos 0) (print_int (pos 3) ∷ [])
        write-AreSmall)

abbrev two : List Bytes
two = print_int (pos 2) ∷ codes "ab" ∷ []

read-AreSmall : AreSmall read_op (transfer fd (codes "abcd") 3) (pos 0) two
unfolding request_stream response_stream number_line layout message_header print_int print_size
read-AreSmall = (omega arith, omega arith)

read-Served_example :
    Served tiny fresh
      (holding (query read_op (transfer fd (codes "abcd") 3)))
      (done (pos 0))
      (response_stream (pos 0) two)
    × ((client' : Client ℕ) × (read_stub tiny (asked (pos 0) two) fd (codes "abcd") 3
          ≡ ok (pos 2, codes "abcd", client'))
        × HasSent (asked (pos 0) two) (query read_op (transfer fd (codes "abcd") 3)) client')
read-Served_example =
    read-Served tiny tiny (asked (pos 0) two) fresh
      (holding (query read_op (transfer fd (codes "abcd") 3))) fd (codes "abcd") 3 (done (pos 0))
      refl (omega arith) (omega arith) (omega arith) (omega arith) (codes "ab") (omega arith) refl
      (carried read_op (transfer fd (codes "abcd") 3) (pos 0) two read-AreSmall)

abbrev bad_read : List Bytes
bad_read = print_int (negsuc 0) ∷ [] ∷ []

-- An operating system in which every `read` fails with errno 9.
abbrev broken : System ℕ
broken = record tiny {
  sys_read = λ fd count p. (negsuc 0, [], record { errno = pos 9; world = 1 + p.world });
}

failed-AreSmall : AreSmall read_op (transfer fd (codes "abcd") 3) (pos 9) bad_read
unfolding request_stream response_stream number_line layout message_header print_int print_size
failed-AreSmall = (omega arith, omega arith)

read-failed_example :
    Served broken fresh
      (holding (query read_op (transfer fd (codes "abcd") 3)))
      (done (pos 9))
      (response_stream (pos 9) bad_read)
    × ((client' : Client ℕ) × (read_stub tiny (asked (pos 9) bad_read) fd (codes "abcd") 3
          ≡ ok (negsuc 0, codes "abcd", client'))
        × Answered
            (asked (pos 9) bad_read)
            (query read_op (transfer fd (codes "abcd") 3))
            (pos 9)
            (negsuc 0)
            client')
read-failed_example =
    read-failed tiny broken (asked (pos 9) bad_read) fresh
      (holding (query read_op (transfer fd (codes "abcd") 3))) fd (codes "abcd") 3 (done (pos 9))
      refl (omega arith) (omega arith) (omega arith) (omega arith) 0 (omega arith) refl
      (carried read_op (transfer fd (codes "abcd") 3) (pos 9) bad_read failed-AreSmall)

-- The same operating system, where `close` and `unlink` succeed.
abbrev pub willing : System ℕ
willing = record tiny {
  sys_close = λ fd p. (pos 0, record { errno = pos 0; world = 1 + p.world });
  sys_unlink = λ path p. (pos 0, record { errno = pos 0; world = 1 + p.world });
}

close-AreSmall : AreSmall close_op (print_int fd ∷ []) (pos 0) (print_int (pos 0) ∷ [])
unfolding request_stream response_stream number_line layout message_header print_int print_size
close-AreSmall = (omega arith, omega arith)

close-Served_example :
    Served willing fresh
      (holding (query close_op (print_int fd ∷ [])))
      (done (pos 0))
      (response_stream (pos 0) (print_int (pos 0) ∷ []))
    × ((client' : Client ℕ) × (close_stub tiny (asked (pos 0) (print_int (pos 0) ∷ [])) fd
          ≡ ok (pos 0, client'))
        × Answered
            (asked (pos 0) (print_int (pos 0) ∷ []))
            (query close_op (print_int fd ∷ []))
            (pos 0)
            (pos 0)
            client')
close-Served_example =
    close-Served tiny willing (asked (pos 0) (print_int (pos 0) ∷ [])) fresh
      (holding (query close_op (print_int fd ∷ []))) fd (pos 0) (done (pos 0)) refl (omega arith)
      (omega arith) (omega arith) refl
      (carried close_op (print_int fd ∷ []) (pos 0) (print_int (pos 0) ∷ []) close-AreSmall)

lseek-AreSmall :
    AreSmall lseek_op (seek_params fd (pos 10) (pos 0)) (pos 0) (print_int (pos 10) ∷ [])
unfolding request_stream response_stream number_line layout message_header print_int print_size
lseek-AreSmall = (omega arith, omega arith)

lseek-Served_example :
    Served tiny fresh
      (holding (query lseek_op (seek_params fd (pos 10) (pos 0))))
      (done (pos 0))
      (response_stream (pos 0) (print_int (pos 10) ∷ []))
    × ((client' : Client ℕ) × (lseek_stub tiny
            (asked (pos 0) (print_int (pos 10) ∷ []))
            fd
            (pos 10)
            (pos 0)
          ≡ ok (pos 10, client'))
        × Answered
            (asked (pos 0) (print_int (pos 10) ∷ []))
            (query lseek_op (seek_params fd (pos 10) (pos 0)))
            (pos 0)
            (pos 10)
            client')
lseek-Served_example =
    lseek-Served tiny tiny (asked (pos 0) (print_int (pos 10) ∷ [])) fresh
      (holding (query lseek_op (seek_params fd (pos 10) (pos 0)))) fd (pos 10) (done (pos 0)) refl
      (omega arith) (omega arith) (pos 10) (pos 0) (omega arith) (omega arith) (omega arith) refl
      (carried lseek_op (seek_params fd (pos 10) (pos 0)) (pos 0) (print_int (pos 10) ∷ [])
        lseek-AreSmall)
