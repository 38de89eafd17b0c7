-- ===== src/TcpSample.antt =====
-- tcp-sample/client.c and tcp-sample/server.c: a client that sends one message and prints the reply,
-- and a server that answers ten clients one after the other.
--
-- The network calls are those of `Network`, with `send`, `recv` and the two output streams besides.
-- The buffers on the stack have any content at first.
pub mod Bounds
use remote_file_procedure_ca.Prelude.{
  ℕ, zero, suc, Bool, true, false, List, [], ◌∷◌, ◌++◌, ℤ, pos, negsuc, is_neg, ltb_ℤ, length, set,
  ltb, Option, none, some, pos_part,
}
use remote_file_procedure_ca.Text.{Bytes, codes, c_string}
use remote_file_procedure_ca.Result.{Fault, bad_memory}
use remote_file_procedure_ca.Marshall.Print.{has_nul}
use remote_file_procedure_ca.Socket.{write_bytes}
use remote_file_procedure_ca.Network.{Network, Address, af_inet, sock_stream, htons, port_of}

abbrev pub max_msg_len : ℕ
max_msg_len = 100

abbrev pub server_backlog : ℤ
server_backlog = pos 5

-- `recv` gives its result and the bytes that it stores.
pub record Streams (K : Type 0) : Type 0 where
  pub recv : ℤ → ℕ → K → ℤ × Bytes × K
  pub send : ℤ → Bytes → K → ℤ × K
  pub stdout : Bytes → K → K
  pub stderr : Bytes → K → K

-- A process goes on with a value, ends with a status, or goes wrong. `talking` is a server whose
-- client has sent more messages than the run has fuel for.
pub data Life (K : Type 0) (A : Type 0) : Type 0 where
  done : A → K → Life K A
  exited : ℕ → K → Life K A
  faulted : Fault → Life K A
  talking : K → Life K A

abbrev pub continue : {K A B : Type 0} → Life K A → (A → K → Life K B) → Life K B
continue (done a k) rest = rest a k
continue (exited status k) rest = exited status k
continue (faulted fault) rest = faulted fault
continue (talking k) rest = talking k

infixl 5 ◌>>=◌ ◌>>◌
abbrev pub ◌>>=◌ : {K A B : Type 0} → (K → Life K A) → (A → K → Life K B) → K → Life K B
(m >>= rest) k = continue (m k) rest

abbrev pub ◌>>◌ : {K A B : Type 0} → (K → Life K A) → (K → Life K B) → K → Life K B
m >> rest = m >>= λ a. rest

abbrev pub call : {K A : Type 0} → (K → A × K) → K → Life K A
call f k = let r = f k in done r.0 r.1

abbrev pub output : {K : Type 0} → (K → K) → K → Life K (Unit {0})
output f k = done tt (f k)

abbrev pub return : {K A : Type 0} → A → K → Life K A
return = done

-- `if (test) err(1, 0)`
abbrev pub exit_on : {K : Type 0} → Bool → K → Life K (Unit {0})
exit_on true k = exited 1 k
exit_on false k = done tt k

-- `buf[i] = 0`
unfoldable pub terminate : {K : Type 0} → ℕ → Bytes → K → Life K Bytes
terminate i buf k = elim (ltb i (length buf)) [
  | true ↦ done (set buf i 0) k
  | false ↦ faulted bad_memory
]

-- The text of a `char *`, for `printf`.
unfoldable pub text : {K : Type 0} → Bytes → K → Life K Bytes
text buf k = elim (has_nul buf) [ true ↦ done (c_string buf) k | false ↦ faulted bad_memory ]

module _ {K : Type 0} (net : Network K) (streams : Streams K) where
  -- `recv(fd, buf, MAXMSGLEN, 0)`: the result, and the buffer.
  unfoldable pub recv_into : ℤ → Bytes → K → Life K (ℤ × Bytes)
  recv_into fd buf k =
      let r = streams.recv fd max_msg_len k in done (r.0, write_bytes 0 r.1 buf) r.2

  -- The variable and its value, reported with `report`, or the default.
  abbrev pub variable : (Bytes → K → K) → Bytes → Bytes → K → Life K Bytes
  variable report name default k = elim (net.getenv name) [
    | some value ↦ done value (
        report
          (codes "Got environment variable " ++ (name ++ (codes ": " ++ (value ++ codes "\n")))) k)
    | none ↦ done default (
        report
          (codes "Environment variable "
            ++ (name ++ (codes " not found.  Using " ++ (default ++ codes "\n"))))
          k)
  ]

  abbrev pub client_address : Bytes → Bytes → Address
  client_address server_ip server_port = record {
    sin_family = af_inet;
    s_addr = net.inet_addr server_ip;
    sin_port = htons (port_of server_port);
  }

  -- The reply: it is terminated, and printed.
  unfoldable pub print_reply : ℤ → Bytes → K → Life K (Unit {0})
  unfolding terminate text
  print_reply rv buf = do
    buf ← terminate (pos_part rv) buf
    message ← text buf
    output (streams.stdout (codes "client got messge: " ++ (message ++ codes "\n")))

  -- `main` of the client, with its status.
  unfoldable pub client_main : Bytes → K → Life K ℕ
  unfolding recv_into print_reply
  client_main buf = do
    server_ip ← variable streams.stdout (codes "server15440") (codes "127.0.0.1")
    server_port ← variable streams.stderr (codes "serverport15440") (codes "15440")
    sockfd ← call (net.socket af_inet sock_stream 0)
    exit_on (is_neg sockfd)
    connected ← call (net.connect sockfd (client_address server_ip server_port))
    exit_on (is_neg connected)
    output (streams.stdout (codes "client sending to server: Hello from client\n"))
    call (streams.send sockfd (codes "Hello from client"))
    (rv, buf) ← recv_into sockfd buf
    exit_on (is_neg rv)
    print_reply rv buf
    call (net.close sockfd)
    return 0

  -- One message of a client, and the reply.
  unfoldable pub reply : ℤ → ℤ → Bytes → K → Life K Bytes
  unfolding terminate text
  reply sessfd rv buf = do
    buf ← terminate (pos_part rv) buf
    message ← text buf
    output (streams.stdout (codes "server got messge: " ++ (message ++ codes "\n")))
    output (streams.stdout (codes "server replying to client: Hello from server\n"))
    call (streams.send sessfd (codes "Hello from server"))
    return buf

  -- A positive result of `recv` is answered, and the loop goes on with `next`; any other ends it.
  unfoldable pub reply_if :
      (Bytes → K → Life K (ℤ × Bytes)) → ℤ → ℤ → Bytes → K → Life K (ℤ × Bytes)
  unfolding reply
  reply_if next sessfd rv buf k = elim (ltb_ℤ (pos 0) rv) [
    | true ↦ continue (reply sessfd rv buf k) next
    | false ↦ done (rv, buf) k
  ]

  -- `while ((rv = recv(…)) > 0)`: the last result and the buffer.
  unfoldable pub converse : ℕ → ℤ → Bytes → K → Life K (ℤ × Bytes)
  unfolding recv_into reply_if
  converse zero sessfd buf k = talking k
  converse (suc fuel) sessfd buf k =
      continue (recv_into sessfd buf k)
        λ (rv, buf') k'. reply_if (λ buf'' k''. converse fuel sessfd buf'' k'') sessfd rv buf' k'

  -- One client, from `accept` to `close`.
  unfoldable pub session : ℕ → ℤ → Bytes → K → Life K Bytes
  unfolding converse
  session fuel sockfd buf = do
    sessfd ← call (net.accept sockfd)
    exit_on (is_neg sessfd)
    (rv, buf) ← converse fuel sessfd buf
    exit_on (is_neg rv)
    call (net.close sessfd)
    return buf

  -- `for (i = 0; i < n; i++)`
  unfoldable pub sessions : ℕ → ℕ → ℤ → Bytes → K → Life K Bytes
  unfolding session
  sessions zero fuel sockfd buf k = done buf k
  sessions (suc n) fuel sockfd buf k =
      continue (session fuel sockfd buf k) λ buf' k'. sessions n fuel sockfd buf' k'

  abbrev pub sample_port : ℕ
  sample_port = elim (net.getenv (codes "serverport15440")) [
    | none ↦ 15440
    | some value ↦ port_of value
  ]

  -- `main` of the server, with its status; the fuel is for the messages of each client.
  unfoldable pub server_main : ℕ → Bytes → K → Life K ℕ
  unfolding sessions
  server_main fuel buf = do
    sockfd ← call (net.socket af_inet sock_stream 0)
    exit_on (is_neg sockfd)
    bound ← call (
        net.bind sockfd (record { sin_family = af_inet; s_addr = 0; sin_port = htons sample_port }))
    exit_on (is_neg bound)
    listens ← call (net.listen sockfd server_backlog)
    exit_on (is_neg listens)
    sessions 10 fuel sockfd buf
    output (streams.stdout (codes "server shutting down cleanly\n"))
    call (net.close sockfd)
    return 0
