-- ===== src/Network.antt =====
-- The set-up of sockets in rpc/socket.c, and `_init` and the original functions of rpc/mylib.c.
--
-- The network calls of the operating system, the environment of the process and `dlsym` are a
-- parameter.
pub mod Port
pub mod Sockets
use remote_file_procedure_ca.Prelude.{
  ℕ, ◌+◌, ◌-◌, ◌*◌, ◌/◌, ◌%◌, ◌^◌, Option, none, some, List, [], ◌∷◌, Bool, true, false, ℤ, pos,
  negsuc, is_neg, bits64, ◌==◌, if◌then◌else◌,
}
use remote_file_procedure_ca.Text.{Bytes, codes}
use remote_file_procedure_ca.Number.{atoi}

abbrev pub default_address : Bytes
default_address = codes "127.0.0.1"

abbrev pub default_port : Bytes
default_port = codes "20080"

abbrev pub wait_log : ℤ
wait_log = pos 64

abbrev pub af_inet : ℕ
af_inet = 2

abbrev pub sock_stream : ℕ
sock_stream = 1

abbrev pub exit_failure : ℕ
exit_failure = 1

-- `struct sockaddr_in`; `sin_port` is the number that the field holds on a little-endian machine.
pub record Address : Type 0 where
  pub sin_family : ℕ
  pub s_addr : ℕ
  pub sin_port : ℕ

-- The calls. Those that change the kernel take and return its state `K`, and the first result is
-- what the call returns; a negative number says that it has failed.
pub record Network (K : Type 0) : Type 0 where
  pub getenv : Bytes → Option Bytes
  pub inet_addr : Bytes → ℕ
  pub socket : ℕ → ℕ → ℕ → K → ℤ × K
  pub set_reusable : ℤ → K → ℤ × K
  pub bind : ℤ → Address → K → ℤ × K
  pub listen : ℤ → ℤ → K → ℤ × K
  pub connect : ℤ → Address → K → ℤ × K
  pub accept : ℤ → K → ℤ × K
  pub get_flags : ℤ → K → ℤ × K
  pub set_flags : ℤ → ℤ → K → ℤ × K
  pub close : ℤ → K → ℤ × K
  pub fork : K → ℤ × K
  pub waitpid : K → ℤ × K

-- A process returns from a function, or it ends with a status and a message on `stderr`.
pub data Outcome (K : Type 0) (A : Type 0) : Type 0 where
  returned : A → K → Outcome K A
  exited : ℕ → Bytes → K → Outcome K A

-- Behind an exit the rest does not run.
abbrev pub continue : {K A B : Type 0} → Outcome K A → (A → K → Outcome K B) → Outcome K B
continue (returned a k) rest = rest a k
continue (exited status message k) rest = exited status message k

infixl 5 ◌>>=◌ ◌>>◌
abbrev pub ◌>>=◌ : {K A B : Type 0} → (K → Outcome K A) → (A → K → Outcome K B) → K → Outcome K B
(m >>= rest) k = continue (m k) rest

abbrev pub ◌>>◌ : {K A B : Type 0} → (K → Outcome K A) → (K → Outcome K B) → K → Outcome K B
m >> rest = m >>= λ a. rest

abbrev pub call : {K A : Type 0} → (K → A × K) → K → Outcome K A
call f k = let r = f k in returned r.0 r.1

abbrev pub return : {K A : Type 0} → A → K → Outcome K A
return = returned

-- `if (test) err(EXIT_FAILURE, message)`
abbrev pub exit_if : {K : Type 0} → Bool → Bytes → K → Outcome K (Unit {0})
exit_if true message k = exited exit_failure message k
exit_if false message k = returned tt k

-- The order of the two bytes of a 16-bit number, swapped.
abbrev pub htons : ℕ → ℕ
htons port = (port % 256) * 256 + port / 256

-- `(unsigned short)atoi(text)`
unfoldable pub port_of : Bytes → ℕ
port_of text = bits64 (atoi text) % 2 ^ 16

-- `flags | O_NONBLOCK`, which sets the bit of 2048.
abbrev pub non_blocking : ℤ → ℤ
non_blocking (pos n) = if (n / 2048) % 2 == 0 then pos (n + 2048) else pos n
non_blocking (negsuc n) = if (n / 2048) % 2 == 0 then negsuc n else negsuc (n - 2048)

-- What `dlsym` has found for each of the replaced functions.
pub record Originals (F : Type 0) : Type 0 where
  pub orig_open : F
  pub orig_close : F
  pub orig_read : F
  pub orig_write : F
  pub orig_lseek : F
  pub orig_stat : F
  pub orig_unlink : F
  pub orig_getdirentries : F
  pub orig_getdirtree : F
  pub orig_freedirtree : F

-- The calls of `dlsym(RTLD_NEXT, …)`.
unfoldable pub find_originals : {F : Type 0} → (Bytes → F) → Originals F
find_originals dlsym = record {
  orig_open = dlsym (codes "open");
  orig_close = dlsym (codes "close");
  orig_read = dlsym (codes "read");
  orig_write = dlsym (codes "write");
  orig_lseek = dlsym (codes "lseek");
  orig_stat = dlsym (codes "stat");
  orig_unlink = dlsym (codes "unlink");
  orig_getdirentries = dlsym (codes "getdirentries");
  orig_getdirtree = dlsym (codes "getdirtree");
  orig_freedirtree = dlsym (codes "freedirtree");
}

module _ {K : Type 0} (net : Network K) where
  abbrev pub getenv_or : Bytes → Bytes → Bytes
  getenv_or name default = elim (net.getenv name) [ none ↦ default | some text ↦ text ]

  abbrev pub server_port : ℕ
  server_port = port_of (getenv_or (codes "serverport15440") default_port)

  -- The address that a client connects to.
  unfoldable pub remote_address : Address
  remote_address = record {
    sin_family = af_inet;
    s_addr = net.inet_addr (getenv_or (codes "server15440") default_address);
    sin_port = htons server_port;
  }

  -- The address of a server, which is every one of its machine.
  unfoldable pub local_address : Address
  local_address = record { sin_family = af_inet; s_addr = 0; sin_port = htons server_port }

  unfoldable pub build_client : K → Outcome K ℤ
  build_client = do
    fd ← call (net.socket af_inet sock_stream 0)
    exit_if (is_neg fd) (codes "client socket creation failure")
    connected ← call (net.connect fd remote_address)
    exit_if (is_neg connected) (codes "client fd connect failure")
    return fd

  -- What `setsockopt` returns is dropped.
  unfoldable pub build_server : K → Outcome K ℤ
  build_server = do
    listen_fd ← call (net.socket af_inet sock_stream 0)
    exit_if (is_neg listen_fd) (codes "listen socket creation failure")
    call (net.set_reusable listen_fd)
    bound ← call (net.bind listen_fd local_address)
    exit_if (is_neg bound) (codes "listen socket bind failure")
    listens ← call (net.listen listen_fd wait_log)
    exit_if (is_neg listens) (codes "listen socket listen failure")
    return listen_fd

  unfoldable pub accept_client : ℤ → K → Outcome K ℤ
  accept_client listen_fd = do
    client_fd ← call (net.accept listen_fd)
    exit_if (is_neg client_fd) (codes "listen socket accept failure")
    return client_fd

  -- `fcntl(fd, F_SETFL, fcntl(fd, F_GETFL) | O_NONBLOCK)`
  unfoldable pub set_non_blocking : ℤ → K → Outcome K ℤ
  set_non_blocking fd = do
    flags ← call (net.get_flags fd)
    call (net.set_flags fd (non_blocking flags))

  -- `_init`, with the descriptor that becomes `server_fd`.
  unfoldable pub init : {F : Type 0} → (Bytes → F) → K → Outcome K (ℤ × Originals F)
  unfolding build_client set_non_blocking find_originals
  init dlsym = do
    server_fd ← build_client
    set_non_blocking server_fd
    exit_if (is_neg server_fd) (codes "Fail to build connection with server_fd\n")
    return (server_fd, find_originals dlsym)
