-- ===== src/Network/Port.antt =====
-- The ports of `build_client` and `build_server` of rpc/socket.c, which are read from a text.
use remote_file_procedure_ca.Prelude.{
  ℕ, ◌/◌, ◌%◌, ◌^◌, ◌<◌, ◌≡◌, refl, ◌∙◌, none, some, arith, pos, List, ◌∷◌, [], ap,
}
use remote_file_procedure_ca.Text.{Bytes, codes}
use remote_file_procedure_ca.Number.{print_int}
use remote_file_procedure_ca.Number.RoundTrip.{atoi-print_int}
use remote_file_procedure_ca.Network.{
  Network, Address, port_of, htons, remote_address, local_address, getenv_or, server_port,
  default_port,
}

-- The two bytes of `sin_port` in the memory of a little-endian machine.
abbrev pub port_bytes : Address → List ℕ
port_bytes addr = (addr.sin_port % 256) ∷ (addr.sin_port / 256) ∷ []

-- The bytes of a port on the wire.
abbrev pub network_order : ℕ → List ℕ
network_order port = (port / 256) ∷ (port % 256) ∷ []

pub port_of-bound : (text : Bytes) → port_of text < 2 ^ 16
unfolding port_of
port_of-bound text = omega arith

pub port_of-print : (port : ℕ) → port < 2 ^ 16 → port_of (print_int (pos port)) ≡ port
unfolding port_of
port_of-print port small = rw (atoi-print_int (pos port) (omega arith, omega arith)) (omega arith)

htons-low : (port : ℕ) → port < 2 ^ 16 → htons port % 256 ≡ port / 256
htons-low port small = omega arith

htons-high : (port : ℕ) → port < 2 ^ 16 → htons port / 256 ≡ port % 256
htons-high port small = omega arith

htons-network_order :
    (addr : Address) (port : ℕ)
    → port < 2 ^ 16
    → addr.sin_port ≡ htons port
    → port_bytes addr ≡ network_order port
htons-network_order addr port small e = rw (e, htons-low port small, htons-high port small) refl

getenv_or-some :
    {K : Type 0} (net : Network K) (name text default : Bytes)
    → net.getenv name ≡ some text
    → getenv_or net name default ≡ text
getenv_or-some net name text default e = ap (λ o. elim o [ none ↦ default | some found ↦ found ]) e

server_port-print :
    {K : Type 0} (net : Network K) (port : ℕ)
    → port < 2 ^ 16
    → net.getenv (codes "serverport15440") ≡ some (print_int (pos port))
    → htons (server_port net) ≡ htons port
server_port-print net port small e = ap htons (
    ap port_of (getenv_or-some net (codes "serverport15440") (print_int (pos port)) default_port e)
    ∙ port_of-print port small)

-- Where the variable `serverport15440` of a client and of a server is the same port in decimal, the
-- client connects to the port at which the server listens, and both have it in network byte order.
pub same_port :
    {K L : Type 0} (client : Network K) (server : Network L) (port : ℕ)
    → port < 2 ^ 16
    → client.getenv (codes "serverport15440") ≡ some (print_int (pos port))
    → server.getenv (codes "serverport15440") ≡ some (print_int (pos port))
    → (port_bytes (remote_address client) ≡ network_order port)
      × (port_bytes (local_address server) ≡ network_order port)
unfolding remote_address local_address
same_port client server port small here there = (
  htons-network_order (remote_address client) port small (server_port-print client port small here),
  htons-network_order (local_address server) port small (server_port-print server port small there),
)
