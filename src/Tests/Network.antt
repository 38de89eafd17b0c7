-- ===== src/Tests/Network.antt =====
-- The set-up of sockets and the accept loop with a small kernel.
use remote_file_procedure_ca.Prelude.{
  ℕ, suc, zero, ◌≤◌, sym, true, false, true≢false, ltb_ℤ, ◌+◌, ◌≡◌, refl, some, List, [], ◌∷◌, ℤ,
  pos, negsuc, arith,
}
use remote_file_procedure_ca.Number.{print_int}
use remote_file_procedure_ca.Socket.Read.{closed}
use remote_file_procedure_ca.Network.{
  Network, Address, build_server, init, remote_address, local_address,
}
use remote_file_procedure_ca.Network.Port.{same_port, port_bytes, network_order}
use remote_file_procedure_ca.Network.Sockets.{
  SocketState, SocketLaws, unconnected, bound, listening, connected, Ends, IsOpen, ClientMessage,
  ServerMessage, build_server-Ends, init-Ends,
}
use remote_file_procedure_ca.Listener.{Connections, main}
use remote_file_procedure_ca.Listener.Harvest.{View, ProcessLaws, remove}
use remote_file_procedure_ca.Listener.Descriptors.{IsTidy, main-IsTidy}
use remote_file_procedure_ca.Tests.Handlers.{tiny, fresh}

-- One socket that the tests follow, the open descriptors, the children, and the results of the coming
-- calls of `fork`, behind which `fork` fails.
pub record Kernel : Type 0 where
  state : SocketState
  fds : List ℤ
  alive : ℕ
  forks : List ℕ

abbrev next_fork : List ℕ → Kernel → ℤ × Kernel
next_fork [] k = (negsuc 0, k)
next_fork (zero ∷ ids) k = (pos 0, record k { forks = ids; alive = 0 })
next_fork (suc id ∷ ids) k = (pos (suc id), record k { forks = ids; alive = k.alive + 1 })

abbrev reap : ℕ → Kernel → ℤ × Kernel
reap zero k = (pos 0, k)
reap (suc n) k = (pos 77, record k { alive = n })

-- `bind` and `listen` fail on a socket that is not in the state for them.
abbrev bind_state : SocketState → Address → Kernel → ℤ × Kernel
bind_state unconnected addr k = (pos 0, record k { state = bound addr })
bind_state _ addr k = (negsuc 0, k)

abbrev listen_state : SocketState → Kernel → ℤ × Kernel
listen_state (bound addr) k = (pos 0, record k { state = listening addr })
listen_state _ k = (negsuc 0, k)

abbrev pub toy : Network Kernel
toy = record {
  getenv = λ name. some (print_int (pos 15440));
  inet_addr = λ text. 16777343;
  socket = λ domain type protocol k. (pos 3, record k { state = unconnected; fds = pos 3 ∷ k.fds });
  set_reusable = λ fd k. (pos 0, k);
  bind = λ fd addr k. bind_state k.state addr k;
  listen = λ fd log k. listen_state k.state k;
  connect = λ fd addr k. (pos 0, record k { state = connected addr });
  accept = λ fd k. (pos 4, record k { fds = pos 4 ∷ k.fds });
  get_flags = λ fd k. (pos 2, k);
  set_flags = λ fd flags k. (pos 0, k);
  close = λ fd k. (pos 0, record k { fds = remove fd k.fds });
  fork = λ k. next_fork k.forks k;
  waitpid = λ k. reap k.alive k;
}

bind_state-bound :
    (s : SocketState) (addr : Address) (k : Kernel)
    → s ≡ unconnected
    → (bind_state s addr k).1.state ≡ bound addr
bind_state-bound s addr k e = rw e refl

listen_state-listening :
    (s : SocketState) (addr : Address) (k : Kernel)
    → s ≡ bound addr
    → (listen_state s k).1.state ≡ listening addr
listen_state-listening s addr k e = rw e refl

abbrev toy_laws : SocketLaws toy
toy_laws = record {
  state_of = λ k fd. k.state;
  socket_law = λ k good. refl;
  connect_law = λ k fd addr new good. refl;
  set_reusable_law = λ k fd. refl;
  bind_law = λ k fd addr new good. bind_state-bound k.state addr k new;
  listen_law = λ k fd addr is_bound good. listen_state-listening k.state addr k is_bound;
  flags_law = λ k fd flags. (refl, refl);
}

abbrev pub toy_view : View Kernel
toy_view = record { opened = λ k. k.fds; children = λ k. k.alive }

bind_state-keeps :
    (s : SocketState) (addr : Address) (k : Kernel)
    → ((bind_state s addr k).1.fds ≡ k.fds) × ((bind_state s addr k).1.alive ≡ k.alive)
bind_state-keeps unconnected addr k = (refl, refl)
bind_state-keeps (bound a) addr k = (refl, refl)
bind_state-keeps (listening a) addr k = (refl, refl)
bind_state-keeps (connected a) addr k = (refl, refl)

listen_state-keeps :
    (s : SocketState) (k : Kernel)
    → ((listen_state s k).1.fds ≡ k.fds) × ((listen_state s k).1.alive ≡ k.alive)
listen_state-keeps unconnected k = (refl, refl)
listen_state-keeps (bound a) k = (refl, refl)
listen_state-keeps (listening a) k = (refl, refl)
listen_state-keeps (connected a) k = (refl, refl)

next_fork-copies :
    (ids : List ℕ) (k : Kernel)
    → ((next_fork ids k).1.fds ≡ k.fds) × ((next_fork ids k).1.alive ≤ suc k.alive)
next_fork-copies [] k = (refl, omega arith)
next_fork-copies (zero ∷ ids) k = (refl, omega arith)
next_fork-copies (suc id ∷ ids) k = (refl, omega arith)

reap-removes :
    (n : ℕ) (k : Kernel)
    → ltb_ℤ (pos 0) (reap n k).0 ≡ true
    → ((reap n k).1.fds ≡ k.fds) × (suc (reap n k).1.alive ≡ n)
reap-removes zero k h = absurd (true≢false (sym h))
reap-removes (suc n) k h = (refl, refl)

reap-keeps :
    (n : ℕ) (k : Kernel)
    → ltb_ℤ (pos 0) (reap n k).0 ≡ false
    → ((reap n k).1.fds ≡ k.fds) × ((reap n k).1.alive ≡ k.alive)
reap-keeps zero k h = (refl, refl)
reap-keeps (suc n) k h = absurd (true≢false h)

pub toy_processes : ProcessLaws toy toy_view
toy_processes = record {
  socket_opens = λ k good. (refl, refl);
  set_reusable_keeps = λ k fd. (refl, refl);
  bind_keeps = λ k fd addr. bind_state-keeps k.state addr k;
  listen_keeps = λ k fd. listen_state-keeps k.state k;
  accept_opens = λ k fd good. (refl, refl);
  get_flags_keeps = λ k fd. (refl, refl);
  set_flags_keeps = λ k fd flags. (refl, refl);
  close_removes = λ k fd. (refl, refl);
  fork_copies = λ k. next_fork-copies k.forks k;
  waitpid_removes = λ k ended. reap-removes k.alive k ended;
  waitpid_keeps = λ k none_left. reap-keeps k.alive k none_left;
}

-- The second `fork` is the one from which the process goes on as a child.
abbrev pub boot : Kernel
boot = record { state = unconnected; fds = pos 2 ∷ []; alive = 1; forks = 31 ∷ 0 ∷ [] }

abbrev peers : Connections Kernel ℕ
peers = record { start = λ fd k. fresh; arrivals = λ fd k. (closed ∷ []) ∷ [] }

same_port_example :
    (port_bytes (remote_address toy) ≡ network_order 15440)
    × (port_bytes (local_address toy) ≡ network_order 15440)
same_port_example = same_port toy toy 15440 (omega arith) refl refl

build_server-Ends_example :
    Ends (IsOpen toy toy_laws (listening (local_address toy))) ServerMessage (build_server toy boot)
build_server-Ends_example = build_server-Ends toy toy_laws boot

init-Ends_example :
    Ends
      (λ r. IsOpen toy toy_laws (connected (remote_address toy)) r.0)
      ClientMessage
      (init toy (λ name. name) boot)
init-Ends_example = init-Ends toy toy_laws (λ name. name) boot

main-IsTidy_example :
    (listen_fd : ℤ) × IsTidy toy tiny peers toy_view
      (pos 2 ∷ [])
      listen_fd
      (main toy tiny peers 9 2 boot)
main-IsTidy_example = main-IsTidy toy tiny peers toy_view toy_processes 9 2 boot (omega arith)
