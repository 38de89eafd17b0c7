-- ===== src/Listener.antt =====
-- `main` of rpc/server.c: the loop that accepts connections and forks a process for each.
--
-- `fork` returns twice; the kernel's state says in which of the two processes the program goes on, so
-- that a run is the life of one process: the parent, or one of its children.
pub mod Descriptors
pub mod Harvest
pub mod Serving
use remote_file_procedure_ca.Prelude.{
  ℕ, zero, suc, Option, none, some, List, [], ◌∷◌, ℤ, pos, negsuc, is_neg, eqb_ℤ, ltb_ℤ, true,
  false, if◌then◌else◌,
}
use remote_file_procedure_ca.Text.{Bytes}
use remote_file_procedure_ca.Result.{Result, ok, err, Fault}
use remote_file_procedure_ca.Socket.{empty_storage}
use remote_file_procedure_ca.Socket.Read.{RecvEvent}
use remote_file_procedure_ca.Server.{System, Server}
use remote_file_procedure_ca.Server.Service.{service}
use remote_file_procedure_ca.Network.{
  Network, returned, exited, build_server, accept_client, set_non_blocking,
}

-- How far a process has come: the parent is back at the head of its loop, or has stopped behind a
-- `fork` that failed; a child has served its connection, with the kernel's states before and behind
-- that, or has met a fault; or the process has ended with a status and a message. `harvesting`
-- is the model's own, for a harvest that takes more than its fuel.
pub data Run (K W : Type 0) : Type 0 where
  accepting stopped harvesting : K → Run K W
  served : ℤ → K → Server W → K → Run K W
  faulted : ℤ → K → Fault → Run K W
  failed : ℕ → Bytes → K → Run K W

-- What a child is given: its server process, and what arrives on its connection.
pub record Connections (K W : Type 0) : Type 0 where
  pub start : ℤ → K → Server W
  pub arrivals : ℤ → K → List (List RecvEvent)

module _ {K W : Type 0} (net : Network K) (sys : System W) (peers : Connections K W) where
  -- `while (waitpid(-1, &status, WNOHANG) > 0)`
  unfoldable pub harvest : ℕ → K → Option K
  harvest zero k = none
  harvest (suc f) k =
      let r = net.waitpid k in
      let rest = harvest f r.1 in if ltb_ℤ (pos 0) r.0 then rest else some r.1

  -- `service`, with the `close` at its end.
  unfoldable pub serve_connection : ℤ → K → Run K W
  serve_connection client_fd k =
      elim (service sys (peers.arrivals client_fd k) [] (peers.start client_fd k) empty_storage) [
        | ok server ↦ served client_fd k server (net.close client_fd k).1
        | err fault ↦ faulted client_fd k fault
      ]

  -- The branch of `id == 0`.
  unfoldable pub child : ℤ → ℤ → K → Run K W
  unfolding serve_connection
  child listen_fd client_fd k = elim (set_non_blocking net client_fd (net.close listen_fd k).1) [
    | returned result k' ↦ serve_connection client_fd k'
    | exited status message k' ↦ failed status message k'
  ]

  -- The loop, for so many rounds, with this fuel for each harvest.
  unfoldable pub accept_loop : ℕ → ℕ → ℤ → K → Run K W
  unfolding harvest child
  accept_loop fuel zero listen_fd k = accepting k
  accept_loop fuel (suc n) listen_fd k = elim (accept_client net listen_fd k) [
    | exited status message k1 ↦ failed status message k1
    | returned client_fd k1 ↦ elim (eqb_ℤ client_fd (negsuc 0)) [
      | true ↦ accept_loop fuel n listen_fd k1
      | false ↦
          let forked = net.fork k1 in
          elim (is_neg forked.0) [
            | true ↦ stopped (net.close listen_fd forked.1).1
            | false ↦ elim (eqb_ℤ forked.0 (pos 0)) [
              | true ↦ child listen_fd client_fd forked.1
              | false ↦ elim (harvest fuel (net.close client_fd forked.1).1) [
                | none ↦ harvesting forked.1
                | some k2 ↦ accept_loop fuel n listen_fd k2
              ]
            ]
          ]
    ]
  ]

  unfoldable pub main : ℕ → ℕ → K → Run K W
  unfolding accept_loop
  main fuel n k = elim (build_server net k) [
    | exited status message k1 ↦ failed status message k1
    | returned listen_fd k1 ↦ accept_loop fuel n listen_fd k1
  ]
