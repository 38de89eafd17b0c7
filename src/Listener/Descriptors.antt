-- ===== src/Listener/Descriptors.antt =====
-- Who holds which descriptor in `main` of rpc/server.c: the listening socket is the parent's and each
-- connection is one child's.
use remote_file_procedure_ca.Prelude.{
  ℕ, zero, suc, ◌+◌, ◌<◌, ◌≡◌, refl, ◌∙◌, ap, List, [], ◌∷◌, ℤ, pos, negsuc, is_neg, eqb_ℤ, arith,
  inl, inr, Bool-cases, false, true≢false,
}
use remote_file_procedure_ca.Result.{Result, ok, err}
use remote_file_procedure_ca.Socket.{empty_storage}
use remote_file_procedure_ca.Server.{System, Server}
use remote_file_procedure_ca.Server.Service.{service}
use remote_file_procedure_ca.Network.{
  Network, af_inet, sock_stream, wait_log, build_server, local_address, accept_client,
  set_non_blocking, non_blocking,
}
use remote_file_procedure_ca.Listener.{
  Run, accepting, stopped, harvesting, served, faulted, failed, Connections, serve_connection,
  child, accept_loop, main,
}
use remote_file_procedure_ca.Listener.Harvest.{
  remove, View, ProcessLaws, remove-head, remove-second, harvest-enough_fuel,
}

ne_minus_one : (fd : ℤ) → is_neg fd ≡ false → eqb_ℤ fd (negsuc 0) ≡ false
ne_minus_one (pos n) good = refl
ne_minus_one (negsuc n) good = absurd (true≢false good)

module _ {K W : Type 0} (net : Network K) (sys : System W) (peers : Connections K W)
    (view : View K) where
  -- What `service` makes of this connection.
  abbrev pub outcome_of : ℤ → K → Result (Server W)
  outcome_of fd k = service sys (peers.arrivals fd k) [] (peers.start fd k) empty_storage

  -- A process that began with the descriptors `base`. At the head of its loop the parent has one more,
  -- the listening socket; a child that serves has one more, its connection, and none when it ends.
  abbrev pub IsTidy : List ℤ → ℤ → Run K W → Type 0
  IsTidy base listen_fd (accepting k) = view.opened k ≡ listen_fd ∷ base
  IsTidy base listen_fd (served fd k server k') =
      (is_neg fd ≡ false)
      × (view.opened k ≡ fd ∷ base)
      × (outcome_of fd k ≡ ok server)
      × (view.opened k' ≡ base)
  IsTidy base listen_fd (faulted fd k fault) =
      (is_neg fd ≡ false) × (view.opened k ≡ fd ∷ base) × (outcome_of fd k ≡ err fault)
  IsTidy base listen_fd (stopped k) = (fd : ℤ) × (view.opened k ≡ fd ∷ base)
  IsTidy base listen_fd (failed status message k) = status ≡ 1
  IsTidy base listen_fd (harvesting k) = ⊥

module _ {K W : Type 0} (net : Network K) (sys : System W) (peers : Connections K W) (view : View K)
    (laws : ProcessLaws net view) where
  close-head :
      (fd : ℤ) (fds : List ℤ) (k : K)
      → view.opened k ≡ fd ∷ fds
      → view.opened (net.close fd k).1 ≡ fds
  close-head fd fds k e = (laws.close_removes k fd).0 ∙ ap (remove fd) e ∙ remove-head fd fds

  close-second :
      (a b : ℤ) (fds : List ℤ) (k : K)
      → view.opened k ≡ a ∷ b ∷ fds
      → view.opened (net.close b k).1 ≡ a ∷ fds
  close-second a b fds k e = (laws.close_removes k b).0 ∙ ap (remove b) e ∙ remove-second a b fds

  serve_connection-IsTidy :
      (base : List ℤ) (listen_fd fd : ℤ) (k : K) (r : Result (Server W))
      → outcome_of net sys peers view fd k ≡ r
      → is_neg fd ≡ false
      → view.opened k ≡ fd ∷ base
      → IsTidy net sys peers view base listen_fd (serve_connection net sys peers fd k)
  unfolding serve_connection
  serve_connection-IsTidy base listen_fd fd k (ok server) e good held =
      rw (e, serve_connection) (good, held, e, close-head fd base k held)
  serve_connection-IsTidy base listen_fd fd k (err fault) e good held =
      rw (e, serve_connection) (good, held, e)

  child-IsTidy :
      (base : List ℤ) (listen_fd fd : ℤ) (k : K)
      → is_neg fd ≡ false
      → view.opened k ≡ fd ∷ listen_fd ∷ base
      → IsTidy net sys peers view base listen_fd (child net sys peers listen_fd fd k)
  unfolding child set_non_blocking
  child-IsTidy base listen_fd fd k good held =
      let k1 = (net.close listen_fd k).1 in
      let flags = (net.get_flags fd k1).0 in
      let k2 = (net.get_flags fd k1).1 in
      serve_connection-IsTidy base listen_fd fd _ _ refl good (
        (laws.set_flags_keeps k2 fd (non_blocking flags)).0
        ∙ (laws.get_flags_keeps k1 fd).0
        ∙ close-second fd listen_fd base k held)

  accept_loop-IsTidy :
      (fuel n : ℕ) (base : List ℤ) (listen_fd : ℤ) (k : K)
      → view.children k + n < fuel
      → view.opened k ≡ listen_fd ∷ base
      → IsTidy net sys peers view base listen_fd (accept_loop net sys peers fuel n listen_fd k)
  unfolding accept_loop accept_client
  accept_loop-IsTidy fuel zero base listen_fd k enough held = held
  accept_loop-IsTidy fuel (suc n) base listen_fd k enough held =
      let fd = (net.accept listen_fd k).0 in
      let k1 = (net.accept listen_fd k).1 in
      let id = (net.fork k1).0 in
      let k2 = (net.fork k1).1 in
      elim (Bool-cases (is_neg fd)) [
        | inl bad ↦ rw (bad, IsTidy) refl
        | inr good ↦
            let (opens, same) = laws.accept_opens k listen_fd good in
            let (copies, one_more) = laws.fork_copies k1 in
            let both : view.opened k2 ≡ fd ∷ listen_fd ∷ base =
              copies ∙ opens ∙ ap (λ l. fd ∷ l) held in
            let closed = close-head fd (listen_fd ∷ base) k2 both in
            let count = (laws.close_removes k2 fd).1 in
            let differ = ne_minus_one fd good in
            elim (Bool-cases (is_neg id)) [
              | inl fails ↦
                  rw (good, differ, fails, IsTidy) (fd, close-second fd listen_fd base k2 both)
              | inr forks ↦ elim (Bool-cases (eqb_ℤ id (pos 0))) [
                | inl zero_id ↦
                    rw (good, differ, forks, zero_id, IsTidy)
                      (child-IsTidy base listen_fd fd k2 good both)
                | inr parent ↦
                    let (k4, harvested, kept, fewer, last) =
                      harvest-enough_fuel net sys peers view laws fuel (net.close fd k2).1
                        (omega (arith, count, one_more, same, enough)) in
                    rw (good, differ, forks, parent, harvested, IsTidy)
                      (accept_loop-IsTidy fuel n base listen_fd k4
                        (omega (arith, fewer, count, one_more, same, enough)) (kept ∙ closed))
              ]
            ]
      ]

  -- However many connections the server of rpc/server.c has accepted, the process that runs is the
  -- parent, which then has the listening socket open and no connection, or a child, which has its own
  -- connection open and not the listening socket while `service` runs, and neither at its end; or
  -- the parent has stopped, since `fork` has failed; or an operating system call has failed and the
  -- status is 1. The harvest never takes more fuel than there are rounds and earlier children.
  pub main-IsTidy :
      (fuel n : ℕ) (k : K)
      → view.children k + n < fuel
      → (listen_fd : ℤ) × IsTidy net sys peers view
          (view.opened k)
          listen_fd
          (main net sys peers fuel n k)
  unfolding main build_server
  main-IsTidy fuel n k enough =
      let fd = (net.socket af_inet sock_stream 0 k).0 in
      let k1 = (net.socket af_inet sock_stream 0 k).1 in
      let k2 = (net.set_reusable fd k1).1 in
      let addr = local_address net in
      let k3 = (net.bind fd addr k2).1 in
      let k4 = (net.listen fd wait_log k3).1 in
      elim (Bool-cases (is_neg fd)) [
        | inl bad ↦ (fd, rw (bad, IsTidy) refl)
        | inr good ↦ elim (Bool-cases (is_neg (net.bind fd addr k2).0)) [
          | inl bad ↦ (fd, rw (good, bad, IsTidy) refl)
          | inr binds ↦ elim (Bool-cases (is_neg (net.listen fd wait_log k3).0)) [
            | inl bad ↦ (fd, rw (good, binds, bad, IsTidy) refl)
            | inr listens ↦
                let (opens, same) = laws.socket_opens k good in
                let (keep1, same1) = laws.set_reusable_keeps k1 fd in
                let (keep2, same2) = laws.bind_keeps k2 fd addr in
                let (keep3, same3) = laws.listen_keeps k3 fd in
                (
                  fd,
                  rw (good, binds, listens, IsTidy)
                      (accept_loop-IsTidy fuel n (view.opened k) fd k4
                        (omega (arith, same, same1, same2, same3, enough))
                        (keep3 ∙ keep2 ∙ keep1 ∙ opens)),
                )
          ]
        ]
      ]
