-- ===== src/Listener/Serving.antt =====
-- The whole server of rpc/server.c: `main`, with the connections of its children served by `service`,
-- against the file service.
use remote_file_procedure_ca.Prelude.{ℕ, ◌+◌, ◌<◌, ◌^◌, ◌≡◌, List, ◌∷◌, ℤ, length, All}
use remote_file_procedure_ca.Text.{Bytes}
use remote_file_procedure_ca.Result.{ok}
use remote_file_procedure_ca.Socket.{storage_size}
use remote_file_procedure_ca.Socket.Read.{RecvEvent}
use remote_file_procedure_ca.Server.{System, Server}
use remote_file_procedure_ca.Server.Loop.{framed}
use remote_file_procedure_ca.Client.Waiting.{joined}
use remote_file_procedure_ca.Connection.{closing}
use remote_file_procedure_ca.Connection.Stream.{AreBounded}
use remote_file_procedure_ca.FileService.{Call, IsCall, SystemLaws}
use remote_file_procedure_ca.FileService.Stream.{
  streams, perform_all, TakesAll, TreesFit, Performed, service-Performed,
}
use remote_file_procedure_ca.Network.{Network}
use remote_file_procedure_ca.Listener.{
  Run, accepting, stopped, harvesting, served, faulted, failed, Connections, main,
}
use remote_file_procedure_ca.Listener.Harvest.{View, ProcessLaws}
use remote_file_procedure_ca.Listener.Descriptors.{IsTidy, outcome_of, main-IsTidy}

-- On a connection with these arrivals the client sends the requests of these calls and closes it, the
-- network cuts the stream into chunks, the server has room for the trees of the calls, and the connection takes the answers of this server.
abbrev pub Sends : {W : Type 0} → System W → Server W → List (List RecvEvent) → List Call → Type 0
Sends sys server arrivals calls =
    (bound : ℕ) × (chunks : List Bytes) × (later : List (List RecvEvent)) × (arrivals
      ≡ closing chunks later)
    × All IsCall calls
    × TreesFit sys calls server.process.world
    × (joined chunks ≡ framed (streams calls))
    × AreBounded bound (streams calls)
    × (bound < 2 ^ 31)
    × All (λ chunk. bound + length chunk < storage_size) chunks
    × TakesAll server.send_events (perform_all sys calls server.process.world).1

module _ {K W : Type 0} (net : Network K) (sys : System W) (peers : Connections K W) (view : View K)
    (calls : ℤ → K → List Call) where
  -- A process that began with the descriptors `base`: a child that has served its connection has
  -- performed the calls of its client, and no child has met a fault.
  abbrev pub Serves : List ℤ → Run K W → Type 0
  Serves base (accepting k) = (listen_fd : ℤ) × (view.opened k ≡ listen_fd ∷ base)
  Serves base (served fd k server k') =
      Performed sys (calls fd k) (peers.start fd k) server
      × (view.opened k ≡ fd ∷ base)
      × (view.opened k' ≡ base)
  Serves base (faulted fd k fault) = ⊥
  Serves base (stopped k) = (fd : ℤ) × (view.opened k ≡ fd ∷ base)
  Serves base (failed status message k) = status ≡ 1
  Serves base (harvesting k) = ⊥

  module _ (laws : SystemLaws sys)
      (sends : (fd : ℤ) (k : K)
        → Sends sys (peers.start fd k) (peers.arrivals fd k) (calls fd k)) where
    outcome_of-Performed :
        (fd : ℤ) (k : K)
        → (server : Server W) × (outcome_of net sys peers view fd k ≡ ok server)
          × Performed sys (calls fd k) (peers.start fd k) server
    outcome_of-Performed fd k =
        let (bound, chunks, later, arrive, are_calls, trees, whole, bounded, small, fit, takes) =
          sends fd k in
        rw arrive (
          service-Performed sys laws bound chunks (calls fd k) later (peers.start fd k) are_calls
            trees whole bounded small fit takes)

    tidy-Serves :
        (base : List ℤ) (listen_fd : ℤ) (run : Run K W)
        → IsTidy net sys peers view base listen_fd run
        → Serves base run
    tidy-Serves base listen_fd (accepting k) held = (listen_fd, held)
    tidy-Serves base listen_fd (stopped k) held = held
    tidy-Serves base listen_fd (harvesting k) held = held
    tidy-Serves base listen_fd (failed status message k) held = held
    tidy-Serves base listen_fd (served fd k server k') (good, held, done, closed) =
        let (server', done', performed) = outcome_of-Performed fd k in
        let same : server' ≡ server = cc in (rw same at performed, held, closed)
    tidy-Serves base listen_fd (faulted fd k fault) (good, held, done) =
        let (server', done', performed) = outcome_of-Performed fd k in absurd cc

    -- The whole server. Where the client of each connection sends the requests of calls with arguments
    -- of the widths of their types, in any chunks, and closes the connection, each child of `main` that
    -- ends has performed these calls in order on the server's files and has put their answers on the
    -- wire, with its own connection open and not the listening socket before, and neither behind.
    -- No child meets a fault. The operating system keeps its laws, the connections take the answers, and
    -- for each `getdirtree` among the calls the server has room for the tree. The fuel for a harvest is
    -- more than there are rounds and earlier children.
    pub main-Performed :
        (fuel n : ℕ) (k : K)
        → ProcessLaws net view
        → view.children k + n < fuel
        → Serves (view.opened k) (main net sys peers fuel n k)
    main-Performed fuel n k processes enough =
        let (listen_fd, tidy) = main-IsTidy net sys peers view processes fuel n k enough in
        tidy-Serves (view.opened k) listen_fd (main net sys peers fuel n k) tidy
