-- ===== src/Connection.antt =====
-- `service` of rpc/server.c over the whole life of a connection.
pub mod Stream
pub mod Malformed
use remote_file_procedure_ca.Prelude.{
  ℕ, zero, suc, ◌+◌, ◌-◌, ◌<◌, ◌≡◌, refl, ap, ◌∙◌, true, false, List, [], ◌∷◌, ◌++◌, append-nil,
  arith, ℤ, length, length-append, if◌then◌else◌,
}
use remote_file_procedure_ca.Text.{Bytes}
use remote_file_procedure_ca.Result.{Result, ok, err, ◌>>=◌}
use remote_file_procedure_ca.Marshall.Request.{Request}
use remote_file_procedure_ca.Socket.{empty_storage, Storage, storage_size, errno_number, eagain}
use remote_file_procedure_ca.Socket.Read.{RecvEvent, closed, Read, greedy_read, read_errno}
use remote_file_procedure_ca.Socket.Message.Memory.{Holds}
use remote_file_procedure_ca.Server.{System, Server, with_errno}
use remote_file_procedure_ca.Server.Service.{receive, serve_messages, service}
use remote_file_procedure_ca.Server.Loop.{framed, Decoded, IsPart, dispatch_all, serve_messages-all}
use remote_file_procedure_ca.Server.Wire.{nothing-IsPart}
use remote_file_procedure_ca.Server.Fuel.{bind_agree}
use remote_file_procedure_ca.Server.Receive.{
  events_of, greedy_read-chunk, read_errno-chunk, receive-Holds, empty-Holds,
}

-- Behind a first part of a message that is in the buffer, these chunks arrive, one in each round, and
-- with each of them these requests become whole.
abbrev pub Arrives : Bytes → List Bytes → List (List Request) → Type 0
Arrives part [] [] = Unit
Arrives part [] (rs ∷ rounds) = ⊥
Arrives part (chunk ∷ chunks) [] = ⊥
Arrives part (chunk ∷ chunks) (rs ∷ rounds) =
    (cs : List Bytes) × (part' : Bytes) × (part ++ chunk ≡ framed cs ++ part')
    × Decoded cs rs
    × IsPart part'
    × (length (part ++ chunk) < storage_size)
    × Arrives part' chunks rounds

pub greedy_read-closed :
    (n : ℕ)
    → 0 < n
    → greedy_read (closed ∷ []) n false ≡ record { bytes = []; exit = true; events = [] }
unfolding greedy_read
greedy_read-closed zero h = absurd (omega arith)
greedy_read-closed (suc n) h = refl

pub read_errno-closed : (n : ℕ) (errno : ℤ) → read_errno (closed ∷ []) n errno ≡ errno
unfolding read_errno
read_errno-closed zero errno = refl
read_errno-closed (suc n) errno = refl

bind_pair :
    {A B C : Type 0} (m : Result A) (b : B) (next : A × B → Result C)
    → ((m >>= λ a. ok (a, b)) >>= next) ≡ (m >>= λ a. next (a, b))
bind_pair (ok a) b next = refl
bind_pair (err fault) b next = refl

-- The rounds, and behind them one in which the peer has closed the connection.
abbrev pub closing : List Bytes → List (List RecvEvent) → List (List RecvEvent)
closing [] later = (closed ∷ []) ∷ later
closing (chunk ∷ chunks) later = events_of chunk ∷ closing chunks later

module _ {W : Type 0} (sys : System W) where
  -- The requests of all rounds, one after the other; each round begins with the EAGAIN that the last
  -- `recv` has left in `errno`.
  abbrev pub dispatch_rounds : Server W → List (List Request) → Result (Server W)
  dispatch_rounds server [] = ok server
  dispatch_rounds server (rs ∷ rounds) =
      dispatch_all sys (with_errno server (errno_number eagain)) rs >>= λ server'.
      dispatch_rounds server' rounds

  pub service_round :
      (events : List RecvEvent) (rounds : List (List RecvEvent)) (server : Server W) (s : Storage)
      (read : Read) (errno : ℤ)
      → greedy_read events (storage_size - s.size) false ≡ read
      → read_errno events (storage_size - s.size) server.process.errno ≡ errno
      → service sys (events ∷ rounds) [] server s ≡ (
          serve_messages sys
            ((receive s read.bytes).size + 1)
            (with_errno server errno)
            (receive s read.bytes)
          >>= λ r. (if read.exit then ok r.0 else service sys rounds read.events r.0 r.1))
  unfolding service
  service_round events rounds server s read errno e e' = rw (← e, ← e', service) refl

  service-closed :
      (rounds : List (List RecvEvent)) (server : Server W) (s : Storage) (part : Bytes)
      → Holds s part
      → IsPart part
      → length part < storage_size
      → service sys ((closed ∷ []) ∷ rounds) [] server s ≡ ok server
  service-closed rounds server s part held is_part small =
      let same : part ++ [] ≡ part = append-nil part in
      let received : Holds (receive s []) part =
        rw same at (receive-Holds s part [] held (rw same small)) in
      let (s', _, served) =
        serve_messages-all sys [] [] server (receive s []) part tt is_part received
          (omega (arith, received.2)) in
      service_round (closed ∷ []) rounds server s _ server.process.errno
        (greedy_read-closed (storage_size - s.size) (omega (arith, held.2)))
        (read_errno-closed (storage_size - s.size) server.process.errno)
      ∙ ap (λ m. m >>= λ r. ok r.0) served

  service-Arrives :
      (chunks : List Bytes) (requests : List (List Request)) (later : List (List RecvEvent))
      (server : Server W) (s : Storage) (part : Bytes)
      → Holds s part
      → IsPart part
      → length part < storage_size
      → Arrives part chunks requests
      → service sys (closing chunks later) [] server s ≡ dispatch_rounds server requests
  service-Arrives [] [] later server s part held is_part small arrives =
      service-closed later server s part held is_part small
  service-Arrives [] (rs ∷ requests) later server s part held is_part small arrives = absurd arrives
  service-Arrives (chunk ∷ chunks) [] later server s part held is_part small arrives =
      absurd arrives
  service-Arrives (chunk ∷ chunks) (rs ∷ requests) later server s part held is_part small
        (cs, part', split, decoded, is_part', fits, arrives) =
      let received : Holds (receive s chunk) (framed cs ++ part') =
        rw split at (receive-Holds s part chunk held fits) in
      let total : length (part ++ chunk) ≡ length (framed cs ++ part') = ap length split in
      let (s', held', served) =
        serve_messages-all sys cs rs (with_errno server (errno_number eagain)) (receive s chunk)
          part' decoded is_part' received (omega (arith, received.2)) in
      let small' : length part' < storage_size = omega (arith, length-append (framed cs) part') in
      service_round (events_of chunk) (closing chunks later) server s _ (errno_number eagain)
        (greedy_read-chunk chunk (storage_size - s.size)
          (omega (arith, held.2, length-append part chunk)))
        (read_errno-chunk chunk (storage_size - s.size) server.process.errno
          (omega (arith, held.2, length-append part chunk)))
      ∙ ap (λ m. m >>= λ r. service sys (closing chunks later) [] r.0 r.1) served
      ∙ bind_pair (dispatch_all sys (with_errno server (errno_number eagain)) rs) s'
          (λ r. service sys (closing chunks later) [] r.0 r.1)
      ∙ bind_agree (dispatch_all sys (with_errno server (errno_number eagain)) rs) _ _ (λ server'.
        service-Arrives chunks requests later server' s' part' held' is_part' small' arrives)

  -- Where requests arrive in chunks, cut anywhere, one chunk in each round, and the client then
  -- closes the connection, `service` serves all whole requests in order, each as `dispatch` does,
  -- stops at the first fault, and otherwise ends. After each round the buffer holds nothing but the
  -- first part of one more message, of fewer than 2^31 bytes, and it never fills up.
  pub service-all :
      (chunks : List Bytes) (requests : List (List Request)) (later : List (List RecvEvent))
      (server : Server W)
      → Arrives [] chunks requests
      → service sys (closing chunks later) [] server empty_storage ≡ dispatch_rounds server requests
  service-all chunks requests later server arrives =
      service-Arrives chunks requests later server empty_storage [] empty-Holds nothing-IsPart
        (omega arith) arrives
