-- ===== src/Client/Calls.antt =====
-- `send_request` and `wait_response` of rpc/mylib.c as one exchange with the server.
use remote_file_procedure_ca.Prelude.{
  ◌+◌, ◌<◌, ◌≤◌, ◌≡◌, refl, true, List, [], ◌∷◌, ◌++◌, arith, length, leb, le→leb,
}
use remote_file_procedure_ca.Text.{Bytes}
use remote_file_procedure_ca.Result.{ok}
use remote_file_procedure_ca.Marshall.Request.{Request, serialize_request}
use remote_file_procedure_ca.Marshall.Response.{Response, deserialize_response}
use remote_file_procedure_ca.Socket.{storage_size, errno_number, eagain}
use remote_file_procedure_ca.Socket.Read.{RecvEvent}
use remote_file_procedure_ca.Socket.Write.{send_message, send_errno}
use remote_file_procedure_ca.Socket.Write.Stream.{
  IsHealthy, total_room, message_header, send_message-whole,
}
use remote_file_procedure_ca.Client.{Client, send_request, wait_response, call_remote}
use remote_file_procedure_ca.Client.Waiting.{joined, wait_loop-whole}
use remote_file_procedure_ca.Server.Receive.{rounds_of}

-- The connection takes this request, in any pieces, and then brings this reply, in any chunks, before
-- whatever comes later.
abbrev pub Exchange : {W : Type 0} → Client W → Bytes → Bytes → Type 0
Exchange client stream reply =
    (length stream ≤ storage_size + 1)
    × IsHealthy client.send_events
    × (length (message_header stream ++ stream) ≤ total_room client.send_events)
    × (client.left ≡ [])
    × (length (message_header reply ++ reply) < storage_size)
    × ((chunks : List Bytes) × (later : List (List RecvEvent)) × (client.rounds
          ≡ rounds_of chunks ++ later)
        × (joined chunks ≡ message_header reply ++ reply))

-- The client behind an exchange: it has sent the request, its world is as it was, and `errno` is EAGAIN,
-- from the last `recv`.
abbrev pub HasSent : {W : Type 0} → Client W → Bytes → Client W → Type 0
HasSent client stream after =
    (after.process ≡ record { errno = errno_number eagain; world = client.process.world })
    × (after.wire ≡ client.wire ++ (message_header stream ++ stream))

-- What has changed: the request is sent, `errno` is EAGAIN, and of the rounds only those before `later`
-- are gone, and maybe some in which nothing arrives are left.
abbrev pub behind : {W : Type 0} → Client W → Bytes → List Bytes → List (List RecvEvent) → Client W
behind client stream silent later = record client {
  process = record { errno = errno_number eagain; world = client.process.world };
  send_events = (send_message client.send_events stream).events;
  wire = client.wire ++ (message_header stream ++ stream);
  rounds = rounds_of silent ++ later;
  left = [];
}

module _ {W : Type 0} (client : Client W) (request : Request) (stream reply : Bytes)
    (response : Response) (written : serialize_request request ≡ ok stream)
    (reads : deserialize_response (reply ++ 0 ∷ []) ≡ ok response) where
  send_request-whole :
      length stream ≤ storage_size + 1
      → IsHealthy client.send_events
      → length (message_header stream ++ stream) ≤ total_room client.send_events
      → send_request client request
        ≡ ok (record client {
          process = record {
            errno = send_errno client.send_events stream client.process.errno;
            world = client.process.world;
          };
          send_events = (send_message client.send_events stream).events;
          wire = client.wire ++ (message_header stream ++ stream);
        })
  unfolding send_request
  send_request-whole fits healthy room =
      let enough : leb (length stream) (storage_size + 1) ≡ true =
        le→leb (length stream) (storage_size + 1) fits in
      let (done, sent) = send_message-whole client.send_events stream healthy room (omega arith) in
      rw (written, send_request, enough, done, sent)

  -- Where the connection takes the request and brings the reply, `call_remote` returns the response in
  -- the reply, and nothing of what comes later is lost.
  pub call_remote-behind :
      (chunks : List Bytes) (later : List (List RecvEvent))
      → length stream ≤ storage_size + 1
      → IsHealthy client.send_events
      → length (message_header stream ++ stream) ≤ total_room client.send_events
      → client.left ≡ []
      → length (message_header reply ++ reply) < storage_size
      → client.rounds ≡ rounds_of chunks ++ later
      → joined chunks ≡ message_header reply ++ reply
      → (silent : List Bytes) × (joined silent ≡ [])
        × (call_remote client request ≡ ok (response, behind client stream silent later))
  unfolding call_remote wait_response
  call_remote-behind chunks later fits healthy room left small rounds whole =
      let errno = send_errno client.send_events stream client.process.errno in
      let (silent, quiet, e) =
        wait_loop-whole reply response later small reads errno chunks whole in
      (
        silent,
        quiet,
        rw (send_request-whole fits healthy room, call_remote, wait_response, rounds, left, e) refl,
      )

  -- `call_remote` returns the response in the reply, has sent exactly the request, and leaves the world
  -- as it was and EAGAIN in `errno`.
  pub call_remote-whole :
      Exchange client stream reply
      → (after : Client W) × (call_remote client request ≡ ok (response, after))
        × HasSent client stream after
  call_remote-whole (fits, healthy, room, left, small, (chunks, later, rounds, whole)) =
      let (silent, quiet, e) =
        call_remote-behind chunks later fits healthy room left small rounds whole in
      (behind client stream silent later, e, (refl, refl))
