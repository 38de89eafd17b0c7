-- ===== src/Server/Fuel.antt =====
-- The fuel of the inner loop of `service` of rpc/server.c.
use remote_file_procedure_ca.Prelude.{ℕ, zero, suc, ◌<◌, ◌≡◌, refl, Option, none, some, arith}
use remote_file_procedure_ca.Text.{Bytes}
use remote_file_procedure_ca.Result.{Result, Fault, ok, err, ◌>>=◌}
use remote_file_procedure_ca.Marshall.Request.{Request, deserialize_request}
use remote_file_procedure_ca.Socket.{Storage}
use remote_file_procedure_ca.Socket.Message.{parse_message}
use remote_file_procedure_ca.Socket.Message.Size.{parse_message-smaller}
use remote_file_procedure_ca.Server.{System, Server}
use remote_file_procedure_ca.Server.Service.{dispatch, serve_messages}

pub bind_agree :
    {A B : Type 0} (m : Result A) (f g : A → Result B)
    → ((a : A) → f a ≡ g a)
    → (m >>= f) ≡ (m >>= g)
bind_agree (ok a) f g h = h a
bind_agree (err fault) f g h = refl

-- How the inner loop of `service` can end, on a server and a buffer: `finished` where there is no whole
-- message; with a fault of `parse_message`, of `deserialize_request` or of the request's handler; or
-- behind a request that is served, as the loop on the buffer behind it ends.
pub data Runs {W : Type 0} (sys : System W)
    : Server W → Storage → Result (Server W × Storage) → Type 0 where
  finished :
      (server : Server W) (s s' : Storage)
      → parse_message s ≡ ok (none, s')
      → Runs sys server s (ok (server, s'))
  not_parsed :
      (server : Server W) (s : Storage) (fault : Fault)
      → parse_message s ≡ err fault
      → Runs sys server s (err fault)
  not_read :
      (server : Server W) (s s' : Storage) (bytes : Bytes) (fault : Fault)
      → parse_message s ≡ ok (some bytes, s')
      → deserialize_request bytes ≡ err fault
      → Runs sys server s (err fault)
  not_served :
      (server : Server W) (s s' : Storage) (bytes : Bytes) (request : Request) (fault : Fault)
      → parse_message s ≡ ok (some bytes, s')
      → deserialize_request bytes ≡ ok request
      → dispatch sys server request ≡ err fault
      → Runs sys server s (err fault)
  and_then :
      (server server' : Server W) (s s' : Storage) (bytes : Bytes) (request : Request)
      (r : Result (Server W × Storage))
      → parse_message s ≡ ok (some bytes, s')
      → deserialize_request bytes ≡ ok request
      → dispatch sys server request ≡ ok server'
      → Runs sys server' s' r
      → Runs sys server s r

module _ {W : Type 0} (sys : System W) where
  -- A round of the loop, given the result of `parse_message` and what the rounds after it do.
  abbrev round :
      Result (Option Bytes × Storage)
      → Server W
      → (Server W → Storage → Result (Server W × Storage))
      → Result (Server W × Storage)
  round (err fault) server next = err fault
  round (ok (none, s)) server next = ok (server, s)
  round (ok (some bytes, s)) server next = deserialize_request bytes >>= λ request.
      dispatch sys server request >>= λ server'. next server' s

  serve_messages-round :
      (m : Result (Option Bytes × Storage)) (f : ℕ) (server : Server W) (s : Storage)
      → parse_message s ≡ m
      → serve_messages sys (suc f) server s ≡ round m server (serve_messages sys f)
  unfolding serve_messages
  serve_messages-round (err fault) f server s e = rw (e, serve_messages) refl
  serve_messages-round (ok (none, s')) f server s e = rw (e, serve_messages) refl
  serve_messages-round (ok (some bytes, s')) f server s e = rw (e, serve_messages) refl

  served-Runs :
      (d : Result (Server W)) (server : Server W) (s s' : Storage) (bytes : Bytes)
      (request : Request) (next : Server W → Storage → Result (Server W × Storage))
      → parse_message s ≡ ok (some bytes, s')
      → deserialize_request bytes ≡ ok request
      → dispatch sys server request ≡ d
      → ((server' : Server W) → Runs sys server' s' (next server' s'))
      → Runs sys server s (d >>= λ server'. next server' s')
  served-Runs (err fault) server s s' bytes request next found read served rest =
      not_served server s s' bytes request fault found read served
  served-Runs (ok server') server s s' bytes request next found read served rest =
      and_then server server' s s' bytes request (next server' s') found read served (rest server')

  read-Runs :
      (q : Result Request) (server : Server W) (s s' : Storage) (bytes : Bytes)
      (next : Server W → Storage → Result (Server W × Storage))
      → parse_message s ≡ ok (some bytes, s')
      → deserialize_request bytes ≡ q
      → ((server' : Server W) → Runs sys server' s' (next server' s'))
      → Runs sys server s
          (q >>= λ request. dispatch sys server request >>= λ server'. next server' s')
  read-Runs (err fault) server s s' bytes next found read rest =
      not_read server s s' bytes fault found read
  read-Runs (ok request) server s s' bytes next found read rest =
      served-Runs (dispatch sys server request) server s s' bytes request next found read refl rest

  round-Runs :
      (m : Result (Option Bytes × Storage)) (server : Server W) (s : Storage)
      (next : Server W → Storage → Result (Server W × Storage))
      → parse_message s ≡ m
      → ((bytes : Bytes) (s' : Storage) (server' : Server W)
          → m ≡ ok (some bytes, s')
          → Runs sys server' s' (next server' s'))
      → Runs sys server s (round m server next)
  round-Runs (err fault) server s next found rest = not_parsed server s fault found
  round-Runs (ok (none, s')) server s next found rest = finished server s s' found
  round-Runs (ok (some bytes, s')) server s next found rest =
      read-Runs (deserialize_request bytes) server s s' bytes next found refl
        λ server'. rest bytes s' server' refl

  -- Whatever the buffer holds, the inner loop of `service` ends: with any fuel above the size of the
  -- buffer its outcome is one that the loop reaches by finitely many served requests, the last with no
  -- whole message behind it or with a fault of the code it calls. The fuel does not run out.
  pub serve_messages-Runs :
      (f : ℕ) (server : Server W) (s : Storage)
      → s.size < f
      → Runs sys server s (serve_messages sys f server s)
  serve_messages-Runs zero server s h = absurd (omega arith)
  serve_messages-Runs (suc f) server s h =
      rw (serve_messages-round (parse_message s) f server s refl) (
        round-Runs (parse_message s) server s (serve_messages sys f) refl λ bytes s' server' found.
          serve_messages-Runs f server' s' (omega (arith, parse_message-smaller s bytes s' found)))
