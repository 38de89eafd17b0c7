-- ===== src/FileService/Stream.antt =====
-- `service` of rpc/server.c over a whole connection does what the file service promises.
use remote_file_procedure_ca.Prelude.{
  ℕ, ◌+◌, ◌<◌, ◌≤◌, ◌^◌, ◌≡◌, refl, sym, ap, ◌∙◌, List, [], ◌∷◌, ◌++◌, append-nil, append_assoc,
  All, arith, length, length-append,
}
use remote_file_procedure_ca.Text.{Bytes}
use remote_file_procedure_ca.Result.{ok}
use remote_file_procedure_ca.Marshall.Request.{Request}
use remote_file_procedure_ca.Marshall.Request.RoundTrip.{
  request_of, request_stream, serialize_request-stream, deserialize-serialize_request,
}
use remote_file_procedure_ca.Marshall.Response.RoundTrip.{response_stream}
use remote_file_procedure_ca.Socket.{empty_storage, storage_size}
use remote_file_procedure_ca.Socket.Read.{RecvEvent}
use remote_file_procedure_ca.Socket.Write.{SendEvent, send_message}
use remote_file_procedure_ca.Socket.Write.Stream.{IsHealthy, total_room, message_header}
use remote_file_procedure_ca.Server.{System, Server}
use remote_file_procedure_ca.Server.Alike.{ok-Alike}
use remote_file_procedure_ca.Server.Service.{op_number, service}
use remote_file_procedure_ca.Server.Loop.{framed, Decoded, dispatch_all}
use remote_file_procedure_ca.Server.Wire.{
  dispatch-serve, replied, nothing-IsPart, op_number-FitsInt,
}
use remote_file_procedure_ca.Client.Waiting.{joined}
use remote_file_procedure_ca.Connection.{closing}
use remote_file_procedure_ca.Connection.Stream.{AreBounded, service-stream}
use remote_file_procedure_ca.FileService.{
  Call, procedure, params, perform, IsCall, SystemLaws, clear, TreeFits,
}
use remote_file_procedure_ca.FileService.Handlers.{params-AreSized, length-params, serve-replied}

abbrev pub requests : List Call → List Request
requests [] = []
requests (call ∷ calls) = request_of (op_number (procedure call)) (params call) ∷ requests calls

-- Their streams, as the stubs send them.
abbrev pub streams : List Call → List Bytes
streams [] = []
streams (call ∷ calls) = request_stream (op_number (procedure call)) (params call) ∷ streams calls

-- The calls one after the other: the world behind them, and the streams of the answers.
abbrev pub perform_all : {W : Type 0} → System W → List Call → W → W × List Bytes
perform_all sys [] w = (w, [])
perform_all sys (call ∷ calls) w =
    let (vals, after) = perform sys call (clear w) in
    let (w', replies) = perform_all sys calls after.world in
    (w', response_stream after.errno vals ∷ replies)

-- The server has room for the trees of these calls, each on the files as the calls before have left them.
abbrev pub TreesFit : {W : Type 0} → System W → List Call → W → Type 0
TreesFit sys [] w = Unit
TreesFit sys (call ∷ calls) w =
    TreeFits sys call w × TreesFit sys calls (perform sys call (clear w)).1.world

-- The connection takes these answers, one after the other.
abbrev pub TakesAll : List SendEvent → List Bytes → Type 0
TakesAll events [] = Unit
TakesAll events (reply ∷ replies) =
    ((length reply ≤ storage_size + 1)
      × IsHealthy events
      × (length (message_header reply ++ reply) ≤ total_room events))
    × TakesAll (send_message events reply).events replies

requests-Decoded :
    (bound : ℕ) (calls : List Call)
    → All IsCall calls
    → AreBounded bound (streams calls)
    → bound < 2 ^ 31
    → Decoded (streams calls) (requests calls)
requests-Decoded bound [] are_calls bounded small = tt
requests-Decoded bound (call ∷ calls) (is_call, are_calls) (first, bounded) small =
    let op = op_number (procedure call) in
    let stream = request_stream op (params call) in
    let few : length (params call) < 2 ^ 31 = omega (arith, length-params call) in
    let sized = params-AreSized call is_call in
    (
      omega (arith, first, length-append (message_header stream) stream),
      deserialize-serialize_request op (params call) (op_number-FitsInt (procedure call)) few sized
          stream (0 ∷ [])
          (serialize_request-stream op (params call) (op_number-FitsInt (procedure call)) few
            sized),
      requests-Decoded bound calls are_calls bounded small,
    )

-- The server behind calls: the world is as the file service has it, and the answers are on the wire.
abbrev pub Performed : {W : Type 0} → System W → List Call → Server W → Server W → Type 0
Performed sys calls server server' =
    (server'.process.world ≡ (perform_all sys calls server.process.world).0)
    × (server'.wire ≡ server.wire ++ framed (perform_all sys calls server.process.world).1)

module _ {W : Type 0} (sys : System W) (laws : SystemLaws sys) where
  dispatch_all-Performed :
      (calls : List Call) (server : Server W)
      → All IsCall calls
      → TreesFit sys calls server.process.world
      → TakesAll server.send_events (perform_all sys calls server.process.world).1
      → (server' : Server W) × (dispatch_all sys server (requests calls) ≡ ok server')
        × Performed sys calls server server'
  dispatch_all-Performed [] server are_calls fit takes =
      (server, refl, (refl, sym (append-nil server.wire)))
  dispatch_all-Performed (call ∷ calls) server (is_call, are_calls) (tree, fit) (room, takes) =
      let (vals, after) = perform sys call (clear server.process.world) in
      let reply = response_stream after.errno vals in
      let next = replied server after reply in
      let (server', done, (world, wire)) = dispatch_all-Performed calls next are_calls fit takes in
      (
        server',
        rw
            (dispatch-serve sys server (procedure call) (params call)
              ∙ serve-replied sys laws call server vals after is_call tree refl room)
            done,
        (world, wire ∙ append_assoc server.wire (message_header reply ++ reply) (framed _)),
      )

  -- The server refines the file service. Where a client sends the requests of any calls, with arguments
  -- of the widths of their types, and the network brings them in chunks, cut anywhere, `service`
  -- performs the calls in order on the server's files, each with errno 0 before it, puts their
  -- answers on the wire in order, and ends when the client closes the connection. The
  -- operating system keeps its laws, the server has room for the trees, the connection takes the
  -- answers, no request has more
  -- than `bound` bytes with its header, and so many and a chunk are fewer than `STORAGE_SIZE`.
  pub service-Performed :
      (bound : ℕ) (chunks : List Bytes) (calls : List Call) (later : List (List RecvEvent))
      (server : Server W)
      → All IsCall calls
      → TreesFit sys calls server.process.world
      → joined chunks ≡ framed (streams calls)
      → AreBounded bound (streams calls)
      → bound < 2 ^ 31
      → All (λ chunk. bound + length chunk < storage_size) chunks
      → TakesAll server.send_events (perform_all sys calls server.process.world).1
      → (server' : Server W) × (service sys (closing chunks later) [] server empty_storage
          ≡ ok server')
        × Performed sys calls server server'
  service-Performed bound chunks calls later server are_calls trees whole bounded small fit takes =
      let (server', done, (world, wire)) =
        dispatch_all-Performed calls server are_calls trees takes in
      let alike =
        service-stream sys bound chunks (streams calls) (requests calls) [] later server
          (whole ∙ sym (append-nil (framed (streams calls))))
          (requests-Decoded bound calls are_calls bounded small) bounded nothing-IsPart
          (omega arith) fit in
      let (server'', returns, same) =
        ok-Alike (service sys (closing chunks later) [] server empty_storage) server'
          (rw done at alike) in
      (
        server'',
        returns,
        (
          ap (λ server'. server'.process.world) same ∙ world,
          ap (λ server'. server'.wire) same ∙ wire,
        ),
      )
