-- ===== src/Session/Sequence.antt =====
-- Any sequence of calls on one connection: the client of rpc/mylib.c, which waits for each answer before
-- it sends the next request, and `service` of rpc/server.c, against the file service.
use remote_file_procedure_ca.Prelude.{
  ℕ, ◌+◌, ◌<◌, ◌^◌, ◌≡◌, refl, sym, ap, ◌∙◌, List, [], ◌∷◌, ◌++◌, append-nil, append_assoc, All,
  arith, length, ℤ,
}
use remote_file_procedure_ca.Text.{Bytes}
use remote_file_procedure_ca.Result.{Result, ok, ◌>>=◌}
use remote_file_procedure_ca.Marshall.Request.{Request}
use remote_file_procedure_ca.Marshall.Request.RoundTrip.{
  request_of, request_stream, serialize_request-stream,
}
use remote_file_procedure_ca.Marshall.Response.{Response}
use remote_file_procedure_ca.Marshall.Response.RoundTrip.{
  response_of, response_stream, serialize_response-stream, deserialize-serialize_response,
}
use remote_file_procedure_ca.Socket.{errno_number, eagain, storage_size, empty_storage}
use remote_file_procedure_ca.Socket.Read.{RecvEvent}
use remote_file_procedure_ca.Socket.Write.Stream.{message_header}
use remote_file_procedure_ca.Server.{System, Server}
use remote_file_procedure_ca.Server.Service.{op_number, service}
use remote_file_procedure_ca.Server.Loop.{framed}
use remote_file_procedure_ca.Server.Wire.{op_number-FitsInt}
use remote_file_procedure_ca.Server.Receive.{rounds_of}
use remote_file_procedure_ca.Client.{Client, call_remote}
use remote_file_procedure_ca.Client.Calls.{behind, call_remote-behind}
use remote_file_procedure_ca.Client.Waiting.{joined}
use remote_file_procedure_ca.Connection.{closing}
use remote_file_procedure_ca.Connection.Stream.{AreBounded}
use remote_file_procedure_ca.FileService.{
  Call, procedure, params, perform, IsCall, SystemLaws, clear,
}
use remote_file_procedure_ca.FileService.Handlers.{params-AreSized, length-params, perform-IsAnswer}
use remote_file_procedure_ca.FileService.Stream.{
  requests, streams, perform_all, TakesAll, TreesFit, Performed, service-Performed,
}

-- A client program that makes one call after the other.
abbrev pub remote_calls : {V : Type 0} → Client V → List Request → Result (List Response × Client V)
remote_calls client [] = ok ([], client)
remote_calls client (request ∷ requests) = call_remote client request >>= λ first.
    remote_calls first.1 requests >>= λ others. ok (first.0 ∷ others.0, others.1)

-- The answers of the file service, as the client reads them.
abbrev pub responses : {W : Type 0} → System W → List Call → W → List Response
responses sys [] w = []
responses sys (call ∷ calls) w =
    let (vals, after) = perform sys call (clear w) in
    response_of after.errno vals ∷ responses sys calls after.world

-- These replies arrive one after the other, each in chunks of its own, and each is shorter with its
-- header than the buffer.
abbrev pub Delivers : List (List RecvEvent) → List Bytes → Type 0
Delivers rounds [] = Unit
Delivers rounds (reply ∷ replies) =
    (chunks : List Bytes) × (later : List (List RecvEvent)) × (rounds ≡ rounds_of chunks ++ later)
    × (joined chunks ≡ message_header reply ++ reply)
    × (length (message_header reply ++ reply) < storage_size)
    × Delivers later replies

rounds_of-append : (xs ys : List Bytes) → rounds_of (xs ++ ys) ≡ rounds_of xs ++ rounds_of ys
rounds_of-append [] ys = refl
rounds_of-append (x ∷ xs) ys = ap (λ l. rounds_of (x ∷ []) ++ l) (rounds_of-append xs ys)

joined-append : (xs ys : List Bytes) → joined (xs ++ ys) ≡ joined xs ++ joined ys
joined-append [] ys = refl
joined-append (x ∷ xs) ys =
    ap (λ l. x ++ l) (joined-append xs ys) ∙ sym (append_assoc x (joined xs) (joined ys))

-- Rounds in which nothing arrives may stand before them.
silent-Delivers :
    (silent : List Bytes) (rounds : List (List RecvEvent)) (replies : List Bytes)
    → joined silent ≡ []
    → Delivers rounds replies
    → Delivers (rounds_of silent ++ rounds) replies
silent-Delivers silent rounds [] quiet delivers = tt
silent-Delivers silent rounds (reply ∷ replies) quiet
      (chunks, later, split, whole, small, delivers) =
    (
      silent ++ chunks,
      later,
      ap (λ l. rounds_of silent ++ l) split
          ∙ sym (append_assoc (rounds_of silent) (rounds_of chunks) later)
          ∙ ap (λ l. l ++ later) (sym (rounds_of-append silent chunks)),
      joined-append silent chunks ∙ ap (λ l. l ++ joined chunks) quiet ∙ whole,
      small,
      delivers,
    )

-- `errno` behind the calls: EAGAIN from the last `recv`, where there was a call.
abbrev pub last_errno : List Call → ℤ → ℤ
last_errno [] errno = errno
last_errno (call ∷ calls) errno = last_errno calls (errno_number eagain)

-- The client behind the calls: the responses are the answers of the file service, and it has sent exactly
-- the requests.
abbrev pub Answered : {V W : Type 0} → System W → List Call → W → Client V → Type 0
Answered {V} sys calls w client =
    (after : Client V) × (remote_calls client (requests calls) ≡ ok (responses sys calls w, after))
    × (after.process
        ≡ record { errno = last_errno calls client.process.errno; world = client.process.world })
    × (after.wire ≡ client.wire ++ framed (streams calls))

module _ {V W : Type 0} (sys : System W) (laws : SystemLaws sys) where
  remote_calls-Answered :
      (calls : List Call) (client : Client V) (w : W)
      → All IsCall calls
      → TreesFit sys calls w
      → client.left ≡ []
      → TakesAll client.send_events (streams calls)
      → Delivers client.rounds (perform_all sys calls w).1
      → Answered sys calls w client
  remote_calls-Answered [] client w are_calls trees left takes delivers =
      (client, refl, refl, sym (append-nil client.wire))
  remote_calls-Answered (call ∷ calls) client w (is_call, are_calls) (tree, trees) left
        ((fits, healthy, room), takes) (chunks, later, split, whole, small, delivers) =
      let op = op_number (procedure call) in
      let stream = request_stream op (params call) in
      let (vals, after) = perform sys call (clear w) in
      let (few_vals, sized_vals, errno_fits) = perform-IsAnswer sys laws call w is_call tree in
      let few : length (params call) < 2 ^ 31 = omega (arith, length-params call) in
      let op_fits = op_number-FitsInt (procedure call) in
      let reply = response_stream after.errno vals in
      let (silent, quiet, first) =
        call_remote-behind client (request_of op (params call)) stream reply
          (response_of after.errno vals)
          (serialize_request-stream op (params call) op_fits few (params-AreSized call is_call))
          (deserialize-serialize_response after.errno vals errno_fits (omega arith) sized_vals reply
            (0 ∷ [])
            (serialize_response-stream after.errno vals errno_fits (omega arith) sized_vals))
          chunks later fits healthy room left small split whole in
      let (last, others, process, wire) =
        remote_calls-Answered calls (behind client stream silent later) after.world are_calls trees
          refl takes (silent-Delivers silent later _ quiet delivers) in
      (
        last,
        rw (first, others) refl,
        process,
        wire ∙ append_assoc client.wire (message_header stream ++ stream) (framed _),
      )

  -- A whole session. A client program makes any calls, one after the other, each by
  -- `call_remote`: it sends the request and waits for the answer. The network brings the bytes
  -- that the client has sent to the server, and those that the server has put on the wire to the
  -- client, cut into chunks, anywhere in requests and in each answer. Then the server performs
  -- the calls in order on its files, each with errno 0 before it, and ends when the client closes
  -- the connection, and the client receives, for each call, the values and errno of the server;
  -- its own errno is EAGAIN behind a call. The arguments have the widths of their types, the
  -- operating system keeps its laws, the server has room for the tree of each `getdirtree` among
  -- the calls, both sides' connections take what is sent, and no bytes of the client's connection
  -- are left over from before. With its header a request has at most `bound` bytes, and these and
  -- a chunk, as well as each answer, are fewer than `STORAGE_SIZE`.
  pub session-Performed :
      (bound : ℕ) (chunks : List Bytes) (calls : List Call) (later : List (List RecvEvent))
      (server : Server W) (client : Client V)
      → All IsCall calls
      → TreesFit sys calls server.process.world
      → joined chunks ≡ framed (streams calls)
      → AreBounded bound (streams calls)
      → bound < 2 ^ 31
      → All (λ chunk. bound + length chunk < storage_size) chunks
      → TakesAll server.send_events (perform_all sys calls server.process.world).1
      → client.left ≡ []
      → TakesAll client.send_events (streams calls)
      → Delivers client.rounds (perform_all sys calls server.process.world).1
      → ((server' : Server W) × (service sys (closing chunks later) [] server empty_storage
            ≡ ok server')
          × Performed sys calls server server')
        × Answered sys calls server.process.world client
  session-Performed bound chunks calls later server client are_calls trees whole bounded small fit
        takes left asks delivers =
      (
        service-Performed sys laws bound chunks calls later server are_calls trees whole bounded
            small fit takes,
        remote_calls-Answered calls client server.process.world are_calls trees left asks delivers,
      )
