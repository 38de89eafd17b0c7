-- ===== src/Server/Alike.antt =====
-- The `errno` that the handlers of rpc/server.c find does not matter to what they do: each saves it, puts 0
-- in its place for its call, and puts it back.
use remote_file_procedure_ca.Prelude.{
  ◌+◌, ◌≡◌, refl, sym, ap, ◌∙◌, ℤ, pos, to_size, some, List, [], ◌∷◌, ◌++◌, length, leb,
  Option-cases, inl, inr,
}
use remote_file_procedure_ca.Result.{Result, ok, err, ◌>>=◌, ◌>>◌, require, bad_memory}
use remote_file_procedure_ca.Text.{Bytes, c_string}
use remote_file_procedure_ca.Socket.{storage_size}
use remote_file_procedure_ca.Socket.Write.{send_message, send_errno}
use remote_file_procedure_ca.Marshall.Print.{print_request}
use remote_file_procedure_ca.Marshall.Request.{Request}
use remote_file_procedure_ca.Marshall.Response.{
  Response, serialize_response, init_response, marshall_integral, marshall_pointer,
}
use remote_file_procedure_ca.Marshall.{copy_block}
use remote_file_procedure_ca.Number.{atol}
use remote_file_procedure_ca.Server.{System, Server, with_errno, send_response, param}
use remote_file_procedure_ca.Server.Handlers.{
  local_fd, cleared, size_returned, call_buffer, tree_bytes, serve_open, serve_close, serve_read,
  serve_write, serve_lseek, serve_stat, serve_unlink, serve_getdirentries, serve_getdirtree,
}
use remote_file_procedure_ca.Server.Service.{
  Procedure, open_op, close_op, read_op, write_op, lseek_op, stat_op, unlink_op, getdirentries_op,
  getdirtree_op, procedure_of, serve, dispatch,
}
use remote_file_procedure_ca.Server.Loop.{dispatch_all}

-- The same fault, or the same server up to its own `errno`.
pub record Alike {W : Type 0} (m m' : Result (Server W)) : Type 0 where
  pub same :
      (m >>= λ server. ok (with_errno server (pos 0)))
      ≡ (m' >>= λ server. ok (with_errno server (pos 0)))

module _ {W : Type 0} where
  pub bind-Alike :
      {A : Type 0} (m : Result A) (f g : A → Result (Server W))
      → ((a : A) → Alike (f a) (g a))
      → Alike (m >>= f) (m >>= g)
  bind-Alike (ok a) f g h = h a
  bind-Alike (err fault) f g h = record { same = refl }

  then-Alike :
      {A : Type 0} (m : Result A) (r r' : Result (Server W)) → Alike r r' → Alike (m >> r) (m >> r')
  then-Alike (ok a) r r' h = h
  then-Alike (err fault) r r' h = record { same = refl }

  pub trans-Alike : (a b c : Result (Server W)) → Alike a b → Alike b c → Alike a c
  trans-Alike a b c first second = record { same = first.same ∙ second.same }

  -- Steps that look at no `errno` keep alike what is alike.
  pub chain-Alike :
      (m m' : Result (Server W)) (f : Server W → Result (Server W))
      → Alike m m'
      → ((server : Server W) (errno : ℤ) → Alike (f (with_errno server errno)) (f server))
      → Alike (m >>= f) (m' >>= f)
  chain-Alike (ok a) (ok b) f alike respects =
      let e = alike.same in
      let equal : with_errno a (pos 0) ≡ with_errno b (pos 0) = cc in
      record {
        same =
            sym (respects a (pos 0)).same
            ∙ ap (λ server. f server >>= λ r. ok (with_errno r (pos 0))) equal
            ∙ (respects b (pos 0)).same;
      }
  chain-Alike (ok a) (err fault) f alike respects = let e = alike.same in absurd cc
  chain-Alike (err fault) (ok b) f alike respects = let e = alike.same in absurd cc
  chain-Alike (err fault) (err fault') f alike respects = record { same = alike.same }

  -- Where one of them returns, so does the other.
  pub ok-Alike :
      (m : Result (Server W)) (b : Server W)
      → Alike m (ok b)
      → (a : Server W) × (m ≡ ok a) × (with_errno a (pos 0) ≡ with_errno b (pos 0))
  ok-Alike (ok a) b alike = let e = alike.same in (a, refl, cc)
  ok-Alike (err fault) b alike = let e = alike.same in absurd cc

  -- The end of `send_response`.
  abbrev sent_response : Server W → Bytes → Result (Server W)
  sent_response server stream = ok (record server {
    process = record {
      errno = send_errno server.send_events stream server.process.errno;
      world = server.process.world;
    };
    send_events = (send_message server.send_events stream).events;
    wire = server.wire ++ (send_message server.send_events stream).wire;
  })

  send_response-Alike :
      (server : Server W) (errno : ℤ) (response : Response)
      → Alike (send_response (with_errno server errno) response) (send_response server response)
  unfolding send_response
  send_response-Alike server errno response = bind-Alike (serialize_response response) _ _ λ stream.
      then-Alike (require (leb (length stream) (storage_size + 1)) bad_memory) _ _ (
        bind-Alike (send_message server.send_events stream).result
          (λ done. sent_response (with_errno server errno) stream)
          (λ done. sent_response server stream) λ done. record { same = refl })

module _ {W : Type 0} (sys : System W) where
  serve-Alike :
      (procedure : Procedure) (server : Server W) (errno : ℤ) (request : Request)
      → Alike
          (serve sys procedure (with_errno server errno) request)
          (serve sys procedure server request)
  unfolding serve serve_open serve_close serve_read serve_write serve_lseek serve_stat serve_unlink
      serve_getdirentries serve_getdirtree
  serve-Alike open_op server errno request = bind-Alike (param request 1) _ _ λ flags.
      bind-Alike (param request 2) _ _ λ mode.
        bind-Alike (param request 0) _ _
          λ path. bind-Alike _ _ _ λ response. send_response-Alike _ errno response
  serve-Alike close_op server errno request =
      bind-Alike (param request 0) _ _
        λ fd. bind-Alike _ _ _ λ response. send_response-Alike _ errno response
  serve-Alike read_op server errno request = bind-Alike (param request 0) _ _ λ text0.
      bind-Alike (param request 2) _ _ λ text2.
        let r = sys.sys_read (local_fd text0) (to_size (atol text2)) (cleared server) in
        bind-Alike (marshall_integral (init_response r.2.errno (pos 2)) 0 r.0) _ _
          λ (value0 : Response).
            bind-Alike _ _ _ λ (value1 : Response). send_response-Alike _ errno value1
  serve-Alike write_op server errno request = bind-Alike (param request 0) _ _ λ text0.
      bind-Alike (param request 2) _ _ λ text2. bind-Alike (param request 1) _ _ λ text1.
        bind-Alike (copy_block (some text1) (to_size (atol text2))) _ _ λ (value0 : Bytes).
          bind-Alike _ _ _ λ (value1 : Response). send_response-Alike _ errno value1
  serve-Alike lseek_op server errno request = bind-Alike (param request 0) _ _ λ text0.
      bind-Alike (param request 1) _ _ λ text1.
        bind-Alike (param request 2) _ _
          λ text2. bind-Alike _ _ _ λ (value0 : Response). send_response-Alike _ errno value0
  serve-Alike stat_op server errno request = bind-Alike (param request 0) _ _ λ text0.
      let r = sys.sys_stat (c_string text0) (cleared server) in
      bind-Alike (marshall_integral (init_response r.2.errno (pos 2)) 0 r.0) _ _
        λ (value0 : Response).
          bind-Alike _ _ _ λ (value1 : Response). send_response-Alike _ errno value1
  serve-Alike unlink_op server errno request =
      bind-Alike (param request 0) _ _
        λ text0. bind-Alike _ _ _ λ (value0 : Response). send_response-Alike _ errno value0
  serve-Alike getdirentries_op server errno request = bind-Alike (param request 0) _ _ λ text0.
      bind-Alike (param request 1) _ _ λ text1. bind-Alike (param request 2) _ _ λ text2.
        let r =
          sys.sys_getdirentries (local_fd text0) (to_size (atol text1)) (atol text2)
            (cleared server) in
        bind-Alike (marshall_integral (init_response r.3.errno (pos 3)) 0 r.0) _ _
          λ (value0 : Response).
            bind-Alike
              (marshall_pointer value0 1 (call_buffer (to_size (atol text1)) r.1)
                (size_returned r.0))
              _ _
              λ (value1 : Response).
                bind-Alike _ _ _ λ (value2 : Response). send_response-Alike _ errno value2
  serve-Alike getdirtree_op server errno request = bind-Alike (param request 0) _ _ λ text0.
      bind-Alike (tree_bytes (sys.sys_getdirtree (c_string text0) (cleared server)).0) _ _
        λ (value0 : Bytes).
          bind-Alike _ _ _ λ (value1 : Response). send_response-Alike _ errno value1

  pub dispatch-Alike :
      (server : Server W) (errno : ℤ) (request : Request)
      → Alike (dispatch sys (with_errno server errno) request) (dispatch sys server request)
  unfolding dispatch
  dispatch-Alike server errno request = elim (Option-cases (procedure_of request.command_op)) [
    | inl unknown ↦
        rw (unknown, dispatch) (then-Alike (print_request request) _ _ (record { same = refl }))
    | inr (procedure, known) ↦ rw (known, dispatch) (serve-Alike procedure server errno request)
  ]

  pub dispatch_all-Alike :
      (requests : List Request) (server : Server W) (errno : ℤ)
      → Alike
          (dispatch_all sys (with_errno server errno) requests)
          (dispatch_all sys server requests)
  dispatch_all-Alike [] server errno = record { same = refl }
  dispatch_all-Alike (request ∷ requests) server errno =
      chain-Alike (dispatch sys (with_errno server errno) request) (dispatch sys server request)
        (λ server'. dispatch_all sys server' requests) (dispatch-Alike server errno request)
        (dispatch_all-Alike requests)
