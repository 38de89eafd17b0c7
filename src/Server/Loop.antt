-- ===== src/Server/Loop.antt =====
-- The inner loop of `service` of rpc/server.c, on a buffer with several requests.
use remote_file_procedure_ca.Prelude.{
  ℕ, zero, suc, ◌+◌, ◌<◌, ◌≤◌, ◌^◌, ◌≡◌, refl, ◌∙◌, some, List, [], ◌∷◌, ◌++◌, append_assoc, arith,
  length, length-append,
}
use remote_file_procedure_ca.Text.{Bytes}
use remote_file_procedure_ca.Result.{Result, ok, err, ◌>>=◌}
use remote_file_procedure_ca.Marshall.Request.{Request, deserialize_request}
use remote_file_procedure_ca.Socket.{Storage}
use remote_file_procedure_ca.Socket.Write.Stream.{message_header}
use remote_file_procedure_ca.Socket.Message.{parse_message}
use remote_file_procedure_ca.Socket.Message.Memory.{Holds}
use remote_file_procedure_ca.Socket.Message.Whole.{parse_message-whole}
use remote_file_procedure_ca.Socket.Message.Partial.{parse_message-partial}
use remote_file_procedure_ca.Server.{System, Server}
use remote_file_procedure_ca.Server.Service.{dispatch, serve_messages}

-- Messages one behind the other.
abbrev pub framed : List Bytes → Bytes
framed [] = []
framed (c ∷ cs) = (message_header c ++ c) ++ framed cs

-- The contents are those of these requests.
abbrev pub Decoded : List Bytes → List Request → Type 0
Decoded [] [] = Unit
Decoded [] (r ∷ rs) = ⊥
Decoded (c ∷ cs) [] = ⊥
Decoded (c ∷ cs) (r ∷ rs) =
    (length c < 2 ^ 31) × (deserialize_request (c ++ 0 ∷ []) ≡ ok r) × Decoded cs rs

-- The first bytes of a message, but not all of it.
abbrev pub IsPart : Bytes → Type 0
IsPart part =
    (content : Bytes) × (more : Bytes) × (length content < 2 ^ 31)
    × (part ++ more ≡ message_header content ++ content)
    × (0 < length more)

length-framed : (cs : List Bytes) → length cs ≤ length (framed cs)
unfolding message_header
length-framed [] = omega arith
length-framed (c ∷ cs) = omega (
  arith,
  length-framed cs,
  length-append (message_header c ++ c) (framed cs),
  length-append (message_header c) c,
)

module _ {W : Type 0} (sys : System W) where
  -- The requests one after the other.
  abbrev pub dispatch_all : Server W → List Request → Result (Server W)
  dispatch_all server [] = ok server
  dispatch_all server (r ∷ rs) = dispatch sys server r >>= λ server'. dispatch_all server' rs

  serve_message :
      (f : ℕ) (server : Server W) (s s' : Storage) (bytes : Bytes) (r : Request)
      → parse_message s ≡ ok (some bytes, s')
      → deserialize_request bytes ≡ ok r
      → serve_messages sys (suc f) server s
        ≡ (dispatch sys server r >>= λ server'. serve_messages sys f server' s')
  unfolding serve_messages
  serve_message f server s s' bytes r found reads = rw (found, serve_messages, reads) refl

  bind_assoc :
      (m : Result (Server W)) (rs : List Request) (f : ℕ) (s s'' : Storage)
      → ((server' : Server W)
          → serve_messages sys f server' s ≡ (dispatch_all server' rs >>= λ done. ok (done, s'')))
      → (m >>= λ server'. serve_messages sys f server' s)
        ≡ ((m >>= λ server'. dispatch_all server' rs) >>= λ done. ok (done, s''))
  bind_assoc (ok server') rs f s s'' h = h server'
  bind_assoc (err e) rs f s s'' h = refl

  serve_messages-part :
      (f : ℕ) (server : Server W) (s : Storage) (part : Bytes)
      → IsPart part
      → Holds s part
      → serve_messages sys (suc f) server s ≡ ok (server, s)
  unfolding serve_messages
  serve_messages-part f server s part (content, more, small, split, missing) held =
      rw (parse_message-partial s content part more small held split missing)

  serve_messages-framed :
      (cs : List Bytes) (rs : List Request) (f : ℕ) (s : Storage) (part : Bytes)
      → Decoded cs rs
      → IsPart part
      → Holds s (framed cs ++ part)
      → s.size < 2 ^ 64
      → length cs < f
      → (s' : Storage) × Holds s' part
        × ((server : Server W)
            → serve_messages sys f server s ≡ (dispatch_all server rs >>= λ done. ok (done, s')))
  serve_messages-framed cs rs zero s part decoded is_part held small enough = absurd (omega arith)
  serve_messages-framed [] [] (suc f) s part decoded is_part held small enough =
      (s, held, λ server. serve_messages-part f server s part is_part held)
  serve_messages-framed [] (r ∷ rs) (suc f) s part decoded is_part held small enough =
      absurd decoded
  serve_messages-framed (c ∷ cs) [] (suc f) s part decoded is_part held small enough =
      absurd decoded
  serve_messages-framed (c ∷ cs) (r ∷ rs) (suc f) s part (c_small, reads, decoded) is_part held
        small enough =
      let regroup : ((message_header c ++ c) ++ framed cs) ++ part
          ≡ (message_header c ++ c) ++ (framed cs ++ part) =
        append_assoc (message_header c ++ c) (framed cs) part in
      let held_c : Holds s ((message_header c ++ c) ++ (framed cs ++ part)) = rw regroup at held in
      let (s', found, held') = parse_message-whole s c (framed cs ++ part) c_small held_c small in
      let shorter : s'.size < 2 ^ 64 =
        omega
          (arith, held'.2, held_c.2, length-append (message_header c ++ c) (framed cs ++ part)) in
      let (s'', held'', served) =
        serve_messages-framed cs rs f s' part decoded is_part held' shorter (omega arith) in
      (
        s'',
        held'',
        λ server.
            serve_message f server s s' (c ++ 0 ∷ []) r found reads
            ∙ bind_assoc (dispatch sys server r) rs f s' s'' served,
      )

  -- Where the buffer holds any number of whole requests and the first part of one more message, the
  -- inner loop of `service` serves the requests in order, each as `dispatch` does, stops at the first
  -- fault, and otherwise ends within its fuel, with the part of the last message in the buffer.
  pub serve_messages-all :
      (cs : List Bytes) (rs : List Request) (server : Server W) (s : Storage) (part : Bytes)
      → Decoded cs rs
      → IsPart part
      → Holds s (framed cs ++ part)
      → s.size < 2 ^ 64
      → (s' : Storage) × Holds s' part
        × (serve_messages sys (s.size + 1) server s
            ≡ (dispatch_all server rs >>= λ done. ok (done, s')))
  serve_messages-all cs rs server s part decoded is_part held small =
      let (s', held', served) =
        serve_messages-framed cs rs (s.size + 1) s part decoded is_part held small
          (omega (arith, held.2, length-framed cs, length-append (framed cs) part)) in
      (s', held', served server)
