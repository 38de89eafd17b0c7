-- ===== src/Connection/Stream.antt =====
-- `service` of rpc/server.c on a stream of requests that the network cuts up as it likes.
use remote_file_procedure_ca.Prelude.{
  ℕ, ◌+◌, ◌<◌, ◌≤◌, ◌≡◌, refl, sym, ap, ◌∙◌, List, [], ◌∷◌, ◌++◌, append_assoc, append_cancel_left,
  split_longer, arith, length, length-append, All, inl, inr, leb, leb→le, leb_false→lt, Bool-cases,
}
use remote_file_procedure_ca.Text.{Bytes}
use remote_file_procedure_ca.Result.{Result, ok, err, ◌>>=◌}
use remote_file_procedure_ca.Marshall.Request.{Request}
use remote_file_procedure_ca.Socket.{empty_storage, storage_size, errno_number, eagain}
use remote_file_procedure_ca.Socket.Read.{RecvEvent}
use remote_file_procedure_ca.Socket.Write.Stream.{message_header}
use remote_file_procedure_ca.Server.{System, Server, with_errno}
use remote_file_procedure_ca.Server.Alike.{
  Alike, trans-Alike, bind-Alike, chain-Alike, dispatch_all-Alike,
}
use remote_file_procedure_ca.Server.Service.{dispatch, service}
use remote_file_procedure_ca.Server.Loop.{framed, Decoded, IsPart, dispatch_all}
use remote_file_procedure_ca.Client.Waiting.{joined}
use remote_file_procedure_ca.Connection.{Arrives, closing, dispatch_rounds, service-all}

abbrev message : Bytes → Bytes
message c = message_header c ++ c

-- The whole messages have at most `bound` bytes each.
abbrev pub AreBounded : ℕ → List Bytes → Type 0
AreBounded bound = All (λ c. length (message_header c ++ c) ≤ bound)

-- What has arrived is shorter than the first of these messages.
abbrev IsShort : Bytes → List Bytes → Type 0
IsShort part [] = Unit
IsShort part (c ∷ cs) = length part < length (message c)

nothing-IsShort : (cs : List Bytes) → IsShort [] cs
unfolding message_header
nothing-IsShort [] = tt
nothing-IsShort (c ∷ cs) = omega (arith, length-append (message_header c) c)

-- The stream, of which `p` has arrived and `rest` has not, as messages that are whole in `p`, and
-- those that are not.
record Cut (bound : ℕ) (p rest : Bytes) (rs : List Request) (tail : Bytes) : Type 0 where
  whole : List Bytes
  later : List Bytes
  served : List Request
  coming : List Request
  part : Bytes
  requests : rs ≡ served ++ coming
  arrived : p ≡ framed whole ++ part
  stream : part ++ rest ≡ framed later ++ tail
  whole_decoded : Decoded whole served
  later_decoded : Decoded later coming
  is_part : IsPart part
  is_short : IsShort part later
  bounded : length part ≤ bound
  later_bounded : AreBounded bound later

shorter-IsPart : (p rest tail : Bytes) → p ++ rest ≡ tail → IsPart tail → IsPart p
shorter-IsPart p rest tail e (content, more, small, split, missing) = (
  content,
  rest ++ more,
  small,
  sym (append_assoc p rest more) ∙ ap (λ l. l ++ more) e ∙ split,
  omega (arith, length-append rest more),
)

stream-Cut :
    (bound : ℕ) (cs : List Bytes) (rs : List Request) (p rest tail : Bytes)
    → p ++ rest ≡ framed cs ++ tail
    → Decoded cs rs
    → AreBounded bound cs
    → IsPart tail
    → length tail ≤ bound
    → Cut bound p rest rs tail
stream-Cut bound [] [] p rest tail e decoded bounded is_part le = record {
  whole = [];
  later = [];
  served = [];
  coming = [];
  part = p;
  requests = refl;
  arrived = refl;
  stream = e;
  whole_decoded = tt;
  later_decoded = tt;
  is_part = shorter-IsPart p rest tail e is_part;
  is_short = tt;
  bounded = omega (arith, length-append p rest, ap length e);
  later_bounded = tt;
}
stream-Cut bound [] (r ∷ rs) p rest tail e decoded bounded is_part le = absurd decoded
stream-Cut bound (c ∷ cs) [] p rest tail e decoded bounded is_part le = absurd decoded
stream-Cut bound (c ∷ cs) (r ∷ rs) p rest tail e (small, reads, decoded) (first, bounded) is_part
      le =
    let e' : p ++ rest ≡ message c ++ (framed cs ++ tail) =
      e ∙ append_assoc (message c) (framed cs) tail in
    elim (Bool-cases (leb (length (message c)) (length p))) [
      | inl long ↦
          let (t, p_eq) =
            split_longer (message c) p rest (framed cs ++ tail) e'
              (leb→le (length (message c)) (length p) long) in
          let goes_on : t ++ rest ≡ framed cs ++ tail =
            append_cancel_left (message c) (t ++ rest) (framed cs ++ tail)
              (sym (append_assoc (message c) t rest) ∙ ap (λ l. l ++ rest) (sym p_eq) ∙ e') in
          let cut = stream-Cut bound cs rs t rest tail goes_on decoded bounded is_part le in
          record {
            whole = c ∷ cut.whole;
            later = cut.later;
            served = r ∷ cut.served;
            coming = cut.coming;
            part = cut.part;
            requests = ap (λ l. r ∷ l) cut.requests;
            arrived =
                p_eq
                ∙ ap (λ l. message c ++ l) cut.arrived
                ∙ sym (append_assoc (message c) (framed cut.whole) cut.part);
            stream = cut.stream;
            whole_decoded = (small, reads, cut.whole_decoded);
            later_decoded = cut.later_decoded;
            is_part = cut.is_part;
            is_short = cut.is_short;
            bounded = cut.bounded;
            later_bounded = cut.later_bounded;
          }
      | inr short ↦
          let missing = leb_false→lt (length (message c)) (length p) short in
          let (t, whole_eq) =
            split_longer p (message c) (framed cs ++ tail) rest (sym e') (omega (arith, missing)) in
          record {
            whole = [];
            later = c ∷ cs;
            served = [];
            coming = r ∷ rs;
            part = p;
            requests = refl;
            arrived = refl;
            stream = e;
            whole_decoded = tt;
            later_decoded = (small, reads, decoded);
            is_part = (
              c,
              t,
              small,
              sym whole_eq,
              omega (arith, missing, length-append p t, ap length whole_eq),
            );
            is_short = missing;
            bounded = omega (arith, missing, first);
            later_bounded = (first, bounded);
          }
    ]

bind_then :
    {A B C : Type 0} (m : Result A) (f : A → Result C) (g : A → Result B) (h : B → Result C)
    → ((a : A) → f a ≡ (g a >>= h))
    → (m >>= f) ≡ ((m >>= g) >>= h)
bind_then (ok a) f g h e = e a
bind_then (err fault) f g h e = refl

module _ {W : Type 0} (sys : System W) where
  dispatch_all-append :
      (rs rs' : List Request) (server : Server W)
      → dispatch_all sys server (rs ++ rs')
        ≡ (dispatch_all sys server rs >>= λ server'. dispatch_all sys server' rs')
  dispatch_all-append [] rs' server = refl
  dispatch_all-append (r ∷ rs) rs' server =
      bind_then (dispatch sys server r) _ _ _ (dispatch_all-append rs rs')

  -- A round of `service` and the rounds behind it, which begin with an `errno` of their own.
  round-Alike :
      (served coming : List Request) (rounds : List (List Request)) (server : Server W)
      → ((server' : Server W)
          → Alike (dispatch_rounds sys server' rounds) (dispatch_all sys server' coming))
      → Alike
          (dispatch_rounds sys server (served ∷ rounds))
          (dispatch_all sys server served >>= λ server'. dispatch_all sys server' coming)
  round-Alike served coming rounds server later =
      let starts = dispatch_all sys (with_errno server (errno_number eagain)) served in
      trans-Alike (starts >>= λ server'. dispatch_rounds sys server' rounds)
        (starts >>= λ server'. dispatch_all sys server' coming)
        (dispatch_all sys server served >>= λ server'. dispatch_all sys server' coming)
        (bind-Alike starts (λ server'. dispatch_rounds sys server' rounds)
          (λ server'. dispatch_all sys server' coming) later)
        (chain-Alike starts (dispatch_all sys server served)
          (λ server'. dispatch_all sys server' coming)
          (dispatch_all-Alike sys served server (errno_number eagain))
          (dispatch_all-Alike sys coming))

  -- The rounds in which the stream arrives, and the requests of all of them in order.
  stream-Arrives :
      (bound : ℕ) (chunks cs : List Bytes) (rs : List Request) (part tail : Bytes)
      → part ++ joined chunks ≡ framed cs ++ tail
      → Decoded cs rs
      → AreBounded bound cs
      → IsPart tail
      → length tail ≤ bound
      → length part ≤ bound
      → IsShort part cs
      → All (λ chunk. bound + length chunk < storage_size) chunks
      → (rounds : List (List Request)) × Arrives part chunks rounds
        × ((server : Server W)
            → Alike (dispatch_rounds sys server rounds) (dispatch_all sys server rs))
  stream-Arrives bound [] [] [] part tail e decoded bounded is_part le small short fit =
      ([], tt, λ server. record { same = refl })
  stream-Arrives bound [] [] (r ∷ rs) part tail e decoded bounded is_part le small short fit =
      absurd decoded
  stream-Arrives bound [] (c ∷ cs) rs part tail e decoded bounded is_part le small short fit =
      absurd (
        omega (
          arith,
          short,
          ap length e,
          length-append part [],
          length-append (framed (c ∷ cs)) tail,
          length-append (message c) (framed cs),
        ))
  stream-Arrives bound (chunk ∷ chunks) cs rs part tail e decoded bounded is_part le small short
        (fits, fit) =
      let cut =
        stream-Cut bound cs rs (part ++ chunk) (joined chunks) tail
          (append_assoc part chunk (joined chunks) ∙ e) decoded bounded is_part le in
      let (rounds, arrives, dispatched) =
        stream-Arrives bound chunks cut.later cut.coming cut.part tail cut.stream cut.later_decoded
          cut.later_bounded is_part le cut.bounded cut.is_short fit in
      (
        cut.served ∷ rounds,
        (
          cut.whole,
          cut.part,
          cut.arrived,
          cut.whole_decoded,
          cut.is_part,
          omega (arith, length-append part chunk),
          arrives,
        ),
        λ server.
            rw (cut.requests, dispatch_all-append cut.served cut.coming server)
              (round-Alike cut.served cut.coming rounds server dispatched),
      )

  -- The whole life of a connection. Where the stream that the client sends is any number of requests
  -- and the first bytes of one more, and the network brings it in chunks, cut anywhere, `service`
  -- serves all whole requests in order, each as `dispatch` does, stops at the first fault, and
  -- otherwise ends when the client closes the connection. No message has more than `bound` bytes, and
  -- so many and a chunk are fewer than `STORAGE_SIZE`. The outcome is the same up to the server's own
  -- `errno`, in which each `recv` leaves EAGAIN, and which the handlers do not look at.
  pub service-stream :
      (bound : ℕ) (chunks cs : List Bytes) (rs : List Request) (tail : Bytes)
      (later : List (List RecvEvent)) (server : Server W)
      → joined chunks ≡ framed cs ++ tail
      → Decoded cs rs
      → AreBounded bound cs
      → IsPart tail
      → length tail ≤ bound
      → All (λ chunk. bound + length chunk < storage_size) chunks
      → Alike
          (service sys (closing chunks later) [] server empty_storage)
          (dispatch_all sys server rs)
  service-stream bound chunks cs rs tail later server e decoded bounded is_part le fit =
      let (rounds, arrives, dispatched) =
        stream-Arrives bound chunks cs rs [] tail e decoded bounded is_part le (omega arith)
          (nothing-IsShort cs) fit in
      rw (service-all sys chunks rounds later server arrives) (dispatched server)
