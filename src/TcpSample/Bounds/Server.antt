-- ===== src/TcpSample/Bounds/Server.antt =====
-- The buffer of tcp-sample/server.c.
use remote_file_procedure_ca.Prelude.{
  ℕ, zero, suc, ◌≡◌, refl, true, ℤ, pos, is_neg, ltb_ℤ, pos_part, inl, inr, Bool-cases,
}
use remote_file_procedure_ca.Text.{Bytes}
use remote_file_procedure_ca.Marshall.Print.{has_nul}
use remote_file_procedure_ca.Network.{Network, Address, af_inet, sock_stream, htons}
use remote_file_procedure_ca.TcpSample.{
  Streams, sample_port, server_backlog, Life, terminate, text, recv_into, reply, reply_if, converse,
  session, sessions, server_main,
}
use remote_file_procedure_ca.TcpSample.Bounds.{
  StreamLaws, IsSafe, IsBuffer, HasReceived, continue-IsSafe, exit_on-IsSafe, terminate-IsSafe,
  text-IsSafe, recv_into-IsSafe,
}

module _ {K : Type 0} (net : Network K) (streams : Streams K) (laws : StreamLaws streams) where
  reply-IsSafe :
      (sessfd rv : ℤ) (buf : Bytes) (k : K)
      → HasReceived rv buf
      → IsSafe IsBuffer (reply net streams sessfd rv buf k)
  unfolding reply
  reply-IsSafe sessfd rv buf k received =
      continue-IsSafe (λ b. (has_nul b ≡ true) × IsBuffer b) IsBuffer
        (terminate (pos_part rv) buf k) _ (terminate-IsSafe rv buf k received)
        (λ b k' (ends, is_buffer).
          continue-IsSafe (λ message. Unit {0}) IsBuffer (text b k') _ (text-IsSafe b k' ends)
            (λ message k'' t. is_buffer))

  reply_if-IsSafe :
      (next : Bytes → K → Life K (ℤ × Bytes)) (sessfd rv : ℤ) (buf : Bytes) (k : K)
      → HasReceived rv buf
      → ((buf' : Bytes) (k' : K) → IsBuffer buf' → IsSafe (λ r. IsBuffer r.1) (next buf' k'))
      → IsSafe (λ r. IsBuffer r.1) (reply_if net streams next sessfd rv buf k)
  unfolding reply_if
  reply_if-IsSafe next sessfd rv buf k received goes_on = elim (Bool-cases (ltb_ℤ (pos 0) rv)) [
    | inl more ↦
        rw (more, IsSafe)
          (continue-IsSafe IsBuffer (λ (r : ℤ × Bytes). IsBuffer r.1)
            (reply net streams sessfd rv buf k) next (reply-IsSafe sessfd rv buf k received)
            goes_on)
    | inr ended ↦ rw (ended, IsSafe) received.5
  ]

  converse-IsSafe :
      (fuel : ℕ) (sessfd : ℤ) (buf : Bytes) (k : K)
      → IsBuffer buf
      → IsSafe (λ r. IsBuffer r.1) (converse net streams fuel sessfd buf k)
  unfolding converse
  converse-IsSafe zero sessfd buf k is_buffer = tt
  converse-IsSafe (suc fuel) sessfd buf k is_buffer =
      continue-IsSafe (λ r. HasReceived r.0 r.1) (λ (r : ℤ × Bytes). IsBuffer r.1)
        (recv_into net streams sessfd buf k) _
        (recv_into-IsSafe net streams laws sessfd buf k is_buffer)
        (λ (rv, buf') k' received.
          reply_if-IsSafe (λ buf'' k''. converse net streams fuel sessfd buf'' k'') sessfd rv buf'
            k' received (converse-IsSafe fuel sessfd))

  session-IsSafe :
      (fuel : ℕ) (sockfd : ℤ) (buf : Bytes) (k : K)
      → IsBuffer buf
      → IsSafe IsBuffer (session net streams fuel sockfd buf k)
  unfolding session
  session-IsSafe fuel sockfd buf k is_buffer =
      let (sessfd, k1) = net.accept sockfd k in
      exit_on-IsSafe IsBuffer (is_neg sessfd) k1 _ (λ k2.
        continue-IsSafe (λ (r : ℤ × Bytes). IsBuffer r.1) IsBuffer
          (converse net streams fuel sessfd buf k2) _ (converse-IsSafe fuel sessfd buf k2 is_buffer)
          (λ (rv, buf') k3 is_buffer'. exit_on-IsSafe IsBuffer (is_neg rv) k3 _ (λ k4. is_buffer')))

  sessions-IsSafe :
      (n fuel : ℕ) (sockfd : ℤ) (buf : Bytes) (k : K)
      → IsBuffer buf
      → IsSafe IsBuffer (sessions net streams n fuel sockfd buf k)
  unfolding sessions
  sessions-IsSafe zero fuel sockfd buf k is_buffer = is_buffer
  sessions-IsSafe (suc n) fuel sockfd buf k is_buffer =
      continue-IsSafe IsBuffer IsBuffer (session net streams fuel sockfd buf k) _
        (session-IsSafe fuel sockfd buf k is_buffer)
        (λ buf' k' is_buffer'. sessions-IsSafe n fuel sockfd buf' k' is_buffer')

  -- The server of tcp-sample/server.c, whatever the network does and however much each of its clients
  -- sends, neither writes nor reads outside its buffer of `MAXMSGLEN + 1` bytes: it ends with status 0
  -- behind ten clients, or with status 1, or one of its clients goes on sending.
  pub server_main-IsSafe :
      (fuel : ℕ) (buf : Bytes) (k : K)
      → IsBuffer buf
      → IsSafe (λ status. status ≡ 0) (server_main net streams fuel buf k)
  unfolding server_main
  server_main-IsSafe fuel buf k is_buffer =
      let Zero : ℕ → Type 0 = λ status. status ≡ 0 in
      let (sockfd, k1) = net.socket af_inet sock_stream 0 k in
      let addr : Address = record {
        sin_family = af_inet;
        s_addr = 0;
        sin_port = htons (sample_port net streams);
      } in
      exit_on-IsSafe Zero (is_neg sockfd) k1 _ (λ k2.
        let (bound, k3) = net.bind sockfd addr k2 in
        exit_on-IsSafe Zero (is_neg bound) k3 _ (λ k4.
          let (listens, k5) = net.listen sockfd server_backlog k4 in
          exit_on-IsSafe Zero (is_neg listens) k5 _ (λ k6.
            continue-IsSafe IsBuffer Zero (sessions net streams 10 fuel sockfd buf k6) _
              (sessions-IsSafe 10 fuel sockfd buf k6 is_buffer) (λ buf' k7 is_buffer'. refl))))
