-- ===== src/TcpSample/Bounds/Client.antt =====
-- The buffer of tcp-sample/client.c.
use remote_file_procedure_ca.Prelude.{
  ℕ, ◌≡◌, refl, true, ℤ, is_neg, pos_part, inl, inr, Option-cases,
}
use remote_file_procedure_ca.Text.{Bytes, codes}
use remote_file_procedure_ca.Marshall.Print.{has_nul}
use remote_file_procedure_ca.Network.{Network, af_inet, sock_stream}
use remote_file_procedure_ca.Socket.{write_bytes}
use remote_file_procedure_ca.TcpSample.{
  Streams, variable, client_address, terminate, text, recv_into, print_reply, client_main,
  max_msg_len,
}
use remote_file_procedure_ca.TcpSample.Bounds.{
  StreamLaws, IsSafe, IsBuffer, HasReceived, continue-IsSafe, exit_on-IsSafe, terminate-IsSafe,
  text-IsSafe, recv_into-IsSafe,
}

module _ {K : Type 0} (net : Network K) (streams : Streams K) (laws : StreamLaws streams) where
  print_reply-IsSafe :
      (rv : ℤ) (buf : Bytes) (k : K)
      → HasReceived rv buf
      → IsSafe (λ t. Unit {0}) (print_reply net streams rv buf k)
  unfolding print_reply
  print_reply-IsSafe rv buf k received =
      continue-IsSafe (λ b. (has_nul b ≡ true) × IsBuffer b) (λ (t : Unit {0}). Unit {0})
        (terminate (pos_part rv) buf k) _ (terminate-IsSafe rv buf k received)
        (λ b k' (ends, is_buffer).
          continue-IsSafe (λ message. Unit {0}) (λ (t : Unit {0}). Unit {0}) (text b k') _
            (text-IsSafe b k' ends) (λ message k'' t. tt))

  variable-IsSafe :
      (report : Bytes → K → K) (name default : Bytes) (k : K)
      → IsSafe (λ value. Unit {0}) (variable net streams report name default k)
  variable-IsSafe report name default k = elim (Option-cases (net.getenv name)) [
    | inl missing ↦ rw (missing, variable, IsSafe) tt
    | inr (value, found) ↦ rw (found, variable, IsSafe) tt
  ]

  -- The client of tcp-sample/client.c, whatever the network does and whatever the server answers,
  -- neither writes nor reads outside its buffer of `MAXMSGLEN + 1` bytes: it ends with status 0 or
  -- with status 1.
  pub client_main-IsSafe :
      (buf : Bytes) (k : K)
      → IsBuffer buf
      → IsSafe (λ status. status ≡ 0) (client_main net streams buf k)
  unfolding client_main recv_into
  client_main-IsSafe buf k is_buffer =
      let Zero : ℕ → Type 0 = λ status. status ≡ 0 in
      continue-IsSafe (λ value. Unit {0}) Zero _ _
        (variable-IsSafe streams.stdout (codes "server15440") (codes "127.0.0.1") k)
        (λ ip k1 t.
          continue-IsSafe (λ value. Unit {0}) Zero _ _
            (variable-IsSafe streams.stderr (codes "serverport15440") (codes "15440") k1)
            (λ port k2 t'.
              let (sockfd, k3) = net.socket af_inet sock_stream 0 k2 in
              exit_on-IsSafe Zero (is_neg sockfd) k3 _ (λ k4.
                let (connected, k5) = net.connect sockfd (client_address net streams ip port) k4 in
                exit_on-IsSafe Zero (is_neg connected) k5 _ (λ k6.
                  let k7 =
                    streams.stdout (codes "client sending to server: Hello from client\n") k6 in
                  let k8 = (streams.send sockfd (codes "Hello from client") k7).1 in
                  let (rv, stored, k9) = streams.recv sockfd max_msg_len k8 in
                  let buf' = write_bytes 0 stored buf in
                  let received : HasReceived rv buf' =
                    recv_into-IsSafe net streams laws sockfd buf k8 is_buffer in
                  exit_on-IsSafe Zero (is_neg rv) k9 _ (λ k10.
                    continue-IsSafe (λ t''. Unit {0}) Zero (print_reply net streams rv buf' k10) _
                      (print_reply-IsSafe rv buf' k10 received) (λ t'' k11 t3. refl))))))
