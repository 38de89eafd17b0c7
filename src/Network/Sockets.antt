-- ===== src/Network/Sockets.antt =====
-- What the set-up functions of rpc/socket.c and `_init` of rpc/mylib.c make of a new socket.
use remote_file_procedure_ca.Prelude.{◌≡◌, ◌∙◌, refl, ◌⊎◌, inl, inr, ℤ, false, is_neg, Bool-cases}
use remote_file_procedure_ca.Text.{Bytes, codes}
use remote_file_procedure_ca.Network.{
  Network, Address, Outcome, returned, exited, wait_log, af_inet, sock_stream, local_address,
  remote_address, build_client, build_server, init, set_non_blocking, non_blocking, continue,
}

-- The states of a TCP socket, as its system calls move it on.
pub data SocketState : Type 0 where
  unconnected : SocketState
  bound listening connected : Address → SocketState

-- What the code relies on: the state of each socket in the kernel, and how a call that has not failed
-- moves the socket it is about.
pub record SocketLaws {K : Type 0} (net : Network K) : Type 0 where
  pub state_of : K → ℤ → SocketState
  pub socket_law :
      (k : K)
      → is_neg (net.socket af_inet sock_stream 0 k).0 ≡ false
      → state_of (net.socket af_inet sock_stream 0 k).1 (net.socket af_inet sock_stream 0 k).0
        ≡ unconnected
  pub connect_law :
      (k : K) (fd : ℤ) (addr : Address)
      → state_of k fd ≡ unconnected
      → is_neg (net.connect fd addr k).0 ≡ false
      → state_of (net.connect fd addr k).1 fd ≡ connected addr
  pub set_reusable_law : (k : K) (fd : ℤ) → state_of (net.set_reusable fd k).1 fd ≡ state_of k fd
  pub bind_law :
      (k : K) (fd : ℤ) (addr : Address)
      → state_of k fd ≡ unconnected
      → is_neg (net.bind fd addr k).0 ≡ false
      → state_of (net.bind fd addr k).1 fd ≡ bound addr
  pub listen_law :
      (k : K) (fd : ℤ) (addr : Address)
      → state_of k fd ≡ bound addr
      → is_neg (net.listen fd wait_log k).0 ≡ false
      → state_of (net.listen fd wait_log k).1 fd ≡ listening addr
  pub flags_law :
      (k : K) (fd flags : ℤ)
      → (state_of (net.get_flags fd k).1 fd ≡ state_of k fd)
        × (state_of (net.set_flags fd flags k).1 fd ≡ state_of k fd)

-- The function returns what satisfies `Good`, or the process ends with status 1 and one of these
-- messages.
abbrev pub Ends : {K A : Type 0} → (A → K → Type 0) → (Bytes → Type 0) → Outcome K A → Type 0
Ends Good Message (returned a k) = Good a k
Ends Good Message (exited status message k) = (status ≡ 1) × Message message

abbrev pub ClientMessage : Bytes → Type 0
ClientMessage message =
    (message ≡ codes "client socket creation failure")
    ⊎ (message ≡ codes "client fd connect failure")

abbrev pub ServerMessage : Bytes → Type 0
ServerMessage message =
    (message ≡ codes "listen socket creation failure")
    ⊎ (message ≡ codes "listen socket bind failure")
    ⊎ (message ≡ codes "listen socket listen failure")

module _ {K : Type 0} (net : Network K) (laws : SocketLaws net) where
  -- The descriptor is one, and its socket is in this state.
  abbrev pub IsOpen : SocketState → ℤ → K → Type 0
  IsOpen state fd k = (is_neg fd ≡ false) × (laws.state_of k fd ≡ state)

  pub build_client-Ends :
      (k : K) → Ends (IsOpen (connected (remote_address net))) ClientMessage (build_client net k)
  unfolding build_client
  build_client-Ends k =
      let fd = (net.socket af_inet sock_stream 0 k).0 in
      let k1 = (net.socket af_inet sock_stream 0 k).1 in
      let addr = remote_address net in
      elim (Bool-cases (is_neg fd)) [
        | inl bad ↦ rw (bad) (refl, inl refl)
        | inr good ↦ elim (Bool-cases (is_neg (net.connect fd addr k1).0)) [
          | inl bad ↦ rw (good, bad) (refl, inr refl)
          | inr joins ↦
              rw (good, joins) (good, laws.connect_law k1 fd addr (laws.socket_law k good) joins)
        ]
      ]

  -- `build_server` of rpc/socket.c returns a descriptor whose socket listens at the address of the
  -- server, or the process ends with status 1 and one of its three messages. It never returns a
  -- negative number.
  pub build_server-Ends :
      (k : K) → Ends (IsOpen (listening (local_address net))) ServerMessage (build_server net k)
  unfolding build_server
  build_server-Ends k =
      let fd = (net.socket af_inet sock_stream 0 k).0 in
      let k1 = (net.socket af_inet sock_stream 0 k).1 in
      let k2 = (net.set_reusable fd k1).1 in
      let addr = local_address net in
      let k3 = (net.bind fd addr k2).1 in
      elim (Bool-cases (is_neg fd)) [
        | inl bad ↦ rw bad (refl, inl refl)
        | inr good ↦ elim (Bool-cases (is_neg (net.bind fd addr k2).0)) [
          | inl bad ↦ rw (good, bad) (refl, inr (inl refl))
          | inr binds ↦ elim (Bool-cases (is_neg (net.listen fd wait_log k3).0)) [
            | inl bad ↦ rw (good, binds, bad) (refl, inr (inr refl))
            | inr listens ↦
                let fresh = laws.set_reusable_law k1 fd ∙ laws.socket_law k good in
                rw (good, binds, listens)
                  (good, laws.listen_law k3 fd addr (laws.bind_law k2 fd addr fresh binds) listens)
          ]
        ]
      ]

  continue-Ends :
      {A B : Type 0} (Good : A → K → Type 0) (After : B → K → Type 0) (Message : Bytes → Type 0)
      (o : Outcome K A) (rest : A → K → Outcome K B)
      → Ends Good Message o
      → ((a : A) (k : K) → Good a k → Ends After Message (rest a k))
      → Ends After Message (continue o rest)
  continue-Ends Good After Message (returned a k) rest h next = next a k h
  continue-Ends Good After Message (exited status message k) rest h next = h

  -- `_init` of rpc/mylib.c returns with a descriptor whose socket is connected to the address that the
  -- environment names, or the process ends with status 1 and one of the two messages of
  -- `build_client`. Its own test of the descriptor never fails.
  pub init-Ends :
      {F : Type 0} (dlsym : Bytes → F) (k : K)
      → Ends (λ r. IsOpen (connected (remote_address net)) r.0) ClientMessage (init net dlsym k)
  unfolding init set_non_blocking
  init-Ends dlsym k =
      continue-Ends (IsOpen (connected (remote_address net)))
        (λ r. IsOpen (connected (remote_address net)) r.0) ClientMessage (build_client net k) _
        (build_client-Ends k)
        (λ fd k' (good, held).
          let flags = (net.get_flags fd k').0 in
          let k1 = (net.get_flags fd k').1 in
          rw good (
            good,
            (laws.flags_law k1 fd (non_blocking flags)).1 ∙ (laws.flags_law k' fd flags).0 ∙ held,
          ))
