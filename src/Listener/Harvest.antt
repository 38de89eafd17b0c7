-- ===== src/Listener/Harvest.antt =====
-- What `main` of rpc/server.c relies on, and its harvest of children that have ended.
use remote_file_procedure_ca.Prelude.{
  ℕ, zero, suc, ◌<◌, ◌≤◌, ◌≡◌, refl, ◌∙◌, some, List, [], ◌∷◌, ℤ, pos, negsuc, is_neg, eqb_ℤ, ltb_ℤ,
  if◌then◌else◌, arith, inl, inr, Bool-cases, true, false,
}
use remote_file_procedure_ca.Network.{Network, Address, af_inet, sock_stream, wait_log}
use remote_file_procedure_ca.Listener.{harvest, Connections}
use remote_file_procedure_ca.Server.{System}

-- The list without the first `fd` of it.
abbrev pub remove : ℤ → List ℤ → List ℤ
remove fd [] = []
remove fd (x ∷ fds) = let rest = remove fd fds in if eqb_ℤ x fd then fds else x ∷ rest

-- What the kernel knows of the process that runs: its open descriptors, the newest first, and the
-- number of its children that have not been waited for.
pub record View (K : Type 0) : Type 0 where
  pub opened : K → List ℤ
  pub children : K → ℕ

-- Neither of the two changes.
abbrev pub Keeps : {K : Type 0} → View K → K → K → Type 0
Keeps view k k' = (view.opened k' ≡ view.opened k) × (view.children k' ≡ view.children k)

pub record ProcessLaws {K : Type 0} (net : Network K) (view : View K) : Type 0 where
  pub socket_opens :
      (k : K)
      → is_neg (net.socket af_inet sock_stream 0 k).0 ≡ false
      → (view.opened (net.socket af_inet sock_stream 0 k).1
          ≡ (net.socket af_inet sock_stream 0 k).0 ∷ view.opened k)
        × (view.children (net.socket af_inet sock_stream 0 k).1 ≡ view.children k)
  pub set_reusable_keeps : (k : K) (fd : ℤ) → Keeps view k (net.set_reusable fd k).1
  pub bind_keeps : (k : K) (fd : ℤ) (addr : Address) → Keeps view k (net.bind fd addr k).1
  pub listen_keeps : (k : K) (fd : ℤ) → Keeps view k (net.listen fd wait_log k).1
  pub accept_opens :
      (k : K) (fd : ℤ)
      → is_neg (net.accept fd k).0 ≡ false
      → (view.opened (net.accept fd k).1 ≡ (net.accept fd k).0 ∷ view.opened k)
        × (view.children (net.accept fd k).1 ≡ view.children k)
  pub get_flags_keeps : (k : K) (fd : ℤ) → Keeps view k (net.get_flags fd k).1
  pub set_flags_keeps : (k : K) (fd flags : ℤ) → Keeps view k (net.set_flags fd flags k).1
  pub close_removes :
      (k : K) (fd : ℤ)
      → (view.opened (net.close fd k).1 ≡ remove fd (view.opened k))
        × (view.children (net.close fd k).1 ≡ view.children k)
  pub fork_copies :
      (k : K)
      → (view.opened (net.fork k).1 ≡ view.opened k)
        × (view.children (net.fork k).1 ≤ suc (view.children k))
  pub waitpid_removes :
      (k : K)
      → ltb_ℤ (pos 0) (net.waitpid k).0 ≡ true
      → (view.opened (net.waitpid k).1 ≡ view.opened k)
        × (suc (view.children (net.waitpid k).1) ≡ view.children k)
  pub waitpid_keeps :
      (k : K) → ltb_ℤ (pos 0) (net.waitpid k).0 ≡ false → Keeps view k (net.waitpid k).1

pub eqb_ℤ→≡ : (a b : ℤ) → eqb_ℤ a b ≡ true → a ≡ b
eqb_ℤ→≡ (pos a) (pos b) h = ground arith
eqb_ℤ→≡ (pos a) (negsuc b) h = ground arith
eqb_ℤ→≡ (negsuc a) (pos b) h = ground arith
eqb_ℤ→≡ (negsuc a) (negsuc b) h = ground arith

pub eqb_ℤ-refl : (a : ℤ) → eqb_ℤ a a ≡ true
eqb_ℤ-refl (pos a) = ground arith
eqb_ℤ-refl (negsuc a) = ground arith

-- The first of two.
pub remove-head : (a : ℤ) (fds : List ℤ) → remove a (a ∷ fds) ≡ fds
remove-head a fds = rw (eqb_ℤ-refl a) refl

-- The second of two.
pub remove-second : (a b : ℤ) (fds : List ℤ) → remove b (a ∷ b ∷ fds) ≡ a ∷ fds
remove-second a b fds = elim (Bool-cases (eqb_ℤ a b)) [
  | inl same ↦ rw (same, eqb_ℤ→≡ a b same) refl
  | inr differ ↦ rw (differ, eqb_ℤ-refl b) refl
]

module _ {K W : Type 0} (net : Network K) (sys : System W) (peers : Connections K W) (view : View K)
    (laws : ProcessLaws net view) where
  -- With more fuel than the process has children, the harvest ends. It leaves the descriptors as they
  -- are, and then no child that has ended is left.
  pub harvest-enough_fuel :
      (f : ℕ) (k : K)
      → view.children k < f
      → (k' : K) × (harvest net sys peers f k ≡ some k')
        × (view.opened k' ≡ view.opened k)
        × (view.children k' ≤ view.children k)
        × ((last : K) × (ltb_ℤ (pos 0) (net.waitpid last).0 ≡ false) × ((net.waitpid last).1 ≡ k'))
  unfolding harvest
  harvest-enough_fuel zero k small = absurd (omega arith)
  harvest-enough_fuel (suc f) k small = elim (Bool-cases (ltb_ℤ (pos 0) (net.waitpid k).0)) [
    | inl ended ↦
        let (kept, fewer) = laws.waitpid_removes k ended in
        let (k', done, same, le, last) = harvest-enough_fuel f (net.waitpid k).1 (omega arith) in
        (k', rw ended done, same ∙ kept, omega arith, last)
    | inr none_left ↦
        let (kept, same) = laws.waitpid_keeps k none_left in
        ((net.waitpid k).1, rw none_left refl, kept, omega arith, (k, none_left, refl))
  ]
