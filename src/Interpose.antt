-- ===== src/Interpose.antt =====
-- interpose/mylib.c, the sample of a preloaded library: it replaces `open` by a function that prints a
-- message and calls the original.
--
-- `dlsym` and the original `open` are parameters. What is written to `stderr` is kept in the state.
use remote_file_procedure_ca.Prelude.{
  ℕ, ◌≡◌, ◌⊎◌, inl, inr, refl, ◌∙◌, sym, Option, none, some, List, [], ◌∷◌, ◌++◌, append-nil,
  append_assoc, All, ℤ, true, Bool-cases, if◌then◌else◌,
}
use remote_file_procedure_ca.Text.{Bytes, codes, c_string}
use remote_file_procedure_ca.Result.{Result, ok, err, bad_memory, ◌>>=◌}
use remote_file_procedure_ca.Server.{Process}
use remote_file_procedure_ca.Client.Stubs.{wants_mode}

-- The type of the original `open`.
abbrev pub Open : Type 0 → Type 0
Open W = Bytes → ℤ → ℕ → Process W → ℤ × Process W

pub record Program (W : Type 0) : Type 0 where
  pub process : Process W
  pub orig_open : Option (Open W)
  pub stderr : Bytes

-- `_init`
unfoldable pub init_interpose : {W : Type 0} → (Bytes → Option (Open W)) → Program W → Program W
init_interpose dlsym program = record program {
  orig_open = dlsym (codes "open");
  stderr = program.stderr ++ codes "Init mylib\n";
}

abbrev pub open_message : Bytes → Bytes
open_message pathname = codes "mylib: open called for path " ++ (c_string pathname ++ codes "\n")

-- `open`, whose third argument is only looked at for `O_CREAT`.
unfoldable pub interposed_open : {W : Type 0} → Program W → Bytes → ℤ → ℕ → Result (ℤ × Program W)
interposed_open program pathname flags mode =
    let m = if wants_mode flags then mode else 0 in
    let printed = program.stderr ++ open_message pathname in
    elim program.orig_open [
      | none ↦ err bad_memory
      | some orig_open ↦
          let (fd, after) = orig_open pathname flags m program.process in
          ok (fd, record program { process = after; stderr = printed })
    ]

-- Calls of `open`, one after the other, with their path, flags and mode.
abbrev pub interposed_opens :
    {W : Type 0} → Program W → List (Bytes × ℤ × ℕ) → Result (List ℤ × Program W)
interposed_opens program [] = ok ([], program)
interposed_opens program ((pathname, flags, mode) ∷ opens) =
    interposed_open program pathname flags mode >>= λ first.
    interposed_opens first.1 opens >>= λ others. ok (first.0 ∷ others.0, others.1)

-- The same without the library.
abbrev pub original_opens :
    {W : Type 0} → Open W → List (Bytes × ℤ × ℕ) → Process W → List ℤ × Process W
original_opens orig_open [] p = ([], p)
original_opens orig_open ((pathname, flags, mode) ∷ opens) p =
    let (fd, after) = orig_open pathname flags mode p in
    let (fds, last) = original_opens orig_open opens after in (fd ∷ fds, last)

abbrev pub open_messages : List (Bytes × ℤ × ℕ) → Bytes
open_messages [] = []
open_messages ((pathname, flags, mode) ∷ opens) = open_message pathname ++ open_messages opens

-- The call has `O_CREAT`, or the original looks at no mode.
abbrev pub NeedsNoMore : {W : Type 0} → Open W → Bytes × ℤ × ℕ → Type 0
NeedsNoMore {W} orig_open (pathname, flags, mode) =
    (wants_mode flags ≡ true)
    ⊎ ((p : Process W) → orig_open pathname flags mode p ≡ orig_open pathname flags 0 p)

module _ {W : Type 0} (orig_open : Open W) where
  same_mode :
      (pathname : Bytes) (flags : ℤ) (mode : ℕ) (p : Process W)
      → NeedsNoMore orig_open (pathname, flags, mode)
      → orig_open pathname flags (if wants_mode flags then mode else 0) p
        ≡ orig_open pathname flags mode p
  same_mode pathname flags mode p (inl wants) = rw wants refl
  same_mode pathname flags mode p (inr same) = elim (Bool-cases (wants_mode flags)) [
    | inl wants ↦ rw wants refl
    | inr plain ↦ rw plain (sym (same p))
  ]

  interposed_open-original :
      (program : Program W) (pathname : Bytes) (flags : ℤ) (mode : ℕ)
      → program.orig_open ≡ some orig_open
      → NeedsNoMore orig_open (pathname, flags, mode)
      → interposed_open program pathname flags mode
        ≡ ok (
          (orig_open pathname flags mode program.process).0,
          record {
            process = (orig_open pathname flags mode program.process).1;
            orig_open = some orig_open;
            stderr = program.stderr ++ open_message pathname;
          },
        )
  unfolding interposed_open
  interposed_open-original program pathname flags mode found enough =
      rw (found, same_mode pathname flags mode program.process enough, interposed_open, found) refl

  -- What the calls return, and the program behind them.
  abbrev pub IsTransparent : List (Bytes × ℤ × ℕ) → Program W → Bytes → Type 0
  IsTransparent opens program printed =
      (after : Program W) × (interposed_opens program opens
        ≡ ok ((original_opens orig_open opens program.process).0, after))
      × (after.process ≡ (original_opens orig_open opens program.process).1)
      × (after.stderr ≡ printed)

  opens-IsTransparent :
      (opens : List (Bytes × ℤ × ℕ)) (program : Program W)
      → program.orig_open ≡ some orig_open
      → All (NeedsNoMore orig_open) opens
      → IsTransparent opens program (program.stderr ++ open_messages opens)
  opens-IsTransparent [] program found enough =
      (program, refl, refl, sym (append-nil program.stderr))
  opens-IsTransparent ((pathname, flags, mode) ∷ opens) program found (first, enough) =
      let r = orig_open pathname flags mode program.process in
      let next : Program W = record {
        process = r.1;
        orig_open = some orig_open;
        stderr = program.stderr ++ open_message pathname;
      } in
      let (after, others, process, stderr) = opens-IsTransparent opens next refl enough in
      (
        after,
        rw (interposed_open-original program pathname flags mode found first, others) refl,
        process,
        stderr ∙ append_assoc program.stderr (open_message pathname) (open_messages opens),
      )

  -- Behind `_init`, where `dlsym` finds the original `open`, any calls of the replaced `open` return what
  -- the original would return for the same arguments, with the same effects, one message for each goes
  -- to `stderr`, and no NULL pointer is called. Each call has `O_CREAT` in its flags, or the original
  -- looks at no mode for it.
  pub init-IsTransparent :
      (dlsym : Bytes → Option (Open W)) (opens : List (Bytes × ℤ × ℕ)) (program : Program W)
      → dlsym (codes "open") ≡ some orig_open
      → All (NeedsNoMore orig_open) opens
      → (after : Program W) × (interposed_opens (init_interpose dlsym program) opens
          ≡ ok ((original_opens orig_open opens program.process).0, after))
        × (after.process ≡ (original_opens orig_open opens program.process).1)
        × (after.stderr ≡ (program.stderr ++ codes "Init mylib\n") ++ open_messages opens)
  unfolding init_interpose
  init-IsTransparent dlsym opens program found enough =
      opens-IsTransparent opens (init_interpose dlsym program) found enough
