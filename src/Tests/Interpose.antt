-- ===== src/Tests/Interpose.antt =====
-- The sample library with an `open` that numbers its descriptors.
use remote_file_procedure_ca.Prelude.{
  ℕ, ◌+◌, ◌≡◌, refl, inl, inr, Option, none, some, List, [], ◌∷◌, ◌++◌, ℤ, pos, ltb, ◌&&◌,
  if◌then◌else◌,
}
use remote_file_procedure_ca.Text.{Bytes, codes}
use remote_file_procedure_ca.Result.{ok}
use remote_file_procedure_ca.Client.Stubs.{wants_mode}
use remote_file_procedure_ca.Interpose.{
  Open, Program, init_interpose, interposed_opens, original_opens, open_messages,
  init-IsTransparent,
}

-- The world is the next descriptor, and a call with `O_CREAT` skips one for a mode that is not 0.
abbrev numbering : Open ℕ
numbering path flags mode p = (
  pos p.world,
  record {
    errno = p.errno;
    world = if wants_mode flags && ltb 0 mode then p.world + 2 else p.world + 1;
  },
)

abbrev only_open : Bytes → Option (Open ℕ)
only_open [] = none
only_open (c ∷ name) = some numbering

abbrev two_opens : List (Bytes × ℤ × ℕ)
two_opens = (codes "f", pos 65, 420) ∷ (codes "g", pos 0, 9) ∷ []

abbrev quiet : Program ℕ
quiet = record { process = record { errno = pos 0; world = 3 }; orig_open = none; stderr = [] }

init-IsTransparent_example :
    (after : Program ℕ) × (interposed_opens (init_interpose only_open quiet) two_opens
      ≡ ok ((original_opens numbering two_opens quiet.process).0, after))
    × (after.process ≡ (original_opens numbering two_opens quiet.process).1)
    × (after.stderr ≡ (quiet.stderr ++ codes "Init mylib\n") ++ open_messages two_opens)
init-IsTransparent_example =
    init-IsTransparent numbering only_open two_opens quiet refl (inl refl, (inr (λ p. refl), tt))
