-- ===== src/Cli/Run/Laws.antt =====
-- What the commands of crates/krcm-cli/src/main.rs do to the files.
use krcm_spn.Base.{
  Bool, Bool-cases, Bytes, Option, Outcome, ap, diverged, err, false, inl, inr, io, none, ok, panic,
  refl, some, some-injective, sym, ℕ, ◌∙◌, ◌≡◌, ◌≢◌, ◌⊎◌,
}
use krcm_spn.Cli.Files.{FileSystem, IsLawful}
use krcm_spn.Cli.Files.Atomic.{IsAtomic, atomic_write-IsAtomic}
use krcm_spn.Cli.Files.Write.{atomic_write, ensure_output_available}
use krcm_spn.Cli.Options.{Command, bench, decrypt, encrypt, info, migrate, self_test}
use krcm_spn.Cli.Run.{decrypt_file, deliver, encrypt_file, migrate_file, run}
use krcm_spn.Json.{Base64, Json}
use krcm_spn.Primitives.{Primitives, Rng}

module _ {FilePath : Type 0} where
  -- The file that a command writes, and whether it may replace one.
  abbrev pub target : Command FilePath → Option FilePath
  target (encrypt args) = some args.output
  target (decrypt input output force) = some output
  target (info input) = none
  target (migrate input output force to_version) = some output
  target self_test = none
  target bench = none

  abbrev pub is_forced : Command FilePath → Bool
  is_forced (encrypt args) = args.force
  is_forced (decrypt input output force) = force
  is_forced (info input) = false
  is_forced (migrate input output force to_version) = force
  is_forced self_test = false
  is_forced bench = false

other_target {ℓ κ} :
    {A : Type ℓ} {FilePath : Type κ} {p q : FilePath}
    → A ⊎ (◌≢◌ {A = Option FilePath} (some p) (some q))
    → A ⊎ (q ≢ p)
other_target (inl a) = inl a
other_target (inr d) = inr (λ e. d (ap some (sym e)))

module _ (F : FileSystem) (L : IsLawful F) where
  open L use {content}

  IsAtomic-keeps :
      (path : F.FilePath) (bytes : Bytes) (s : F.State) (r : Outcome (Unit {0}) × F.State)
      (q : F.FilePath)
      → IsAtomic F L path bytes s r
      → content s q ≢ none
      → (r.0 ≢ ok tt) ⊎ (q ≢ path)
      → content r.1 q ≡ content s q
  IsAtomic-keeps path bytes s (ok done, t) q (there, others) was (inl bad) = absurd (bad refl)
  IsAtomic-keeps path bytes s (ok done, t) q (there, others) was (inr other) = others q other
  IsAtomic-keeps path bytes s (err e, t) q kept was h = kept q was
  IsAtomic-keeps path bytes s (panic, t) q kept was h = kept q
  IsAtomic-keeps path bytes s (diverged, t) q kept was h = kept q

  deliver-keeps :
      (tries : ℕ) (output : F.FilePath) (force : Bool) (r : Outcome Bytes) (s : F.State)
      (q : F.FilePath)
      → content s q ≢ none
      → ((deliver F tries output force r s).0 ≢ ok tt) ⊎ (q ≢ output)
      → content (deliver F tries output force r s).1 q ≡ content s q
  deliver-keeps tries output force (ok bytes) s q was h =
      IsAtomic-keeps output bytes s (atomic_write F tries output bytes force s) q
        (atomic_write-IsAtomic F L tries output bytes force s) was h
  deliver-keeps tries output force (err e) s q was h = refl
  deliver-keeps tries output force panic s q was h = refl
  deliver-keeps tries output force diverged s q was h = refl

  -- What a successful delivery has written.
  pub deliver-written :
      (tries : ℕ) (output : F.FilePath) (force : Bool) (r : Outcome Bytes) (s : F.State)
      → (deliver F tries output force r s).0 ≡ ok tt
      → (bytes : Bytes) × (r ≡ ok bytes)
        × (content (deliver F tries output force r s).1 output ≡ some bytes)
  deliver-written tries output force (ok bytes) s e = (
    bytes,
    refl,
    written (atomic_write F tries output bytes force s)
        (atomic_write-IsAtomic F L tries output bytes force s) e,
  )
    where
      written :
          (r : Outcome (Unit {0}) × F.State)
          → IsAtomic F L output bytes s r
          → r.0 ≡ ok tt
          → content r.1 output ≡ some bytes
      written (ok done, t) h e = h.0
      written (err why, t) h e = cc
      written (panic, t) h e = cc
      written (diverged, t) h e = cc
  deliver-written tries output force (err why) s e = cc
  deliver-written tries output force panic s e = cc
  deliver-written tries output force diverged s e = cc

  -- An output that is there is not available without `--force`.
  unavailable :
      (s : F.State) (path : F.FilePath)
      → content s path ≢ none
      → ensure_output_available F s path false ≡ err io
  unfolding ensure_output_available
  unavailable s path was = elim (Bool-cases (F.exists s path)) [
    | inl there ↦ rw there refl
    | inr free ↦ absurd (was (L.exists-content s path free))
  ]

  refused :
      (s : F.State) (out output : F.FilePath) (force : Bool)
      → ◌≡◌ {A = Option F.FilePath} (some out) (some output)
      → force ≡ false
      → content s output ≢ none
      → ensure_output_available F s out force ≡ err io
  refused s out output force e unforced was =
      ap (λ (b : Bool). ensure_output_available F s out b) unforced
      ∙ unavailable s out (λ free. was (ap (content s) (sym (some-injective e)) ∙ free))

module _ (c : Primitives) (rng : Rng) (json : Json) (base64 : Base64) (fuel : ℕ) (checks : Bool)
    (F : FileSystem) (L : IsLawful F) where
  -- On files that follow the laws, for every command: a file that is there holds after the command
  -- what it held before, where the command does not succeed, or where the file is not the one that
  -- the command writes.
  pub run_keeps_files :
      (tries : ℕ) (command : Command F.FilePath) (s : F.State) (q : F.FilePath)
      → L.content s q ≢ none
      → ((run c rng json base64 fuel checks F tries command s).0 ≢ ok tt)
        ⊎ (target command ≢ some q)
      → L.content (run c rng json base64 fuel checks F tries command s).1 q ≡ L.content s q
  unfolding run
  run_keeps_files tries (encrypt args) s q was h =
      deliver-keeps F L tries args.output args.force _ s q was (other_target h)
  run_keeps_files tries (decrypt input output force) s q was h =
      deliver-keeps F L tries output force _ s q was (other_target h)
  run_keeps_files tries (info input) s q was h = refl
  run_keeps_files tries (migrate input output force to_version) s q was h =
      deliver-keeps F L tries output force _ s q was (other_target h)
  run_keeps_files tries self_test s q was h = refl
  run_keeps_files tries bench s q was h = refl

  -- On files that follow the laws: a command without `--force` whose output is there already ends
  -- in an io error and leaves the files as they are.
  pub run_without_force :
      (tries : ℕ) (command : Command F.FilePath) (s : F.State) (output : F.FilePath)
      → target command ≡ some output
      → is_forced command ≡ false
      → L.content s output ≢ none
      → run c rng json base64 fuel checks F tries command s ≡ (err io, s)
  unfolding run encrypt_file decrypt_file migrate_file
  run_without_force tries (encrypt args) s output e unforced was =
      rw (refused F L s args.output output args.force e unforced was) refl
  run_without_force tries (decrypt input out force) s output e unforced was =
      rw (refused F L s out output force e unforced was) refl
  run_without_force tries (info input) s output e unforced was = cc
  run_without_force tries (migrate input out force to_version) s output e unforced was =
      rw (refused F L s out output force e unforced was) refl
  run_without_force tries self_test s output e unforced was = cc
  run_without_force tries bench s output e unforced was = cc
