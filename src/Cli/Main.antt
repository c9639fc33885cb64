-- ===== src/Cli/Main.antt =====
-- `main` of crates/krcm-cli/src/main.rs, after its arguments are parsed: what it prints on the
-- standard error, and the exit code.
use krcm_spn.Base.{
  Bool, Bytes, List, Option, Outcome, [], ap, arith, codes, diverged, err, inl, inr, none, ok,
  panic, refl, some, some-injective, ℕ, ◌++◌, ◌↔◌, ◌∷◌, ◌≡◌, ◌≢◌, ◌⊎◌,
}
use krcm_spn.Cli.Files.{FileSystem, IsLawful}
use krcm_spn.Cli.Options.{Command}
use krcm_spn.Cli.Run.{run}
use krcm_spn.Cli.Run.Laws.{run_keeps_files, target}
use krcm_spn.Json.{Base64, Json}
use krcm_spn.Primitives.{Primitives, Rng}
use krcm_spn.Python.{error_text}

abbrev warning : Bytes
warning =
    codes "KRCM-SPN is an experimental cryptographic construction. It is not a "
    ++ codes "replacement for audited, standardized schemes such as AES-GCM, "
    ++ codes "ChaCha20-Poly1305, age, GnuPG, or libsodium. Do not use it to protect "
    ++ codes "production data, regulated data, financial secrets, credentials, or any "
    ++ codes "information whose compromise would cause harm. The project is intended for "
    ++ codes "research, experimentation, implementation practice, and review."

-- The lines that `main` prints on the standard error, and the exit code; Rust ends a process that
-- panics with 101.
abbrev pub report : Outcome (Unit {0}) → List Bytes × Option ℕ
report panic = (warning ∷ [], some 101)
report diverged = (warning ∷ [], none)
report (err e) = (warning ∷ (codes "Error: " ++ error_text e) ∷ [], some 1)
report (ok v) = (warning ∷ [], some 0)

module _ (c : Primitives) (rng : Rng) (json : Json) (base64 : Base64) (fuel : ℕ) (checks : Bool)
    (F : FileSystem) where
  unfoldable pub main : ℕ → Command F.FilePath → F.State → (List Bytes × Option ℕ) × F.State
  main tries command s =
      let (result, s') = run c rng json base64 fuel checks F tries command s in (report result, s')

  -- The exit code 0 stands for success alone.
  report-success : (result : Outcome (Unit {0})) → (report result).1 ≡ some 0 → result ≡ ok tt
  report-success panic e = absurd (omega (arith, some-injective e))
  report-success diverged e = cc
  report-success (err why) e = absurd (omega (arith, some-injective e))
  report-success (ok v) e = refl

  -- On files that follow the laws, for every command: `main` exits with 0 exactly where `run`
  -- succeeds, and a file that is there holds after the process what it held before, where the exit
  -- code is another or where the file is not the one that the command writes.
  pub main_lem :
      (L : IsLawful F) (tries : ℕ) (command : Command F.FilePath) (s : F.State)
      → (((main tries command s).0.1 ≡ some 0)
          ↔ ((run c rng json base64 fuel checks F tries command s).0 ≡ ok tt))
        × ((q : F.FilePath)
            → L.content s q ≢ none
            → ((main tries command s).0.1 ≢ some 0) ⊎ (target command ≢ some q)
            → L.content (main tries command s).1 q ≡ L.content s q)
  unfolding main
  main_lem L tries command s =
      let result = (run c rng json base64 fuel checks F tries command s).0 in
      let success : (e : result ≡ ok tt) → (report result).1 ≡ some 0 =
        λ e. ap (λ (r : Outcome (Unit {0})). (report r).1) e in
      (
        (report-success result, success),
        λ q was kept.
            run_keeps_files c rng json base64 fuel checks F L tries command s q was (elim kept [
              | inl unsuccessful ↦ inl (λ e. unsuccessful (success e))
              | inr other ↦ inr other
            ]),
      )
