-- ===== src/Cli/Files/Atomic.antt =====
-- What `atomic_write` of crates/krcm-cli/src/main.rs leaves in the files.
use krcm_spn.Base.{
  Bool, Bytes, Option, Outcome, ap, diverged, err, false, inl, inr, none, ok, panic, refl, some,
  some-injective, sym, true, ℕ, ◌∙◌, ◌≡◌, ◌≢◌,
}
use krcm_spn.Cli.Files.{FileSystem, IsLawful, temp_name}
use krcm_spn.Cli.Files.Temp.{
  IsFilled, IsOpened, Same, fill_temp-IsFilled, open_temp-IsOpened, temp_name-ne,
}
use krcm_spn.Cli.Files.Write.{
  after_check, after_open, atomic_write, clean_up, ensure_output_available, fill_temp, open_temp,
  unwrap_or, write_beside,
}

module _ (F : FileSystem) (L : IsLawful F) where
  open L use {content}

  -- The output holds the bytes and all else is as it was; or the call did not succeed, and every file
  -- that was there is as it was.
  abbrev pub IsAtomic : F.FilePath → Bytes → F.State → Outcome (Unit {0}) × F.State → Type 0
  IsAtomic path bytes s (ok done, t) =
      (content t path ≡ some bytes) × ((q : F.FilePath) → q ≢ path → content t q ≡ content s q)
  IsAtomic path bytes s (err e, t) =
      (q : F.FilePath) → content s q ≢ none → content t q ≡ content s q
  IsAtomic path bytes s (panic, t) = Same F L s t
  IsAtomic path bytes s (diverged, t) = Same F L s t

  clean_up-IsAtomic :
      (tmp path directory : F.FilePath) (bytes : Bytes) (s s1 : F.State) (r : Bool × F.State)
      (differ : tmp ≢ path)
      → content s tmp ≡ none
      → ((q : F.FilePath) → q ≢ tmp → content s1 q ≡ content s q)
      → IsFilled F L tmp path directory bytes differ s1 r
      → IsAtomic path bytes s (clean_up F tmp r)
  clean_up-IsAtomic tmp path directory bytes s s1 (true, t) differ free others (there, gone, kept) =
      (
        there,
        λ q d. elim (L.path_cases q tmp) [
          | inl same ↦ ap (content t) same ∙ gone ∙ sym free ∙ ap (content s) (sym same)
          | inr other ↦ kept q other d ∙ others q other
        ],
      )
  clean_up-IsAtomic tmp path directory bytes s s1 (false, t) differ free others kept = λ q was.
      let other : q ≢ tmp = λ same. was (ap (content s) same ∙ free) in
      L.remove_file-others t tmp q other ∙ kept q other ∙ others q other

  after_open-IsAtomic :
      (path directory : F.FilePath) (name bytes : Bytes) (s : F.State)
      (r : Outcome F.FilePath × F.State)
      → F.file_name path ≡ some name
      → IsOpened F L directory name s r
      → IsAtomic path bytes s (after_open F path directory bytes r)
  after_open-IsAtomic path directory name bytes s (ok tmp, s1) named
        (free, empty, others, (k, made)) =
      let differ : tmp ≢ path = λ same.
        let twice : ◌≡◌ {A = Option Bytes} (some (temp_name name k)) (some name) =
          sym (L.file_name-join directory path name k named)
          ∙ ap F.file_name (sym made ∙ same)
          ∙ named in
        temp_name-ne name k (some-injective twice) in
      clean_up-IsAtomic tmp path directory bytes s s1 (fill_temp F tmp path directory bytes s1)
        differ free others (fill_temp-IsFilled F L tmp path directory bytes differ s1 empty)
  after_open-IsAtomic path directory name bytes s (err e, s1) named same = λ q was. same q
  after_open-IsAtomic path directory name bytes s (panic, s1) named same = same
  after_open-IsAtomic path directory name bytes s (diverged, s1) named same = same

  write_beside-IsAtomic :
      (fuel : ℕ) (path : F.FilePath) (bytes : Bytes) (name : Option Bytes) (s : F.State)
      → F.file_name path ≡ name
      → IsAtomic path bytes s (write_beside F fuel path bytes name s)
  write_beside-IsAtomic fuel path bytes none s e = λ q. refl
  write_beside-IsAtomic fuel path bytes (some name) s e =
      let directory = unwrap_or F (F.parent path) F.current in
      after_open-IsAtomic path directory name bytes s (open_temp F fuel directory name 0 s) e
        (open_temp-IsOpened F L fuel directory name 0 s)

  after_check-IsAtomic :
      (path : F.FilePath) (bytes : Bytes) (r : Outcome (Unit {0}))
      (next : Outcome (Unit {0}) × F.State) (s : F.State)
      → IsAtomic path bytes s next
      → IsAtomic path bytes s (after_check F r next s)
  after_check-IsAtomic path bytes (ok available) next s h = h
  after_check-IsAtomic path bytes (err e) next s h = λ q was. refl
  after_check-IsAtomic path bytes panic next s h = λ q. refl
  after_check-IsAtomic path bytes diverged next s h = λ q. refl

  -- On files that follow the laws, for every path, content, choice of `force` and number of tries:
  -- where `atomic_write` succeeds, the path holds the content and every other path what it held;
  -- where it ends in an error, every file that was there holds what it held; where it panics or
  -- runs out of tries, nothing has changed.
  pub atomic_write-IsAtomic :
      (fuel : ℕ) (path : F.FilePath) (bytes : Bytes) (force : Bool) (s : F.State)
      → IsAtomic path bytes s (atomic_write F fuel path bytes force s)
  unfolding atomic_write
  atomic_write-IsAtomic fuel path bytes force s =
      after_check-IsAtomic path bytes (ensure_output_available F s path force) _ s
        (write_beside-IsAtomic fuel path bytes (F.file_name path) s refl)
