-- ===== src/Cli/Files/Temp.antt =====
-- The file beside the output in `atomic_write` of crates/krcm-cli/src/main.rs: how it is opened, and
-- what is left once it was filled and moved.
use krcm_spn.Base.{
  Bool, Bytes, Outcome, [], ap, arith, codes, decimal, diverged, err, false, inl, inr, length,
  length-append, none, ok, panic, refl, some, suc, sym, true, zero, ℕ, ◌++◌, ◌+◌, ◌∙◌, ◌∷◌, ◌≡◌,
  ◌≢◌, ◌⊎◌,
}
use krcm_spn.Cli.Files.{FileSystem, IsLawful, OpenResult, already_exists, failed, opened, temp_name}
use krcm_spn.Cli.Files.Write.{after_create, and_then, fill_temp, open_temp}

OpenResult-cases : (o : OpenResult) → (o ≡ opened) ⊎ (o ≢ opened)
OpenResult-cases opened = inl refl
OpenResult-cases already_exists = inr (λ e. cc)
OpenResult-cases failed = inr (λ e. cc)

-- The name of the new file is longer than the name that it is made of.
pub temp_name-ne : (name : Bytes) (n : ℕ) → temp_name name n ≢ name
temp_name-ne name n e = absurd (
    omega (
      arith,
      ap length e,
      length-append name (b'.' ∷ (decimal n ++ codes ".tmp")),
      length-append (decimal n) (codes ".tmp"),
    ))

module _ (F : FileSystem) (L : IsLawful F) where
  open L use {content}

  -- The same files with the same contents.
  abbrev pub Same : F.State → F.State → Type 0
  Same s t = (q : F.FilePath) → content t q ≡ content s q

  abbrev pub IsOpened : F.FilePath → Bytes → F.State → Outcome F.FilePath × F.State → Type 0
  IsOpened directory name s (ok tmp, t) =
      (content s tmp ≡ none)
      × (content t tmp ≡ some [])
      × ((q : F.FilePath) → q ≢ tmp → content t q ≡ content s q)
      × ((k : ℕ) × (tmp ≡ F.join directory (temp_name name k)))
  IsOpened directory name s (err e, t) = Same s t
  IsOpened directory name s (panic, t) = Same s t
  IsOpened directory name s (diverged, t) = Same s t

  IsOpened-after :
      (directory : F.FilePath) (name : Bytes) (s t : F.State) (r : Outcome F.FilePath × F.State)
      → Same s t
      → IsOpened directory name t r
      → IsOpened directory name s r
  IsOpened-after directory name s t (ok tmp, u) h (free, empty, others, made) =
      (sym (h tmp) ∙ free, empty, λ q d. others q d ∙ h q, made)
  IsOpened-after directory name s t (err e, u) h k = λ q. k q ∙ h q
  IsOpened-after directory name s t (panic, u) h k = λ q. k q ∙ h q
  IsOpened-after directory name s t (diverged, u) h k = λ q. k q ∙ h q

  after_create-IsOpened :
      (directory : F.FilePath) (name : Bytes) (k : ℕ) (s : F.State)
      (again : Outcome F.FilePath × F.State)
      → let tmp = F.join directory (temp_name name k) in
        IsOpened directory name (F.create_new s tmp).1 again
        → IsOpened directory name s (after_create F tmp (F.create_new s tmp) again)
  after_create-IsOpened directory name k s again later =
      let tmp = F.join directory (temp_name name k) in go (F.create_new s tmp).0 refl
    where
      go :
          (o : OpenResult)
          → (F.create_new s (F.join directory (temp_name name k))).0 ≡ o
          → IsOpened directory name s (
              after_create F
                (F.join directory (temp_name name k))
                (o, (F.create_new s (F.join directory (temp_name name k))).1)
                again)
      go opened e =
          let tmp = F.join directory (temp_name name k) in
          let (free, empty) = L.create_new-opened s tmp e in
          (free, empty, λ q d. L.create_new-others s tmp q d, (k, refl))
      go already_exists e =
          let tmp = F.join directory (temp_name name k) in
          IsOpened-after directory name s (F.create_new s tmp).1 again
            (λ q. L.create_new-failed s tmp q (λ h. cc)) later
      go failed e =
          let tmp = F.join directory (temp_name name k) in
          λ q. L.create_new-failed s tmp q (λ h. cc)

  pub open_temp-IsOpened :
      (fuel : ℕ) (directory : F.FilePath) (name : Bytes) (call : ℕ) (s : F.State)
      → IsOpened directory name s (open_temp F fuel directory name call s)
  unfolding open_temp
  open_temp-IsOpened zero directory name call s = λ q. refl
  open_temp-IsOpened (suc fuel) directory name call s =
      let tmp = F.join directory (temp_name name (F.next_u64 call)) in
      after_create-IsOpened directory name (F.next_u64 call) s
        (open_temp F fuel directory name (call + 1) (F.create_new s tmp).1)
        (open_temp-IsOpened fuel directory name (call + 1) (F.create_new s tmp).1)

  module _ (tmp path directory : F.FilePath) (bytes : Bytes) (differ : tmp ≢ path) where
    -- All but the new file, and all but that and the output, is as it was.
    abbrev Kept : F.State → F.State → Type 0
    Kept s t = (q : F.FilePath) → q ≢ tmp → content t q ≡ content s q

    abbrev pub IsFilled : F.State → Bool × F.State → Type 0
    IsFilled s (true, t) =
        (content t path ≡ some bytes)
        × (content t tmp ≡ none)
        × ((q : F.FilePath) → q ≢ tmp → q ≢ path → content t q ≡ content s q)
    IsFilled s (false, t) = Kept s t

    -- One more step that succeeded or failed.
    and_then-IsFilled :
        (s : F.State) (r : Bool × F.State) (next : F.State → Bool × F.State)
        → (r.0 ≡ false → Kept s r.1)
        → (r.0 ≡ true → IsFilled s (next r.1))
        → IsFilled s (and_then F r next)
    and_then-IsFilled s (true, t) next kept h = h refl
    and_then-IsFilled s (false, t) next kept h = kept refl

    pub fill_temp-IsFilled :
        (s : F.State)
        → content s tmp ≡ some []
        → IsFilled s (fill_temp F tmp path directory bytes s)
    unfolding fill_temp
    fill_temp-IsFilled s empty =
        let s1 = (F.write_all s tmp bytes).1 in
        let s2 = (F.flush s1 tmp).1 in
        let s3 = (F.sync_all s2 tmp).1 in
        let kept1 = λ (q : F.FilePath) (d : q ≢ tmp). L.write_all-others s tmp q bytes d in
        let kept2 = λ (q : F.FilePath) (d : q ≢ tmp). L.flush-content s1 tmp q ∙ kept1 q d in
        let kept3 = λ (q : F.FilePath) (d : q ≢ tmp). L.sync_all-content s2 tmp q ∙ kept2 q d in
        and_then-IsFilled s (F.write_all s tmp bytes) _ (λ f. kept1)
          (λ wrote.
            and_then-IsFilled s (F.flush s1 tmp) _ (λ f. kept2)
              (λ flushed.
                and_then-IsFilled s (F.sync_all s2 tmp) _ (λ f. kept3)
                  (λ synced.
                    let written : content s3 tmp ≡ some bytes =
                      L.sync_all-content s2 tmp tmp
                      ∙ L.flush-content s1 tmp tmp
                      ∙ L.write_all-content s tmp bytes [] empty wrote in
                    let s4 = (F.rename s3 tmp path).1 in
                    and_then-IsFilled s (F.rename s3 tmp path) _
                      (λ f q d. L.rename-failed s3 tmp path q f ∙ kept3 q d)
                      (λ renamed.
                        let (there, gone) = L.rename-moved s3 tmp path differ renamed in
                        (
                          L.sync_directory-content s4 directory path ∙ there ∙ written,
                          L.sync_directory-content s4 directory tmp ∙ gone,
                          λ q d e.
                              L.sync_directory-content s4 directory q
                              ∙ L.rename-others s3 tmp path q d e
                              ∙ kept3 q d,
                        )))))
