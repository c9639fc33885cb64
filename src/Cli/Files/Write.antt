-- ===== src/Cli/Files/Write.antt =====
-- `ensure_output_available` and `atomic_write` of crates/krcm-cli/src/main.rs. A call gives its
-- outcome and the state that it leaves.
use krcm_spn.Base.{
  Bool, Bytes, Option, Outcome, diverged, err, fail_if, false, io, none, not, ok, panic, some, suc,
  true, zero, ℕ, ◌&&◌, ◌+◌,
}
use krcm_spn.Cli.Files.{FileSystem, OpenResult, already_exists, failed, opened, temp_name}

module _ (F : FileSystem) where
  unfoldable pub ensure_output_available : F.State → F.FilePath → Bool → Outcome (Unit {0})
  ensure_output_available s path force = fail_if (F.exists s path && not force) io

  -- What the loop does with the result of `open`.
  abbrev pub after_create :
      F.FilePath
      → OpenResult × F.State
      → Outcome F.FilePath × F.State
      → Outcome F.FilePath × F.State
  after_create tmp (opened, s) again = (ok tmp, s)
  after_create tmp (already_exists, s) again = again
  after_create tmp (failed, s) again = (err io, s)

  -- The loop that opens a new file beside the output, from draw number `call` on.
  unfoldable pub open_temp : ℕ → F.FilePath → Bytes → ℕ → F.State → Outcome F.FilePath × F.State
  open_temp zero directory name call s = (diverged, s)
  open_temp (suc fuel) directory name call s =
      let tmp = F.join directory (temp_name name (F.next_u64 call)) in
      let created = F.create_new s tmp in
      let again = open_temp fuel directory name (call + 1) created.1 in
      after_create tmp created again

  -- `?` on an `io::Result<()>`.
  abbrev pub and_then : Bool × F.State → (F.State → Bool × F.State) → Bool × F.State
  and_then (true, s) next = next s
  and_then (false, s) next = (false, s)

  -- The closure that fills the new file and moves it to the output.
  unfoldable pub fill_temp : F.FilePath → F.FilePath → F.FilePath → Bytes → F.State → Bool × F.State
  fill_temp tmp path directory bytes s = and_then (F.write_all s tmp bytes) (λ s1.
      and_then (F.flush s1 tmp) (λ s2.
        and_then (F.sync_all s2 tmp)
          (λ s3. and_then (F.rename s3 tmp path) (λ s4. (true, F.sync_directory s4 directory)))))

  abbrev pub clean_up : F.FilePath → Bool × F.State → Outcome (Unit {0}) × F.State
  clean_up tmp (true, s) = (ok tt, s)
  clean_up tmp (false, s) = (err io, (F.remove_file s tmp).1)

  abbrev pub after_open :
      F.FilePath → F.FilePath → Bytes → Outcome F.FilePath × F.State → Outcome (Unit {0}) × F.State
  after_open path directory bytes (ok tmp, s) = clean_up tmp (fill_temp tmp path directory bytes s)
  after_open path directory bytes (err e, s) = (err e, s)
  after_open path directory bytes (panic, s) = (panic, s)
  after_open path directory bytes (diverged, s) = (diverged, s)

  abbrev pub unwrap_or : Option F.FilePath → F.FilePath → F.FilePath
  unwrap_or none p = p
  unwrap_or (some q) p = q

  -- `path.file_name().unwrap()` panics where there is none.
  abbrev pub write_beside :
      ℕ → F.FilePath → Bytes → Option Bytes → F.State → Outcome (Unit {0}) × F.State
  write_beside fuel path bytes none s = (panic, s)
  write_beside fuel path bytes (some name) s =
      let directory = unwrap_or (F.parent path) F.current in
      after_open path directory bytes (open_temp fuel directory name 0 s)

  -- `?` on a test before a call that writes.
  abbrev pub after_check :
      Outcome (Unit {0}) → Outcome (Unit {0}) × F.State → F.State → Outcome (Unit {0}) × F.State
  after_check (ok available) next s = next
  after_check (err e) next s = (err e, s)
  after_check panic next s = (panic, s)
  after_check diverged next s = (diverged, s)

  unfoldable pub atomic_write :
      ℕ → F.FilePath → Bytes → Bool → F.State → Outcome (Unit {0}) × F.State
  atomic_write fuel path bytes force s =
      after_check (ensure_output_available s path force)
        (write_beside fuel path bytes (F.file_name path) s) s
