-- ===== src/Cli/Files.antt =====
-- What crates/krcm-cli/src/main.rs takes from the operating system: paths, files, the generator of
-- random numbers and the prompt for a password.
pub mod Write
pub mod Temp
pub mod Atomic
use krcm_spn.Base.{
  Bool, Bytes, Option, [], codes, decimal, false, none, some, true, ℕ, ◌++◌, ◌∷◌, ◌≡◌, ◌≢◌, ◌⊎◌,
}

-- `OpenOptions::new().write(true).create_new(true).open`
pub data OpenResult : Type 0 where
  opened already_exists failed : OpenResult

pub record FileSystem : Type 1 where
  pub State : Type 0
  pub FilePath : Type 0
  -- `file_name` with `to_string_lossy`, `parent`, `Path::new(".")`, `join`
  pub file_name : FilePath → Option Bytes
  pub parent : FilePath → Option FilePath
  pub current : FilePath
  pub join : FilePath → Bytes → FilePath
  pub exists : State → FilePath → Bool
  pub read : State → FilePath → Option Bytes
  pub create_new : State → FilePath → OpenResult × State
  -- the operations on an open file, by its path; `false` is an error
  pub write_all : State → FilePath → Bytes → Bool × State
  pub flush : State → FilePath → Bool × State
  pub sync_all : State → FilePath → Bool × State
  pub rename : State → FilePath → FilePath → Bool × State
  -- opens a directory and synchronizes it, where this is possible
  pub sync_directory : State → FilePath → State
  pub remove_file : State → FilePath → Bool × State
  -- `rng.next_u64()` and `rpassword::prompt_password`, by the number of the call
  pub next_u64 : ℕ → ℕ
  pub prompt : ℕ → Option Bytes

-- `format!(".{}.{}.tmp", name, suffix)`
abbrev pub temp_name : Bytes → ℕ → Bytes
temp_name name n = b'.' ∷ (name ++ (b'.' ∷ (decimal n ++ codes ".tmp")))

-- What the files are assumed to do, in terms of the content at each path. Two paths are two files:
-- there are no links, and nothing else writes.
pub record IsLawful (F : FileSystem) : Type 0 where
  pub content : F.State → F.FilePath → Option Bytes
  pub path_cases : (p q : F.FilePath) → (p ≡ q) ⊎ (p ≢ q)
  pub file_name-join :
      (dir p : F.FilePath) (name : Bytes) (n : ℕ)
      → F.file_name p ≡ some name
      → F.file_name (F.join dir (temp_name name n)) ≡ some (temp_name name n)
  pub exists-content : (s : F.State) (p : F.FilePath) → F.exists s p ≡ false → content s p ≡ none
  pub read-content :
      (s : F.State) (p : F.FilePath) {bytes : Bytes}
      → F.read s p ≡ some bytes
      → content s p ≡ some bytes
  pub create_new-opened :
      (s : F.State) (p : F.FilePath)
      → (F.create_new s p).0 ≡ opened
      → (content s p ≡ none) × (content (F.create_new s p).1 p ≡ some [])
  pub create_new-others :
      (s : F.State) (p q : F.FilePath) → q ≢ p → content (F.create_new s p).1 q ≡ content s q
  pub create_new-failed :
      (s : F.State) (p q : F.FilePath)
      → (F.create_new s p).0 ≢ opened
      → content (F.create_new s p).1 q ≡ content s q
  pub write_all-content :
      (s : F.State) (p : F.FilePath) (bytes old : Bytes)
      → content s p ≡ some old
      → (F.write_all s p bytes).0 ≡ true
      → content (F.write_all s p bytes).1 p ≡ some (old ++ bytes)
  pub write_all-others :
      (s : F.State) (p q : F.FilePath) (bytes : Bytes)
      → q ≢ p
      → content (F.write_all s p bytes).1 q ≡ content s q
  pub flush-content : (s : F.State) (p q : F.FilePath) → content (F.flush s p).1 q ≡ content s q
  pub sync_all-content :
      (s : F.State) (p q : F.FilePath) → content (F.sync_all s p).1 q ≡ content s q
  pub rename-moved :
      (s : F.State) (from to : F.FilePath)
      → from ≢ to
      → (F.rename s from to).0 ≡ true
      → (content (F.rename s from to).1 to ≡ content s from)
        × (content (F.rename s from to).1 from ≡ none)
  pub rename-others :
      (s : F.State) (from to q : F.FilePath)
      → q ≢ from
      → q ≢ to
      → content (F.rename s from to).1 q ≡ content s q
  pub rename-failed :
      (s : F.State) (from to q : F.FilePath)
      → (F.rename s from to).0 ≡ false
      → content (F.rename s from to).1 q ≡ content s q
  pub sync_directory-content :
      (s : F.State) (p q : F.FilePath) → content (F.sync_directory s p) q ≡ content s q
  pub remove_file-others :
      (s : F.State) (p q : F.FilePath) → q ≢ p → content (F.remove_file s p).1 q ≡ content s q
