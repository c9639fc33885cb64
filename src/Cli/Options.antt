-- ===== src/Cli/Options.antt =====
-- The choices of the command line of crates/krcm-cli/src/main.rs.
use krcm_spn.Base.{Bool, Bytes, ℕ}
use krcm_spn.HeaderV5.{PaddingPolicy, minimal_block, random_blocks}
use krcm_spn.Kdf.{KdfParams, pbkdf2_params, scrypt_params}

pub data KdfChoice : Type 0 where
  pbkdf2 scrypt : KdfChoice

pub data PaddingChoice : Type 0 where
  minimal four_k sixty_four_k : PaddingChoice

unfoldable pub make_kdf : KdfChoice → ℕ → ℕ → ℕ → ℕ → KdfParams
make_kdf pbkdf2 pbkdf2_iterations n_log2 r p = pbkdf2_params pbkdf2_iterations
make_kdf scrypt pbkdf2_iterations n_log2 r p = scrypt_params n_log2 r p

unfoldable pub make_padding : PaddingChoice → PaddingPolicy
make_padding minimal = minimal_block
make_padding four_k = random_blocks 15
make_padding sixty_four_k = random_blocks 15

-- The fields of `Command::Encrypt`.
pub record EncryptArgs (FilePath : Type 0) : Type 0 where
  pub input : FilePath
  pub output : FilePath
  pub force : Bool
  pub confirm_password : Bool
  pub version : ℕ
  pub kdf : KdfChoice
  pub pbkdf2_iterations : ℕ
  pub scrypt_n_log2 : ℕ
  pub scrypt_r : ℕ
  pub scrypt_p : ℕ
  pub padding : PaddingChoice
  pub segment_size : Bytes
  pub workers : ℕ

pub data Command (FilePath : Type 0) : Type 0 where
  encrypt : EncryptArgs FilePath → Command FilePath
  decrypt : FilePath → FilePath → Bool → Command FilePath
  info : FilePath → Command FilePath
  migrate : FilePath → FilePath → Bool → ℕ → Command FilePath
  self_test bench : Command FilePath
