-- ===== src/Cli/Run.antt =====
-- `run` of crates/krcm-cli/src/main.rs: one function for each command. Up to the write a command
-- only reads, so that its result is an outcome of the state it starts in. What is printed, and the
-- time that `Bench` measures, have no part in the outcome.
pub mod Laws
pub mod SelfTest
pub mod Chain
pub mod RoundTrip
use krcm_spn.Base.{
  Bool, Bytes, Outcome, bytes_eq, codes, diverged, err, fail_if, false, format, if◌then◌else◌,
  internal, invalid_password, io, length, none, not, ok, ok_or, panic, replicate, some, starts_with,
  true, unsupported_version, ℕ, ◌!=◌, ◌&&◌, ◌*◌, ◌==◌, ◌>>=◌, ◌>>◌,
}
use krcm_spn.Auto.{decrypt_auto}
use krcm_spn.Cli.Files.{FileSystem}
use krcm_spn.Cli.Files.Write.{atomic_write, ensure_output_available}
use krcm_spn.Cli.Options.{
  Command, EncryptArgs, bench, decrypt, encrypt, info, make_kdf, make_padding, migrate, self_test,
}
use krcm_spn.Cli.Size.{parse_size}
use krcm_spn.Constants.{magic_v4, magic_v5}
use krcm_spn.ContainerV4.{default_options, encrypt_v4}
use krcm_spn.ContainerV5.{decrypt_v5, encrypt_v5}
use krcm_spn.HeaderV5.{EncryptV5Options, minimal_block}
use krcm_spn.Json.{Base64, Json}
use krcm_spn.Kdf.{pbkdf2_params}
use krcm_spn.Primitives.{Primitives, Rng}

module _ (F : FileSystem) where
  unfoldable pub confirmed : Bool → Bytes → Outcome Bytes
  confirmed false password = ok password
  confirmed true password = do
    repeated ← ok_or (F.prompt 1) io
    fail_if (not (bytes_eq password repeated)) invalid_password
    ok password

  unfoldable pub read_password : Bool → Outcome Bytes
  read_password confirm = do
    password ← ok_or (F.prompt 0) io
    fail_if (length password == 0) invalid_password
    confirmed confirm password

  -- `atomic_write(&output, &result?, force)`
  abbrev pub deliver :
      ℕ → F.FilePath → Bool → Outcome Bytes → F.State → Outcome (Unit {0}) × F.State
  deliver tries output force (ok bytes) s = atomic_write F tries output bytes force s
  deliver tries output force (err e) s = (err e, s)
  deliver tries output force panic s = (panic, s)
  deliver tries output force diverged s = (diverged, s)

  unfoldable pub run_info : F.FilePath → F.State → Outcome (Unit {0})
  run_info input s = do
    container ← ok_or (F.read s input) io
    fail_if (not (starts_with container magic_v4) && not (starts_with container magic_v5)) format
    ok tt

module _ (c : Primitives) (rng : Rng) (json : Json) (base64 : Base64) (fuel : ℕ)
    (checks : Bool) where
  -- The options of `Migrate`.
  abbrev pub migrate_options : EncryptV5Options
  migrate_options = record {
    kdf = pbkdf2_params 200_000;
    padding_policy = minimal_block;
    segment_size = 4 * 1024 * 1024;
    workers = 1;
    salt = none;
    public_nonce = none;
  }

  -- The options of `SelfTest` and of `Bench`.
  abbrev pub fixed_options : ℕ → ℕ → ℕ → ℕ → EncryptV5Options
  fixed_options segment_size workers salt_byte nonce_byte = record {
    kdf = pbkdf2_params 1_000;
    padding_policy = minimal_block;
    segment_size = segment_size;
    workers = workers;
    salt = some (replicate 16 salt_byte);
    public_nonce = some (replicate 16 nonce_byte);
  }

  unfoldable pub run_self_test : Outcome (Unit {0})
  run_self_test = do
    let input = codes "krcm self test"
    let password = codes "self-test-password"
    encrypted ← encrypt_v5 c rng fuel checks input password (fixed_options 128 2 1 2)
    decrypted ← decrypt_auto c rng json base64 fuel checks encrypted password
    fail_if (not (bytes_eq decrypted input)) internal
    ok tt

  unfoldable pub run_bench : Outcome (Unit {0})
  run_bench = do
    let input = replicate 1024 66
    let password = codes "bench-password"
    encrypted ← encrypt_v5 c rng fuel checks input password (fixed_options 1024 1 7 8)
    decrypted ← decrypt_auto c rng json base64 fuel checks encrypted password
    ok tt

  module _ (F : FileSystem) where
    -- The `match` on the version.
    unfoldable pub encrypt_version : EncryptArgs F.FilePath → Bytes → Bytes → Outcome Bytes
    encrypt_version args input password =
        if args.version == 4
        then encrypt_v4 c rng json base64 fuel checks input password
            (record default_options { iterations = args.pbkdf2_iterations })
        else (if args.version == 5
            then (do
              segment_size ← parse_size args.segment_size
              encrypt_v5 c rng fuel checks input password (record {
                kdf =
                    make_kdf args.kdf args.pbkdf2_iterations args.scrypt_n_log2 args.scrypt_r
                      args.scrypt_p;
                padding_policy = make_padding args.padding;
                segment_size = segment_size;
                workers = args.workers;
                salt = none;
                public_nonce = none;
              }))
            else err unsupported_version)

    unfoldable pub encrypt_file : EncryptArgs F.FilePath → F.State → Outcome Bytes
    encrypt_file args s = do
      ensure_output_available F s args.output args.force
      password ← read_password F args.confirm_password
      input ← ok_or (F.read s args.input) io
      encrypt_version args input password

    unfoldable pub decrypt_file : F.FilePath → F.FilePath → Bool → F.State → Outcome Bytes
    decrypt_file input output force s = do
      ensure_output_available F s output force
      password ← read_password F false
      container ← ok_or (F.read s input) io
      decrypt_auto c rng json base64 fuel checks container password

    unfoldable pub migrate_file : F.FilePath → F.FilePath → Bool → ℕ → F.State → Outcome Bytes
    migrate_file input output force to_version s = do
      ensure_output_available F s output force
      fail_if (to_version != 5) unsupported_version
      password ← read_password F false
      source ← ok_or (F.read s input) io
      plain ← decrypt_auto c rng json base64 fuel checks source password
      migrated ← encrypt_v5 c rng fuel checks plain password migrate_options
      again ← decrypt_v5 c rng fuel checks migrated password
      fail_if (not (bytes_eq again plain)) internal
      ok migrated

    -- `run`, with at most `tries` new names for the file beside the output.
    unfoldable pub run : ℕ → Command F.FilePath → F.State → Outcome (Unit {0}) × F.State
    run tries (encrypt args) s = deliver F tries args.output args.force (encrypt_file args s) s
    run tries (decrypt input output force) s =
        deliver F tries output force (decrypt_file input output force s) s
    run tries (info input) s = (run_info F input s, s)
    run tries (migrate input output force to_version) s =
        deliver F tries output force (migrate_file input output force to_version s) s
    run tries self_test s = (run_self_test, s)
    run tries bench s = (run_bench, s)
