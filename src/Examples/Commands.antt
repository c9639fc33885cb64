-- ===== src/Examples/Commands.antt =====
-- The theorems on the command line at concrete inputs, on files in memory.
use mathlib.Core.Path.{subst}
use krcm_spn.Base.{
  Bytes, IsBytes, Outcome, Outcome-ok-injective, [], ap, arith, codes, digits, err, false, inr, io,
  length, none, ok, refl, some, sym, true, ◌*◌, ◌<◌, ◌↔◌, ◌∙◌, ◌∷◌, ◌≡◌, ◌≢◌, ◌⊎◌,
}
use krcm_spn.Auto.{decrypt_auto, encrypt_auto, v5}
use krcm_spn.Auto.RoundTrip.{IsAccepted, decrypt_auto-encrypt_auto}
use krcm_spn.Auto.Sized.{decrypt_auto-IsBytes}
use krcm_spn.Cli.Files.Atomic.{IsAtomic, atomic_write-IsAtomic}
use krcm_spn.Cli.Files.Write.{atomic_write, ensure_output_available, fill_temp, open_temp}
use krcm_spn.Cli.Main.{main, main_lem}
use krcm_spn.Cli.Options.{
  EncryptArgs, decrypt, encrypt, four_k, make_kdf, make_padding, migrate, pbkdf2,
}
use krcm_spn.Cli.Run.{
  confirmed, decrypt_file, encrypt_file, encrypt_version, migrate_file, migrate_options,
  read_password, run, run_bench, run_self_test,
}
use krcm_spn.Cli.Run.Chain.{Migrated, run-Migrated}
use krcm_spn.Cli.Run.Laws.{run_without_force, target}
use krcm_spn.Cli.Run.RoundTrip.{IsAcceptedArgs, run-decrypt-run-encrypt}
use krcm_spn.Cli.Run.SelfTest.{run_self_test_succeeds}
use krcm_spn.Cli.Size.{parse_size}
use krcm_spn.Cli.Size.Laws.{kilo, mega, parse_size-decimal}
use krcm_spn.ContainerV5.{decrypt_v5, encrypt_v5}
use krcm_spn.ContainerV5.RoundTrip.{decrypt_v5-encrypt_v5, sealed_container}
use krcm_spn.Examples.{toy, toy-Accepting, toy_rng}
use krcm_spn.Examples.Letters.{toy_base64}
use krcm_spn.Examples.Memory.{Store, memory, memory-IsLawful, update}
use krcm_spn.Examples.Text.{toy_json}
use krcm_spn.HeaderV5.{EncryptV5Options, random_blocks}
use krcm_spn.Kdf.{pbkdf2_params}
use krcm_spn.Kdf.Laws.{derive_root_key_accepts}
use krcm_spn.Primitives.{unwrap_or_fill}

abbrev message : Bytes
message = codes "attack at dawn"

-- One file, `plain`.
abbrev files : Store
files = update (λ q. none) (codes "plain") (some message)

atomic_write-IsAtomic_example :
    IsAtomic memory memory-IsLawful
      (codes "plain")
      (codes "new")
      files
      (atomic_write memory 3 (codes "plain") (codes "new") true files)
atomic_write-IsAtomic_example =
    atomic_write-IsAtomic memory memory-IsLawful 3 (codes "plain") (codes "new") true files

-- Writes into files that are not there.
write_result :
    (bytes : Bytes) → (atomic_write memory 1 (codes "sealed") bytes false files).0 ≡ ok tt
unfolding atomic_write ensure_output_available open_temp fill_temp digits
write_result bytes = refl

abbrev args : EncryptArgs Bytes
args = record {
  input = codes "plain";
  output = codes "sealed";
  force = false;
  confirm_password = true;
  version = 5;
  kdf = pbkdf2;
  pbkdf2_iterations = 1000;
  scrypt_n_log2 = 15;
  scrypt_r = 8;
  scrypt_p = 1;
  padding = four_k;
  segment_size = codes "4k";
  workers = 2;
}

sized : parse_size (codes "4k") ≡ ok 4096
unfolding digits
sized = parse_size-decimal [] [] 4 kilo true tt tt (omega arith)

args-IsAcceptedArgs :
    IsAcceptedArgs toy toy_rng toy_json toy_base64 1 true memory (codes "secret") args
unfolding unwrap_or_fill make_kdf make_padding
args-IsAcceptedArgs = inr (
  refl,
  (
    4096,
    sized,
    (
      (omega arith, omega arith, tt, tt),
      (derive_root_key_accepts toy (codes "secret") (toy_rng.fill_bytes 0 16) 1000).1
          ((λ e. cc), omega arith, omega arith, omega arith),
    ),
  ),
)

parse_size-decimal_example : parse_size (codes " 64m ") ≡ ok (64 * (1024 * 1024))
unfolding digits
parse_size-decimal_example =
    parse_size-decimal (32 ∷ []) (32 ∷ []) 64 mega true (refl, tt) (refl, tt) (omega arith)

main_lem_example :
    ((((main toy toy_rng toy_json toy_base64 1 true memory 3 (encrypt args) files).0.1) ≡ some 0)
      ↔ ((run toy toy_rng toy_json toy_base64 1 true memory 3 (encrypt args) files).0 ≡ ok tt))
    × ((q : Bytes)
        → memory-IsLawful.content files q ≢ none
        → ((main toy toy_rng toy_json toy_base64 1 true memory 3 (encrypt args) files).0.1 ≢ some 0)
          ⊎ (target (encrypt args) ≢ some q)
        → memory-IsLawful.content
            (main toy toy_rng toy_json toy_base64 1 true memory 3 (encrypt args) files).1
            q
          ≡ memory-IsLawful.content files q)
main_lem_example =
    main_lem toy toy_rng toy_json toy_base64 1 true memory memory-IsLawful 3 (encrypt args) files

run_without_force_example :
    run toy toy_rng toy_json toy_base64 1 true memory 3
      (decrypt (codes "sealed") (codes "plain") false)
      files
    ≡ (err io, files)
unfolding memory-IsLawful
run_without_force_example =
    run_without_force toy toy_rng toy_json toy_base64 1 true memory memory-IsLawful 3
      (decrypt (codes "sealed") (codes "plain") false) files (codes "plain") refl refl (λ e. cc)

run_self_test_succeeds_example :
    (run_self_test toy toy_rng toy_json toy_base64 1 true ≡ ok tt)
    × (run_bench toy toy_rng toy_json toy_base64 1 true ≡ ok tt)
run_self_test_succeeds_example =
    run_self_test_succeeds toy toy_rng toy_json toy_base64 1 toy-Accepting true

abbrev opts : EncryptV5Options
opts = record {
  kdf = pbkdf2_params 1000;
  padding_policy = random_blocks 15;
  segment_size = 4096;
  workers = 2;
  salt = none;
  public_nonce = none;
}

opts-IsAccepted : IsAccepted toy toy_rng (codes "secret") (v5 opts)
unfolding unwrap_or_fill
opts-IsAccepted = (
  (omega arith, omega arith, tt, tt),
  (derive_root_key_accepts toy (codes "secret") (toy_rng.fill_bytes 0 16) 1000).1
      ((λ e. cc), omega arith, omega arith, omega arith),
)

sealed :
    (container : Bytes) × (encrypt_v5 toy toy_rng 1 true message (codes "secret") opts
      ≡ ok container)
    × (decrypt_auto toy toy_rng toy_json toy_base64 1 true container (codes "secret") ≡ ok message)
unfolding encrypt_auto
sealed =
    decrypt_auto-encrypt_auto toy toy_rng toy_json toy_base64 1 true toy-Accepting message
      (codes "secret") (v5 opts) (omega arith) (omega arith) opts-IsAccepted

-- `encrypt_v5` returns one container, so the bytes of the one are those of the other.
sealed-IsBytes : IsBytes sealed.0
sealed-IsBytes =
    let (valid, derived) = opts-IsAccepted in
    let (container, made, undone, bytes) =
      sealed_container toy toy_rng 1 toy-Accepting true message (codes "secret") opts derived.0
        (omega arith) (omega arith) valid derived.1 in
    subst IsBytes (Outcome-ok-injective (sym made ∙ sealed.1)) bytes

decrypt_auto-IsBytes_example : IsBytes message × (length message < length sealed.0)
decrypt_auto-IsBytes_example =
    decrypt_auto-IsBytes toy toy_rng toy_json toy_base64 1 true sealed.0 (codes "secret")
      {output = message} sealed-IsBytes sealed.2

-- The files with the container beside the first one.
abbrev sealed_files : Store
sealed_files = (atomic_write memory 1 (codes "sealed") sealed.0 false files).1

first_run :
    run toy toy_rng toy_json toy_base64 1 true memory 1 (encrypt args) files
    ≡ atomic_write memory 1 (codes "sealed") sealed.0 false files
unfolding run encrypt_file ensure_output_available read_password confirmed encrypt_version make_kdf
    make_padding
first_run = rw (sized, sealed.1) refl

reread : sealed_files (codes "sealed") ≡ some sealed.0
unfolding atomic_write ensure_output_available open_temp fill_temp digits
reread = refl

second_result :
    (run toy toy_rng toy_json toy_base64 1 true memory 1
      (decrypt (codes "sealed") (codes "copy") false)
      sealed_files).0
    ≡ ok tt
unfolding run decrypt_file read_password confirmed atomic_write ensure_output_available open_temp
    fill_temp digits
second_result = rw (sealed.2) refl

run-decrypt-run-encrypt_example :
    memory-IsLawful.content
      (run toy toy_rng toy_json toy_base64 1 true memory 1
        (decrypt (codes "sealed") (codes "copy") false)
        (run toy toy_rng toy_json toy_base64 1 true memory 1 (encrypt args) files).1).1
      (codes "copy")
    ≡ some message
unfolding memory-IsLawful
run-decrypt-run-encrypt_example =
    run-decrypt-run-encrypt toy toy_rng toy_json toy_base64 1 true memory memory-IsLawful
      toy-Accepting 1 args (codes "copy") false (codes "secret") message files refl refl
      (omega arith) (omega arith) args-IsAcceptedArgs
      (ap (λ (r : Outcome (Unit {0}) × Store). r.0) first_run ∙ write_result sealed.0)
      (ap
          (λ (r : Outcome (Unit {0}) × Store).
            (run toy toy_rng toy_json toy_base64 1 true memory 1
              (decrypt (codes "sealed") (codes "copy") false) r.1).0)
          first_run
        ∙ second_result)

abbrev migrated_opts : EncryptV5Options
migrated_opts = migrate_options toy toy_rng toy_json toy_base64 1 true

resealed :
    (container : Bytes) × (encrypt_v5 toy toy_rng 1 true message (codes "secret") migrated_opts
      ≡ ok container)
    × (decrypt_v5 toy toy_rng 1 true container (codes "secret") ≡ ok message)
unfolding unwrap_or_fill
resealed =
    let derived =
      (derive_root_key_accepts toy (codes "secret") (toy_rng.fill_bytes 0 16) 200_000).1
        ((λ e. cc), omega arith, omega arith, omega arith) in
    decrypt_v5-encrypt_v5 toy toy_rng 1 toy-Accepting true message (codes "secret") migrated_opts
      derived.0 (omega arith) (omega arith) ((omega arith, omega arith), omega arith, tt, tt)
      derived.1

migrate_result :
    (run toy toy_rng toy_json toy_base64 1 true memory 1
      (migrate (codes "sealed") (codes "copy") false 5)
      sealed_files).0
    ≡ ok tt
unfolding run migrate_file read_password confirmed atomic_write ensure_output_available open_temp
    fill_temp digits
migrate_result = rw (sealed.2, resealed.1, resealed.2) refl

run-Migrated_example :
    Migrated toy toy_rng toy_json toy_base64 1 true memory memory-IsLawful
      (codes "sealed")
      (codes "copy")
      sealed_files
      (run toy toy_rng toy_json toy_base64 1 true memory 1
        (migrate (codes "sealed") (codes "copy") false 5)
        sealed_files).1
run-Migrated_example =
    run-Migrated toy toy_rng toy_json toy_base64 1 true memory memory-IsLawful 1 (codes "sealed")
      (codes "copy") false 5 sealed_files migrate_result
