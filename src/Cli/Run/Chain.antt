-- ===== src/Cli/Run/Chain.antt =====
-- Commands of crates/krcm-cli/src/main.rs one after the other: what one writes, another reads.
use krcm_spn.Base.{
  >>=-eq-ok, Bool, Bytes, Outcome, Outcome-ok-injective, ap, bytes_eq, bytes_eq→eq, fail_if,
  fail_if_passed, false, internal, invalid_password, io, length, not, not-false, ok, ok_or,
  ok_or-eq-ok, some, sym, true, unsupported_version, ℕ, ◌!=◌, ◌==◌, ◌>>=◌, ◌>>◌, ◌∙◌, ◌≡◌,
}
use krcm_spn.Auto.{decrypt_auto}
use krcm_spn.Auto.RoundTrip.{encrypt_v5-starts_with}
use krcm_spn.Cli.Files.{FileSystem, IsLawful}
use krcm_spn.Cli.Files.Write.{ensure_output_available}
use krcm_spn.Cli.Options.{migrate}
use krcm_spn.Cli.Run.{confirmed, decrypt_file, migrate_file, migrate_options, read_password, run}
use krcm_spn.Cli.Run.Laws.{deliver-written}
use krcm_spn.ContainerV5.{decrypt_v5, encrypt_v5}
use krcm_spn.HeaderV5.{EncryptV5Options}
use krcm_spn.Json.{Base64, Json}
use krcm_spn.Primitives.{Primitives, Rng}

module _ (F : FileSystem) where
  confirmed_lem :
      (confirm : Bool) (password : Bytes) {q : Bytes}
      → confirmed F confirm password ≡ ok q
      → password ≡ q
  unfolding confirmed
  confirmed_lem false password e = Outcome-ok-injective e
  confirmed_lem true password {q} e =
      let check = λ (repeated : Bytes).
        let r : Outcome Bytes =
          fail_if (not (bytes_eq password repeated)) invalid_password >> ok password in
        r in
      let (repeated, prompted, e1) = >>=-eq-ok (ok_or (F.prompt 1) io) check e in
      let (same, e2) =
        fail_if_passed (not (bytes_eq password repeated)) invalid_password (ok password) e1 in
      Outcome-ok-injective e2

  -- The password is the first answer.
  pub read_password_lem :
      (confirm : Bool) {password : Bytes}
      → read_password F confirm ≡ ok password
      → F.prompt 0 ≡ some password
  unfolding read_password
  read_password_lem confirm {password} e =
      let check =
        λ (p : Bytes). fail_if (length p == 0) invalid_password >> confirmed F confirm p in
      let (p, prompted, e1) = >>=-eq-ok (ok_or (F.prompt 0) io) check e in
      let (some_letter, e2) =
        fail_if_passed (length p == 0) invalid_password (confirmed F confirm p) e1 in
      ok_or-eq-ok (F.prompt 0) io prompted ∙ ap some (confirmed_lem confirm p e2)

module _ (c : Primitives) (rng : Rng) (json : Json) (base64 : Base64) (fuel : ℕ) (checks : Bool)
    (F : FileSystem) (L : IsLawful F) where
  -- What a successful `Decrypt` has read.
  pub record Decrypted (input : F.FilePath) (s : F.State) (bytes : Bytes) : Type 0 where
    pub password : Bytes
    pub container : Bytes
    pub prompted : F.prompt 0 ≡ some password
    pub found : L.content s input ≡ some container
    pub opened_as : decrypt_auto c rng json base64 fuel checks container password ≡ ok bytes

  pub decrypt_file-Decrypted :
      (input output : F.FilePath) (force : Bool) (s : F.State) {bytes : Bytes}
      → decrypt_file c rng json base64 fuel checks F input output force s ≡ ok bytes
      → Decrypted input s bytes
  unfolding decrypt_file
  decrypt_file-Decrypted input output force s {bytes} e =
      let open_it = λ (password container : Bytes).
        decrypt_auto c rng json base64 fuel checks container password in
      let read_it = λ (password : Bytes). ok_or (F.read s input) io >>= open_it password in
      let ask = read_password F false >>= read_it in
      let (available, free, e1) =
        >>=-eq-ok (ensure_output_available F s output force) (λ (u : Unit {0}). ask) e in
      let (password, asked, e2) = >>=-eq-ok (read_password F false) read_it e1 in
      let (container, read, e3) = >>=-eq-ok (ok_or (F.read s input) io) (open_it password) e2 in
      record {
        password = password;
        container = container;
        prompted = read_password_lem F false asked;
        found = L.read-content s input (ok_or-eq-ok (F.read s input) io read);
        opened_as = e3;
      }

  -- What a successful `Migrate` has read and written.
  pub record Migrated (input output : F.FilePath) (s t : F.State) : Type 0 where
    pub password : Bytes
    pub source : Bytes
    pub plain : Bytes
    pub migrated : Bytes
    pub prompted : F.prompt 0 ≡ some password
    pub found : L.content s input ≡ some source
    pub opened_as : decrypt_auto c rng json base64 fuel checks source password ≡ ok plain
    pub written : L.content t output ≡ some migrated
    pub reopened_as : decrypt_auto c rng json base64 fuel checks migrated password ≡ ok plain

  auto_v5 :
      (plain password : Bytes) (opts : EncryptV5Options) {container : Bytes} {r : Outcome Bytes}
      → encrypt_v5 c rng fuel checks plain password opts ≡ ok container
      → decrypt_v5 c rng fuel checks container password ≡ r
      → decrypt_auto c rng json base64 fuel checks container password ≡ r
  unfolding decrypt_auto
  auto_v5 plain password opts made undone =
      let (other, this) =
        encrypt_v5-starts_with c rng json base64 fuel checks plain password opts made in
      rw (other, this) undone

  -- A migrated container was opened again before it is delivered.
  reopened_lem :
      (password plain : Bytes) {bytes : Bytes}
      → (encrypt_v5 c rng fuel checks plain password (migrate_options c rng json base64 fuel checks)
          >>= (λ (migrated : Bytes).
              decrypt_v5 c rng fuel checks migrated password >>= (λ (again : Bytes).
                let r : Outcome Bytes =
                  fail_if (not (bytes_eq again plain)) internal >> ok migrated in
                r)))
        ≡ ok bytes
      → decrypt_auto c rng json base64 fuel checks bytes password ≡ ok plain
  reopened_lem password plain {bytes} e =
      let opts = migrate_options c rng json base64 fuel checks in
      let compare_it = λ (migrated again : Bytes).
        let r : Outcome Bytes = fail_if (not (bytes_eq again plain)) internal >> ok migrated in r in
      let reopen = λ (migrated : Bytes).
        decrypt_v5 c rng fuel checks migrated password >>= compare_it migrated in
      let (migrated, made, e1) =
        >>=-eq-ok (encrypt_v5 c rng fuel checks plain password opts) reopen e in
      let (again, reopened, e2) =
        >>=-eq-ok (decrypt_v5 c rng fuel checks migrated password) (compare_it migrated) e1 in
      let (equal, e3) = fail_if_passed (not (bytes_eq again plain)) internal (ok migrated) e2 in
      let same : again ≡ plain = bytes_eq→eq again plain (not-false (bytes_eq again plain) equal) in
      let whole : migrated ≡ bytes = Outcome-ok-injective {a = migrated} {b = bytes} e3 in
      ap (λ (k : Bytes). decrypt_auto c rng json base64 fuel checks k password) {x = bytes}
        {y = migrated} (sym whole)
      ∙ auto_v5 plain password opts {container = migrated} made
          (reopened ∙ ap ok {x = again} {y = plain} same)

  migrate_file-Migrated :
      (input output : F.FilePath) (force : Bool) (to_version : ℕ) (s t : F.State) {bytes : Bytes}
      → migrate_file c rng json base64 fuel checks F input output force to_version s ≡ ok bytes
      → L.content t output ≡ some bytes
      → Migrated input output s t
  unfolding migrate_file
  migrate_file-Migrated input output force to_version s t {bytes} e written =
      let opts = migrate_options c rng json base64 fuel checks in
      let encrypt_it = λ (password plain : Bytes).
        encrypt_v5 c rng fuel checks plain password opts >>= (λ (migrated : Bytes).
          decrypt_v5 c rng fuel checks migrated password >>= (λ (again : Bytes).
            let r : Outcome Bytes = fail_if (not (bytes_eq again plain)) internal >> ok migrated in
            r)) in
      let open_it = λ (password source : Bytes).
        decrypt_auto c rng json base64 fuel checks source password >>= encrypt_it password in
      let read_it = λ (password : Bytes). ok_or (F.read s input) io >>= open_it password in
      let ask = read_password F false >>= read_it in
      let test = fail_if (to_version != 5) unsupported_version >> ask in
      let (available, free, e1) =
        >>=-eq-ok (ensure_output_available F s output force) (λ (u : Unit {0}). test) e in
      let (five, e2) = fail_if_passed (to_version != 5) unsupported_version ask e1 in
      let (password, asked, e3) = >>=-eq-ok (read_password F false) read_it e2 in
      let (source, read, e4) = >>=-eq-ok (ok_or (F.read s input) io) (open_it password) e3 in
      let (plain, opened_as, e5) =
        >>=-eq-ok (decrypt_auto c rng json base64 fuel checks source password) (encrypt_it password)
          e4 in
      record {
        password = password;
        source = source;
        plain = plain;
        migrated = bytes;
        prompted = read_password_lem F false asked;
        found = L.read-content s input (ok_or-eq-ok (F.read s input) io read);
        opened_as = opened_as;
        written = written;
        reopened_as = reopened_lem password plain e5;
      }

  -- On files that follow the laws: where `Migrate` succeeds, its input was a container which the
  -- password that was typed opens, and its output is a container which the same password opens to
  -- the same payload.
  pub run-Migrated :
      (tries : ℕ) (input output : F.FilePath) (force : Bool) (to_version : ℕ) (s : F.State)
      → let r =
          run c rng json base64 fuel checks F tries (migrate input output force to_version) s in
        r.0 ≡ ok tt → Migrated input output s r.1
  unfolding run
  run-Migrated tries input output force to_version s e =
      let (bytes, made, written) =
        deliver-written F L tries output force
          (migrate_file c rng json base64 fuel checks F input output force to_version s) s e in
      migrate_file-Migrated input output force to_version s _ made written
