-- ===== src/Vector.antt =====
-- crates/krcm-core/examples/generate_v5_vector.rs: the test vector and the file it is written to.
use krcm_spn.Base.{
  Bool, Bytes, Outcome, [], arith, codes, diverged, err, false, if◌then◌else◌, ltb, ok, panic, refl,
  some, tabulate, true, ℕ, ◌%◌, ◌++◌, ◌+◌, ◌/◌, ◌∙◌, ◌∷◌, ◌≡◌,
}
use krcm_spn.ContainerV5.{decrypt_v5, encrypt_v5}
use krcm_spn.ContainerV5.RoundTrip.{decrypt_v5-encrypt_v5}
use krcm_spn.HeaderV5.{EncryptV5Options, minimal_block}
use krcm_spn.Kdf.{pbkdf2_params}
use krcm_spn.Kdf.Laws.{derive_root_key_accepts}
use krcm_spn.Primitives.{Primitives, Rng, unwrap_or_fill}
use krcm_spn.Sampler.Draws.{Accepting}

abbrev vector_password : Bytes
vector_password = codes "krcm-v5-test-password"

abbrev vector_plaintext : Bytes
vector_plaintext = codes "hello v5"

abbrev vector_options : EncryptV5Options
vector_options = record {
  kdf = pbkdf2_params 1_000;
  padding_policy = minimal_block;
  segment_size = 64;
  workers = 4;
  salt = some (tabulate (λ i. i) 0 16);
  public_nonce = some (tabulate (λ i. i) 16 16);
}

-- `format!("{byte:02x}")` of every byte.
abbrev hex_digit : ℕ → ℕ
hex_digit n = if ltb n 10 then 48 + n else 87 + n

unfoldable hex : Bytes → Bytes
hex [] = []
hex (b ∷ bs) = hex_digit (b / 16) ∷ hex_digit (b % 16) ∷ hex bs

-- A line of the file: two blanks, a key, a value, and a comma or nothing.
abbrev vector_line : Bytes → Bytes → Bytes → Bytes
vector_line key value behind =
    codes "  " ++ (34 ∷ (key ++ (34 ∷ (codes ": " ++ (value ++ (behind ++ (10 ∷ [])))))))

abbrev quoted : Bytes → Bytes
quoted value = 34 ∷ (value ++ (34 ∷ []))

unfoldable vector_json : Bytes → Bytes
vector_json container =
    123
    ∷ 10
    ∷ (vector_line (codes "version") (codes "5") (codes ",")
        ++ (vector_line (codes "name") (quoted (codes "v5-deterministic-container")) (codes ",")
            ++ (vector_line (codes "password_hex") (quoted (hex vector_password)) (codes ",")
                ++ (vector_line (codes "plaintext_hex") (quoted (hex vector_plaintext)) (codes ",")
                    ++ (vector_line (codes "salt_hex")
                          (quoted (codes "000102030405060708090a0b0c0d0e0f")) (codes ",")
                        ++ (vector_line (codes "public_nonce_hex")
                              (quoted (codes "101112131415161718191a1b1c1d1e1f")) (codes ",")
                            ++ (vector_line (codes "container_hex") (quoted (hex container))
                                  (codes ",")
                                ++ (vector_line (codes "warning")
                                      (quoted (
                                        codes
                                          "Test vector only. Password and data are not secret."))
                                      []
                                    ++ (125 ∷ 10 ∷ [])))))))))

-- `.unwrap()`
abbrev unwrap {ℓ} : {V : Type ℓ} → Outcome V → Outcome V
unwrap panic = panic
unwrap diverged = diverged
unwrap (err why) = panic
unwrap (ok v) = ok v

abbrev vector_directory : Bytes
vector_directory = codes "test-vectors/v5"

abbrev vector_path : Bytes
vector_path = codes "test-vectors/v5/container_vector.json"

-- `fs::create_dir_all` and `fs::write` on the files of the machine; `false` is an error.
module _ {S : Type 0} (create_dir_all : S → Bytes → Bool × S)
    (write : S → Bytes → Bytes → Bool × S) where
  -- `.unwrap()` of an `io::Result<()>`.
  abbrev unwrap_io : Bool × S → (S → Outcome (Unit {0}) × S) → Outcome (Unit {0}) × S
  unwrap_io (true, s) next = next s
  unwrap_io (false, s) next = (panic, s)

  unwrap_io_lem :
      (call : Bool × S)
      → call.0 ≡ true
      → (next : S → Outcome (Unit {0}) × S) → unwrap_io call next ≡ next call.1
  unwrap_io_lem (true, s) h next = refl
  unwrap_io_lem (false, s) h next = cc

  -- The two calls behind the container; an error of `encrypt_v5` is unwrapped before.
  unfoldable write_vector : Outcome Bytes → S → Outcome (Unit {0}) × S
  write_vector panic s = (panic, s)
  write_vector diverged s = (diverged, s)
  write_vector (err why) s = (err why, s)
  write_vector (ok container) s =
      unwrap_io (create_dir_all s vector_directory)
        (λ s1. unwrap_io (write s1 vector_path (vector_json container)) (λ s2. (ok tt, s2)))

  module _ (c : Primitives) (rng : Rng) (fuel : ℕ) (checks : Bool) where
    unfoldable generate_vector : S → Outcome (Unit {0}) × S
    generate_vector s =
        write_vector
          (unwrap (encrypt_v5 c rng fuel checks vector_plaintext vector_password vector_options)) s

    -- For samplers whose every draw ends within the fuel, where the directory is made and the file
    -- written: the generator ends without a panic and has written the vector of a container that
    -- `decrypt_v5` opens with the password of the vector to the plaintext of the vector.
    generate_vector_succeeds :
        (s : S)
        → Accepting c fuel
        → (create_dir_all s vector_directory).0 ≡ true
        → ((text : Bytes) → (write (create_dir_all s vector_directory).1 vector_path text).0 ≡ true)
        → (container : Bytes) × (generate_vector s ≡ (
          ok tt,
          (write (create_dir_all s vector_directory).1 vector_path (vector_json container)).1,
        ))
          × (decrypt_v5 c rng fuel checks container vector_password ≡ ok vector_plaintext)
    unfolding generate_vector write_vector unwrap_or_fill tabulate
    generate_vector_succeeds s accepting made_dir written =
        let salt = tabulate (λ i. i) 0 16 in
        let (root, derived) =
          (derive_root_key_accepts c vector_password salt 1_000).1
            ((λ e. cc), refl, omega arith, omega arith) in
        let (container, made, reads) =
          decrypt_v5-encrypt_v5 c rng fuel accepting checks vector_plaintext vector_password
            vector_options root (omega arith) (omega arith)
            ((omega arith, omega arith), omega arith, omega arith, omega arith) derived in
        let dir = create_dir_all s vector_directory in
        (
          container,
          rw made (
              unwrap_io_lem dir made_dir _
              ∙ unwrap_io_lem (write dir.1 vector_path (vector_json container))
                  (written (vector_json container)) _),
          reads,
        )
