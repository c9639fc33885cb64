-- ===== src/Cli/Run/RoundTrip.antt =====
-- `Encrypt` and then `Decrypt` of crates/krcm-cli/src/main.rs.
use krcm_spn.Base.{
  ==_iff, >>=-eq-ok, Bool, Bytes, IsBytes, Outcome-ok-injective, ap, ap₂, arith, false, inl, inr,
  io, length, ne→==_false, none, ok, ok_or, ok_or-eq-ok, refl, some, some-injective, sym, true, ℕ,
  ◌<◌, ◌==◌, ◌>>=◌, ◌^◌, ◌∙◌, ◌≡◌, ◌⊎◌,
}
use krcm_spn.Auto.{EncryptOptions, decrypt_auto, encrypt_auto, v4, v5}
use krcm_spn.Auto.RoundTrip.{IsAccepted, decrypt_auto-encrypt_auto}
use krcm_spn.Cli.Files.{FileSystem, IsLawful}
use krcm_spn.Cli.Files.Write.{ensure_output_available}
use krcm_spn.Cli.Options.{EncryptArgs, decrypt, encrypt, make_kdf, make_padding}
use krcm_spn.Cli.Run.{decrypt_file, encrypt_file, encrypt_version, read_password, run}
use krcm_spn.Cli.Run.Chain.{Decrypted, decrypt_file-Decrypted, read_password_lem}
use krcm_spn.Cli.Run.Laws.{deliver-written}
use krcm_spn.Cli.Size.{parse_size}
use krcm_spn.ContainerV4.{EncryptV4Options, default_options}
use krcm_spn.HeaderV5.{EncryptV5Options}
use krcm_spn.Json.{Base64, Json}
use krcm_spn.Primitives.{Primitives, Rng}
use krcm_spn.Sampler.Draws.{Accepting}

module _ (c : Primitives) (rng : Rng) (json : Json) (base64 : Base64) (fuel : ℕ) (checks : Bool)
    (F : FileSystem) where
  -- The options that the arguments stand for.
  abbrev options_v4 : EncryptArgs F.FilePath → EncryptV4Options
  options_v4 args = record default_options { iterations = args.pbkdf2_iterations }

  abbrev options_v5 : EncryptArgs F.FilePath → ℕ → EncryptV5Options
  options_v5 args segment_size = record {
    kdf = make_kdf args.kdf args.pbkdf2_iterations args.scrypt_n_log2 args.scrypt_r args.scrypt_p;
    padding_policy = make_padding args.padding;
    segment_size = segment_size;
    workers = args.workers;
    salt = none;
    public_nonce = none;
  }

  -- Version 4 with options that its encryption takes, or version 5 with a segment size that is
  -- parsed and options that its encryption takes.
  abbrev pub IsAcceptedArgs : Bytes → EncryptArgs F.FilePath → Type 0
  IsAcceptedArgs password args =
      ((args.version ≡ 4) × IsAccepted c rng password (v4 (options_v4 args)))
      ⊎ ((args.version ≡ 5)
          × ((n : ℕ) × (parse_size args.segment_size ≡ ok n)
              × IsAccepted c rng password (v5 (options_v5 args n))))

  encrypt_version_lem :
      (args : EncryptArgs F.FilePath) (input password : Bytes)
      → IsAcceptedArgs password args
      → (opts : EncryptOptions) × IsAccepted c rng password opts
        × (encrypt_version c rng json base64 fuel checks F args input password
            ≡ encrypt_auto c rng json base64 fuel checks input password opts)
  unfolding encrypt_version encrypt_auto
  encrypt_version_lem args input password (inl (four, accepted)) =
      let this : (args.version == 4) ≡ true = (==_iff args.version 4).1 four in
      (v4 (options_v4 args), accepted, rw this refl)
  encrypt_version_lem args input password (inr (five, (n, sized, accepted))) =
      let other : (args.version == 4) ≡ false =
        ne→==_false args.version 4 (λ h. absurd (omega arith)) in
      let this : (args.version == 5) ≡ true = (==_iff args.version 5).1 five in
      (v5 (options_v5 args n), accepted, rw (other, this, sized) refl)

  module _ (L : IsLawful F) where
    -- What a successful `Encrypt` has read.
    record Encrypted (args : EncryptArgs F.FilePath) (s : F.State) (bytes : Bytes) : Type 0 where
      password : Bytes
      text_read : Bytes
      prompted : F.prompt 0 ≡ some password
      found : L.content s args.input ≡ some text_read
      sealed_as : encrypt_version c rng json base64 fuel checks F args text_read password ≡ ok bytes

    encrypt_file-Encrypted :
        (args : EncryptArgs F.FilePath) (s : F.State) {bytes : Bytes}
        → encrypt_file c rng json base64 fuel checks F args s ≡ ok bytes
        → Encrypted args s bytes
    unfolding encrypt_file
    encrypt_file-Encrypted args s {bytes} e =
        let seal_it = λ (password input : Bytes).
          encrypt_version c rng json base64 fuel checks F args input password in
        let read_it = λ (password : Bytes). ok_or (F.read s args.input) io >>= seal_it password in
        let ask = read_password F args.confirm_password >>= read_it in
        let (available, free, e1) =
          >>=-eq-ok (ensure_output_available F s args.output args.force) (λ (u : Unit {0}). ask)
            e in
        let (password, asked, e2) = >>=-eq-ok (read_password F args.confirm_password) read_it e1 in
        let (input, read, e3) = >>=-eq-ok (ok_or (F.read s args.input) io) (seal_it password) e2 in
        record {
          password = password;
          text_read = input;
          prompted = read_password_lem F args.confirm_password asked;
          found = L.read-content s args.input (ok_or-eq-ok (F.read s args.input) io read);
          sealed_as = e3;
        }

    same_password : {p q : Bytes} → F.prompt 0 ≡ some p → F.prompt 0 ≡ some q → p ≡ q
    same_password {p} {q} e f = some-injective {a = p} {b = q} (sym e ∙ f)

    same_content :
        (s : F.State) (path : F.FilePath) {x y : Bytes}
        → L.content s path ≡ some x
        → L.content s path ≡ some y
        → x ≡ y
    same_content s path {x} {y} e f = some-injective {a = x} {b = y} (sym e ∙ f)

    -- What was sealed with options that are accepted is opened again.
    reopened :
        Accepting c fuel
        → (args : EncryptArgs F.FilePath) (input password : Bytes) {container : Bytes}
        → IsBytes input
        → length input < 2 ^ 56
        → IsAcceptedArgs password args
        → encrypt_version c rng json base64 fuel checks F args input password ≡ ok container
        → decrypt_auto c rng json base64 fuel checks container password ≡ ok input
    reopened accepting args input password {container} bytes short accepted e =
        let (opts, taken, as_auto) = encrypt_version_lem args input password accepted in
        let (made, sealed_as, undone) =
          decrypt_auto-encrypt_auto c rng json base64 fuel checks accepting input password opts
            bytes short taken in
        let same : made ≡ container =
          Outcome-ok-injective {a = made} {b = container} (sym sealed_as ∙ sym as_auto ∙ e) in
        ap (λ (k : Bytes). decrypt_auto c rng json base64 fuel checks k password) {x = container}
          {y = made} (sym same)
        ∙ undone

    chained :
        Accepting c fuel
        → (args : EncryptArgs F.FilePath) (password input container out : Bytes) (s t : F.State)
        → F.prompt 0 ≡ some password
        → L.content s args.input ≡ some input
        → IsBytes input
        → length input < 2 ^ 56
        → IsAcceptedArgs password args
        → Encrypted args s container
        → L.content t args.output ≡ some container
        → Decrypted c rng json base64 fuel checks F L args.output t out
        → out ≡ input
    chained accepting args password input container out s t typed stored bytes short accepted E
          there D =
        let same_text = same_content s args.input stored E.found in
        let same_container = same_content t args.output there D.found in
        let sealed : encrypt_version c rng json base64 fuel checks F args input password
            ≡ ok container =
          ap₂ (λ (a b : Bytes). encrypt_version c rng json base64 fuel checks F args a b) same_text
            (same_password typed E.prompted)
          ∙ E.sealed_as in
        let undone : decrypt_auto c rng json base64 fuel checks container password ≡ ok out =
          ap₂ (λ (a b : Bytes). decrypt_auto c rng json base64 fuel checks a b) same_container
            (same_password typed D.prompted)
          ∙ D.opened_as in
        Outcome-ok-injective {a = out} {b = input}
          (sym undone ∙ reopened accepting args input password bytes short accepted sealed)

    -- On files that follow the laws, for an input file of bytes shorter than 2 ^ 56, one password
    -- typed at both prompts, arguments whose version is 4 or 5 and whose options the encryption
    -- takes, and samplers whose every draw ends within the fuel: where `Encrypt` succeeds and
    -- `Decrypt` of its output then succeeds, the output of `Decrypt` holds the input file's content
    -- as it was before.
    pub run-decrypt-run-encrypt :
        Accepting c fuel
        → (tries : ℕ) (args : EncryptArgs F.FilePath) (output : F.FilePath) (force : Bool)
          (password input : Bytes) (s : F.State)
        → F.prompt 0 ≡ some password
        → L.content s args.input ≡ some input
        → IsBytes input
        → length input < 2 ^ 56
        → IsAcceptedArgs password args
        → let first = run c rng json base64 fuel checks F tries (encrypt args) s in
          let second =
            run c rng json base64 fuel checks F tries (decrypt args.output output force) first.1 in
          first.0 ≡ ok tt → second.0 ≡ ok tt → L.content second.1 output ≡ some input
    unfolding run
    run-decrypt-run-encrypt accepting tries args output force password input s typed stored bytes
          short accepted done done' =
        let t = (run c rng json base64 fuel checks F tries (encrypt args) s).1 in
        let (container, made, there) =
          deliver-written F L tries args.output args.force
            (encrypt_file c rng json base64 fuel checks F args s) s done in
        let (out, opened_as, written) =
          deliver-written F L tries output force
            (decrypt_file c rng json base64 fuel checks F args.output output force t) t done' in
        let E = encrypt_file-Encrypted args s made in
        let D =
          decrypt_file-Decrypted c rng json base64 fuel checks F L args.output output force t
            opened_as in
        written
        ∙ ap some (
            chained accepting args password input container out s t typed stored bytes short
              accepted E there D)
