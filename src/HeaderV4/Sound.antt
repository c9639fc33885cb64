-- ===== src/HeaderV4/Sound.antt =====
-- What `from_json_bytes` of crates/krcm-core/src/header_v4.rs accepts, and that it ends.
use mathlib.Core.Path.{subst}
use krcm_spn.Base.{
  !=_false→eq, >>=-Settled, >>=-eq-ok, Bytes, IsArray, Outcome, Outcome-ok-injective, Settled,
  arith, codes, fail_if, fail_if-Settled, fail_if_passed, false, format, leb, length, not,
  not-false, ok, ok_or, ok_or-Settled, ok_or-eq-ok, refl, true, unsupported_version, ℕ, ◌!=◌, ◌%◌,
  ◌&&◌, ◌<◌, ◌>>=◌, ◌>>◌, ◌^◌, ◌≡◌, ◌≤◌,
}
use krcm_spn.HeaderV4.{HeaderV4, decode_fixed, from_json_bytes, is_number, is_text, read_fields}
use krcm_spn.HeaderV4.Laws.{IsValidHeader}
use krcm_spn.Json.{Base64, Json}
use krcm_spn.Kdf.{bad_iterations}

known_lem : (v : ℕ) → (leb 2 v && leb v 4) ≡ true → (2 ≤ v) × (v ≤ 4)
known_lem v h = ground arith

iterations_lem : (i : ℕ) → bad_iterations i ≡ false → (1 ≤ i) × (i ≤ 1_000_000)
iterations_lem i h = ground arith

module _ (json : Json) (base64 : Base64) where
  decode_fixed-IsArray :
      (n : ℕ) (input : Bytes) {bytes : Bytes}
      → decode_fixed base64 n input ≡ ok bytes
      → IsArray n bytes
  unfolding decode_fixed
  decode_fixed-IsArray n input {bytes} e =
      let check = λ (found : Bytes). fail_if (length found != n) format >> ok found in
      let (found, decoded, e1) = >>=-eq-ok (ok_or (base64.decode input) format) check e in
      let (size, e2) = fail_if_passed (length found != n) format (ok found) e1 in
      let same : found ≡ bytes = Outcome-ok-injective e2 in
      subst (IsArray n) same (
        !=_false→eq (length found) n size,
        base64.decode-IsBytes input (ok_or-eq-ok _ format decoded),
      )

  read_fields_sound :
      (p : json.Value) (v : ℕ) {header : HeaderV4}
      → 2 ≤ v
      → v ≤ 4
      → read_fields json base64 p v ≡ ok header
      → IsValidHeader header × (header.version ≡ v)
  unfolding read_fields
  read_fields_sound p v {header} low high e =
      let result = λ (i n : ℕ) (salt nonce : Bytes).
        let r : HeaderV4 = record {
          version = v;
          iterations = i;
          salt = salt;
          nonce = nonce;
          original_length = n;
        } in
        r in
      let done = λ (i n : ℕ) (salt nonce : Bytes).
        let r : Outcome HeaderV4 = ok (result i n salt nonce) in r in
      let text_of = λ (key : Bytes). ok_or (json.get_str key p) format in
      let fixed = decode_fixed base64 16 in
      let s4 = λ (i n : ℕ) (salt t : Bytes). fixed t >>= done i n salt in
      let s3 = λ (i n : ℕ) (salt : Bytes). text_of (codes "nonce") >>= s4 i n salt in
      let s2 = λ (i n : ℕ) (t : Bytes). fixed t >>= s3 i n in
      let s1 = λ (i n : ℕ). text_of (codes "salt") >>= s2 i n in
      let length_of = ok_or (json.get_u64 (codes "original_length") p) format in
      let iterations_of = ok_or (json.get_u64 (codes "iterations") p) format in
      let s0 = λ (i : ℕ). length_of >>= s1 i in
      let start = λ (i : ℕ). fail_if (bad_iterations i) format >> s0 i in
      let (i, has_iterations, e1) = >>=-eq-ok iterations_of start e in
      let (t1, e2) = fail_if_passed (bad_iterations i) format (s0 i) e1 in
      let (n, has_length, e3) = >>=-eq-ok length_of (s1 i) e2 in
      let (t, has_salt, e4) = >>=-eq-ok (text_of (codes "salt")) (s2 i n) e3 in
      let (salt, salt_decoded, e5) = >>=-eq-ok (fixed t) (s3 i n) e4 in
      let (u, has_nonce, e6) = >>=-eq-ok (text_of (codes "nonce")) (s4 i n salt) e5 in
      let (nonce, nonce_decoded, e7) = >>=-eq-ok (fixed u) (done i n salt) e6 in
      let (some_round, few) = iterations_lem i t1 in
      let salt_array = decode_fixed-IsArray 16 t {bytes = salt} salt_decoded in
      let nonce_array = decode_fixed-IsArray 16 u {bytes = nonce} nonce_decoded in
      let fits : n < 2 ^ 64 =
        json.get_u64-lt (codes "original_length") p {n = n}
          (ok_or-eq-ok (json.get_u64 (codes "original_length") p) format {v = n} has_length) in
      let same : result i n salt nonce ≡ header = Outcome-ok-injective e7 in
      subst (λ (h : HeaderV4). IsValidHeader h × (h.version ≡ v)) {x = result i n salt nonce}
        {y = header} same ((low, high, some_round, few, salt_array, nonce_array, fits), refl)

  -- A header that `from_json_bytes` returns has a version from 2 to 4, 1 to 1 000 000 iterations, a
  -- salt and a nonce of 16 bytes and a length below 2 ^ 64.
  pub from_json_bytes_sound :
      (input : Bytes) {header : HeaderV4}
      → from_json_bytes json base64 input ≡ ok header
      → IsValidHeader header
  unfolding from_json_bytes
  from_json_bytes_sound input {header} e =
      let known = λ (v : ℕ). leb 2 (v % 256) && leb (v % 256) 4 in
      let is_10 = λ (p : json.Value). is_number (json.get_u64 (codes "rounds") p) 10 in
      let is_32 = λ (p : json.Value). is_number (json.get_u64 (codes "block_bytes") p) 32 in
      let is_magic =
        λ (p : json.Value). is_text (json.get_str (codes "magic") p) (codes "AMPCRYPT") in
      let version_of = λ (p : json.Value). ok_or (json.get_u64 (codes "version") p) format in
      let s4 = λ (p : json.Value) (v : ℕ). read_fields json base64 p (v % 256) in
      let s3 = λ (p : json.Value) (v : ℕ). fail_if (not (is_10 p)) format >> s4 p v in
      let s2 = λ (p : json.Value) (v : ℕ). fail_if (not (is_32 p)) format >> s3 p v in
      let s1 = λ (p : json.Value) (v : ℕ). fail_if (not (known v)) unsupported_version >> s2 p v in
      let s0 = λ (p : json.Value). version_of p >>= s1 p in
      let start = λ (p : json.Value). fail_if (not (is_magic p)) format >> s0 p in
      let (p, parsed, e0) = >>=-eq-ok (ok_or (json.from_slice input) format) start e in
      let (t0, e1) = fail_if_passed (not (is_magic p)) format (s0 p) e0 in
      let (v, has_version, e2) = >>=-eq-ok (version_of p) (s1 p) e1 in
      let (t1, e3) = fail_if_passed (not (known v)) unsupported_version (s2 p v) e2 in
      let (t2, e4) = fail_if_passed (not (is_32 p)) format (s3 p v) e3 in
      let (t3, e5) = fail_if_passed (not (is_10 p)) format (s4 p v) e4 in
      let (low, high) = known_lem (v % 256) (not-false (known v) t1) in
      (read_fields_sound p (v % 256) {header = header} low high e5).0

  decode_fixed-Settled : (n : ℕ) (input : Bytes) → Settled (decode_fixed base64 n input)
  unfolding decode_fixed
  decode_fixed-Settled n input =
      >>=-Settled (ok_or (base64.decode input) format) _ (ok_or-Settled _ format)
        (λ found. fail_if-Settled (length found != n) format _ (λ sized. tt))

  read_fields-Settled : (p : json.Value) (version : ℕ) → Settled (read_fields json base64 p version)
  unfolding read_fields
  read_fields-Settled p version =
      >>=-Settled _ _ (ok_or-Settled (json.get_u64 (codes "iterations") p) format) (λ iterations.
        fail_if-Settled (bad_iterations iterations) format _ (λ good.
          >>=-Settled _ _ (ok_or-Settled (json.get_u64 (codes "original_length") p) format) (λ n.
            >>=-Settled _ _ (ok_or-Settled (json.get_str (codes "salt") p) format) (λ t.
              >>=-Settled _ _ (decode_fixed-Settled 16 t) (λ salt.
                >>=-Settled _ _ (ok_or-Settled (json.get_str (codes "nonce") p) format)
                  (λ u. >>=-Settled _ _ (decode_fixed-Settled 16 u) (λ nonce. tt)))))))

  pub from_json_bytes-Settled : (input : Bytes) → Settled (from_json_bytes json base64 input)
  unfolding from_json_bytes
  from_json_bytes-Settled input =
      >>=-Settled _ _ (ok_or-Settled (json.from_slice input) format) (λ p.
        fail_if-Settled (not (is_text (json.get_str (codes "magic") p) (codes "AMPCRYPT"))) format _
          (λ magic. >>=-Settled _ _ (ok_or-Settled (json.get_u64 (codes "version") p) format) (λ v.
            fail_if-Settled (not (leb 2 (v % 256) && leb (v % 256) 4)) unsupported_version _
              (λ known.
                fail_if-Settled (not (is_number (json.get_u64 (codes "block_bytes") p) 32)) format _
                  (λ blocks.
                    fail_if-Settled (not (is_number (json.get_u64 (codes "rounds") p) 10)) format _
                      (λ ten. read_fields-Settled p (v % 256)))))))
