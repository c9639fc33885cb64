-- ===== src/HeaderV5/Laws.antt =====
-- `pack_public_header` and `parse_public_header` of crates/krcm-core/src/format_v5.rs.
use mathlib.Core.Path.{subst}
use krcm_spn.Base.{
  All-append, Bool, Bool-cases, Bytes, IsArray, IsByte, IsBytes, [], any_nonzero, ap, ap₂, arith,
  bytes_eq, drop, drop-append, err, false, from_be_acc, get_or, inl, inr, invalid_parameter, leb,
  length, length-append, le→ltb_false, max, ok, refl, replicate, suc, take, take-all, take-append,
  to_be_bytes, to_be_bytes-IsBytes, true, zero, ℕ, ◌%◌, ◌++◌, ◌+◌, ◌-◌, ◌<◌, ◌^◌, ◌∙◌, ◌∷◌, ◌≡◌,
  ◌≤◌, ◌⊎◌,
}
use krcm_spn.Constants.{magic_v5}
use krcm_spn.HeaderV5.{
  EncryptV5Options, PaddingPolicy, log_from, minimal_block, pack_kdf, pack_public_header,
  padding_id, parse_public_header, random_blocks, segment_size_log2,
}
use krcm_spn.HeaderV5.Total.{parse_kdf_total, parse_public_header_lem, parse_public_header_total}
use krcm_spn.Kdf.{KdfParams, pbkdf2_params, scrypt_params}

-- The search stops at the first exponent that is large enough.
log_from_lem :
    (fuel start n : ℕ)
    → n ≤ 2 ^ (fuel + start)
    → (start ≡ 0) ⊎ (2 ^ (start - 1) < n)
    → (n ≤ 2 ^ log_from fuel start n)
      × ((log_from fuel start n ≡ 0) ⊎ (2 ^ (log_from fuel start n - 1) < n))
unfolding log_from
log_from_lem zero start n h k = (subst (λ (t : ℕ). n ≤ 2 ^ t) {x = 0 + start} (omega arith) h, k)
log_from_lem (suc fuel) start n h k = elim (Bool-cases (leb n (2 ^ start))) [
  | inl found ↦ rw found (ground arith, k)
  | inr smaller ↦
      let above : 2 ^ start < n = ground arith in
      rw smaller (
        log_from_lem fuel (start + 1) n
          (subst (λ (t : ℕ). n ≤ 2 ^ t) {x = suc fuel + start} (omega arith) h)
          (inr (subst (λ (t : ℕ). 2 ^ t < n) {x = start} (omega arith) above)))
]

-- For a segment size from 32 to 2 ^ 63 the exponent in the header exists, and is the smallest one
-- whose power of two holds the size.
pub segment_size_log2_lem :
    (checks : Bool) (n : ℕ)
    → 32 ≤ n
    → n ≤ 2 ^ 63
    → (k : ℕ) × (segment_size_log2 checks n ≡ ok k) × (n ≤ 2 ^ k) × (2 ^ (k - 1) < n)
unfolding segment_size_log2
segment_size_log2_lem checks n lo hi =
    let (fits, least) = log_from_lem 63 0 n hi (inl refl) in
    (log_from 63 0 n, rw (le→ltb_false (2 ^ 63) n hi), fits, below (log_from 63 0 n) fits least)
  where
    below : (k : ℕ) → n ≤ 2 ^ k → (k ≡ 0) ⊎ (2 ^ (k - 1) < n) → 2 ^ (k - 1) < n
    below k fits (inl e) = absurd (omega (arith, subst (λ (t : ℕ). n ≤ 2 ^ t) e fits))
    below k fits (inr l) = l

-- What `parse_public_header` tests, and what it reads.
record IsHeader (header : Bytes) (kdf : KdfParams) (salt public_nonce : Bytes) : Type 0 where
  size : length header ≡ 64
  magic : bytes_eq (take 8 header) magic_v5 ≡ true
  version : get_or header 8 0 ≡ 5
  header_version : get_or header 9 0 ≡ 1
  flags : get_or header 11 0 ≡ 0
  reserved : any_nonzero (take 5 (drop 27 header)) ≡ false
  padding : get_or header 26 0 ≤ 1
  read_kdf : parse_kdf_total header ≡ ok kdf
  read_salt : take 16 (drop 32 header) ≡ salt
  read_nonce : take 16 (drop 48 header) ≡ public_nonce

parse_IsHeader :
    (header : Bytes) (kdf : KdfParams) (salt public_nonce : Bytes)
    → IsHeader header kdf salt public_nonce
    → parse_public_header header
      ≡ ok (record { kdf = kdf; salt = salt; public_nonce = public_nonce })
unfolding parse_public_header_total
parse_IsHeader header kdf salt public_nonce h = parse_public_header_lem header ∙ ground arith

-- The bytes behind the ten that are the same in every header.
abbrev layout : Bytes → ℕ → ℕ → Bytes → Bytes → Bytes
layout kdf size_log2 padding salt public_nonce =
    (magic_v5 ++ 5 ∷ 1 ∷ [])
    ++ (kdf ++ ((size_log2 ∷ padding ∷ 0 ∷ 0 ∷ 0 ∷ 0 ∷ 0 ∷ []) ++ (salt ++ public_nonce)))

module _ (size_log2 padding : ℕ) (salt public_nonce : Bytes) (hp : padding ≤ 1)
    (hs : length salt ≡ 16) (hn : length public_nonce ≡ 16) where
  nonce_behind_salt : take 16 (drop 16 (salt ++ public_nonce)) ≡ public_nonce
  nonce_behind_salt =
      ap (take 16) (drop-append 16 salt public_nonce hs) ∙ take-all 16 public_nonce (omega arith)

  pbkdf2-IsHeader :
      (iterations : ℕ)
      → iterations < 2 ^ 32
      → IsHeader
          (layout
            ((1 ∷ 0 ∷ []) ++ (to_be_bytes 4 iterations ++ replicate 9 0))
            size_log2
            padding
            salt
            public_nonce)
          (pbkdf2_params iterations)
          salt
          public_nonce
  unfolding to_be_bytes parse_kdf_total from_be_acc
  pbkdf2-IsHeader iterations fits = record {
    size = omega (arith, length-append salt public_nonce);
    magic = refl;
    version = refl;
    header_version = refl;
    flags = refl;
    reserved = refl;
    padding = hp;
    read_kdf = ap (λ (n : ℕ). ok (pbkdf2_params n)) (omega arith);
    read_salt = take-append 16 salt public_nonce hs;
    read_nonce = nonce_behind_salt;
  }

  scrypt-IsHeader :
      (n_log2 r p : ℕ)
      → r < 2 ^ 32
      → p < 2 ^ 32
      → IsHeader
          (layout
            ((2 ∷ 0 ∷ 0 ∷ 0 ∷ 0 ∷ 0 ∷ n_log2 ∷ []) ++ (to_be_bytes 4 r ++ to_be_bytes 4 p))
            size_log2
            padding
            salt
            public_nonce)
          (scrypt_params n_log2 r p)
          salt
          public_nonce
  unfolding to_be_bytes parse_kdf_total from_be_acc
  scrypt-IsHeader n_log2 r p fits_r fits_p = record {
    size = omega (arith, length-append salt public_nonce);
    magic = refl;
    version = refl;
    header_version = refl;
    flags = refl;
    reserved = refl;
    padding = hp;
    read_kdf = ap₂ (λ (a b : ℕ). ok (scrypt_params n_log2 a b)) (omega arith) (omega arith);
    read_salt = take-append 16 salt public_nonce hs;
    read_nonce = nonce_behind_salt;
  }

-- The parameters that `pack_public_header` takes.
abbrev pub IsValidKdf : KdfParams → Type 0
IsValidKdf (pbkdf2_params iterations) = (1 ≤ iterations) × (iterations ≤ 1_000_000)
IsValidKdf (scrypt_params n_log2 r p) = (n_log2 ≤ 15) × (1 ≤ r) × (r ≤ 8) × (1 ≤ p) × (p ≤ 2)

-- The packed parameters, with what the header around them is then read as.
pack_kdf_lem :
    (params : KdfParams)
    → IsValidKdf params
    → (kdf : Bytes) × (pack_kdf params ≡ ok kdf)
      × IsBytes kdf
      × ((size_log2 padding : ℕ) (salt public_nonce : Bytes)
          → padding ≤ 1
          → length salt ≡ 16
          → length public_nonce ≡ 16
          → IsHeader (layout kdf size_log2 padding salt public_nonce) params salt public_nonce)
unfolding pack_kdf
pack_kdf_lem (pbkdf2_params iterations) h = (
  (1 ∷ 0 ∷ []) ++ (to_be_bytes 4 iterations ++ replicate 9 0),
  ground arith,
  All-append IsByte (1 ∷ 0 ∷ []) _ (omega arith) (
      All-append IsByte (to_be_bytes 4 iterations) _ (to_be_bytes-IsBytes 4 iterations)
        (omega arith)),
  λ size_log2 padding salt public_nonce hp hs hn.
      pbkdf2-IsHeader size_log2 padding salt public_nonce hp hs hn iterations (omega arith),
)
pack_kdf_lem (scrypt_params n_log2 r p) h = (
  (2 ∷ 0 ∷ 0 ∷ 0 ∷ 0 ∷ 0 ∷ n_log2 ∷ []) ++ (to_be_bytes 4 r ++ to_be_bytes 4 p),
  ground arith,
  All-append IsByte (2 ∷ 0 ∷ 0 ∷ 0 ∷ 0 ∷ 0 ∷ n_log2 ∷ []) _ (omega arith)
      (All-append IsByte (to_be_bytes 4 r) _ (to_be_bytes-IsBytes 4 r) (to_be_bytes-IsBytes 4 p)),
  λ size_log2 padding salt public_nonce hp hs hn.
      scrypt-IsHeader size_log2 padding salt public_nonce hp hs hn n_log2 r p (omega arith)
        (omega arith),
)

layout-IsBytes :
    (kdf : Bytes) (size_log2 padding : ℕ) (salt public_nonce : Bytes)
    → IsBytes kdf
    → padding ≤ 1
    → IsBytes salt
    → IsBytes public_nonce
    → IsBytes (layout kdf (size_log2 % 256) padding salt public_nonce)
layout-IsBytes kdf size_log2 padding salt public_nonce hk hp hs hn =
    All-append IsByte (magic_v5 ++ 5 ∷ 1 ∷ []) _ (omega arith) (
      All-append IsByte kdf _ hk (
        All-append IsByte (size_log2 % 256 ∷ padding ∷ 0 ∷ 0 ∷ 0 ∷ 0 ∷ 0 ∷ []) _ (omega arith)
          (All-append IsByte salt public_nonce hs hn)))

padding_id-le : (p : PaddingPolicy) → padding_id p ≤ 1
padding_id-le minimal_block = omega arith
padding_id-le (random_blocks n) = omega arith

-- Valid key derivation parameters, a segment size of at most 2 ^ 63 and a salt and a nonce of 16
-- bytes give a header of 64 bytes, from which the same parameters, salt and nonce are parsed.
pub public_header_round_trip :
    (checks : Bool) (opts : EncryptV5Options) (salt public_nonce : Bytes)
    → IsValidKdf opts.kdf
    → opts.segment_size ≤ 2 ^ 63
    → IsArray 16 salt
    → IsArray 16 public_nonce
    → (header : Bytes) × (pack_public_header checks opts salt public_nonce ≡ ok header)
      × IsArray 64 header
      × (parse_public_header header
          ≡ ok (record { kdf = opts.kdf; salt = salt; public_nonce = public_nonce }))
unfolding pack_public_header
public_header_round_trip checks opts salt public_nonce hk size hs hn =
    let (kdf, packed, kdf_bytes, around) = pack_kdf_lem opts.kdf hk in
    let (size_log2, found, fits, least) =
      segment_size_log2_lem checks (max opts.segment_size 32) (omega arith) (omega arith) in
    let padding = padding_id opts.padding_policy in
    let low = padding_id-le opts.padding_policy in
    let header = around (size_log2 % 256) padding salt public_nonce low hs.0 hn.0 in
    (
      layout kdf (size_log2 % 256) padding salt public_nonce,
      rw (packed, found),
      (header.size, layout-IsBytes kdf size_log2 padding salt public_nonce kdf_bytes low hs.1 hn.1),
      parse_IsHeader _ opts.kdf salt public_nonce header,
    )

-- `pack_public_header` refuses key derivation parameters that are not valid as an invalid
-- parameter, whatever the other options are.
pub pack_public_header_refuses :
    (checks : Bool) (opts : EncryptV5Options) (salt public_nonce : Bytes)
    → ¬ IsValidKdf opts.kdf
    → pack_public_header checks opts salt public_nonce ≡ err invalid_parameter
unfolding pack_public_header
pack_public_header_refuses checks opts salt public_nonce h = rw (refused opts.kdf h)
  where
    refused : (params : KdfParams) → ¬ IsValidKdf params → pack_kdf params ≡ err invalid_parameter
    refused (pbkdf2_params iterations) h = unfold pack_kdf in ground arith
    refused (scrypt_params n_log2 r p) h = unfold pack_kdf in ground arith
