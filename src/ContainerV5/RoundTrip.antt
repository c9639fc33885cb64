-- ===== src/ContainerV5/RoundTrip.antt =====
-- `decrypt_v5` of crates/krcm-core/src/format_v5.rs on what `encrypt_v5` makes.
use krcm_spn.Base.{
  Bool, Bytes, IsArray, IsBytes, List, [], add_u64_fits, ap, arith, eq→!=_false, length,
  le→ltb_false, ok, refl, true, ℕ, ◌+◌, ◌<◌, ◌^◌, ◌∙◌, ◌∷◌, ◌≡◌, ◌≤◌,
}
use krcm_spn.ContainerV5.{
  Parts, assemble, decrypt_v5, encrypt_v5, open_parts, plain_length_sum, synthetic_iv, tag_v5,
}
use krcm_spn.ContainerV5.Layout.{assemble-IsBytes, read_parts-assemble}
use krcm_spn.HeaderV5.{EncryptV5Options, PaddingPolicy, ParsedHeader}
use krcm_spn.HeaderV5.Laws.{IsValidKdf, public_header_round_trip}
use krcm_spn.InnerV5.{inspect_inner, pack_inner, unpack_inner}
use krcm_spn.InnerV5.Laws.{unpack_inner-pack_inner}
use krcm_spn.Kdf.{V5Keys, derive_root_key, derive_v5_keys, hmac_sha256}
use krcm_spn.Primitives.{IsGiven, Primitives, Rng, unwrap_or_fill, unwrap_or_fill-IsArray}
use krcm_spn.Sampler.Draws.{Accepting}
use krcm_spn.Segment.{SegmentEntry, serialize_segment_table}
use krcm_spn.Segment.RoundTrip.{Segments, Segments-round_trip, plain_total}
use krcm_spn.Segment.Table.{
  length-serialize_segment_table, parse_segment_table_iff, serialize_segment_table-IsBytes,
}

-- What the types and the tests of the source ask of the options; the size of a segment is one that
-- a machine can hold.
abbrev pub IsValidOptions : EncryptV5Options → Type 0
IsValidOptions opts =
    IsValidKdf opts.kdf
    × (opts.segment_size ≤ 2 ^ 63)
    × IsGiven opts.salt
    × IsGiven opts.public_nonce

-- The sum of the table's lengths, where it fits.
plain_length_sum_lem :
    (checks : Bool) (sum : ℕ) (es : List SegmentEntry)
    → sum + plain_total es < 2 ^ 64
    → plain_length_sum checks sum es ≡ ok (sum + plain_total es)
unfolding plain_length_sum
plain_length_sum_lem checks sum [] h = ap ok {x = sum} {y = sum + 0} (omega arith)
plain_length_sum_lem checks sum (e ∷ es) h =
    rw (add_u64_fits checks sum e.plain_length (omega arith)) (
      plain_length_sum_lem checks (sum + e.plain_length) es (omega arith)
      ∙ ap ok {x = sum + e.plain_length + plain_total es}
          {y = sum + (e.plain_length + plain_total es)} (omega arith))

module _ (c : Primitives) (rng : Rng) (fuel : ℕ) (accepting : Accepting c fuel)
    (checks : Bool) where
  tag_v5-IsArray :
      (keys : V5Keys) (header iv table ciphertext : Bytes)
      → IsArray 32 (tag_v5 c keys header iv table ciphertext)
  unfolding tag_v5 hmac_sha256
  tag_v5-IsArray keys header iv table ciphertext = c.hmac-IsArray keys.auth_key _

  synthetic_iv-IsArray :
      (keys : V5Keys) (header inner : Bytes) → IsArray 32 (synthetic_iv c keys header inner)
  unfolding synthetic_iv hmac_sha256
  synthetic_iv-IsArray keys header inner = c.hmac-IsArray keys.siv_key _

  ct_eq_refl : (a : Bytes) → c.ct_eq a a ≡ true
  ct_eq_refl a = (c.ct_eq_iff a a).1 refl

  -- The second half of `decrypt_v5` on the parts that `encrypt_v5` makes of a payload.
  module _ (input : Bytes) (padding : PaddingPolicy) (call : ℕ) (bytes : IsBytes input)
      (short : length input < 2 ^ 56) (header password root : Bytes) (parsed : ParsedHeader)
      (derived : derive_root_key c password parsed.salt parsed.kdf ≡ ok root)
      (segment_size workers : ℕ) where
    abbrev keys : V5Keys
    keys = derive_v5_keys c root

    abbrev inner : Bytes
    inner = pack_inner c rng checks input padding call

    abbrev iv : Bytes
    iv = synthetic_iv c keys header inner

    inner_facts :
        IsBytes inner
        × (76 + length input ≤ length inner)
        × (length inner ≤ 556 + length input)
        × (inspect_inner c rng checks inner
            ≡ ok (record { original_length = length input; payload_length = length input }))
        × (unpack_inner c rng checks inner ≡ ok input)
    inner_facts = unpack_inner-pack_inner c rng checks input padding call bytes (omega arith)

    segments :
        Segments c fuel accepting checks keys parsed.public_nonce iv inner segment_size workers
    segments =
        let (inner_bytes, lo, hi, inspected, undone) = inner_facts in
        Segments-round_trip c fuel accepting checks keys parsed.public_nonce iv inner segment_size
          workers inner_bytes (omega arith) (omega arith)

    abbrev table : Bytes
    table = serialize_segment_table segments.entries

    abbrev tag : Bytes
    tag = tag_v5 c keys header iv table segments.ciphertext

    abbrev parts : Parts
    parts = record {
      public_header = header;
      parsed = parsed;
      stored_synthetic_iv = iv;
      segment_table = table;
      ciphertext = segments.ciphertext;
      tag = tag;
    }

    open_parts_lem : open_parts c rng fuel checks parts password ≡ ok input
    unfolding open_parts
    open_parts_lem =
        let (inner_bytes, lo, hi, inspected, undone) = inner_facts in
        let n = length inner in
        let total = segments.total in
        let parsed_table =
          (parse_segment_table_iff table (length segments.ciphertext) segments.entries
              (serialize_segment_table-IsBytes segments.entries)).1
            (refl, segments.nonempty, segments.ordered) in
        let sum : plain_length_sum checks 0 segments.entries ≡ ok n =
          plain_length_sum_lem checks 0 segments.entries (omega arith)
          ∙ ap ok {x = 0 + plain_total segments.entries} {y = n} (omega arith) in
        rw
          (
            derived,
            ct_eq_refl tag,
            parsed_table,
            segments.opened,
            ct_eq_refl iv,
            inspected,
            sum,
            eq→!=_false n n refl,
            le→ltb_false n (length input) (omega arith),
            undone,
          )
          refl

  -- The container is bytes as well.
  pub sealed_container :
      (input password : Bytes) (opts : EncryptV5Options) (root : Bytes)
      → IsBytes input
      → length input < 2 ^ 56
      → IsValidOptions opts
      → derive_root_key c password (unwrap_or_fill rng opts.salt 0).0 opts.kdf ≡ ok root
      → (container : Bytes) × (encrypt_v5 c rng fuel checks input password opts ≡ ok container)
        × (decrypt_v5 c rng fuel checks container password ≡ ok input)
        × IsBytes container
  unfolding encrypt_v5 decrypt_v5
  sealed_container input password opts root bytes short (valid, size, given_salt, given_nonce) e =
      let salt = (unwrap_or_fill rng opts.salt 0).0 in
      let call1 = (unwrap_or_fill rng opts.salt 0).1 in
      let public_nonce = (unwrap_or_fill rng opts.public_nonce call1).0 in
      let call2 = (unwrap_or_fill rng opts.public_nonce call1).1 in
      let (header, packed, header_array, parsed) =
        public_header_round_trip checks opts salt public_nonce valid size
          (unwrap_or_fill-IsArray rng opts.salt 0 given_salt)
          (unwrap_or_fill-IsArray rng opts.public_nonce call1 given_nonce) in
      let p : ParsedHeader = record { kdf = opts.kdf; salt = salt; public_nonce = public_nonce } in
      let k = derive_v5_keys c root in
      let plain = pack_inner c rng checks input opts.padding_policy call2 in
      let (inner_bytes, lo, hi, inspected, undone) =
        unpack_inner-pack_inner c rng checks input opts.padding_policy call2 bytes (omega arith) in
      let s =
        segments input opts.padding_policy call2 bytes short header password root p e
          opts.segment_size opts.workers in
      let t = serialize_segment_table s.entries in
      let v = synthetic_iv c k header plain in
      let mark = tag_v5 c k header v t s.ciphertext in
      let count = length-serialize_segment_table s.entries in
      let read =
        read_parts-assemble checks header v t s.ciphertext mark header_array.0
          (synthetic_iv-IsArray k header plain).0 (omega (arith, count))
          (tag_v5-IsArray k header v t s.ciphertext).0 (omega (arith, count, s.small, s.short, hi))
          p parsed in
      let opened =
        open_parts_lem input opts.padding_policy call2 bytes short header password root p e
          opts.segment_size opts.workers in
      (
        assemble header v t s.ciphertext mark,
        rw (packed, e, s.made) refl,
        rw read opened,
        assemble-IsBytes header v t s.ciphertext mark header_array.1
            (synthetic_iv-IsArray k header plain).1 (serialize_segment_table-IsBytes s.entries)
            s.bytes (tag_v5-IsArray k header v t s.ciphertext).1,
      )

  -- For a payload of bytes shorter than 2 ^ 56, options that are valid, a root key derived from the
  -- password and the salt in use, and samplers whose every draw ends within the fuel: `encrypt_v5`
  -- returns a container, and `decrypt_v5` of it with the same password returns the payload, for
  -- every padding policy, segment size up to 2 ^ 63, number of workers and random bytes.
  pub decrypt_v5-encrypt_v5 :
      (input password : Bytes) (opts : EncryptV5Options) (root : Bytes)
      → IsBytes input
      → length input < 2 ^ 56
      → IsValidOptions opts
      → derive_root_key c password (unwrap_or_fill rng opts.salt 0).0 opts.kdf ≡ ok root
      → (container : Bytes) × (encrypt_v5 c rng fuel checks input password opts ≡ ok container)
        × (decrypt_v5 c rng fuel checks container password ≡ ok input)
  decrypt_v5-encrypt_v5 input password opts root bytes short valid e =
      let (container, made, undone, sealed) =
        sealed_container input password opts root bytes short valid e in
      (container, made, undone)
