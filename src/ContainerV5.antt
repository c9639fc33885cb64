-- ===== src/ContainerV5.antt =====
-- A version 5 container of crates/krcm-core/src/format_v5.rs: `encrypt_v5` and `decrypt_v5`.
pub mod Total
pub mod Layout
pub mod RoundTrip
pub mod Authentic
pub mod Overflow
pub mod Reads
pub mod Settles
pub mod Sized
pub mod Transcript
use krcm_spn.Base.{
  Bool, Bytes, List, Outcome, [], add_u64, authentication, bytes_eq, codes, fail_if, format,
  from_be_bytes, index, length, ltb, not, ok, slice, take, to_be_bytes, ℕ, ◌!=◌, ◌%◌, ◌++◌, ◌+◌,
  ◌>>=◌, ◌>>◌, ◌||◌, ◌∷◌,
}
use krcm_spn.Constants.{
  header_v5_size, magic_v5, outer_prefix_bytes, segment_entry_bytes, synthetic_iv_bytes, tag_bytes,
  tag_domain,
}
use krcm_spn.HeaderV5.{EncryptV5Options, ParsedHeader, pack_public_header, parse_public_header}
use krcm_spn.InnerV5.{inspect_inner, pack_inner, unpack_inner}
use krcm_spn.Kdf.{V5Keys, derive_root_key, derive_v5_keys, hmac_sha256}
use krcm_spn.Primitives.{Primitives, Rng, unwrap_or_fill}
use krcm_spn.Segment.{SegmentEntry, parse_segment_table}
use krcm_spn.Segment.Cipher.{decrypt_segments, encrypt_segments}

-- The fields of a container, in their order behind the outer prefix.
pub record Parts : Type 0 where
  pub public_header : Bytes
  pub parsed : ParsedHeader
  pub stored_synthetic_iv : Bytes
  pub segment_table : Bytes
  pub ciphertext : Bytes
  pub tag : Bytes

unfoldable pub append_field : Bytes → Bytes → Bytes
append_field out field = out ++ (to_be_bytes 8 (length field) ++ field)

-- What the tag is computed of.
unfoldable pub tag_transcript : Bytes → Bytes → Bytes → Bytes → Bytes
tag_transcript public_header iv segment_table ciphertext =
    let domain = append_field [] tag_domain in
    let header = append_field domain public_header in
    let table = append_field (append_field header iv) segment_table in append_field table ciphertext

module _ (c : Primitives) where
  unfoldable pub synthetic_iv : V5Keys → Bytes → Bytes → Bytes
  synthetic_iv keys public_header inner = hmac_sha256 c keys.siv_key (
      codes "KRCM-v5-SIV"
      ++ (to_be_bytes 8 (length public_header)
          ++ (public_header ++ (to_be_bytes 8 (length inner) ++ inner))))

  -- Both handlers compute this and drop it, so they are modelled without the call.
  unfoldable pub effective_nonce : V5Keys → Bytes → Bytes → Bytes
  effective_nonce keys public_nonce iv =
      take 16
        (hmac_sha256 c keys.block_key (codes "KRCM-v5-effective-nonce" ++ (public_nonce ++ iv)))

  unfoldable pub tag_v5 : V5Keys → Bytes → Bytes → Bytes → Bytes → Bytes
  tag_v5 keys public_header iv segment_table ciphertext =
      hmac_sha256 c keys.auth_key (tag_transcript public_header iv segment_table ciphertext)

unfoldable pub assemble : Bytes → Bytes → Bytes → Bytes → Bytes → Bytes
assemble public_header iv segment_table ciphertext tag =
    (magic_v5 ++ 5 ∷ [])
    ++ (to_be_bytes 4 header_v5_size
        ++ (public_header
            ++ (iv
                ++ (to_be_bytes 8 (length segment_table)
                    ++ (segment_table
                        ++ (to_be_bytes 8 (length ciphertext) ++ (ciphertext ++ tag)))))))

module _ (c : Primitives) (rng : Rng) (fuel : ℕ) (checks : Bool) where
  unfoldable pub encrypt_v5 : Bytes → Bytes → EncryptV5Options → Outcome Bytes
  encrypt_v5 input password opts = do
    let (salt, call1) = unwrap_or_fill rng opts.salt 0
    let (public_nonce, call2) = unwrap_or_fill rng opts.public_nonce call1
    public_header ← pack_public_header checks opts salt public_nonce
    root ← derive_root_key c password salt opts.kdf
    let keys = derive_v5_keys c root
    let inner = pack_inner c rng checks input opts.padding_policy call2
    let iv = synthetic_iv c keys public_header inner
    (segment_table, ciphertext) ←
        encrypt_segments c fuel checks inner keys public_nonce iv opts.segment_size opts.workers
    let tag = tag_v5 c keys public_header iv segment_table ciphertext
    ok (assemble public_header iv segment_table ciphertext tag)

-- The field, and the offset behind it.
module _ (checks : Bool) where
  unfoldable pub read_fixed_32 : Bytes → ℕ → Outcome (Bytes × ℕ)
  read_fixed_32 container offset = do
    end ← add_u64 checks offset 32
    fail_if (ltb (length container) end) format
    out ← slice container offset end
    ok (out, end)

  unfoldable pub read_u64_at : Bytes → ℕ → Outcome (ℕ × ℕ)
  read_u64_at container offset = do
    end ← add_u64 checks offset 8
    fail_if (ltb (length container) end) format
    out ← slice container offset end
    ok (from_be_bytes out, end)

  -- `decrypt_v5` up to the tag. The table, the ciphertext and their ends are sums of offsets that
  -- come from the container.
  unfoldable pub read_parts : Bytes → Outcome Parts
  read_parts container = do
    fail_if
        (ltb (length container)
          (outer_prefix_bytes + header_v5_size + synthetic_iv_bytes + tag_bytes))
        format
    magic ← slice container 0 8
    fail_if (not (bytes_eq magic magic_v5)) format
    version ← index container 8
    fail_if (version != 5) format
    header_len ← slice container 9 13
    fail_if (from_be_bytes header_len != header_v5_size) format
    public_header ← slice container 13 (13 + header_v5_size)
    parsed ← parse_public_header public_header
    (stored_iv, offset1) ← read_fixed_32 container (13 + header_v5_size)
    (segment_table_len, offset2) ← read_u64_at container offset1
    fail_if (segment_table_len % segment_entry_bytes != 0) format
    table_end ← add_u64 checks offset2 segment_table_len
    fail_if (ltb (length container) table_end) format
    segment_table ← slice container offset2 table_end
    (ciphertext_len, offset3) ← read_u64_at container table_end
    ciphertext_end ← add_u64 checks offset3 ciphertext_len
    container_end ← add_u64 checks ciphertext_end tag_bytes
    fail_if (container_end != length container) format
    ciphertext ← slice container offset3 ciphertext_end
    tag ← slice container ciphertext_end (length container)
    ok (record {
      public_header = public_header;
      parsed = parsed;
      stored_synthetic_iv = stored_iv;
      segment_table = segment_table;
      ciphertext = ciphertext;
      tag = tag;
    })

  -- `iter().map(|entry| entry.plain_length).sum()` on u64, from `sum` on.
  unfoldable pub plain_length_sum : ℕ → List SegmentEntry → Outcome ℕ
  plain_length_sum sum [] = ok sum
  plain_length_sum sum (e ∷ es) =
      add_u64 checks sum e.plain_length >>= λ next. plain_length_sum next es

module _ (c : Primitives) (rng : Rng) (fuel : ℕ) (checks : Bool) where
  -- `decrypt_v5` from the tag on.
  unfoldable pub open_parts : Parts → Bytes → Outcome Bytes
  open_parts parts password = do
    let header = parts.parsed
    let iv = parts.stored_synthetic_iv
    root ← derive_root_key c password header.salt header.kdf
    let keys = derive_v5_keys c root
    let expected = tag_v5 c keys parts.public_header iv parts.segment_table parts.ciphertext
    fail_if (not (c.ct_eq parts.tag expected)) authentication
    entries ← parse_segment_table parts.segment_table (length parts.ciphertext)
    inner ← decrypt_segments c fuel checks entries parts.ciphertext keys header.public_nonce iv
    let recomputed = synthetic_iv c keys parts.public_header inner
    fail_if (not (c.ct_eq iv recomputed)) authentication
    info ← inspect_inner c rng checks inner
    segment_plain_sum ← plain_length_sum checks 0 entries
    fail_if ((segment_plain_sum != length inner) || ltb (length inner) info.payload_length) format
    unpack_inner c rng checks inner

  unfoldable pub decrypt_v5 : Bytes → Bytes → Outcome Bytes
  decrypt_v5 container password = read_parts checks container >>= λ parts. open_parts parts password
