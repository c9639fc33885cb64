-- ===== src/Segment/Cipher.antt =====
-- `encrypt_segments`, `encrypt_segment` and `decrypt_segments` of crates/krcm-core/src/format_v5.rs.
use krcm_spn.Base.{
  Bool, Bytes, List, Outcome, [], add_u64, authentication, codes, collect, drop, fail_if,
  if◌then◌else◌, length, ltb, max, ok, slice, suc, take, to_be_bytes, zero, ℕ, ◌!=◌, ◌&&◌, ◌++◌,
  ◌+◌, ◌>>=◌, ◌>>◌, ◌∷◌,
}
use krcm_spn.Block.{decrypt_blocks, encrypt_blocks}
use krcm_spn.Constants.{block_bytes}
use krcm_spn.Kdf.{V5Keys, hmac_sha256}
use krcm_spn.Padding.{pad, unpad}
use krcm_spn.Primitives.{Primitives}
use krcm_spn.Segment.{SegmentEntry, serialize_segment_table}

-- `inner.chunks(size)`, with at most as many rounds as bytes.
unfoldable pub chunks_of : ℕ → ℕ → Bytes → List Bytes
chunks_of zero size bytes = []
chunks_of (suc n) size [] = []
chunks_of (suc n) size (b ∷ bs) = take size (b ∷ bs) ∷ chunks_of n size (drop size (b ∷ bs))

-- `.enumerate()`
unfoldable pub enumerate_from : ℕ → List Bytes → List (ℕ × Bytes)
enumerate_from i [] = []
enumerate_from i (p ∷ ps) = (i, p) ∷ enumerate_from (i + 1) ps

module _ (c : Primitives) (fuel : ℕ) (checks : Bool) where
  unfoldable pub segment_nonce : V5Keys → Bytes → Bytes → ℕ → Bytes
  segment_nonce keys public_nonce iv segment_index = take 16 (
      hmac_sha256 c keys.segment_key
        (codes "KRCM-v5-segment" ++ (public_nonce ++ (iv ++ to_be_bytes 8 segment_index))))

  -- The index, the length of the plaintext, and the ciphertext.
  unfoldable pub encrypt_segment : V5Keys → Bytes → Bytes → ℕ × Bytes → Outcome (ℕ × ℕ × Bytes)
  encrypt_segment keys public_nonce iv (index, plain) = do
    ciphertext ←
        encrypt_blocks c fuel (pad plain) keys.enc_key (segment_nonce keys public_nonce iv index)
    ok (index, length plain, ciphertext)

  -- The loop that lays the segments out, from the given offsets on.
  unfoldable pub lay_out : ℕ → ℕ → List (ℕ × ℕ × Bytes) → Outcome (List SegmentEntry × Bytes)
  lay_out plain cipher [] = ok ([], [])
  lay_out plain cipher ((index, plain_length, encrypted) ∷ rest) = do
    plain' ← add_u64 checks plain plain_length
    cipher' ← add_u64 checks cipher (length encrypted)
    (entries, ciphertext) ← lay_out plain' cipher' rest
    ok (
      record {
        segment_index = index;
        plain_offset = plain;
        plain_length = plain_length;
        ciphertext_offset = cipher;
        ciphertext_length = length encrypted;
      }
          ∷ entries,
      encrypted ++ ciphertext,
    )

  unfoldable pub encrypt_segments : Bytes → V5Keys → Bytes → Bytes → ℕ → ℕ → Outcome (Bytes × Bytes)
  encrypt_segments inner keys public_nonce iv requested_segment_size workers = do
    let segment_size = max requested_segment_size block_bytes
    let chunks = enumerate_from 0 (chunks_of (length inner) segment_size inner)
    encrypted ←
        if ltb 1 workers && ltb 1 (length chunks)
        then c.par_collect (encrypt_segment keys public_nonce iv) chunks
        else collect (encrypt_segment keys public_nonce iv) chunks
    (entries, ciphertext) ← lay_out 0 0 encrypted
    ok (serialize_segment_table entries, ciphertext)

  unfoldable pub decrypt_segments :
      List SegmentEntry → Bytes → V5Keys → Bytes → Bytes → Outcome Bytes
  decrypt_segments [] ciphertext keys public_nonce iv = ok []
  decrypt_segments (e ∷ es) ciphertext keys public_nonce iv = do
    end ← add_u64 checks e.ciphertext_offset e.ciphertext_length
    part ← slice ciphertext e.ciphertext_offset end
    padded ←
        decrypt_blocks c fuel part keys.enc_key (segment_nonce keys public_nonce iv e.segment_index)
    plain ← unpad padded
    fail_if (length plain != e.plain_length) authentication
    rest ← decrypt_segments es ciphertext keys public_nonce iv
    ok (plain ++ rest)
