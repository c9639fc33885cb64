-- ===== src/Examples/Container.antt =====
-- The theorems on keys, headers, segments and containers at concrete inputs.
use krcm_spn.Base.{
  Bytes, IsArray, IsBytes, Outcome-ok-injective, [], any_nonzero, ap, arith, codes, diverged, drop,
  false, from_be_acc, get_or, index, length, none, ok, panic, read_be, refl, replicate, slice, some,
  sym, take, to_be_bytes, true, ℕ, ◌++◌, ◌+◌, ◌-◌, ◌<◌, ◌^◌, ◌↔◌, ◌∙◌, ◌∷◌, ◌≡◌, ◌≢◌, ◌≤◌, ◌⊎◌,
}
use krcm_spn.Constants.{magic_v5}
use krcm_spn.ContainerV5.{Parts, assemble, decrypt_v5, encrypt_v5, read_parts}
use krcm_spn.ContainerV5.Authentic.{Opened, decrypt_v5_authentic}
use krcm_spn.ContainerV5.Layout.{read_parts-assemble}
use krcm_spn.ContainerV5.Overflow.{crafted, decrypt_v5_panics}
use krcm_spn.ContainerV5.Reads.{NoOverflow}
use krcm_spn.ContainerV5.RoundTrip.{IsValidOptions, decrypt_v5-encrypt_v5}
use krcm_spn.ContainerV5.Settles.{IsInner, decrypt_v5_returns}
use krcm_spn.ContainerV5.Transcript.{tag_transcript_injective}
use krcm_spn.Examples.{toy, toy-Accepting, toy_rng}
use krcm_spn.HeaderV5.{
  EncryptV5Options, ParsedHeader, pack_public_header, parse_kdf, parse_pbkdf2, parse_public_header,
  parse_scrypt, random_blocks,
}
use krcm_spn.HeaderV5.Laws.{public_header_round_trip}
use krcm_spn.HeaderV5.Sound.{parse_public_header_sound}
use krcm_spn.InnerV5.{inspect_inner, pack_inner, unpack_inner}
use krcm_spn.InnerV5.Laws.{unpack_inner-pack_inner}
use krcm_spn.InnerV5.Sound.{unpack_inner_sound}
use krcm_spn.Kdf.{derive_keys, derive_root_key, derive_v5_keys, derive_with, pbkdf2_params}
use krcm_spn.Kdf.Laws.{derive_keys_iff}
use krcm_spn.Primitives.{unwrap_or_fill}
use krcm_spn.Segment.{Contiguous, SegmentEntry, parse_segment_table, serialize_segment_table}
use krcm_spn.Segment.RoundTrip.{Segments, Segments-round_trip}
use krcm_spn.Segment.Table.{parse_segment_table_iff, serialize_segment_table-IsBytes}

abbrev message : Bytes
message = codes "attack at dawn"

abbrev long_message : Bytes
long_message = replicate 40 65

abbrev password : Bytes
password = codes "secret"

abbrev salt : Bytes
salt = replicate 16 9

abbrev nonce : Bytes
nonce = replicate 16 8

abbrev options : EncryptV5Options
options = record {
  kdf = pbkdf2_params 1000;
  padding_policy = random_blocks 3;
  segment_size = 32;
  workers = 2;
  salt = some salt;
  public_nonce = none;
}

abbrev root : Bytes
root = toy.pbkdf2 password salt 1000 32

-- The header of 1000 iterations, a segment size of 32 and no random padding.
abbrev header : Bytes
header =
    (magic_v5 ++ 5 ∷ 1 ∷ 1 ∷ 0 ∷ 0 ∷ 0 ∷ 3 ∷ 232 ∷ [])
    ++ (replicate 9 0 ++ ((5 ∷ 0 ∷ 0 ∷ 0 ∷ 0 ∷ 0 ∷ 0 ∷ []) ++ (salt ++ nonce)))

abbrev parsed : ParsedHeader
parsed = record { kdf = pbkdf2_params 1000; salt = salt; public_nonce = nonce }

abbrev entry : SegmentEntry
entry = record {
  segment_index = 0;
  plain_offset = 0;
  plain_length = 14;
  ciphertext_offset = 0;
  ciphertext_length = 32;
}

header_parsed : parse_public_header header ≡ ok parsed
unfolding parse_public_header parse_kdf parse_pbkdf2 parse_scrypt slice index from_be_acc
header_parsed = refl

derived :
    derive_root_key toy password (unwrap_or_fill toy_rng options.salt 0).0 options.kdf ≡ ok root
unfolding derive_root_key derive_with unwrap_or_fill
derived = refl

options-IsValidOptions : IsValidOptions options
options-IsValidOptions = omega arith

decrypt_v5-encrypt_v5_example :
    (container : Bytes) × (encrypt_v5 toy toy_rng 1 true message password options ≡ ok container)
    × (decrypt_v5 toy toy_rng 1 true container password ≡ ok message)
decrypt_v5-encrypt_v5_example =
    decrypt_v5-encrypt_v5 toy toy_rng 1 toy-Accepting true message password options root
      (omega arith) (omega arith) options-IsValidOptions derived

sealed :
    (container : Bytes) × (encrypt_v5 toy toy_rng 1 true message password options ≡ ok container)
    × (decrypt_v5 toy toy_rng 1 true container password ≡ ok message)
sealed =
    decrypt_v5-encrypt_v5 toy toy_rng 1 toy-Accepting true message password options root
      (omega arith) (omega arith) options-IsValidOptions derived

decrypt_v5_authentic_example :
    (parts : Parts) × (read_parts true sealed.0 ≡ ok parts)
    × Opened toy toy_rng 1 true parts password message
decrypt_v5_authentic_example =
    decrypt_v5_authentic toy toy_rng 1 true sealed.0 password message sealed.2

decrypt_v5_panics_example :
    decrypt_v5 toy toy_rng 1 false
      (crafted header (replicate 32 0) (2 ^ 64 - 16) (replicate 24 0))
      password
    ≡ panic
decrypt_v5_panics_example =
    decrypt_v5_panics false header (replicate 32 0) (replicate 24 0) (2 ^ 64 - 16) refl refl
      (omega arith) (omega arith) toy toy_rng 1 password parsed header_parsed refl (omega arith)
      (omega arith)

Segments-round_trip_example :
    Segments toy 1 toy-Accepting true (derive_v5_keys toy root) nonce salt long_message 32 2
Segments-round_trip_example =
    Segments-round_trip toy 1 toy-Accepting true (derive_v5_keys toy root) nonce salt long_message
      32 2 (omega arith) (omega arith) (omega arith)

parse_segment_table_iff_example :
    (parse_segment_table (serialize_segment_table (entry ∷ [])) 32 ≡ ok (entry ∷ [])) ↔ (
      (serialize_segment_table (entry ∷ []) ≡ serialize_segment_table (entry ∷ []))
      × (1 ≤ length (entry ∷ []))
      × Contiguous 0 0 0 32 (entry ∷ []))
parse_segment_table_iff_example =
    parse_segment_table_iff (serialize_segment_table (entry ∷ [])) 32 (entry ∷ [])
      (serialize_segment_table-IsBytes (entry ∷ []))

abbrev inner : Bytes
inner = pack_inner toy toy_rng true message (random_blocks 3) 0

unpack_inner-pack_inner_example :
    IsBytes inner
    × (76 + length message ≤ length inner)
    × (length inner ≤ 556 + length message)
    × (inspect_inner toy toy_rng true inner
        ≡ ok (record { original_length = length message; payload_length = length message }))
    × (unpack_inner toy toy_rng true inner ≡ ok message)
unpack_inner-pack_inner_example =
    unpack_inner-pack_inner toy toy_rng true message (random_blocks 3) 0 (omega arith) (omega arith)

public_header_round_trip_example :
    (out : Bytes) × (pack_public_header true options salt nonce ≡ ok out)
    × IsArray 64 out
    × (parse_public_header out
        ≡ ok (record { kdf = options.kdf; salt = salt; public_nonce = nonce }))
public_header_round_trip_example =
    public_header_round_trip true options salt nonce (omega arith) (omega arith) (refl, omega arith)
      (refl, omega arith)

parse_public_header_sound_example :
    (length header ≡ 64)
    × (take 8 header ≡ magic_v5)
    × (get_or header 8 0 ≡ 5)
    × (get_or header 9 0 ≡ 1)
    × (get_or header 11 0 ≡ 0)
    × (any_nonzero (take 5 (drop 27 header)) ≡ false)
    × (get_or header 26 0 ≤ 1)
    × ((get_or header 10 0 ≡ 1) ⊎ (get_or header 10 0 ≡ 2))
parse_public_header_sound_example = parse_public_header_sound header {parsed = parsed} header_parsed

derive_keys_iff_example :
    ((keys : Bytes × Bytes) × (derive_keys toy password salt 1000 ≡ ok keys))
    ↔ ((password ≢ []) × (length salt ≡ 16) × (1 ≤ 1000) × (1000 ≤ 1_000_000))
derive_keys_iff_example = derive_keys_iff toy password salt 1000

tag_transcript_injective_example :
    (header ≡ header) × (salt ≡ salt) × (nonce ≡ nonce) × (message ≡ message)
tag_transcript_injective_example =
    tag_transcript_injective header salt nonce message header salt nonce message (omega arith)
      (omega arith) refl

unpack_inner_sound_example :
    (payload : Bytes) × (take 32 (drop 28 inner) ≡ toy.sha256 payload)
    × ((end : ℕ) × (slice inner 76 end ≡ ok payload))
    × ((n : ℕ) × (n ≤ length payload) × (message ≡ take n payload))
unpack_inner_sound_example =
    unpack_inner_sound toy toy_rng true inner {output = message}
      (unpack_inner-pack_inner toy toy_rng true message (random_blocks 3) 0 (omega arith)
        (omega arith)).4

-- A container with a header that is parsed, an empty table, no ciphertext and a tag of zeros.
abbrev unsealed : Bytes
unsealed = assemble header (replicate 32 0) [] [] (replicate 32 0)

unsealed-IsBytes : IsBytes unsealed
unfolding assemble to_be_bytes
unsealed-IsBytes = omega arith

unsealed-NoOverflow : NoOverflow unsealed
unfolding assemble to_be_bytes from_be_acc
unsealed-NoOverflow = omega arith

-- Its table is not parsed.
unsealed_table : (parts : Parts) → read_parts true unsealed ≡ ok parts → parts.segment_table ≡ []
unsealed_table parts read =
    let known =
      read_parts-assemble true header (replicate 32 0) [] [] (replicate 32 0) (omega arith)
        (omega arith) (omega arith) (omega arith) (omega arith) parsed header_parsed in
    ap Parts.segment_table (Outcome-ok-injective (sym read ∙ known))

unsealed_inner :
    (parts : Parts) (plain : Bytes)
    → read_parts true unsealed ≡ ok parts
    → IsInner toy toy_rng 1 toy-Accepting true parts password plain
    → 76 + read_be 8 plain 20 < 2 ^ 64
unfolding parse_segment_table
unsealed_inner parts plain read inside =
    let refused : parse_segment_table [] (length parts.ciphertext) ≡ ok inside.entries =
      ap (λ (t : Bytes). parse_segment_table t (length parts.ciphertext))
        (sym (unsealed_table parts read))
      ∙ inside.parsed_as in
    cc refused

decrypt_v5_returns_example :
    (decrypt_v5 toy toy_rng 1 true unsealed password ≢ panic)
    × (decrypt_v5 toy toy_rng 1 true unsealed password ≢ diverged)
unfolding assemble to_be_bytes
decrypt_v5_returns_example =
    decrypt_v5_returns toy toy_rng 1 toy-Accepting true unsealed password unsealed-IsBytes
      (omega arith) unsealed-NoOverflow unsealed_inner
