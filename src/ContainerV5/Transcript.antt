-- ===== src/ContainerV5/Transcript.antt =====
-- The transcript of `tag_v5` of crates/krcm-core/src/format_v5.rs.
use krcm_spn.Base.{
  Bytes, [], ap, append-nil, append_assoc, arith, drop, drop-append, from_be_bytes,
  from_be_bytes-to_be_bytes, length, length-to_be_bytes, refl, sym, take, take-append, to_be_bytes,
  ◌++◌, ◌<◌, ◌^◌, ◌∙◌, ◌≡◌,
}
use krcm_spn.Constants.{tag_domain}
use krcm_spn.ContainerV5.{append_field, tag_transcript}

-- A field as `append_field` writes it, and what stands behind it.
abbrev field_then : Bytes → Bytes → Bytes
field_then field rest = to_be_bytes 8 (length field) ++ (field ++ rest)

field_then-append_field :
    (out field rest : Bytes) → append_field out field ++ rest ≡ out ++ field_then field rest
unfolding append_field
field_then-append_field out field rest =
    append_assoc out (to_be_bytes 8 (length field) ++ field) rest
    ∙ ap (λ (t : Bytes). out ++ t) (append_assoc (to_be_bytes 8 (length field)) field rest)

-- Appended parts of the same length are equal part by part.
append_cancel : (a b x y : Bytes) → length a ≡ length b → a ++ x ≡ b ++ y → (a ≡ b) × (x ≡ y)
append_cancel a b x y size e = (
  sym (take-append (length a) a x refl)
      ∙ ap (take (length a)) e
      ∙ take-append (length a) b y (sym size),
  sym (drop-append (length a) a x refl)
      ∙ ap (drop (length a)) e
      ∙ drop-append (length a) b y (sym size),
)

field_cancel :
    (a b x y : Bytes)
    → length a < 2 ^ 64
    → length b < 2 ^ 64
    → field_then a x ≡ field_then b y
    → (a ≡ b) × (x ≡ y)
field_cancel a b x y ha hb e =
    let n = length a in
    let m = length b in
    let (sizes, rest) =
      append_cancel (to_be_bytes 8 n) (to_be_bytes 8 m) (a ++ x) (b ++ y)
        (omega (arith, length-to_be_bytes 8 n, length-to_be_bytes 8 m)) e in
    let same : n ≡ m =
      sym (from_be_bytes-to_be_bytes 8 n (omega arith))
      ∙ ap from_be_bytes sizes
      ∙ from_be_bytes-to_be_bytes 8 m (omega arith) in
    append_cancel a b x y same rest

module _ (h i t d : Bytes) where
  -- The fields one in another, from the front.
  tag_transcript_lem :
      tag_transcript h i t d
      ≡ field_then tag_domain (field_then h (field_then i (field_then t (field_then d []))))
  unfolding tag_transcript
  tag_transcript_lem =
      let start = append_field [] tag_domain in
      let header = append_field start h in
      let iv = append_field header i in
      let table = append_field iv t in
      sym (append-nil (append_field table d))
      ∙ field_then-append_field table d []
      ∙ field_then-append_field iv t (field_then d [])
      ∙ field_then-append_field header i (field_then t (field_then d []))
      ∙ field_then-append_field start h (field_then i (field_then t (field_then d [])))
      ∙ field_then-append_field [] tag_domain
          (field_then h (field_then i (field_then t (field_then d []))))

-- Two transcripts of a tag with fields shorter than 2 ^ 64 bytes are equal only where the headers,
-- the synthetic IVs, the segment tables and the ciphertexts are equal.
pub tag_transcript_injective :
    (h i t d h' i' t' d' : Bytes)
    → (length h < 2 ^ 64) × (length i < 2 ^ 64) × (length t < 2 ^ 64) × (length d < 2 ^ 64)
    → (length h' < 2 ^ 64) × (length i' < 2 ^ 64) × (length t' < 2 ^ 64) × (length d' < 2 ^ 64)
    → tag_transcript h i t d ≡ tag_transcript h' i' t' d'
    → (h ≡ h') × (i ≡ i') × (t ≡ t') × (d ≡ d')
tag_transcript_injective h i t d h' i' t' d' (a1, a2, a3, a4) (b1, b2, b3, b4) e =
    let whole = sym (tag_transcript_lem h i t d) ∙ e ∙ tag_transcript_lem h' i' t' d' in
    let (e0, r0) = field_cancel tag_domain tag_domain _ _ (omega arith) (omega arith) whole in
    let (e1, r1) = field_cancel h h' _ _ a1 b1 r0 in
    let (e2, r2) = field_cancel i i' _ _ a2 b2 r1 in
    let (e3, r3) = field_cancel t t' _ _ a3 b3 r2 in
    let (e4, r4) = field_cancel d d' _ _ a4 b4 r3 in (e1, e2, e3, e4)
