-- ===== src/Segment/RoundTrip.antt =====
-- `decrypt_segments` of crates/krcm-core/src/format_v5.rs on what `encrypt_segments` makes.
use mathlib.Core.Path.{subst, subst₂}
use krcm_spn.Base.{
  All, All-append, Bool, Bool-cases, Bytes, IsByte, IsBytes, List, Outcome, [], add_u64_fits, ap,
  append_assoc, arith, collect, eq→!=_false, if◌then◌else◌, inl, inr, length, length-append, ltb,
  max, ok, refl, slice_middle, suc, sym, ℕ, ◌%◌, ◌&&◌, ◌*◌, ◌++◌, ◌+◌, ◌<◌, ◌^◌, ◌∙◌, ◌∷◌, ◌≡◌, ◌≤◌,
}
use krcm_spn.Block.{decrypt_blocks}
use krcm_spn.Block.Total.{blocks_round_trip}
use krcm_spn.Kdf.{V5Keys}
use krcm_spn.Padding.{pad}
use krcm_spn.Padding.Laws.{pad-IsBytes, pad-aligned, unpad-pad}
use krcm_spn.Primitives.{Primitives}
use krcm_spn.Sampler.Draws.{Accepting}
use krcm_spn.Segment.{Contiguous, SegmentEntry, serialize_segment_table}
use krcm_spn.Segment.Chunks.{
  chunks_of-IsBytes, chunks_of_nonempty, concat, concat-chunks_of, length-chunks_of,
}
use krcm_spn.Segment.Cipher.{
  chunks_of, decrypt_segments, encrypt_segment, encrypt_segments, enumerate_from, lay_out,
  segment_nonce,
}

-- The sum of the plaintext lengths.
abbrev pub plain_total : List SegmentEntry → ℕ
plain_total [] = 0
plain_total (e ∷ es) = e.plain_length + plain_total es

module _ (c : Primitives) (fuel : ℕ) (accepting : Accepting c fuel) (checks : Bool) (keys : V5Keys)
    (public_nonce iv : Bytes) where
  abbrev decrypt : List SegmentEntry → Bytes → Outcome Bytes
  decrypt es ciphertext = decrypt_segments c fuel checks es ciphertext keys public_nonce iv

  -- The ciphertext of one segment, with what is to hold of it.
  record Sealed (index : ℕ) (plain : Bytes) : Type 0 where
    ciphertext : Bytes
    made :
        encrypt_segment c fuel checks keys public_nonce iv (index, plain)
        ≡ ok (index, length plain, ciphertext)
    bytes : IsBytes ciphertext
    longer : 1 ≤ length ciphertext
    short : length ciphertext ≤ length plain + 32
    aligned : length ciphertext % 32 ≡ 0
    opened :
        decrypt_blocks c fuel ciphertext keys.enc_key
          (segment_nonce c fuel checks keys public_nonce iv index)
        ≡ ok (pad plain)

  seal : (index : ℕ) (plain : Bytes) → IsBytes plain → Sealed index plain
  unfolding encrypt_segment
  seal index plain h =
      let nonce = segment_nonce c fuel checks keys public_nonce iv index in
      let (longer, short, aligned) = pad-aligned plain in
      let (out, e, array, undone) =
        blocks_round_trip c fuel accepting (pad plain) keys.enc_key nonce (pad-IsBytes plain h)
          aligned in
      record {
        ciphertext = out;
        made = rw e;
        bytes = array.1;
        longer = omega (arith, longer, array.0);
        short = omega (arith, short, array.0);
        aligned = omega (arith, aligned, array.0);
        opened = undone;
      }

  -- The segments of `ps`, numbered from `index` on and laid out behind `front`.
  pub record Laid (ps : List Bytes) (index plain : ℕ) (front : Bytes) : Type 0 where
    pub encrypted : List (ℕ × ℕ × Bytes)
    pub entries : List SegmentEntry
    pub ciphertext : Bytes
    pub collected :
        collect (encrypt_segment c fuel checks keys public_nonce iv) (enumerate_from index ps)
        ≡ ok encrypted
    pub laid : lay_out c fuel checks plain (length front) encrypted ≡ ok (entries, ciphertext)
    pub ordered : Contiguous index plain (length front) (length front + length ciphertext) entries
    pub bytes : IsBytes ciphertext
    pub count : length entries ≡ length ps
    pub short : length ciphertext ≤ length (concat ps) + 32 * length ps
    pub total : plain_total entries ≡ length (concat ps)
    pub opened : decrypt entries (front ++ ciphertext) ≡ ok (concat ps)

  -- One more segment in front of segments that are laid out.
  lay_next :
      (p : Bytes) (ps : List Bytes) (index plain : ℕ) (front : Bytes) (s : Sealed index p)
      → Laid ps (index + 1) (plain + length p) (front ++ s.ciphertext)
      → index < 2 ^ 64
      → plain + length p < 2 ^ 64
      → length front + length s.ciphertext < 2 ^ 64
      → Laid (p ∷ ps) index plain front
  unfolding collect enumerate_from lay_out decrypt_segments
  lay_next p ps index plain front s rest hi hp hc =
      let ct = s.ciphertext in
      let size : length (front ++ ct) ≡ length front + length ct = length-append front ct in
      let later : decrypt rest.entries (front ++ (ct ++ rest.ciphertext)) ≡ ok (concat ps) =
        ap (decrypt rest.entries) (sym (append_assoc front ct rest.ciphertext)) ∙ rest.opened in
      let laid_later =
        subst
          (λ (k : ℕ).
            lay_out c fuel checks (plain + length p) k rest.encrypted
            ≡ ok (rest.entries, rest.ciphertext))
          size rest.laid in
      let last : length (front ++ ct) + length rest.ciphertext
          ≡ length front + length (ct ++ rest.ciphertext) =
        omega (arith, size, length-append ct rest.ciphertext) in
      let plain_sum = add_u64_fits checks plain (length p) hp in
      let cipher_sum = add_u64_fits checks (length front) (length ct) hc in
      record {
        encrypted = (index, length p, ct) ∷ rest.encrypted;
        entries =
            record {
              segment_index = index;
              plain_offset = plain;
              plain_length = length p;
              ciphertext_offset = length front;
              ciphertext_length = length ct;
            }
            ∷ rest.entries;
        ciphertext = ct ++ rest.ciphertext;
        collected = rw (s.made, rest.collected);
        laid = rw (plain_sum, cipher_sum, laid_later);
        ordered = (
          refl,
          hi,
          refl,
          refl,
          s.longer,
          s.aligned,
          hp,
          hc,
          subst₂ (λ (a b : ℕ). Contiguous (index + 1) (plain + length p) a b rest.entries) size last
              rest.ordered,
        );
        bytes = All-append IsByte ct rest.ciphertext s.bytes rest.bytes;
        count = ap suc rest.count;
        short = omega (
          arith,
          length-append ct rest.ciphertext,
          s.short,
          length-append p (concat ps),
          rest.short,
        );
        total = omega (arith, length-append p (concat ps), rest.total);
        opened = rw (
          cipher_sum,
          slice_middle front ct rest.ciphertext (length front) (length front + length ct) refl refl,
          s.opened,
          unpad-pad p,
          eq→!=_false (length p) (length p) refl,
          later,
        );
      }

  lay :
      (ps : List Bytes) (index plain : ℕ) (front : Bytes)
      → All IsBytes ps
      → index + length ps < 2 ^ 64
      → plain + length (concat ps) < 2 ^ 64
      → length front + length (concat ps) + 32 * length ps < 2 ^ 64
      → Laid ps index plain front
  unfolding collect enumerate_from lay_out decrypt_segments
  lay [] index plain front h hi hp hc = record {
    encrypted = [];
    entries = [];
    ciphertext = [];
    collected = refl;
    laid = refl;
    ordered = omega arith;
    bytes = tt;
    count = refl;
    short = omega arith;
    total = refl;
    opened = refl;
  }
  lay (p ∷ ps) index plain front h hi hp hc =
      let s = seal index p h.0 in
      let size = length-append p (concat ps) in
      let front_size = length-append front s.ciphertext in
      let rest =
        lay ps (index + 1) (plain + length p) (front ++ s.ciphertext) h.1 (omega arith)
          (omega (arith, size)) (omega (arith, size, front_size, s.short)) in
      lay_next p ps index plain front s rest (omega arith) (omega (arith, size))
        (omega (arith, size, s.short))

  -- The entries and the ciphertext of an inner plaintext, with what is to hold of them.
  pub record Segments (inner : Bytes) (segment_size workers : ℕ) : Type 0 where
    pub entries : List SegmentEntry
    pub ciphertext : Bytes
    pub made :
        encrypt_segments c fuel checks inner keys public_nonce iv segment_size workers
        ≡ ok (serialize_segment_table entries, ciphertext)
    pub nonempty : 1 ≤ length entries
    pub small : length entries ≤ length inner
    pub short : length ciphertext ≤ 33 * length inner
    pub ordered : Contiguous 0 0 0 (length ciphertext) entries
    pub bytes : IsBytes ciphertext
    pub total : plain_total entries ≡ length inner
    pub opened : decrypt_segments c fuel checks entries ciphertext keys public_nonce iv ≡ ok inner

  -- For an inner plaintext of 1 to 2 ^ 58 bytes and samplers whose every draw ends within the fuel,
  -- `encrypt_segments` returns the table of some entries and a ciphertext of bytes: the entries are
  -- at least one and at most as many as the bytes, lie one behind the other up to the end of the
  -- ciphertext, have the plaintext's length as the sum of their lengths, and `decrypt_segments`
  -- gives the inner plaintext back; the ciphertext is at most 33 times as long. It holds for every
  -- segment size and number of workers.
  pub Segments-round_trip :
      (inner : Bytes) (segment_size workers : ℕ)
      → IsBytes inner
      → 1 ≤ length inner
      → length inner < 2 ^ 58
      → Segments inner segment_size workers
  unfolding encrypt_segments
  Segments-round_trip inner segment_size workers h lo hi =
      let size = max segment_size 32 in
      let ps = chunks_of (length inner) size inner in
      let whole : concat ps ≡ inner =
        concat-chunks_of (length inner) size inner (omega arith) (omega arith) in
      let few = length-chunks_of (length inner) size inner (omega arith) (omega arith) in
      let some_chunk = chunks_of_nonempty (length inner) size inner lo (omega arith) in
      let total = ap length whole in
      let laid =
        lay ps 0 0 [] (chunks_of-IsBytes (length inner) size inner h) (omega (arith, few))
          (omega (arith, total)) (omega (arith, total, few)) in
      let f = encrypt_segment c fuel checks keys public_nonce iv in
      let chunks = enumerate_from 0 ps in
      let either : (if ltb 1 workers && ltb 1 (length chunks)
            then c.par_collect f chunks
            else collect f chunks)
          ≡ ok laid.encrypted =
        elim (Bool-cases (ltb 1 workers && ltb 1 (length chunks))) [
          | inl many ↦ rw many (c.par_collect-ok f chunks laid.encrypted laid.collected)
          | inr one ↦ rw one laid.collected
        ] in
      record {
        entries = laid.entries;
        ciphertext = laid.ciphertext;
        made = rw (either, laid.laid);
        nonempty = omega (arith, laid.count, some_chunk);
        small = omega (arith, laid.count, few);
        short = omega (arith, laid.short, total, few);
        ordered =
            subst (λ (k : ℕ). Contiguous 0 0 0 k laid.entries) {x = 0 + length laid.ciphertext}
              (omega arith) laid.ordered;
        bytes = laid.bytes;
        total = laid.total ∙ total;
        opened = laid.opened ∙ ap ok whole;
      }
