-- ===== src/Block/Words.antt =====
-- `words_from_block` and `block_from_words` of crates/krcm-core/src/block.rs.
use krcm_spn.Base.{
  All-append, Bytes, IsArray, IsByte, [], ap, append-nil, arith, cut_field, drop, length,
  length-append, length-drop, length-to_be_bytes, read_be, read_be-append, read_be-lt,
  read_be_behind, refl, sym, take-all, to_be_bytes, to_be_bytes-IsBytes, to_be_bytes-read_be, ◌++◌,
  ◌∙◌, ◌≡◌,
}
use krcm_spn.Block.{block_from_words, words_from_block}
use krcm_spn.Matrix.{Matrix}
use krcm_spn.Matrix.Laws.{IsWords}

pub block_from_words-IsArray : (m : Matrix) → IsArray 32 (block_from_words m)
unfolding block_from_words
block_from_words-IsArray m =
    let b0 = to_be_bytes 8 m.m0 in
    let b1 = to_be_bytes 8 m.m1 in
    let b2 = to_be_bytes 8 m.m2 in
    let b3 = to_be_bytes 8 m.m3 in
    (
      omega (
        arith,
        length-append b0 (b1 ++ (b2 ++ b3)),
        length-append b1 (b2 ++ b3),
        length-append b2 b3,
        length-to_be_bytes 8 m.m0,
        length-to_be_bytes 8 m.m1,
        length-to_be_bytes 8 m.m2,
        length-to_be_bytes 8 m.m3,
      ),
      All-append IsByte b0 _ (to_be_bytes-IsBytes 8 m.m0) (
          All-append IsByte b1 _ (to_be_bytes-IsBytes 8 m.m1)
            (All-append IsByte b2 _ (to_be_bytes-IsBytes 8 m.m2) (to_be_bytes-IsBytes 8 m.m3))),
    )

-- Four words packed into a block are read back.
pub words_from_block-block_from_words :
    (m : Matrix) → IsWords m → words_from_block (block_from_words m) ≡ m
unfolding words_from_block block_from_words
words_from_block-block_from_words m h =
    let b0 = to_be_bytes 8 m.m0 in
    let b1 = to_be_bytes 8 m.m1 in
    let b2 = to_be_bytes 8 m.m2 in
    let b3 = to_be_bytes 8 m.m3 in
    let s0 : length b0 ≡ 8 = length-to_be_bytes 8 m.m0 in
    let s1 : length b1 ≡ 8 = length-to_be_bytes 8 m.m1 in
    let s2 : length b2 ≡ 8 = length-to_be_bytes 8 m.m2 in
    let e0 = read_be-append 8 m.m0 [] (b1 ++ (b2 ++ b3)) 0 refl h.w0 in
    let e1 = read_be-append 8 m.m1 b0 (b2 ++ b3) 8 s0 h.w1 in
    let e2 =
      read_be_behind 8 8 8 b0 (b1 ++ (b2 ++ b3)) s0 ∙ read_be-append 8 m.m2 b1 b3 8 s1 h.w2 in
    let e3 =
      read_be_behind 8 8 16 b0 (b1 ++ (b2 ++ b3)) s0
      ∙ read_be_behind 8 8 8 b1 (b2 ++ b3) s1
      ∙ ap (λ t. read_be 8 (b2 ++ t) 8) (sym (append-nil b3))
      ∙ read_be-append 8 m.m3 b2 [] 8 s2 h.w3 in
    λ i. record { m0 = e0 i; m1 = e1 i; m2 = e2 i; m3 = e3 i }

-- A block of 32 bytes cut into words and packed again is the block.
pub block_from_words-words_from_block :
    (block : Bytes) → IsArray 32 block → block_from_words (words_from_block block) ≡ block
unfolding words_from_block block_from_words
block_from_words-words_from_block block h =
    rw
      (
        to_be_bytes-read_be 8 block 0 h.1 (omega (arith, h.0)),
        to_be_bytes-read_be 8 block 8 h.1 (omega (arith, h.0)),
        to_be_bytes-read_be 8 block 16 h.1 (omega (arith, h.0)),
        to_be_bytes-read_be 8 block 24 h.1 (omega (arith, h.0)),
      )
      (cut_field 8 block _ 0 (
        cut_field 8 block _ 8 (
          cut_field 8 block _ 16
            (take-all 8 (drop 24 block) (omega (arith, length-drop 24 block, h.0))))))

pub words_from_block-IsWords : (block : Bytes) → IsArray 32 block → IsWords (words_from_block block)
unfolding words_from_block
words_from_block-IsWords block h = record {
  w0 = read_be-lt 8 block 0 h.1 (omega (arith, h.0));
  w1 = read_be-lt 8 block 8 h.1 (omega (arith, h.0));
  w2 = read_be-lt 8 block 16 h.1 (omega (arith, h.0));
  w3 = read_be-lt 8 block 24 h.1 (omega (arith, h.0));
}
