-- ===== src/Examples/Letters.antt =====
-- An encoding of bytes as letters, for the runs of the parts that read and write JSON headers.
use mathlib.Core.Path.{subst}
use krcm_spn.Base.{
  Bytes, IsBytes, Option, [], ap, arith, length, none, refl, some, some-injective, ℕ, ◌%◌, ◌*◌, ◌+◌,
  ◌-◌, ◌/◌, ◌<◌, ◌∷◌, ◌≡◌, ◌≤◌,
}
use krcm_spn.Json.{Base64, IsPlain}

-- Two letters for each byte.
abbrev encode : Bytes → Bytes
encode [] = []
encode (x ∷ xs) = (97 + x / 16 % 16) ∷ ((97 + x % 16) ∷ encode xs)

abbrev joined : ℕ → Option Bytes → Option Bytes
joined b none = none
joined b (some bytes) = some (b ∷ bytes)

abbrev decode : Bytes → Option Bytes
decode [] = some []
decode (x ∷ []) = none
decode (x ∷ (y ∷ rest)) = joined ((x - 97) % 16 * 16 + (y - 97) % 16) (decode rest)

pub encode-IsPlain : (bytes : Bytes) → IsBytes bytes → IsPlain (encode bytes)
encode-IsPlain [] h = tt
encode-IsPlain (x ∷ xs) (hx, hs) = (omega arith, (omega arith, encode-IsPlain xs hs))

pub length-encode : (bytes : Bytes) → length (encode bytes) ≤ 2 * length bytes + 4
length-encode [] = omega arith
length-encode (x ∷ xs) = omega (arith, length-encode xs)

pub decode-encode : (bytes : Bytes) → IsBytes bytes → decode (encode bytes) ≡ some bytes
decode-encode [] h = refl
decode-encode (x ∷ xs) (hx, hs) =
    let back : (97 + x / 16 % 16 - 97) % 16 * 16 + (97 + x % 16 - 97) % 16 ≡ x = omega arith in
    rw (decode-encode xs hs) (ap (λ (k : ℕ). some (k ∷ xs)) back)

joined-IsBytes :
    (b : ℕ) (front : Option Bytes) {bytes : Bytes}
    → b < 256
    → ((tail : Bytes) → front ≡ some tail → IsBytes tail)
    → joined b front ≡ some bytes
    → IsBytes bytes
joined-IsBytes b none hb h e = cc
joined-IsBytes b (some tail) {bytes} hb h e =
    let whole : b ∷ tail ≡ bytes = some-injective e in subst IsBytes whole (hb, h tail refl)

pub decode-IsBytes : (input : Bytes) {bytes : Bytes} → decode input ≡ some bytes → IsBytes bytes
decode-IsBytes [] {bytes} e = let whole : [] ≡ bytes = some-injective e in subst IsBytes whole tt
decode-IsBytes (x ∷ []) e = cc
decode-IsBytes (x ∷ (y ∷ rest)) e =
    joined-IsBytes ((x - 97) % 16 * 16 + (y - 97) % 16) (decode rest) (omega arith)
      (λ tail h. decode-IsBytes rest h) e

abbrev pub toy_base64 : Base64
toy_base64 = record {
  encode = encode;
  decode = decode;
  encode-IsPlain = encode-IsPlain;
  length-encode = length-encode;
  decode-encode = decode-encode;
  decode-IsBytes = decode-IsBytes;
}
