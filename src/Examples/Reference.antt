-- ===== src/Examples/Reference.antt =====
-- The theorems on krcm/core.py at concrete inputs, with Python's json and `pow` replaced by
-- functions on the objects that the two programs print.
use krcm_spn.Base.{
  Bool, Bytes, Congruent-weaken, List, Option, [], ap, arith, bytes_eq, bytes_eq_refl, codes, false,
  from_be_acc, mod-mul-mod, none, ok, refl, replicate, some, true, ℕ, ◌%◌, ◌*◌, ◌++◌, ◌^◌, ◌∙◌, ◌∷◌,
  ◌≡◌,
}
use krcm_spn.Block.{decrypt_blocks, encrypt_blocks}
use krcm_spn.Constants.{magic_v4}
use krcm_spn.ContainerV4.{EncryptV4Options, decrypt_v4, encrypt_v4}
use krcm_spn.Examples.{toy, toy-Accepting, toy_rng}
use krcm_spn.Examples.Letters.{toy_base64}
use krcm_spn.Examples.Text.{parse_object, parse_object_lem, toy_json}
use krcm_spn.HeaderV4.{from_json_bytes}
use krcm_spn.Json.{Field, find, number, print_object, text}
use krcm_spn.Kdf.{derive_keys}
use krcm_spn.Kdf.Laws.{derive_keys_iff}
use krcm_spn.Matrix.{modinv_odd_u64, wrapping_mul}
use krcm_spn.Matrix.Inverse.{modinv_odd_u64_lem}
use krcm_spn.Primitives.{unwrap_or_fill}
use krcm_spn.Reference.{Attempt, bad_value, done, missing_key, no_attribute, raised, wrong_type}
use krcm_spn.Reference.Affine.{InversePower}
use krcm_spn.Reference.Agree.{Agree}
use krcm_spn.Reference.Blocks.{decrypt_blocks_py, encrypt_blocks_py}
use krcm_spn.Reference.Blocks.Agree.{decrypt_blocks-Agree, encrypt_blocks-Agree}
use krcm_spn.Reference.Container.{Dumps, encrypt_bytes_py, sort_keys}
use krcm_spn.Reference.Container.Encrypt.{
  decrypt_v4-encrypt_bytes_py, drawn_options, encrypt_bytes-Agree,
}
use krcm_spn.Reference.Container.Read.{
  Loads, decrypt_bytes_py, from_json_bytes_py, read_payload, refused_as_format,
}
use krcm_spn.Reference.Container.Read.Agree.{decrypt_bytes-Agree, header_part}
use krcm_spn.Reference.Container.Read.RoundTrip.{decrypt_bytes_py-encrypt_v4}
use krcm_spn.Reference.Int.{pos, ℤ}
use krcm_spn.Reference.Words.{modinv}
use krcm_spn.Reference.Words.Inverse.{modinv-modinv_odd_u64}

abbrev toy_dumps : Dumps
toy_dumps = record { dumps = λ ms. print_object (sort_keys ms); dumps_sorted = λ ms h. refl }

-- An object, or a member of one.
data Item : Type 0 where
  object : List (Bytes × Field) → Item
  leaf : Field → Item

abbrev loaded : Option (List (Bytes × Field)) → Attempt Item
loaded none = raised bad_value
loaded (some ms) = done (object ms)

abbrev got : Option Field → Attempt (Option Item)
got none = done none
got (some field) = done (some (leaf field))

abbrev indexed : Option Field → Attempt Item
indexed none = raised missing_key
indexed (some field) = done (leaf field)

abbrev get_item : Bytes → Item → Attempt (Option Item)
get_item key (object ms) = got (find key ms)
get_item key (leaf field) = raised no_attribute

abbrev index_item : Bytes → Item → Attempt Item
index_item key (object ms) = indexed (find key ms)
index_item key (leaf field) = raised wrong_type

abbrev item_is_text : Item → Bytes → Bool
item_is_text (leaf (text s)) t = bytes_eq s t
item_is_text _ t = false

abbrev item_int : Item → Attempt ℤ
item_int (leaf (number n)) = done (pos n)
item_int _ = raised bad_value

abbrev decoded : Option Bytes → Attempt Bytes
decoded none = raised bad_value
decoded (some bytes) = done bytes

abbrev item_decode : Item → Attempt Bytes
item_decode (leaf (text s)) = decoded (toy_base64.decode s)
item_decode _ = raised wrong_type

abbrev toy_loads : Loads toy_base64
toy_loads = record {
  Value = Item;
  loads = λ input. loaded (parse_object input);
  get = get_item;
  index = index_item;
  is_text = item_is_text;
  int = item_int;
  b64decode = item_decode;
  loads-print_object = λ ms h. (
    object ms,
    ap loaded (parse_object_lem ms h),
    λ key t e. (leaf (text t), ap got e, ap indexed e, bytes_eq_refl t, λ bytes d. ap decoded d),
    λ key n e. (leaf (number n), ap got e, ap indexed e, refl),
  );
}

-- Newton's rounds give the inverse modulo 256 too.
toy_inverse_lem : (a : ℕ) → a % 2 ≡ 1 → (modinv_odd_u64 a % 256 * a) % 256 ≡ 1
unfolding wrapping_mul
toy_inverse_lem a odd =
    mod-mul-mod (modinv_odd_u64 a) a 256
    ∙ ap (λ (t : ℕ). t % 256) {x = modinv_odd_u64 a * a} {y = a * modinv_odd_u64 a} (omega arith)
    ∙ Congruent-weaken 256 (2 ^ 56) (a * modinv_odd_u64 a) 1 (modinv_odd_u64_lem a odd)

abbrev toy_power : InversePower
toy_power = record {
  inverse = λ a. modinv_odd_u64 a % 256;
  inverse-lt = λ a. omega arith;
  inverse_lem = toy_inverse_lem;
}

abbrev plain : Bytes
plain = codes "attack at dawn"

abbrev password : Bytes
password = codes "secret"

abbrev key : Bytes
key = replicate 32 3

abbrev nonce : Bytes
nonce = replicate 16 8

abbrev padded : Bytes
padded = replicate 64 200

-- 40 bytes, no whole number of blocks.
abbrev misaligned : Bytes
misaligned = replicate 40 200

abbrev source : ℕ → ℕ → Bytes
source call size = replicate size 9

derived : (keys : Bytes × Bytes) × (derive_keys toy password (source 0 16) 1000 ≡ ok keys)
derived =
    (derive_keys_iff toy password (source 0 16) 1000).1
      ((λ e. cc), omega arith, omega arith, omega arith)

modinv-modinv_odd_u64_example : modinv 12_345 (2 ^ 64) ≡ done (modinv_odd_u64 12_345)
modinv-modinv_odd_u64_example = modinv-modinv_odd_u64 12_345 (omega arith) refl

encrypt_blocks-Agree_example :
    Agree
      (encrypt_blocks toy 1 padded key nonce)
      (encrypt_blocks_py toy toy_power 1 padded key nonce 4)
encrypt_blocks-Agree_example =
    encrypt_blocks-Agree toy toy_power 1 (omega arith) padded key nonce 4 (omega arith)
      (omega arith) (omega arith)

decrypt_blocks-Agree_example :
    Agree
      (decrypt_blocks toy 1 misaligned key nonce)
      (decrypt_blocks_py toy toy_power 1 misaligned key nonce 2)
decrypt_blocks-Agree_example =
    decrypt_blocks-Agree toy toy_power 1 (omega arith) misaligned key nonce 2 (omega arith)
      (omega arith)

encrypt_bytes-Agree_example :
    Agree
      (encrypt_v4 toy toy_rng toy_json toy_base64 1 true plain password (drawn_options source 1000))
      (encrypt_bytes_py toy source toy_dumps toy_base64 toy_power 1 plain password 1000)
encrypt_bytes-Agree_example =
    encrypt_bytes-Agree toy source toy_rng toy_dumps toy_json toy_base64 toy_power 1 (omega arith)
      true plain password 1000 (omega arith) (omega arith) (omega arith) (omega arith)

decrypt_v4-encrypt_bytes_py_example :
    (container : Bytes) × (encrypt_bytes_py toy source toy_dumps toy_base64 toy_power 1 plain
        password 1000
      ≡ done container)
    × (decrypt_v4 toy toy_rng toy_json toy_base64 1 true container password ≡ ok plain)
decrypt_v4-encrypt_bytes_py_example =
    decrypt_v4-encrypt_bytes_py toy source toy_rng toy_dumps toy_json toy_base64 toy_power 1
      (omega arith) true toy-Accepting plain password 1000 derived.0 (omega arith) (omega arith)
      (omega arith) (omega arith) derived.1

abbrev options : EncryptV4Options
options = record { iterations = 1000; salt = some (source 0 16); nonce = some nonce }

decrypt_bytes_py-encrypt_v4_example :
    (container : Bytes) × (encrypt_v4 toy toy_rng toy_json toy_base64 1 true plain password options
      ≡ ok container)
    × (decrypt_bytes_py toy toy_base64 toy_loads toy_power 1 container password ≡ done plain)
unfolding unwrap_or_fill
decrypt_bytes_py-encrypt_v4_example =
    decrypt_bytes_py-encrypt_v4 toy toy_rng toy_json toy_base64 toy_loads toy_power 1 (omega arith)
      true toy-Accepting plain password options derived.0 (omega arith) (omega arith) (omega arith)
      (omega arith) derived.1

-- A header length of 5 and a header that is no JSON.
abbrev garbled : Bytes
garbled = magic_v4 ++ (0 ∷ 0 ∷ 0 ∷ 5 ∷ []) ++ replicate 60 65

garbled_header :
    Agree
      (from_json_bytes toy_json toy_base64 (header_part garbled))
      (from_json_bytes_py toy_base64 toy_loads (header_part garbled))
unfolding from_json_bytes from_json_bytes_py read_payload refused_as_format from_be_acc
garbled_header = tt

decrypt_bytes-Agree_example :
    Agree
      (decrypt_v4 toy toy_rng toy_json toy_base64 1 true garbled password)
      (decrypt_bytes_py toy toy_base64 toy_loads toy_power 1 garbled password)
unfolding from_json_bytes from_be_acc
decrypt_bytes-Agree_example =
    decrypt_bytes-Agree toy toy_rng toy_json toy_base64 toy_loads toy_power 1 (omega arith) true
      garbled password (omega arith) garbled_header (λ header e. cc)
