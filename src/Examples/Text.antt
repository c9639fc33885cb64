-- ===== src/Examples/Text.antt =====
-- A parser of flat JSON objects, for the runs of the parts that read and write JSON headers.
use mathlib.Core.Path.{subst}
use krcm_spn.Base.{
  All, Bool-cases, Bytes, IsDigit, List, Option, [], ap, arith, bytes_eq, codes, decimal,
  digits-IsDigit, digits_nonempty, false, if◌then◌else◌, inl, inr, is_digit, length, length-append,
  ltb, lt→ltb, ne→==_false, none, parse_digits, parse_digits-digits, refl, some, some-injective,
  suc, sym, true, zero, ℕ, ◌++◌, ◌<◌, ◌==◌, ◌^◌, ◌∙◌, ◌∷◌, ◌≡◌,
}
use krcm_spn.Json.{
  Field, IsPlain, IsPlainField, IsPlainObject, Json, find, number, print_field, print_member,
  print_members, print_object, text,
}

-- The text up to the next quotation mark, and what stands behind that.
abbrev until_quote : Bytes → Bytes × Bytes
until_quote [] = ([], [])
until_quote (x ∷ xs) = let r = until_quote xs in if x == 34 then ([], xs) else (x ∷ r.0, r.1)

until_quote_lem : (t rest : Bytes) → IsPlain t → until_quote (t ++ 34 ∷ rest) ≡ (t, rest)
until_quote_lem [] rest h = refl
until_quote_lem (x ∷ xs) rest ((lo, hi, no_quote, no_slash), hs) =
    rw (ne→==_false x 34 no_quote, until_quote_lem xs rest hs) refl

-- The digits in front, and what stands behind them.
abbrev number_split : Bytes → Bytes × Bytes
number_split [] = ([], [])
number_split (x ∷ xs) =
    let r = number_split xs in if is_digit x then (x ∷ r.0, r.1) else ([], x ∷ xs)

number_split_lem :
    (ds : Bytes) (y : ℕ) (rest : Bytes)
    → All IsDigit ds
    → is_digit y ≡ false
    → number_split (ds ++ y ∷ rest) ≡ (ds, y ∷ rest)
number_split_lem [] y rest h stop = rw stop refl
number_split_lem (x ∷ xs) y rest ((lo, hi), hs) stop =
    let digit : is_digit x ≡ true = ground arith in
    rw (digit, number_split_lem xs y rest hs stop) refl

abbrev numbered : Bytes × Bytes → Option ℕ → Option (Field × Bytes)
numbered r none = none
numbered r (some n) = some (number n, r.1)

abbrev parse_field : Bytes → Option (Field × Bytes)
parse_field [] = none
parse_field (x ∷ xs) =
    let quoted = until_quote xs in
    let plain = number_split (x ∷ xs) in
    if x == 34 then some (text quoted.0, quoted.1) else numbered plain (parse_digits 0 plain.0)

parse_field_lem :
    (field : Field) (y : ℕ) (rest : Bytes)
    → IsPlainField field
    → is_digit y ≡ false
    → parse_field (print_field field (y ∷ rest)) ≡ some (field, y ∷ rest)
parse_field_lem (text t) y rest h stop = rw (until_quote_lem t (y ∷ rest) h) refl
parse_field_lem (number n) y rest h stop =
    let (x, xs, e, d) = digits_nonempty 19 n in
    let unquoted : (x == 34) ≡ false = ne→==_false x 34 (λ q. absurd (omega arith)) in
    let cut : number_split (x ∷ (xs ++ y ∷ rest)) ≡ (decimal n, y ∷ rest) =
      ap (λ (t : Bytes). number_split (t ++ y ∷ rest)) (sym e)
      ∙ number_split_lem (decimal n) y rest (digits-IsDigit 20 n) stop in
    ap (λ (t : Bytes). parse_field (t ++ y ∷ rest)) e
    ∙ rw (unquoted, cut, parse_digits-digits 20 n (omega arith) h) refl

-- One character less.
abbrev skip : Bytes → Bytes
skip [] = []
skip (x ∷ xs) = xs

abbrev prepended : Bytes × Field → Option (List (Bytes × Field)) → Option (List (Bytes × Field))
prepended m none = none
prepended m (some ms) = some (m ∷ ms)

abbrev joined_member :
    Bytes
    → Option (Field × Bytes)
    → (Bytes → Option (List (Bytes × Field)))
    → Option (List (Bytes × Field))
joined_member key none rest = none
joined_member key (some (field, behind)) rest = prepended (key, field) (rest behind)

-- The members that stand behind an opening brace or a comma, which is not checked.
abbrev parse_members : ℕ → Bytes → Option (List (Bytes × Field))
parse_members zero input = none
parse_members (suc n) [] = none
parse_members (suc n) (x ∷ xs) =
    let named = until_quote (skip xs) in
    let ms = joined_member named.0 (parse_field (skip named.1)) (parse_members n) in
    if x == 125 then some [] else ms

members_front :
    (ms : List (Bytes × Field))
    → (y : ℕ) × (rest : Bytes) × (print_members ms ≡ y ∷ rest) × (is_digit y ≡ false)
members_front [] = (125, [], refl, refl)
members_front ((key, field) ∷ ms) = (44, print_member (key, field) (print_members ms), refl, refl)

field_back :
    (field : Field) (ms : List (Bytes × Field))
    → IsPlainField field
    → parse_field (print_field field (print_members ms)) ≡ some (field, print_members ms)
field_back field ms h =
    let (y, rest, e, stop) = members_front ms in
    ap (λ (t : Bytes). parse_field (print_field field t)) e
    ∙ parse_field_lem field y rest h stop
    ∙ ap (λ (t : Bytes). some (field, t)) (sym e)

member_back :
    (n : ℕ) (x : ℕ) (key : Bytes) (field : Field) (ms : List (Bytes × Field))
    → (x == 125) ≡ false
    → IsPlain key
    → IsPlainField field
    → parse_members n (print_members ms) ≡ some ms
    → parse_members (suc n) (x ∷ print_member (key, field) (print_members ms))
      ≡ some ((key, field) ∷ ms)
member_back n x key field ms open_it hk hf back =
    rw
      (
        open_it,
        until_quote_lem key (58 ∷ print_field field (print_members ms)) hk,
        field_back field ms hf,
        back,
      )
      refl

parse_members_lem :
    (n : ℕ) (ms : List (Bytes × Field))
    → length ms < n
    → IsPlainObject ms
    → parse_members n (print_members ms) ≡ some ms
parse_members_lem zero ms few h = absurd (omega arith)
parse_members_lem (suc n) [] few h = refl
parse_members_lem (suc n) ((key, field) ∷ ms) few (hk, hf, new, hs) =
    member_back n 44 key field ms refl hk hf (parse_members_lem n ms (omega arith) hs)

abbrev pub parse_object : Bytes → Option (List (Bytes × Field))
parse_object input =
    let ms = parse_members (length input) input in
    if bytes_eq input (codes "{}") then some [] else ms

length-print_member :
    (key : Bytes) (field : Field) (rest : Bytes)
    → length rest < length (print_member (key, field) rest)
length-print_member key (text t) rest =
    omega (
      arith,
      length-append key (34 ∷ (58 ∷ print_field (text t) rest)),
      length-append t (34 ∷ rest),
    )
length-print_member key (number n) rest = omega (
  arith,
  length-append key (34 ∷ (58 ∷ print_field (number n) rest)),
  length-append (decimal n) rest,
)

length-print_members : (ms : List (Bytes × Field)) → length ms < length (print_members ms)
length-print_members [] = omega arith
length-print_members ((key, field) ∷ ms) =
    omega (arith, length-print_member key field (print_members ms), length-print_members ms)

pub parse_object_lem :
    (ms : List (Bytes × Field)) → IsPlainObject ms → parse_object (print_object ms) ≡ some ms
parse_object_lem [] h = refl
parse_object_lem ((key, field) ∷ ms) (hk, hf, new, hs) =
    let n = length (print_member (key, field) (print_members ms)) in
    member_back n 123 key field ms refl hk hf (
      parse_members_lem n ms
        (omega (arith, length-print_member key field (print_members ms), length-print_members ms))
        hs)

abbrev text_of : Option Field → Option Bytes
text_of none = none
text_of (some (text t)) = some t
text_of (some (number n)) = none

abbrev number_of : Option Field → Option ℕ
number_of none = none
number_of (some (text t)) = none
number_of (some (number n)) = if ltb n (2 ^ 64) then some n else none

pub number_of-lt : (field : Option Field) {n : ℕ} → number_of field ≡ some n → n < 2 ^ 64
number_of-lt none e = cc
number_of-lt (some (text t)) e = cc
number_of-lt (some (number k)) e = ground arith

pub find-IsPlainField :
    (key : Bytes) (ms : List (Bytes × Field)) (field : Field)
    → IsPlainObject ms
    → find key ms ≡ some field
    → IsPlainField field
find-IsPlainField key [] field h e = cc
find-IsPlainField key ((k, first) ∷ ms) field (hk, hf, new, hs) e =
    elim (Bool-cases (bytes_eq key k)) [
      | inl same ↦ subst IsPlainField (some-injective (rw same at e)) hf
      | inr other ↦ find-IsPlainField key ms field hs (rw other at e)
    ]

abbrev pub toy_json : Json
toy_json = record {
  Value = List (Bytes × Field);
  from_slice = parse_object;
  get_str = λ key ms. text_of (find key ms);
  get_u64 = λ key ms. number_of (find key ms);
  get_u64-lt = λ key ms e. number_of-lt (find key ms) e;
  from_slice-print_object = λ ms h. (
    ms,
    parse_object_lem ms h,
    λ key t e. ap text_of e,
    λ key n e.
        let small : n < 2 ^ 64 = find-IsPlainField key ms (number n) h e in
        ap number_of e ∙ rw (lt→ltb n (2 ^ 64) small) refl,
  );
}
