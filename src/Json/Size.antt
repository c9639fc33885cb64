-- ===== src/Json/Size.antt =====
-- The length of a printed JSON object.
use krcm_spn.Base.{
  Bytes, List, [], arith, decimal, length, length-append, length-digits, ℕ, ◌+◌, ◌∷◌, ◌≤◌,
}
use krcm_spn.Json.{Field, number, print_field, print_member, print_members, print_object, text}

abbrev pub field_room : Field → ℕ
field_room (text t) = length t + 2
field_room (number n) = 20

abbrev pub room : List (Bytes × Field) → ℕ
room [] = 0
room ((key, field) ∷ ms) = length key + field_room field + 4 + room ms

length-print_field :
    (field : Field) (rest : Bytes)
    → length (print_field field rest) ≤ field_room field + length rest
length-print_field (text t) rest = omega (arith, length-append t (34 ∷ rest))
length-print_field (number n) rest =
    omega (arith, length-append (decimal n) rest, length-digits 20 n)

length-print_member :
    (key : Bytes) (field : Field) (rest : Bytes)
    → length (print_member (key, field) rest) ≤ length key + field_room field + 3 + length rest
length-print_member key field rest =
    omega
      (arith, length-append key (34 ∷ (58 ∷ print_field field rest)), length-print_field field rest)

length-print_members : (ms : List (Bytes × Field)) → length (print_members ms) ≤ room ms + 1
length-print_members [] = omega arith
length-print_members ((key, field) ∷ ms) =
    omega (arith, length-print_member key field (print_members ms), length-print_members ms)

pub length-print_object :
    (ms : List (Bytes × Field))
    → (1 ≤ length (print_object ms)) × (length (print_object ms) ≤ room ms + 2)
length-print_object [] = omega arith
length-print_object ((key, field) ∷ ms) =
    omega (arith, length-print_member key field (print_members ms), length-print_members ms)
