-- ===== src/Prelude/Bytes.antt =====
-- A std::string as the list of its bytes: comparison, decimal numerals, and std::stoi.
use Prim.Native.Char.{code}
use Prim.Native.String.{String}
use barq_native.Prelude.{
  ℕ, zero, suc, ◌+◌, ◌-◌, ◌*◌, ◌/◌, ◌%◌, ◌≡◌, refl, Bool, true, false, ◌&&◌, ◌||◌, Option, none,
  some, List, [], ◌∷◌, arith, ltb, leb, ◌==◌, if◌then◌else◌,
}
use barq_native.Prelude.Int.{ℤ, pos, ◌-ℤ◌}

abbrev pub Bytes : Type 0
Bytes = List ℕ

-- The bytes of an ASCII literal.
abbrev pub codes : String → Bytes
codes String.[] = []
codes (String.◌∷◌ c s) = code c ∷ codes s

-- operator== of std::string
abbrev pub bytes_eq : Bytes → Bytes → Bool
bytes_eq [] [] = true
bytes_eq (x ∷ xs) (y ∷ ys) = (x == y) && bytes_eq xs ys
bytes_eq _ _ = false

pub bytes_eq_sound : (xs ys : Bytes) → bytes_eq xs ys ≡ true → xs ≡ ys
bytes_eq_sound [] [] h = refl
bytes_eq_sound [] (y ∷ ys) h = cc
bytes_eq_sound (x ∷ xs) [] h = cc
bytes_eq_sound (x ∷ xs) (y ∷ ys) h = ground (arith, bytes_eq_sound xs ys)

pub bytes_eq_refl : (xs : Bytes) → bytes_eq xs xs ≡ true
bytes_eq_refl [] = refl
bytes_eq_refl (x ∷ xs) = ground (arith, bytes_eq_refl xs)

-- isdigit in the C locale
abbrev pub is_digit : ℕ → Bool
is_digit c = leb 48 c && leb c 57

-- What std::stoi reads once blanks and sign are passed: the longest run of digits.
abbrev pub digits_value : ℕ → Bytes → ℕ
digits_value acc [] = acc
digits_value acc (c ∷ cs) =
    let rest = digits_value (acc * 10 + (c - 48)) cs in if is_digit c then rest else acc

abbrev starts_with_digit : Bytes → Bool
starts_with_digit [] = false
starts_with_digit (c ∷ cs) = is_digit c

abbrev is_space : ℕ → Bool
is_space c = (c == 32) || (leb 9 c && leb c 13)

abbrev skip_spaces : Bytes → Bytes
skip_spaces [] = []
skip_spaces (c ∷ cs) = if is_space c then skip_spaces cs else c ∷ cs

abbrev unsigned : Bytes → Option ℕ
unsigned s = if starts_with_digit s then some (digits_value 0 s) else none

abbrev in_int : Bool → ℕ → Option ℤ
in_int true n = if leb n 2147483648 then some (pos 0 -ℤ pos n) else none
in_int false n = if ltb n 2147483648 then some (pos n) else none

abbrev signed : Bytes → Option ℤ
signed [] = none
signed (c ∷ cs) =
    if c == 45
    then elim (unsigned cs) [ none ↦ none | some n ↦ in_int true n ]
    else if c == 43
    then elim (unsigned cs) [ none ↦ none | some n ↦ in_int false n ]
    else elim (unsigned (c ∷ cs)) [ none ↦ none | some n ↦ in_int false n ]

-- std::stoi with a 32-bit int; `none` is one of its exceptions.
unfoldable pub stoi : Bytes → Option ℤ
stoi s = signed (skip_spaces s)

-- std::to_string of an unsigned number; the fuel is the number, which is more than its digits.
unfoldable pub decimal_go : ℕ → ℕ → Bytes → Bytes
decimal_go zero n out = out
decimal_go (suc f) n out =
    let rest = decimal_go f (n / 10) ((48 + n % 10) ∷ out) in
    if ltb n 10 then (48 + n) ∷ out else rest

unfoldable pub to_string : ℕ → Bytes
unfolding decimal_go
to_string n = decimal_go (suc n) n []

-- All digits, then nothing.
abbrev pub all_digits : Bytes → Bool
all_digits [] = true
all_digits (c ∷ cs) = is_digit c && all_digits cs
