-- ===== src/Prelude/Decimal.antt =====
-- std::stoi reads what std::to_string prints.
use native.Mathlib.Decide.{dec_lt}
use barq_native.Prelude.{
  ℕ, zero, suc, ◌+◌, ◌-◌, ◌*◌, ◌/◌, ◌%◌, ◌<◌, ◌≡◌, refl, ◌∙◌, true, false, some, [], ◌∷◌, arith,
  ltb, lt→ltb, ap,
}
use barq_native.Prelude.Int.{pos}
use barq_native.Prelude.Bytes.{Bytes, is_digit, digits_value, stoi, to_string, decimal_go}

ge→ltb : (a b : ℕ) → ¬ (a < b) → ltb a b ≡ false
ge→ltb a b h = ground arith

-- One more digit.
digits_value-digit :
    (acc d n : ℕ) (out : Bytes)
    → d < 10
    → acc * 10 + d ≡ n
    → digits_value acc ((48 + d) ∷ out) ≡ digits_value n out
digits_value-digit acc d n out h e =
    let shift : acc * 10 + (48 + d - 48) ≡ n = omega arith in
    ground (arith, ap (λ (a : ℕ). digits_value a out) shift)

digits_value-decimal_go :
    (f n : ℕ) (out : Bytes) → n < f → digits_value 0 (decimal_go f n out) ≡ digits_value n out
unfolding decimal_go
digits_value-decimal_go zero n out h = absurd (omega arith)
digits_value-decimal_go (suc f) n out h = elim (dec_lt n 10) [
  | yes small ↦ rw (lt→ltb n 10 small) (digits_value-digit 0 n n out small (omega arith))
  | no large ↦ rw (ge→ltb n 10 large) (
      digits_value-decimal_go f (n / 10) ((48 + n % 10) ∷ out) (omega arith)
      ∙ digits_value-digit (n / 10) (n % 10) n out (omega arith) (omega arith))
]

-- The first byte of a numeral is a digit.
StartsDigit : Bytes → Type 0
StartsDigit [] = ⊥
StartsDigit (c ∷ cs) = is_digit c ≡ true

decimal_go-StartsDigit : (f n : ℕ) (out : Bytes) → n < f → StartsDigit (decimal_go f n out)
unfolding decimal_go StartsDigit
decimal_go-StartsDigit zero n out h = absurd (omega arith)
decimal_go-StartsDigit (suc f) n out h = elim (dec_lt n 10) [
  | yes small ↦ rw (lt→ltb n 10 small) (ground arith)
  | no large ↦
      rw (ge→ltb n 10 large) (decimal_go-StartsDigit f (n / 10) ((48 + n % 10) ∷ out) (omega arith))
]

stoi-digits :
    (s : Bytes)
    → StartsDigit s
    → digits_value 0 s < 2147483648
    → stoi s ≡ some (pos (digits_value 0 s))
unfolding stoi StartsDigit
stoi-digits [] d h = absurd d
stoi-digits (c ∷ cs) d h = ground arith

pub stoi-to_string : (n : ℕ) → n < 2147483648 → stoi (to_string n) ≡ some (pos n)
unfolding to_string
stoi-to_string n h =
    let value = digits_value-decimal_go (suc n) n [] (omega arith) in
    let digits = decimal_go-StartsDigit (suc n) n [] (omega arith) in
    stoi-digits (decimal_go (suc n) n []) digits (omega (arith, value))
    ∙ ap (λ m. some (pos m)) value

cons_of_StartsDigit : (s : Bytes) → StartsDigit s → (c : ℕ) × (cs : Bytes) × (s ≡ c ∷ cs)
unfolding StartsDigit
cons_of_StartsDigit [] d = absurd d
cons_of_StartsDigit (c ∷ cs) d = (c, cs, refl)

-- A numeral is not empty.
pub to_string-cons : (n : ℕ) → (c : ℕ) × (cs : Bytes) × (to_string n ≡ c ∷ cs)
unfolding to_string
to_string-cons n = cons_of_StartsDigit _ (decimal_go-StartsDigit (suc n) n [] (omega arith))
