-- ===== src/Network/Ipv4.antt =====
-- is_valid_ipv4 of src/barq_native/internal/networking/network_transport.cpp.
pub mod Segments
pub mod Recognition
mod Tests
use barq_native.Prelude.{
  ℕ, ◌-◌, Bool, true, false, not, ◌&&◌, ◌||◌, List, [], ◌∷◌, length, ltb, leb, ◌==◌, if◌then◌else◌,
}
use barq_native.Prelude.Bytes.{Bytes, is_digit, digits_value, all_digits}

abbrev pub dot : ℕ
dot = b'.'

-- A byte before the first segment that is read next.
abbrev pub cons_segment : ℕ → List Bytes → List Bytes
cons_segment c [] = (c ∷ []) ∷ []
cons_segment c (s ∷ ss) = (c ∷ s) ∷ ss

-- The loop over std::getline(ss, segment, '.'): a segment ends at a dot or with the text, and at the
-- end of the text nothing more is read, so that no segment follows a last dot.
unfoldable pub segments : Bytes → List Bytes
segments [] = []
segments (c ∷ cs) = if c == dot then [] ∷ segments cs else cons_segment c (segments cs)

-- A round of the second loop. After the length and the digits are tested std::stoi succeeds, with a
-- value that is not negative.
unfoldable pub valid_segment : Bytes → Bool
valid_segment s =
    if ltb (length s) 1 || ltb 3 (length s)
    then false
    else if not (all_digits s)
    then false
    else not (ltb 255 (digits_value 0 s))

unfoldable pub all_valid : List Bytes → Bool
all_valid [] = true
all_valid (s ∷ ss) = if valid_segment s then all_valid ss else false

unfoldable pub is_valid_ipv4 : Bytes → Bool
is_valid_ipv4 ip = if not (length (segments ip) == 4) then false else all_valid (segments ip)
