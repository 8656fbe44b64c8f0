-- ===== src/Network/Ipv4/Recognition.antt =====
-- Which texts is_valid_ipv4 takes for addresses.
use barq_native.Prelude.{
  ℕ, ◌+◌, ◌-◌, ◌*◌, ◌≤◌, ◌≡◌, ap, ◌∙◌, ◌⊎◌, inl, inr, ◌↔◌, true, List, [], ◌∷◌, ◌++◌, arith, length,
  append_assoc,
}
use barq_native.Prelude.Bytes.{Bytes}
use barq_native.Network.Ipv4.{dot, segments, valid_segment, all_valid, is_valid_ipv4}
use barq_native.Network.Ipv4.Segments.{
  join, DotFree, segments-until_dot, segments-last, JoinsTo, join-segments,
}

abbrev pub IsDigit : ℕ → Type 0
IsDigit c = (48 ≤ c) × (c ≤ 57)

-- One to three decimal digits, leading zeros allowed, of a number up to 255.
abbrev pub IsOctet : Bytes → Type 0
IsOctet (a ∷ []) = IsDigit a
IsOctet (a ∷ b ∷ []) = IsDigit a × IsDigit b
IsOctet (a ∷ b ∷ c ∷ []) =
    IsDigit a × IsDigit b × IsDigit c × ((a - 48) * 100 + (b - 48) * 10 + (c - 48) ≤ 255)
IsOctet _ = ⊥

abbrev pub dotted : Bytes → Bytes → Bytes → Bytes → Bytes
dotted a b c d = join (a ∷ b ∷ c ∷ d ∷ [])

-- Four octets with dots between them, and perhaps one more dot.
pub record IsAddress (ip : Bytes) : Type 0 where
  pub a : Bytes
  pub b : Bytes
  pub c : Bytes
  pub d : Bytes
  pub octets : IsOctet a × IsOctet b × IsOctet c × IsOctet d
  pub text : (ip ≡ dotted a b c d) ⊎ (ip ≡ dotted a b c d ++ dot ∷ [])

valid_segment-IsOctet : (s : Bytes) → valid_segment s ≡ true → IsOctet s
unfolding valid_segment
valid_segment-IsOctet [] h = ground arith
valid_segment-IsOctet (a ∷ []) h = ground arith
valid_segment-IsOctet (a ∷ b ∷ []) h = ground arith
valid_segment-IsOctet (a ∷ b ∷ c ∷ []) h = ground arith
valid_segment-IsOctet (a ∷ b ∷ c ∷ e ∷ s) h = ground arith

IsOctet-valid_segment : (s : Bytes) → IsOctet s → valid_segment s ≡ true
unfolding valid_segment
IsOctet-valid_segment [] h = absurd h
IsOctet-valid_segment (a ∷ []) h = ground arith
IsOctet-valid_segment (a ∷ b ∷ []) h = ground arith
IsOctet-valid_segment (a ∷ b ∷ c ∷ []) h = ground arith
IsOctet-valid_segment (a ∷ b ∷ c ∷ e ∷ s) h = absurd h

IsOctet-DotFree : (s : Bytes) → IsOctet s → DotFree s
IsOctet-DotFree [] h = tt
IsOctet-DotFree (a ∷ []) h = ground arith
IsOctet-DotFree (a ∷ b ∷ []) h = ground arith
IsOctet-DotFree (a ∷ b ∷ c ∷ []) h = ground arith
IsOctet-DotFree (a ∷ b ∷ c ∷ e ∷ s) h = absurd h

-- The last octet, with or without a dot behind it, is one segment.
segments-octet : (s : Bytes) → IsOctet s → segments s ≡ s ∷ []
segments-octet [] h = absurd h
segments-octet (a ∷ s) h = let free = IsOctet-DotFree (a ∷ s) h in segments-last a s free.0 free.1

segments-octet_dot : (s : Bytes) → IsOctet s → segments (s ++ dot ∷ []) ≡ s ∷ []
unfolding segments
segments-octet_dot s h = segments-until_dot s [] (IsOctet-DotFree s h)

all_valid-four :
    (a b c d : Bytes)
    → all_valid (a ∷ b ∷ c ∷ d ∷ []) ≡ true
    → IsOctet a × IsOctet b × IsOctet c × IsOctet d
unfolding all_valid
all_valid-four a b c d h =
    let (va, vb, vc, vd) = four_true in
    (
      valid_segment-IsOctet a va,
      valid_segment-IsOctet b vb,
      valid_segment-IsOctet c vc,
      valid_segment-IsOctet d vd,
    )
  where
    four_true :
        (valid_segment a ≡ true)
        × (valid_segment b ≡ true)
        × (valid_segment c ≡ true)
        × (valid_segment d ≡ true)
    four_true = ground arith

module _ (a b c d : Bytes) (o : IsOctet a × IsOctet b × IsOctet c × IsOctet d) where
  is_valid_ipv4-four : (ip : Bytes) → segments ip ≡ a ∷ b ∷ c ∷ d ∷ [] → is_valid_ipv4 ip ≡ true
  unfolding is_valid_ipv4 all_valid
  is_valid_ipv4-four ip e = rw (
    e,
    IsOctet-valid_segment a o.0,
    IsOctet-valid_segment b o.1,
    IsOctet-valid_segment c o.2,
    IsOctet-valid_segment d o.3,
  )

  segments-dotted :
      (last : Bytes)
      → segments last ≡ d ∷ []
      → segments (a ++ dot ∷ (b ++ dot ∷ (c ++ dot ∷ last))) ≡ a ∷ b ∷ c ∷ d ∷ []
  segments-dotted last e =
      segments-until_dot a _ (IsOctet-DotFree a o.0)
      ∙ ap (λ t. a ∷ t) (segments-until_dot b _ (IsOctet-DotFree b o.1))
      ∙ ap (λ t. a ∷ b ∷ t) (segments-until_dot c _ (IsOctet-DotFree c o.2))
      ∙ ap (λ t. a ∷ b ∷ c ∷ t) e

  dotted-dot : dotted a b c d ++ dot ∷ [] ≡ a ++ dot ∷ (b ++ dot ∷ (c ++ dot ∷ (d ++ dot ∷ [])))
  dotted-dot = simp append_assoc

IsAddress-is_valid_ipv4 : (ip : Bytes) → IsAddress ip → is_valid_ipv4 ip ≡ true
IsAddress-is_valid_ipv4 ip w = go w.text
  where
    go :
        (ip ≡ dotted w.a w.b w.c w.d) ⊎ (ip ≡ dotted w.a w.b w.c w.d ++ dot ∷ [])
        → is_valid_ipv4 ip ≡ true
    go (inl e) =
        is_valid_ipv4-four w.a w.b w.c w.d w.octets ip
          (rw e (segments-dotted w.a w.b w.c w.d w.octets w.d (segments-octet w.d w.octets.3)))
    go (inr e) = is_valid_ipv4-four w.a w.b w.c w.d w.octets ip (
        rw (e, dotted-dot w.a w.b w.c w.d w.octets)
          (segments-dotted w.a w.b w.c w.d w.octets _ (segments-octet_dot w.d w.octets.3)))

four_segments :
    (ip : Bytes) (ss : List Bytes)
    → JoinsTo ip ss
    → length ss ≡ 4
    → all_valid ss ≡ true
    → IsAddress ip
four_segments ip (a ∷ b ∷ c ∷ d ∷ []) j n v = record {
  a = a;
  b = b;
  c = c;
  d = d;
  octets = all_valid-four a b c d v;
  text = j;
}
four_segments ip [] j n v = absurd (omega arith)
four_segments ip (a ∷ []) j n v = absurd (omega arith)
four_segments ip (a ∷ b ∷ []) j n v = absurd (omega arith)
four_segments ip (a ∷ b ∷ c ∷ []) j n v = absurd (omega arith)
four_segments ip (a ∷ b ∷ c ∷ d ∷ e ∷ ss) j n v = absurd (omega arith)

is_valid_ipv4-parts :
    (ip : Bytes)
    → is_valid_ipv4 ip ≡ true
    → (length (segments ip) ≡ 4) × (all_valid (segments ip) ≡ true)
unfolding is_valid_ipv4
is_valid_ipv4-parts ip h = ground arith

-- is_valid_ipv4 accepts a text exactly when it is four octets (one to three digits, at most 255)
-- with a dot between each two, or such a text with one more dot at its end.
pub is_valid_ipv4-IsAddress : (ip : Bytes) → (is_valid_ipv4 ip ≡ true) ↔ IsAddress ip
is_valid_ipv4-IsAddress ip = (
  λ h.
      four_segments ip (segments ip) (join-segments ip) (is_valid_ipv4-parts ip h).0
        (is_valid_ipv4-parts ip h).1,
  IsAddress-is_valid_ipv4 ip,
)
