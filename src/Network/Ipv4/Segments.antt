-- ===== src/Network/Ipv4/Segments.antt =====
-- std::getline takes a text apart and a join puts it together.
use native.Mathlib.Decide.{ℕ_discrete}
use barq_native.Prelude.{ℕ, ◌≡◌, refl, sym, ap, ◌∙◌, ◌⊎◌, inl, inr, List, [], ◌∷◌, ◌++◌, arith, ◌≢◌}
use barq_native.Prelude.Bytes.{Bytes}
use barq_native.Network.Ipv4.{dot, cons_segment, segments}

-- The segments with a dot between each two.
abbrev pub join : List Bytes → Bytes
join [] = []
join (s ∷ []) = s
join (s ∷ t ∷ ss) = s ++ dot ∷ join (t ∷ ss)

-- No byte of the segment is a dot.
abbrev pub DotFree : Bytes → Type 0
DotFree [] = Unit {0}
DotFree (c ∷ cs) = (c ≢ dot) × DotFree cs

segments-dot : (cs : Bytes) → segments (dot ∷ cs) ≡ [] ∷ segments cs
unfolding segments
segments-dot cs = refl

segments-byte : (c : ℕ) (cs : Bytes) → c ≢ dot → segments (c ∷ cs) ≡ cons_segment c (segments cs)
unfolding segments
segments-byte c cs h = ground arith

-- A segment that a dot ends is the first that is read.
pub segments-until_dot : (s cs : Bytes) → DotFree s → segments (s ++ dot ∷ cs) ≡ s ∷ segments cs
segments-until_dot [] cs h = segments-dot cs
segments-until_dot (c ∷ s) cs h =
    rw (segments-byte c (s ++ dot ∷ cs) h.0, segments-until_dot s cs h.1)

segments-none : (c : ℕ) → cons_segment c (segments []) ≡ (c ∷ []) ∷ []
unfolding segments
segments-none c = refl

-- So is one that the text ends, if it is not empty.
pub segments-last : (c : ℕ) (s : Bytes) → c ≢ dot → DotFree s → segments (c ∷ s) ≡ (c ∷ s) ∷ []
segments-last c [] h free = segments-byte c [] h ∙ segments-none c
segments-last c (d ∷ s) h free = rw (segments-byte c (d ∷ s) h, segments-last d s free.0 free.1)

-- The text is the join of the segments, but for a dot at its end.
abbrev pub JoinsTo : Bytes → List Bytes → Type 0
JoinsTo cs ss = (cs ≡ join ss) ⊎ (cs ≡ join ss ++ dot ∷ [])

JoinsTo-dot :
    (cs s : Bytes) (ss : List Bytes) → JoinsTo cs (s ∷ ss) → JoinsTo (dot ∷ cs) ([] ∷ s ∷ ss)
JoinsTo-dot cs s ss (inl e) = inl (ap (λ t. dot ∷ t) e)
JoinsTo-dot cs s ss (inr e) = inr (ap (λ t. dot ∷ t) e)

join-cons_segment :
    (c : ℕ) (s : Bytes) (ss : List Bytes) → join (cons_segment c (s ∷ ss)) ≡ c ∷ join (s ∷ ss)
join-cons_segment c s [] = refl
join-cons_segment c s (t ∷ ss) = refl

JoinsTo-byte :
    (c : ℕ) (cs s : Bytes) (ss : List Bytes)
    → JoinsTo cs (s ∷ ss)
    → JoinsTo (c ∷ cs) (cons_segment c (s ∷ ss))
JoinsTo-byte c cs s ss (inl e) = inl (ap (λ t. c ∷ t) e ∙ sym (join-cons_segment c s ss))
JoinsTo-byte c cs s ss (inr e) =
    inr (ap (λ t. c ∷ t) e ∙ ap (λ t. t ++ dot ∷ []) (sym (join-cons_segment c s ss)))

cons_segment-cons :
    (c : ℕ) (ss : List Bytes) → (s : Bytes) × (rest : List Bytes) × (cons_segment c ss ≡ s ∷ rest)
cons_segment-cons c [] = (c ∷ [], [], refl)
cons_segment-cons c (s ∷ ss) = (c ∷ s, ss, refl)

-- What is read from a text that is not empty has a first segment.
segments-cons :
    (c : ℕ) (cs : Bytes) → (s : Bytes) × (rest : List Bytes) × (segments (c ∷ cs) ≡ s ∷ rest)
segments-cons c cs = elim (ℕ_discrete c dot) [
  | yes e ↦ rw e ([], segments cs, segments-dot cs)
  | no h ↦ rw (segments-byte c cs h) (cons_segment-cons c (segments cs))
]

-- One more byte in front of a text that is not empty.
JoinsTo-cons :
    (c : ℕ) (cs s : Bytes) (rest : List Bytes)
    → segments cs ≡ s ∷ rest
    → JoinsTo cs (s ∷ rest)
    → JoinsTo (c ∷ cs) (segments (c ∷ cs))
JoinsTo-cons c cs s rest e j = elim (ℕ_discrete c dot) [
  | yes d ↦ rw (d, segments-dot cs, e) (JoinsTo-dot cs s rest j)
  | no h ↦ rw (segments-byte c cs h, e) (JoinsTo-byte c cs s rest j)
]

pub join-segments : (cs : Bytes) → JoinsTo cs (segments cs)
unfolding segments
join-segments [] = inl refl
join-segments (c ∷ []) = ground arith
join-segments (c ∷ d ∷ cs) =
    let (s, rest, e) = segments-cons d cs in
    JoinsTo-cons c (d ∷ cs) s rest e (rw e at (join-segments (d ∷ cs)))
