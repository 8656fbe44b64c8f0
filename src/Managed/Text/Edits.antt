-- ===== src/Managed/Text/Edits.antt =====
-- A field that is edited as a std::string is.
use barq_native.Prelude.{
  ℕ, ◌≡◌, refl, sym, ap, ◌∙◌, ltb, ◌==◌, Option, none, some, Option-cases, inl, inr, List, [], ◌∷◌,
  ◌++◌, length, set, get_elem?, ◌>>=◌, if◌then◌else◌, arith,
}
use mathlib.Core.Option
use barq_native.Prelude.Bytes.{Bytes}
use barq_native.Query.{ColKey}
use barq_native.Managed.{Column, IsColumn}
use barq_native.Managed.Text.{
  without_last, at, assign_char, read_char, clear, push_back, append, pop_back, size, detach,
}

pub data Edit : Type 0 where
  append_of : Bytes → Edit
  push_back_of : ℕ → Edit
  pop_back_of clear_of : Edit
  -- s[i] = c
  assign_of : ℕ → ℕ → Edit

-- What an edit does to a std::string; `none` is undefined behaviour.
abbrev pub string_edit : Edit → Bytes → Option Bytes
string_edit (append_of v) s = some (s ++ v)
string_edit (push_back_of c) s = some (s ++ c ∷ [])
string_edit pop_back_of s = without_last s
string_edit clear_of s = some []
string_edit (assign_of i c) s =
    if ltb i (length s)
    then some (set s i c)
    else if (i == length s)
    then (if c == 0 then some s else none)
    else none

abbrev pub string_edits : List Edit → Bytes → Option Bytes
string_edits [] s = some s
string_edits (e ∷ es) s = do s' ← string_edit e s; string_edits es s'

module _ (C : Column Bytes) (k : ColKey) where
  open C use {Obj, get, set}

  abbrev pub field_edit : Edit → Obj → Option Obj
  field_edit (append_of v) o = some (append C k v o)
  field_edit (push_back_of c) o = some (push_back C k c o)
  field_edit pop_back_of o = pop_back C k o
  field_edit clear_of o = some (clear C k o)
  field_edit (assign_of i c) o = assign_char C k (at C i) c o

  abbrev pub field_edits : List Edit → Obj → Option Obj
  field_edits [] o = some o
  field_edits (e ∷ es) o = do o' ← field_edit e o; field_edits es o'

  module _ (L : IsColumn C) where
    -- An edit writes what it makes of the text of the field.
    field_edit-writes :
        (e : Edit) (o : Obj) → field_edit e o ≡ Option.map (set o k) (string_edit e (get o k))
    unfolding append push_back pop_back clear assign_char at
    field_edit-writes (append_of v) o = refl
    field_edit-writes (push_back_of c) o = refl
    field_edit-writes pop_back_of o = ground arith
    field_edit-writes clear_of o = refl
    field_edit-writes (assign_of i c) o = ground arith

    abbrev text_of : Option Obj → Option Bytes
    text_of x = Option.map (λ o. get o k) x

    text_of-field_edits :
        (es : List Edit) (o : Obj) → text_of (field_edits es o) ≡ string_edits es (get o k)
    text_of-field_edits [] o = refl
    text_of-field_edits (e ∷ es) o = elim (Option-cases (string_edit e (get o k))) [
      | inl q ↦ rw (field_edit-writes e o, q) refl
      | inr (s, q) ↦
          rw (field_edit-writes e o, q)
            (text_of-field_edits es (set o k s) ∙ ap (string_edits es) (L.get-set o k s))
    ]

    read_after :
        (x : Option Obj) (i : ℕ) {s : Option Bytes}
        → text_of x ≡ s
        → (Option.map (size C k) x ≡ Option.map length s)
          × ((do o ← x; read_char C k (at C i) o)
              ≡ (do t ← s; if i == length t then some 0 else get_elem? t i))
    unfolding size read_char at
    read_after none i e = rw (sym e) (refl, refl)
    read_after (some o) i e = rw (sym e) (refl, refl)

    -- Over columns that read back what was written, any sequence of append, push_back, pop_back,
    -- clear and assignments of a character on a field is defined exactly when the same sequence
    -- on a std::string that starts with the field's text is, and detach, size and the characters
    -- that are read afterwards are those of that std::string.
    pub field_edits-string_edits :
        (es : List Edit) (o : Obj) (i : ℕ)
        → (Option.map (detach C k) (field_edits es o) ≡ string_edits es (detach C k o))
          × (Option.map (size C k) (field_edits es o)
              ≡ Option.map length (string_edits es (detach C k o)))
          × ((do o' ← field_edits es o; read_char C k (at C i) o') ≡ (do
            s ← string_edits es (detach C k o)
            if i == length s then some 0 else get_elem? s i))
    unfolding detach
    field_edits-string_edits es o i =
        let r = read_after (field_edits es o) i (text_of-field_edits es o) in
        (text_of-field_edits es o, r.0, r.1)
