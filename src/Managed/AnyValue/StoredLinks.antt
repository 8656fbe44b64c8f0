-- ===== src/Managed/AnyValue/StoredLinks.antt =====
-- Links in fields of any type.
use barq_native.Prelude.{ℕ, ◌≡◌, refl, true, none, some, ◌==◌, if◌then◌else◌}
use barq_native.Prelude.Bytes.{Bytes}
use barq_native.Managed.AnyValue.{
  CoreValue, deserialize, detach, get_stored_type, has_link, set_link, get_stored_link, pointer,
  holds_link, holds_alternative,
}
use barq_native.Managed.AnyValue.Alternatives.{IsValue}

module _ (C : CoreValue) (L : IsValue C) where
  -- Over values of core that meet their laws, a field that set_link wrote has a link and throws
  -- on detach; it holds a pointer to a struct exactly when the table of that struct is the one of
  -- the link, and then get_stored_link returns the key of the link, and throws otherwise.
  set_link-get_stored_link :
      (table key : ℕ) (name : Bytes)
      → let v = set_link C table key in
        let alternative_key = C.table_for_object_type name in
        (has_link C v ≡ true)
        × (detach C v ≡ none)
        × (holds_alternative C (pointer name) v ≡ (alternative_key == table))
        × (get_stored_link C name v ≡ (if alternative_key == table then some key else none))
  unfolding has_link detach deserialize get_stored_type get_stored_link holds_alternative holds_link
      set_link
  set_link-get_stored_link table key name =
      let n = L.is_null-make_link table key in
      let t = L.type-make_link table key in
      let l = L.get_link-make_link table key in
      (
        rw (has_link, get_stored_type, n, t) refl,
        rw (detach, deserialize, n, t) refl,
        rw (holds_alternative, get_stored_type, n, t, l, L.schema_of_table table key) refl,
        rw (get_stored_link, l) refl,
      )
