-- ===== src/Managed/Links/Comparison.antt =====
-- The comparisons of a link with an object.
use barq_native.Prelude.{◌≡◌, refl, Bool, true, none, some}
use barq_native.Query.{QueryEngine, link, ColKey}
use barq_native.Query.Rbool.{of_bool}
use barq_native.Managed.{object_answer}
use barq_native.Managed.Links.{
  ObjectStore, ManagedObject, equal_object, not_equal_object, not_equal_null, to_bool,
}

module _ (E : QueryEngine) (S : ObjectStore) (link_value : S.Key → E.Value link) {Barq : Type 0}
    (equal_barqs : Barq → Barq → Bool) where
  open S use {Key, Db, linked_object, equal_keys}

  -- On an object, a field that leads to an object equals that object, where its key equals itself
  -- and it is in the same file, and is also different from it: operator!= says what != nullptr
  -- says, whatever object it is given.
  equal_object-not_equal_object :
      (m_barq : Barq) (m_obj : Key) (m_key : ColKey) (db : Db) (rhs : ManagedObject Barq S)
      → linked_object m_obj m_key db ≡ some rhs.m_obj
      → equal_barqs m_barq rhs.m_barq ≡ true
      → equal_keys rhs.m_obj rhs.m_obj ≡ true
      → (object_answer E (equal_object S E link_value equal_barqs none m_barq m_obj m_key db rhs)
          ≡ some true)
        × (object_answer E
              (not_equal_object S E link_value equal_barqs none m_barq m_obj m_key db rhs)
            ≡ some true)
        × ((other : ManagedObject Barq S)
            → not_equal_object S E link_value equal_barqs none m_barq m_obj m_key db other
              ≡ not_equal_null S E link_value equal_barqs none m_obj m_key db)
  unfolding equal_object not_equal_object not_equal_null to_bool of_bool
  equal_object-not_equal_object m_barq m_obj m_key db rhs leads same self = (
    rw (equal_object, leads, same, self) refl,
    rw (not_equal_object, to_bool, leads) refl,
    λ other. refl,
  )
