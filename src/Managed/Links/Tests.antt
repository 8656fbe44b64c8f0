-- ===== src/Managed/Links/Tests.antt =====
-- Links between numbered objects.
use barq_native.Prelude.{◌≡◌, refl, true, none, some, arith}
use barq_native.Managed.Links.{ObjectStore, StructSchema, assign_pointer, detach, to_bool}
use barq_native.Fields.Sample.{
  types, types-PrintsItsValues, fields, fields-IsObject, objects, objects-PutsObjects,
  links-put_link, dog, rex, kennel,
}
use barq_native.Fields.Stored.{struct_store}
use barq_native.Managed.Links.Assignment.{IsStore, assign_pointer-detach}

objects-IsStore : IsStore types fields objects
objects-IsStore = record {
  linked_object-set = λ m_obj obj m_key db. links-put_link m_obj m_key (some obj) db;
  linked_object-set_null = λ m_obj m_key db. links-put_link m_obj m_key none db;
  linked_object-create = λ m_obj m_key db. links-put_link m_obj m_key (some db.next) db;
  linked_object-put = λ m_obj m_key obj written db. refl;
  object-put = objects-PutsObjects;
}

abbrev dogs : ObjectStore
dogs = struct_store types fields objects dog

abbrev embedded_dog : StructSchema dogs
embedded_dog = record { primary_key = none; is_embedded = true }

assign_pointer-detach_example :
    (to_bool dogs 0 5 (assign_pointer dogs embedded_dog (some rex) 0 5 kennel) ≡ true)
    × (detach dogs 0 5 (assign_pointer dogs embedded_dog (some rex) 0 5 kennel) ≡ some rex)
assign_pointer-detach_example =
    assign_pointer-detach types fields objects dog types-PrintsItsValues fields-IsObject
      objects-IsStore embedded_dog (some rex) 0 5 kennel (ground arith)
