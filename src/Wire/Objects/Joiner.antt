-- ===== src/Wire/Objects/Joiner.antt =====
-- The bus objects of a join request: without the interfaces that every object has.
use xmppconn.Base.{
  Bool, true, false, Bytes, codes, arith, if◌then◌else◌, not, List, [], ◌∷◌, ◌++◌, ◌≡◌, refl, ap,
  ◌∙◌, All, map, if_rule,
}
use xmppconn.Wire.{istringstream, ◌<<◌}
use xmppconn.Wire.Objects.{
  InterfaceDescription, BusObjectInfo, write_interfaces, write_objects, is_standard,
  without_standard, write_joiner_objects, parse_bus_object_info,
}
use xmppconn.Wire.Objects.RoundTrip.{
  has_name, IsWritable, IsObject, received_object, parse-write_objects,
}

-- The interfaces that every bus object has.
abbrev pub of_every_object : List Bytes
of_every_object =
    codes "org.freedesktop.DBus.Peer"
    ∷ codes "org.freedesktop.DBus.Introspectable"
    ∷ codes "org.freedesktop.DBus.Properties"
    ∷ codes "org.allseen.Introspectable"
    ∷ []

abbrev pub own_interfaces : List InterfaceDescription → List InterfaceDescription
own_interfaces [] = []
own_interfaces (i ∷ is) =
    let rest = own_interfaces is in if has_name i.name of_every_object then rest else i ∷ rest

abbrev pub stripped : BusObjectInfo → BusObjectInfo
stripped o = record o { interfaces = own_interfaces o.interfaces }

is_standard-has_name : (name : Bytes) → is_standard name ≡ has_name name of_every_object
unfolding is_standard
is_standard-has_name name = ground arith

without_standard-own : (is : List InterfaceDescription) → without_standard is ≡ own_interfaces is
unfolding without_standard
without_standard-own [] = refl
without_standard-own (i ∷ is) =
    ap (λ b. if not b then i ∷ without_standard is else without_standard is)
      (is_standard-has_name i.name)
    ∙ if_not (has_name i.name of_every_object) (without_standard-own is)
  where
    if_not :
        {xs ys : List InterfaceDescription} (b : Bool)
        → xs ≡ ys
        → (if not b then i ∷ xs else xs) ≡ (if b then ys else i ∷ ys)
    if_not true e = e
    if_not false e = ap (λ zs. i ∷ zs) e

write_joiner_objects-stripped :
    (os : List BusObjectInfo) → write_joiner_objects os ≡ write_objects (map stripped os)
unfolding write_joiner_objects write_objects
write_joiner_objects-stripped [] = refl
write_joiner_objects-stripped (o ∷ os) =
    ap (λ x. o.path << (write_interfaces (without_standard o.interfaces) ++ ([] << x)))
      (write_joiner_objects-stripped os)
    ∙ ap (λ is. o.path << (write_interfaces is ++ ([] << write_objects (map stripped os))))
        (without_standard-own o.interfaces)

own_interfaces-All :
    (is : List InterfaceDescription) → All IsWritable is → All IsWritable (own_interfaces is)
own_interfaces-All [] _ = _
own_interfaces-All (i ∷ is) (h, hs) =
    let ih = own_interfaces-All is hs in
    if_rule (All IsWritable) (has_name i.name of_every_object) (own_interfaces is)
      (i ∷ own_interfaces is) ih (h, ih)

stripped-All : (os : List BusObjectInfo) → All IsObject os → All IsObject (map stripped os)
stripped-All [] _ = _
stripped-All (o ∷ os) (h, hs) = (
  record { path_ok = h.path_ok; interfaces_ok = own_interfaces-All o.interfaces h.interfaces_ok },
  stripped-All os hs,
)

-- The objects of a join request arrive as they are but for the interfaces that every object has,
-- none of them marked as announced.
pub parse-write_joiner_objects :
    (os : List BusObjectInfo)
    → All IsObject os
    → parse_bus_object_info (istringstream (write_joiner_objects os)) []
      ≡ map (received_object []) (map stripped os)
parse-write_joiner_objects os h =
    ap (λ x. parse_bus_object_info (istringstream x) []) (write_joiner_objects-stripped os)
    ∙ parse-write_objects [] (map stripped os) (stripped-All os h)
