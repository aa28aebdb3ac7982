-- ===== src/Connector/NewAttachment/Created.antt =====
-- Which new attachments are kept, and what their objects are.
use xmppconn.Base.{
  arith, Bytes, not, inl, inr, Bool-cases, bytes_key, Map, lookup, ℕ, Bool, true, false, ◌&&◌,
  Option, none, some, List, [], ◌∷◌, ◌++◌, is_empty, if◌then◌else◌, ◌≡◌, refl, ap, ◌∙◌, if_rule,
  is_some,
}
use xmppconn.Wire.Objects.{InterfaceData, RemoteObjectDescription}
use xmppconn.Connector.{is_interface_known_to_already_exist, Connector}
use xmppconn.RemoteBusAttachment.Objects.{
  Status, RemoteObject, new_object, er_fail, remote_object_exists, add_remote_object, implement,
  register, er_ok, Objects,
}
use xmppconn.RemoteBusAttachment.Objects.Registered.{IsRegistered, add-IsRegistered}
use xmppconn.Connector.NewAttachment.{
  Collected, add_ports, Answers, is_ok, collect, Attached, add_collected, add_described, add_all,
  create_attachment,
}

add_all-append :
    (c : Connector) (bus : Answers) (a : Attached) (os : List RemoteObjectDescription)
    (o : RemoteObjectDescription)
    → add_all c bus a (os ++ o ∷ [])
      ≡ add_described c bus (add_all c bus a os).objects (add_all c bus a os).ports o
unfolding add_all
add_all-append c bus a [] o = refl
add_all-append c bus a (x ∷ os) o =
    add_all-append c bus (add_described c bus a.objects a.ports x) os o

add_described-IsRegistered :
    (c : Connector) (bus : Answers) (a : Attached) (o : RemoteObjectDescription)
    → IsRegistered a.objects
    → IsRegistered (add_described c bus a.objects a.ports o).objects
unfolding add_described add_collected
add_described-IsRegistered c bus a o h =
    let found = collect c bus o.interfaces a.ports in
    if_rule (λ (x : Attached). IsRegistered x.objects) (is_empty found.interfaces) _ _ h
      (add-IsRegistered a.objects o.path found.interfaces (bus.new_object o.path) h)

add_all-IsRegistered :
    (c : Connector) (bus : Answers) (a : Attached) (os : List RemoteObjectDescription)
    → IsRegistered a.objects
    → IsRegistered (add_all c bus a os).objects
unfolding add_all
add_all-IsRegistered c bus a [] h = h
add_all-IsRegistered c bus a (o ∷ os) h =
    add_all-IsRegistered c bus (add_described c bus a.objects a.ports o) os
      (add_described-IsRegistered c bus a o h)

-- The state before the loop.
abbrev pub fresh : Attached
fresh = record { objects = record { objects = []; registered = [] }; ports = []; status = er_ok }

-- What is kept: the objects are those that are registered.
abbrev pub KeepsRegistered : Option (Objects × List ℕ) → Type 0
KeepsRegistered none = Unit
KeepsRegistered (some (s, ports)) = IsRegistered s

-- The interfaces that are not left out as known.
abbrev pub unknown : List InterfaceData → List InterfaceData
unknown [] = []
unknown (i ∷ is) =
    let rest = unknown is in if is_interface_known_to_already_exist i.name then rest else i ∷ rest

-- An interface is created and then there.
abbrev pub creates : Answers → InterfaceData → Bool
creates bus i = is_ok (bus.create_interfaces i.data_text) && bus.has_interface i.name

-- No object of the path is there, and the bus takes the new one.
abbrev pub takes : Answers → Objects → Bytes → Bool
takes bus s path =
    not (remote_object_exists s path)
    && is_ok (bus.new_object path).implemented
    && is_ok (bus.new_object path).registration

-- An object has nothing to add, or its first interface is created and the object taken. What becomes of
-- its other interfaces makes no difference.
abbrev pub first_fine : Answers → Objects → Bytes → List InterfaceData → Bool
first_fine bus s path [] = true
first_fine bus s path (i ∷ is) = creates bus i && takes bus s path

implement-is_ok :
    (s : Objects) (o : RemoteObject) (implemented registration : Status)
    → is_ok (implement s o implemented registration).1 ≡ (is_ok implemented && is_ok registration)
unfolding implement register
implement-is_ok s o er_ok er_ok = refl
implement-is_ok s o er_ok er_fail = refl
implement-is_ok s o er_ok registration = refl
implement-is_ok s o er_fail registration = refl
implement-is_ok s o implemented registration = refl

add-is_ok :
    (bus : Answers) (s : Objects) (path : Bytes) (interfaces : List Bytes)
    → is_ok (add_remote_object s path interfaces (bus.new_object path)).1 ≡ takes bus s path
unfolding add_remote_object
add-is_ok bus s path interfaces = elim (Bool-cases (remote_object_exists s path)) [
  | inl e ↦ rw e refl
  | inr e ↦ rw e (implement-is_ok s (new_object path interfaces) _ _)
]

-- What is collected is nothing, with an error if there was something, or it begins with the first.
Starts : Answers → List InterfaceData → Collected → Type 0
Starts bus [] found = (is_empty found.interfaces ≡ true) × (is_ok found.status ≡ true)
Starts bus (i ∷ is) found =
    (is_empty found.interfaces ≡ not (creates bus i))
    × ((is_ok found.status && not (creates bus i)) ≡ false)

one-Starts :
    (bus : Answers) (i : InterfaceData) (is : List InterfaceData) (ports : Map Bytes (List ℕ))
    (made : Collected) (err : Status)
    → bus.create_interfaces i.data_text ≡ err
    → Starts bus (i ∷ is) (
        if is_ok err
        then (if bus.has_interface i.name
            then record made { interfaces = i.name ∷ made.interfaces }
            else record { interfaces = []; ports = ports; status = er_fail })
        else record { interfaces = []; ports = ports; status = err })
unfolding Starts
one-Starts bus i is ports made er_ok h = elim (Bool-cases (bus.has_interface i.name)) [
  | inl there ↦ rw (h, there) (refl, ground arith)
  | inr missing ↦ rw (h, missing) (refl, refl)
]
one-Starts bus i is ports made err h = rw h (refl, refl)

collect-Starts :
    (c : Connector) (bus : Answers) (is : List InterfaceData) (ports : Map Bytes (List ℕ))
    → Starts bus (unknown is) (collect c bus is ports)
unfolding collect Starts
collect-Starts c bus [] ports = (refl, refl)
collect-Starts c bus (i ∷ is) ports =
    elim (Bool-cases (is_interface_known_to_already_exist i.name)) [
      | inl known ↦ rw known (collect-Starts c bus is ports)
      | inr new ↦ rw new (
          one-Starts bus i (unknown is) ports
            (collect c bus is (add_ports i.name (lookup i.name c.session_ports) ports))
            (bus.create_interfaces i.data_text) refl)
    ]

added-first_fine :
    (bus : Answers) (s : Objects) (path : Bytes) (is : List InterfaceData) (found : Collected)
    → Starts bus is found
    → is_ok (add_collected s bus path found).status ≡ first_fine bus s path is
unfolding Starts add_collected
added-first_fine bus s path [] found (empty, fine) = rw empty fine
added-first_fine bus s path (i ∷ is) found (begins, failed) = elim (Bool-cases (creates bus i)) [
  | inl e ↦ rw begins (rw e (add-is_ok bus s path found.interfaces))
  | inr e ↦ rw begins (rw e (ground (arith, failed, e)))
]

last_status :
    (c : Connector) (bus : Answers) (os : List RemoteObjectDescription)
    (o : RemoteObjectDescription)
    → is_ok (add_all c bus fresh (os ++ o ∷ [])).status
      ≡ first_fine bus (add_all c bus fresh os).objects o.path (unknown o.interfaces)
unfolding add_described
last_status c bus os o =
    let before = add_all c bus fresh os in
    ap (λ (x : Attached). is_ok x.status) (add_all-append c bus fresh os o)
    ∙ added-first_fine bus before.objects o.path (unknown o.interfaces) _
        (collect-Starts c bus o.interfaces before.ports)

-- Of several described objects only the last decides, and of its interfaces only the first: the new
-- attachment is kept exactly if the last object has no interface that is to be created, or its first
-- one is created and there, its path is not taken and the bus takes it, and the attachment starts
-- and connects. What became of the objects before, and of the other interfaces, makes no difference.
-- The objects of an attachment that is kept have different paths and are those that are registered on
-- its bus.
pub create_attachment-last :
    (c : Connector) (bus : Answers) (os : List RemoteObjectDescription)
    (o : RemoteObjectDescription)
    → (is_some (create_attachment c bus (os ++ o ∷ [])) ≡ (
        first_fine bus (add_all c bus fresh os).objects o.path (unknown o.interfaces)
        && is_ok bus.started
        && is_ok bus.connected))
      × KeepsRegistered (create_attachment c bus (os ++ o ∷ []))
unfolding create_attachment
create_attachment-last c bus os o =
    let all = add_all c bus fresh (os ++ o ∷ []) in
    (
      decided (is_ok all.status && is_ok bus.started && is_ok bus.connected) _
          ∙ ap (λ b. b && is_ok bus.started && is_ok bus.connected) (last_status c bus os o),
      if_rule KeepsRegistered (is_ok all.status && is_ok bus.started && is_ok bus.connected) _ _
          (add_all-IsRegistered c bus fresh (os ++ o ∷ [])
            (record { distinct = tt; on_bus = refl }))
          tt,
    )
  where
    decided : (b : Bool) (x : Objects × List ℕ) → is_some (if b then some x else none) ≡ b
    decided true x = refl
    decided false x = refl
