-- ===== src/Connector/NewAttachment.antt =====
-- `AddRemoteObject`, `BindSessionPorts` and the creation of an attachment in `GetRemoteAttachment` of
-- app/XMPPConnector.cpp. What AllJoyn answers is an argument.
pub mod Created
use xmppconn.Base.{
  ℕ, Bool, true, false, ◌&&◌, Option, none, some, List, [], ◌∷◌, ◌++◌, Bytes, bytes_key, Map,
  insert, lookup, is_empty, if◌then◌else◌,
}
use xmppconn.Wire.Objects.{InterfaceData, RemoteObjectDescription}
use xmppconn.Connector.{Connector, is_interface_known_to_already_exist}
use xmppconn.RemoteBusAttachment.Objects.{
  Status, er_ok, er_fail, Objects, NewObject, add_remote_object,
}

-- What the bus of the new attachment answers: to an interface's XML, whether it then has the
-- interface, and to a new object of a path.
pub record Answers : Type 0 where
  pub create_interfaces : Bytes → Status
  pub has_interface : Bytes → Bool
  pub new_object : Bytes → NewObject
  pub started : Status
  pub connected : Status

-- The interfaces of an object that were created, the ports to bind for them, and the status.
pub record Collected : Type 0 where
  pub interfaces : List Bytes
  pub ports : Map Bytes (List ℕ)
  pub status : Status

abbrev pub is_ok : Status → Bool
is_ok er_ok = true
is_ok _ = false

unfoldable pub add_ports : Bytes → Option (List ℕ) → Map Bytes (List ℕ) → Map Bytes (List ℕ)
add_ports name none ports = ports
add_ports name (some found) ports = insert name found ports

-- The loop over the interfaces, which ends at the first that fails.
unfoldable pub collect : Connector → Answers → List InterfaceData → Map Bytes (List ℕ) → Collected
unfolding add_ports
collect c bus [] ports = record { interfaces = []; ports = ports; status = er_ok }
collect c bus (i ∷ is) ports =
    let known = collect c bus is ports in
    let made = collect c bus is (add_ports i.name (lookup i.name c.session_ports) ports) in
    let err = bus.create_interfaces i.data_text in
    if is_interface_known_to_already_exist i.name
    then known
    else if is_ok err
    then (if bus.has_interface i.name
        then record made { interfaces = i.name ∷ made.interfaces }
        else record { interfaces = []; ports = ports; status = er_fail })
    else record { interfaces = []; ports = ports; status = err }

-- The objects of the new attachment, the ports to bind, and `err`.
pub record Attached : Type 0 where
  pub objects : Objects
  pub ports : Map Bytes (List ℕ)
  pub status : Status

-- The status of the bus object takes the place of that of the interfaces.
unfoldable pub add_collected : Objects → Answers → Bytes → Collected → Attached
unfolding add_remote_object
add_collected s bus path found =
    if is_empty found.interfaces
    then record { objects = s; ports = found.ports; status = found.status }
    else (let (s', err) = add_remote_object s path found.interfaces (bus.new_object path) in
        record { objects = s'; ports = found.ports; status = err })

-- `XMPPConnector::AddRemoteObject`
unfoldable pub add_described :
    Connector → Answers → Objects → Map Bytes (List ℕ) → RemoteObjectDescription → Attached
unfolding collect add_collected
add_described c bus s ports desc =
    add_collected s bus desc.path (collect c bus desc.interfaces ports)

-- The loop over the objects, each of which sets `err` anew.
unfoldable pub add_all : Connector → Answers → Attached → List RemoteObjectDescription → Attached
unfolding add_described
add_all c bus a [] = a
add_all c bus a (o ∷ os) = add_all c bus (add_described c bus a.objects a.ports o) os

-- The ports that `BindSessionPorts` binds, in their order; what the bus answers is only logged.
unfoldable pub bound_ports : Map Bytes (List ℕ) → List ℕ
bound_ports [] = []
bound_ports ((name, ports) ∷ m) = ports ++ bound_ports m

-- The new attachment's objects and the ports that are bound, or none where it is deleted again.
unfoldable pub create_attachment :
    Connector → Answers → List RemoteObjectDescription → Option (Objects × List ℕ)
unfolding add_all bound_ports
create_attachment c bus described =
    let a =
      add_all c bus
        (record { objects = record { objects = []; registered = [] }; ports = []; status = er_ok })
        described in
    if is_ok a.status && is_ok bus.started && is_ok bus.connected
    then some (a.objects, bound_ports a.ports)
    else none
