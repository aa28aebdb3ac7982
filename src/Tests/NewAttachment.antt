-- ===== src/Tests/NewAttachment.antt =====
-- A new attachment of two objects, the first of which fails.
use xmppconn.Base.{true, [], ◌∷◌, ◌++◌, ◌&&◌, bytes_eq, codes, is_some, if◌then◌else◌, ◌≡◌}
use xmppconn.SessionTracker
use xmppconn.Wire.Objects.{InterfaceData, RemoteObjectDescription}
use xmppconn.RemoteBusAttachment.Objects.{er_ok, refused}
use xmppconn.Connector.{Connector}
use xmppconn.Connector.NewAttachment.{Answers, is_ok, add_all, create_attachment}
use xmppconn.Connector.NewAttachment.Created.{
  fresh, unknown, first_fine, KeepsRegistered, create_attachment-last,
}

abbrev empty : Connector
empty = record {
  bus_interface_name = codes "org.alljoyn.XmppConnector";
  remote_attachments = [];
  well_known_names = [];
  session_ports = (codes "org.lamp", 27 ∷ 28 ∷ []) ∷ [];
  session_tracker = SessionTracker.new;
}

abbrev lamp_interface : InterfaceData
lamp_interface = record { name = codes "org.lamp"; data_text = codes "<lamp/>"; announced = true }

abbrev lamp : RemoteObjectDescription
lamp = record { path = codes "/lamp"; interfaces = lamp_interface ∷ [] }

abbrev door : RemoteObjectDescription
door = record { path = codes "/door"; interfaces = lamp_interface ∷ [] }

-- The bus refuses the object of the door.
abbrev answers : Answers
answers = record {
  create_interfaces = λ xml. er_ok;
  has_interface = λ name. true;
  new_object = λ path. record {
    implemented = er_ok;
    registration = if bytes_eq path (codes "/door") then refused 7 else er_ok;
  };
  started = er_ok;
  connected = er_ok;
}

create_attachment-last_example :
    (is_some (create_attachment empty answers ((door ∷ []) ++ lamp ∷ [])) ≡ (
      first_fine answers
        (add_all empty answers fresh (door ∷ [])).objects
        (codes "/lamp")
        (unknown (lamp_interface ∷ []))
      && is_ok answers.started
      && is_ok answers.connected))
    × KeepsRegistered (create_attachment empty answers ((door ∷ []) ++ lamp ∷ []))
create_attachment-last_example = create_attachment-last empty answers (door ∷ []) lamp
