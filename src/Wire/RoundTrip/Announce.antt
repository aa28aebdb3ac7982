-- ===== src/Wire/RoundTrip/Announce.antt =====
-- What arrives of an announcement.
use xmppconn.Base.{
  HasKeysOnce, ◌∷◌, refl, List, ◌<◌, ◌^◌, some, [], ◌++◌, Bytes, newline, Map, bytes_key, ◌≡◌, ap,
  sym, ◌∙◌, Lacks, All, map, bind-some, some-inj,
}
use xmppconn.Wire.{◌<<◌, istringstream-line}
use xmppconn.Wire.Codes.{announce, code_of}
use xmppconn.Wire.Decimal.{decimal, decimal-Lacks, session_port-decimal}
use xmppconn.Wire.Objects.{InterfaceDescription, BusObjectInfo, write_objects}
use xmppconn.Wire.Objects.RoundTrip.{
  IsObject, received_interface, received_object, parse-write_objects,
}
use xmppconn.Wire.RoundTrip.{after_code-code}
use xmppconn.Wire.Send.{
  alljoyn_xmpp_suffix, write_names, write_descriptions, write_properties, unique_name,
  send_announce,
}
use xmppconn.Wire.Send
use xmppconn.Wire.Receive.{parse_descriptions, parse_properties, parse_announce, starts_path}
use xmppconn.Wire.Receive
use xmppconn.Wire.RoundTrip.Descriptions.{
  IsDescription, received_descs, listed-received_descs, parse-write_descriptions,
}
use xmppconn.Wire.RoundTrip.Properties.{IsProperty, received_property, parse_fields}

-- What an announcement holds that can be sent.
pub record IsAnnouncement (a : Send.Announcement) : Type 0 where
  pub version_fits : a.version < 2 ^ 16
  pub port_fits : a.port < 2 ^ 16
  pub name_ok : Lacks newline a.bus_name
  pub descs_ok : All IsDescription a.object_descs
  pub descs_once : HasKeysOnce a.object_descs
  pub about_ok : All IsProperty a.about_data
  pub objects_ok : All IsObject a.bus_objects

-- The received form.
abbrev pub received : Bytes → Send.Announcement → Receive.Announcement
received remote_name a = record {
  remote_name = remote_name;
  version = a.version;
  port = a.port;
  bus_name = a.bus_name;
  about_data = map received_property a.about_data;
  objects = map (received_object a.object_descs) a.bus_objects;
}

same_interfaces :
    (ds : Map Bytes (List Bytes)) (path : Bytes) (is : List InterfaceDescription)
    → HasKeysOnce ds
    → map (received_interface (received_descs ds) path) is ≡ map (received_interface ds path) is
same_interfaces ds path [] h = refl
same_interfaces ds path (i ∷ is) h =
    ap
      (λ b.
        record { name = i.name; data_text = i.introspect; announced = b }
        ∷ map (received_interface (received_descs ds) path) is)
      (listed-received_descs ds path i.name h)
    ∙ ap (λ rest. received_interface ds path i ∷ rest) (same_interfaces ds path is h)

same_objects :
    (ds : Map Bytes (List Bytes)) (os : List BusObjectInfo)
    → HasKeysOnce ds
    → map (received_object (received_descs ds)) os ≡ map (received_object ds) os
same_objects ds [] h = refl
same_objects ds (o ∷ os) h =
    ap
      (λ is.
        record { path = o.path; interfaces = is } ∷ map (received_object (received_descs ds)) os)
      (same_interfaces ds o.path o.interfaces h)
    ∙ ap (λ rest. received_object ds o ∷ rest) (same_objects ds os h)

parse_announce-text :
    (name : Bytes) (a : Send.Announcement) (d : Bytes)
    → IsAnnouncement a
    → Lacks newline name
    → write_descriptions a.object_descs ≡ some d
    → parse_announce (
        code_of announce
        << name
        << decimal a.version
        << decimal a.port
        << a.bus_name
        << (d ++ ([] << (write_properties a.about_data ++ ([] << write_objects a.bus_objects)))))
      ≡ some (received name a)
unfolding parse_announce
parse_announce-text name a d h hu e =
    rw
      (
        after_code-code,
        istringstream-line name _ hu,
        istringstream-line (decimal a.version) _ (decimal-Lacks a.version),
        istringstream-line (decimal a.port) _ (decimal-Lacks a.port),
        istringstream-line a.bus_name _ h.name_ok,
        parse-write_descriptions a.object_descs d _ h.descs_ok e,
        parse_fields a.about_data [] _ h.about_ok,
        parse-write_objects (received_descs a.object_descs) a.bus_objects h.objects_ok
            ∙ same_objects a.object_descs a.bus_objects h.descs_once,
        session_port-decimal a.version h.version_fits,
        session_port-decimal a.port h.port_fits,
      )
      refl

-- An announcement that is sent, of which no name or path holds a newline, no text an empty line, and
-- both numbers fit 16 bits, arrives with its version, port and names, with the fields of its
-- `AboutData` in their order and their values without newlines, and with its bus objects, whose
-- interfaces are marked as announced if the object descriptions list them for the path.
pub parse-send_announce :
    (well_known : Map Bytes Bytes) (a : Send.Announcement) (text : Bytes)
    → IsAnnouncement a
    → Lacks newline (unique_name well_known a.bus_name)
    → send_announce well_known a ≡ some text
    → parse_announce text ≡ some (received (unique_name well_known a.bus_name) a)
unfolding send_announce
parse-send_announce well_known a text h hu sent =
    let (d, e, e') = bind-some _ _ text sent in
    ap parse_announce (sym (some-inj e'))
    ∙ parse_announce-text (unique_name well_known a.bus_name) a d h hu e
