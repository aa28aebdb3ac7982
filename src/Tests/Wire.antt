-- ===== src/Tests/Wire.antt =====
-- Messages about one object with two interfaces.
use xmppconn.Base.{
  some, ◌↔◌, List, [], ◌∷◌, ◌++◌, Bytes, codes, newline, Map, map, lookup, bytes_eq, bytes_key,
  ◌>>=◌, ◌≡◌, refl, arith, All,
}
use xmppconn.Text.{find}
use xmppconn.Wire.{istringstream, ◌<<◌}
use xmppconn.Wire.Codes.{code_of, announce, kind_of}
use xmppconn.Wire.Dispatch.{StartsWith, kind_of-StartsWith}
use xmppconn.Wire.Decimal.{decimal}
use xmppconn.Wire.Objects.{
  BusObjectInfo, InterfaceDescription, write_objects, parse_bus_object_info,
}
use xmppconn.Wire.Objects.RoundTrip.{IsObject, IsWritable, received_object, parse-write_objects}
use xmppconn.Wire.Objects.Joiner.{stripped}
use xmppconn.Wire.RoundTrip.{parse-send_join_request, parse-send_advertisement}
use xmppconn.Wire.RoundTrip.Calls.{
  parse-send_method_call, parse-send_signal, parse-send_property_requests, property_request,
}
use xmppconn.Wire.RoundTrip.Descriptions.{IsDescription}
use xmppconn.Wire.RoundTrip.Announce.{IsAnnouncement, received, parse-send_announce}
use xmppconn.Wire.Send
use xmppconn.Wire.Send.{
  unique_name, send_advertisement, send_announce, send_join_request, send_join_response,
  send_session_joined, send_session_lost, send_method_call, send_method_reply,
  send_method_reply_error, send_signal, send_get_request, send_get_reply, send_get_reply_error,
  send_set_request, send_set_reply, send_get_all_request, send_get_all_reply,
  send_get_all_reply_error, send_name_owner_changed, write_properties, write_names,
}
use xmppconn.Wire.Receive.{parse_advertisement, parse_announce, parse_join_request, starts_path}
use xmppconn.Wire.Receive.Calls.{
  parse_method_call, parse_signal, parse_get_request, parse_set_request, parse_get_all_request,
}

abbrev object_path : Bytes
object_path = codes "/Lamp"

abbrev lamp : InterfaceDescription
lamp = record {
  name = codes "org.lamp.Light";
  introspect = codes "<interface>" ++ newline ∷ codes "</interface>" ++ newline ∷ [];
}

abbrev peer_interface : InterfaceDescription
peer_interface = record {
  name = codes "org.freedesktop.DBus.Peer";
  introspect = codes "<interface/>" ++ newline ∷ [];
}

abbrev objects : List BusObjectInfo
objects = record { path = object_path; interfaces = lamp ∷ peer_interface ∷ [] } ∷ []

abbrev descriptions : Map Bytes (List Bytes)
descriptions = (object_path, codes "org.lamp.Light" ∷ []) ∷ []

lamp-IsWritable : IsWritable lamp
lamp-IsWritable = record {
  name_ok = record { some_text = ground arith; one_line = ground arith };
  text_ok = record {
    first = codes "<interface>";
    more = codes "</interface>" ∷ [];
    lines_ok = (
      record { some_text = ground arith; one_line = ground arith },
      (record { some_text = ground arith; one_line = ground arith }, _),
    );
    text = refl;
  };
}

peer_interface-IsWritable : IsWritable peer_interface
peer_interface-IsWritable = record {
  name_ok = record { some_text = ground arith; one_line = ground arith };
  text_ok = record {
    first = codes "<interface/>";
    more = [];
    lines_ok = (record { some_text = ground arith; one_line = ground arith }, _);
    text = refl;
  };
}

objects_ok : All IsObject objects
objects_ok = (
  record {
    path_ok = record { some_text = ground arith; one_line = ground arith };
    interfaces_ok = (lamp-IsWritable, (peer_interface-IsWritable, _));
  },
  _,
)

parse-write_objects_example :
    parse_bus_object_info (istringstream (write_objects objects)) descriptions
    ≡ map (received_object descriptions) objects
parse-write_objects_example = parse-write_objects descriptions objects objects_ok

abbrev joiner : Bytes
joiner = codes ":a.1"

abbrev joinee : Bytes
joinee = codes "org.lamp"

parse-send_join_request_example :
    parse_join_request (send_join_request joinee 27 joiner objects)
    ≡ some (record {
      joinee = joinee;
      port = 27;
      joiner = joiner;
      objects = map (received_object []) (map stripped objects);
    })
parse-send_join_request_example =
    parse-send_join_request joinee joiner 27 objects (ground arith) (ground arith) (omega arith)
      objects_ok

abbrev well_known : Map Bytes Bytes
well_known = (joinee, joiner) ∷ []

parse-send_advertisement_example :
    (send_advertisement well_known joinee objects >>= parse_advertisement)
    ≡ some (record {
      remote_name = unique_name well_known joinee;
      advertised_name = joinee;
      objects = map (received_object []) objects;
    })
unfolding find unique_name lookup
parse-send_advertisement_example =
    parse-send_advertisement well_known joinee objects refl (ground arith) (ground arith) objects_ok

abbrev announcement : Send.Announcement
announcement = record {
  version = 0;
  port = 900;
  bus_name = joinee;
  object_descs = descriptions;
  about_data = (codes "AppName", codes "Lamp") ∷ [];
  bus_objects = objects;
}

descriptions_ok : All IsDescription descriptions
descriptions_ok = (
  record {
    path_line = record { some_text = ground arith; one_line = ground arith };
    path_start = unfold starts_path in refl;
    names_ok = (
      record {
        line = record { some_text = ground arith; one_line = ground arith };
        no_path = unfold starts_path in refl;
      },
      _,
    );
  },
  _,
)

announcement_ok : IsAnnouncement announcement
unfolding lookup
announcement_ok = record {
  version_fits = omega arith;
  port_fits = omega arith;
  name_ok = ground arith;
  descs_once = (refl, tt);
  descs_ok = descriptions_ok;
  about_ok = (
    record {
      field_line = record { some_text = ground arith; one_line = ground arith };
      lines = codes "Lamp" ∷ [];
      lines_ok = (record { some_text = ground arith; one_line = ground arith }, _);
      text = refl;
    },
    _,
  );
  objects_ok = objects_ok;
}

abbrev announcement_text : Bytes
announcement_text =
    code_of announce
    << joiner
    << decimal 0
    << decimal 900
    << joinee
    << ((object_path << codes "org.lamp.Light" << [])
        ++ ([] << (write_properties announcement.about_data ++ ([] << write_objects objects))))

parse-send_announce_example :
    parse_announce announcement_text ≡ some (received (unique_name well_known joinee) announcement)
unfolding unique_name lookup send_announce find write_names bytes_eq
parse-send_announce_example =
    parse-send_announce well_known announcement announcement_text announcement_ok (ground arith)
      refl

abbrev member : Bytes
member = codes "Dim"

abbrev args : Bytes
args = codes "<uint16>" ++ newline ∷ codes "9</uint16>"

parse-send_method_call_example :
    parse_method_call (send_method_call joiner joinee object_path lamp.name member 17 args)
    ≡ some (record {
      remote_name = joiner;
      dest_name = joinee;
      dest_path = object_path;
      iface_name = lamp.name;
      member_name = member;
      remote_session_id = 17;
      args = args ++ newline ∷ [];
    })
parse-send_method_call_example =
    parse-send_method_call joiner joinee object_path lamp.name member 17 args (ground arith)
      (ground arith) (ground arith) (ground arith) (ground arith) (omega arith)

parse-send_signal_example :
    parse_signal (send_signal well_known joinee joiner 17 object_path lamp.name member args)
    ≡ some (record {
      sender_name = unique_name well_known joinee;
      destination = joiner;
      remote_session_id = decimal 17;
      object_path = object_path;
      iface_name = lamp.name;
      iface_member = member;
      args = args ++ newline ∷ [];
    })
unfolding unique_name lookup
parse-send_signal_example =
    parse-send_signal well_known joinee joiner 17 object_path lamp.name member args (ground arith)
      (ground arith) (ground arith) (ground arith) (ground arith)

parse-send_property_requests_example :
    (parse_get_request (send_get_request lamp.name member joinee object_path)
      ≡ some (property_request joinee object_path lamp.name member []))
    × (parse_get_all_request (send_get_all_request lamp.name member joinee object_path)
        ≡ some (property_request joinee object_path lamp.name member []))
    × (parse_set_request (send_set_request lamp.name member args joinee object_path)
        ≡ some (property_request joinee object_path lamp.name member (args ++ newline ∷ [])))
parse-send_property_requests_example =
    parse-send_property_requests lamp.name member args joinee object_path (ground arith)
      (ground arith) (ground arith) (ground arith)

kind_of-StartsWith_example :
    (kind_of announcement_text ≡ some announce) ↔ StartsWith (code_of announce) announcement_text
kind_of-StartsWith_example = kind_of-StartsWith announce announcement_text
