-- ===== src/Wire/Objects.antt =====
-- The bus objects in a message (app/XMPPConnector.cpp): how the senders write them, and
-- `ParseBusObjectInfo`. An interface description is what AllJoyn answers about it: its name and its
-- introspection text.
pub mod RoundTrip
pub mod Joiner
use xmppconn.Base.{
  Bool, true, false, not, ◌&&◌, ◌||◌, Option, none, some, List, [], ◌∷◌, ◌++◌, Bytes, codes,
  newline, bytes_eq, bytes_key, is_empty, Map, lookup, if◌then◌else◌,
}
use xmppconn.Wire.{Stream, ◌<<◌}

pub record InterfaceDescription : Type 0 where
  pub name : Bytes
  pub introspect : Bytes

pub record BusObjectInfo : Type 0 where
  pub path : Bytes
  pub interfaces : List InterfaceDescription

pub record InterfaceData : Type 0 where
  pub name : Bytes
  pub data_text : Bytes
  pub announced : Bool

pub record RemoteObjectDescription : Type 0 where
  pub path : Bytes
  pub interfaces : List InterfaceData

unfoldable pub write_interfaces : List InterfaceDescription → Bytes
write_interfaces [] = []
write_interfaces (i ∷ is) = i.name << i.introspect << write_interfaces is

-- In an advertisement and an announcement.
unfoldable pub write_objects : List BusObjectInfo → Bytes
write_objects [] = []
write_objects (o ∷ os) = o.path << (write_interfaces o.interfaces ++ ([] << write_objects os))

unfoldable pub is_standard : Bytes → Bool
is_standard name =
    bytes_eq name (codes "org.freedesktop.DBus.Peer")
    || bytes_eq name (codes "org.freedesktop.DBus.Introspectable")
    || bytes_eq name (codes "org.freedesktop.DBus.Properties")
    || bytes_eq name (codes "org.allseen.Introspectable")

unfoldable pub without_standard : List InterfaceDescription → List InterfaceDescription
unfolding is_standard
without_standard [] = []
without_standard (i ∷ is) =
    let rest = without_standard is in if not (is_standard i.name) then i ∷ rest else rest

-- In a join request, which leaves out the interfaces that every bus object has.
unfoldable pub write_joiner_objects : List BusObjectInfo → Bytes
write_joiner_objects [] = []
write_joiner_objects (o ∷ os) =
    o.path << (write_interfaces (without_standard o.interfaces) ++ ([] << write_joiner_objects os))

unfoldable pub mem : Bytes → List Bytes → Bool
mem name [] = false
mem name (n ∷ ns) = let rest = mem name ns in if bytes_eq n name then true else rest

unfoldable pub announced_in : Option (List Bytes) → Bytes → Bool
unfolding mem
announced_in none name = false
announced_in (some names) name = mem name names

unfoldable pub is_announced : Map Bytes (List Bytes) → Bytes → Bytes → Bool
unfolding announced_in
is_announced m path name = announced_in (lookup path m) name

-- The variables of the loop.
pub record ParseState : Type 0 where
  pub results : List RemoteObjectDescription
  pub path : Bytes
  pub interfaces : List InterfaceData
  pub interface_name : Bytes
  pub description : Bytes

unfoldable pub parse_start : ParseState
parse_start = record {
  results = [];
  path = [];
  interfaces = [];
  interface_name = [];
  description = [];
}

empty_line : Map Bytes (List Bytes) → ParseState → ParseState
empty_line m p =
    if not (is_empty p.description)
    then record p {
      interfaces =
          p.interfaces
          ++ record {
            name = p.interface_name;
            data_text = p.description;
            announced = is_announced m p.path p.interface_name;
          }
            ∷ [];
      interface_name = [];
      description = [];
    }
    else record p {
      results = p.results ++ record { path = p.path; interfaces = p.interfaces } ∷ [];
      path = [];
      interfaces = [];
    }

full_line : Bytes → ParseState → ParseState
full_line line p =
    if is_empty p.path
    then record p { path = line }
    else if is_empty p.interface_name
    then record p { interface_name = line }
    else record p { description = p.description ++ (line << []) }

unfoldable pub parse_line : Map Bytes (List Bytes) → ParseState → Bytes → ParseState
unfolding empty_line full_line
parse_line m p line = if is_empty line then empty_line m p else full_line line p

unfoldable pub parse_lines : Map Bytes (List Bytes) → ParseState → Stream → ParseState
unfolding parse_line
parse_lines m p [] = p
parse_lines m p (line ∷ lines) = parse_lines m (parse_line m p line) lines

unfoldable pub parse_bus_object_info :
    Stream → Map Bytes (List Bytes) → List RemoteObjectDescription
unfolding parse_lines parse_start
parse_bus_object_info stream m = (parse_lines m parse_start stream).results
