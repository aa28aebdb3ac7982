-- ===== src/Wire/Receive.antt =====
-- The parsing half of the `Receive` functions of app/XMPPConnector.cpp: what each reads of a message
-- before it acts; `none` where it returns at once. The numbers are those that its later calls of
-- `strtoul` give.
pub mod Calls
use xmppconn.Base.{
  ℕ, Bool, true, false, not, ◌&&◌, ◌||◌, Option, none, some, List, [], ◌∷◌, ◌++◌, Bytes, codes,
  bytes_key, bytes_eq, is_empty, Map, lookup, insert, get_or, is_some, nat_eq, if◌then◌else◌, ◌>>=◌,
}
use xmppconn.Wire.{Stream, istringstream, next_line, rest_of}
use xmppconn.Wire.Codes.{
  Kind, code_of, advertisement, advert_lost, announce, method_call, method_reply, signal,
  join_request, join_response, session_joined, session_lost, get_property, get_prop_reply,
  set_property, set_prop_reply, get_all, get_all_reply, name_owner_changed,
}
use xmppconn.Wire.Decimal.{session_id, session_port}
use xmppconn.Wire.Objects.{RemoteObjectDescription, parse_bus_object_info}

-- The first line must be the code.
unfoldable pub after_code : Kind → Bytes → Option Stream
after_code kind message = do
  (line, stream) ← next_line (istringstream message)
  if not (bytes_eq line (code_of kind)) then none else some stream

pub record Advertisement : Type 0 where
  pub remote_name : Bytes
  pub advertised_name : Bytes
  pub objects : List RemoteObjectDescription

unfoldable pub parse_advertisement : Bytes → Option Advertisement
unfolding after_code
parse_advertisement message = do
  s ← after_code advertisement message
  (remote_name, s) ← next_line s
  (advertised_name, s) ← next_line s
  some (record {
    remote_name = remote_name;
    advertised_name = advertised_name;
    objects = parse_bus_object_info s [];
  })

unfoldable pub parse_advertisement_lost : Bytes → Option Bytes
unfolding after_code
parse_advertisement_lost message = do
  s ← after_code advert_lost message
  (name, s) ← next_line s
  some name

-- `line[0] == '/'`
unfoldable pub starts_path : Bytes → Bool
starts_path [] = false
starts_path (c ∷ s) = nat_eq c b'/'

-- The object descriptions of an announcement, up to an empty line: the interfaces that each object
-- announces, and the rest of the stream.
unfoldable pub parse_descriptions :
    Bytes → List Bytes → Map Bytes (List Bytes) → Stream → Map Bytes (List Bytes) × Stream
unfolding starts_path
parse_descriptions path names m [] = (m, [])
parse_descriptions path names m (line ∷ s) =
    let first = parse_descriptions line names m s in
    let next = parse_descriptions line [] (insert path names m) s in
    let more = parse_descriptions path (names ++ line ∷ []) m s in
    if is_empty line
    then (insert path names m, s)
    else if is_empty path
    then first
    else if starts_path line
    then next
    else more

-- The fields of the `AboutData` in the order of the `SetField` calls, up to an empty line that ends
-- no property.
unfoldable pub parse_properties :
    Bytes → Bytes → List (Bytes × Bytes) → Stream → List (Bytes × Bytes) × Stream
parse_properties name desc fields [] = (fields, [])
parse_properties name desc fields (line ∷ s) =
    let ended = parse_properties [] [] (fields ++ (name, desc) ∷ []) s in
    let named = parse_properties line desc fields s in
    let more = parse_properties name (desc ++ line) fields s in
    if is_empty line
    then (if is_empty name then (fields, s) else ended)
    else if is_empty name
    then named
    else more

pub record Announcement : Type 0 where
  pub remote_name : Bytes
  pub version : ℕ
  pub port : ℕ
  pub bus_name : Bytes
  pub about_data : List (Bytes × Bytes)
  pub objects : List RemoteObjectDescription

unfoldable pub parse_announce : Bytes → Option Announcement
unfolding after_code
parse_announce message = do
  s ← after_code announce message
  (remote_name, s) ← next_line s
  (version_str, s) ← next_line s
  (port_str, s) ← next_line s
  (bus_name, s) ← next_line s
  let (announced, s) = parse_descriptions [] [] [] s
  let (about_data, s) = parse_properties [] [] [] s
  some (record {
    remote_name = remote_name;
    version = session_port version_str;
    port = session_port port_str;
    bus_name = bus_name;
    about_data = about_data;
    objects = parse_bus_object_info s announced;
  })

pub record JoinRequest : Type 0 where
  pub joinee : Bytes
  pub port : ℕ
  pub joiner : Bytes
  pub objects : List RemoteObjectDescription

unfoldable pub parse_join_request : Bytes → Option JoinRequest
unfolding after_code
parse_join_request message = do
  s ← after_code join_request message
  (joinee, s) ← next_line s
  (port_str, s) ← next_line s
  (joiner, s) ← next_line s
  some (record {
    joinee = joinee;
    port = session_port port_str;
    joiner = joiner;
    objects = parse_bus_object_info s [];
  })

unfoldable pub parse_join_response : Bytes → Option (Bytes × ℕ)
unfolding after_code
parse_join_response message = do
  s ← after_code join_response message
  (app_name, s) ← next_line s
  (remote_session_id, s) ← next_line s
  some (app_name, session_id remote_session_id)

pub record SessionJoined : Type 0 where
  pub joiner : Bytes
  pub joinee : Bytes
  pub port : ℕ
  pub local_id : ℕ
  pub remote_id : ℕ

unfoldable pub parse_session_joined : Bytes → Option SessionJoined
unfolding after_code
parse_session_joined message = do
  s ← after_code session_joined message
  (joiner, s) ← next_line s
  (joinee, s) ← next_line s
  (port_str, s) ← next_line s
  (local_id_str, s) ← next_line s
  (remote_id_str, s) ← next_line s
  if is_empty local_id_str || is_empty remote_id_str
      then none
      else some (record {
        joiner = joiner;
        joinee = joinee;
        port = session_port port_str;
        local_id = session_id local_id_str;
        remote_id = session_id remote_id_str;
      })

unfoldable pub parse_session_lost : Bytes → Option (Bytes × ℕ)
unfolding after_code
parse_session_lost message = do
  s ← after_code session_lost message
  (app_name, s) ← next_line s
  (id_str, s) ← next_line s
  some (app_name, session_id id_str)
