-- ===== src/Connector.antt =====
-- The state of app/XMPPConnector.cpp that its messages act on: the attachments that stand for the
-- peer's, by source, and the session tracker. What AllJoyn answers is an argument. A source never has
-- two attachments of one name, so an attachment of a source is known by its name.
pub mod Sessions
pub mod Names
pub mod JoinRequest
pub mod SessionLost
pub mod Presence
pub mod NewAttachment
use xmppconn.Base.{
  ℕ, Bool, true, false, not, ◌&&◌, ◌||◌, Option, none, some, List, [], ◌∷◌, ◌++◌, Bytes, codes,
  bytes_eq, bytes_key, nat_eq, is_empty, Map, lookup, insert, erase, get_or, if◌then◌else◌, take,
  length, is_some,
}
use xmppconn.Text.{find}
use xmppconn.SessionTracker.{SessionTracker, join_confirmed}
use xmppconn.RemoteBusAttachment
use xmppconn.RemoteBusAttachment.{
  RemoteBusAttachment, add_session, remove_session, get_local_session_id, signal_session_joined,
}
use xmppconn.Wire.Receive.{
  SessionJoined, parse_session_joined, parse_session_lost, parse_join_response,
}

pub record Connector : Type 0 where
  pub bus_interface_name : Bytes
  pub remote_attachments : Map Bytes (List RemoteBusAttachment)
  pub well_known_names : Map Bytes Bytes
  pub session_ports : Map Bytes (List ℕ)
  pub session_tracker : SessionTracker

unfoldable pub add_session_port_match : Connector → Bytes → ℕ → Connector
add_session_port_match c interface_name port = record c {
  session_ports =
      insert interface_name (get_or (lookup interface_name c.session_ports) [] ++ port ∷ [])
        c.session_ports;
}

unfoldable pub first_port : List ℕ → ℕ
first_port [] = 0
first_port (p ∷ ps) = p

-- The loop over all entries: the last one whose name occurs in the interface name is taken.
unfoldable pub match_port : Bytes → ℕ → Map Bytes (List ℕ) → ℕ
unfolding first_port
match_port interface_name port [] = port
match_port interface_name port ((name, ports) ∷ m) =
    let taken = match_port interface_name (first_port ports) m in
    let kept = match_port interface_name port m in
    if is_some (find interface_name name 0) && not (is_empty ports) then taken else kept

unfoldable pub get_session_port : Connector → Bytes → ℕ
unfolding match_port
get_session_port c interface_name =
    let port = first_port (get_or (lookup interface_name c.session_ports) []) in
    if nat_eq port 0 then match_port interface_name port c.session_ports else port

unfoldable pub any_owns : Bytes → List RemoteBusAttachment → Bool
any_owns name [] = false
any_owns name (a ∷ others) =
    let rest = any_owns name others in if bytes_eq name a.well_known_name then true else rest

unfoldable pub any_source_owns : Bytes → Map Bytes (List RemoteBusAttachment) → Bool
any_source_owns name [] = false
any_source_owns name ((source, others) ∷ m) = any_owns name others || any_source_owns name m

unfoldable pub owns_well_known_name : Connector → Bytes → Bool
unfolding any_source_owns any_owns
owns_well_known_name c name =
    if not (bytes_eq c.bus_interface_name name)
    then any_source_owns name c.remote_attachments
    else true

-- `ifaceName.compare(0, prefix.length(), prefix) == 0`
has_prefix : Bytes → Bytes → Bool
has_prefix name prefix = bytes_eq (take (length prefix) name) prefix

unfoldable pub is_interface_known_to_already_exist : Bytes → Bool
unfolding has_prefix
is_interface_known_to_already_exist name =
    bytes_eq name (codes "org.freedesktop.DBus.Peer")
    || bytes_eq name (codes "org.freedesktop.DBus.Introspectable")
    || bytes_eq name (codes "org.freedesktop.DBus.Properties")
    || bytes_eq name (codes "org.allseen.Introspectable")
    || bytes_eq name (codes "org.alljoyn.About")
    || bytes_eq name (codes "org.alljoyn.Bus.Application")
    || has_prefix name (codes "org.alljoyn.Bus.Peer")
    || has_prefix name (codes "org.alljoyn.Bus.Security")

-- `NameOwnerChanged`; `none` is a null pointer.
unfoldable pub name_owner_changed : Connector → Option Bytes → Option Bytes → Connector
name_owner_changed c none unique = c
name_owner_changed c (some name) none = record c {
  well_known_names = erase name c.well_known_names;
}
name_owner_changed c (some name) (some unique) = record c {
  well_known_names = insert name unique c.well_known_names;
}

unfoldable pub find_name : Bytes → List RemoteBusAttachment → Option RemoteBusAttachment
find_name name [] = none
find_name name (a ∷ others) =
    let rest = find_name name others in if bytes_eq name a.remote_name then some a else rest

-- `GetRemoteAttachment` without objects.
unfoldable pub get_remote_attachment : Connector → Bytes → Bytes → Option RemoteBusAttachment
unfolding find_name
get_remote_attachment c from remote_name =
    find_name remote_name (get_or (lookup from c.remote_attachments) [])

-- The attachment that was found, with a change.
unfoldable pub set_name :
    Bytes → RemoteBusAttachment → List RemoteBusAttachment → List RemoteBusAttachment
set_name name b [] = []
set_name name b (a ∷ others) =
    let rest = set_name name b others in
    if bytes_eq name a.remote_name then b ∷ others else a ∷ rest

unfoldable pub set_remote_attachment : Connector → Bytes → RemoteBusAttachment → Connector
unfolding set_name
set_remote_attachment c from b = record c {
  remote_attachments =
      insert from (set_name b.remote_name b (get_or (lookup from c.remote_attachments) []))
        c.remote_attachments;
}

without_name : Bytes → List RemoteBusAttachment → List RemoteBusAttachment
without_name name [] = []
without_name name (a ∷ others) =
    let rest = without_name name others in if bytes_eq name a.remote_name then rest else a ∷ rest

delete_from : Connector → Bytes → Bytes → Option (List RemoteBusAttachment) → Connector
unfolding without_name
delete_from c from name none = c
delete_from c from name (some others) = record c {
  remote_attachments = insert from (without_name name others) c.remote_attachments;
}

unfoldable pub delete_remote_attachment : Connector → Bytes → Bytes → Connector
unfolding delete_from
delete_remote_attachment c from name = delete_from c from name (lookup from c.remote_attachments)

add_joined : Connector → Bytes → SessionJoined → Option RemoteBusAttachment → Connector
unfolding set_remote_attachment
add_joined c from j none = c
add_joined c from j (some a) =
    set_remote_attachment c from (add_session a j.local_id j.joinee j.port j.remote_id)

joined : Connector → Bytes → Option SessionJoined → Connector
unfolding add_joined get_remote_attachment
joined c from none = c
joined c from (some j) =
    let c' = record c { session_tracker = join_confirmed c.session_tracker j.joiner } in
    add_joined c' from j (get_remote_attachment c' from j.joiner)

unfoldable pub receive_session_joined : Connector → Bytes → Bytes → Connector
unfolding joined
receive_session_joined c from message = joined c from (parse_session_joined message)

-- `left` says for a local id whether `LeaveSession` returns `ER_OK` or that there is no such session.
leave : (left : ℕ → Bool) → Connector → Bytes → ℕ → Option RemoteBusAttachment → Connector
unfolding set_remote_attachment
leave left c from remote_id none = c
leave left c from remote_id (some a) =
    let local_id = get_local_session_id a remote_id in
    if left local_id then set_remote_attachment c from (remove_session a local_id) else c

lost : (left : ℕ → Bool) → Connector → Bytes → Option (Bytes × ℕ) → Connector
unfolding leave get_remote_attachment
lost left c from none = c
lost left c from (some (app_name, id)) =
    leave left c from id (get_remote_attachment c from app_name)

unfoldable pub receive_session_lost : (left : ℕ → Bool) → Connector → Bytes → Bytes → Connector
unfolding lost
receive_session_lost left c from message = lost left c from (parse_session_lost message)

signal : Connector → Bytes → ℕ → Option RemoteBusAttachment → Connector
unfolding set_remote_attachment
signal c from id none = c
signal c from id (some a) = set_remote_attachment c from (signal_session_joined a id)

responded : Connector → Bytes → Option (Bytes × ℕ) → Connector
unfolding signal get_remote_attachment
responded c from none = c
responded c from (some (app_name, id)) = signal c from id (get_remote_attachment c from app_name)

unfoldable pub receive_join_response : Connector → Bytes → Bytes → Connector
unfolding responded
receive_join_response c from message = responded c from (parse_join_response message)
