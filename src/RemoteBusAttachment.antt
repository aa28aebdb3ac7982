-- ===== src/RemoteBusAttachment.antt =====
-- app/RemoteBusAttachment.cpp and app/RemoteBusListener.cpp: the sessions of the bus attachment that
-- stands for a remote one, and the handshake by which it lets a local joiner in. Each function holds
-- the mutex of what it touches for the time that it does, so it is one step.
pub mod Sessions
pub mod Handshake
pub mod Objects
use xmppconn.Base.{
  ℕ, Bool, true, false, not, Option, none, some, List, [], ◌∷◌, Bytes, bytes_eq, bytes_key, nat_eq,
  nat_key, is_empty, Map, lookup, insert, erase, get_or, if◌then◌else◌,
}
use xmppconn.Wire.Send.{send_session_joined, send_session_lost, send_join_request}
use xmppconn.Wire.Objects.{BusObjectInfo}

pub record SessionInfo : Type 0 where
  pub peer : Bytes
  pub port : ℕ
  pub remote_id : ℕ

pub record RemoteBusListener : Type 0 where
  pub session_joined_signal_received : Bool
  pub remote_session_id : ℕ
  pub pending_session_joiners : Map Bytes ℕ

pub record RemoteBusAttachment : Type 0 where
  pub remote_name : Bytes
  pub well_known_name : Bytes
  pub active_sessions : Map ℕ SessionInfo
  pub listener : RemoteBusListener

unfoldable pub new : Bytes → RemoteBusAttachment
new remote_name = record {
  remote_name = remote_name;
  well_known_name = [];
  active_sessions = [];
  listener = record {
    session_joined_signal_received = false;
    remote_session_id = 0;
    pending_session_joiners = [];
  };
}

unfoldable pub add_session : RemoteBusAttachment → ℕ → Bytes → ℕ → ℕ → RemoteBusAttachment
add_session a local_id peer port remote_id = record a {
  active_sessions =
      insert local_id (record { peer = peer; port = port; remote_id = remote_id })
        a.active_sessions;
}

unfoldable pub remove_session : RemoteBusAttachment → ℕ → RemoteBusAttachment
remove_session a local_id = record a { active_sessions = erase local_id a.active_sessions }

-- The searches meet the sessions in the order of their local ids; 0 if none is found.
unfoldable pub local_id_in : ℕ → Map ℕ SessionInfo → ℕ
local_id_in remote_id [] = 0
local_id_in remote_id ((id, info) ∷ m) =
    let rest = local_id_in remote_id m in if nat_eq info.remote_id remote_id then id else rest

unfoldable pub get_local_session_id : RemoteBusAttachment → ℕ → ℕ
unfolding local_id_in
get_local_session_id a remote_id = local_id_in remote_id a.active_sessions

unfoldable pub id_of_peer_in : Bytes → Map ℕ SessionInfo → ℕ
id_of_peer_in peer [] = 0
id_of_peer_in peer ((id, info) ∷ m) =
    let rest = id_of_peer_in peer m in if bytes_eq info.peer peer then id else rest

unfoldable pub get_session_id_by_peer : RemoteBusAttachment → Bytes → ℕ
unfolding id_of_peer_in
get_session_id_by_peer a peer = id_of_peer_in peer a.active_sessions

peer_of : Option SessionInfo → Bytes
peer_of none = []
peer_of (some info) = info.peer

unfoldable pub get_peer_by_session_id : RemoteBusAttachment → ℕ → Bytes
unfolding peer_of
get_peer_by_session_id a id = peer_of (lookup id a.active_sessions)

-- `AcceptSessionJoiner` up to its wait: the listener is reset, and the message goes out.
unfoldable pub accept_start :
    RemoteBusAttachment → ℕ → Bytes → List BusObjectInfo → RemoteBusAttachment × Bytes
accept_start a port joiner objects = (
  record a {
    listener = record a.listener { session_joined_signal_received = false; remote_session_id = 0 };
  },
  send_join_request a.remote_name port joiner objects,
)

-- The other thread, while the first waits.
unfoldable pub signal_session_joined : RemoteBusAttachment → ℕ → RemoteBusAttachment
signal_session_joined a result = record a {
  listener = record a.listener {
    session_joined_signal_received = true;
    remote_session_id = result;
  };
}

-- `AcceptSessionJoiner` behind its wait, whether it was signalled or timed out: whether the joiner
-- is let in.
unfoldable pub accept_end : RemoteBusAttachment → Bytes → RemoteBusAttachment × Bool
accept_end a joiner =
    let l = a.listener in
    let accepted = record a {
      listener = record l {
        pending_session_joiners = insert joiner l.remote_session_id l.pending_session_joiners;
      };
    } in
    if not (nat_eq l.remote_session_id 0) then (accepted, true) else (a, false)

-- `SessionJoined`, and the message that it sends.
unfoldable pub session_joined : RemoteBusAttachment → ℕ → ℕ → Bytes → RemoteBusAttachment × Bytes
unfolding add_session
session_joined a port id joiner =
    let l = a.listener in
    let remote_session_id = get_or (lookup joiner l.pending_session_joiners) 0 in
    let taken = record a {
      listener = record l { pending_session_joiners = erase joiner l.pending_session_joiners };
    } in
    (
      add_session taken id joiner port remote_session_id,
      send_session_joined joiner a.remote_name port remote_session_id id,
    )

-- `SessionLost`: a session that is not known is not reported.
unfoldable pub session_lost : RemoteBusAttachment → ℕ → RemoteBusAttachment × Option Bytes
unfolding get_peer_by_session_id remove_session
session_lost a id =
    let peer = get_peer_by_session_id a id in
    if not (is_empty peer)
    then (remove_session a id, some (send_session_lost peer id))
    else (a, none)
