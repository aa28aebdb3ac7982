-- ===== src/Tests/Connector.antt =====
-- A connector with two attachments of one source, and a session between two attachments.
use xmppconn.Base.{
  true, not, ◌&&◌, none, some, [], ◌∷◌, Bytes, ◌↔◌, codes, bytes_key, bytes_eq, nat_eq, nat_key,
  lookup, insert, if◌then◌else◌, ◌≡◌, ◌≢◌, ◌⊎◌, refl, arith,
}
use xmppconn.SessionTracker
use xmppconn.SessionTracker.{join_confirmed}
use xmppconn.RemoteBusAttachment
use xmppconn.RemoteBusAttachment.{
  RemoteBusAttachment, accept_start, accept_end, add_session, remove_session, get_local_session_id,
  session_joined, session_lost,
}
use xmppconn.RemoteBusAttachment.Handshake.{signalled, last_of, accept-signalled}
use xmppconn.RemoteBusAttachment.Sessions.{CanOpen, add_received, session_joined-mirrored}
use xmppconn.Connector.{
  Connector, get_remote_attachment, delete_remote_attachment, receive_session_joined,
}
use xmppconn.Connector.{get_session_port, owns_well_known_name}
use xmppconn.Connector.Names.{AnyOf, Gives, Owns, get_session_port-Gives, owns_well_known_name-Owns}
use xmppconn.Connector.{receive_session_lost}
use xmppconn.Connector.SessionLost.{left_session, session_lost-received}
use xmppconn.Connector.Sessions.{
  session_added, get-delete_remote_attachment, receive_session_joined-found,
}
use xmppconn.Wire.Receive.{SessionJoined, parse_session_joined}
use xmppconn.Wire.RoundTrip.{parse-send_session_joined}
use xmppconn.Wire.Send.{send_session_joined}

abbrev source : Bytes
source = codes "peer@host"

abbrev lamp : RemoteBusAttachment
lamp = RemoteBusAttachment.new (codes "org.lamp")

abbrev door : RemoteBusAttachment
door = RemoteBusAttachment.new (codes "org.door")

abbrev connector : Connector
connector = record {
  bus_interface_name = codes "org.alljoyn.XmppConnector";
  remote_attachments = (source, lamp ∷ door ∷ []) ∷ [];
  well_known_names = [];
  session_ports = [];
  session_tracker = SessionTracker.join_sent SessionTracker.new (codes "org.door") 17;
}

get-delete_remote_attachment_example :
    get_remote_attachment
      (delete_remote_attachment connector source (codes "org.lamp"))
      source
      (codes "org.door")
    ≡ (if bytes_eq source source && bytes_eq (codes "org.door") (codes "org.lamp")
        then none
        else get_remote_attachment connector source (codes "org.door"))
get-delete_remote_attachment_example =
    get-delete_remote_attachment connector source (codes "org.lamp") source (codes "org.door")

abbrev joined_message : Bytes
joined_message = send_session_joined (codes "org.door") (codes "org.bell") 27 17 4

abbrev joined : SessionJoined
joined = record {
  joiner = codes "org.door";
  joinee = codes "org.bell";
  port = 27;
  local_id = 17;
  remote_id = 4;
}

joined_message-joined : parse_session_joined joined_message ≡ some joined
joined_message-joined =
    parse-send_session_joined (codes "org.door") (codes "org.bell") 27 17 4 (ground arith)
      (ground arith) (omega arith) (omega arith) (omega arith)

receive_session_joined-found_example :
    (get_remote_attachment
        (receive_session_joined connector source joined_message)
        source
        (codes "org.door")
      ≡ (if bytes_eq source source && bytes_eq (codes "org.door") (codes "org.door")
          then some (session_added door joined)
          else get_remote_attachment connector source (codes "org.door")))
    × ((receive_session_joined connector source joined_message).session_tracker
        ≡ join_confirmed connector.session_tracker (codes "org.door"))
unfolding get_remote_attachment RemoteBusAttachment.new lookup bytes_eq
receive_session_joined-found_example =
    receive_session_joined-found connector source joined_message source (codes "org.door") joined
      door joined_message-joined refl

accept-signalled_example :
    ((accept_end
        (signalled (accept_start lamp 27 (codes "org.bell") []).0 (9 ∷ 12 ∷ []))
        (codes "org.bell")).1
      ≡ not (nat_eq (last_of 0 (9 ∷ 12 ∷ [])) 0))
    × (last_of 0 (9 ∷ 12 ∷ []) ≢ 0
        → lookup
            (codes "org.bell")
            (accept_end
              (signalled (accept_start lamp 27 (codes "org.bell") []).0 (9 ∷ 12 ∷ []))
              (codes "org.bell")).0.listener.pending_session_joiners
          ≡ some (last_of 0 (9 ∷ 12 ∷ [])))
accept-signalled_example = accept-signalled lamp 27 (codes "org.bell") [] (9 ∷ 12 ∷ [])

-- The lamp has let the bell in, whose session on the other side is 12.
abbrev accepting : RemoteBusAttachment
accepting = (accept_end (signalled lamp (12 ∷ [])) (codes "org.bell")).0

bell-CanOpen : CanOpen accepting door (codes "org.bell") 27 5 12
unfolding RemoteBusAttachment.new accept_end RemoteBusAttachment.signal_session_joined lookup insert
    bytes_eq
bell-CanOpen = record {
  name_ok = ground arith;
  joiner_ok = ground arith;
  joiner_some = ground arith;
  port_fits = omega arith;
  id_fits = omega arith;
  remote_fits = omega arith;
  accepted = refl;
  fresh_here = _;
  fresh_there = _;
}

abbrev bell : RemoteBusAttachment
bell = RemoteBusAttachment.new (codes "org.bell")

bell-CanOpen_there : CanOpen accepting bell (codes "org.bell") 27 5 12
bell-CanOpen_there = record {
  name_ok = bell-CanOpen.name_ok;
  joiner_ok = bell-CanOpen.joiner_ok;
  joiner_some = bell-CanOpen.joiner_some;
  port_fits = bell-CanOpen.port_fits;
  id_fits = bell-CanOpen.id_fits;
  remote_fits = bell-CanOpen.remote_fits;
  accepted = bell-CanOpen.accepted;
  fresh_here = bell-CanOpen.fresh_here;
  fresh_there = unfold RemoteBusAttachment.new in _;
}

session_joined-mirrored_example :
    (get_local_session_id (session_joined accepting 27 5 (codes "org.bell")).0 12 ≡ 5)
    × ((j : SessionJoined) × (parse_session_joined
            (session_joined accepting 27 5 (codes "org.bell")).1
          ≡ some j)
        × (get_local_session_id (add_received door j) 5 ≡ 12))
session_joined-mirrored_example =
    session_joined-mirrored accepting door (codes "org.bell") 27 5 12 bell-CanOpen

-- The connector of the peer, whose bell holds the session 12, which can be left.
abbrev belled : RemoteBusAttachment
belled = add_session bell 12 accepting.remote_name 27 5

abbrev peer : Connector
peer = record connector { remote_attachments = (source, door ∷ belled ∷ []) ∷ [] }

bell-found : get_remote_attachment peer source (codes "org.bell") ≡ some belled
unfolding get_remote_attachment RemoteBusAttachment.new lookup bytes_eq add_session
bell-found = refl

session_lost-received_example :
    (m : Bytes) × ((session_lost (session_joined accepting 27 5 (codes "org.bell")).0 5).1 ≡ some m)
    × (lookup 5
          (session_lost (session_joined accepting 27 5 (codes "org.bell")).0 5).0.active_sessions
        ≡ none)
    × (get_remote_attachment
          (receive_session_lost (λ id. true) peer source m)
          source
          (codes "org.bell")
        ≡ (if bytes_eq source source && bytes_eq (codes "org.bell") (codes "org.bell")
            then some (left_session (λ id. true) belled 12)
            else get_remote_attachment peer source (codes "org.bell")))
    × (lookup 12 (remove_session belled 12).active_sessions ≡ none)
session_lost-received_example =
    session_lost-received (λ id. true) peer source source (codes "org.bell") accepting bell
      (codes "org.bell") 27 5 12 bell-CanOpen_there bell-found

abbrev named : Connector
named = record connector {
  remote_attachments =
      (source, record lamp { well_known_name = codes "org.lamp" } ∷ door ∷ []) ∷ [];
  session_ports = (codes "org.lamp", 27 ∷ 28 ∷ []) ∷ (codes "org.door", 30 ∷ []) ∷ [];
}

get_session_port-Gives_example :
    (get_session_port named (codes "org.lamp.Light") ≡ 0)
    ⊎ AnyOf
        (Gives (codes "org.lamp.Light") (get_session_port named (codes "org.lamp.Light")))
        named.session_ports
get_session_port-Gives_example = get_session_port-Gives named (codes "org.lamp.Light")

abbrev named_connector : Connector
named_connector = record connector {
  remote_attachments =
      (source, lamp ∷ record door { well_known_name = codes "org.house.Door" } ∷ []) ∷ [];
}

owns_well_known_name-Owns_example :
    (owns_well_known_name named_connector (codes "org.house.Door") ≡ true) ↔ (
      (named_connector.bus_interface_name ≡ codes "org.house.Door")
      ⊎ AnyOf (λ e. AnyOf (Owns (codes "org.house.Door")) e.1) named_connector.remote_attachments)
owns_well_known_name-Owns_example =
    owns_well_known_name-Owns named_connector (codes "org.house.Door")
