-- ===== src/Tests/Joins.antt =====
-- Joins of a session by the connector, and a source that comes and goes.
use xmppconn.Base.{
  HasKeysOnce, is_some, none, true, false, [], ◌∷◌, Bytes, codes, ◌≡◌, ◌≢◌, ◌⊎◌, ◌++◌, inr, refl,
  arith, bytes_key, bytes_eq, lookup, insert, erase,
}
use xmppconn.SessionTracker
use xmppconn.SessionTracker.{
  SessionTracker, get_session, join_sent, join_confirmed, is_session_joined, is_session_pending,
}
use xmppconn.RemoteBusAttachment
use xmppconn.RemoteBusAttachment.{RemoteBusAttachment, get_session_id_by_peer, add_session}
use xmppconn.Transport.{connected, disconnected}
use xmppconn.Connector.{get_remote_attachment}
use xmppconn.Connector.JoinRequest.{JoinReply, already_joined, rejected, join}
use xmppconn.Connector.JoinRequest.Agreement.{Joins, join-Joins, join_forgets}
use xmppconn.Connector.Presence.{Presence, NewBus, remote_source_presence_state_changed}
use xmppconn.Connector.Presence.Pairs.{
  attachments_at, Follows, presence_changed-Follows, presence_changed-cleared,
}

abbrev lamp : Bytes
lamp = codes "org.lamp"

abbrev door : Bytes
door = codes "org.door"

abbrev lamp_bus : RemoteBusAttachment
lamp_bus = RemoteBusAttachment.new door

-- A bus that has the session 9 with the door, and a tracker for which that of the lamp is pending.
abbrev joined_bus : RemoteBusAttachment
joined_bus = add_session lamp_bus 9 door 27 5

abbrev pending : SessionTracker
pending = join_sent SessionTracker.new lamp 4

-- A join that fails and leaves an id.
abbrev refused : JoinReply
refused = record { status = rejected; id = 9 }

abbrev already : JoinReply
already = record { status = already_joined; id = 0 }

pending-not_joined :
    (is_session_joined pending lamp ≡ false) ⊎ (is_session_pending pending lamp ≡ true)
unfolding is_session_joined is_session_pending join_sent SessionTracker.new lookup insert bytes_eq
pending-not_joined = inr refl

join-Joins_example :
    Joins pending lamp already refused (join pending joined_bus door lamp already refused)
    × (get_session (join pending joined_bus door lamp already refused).0 door
        ≡ get_session pending door)
join-Joins_example =
    join-Joins pending joined_bus door lamp already refused door pending-not_joined
      (λ e. ground (arith, e))

abbrev confirmed : SessionTracker
confirmed = join_confirmed pending lamp

confirmed-pending : is_session_pending confirmed lamp ≡ false
unfolding is_session_pending join_confirmed join_sent SessionTracker.new lookup insert bytes_eq
    erase
confirmed-pending = refl

confirmed-session : get_session confirmed lamp ≢ 0
unfolding get_session join_confirmed join_sent SessionTracker.new lookup insert bytes_eq erase
confirmed-session e = ground (arith, e)

no_session : get_session_id_by_peer lamp_bus door ≡ 0
unfolding get_session_id_by_peer RemoteBusAttachment.new
no_session = refl

join_forgets_example :
    ((join confirmed lamp_bus door lamp already already).1 ≡ get_session confirmed lamp)
    × (get_session (join confirmed lamp_bus door lamp already already).0 lamp ≡ 0)
join_forgets_example =
    join_forgets confirmed lamp_bus door lamp already confirmed-pending confirmed-session no_session

abbrev source : Bytes
source = codes "peer@host"

abbrev presence : Presence
presence = record {
  connector = record {
    bus_interface_name = codes "org.alljoyn.XmppConnector";
    remote_attachments = (source, lamp_bus ∷ []) ∷ (codes "other@host", joined_bus ∷ []) ∷ [];
    well_known_names = [];
    session_ports = [];
    session_tracker = SessionTracker.new;
  };
  buses = (source, 1) ∷ [];
  listeners = (source, 2) ∷ [];
  deleted = [];
}

abbrev new_bus : NewBus
new_bus = record { started = true; connects = true; attachment = 7; listener = 8 }

presence-Paired :
    (name : Bytes) → is_some (lookup name presence.buses) ≡ is_some (lookup name presence.listeners)
unfolding lookup
presence-Paired name = ground arith

presence_changed-Follows_example :
    Follows presence
      (codes "other@host")
      source
      connected
      new_bus
      (remote_source_presence_state_changed presence (codes "other@host") connected new_bus)
presence_changed-Follows_example =
    presence_changed-Follows presence (codes "other@host") source connected new_bus presence-Paired
      (λ e. ground (arith, e))

presence-HasKeysOnce : HasKeysOnce presence.connector.remote_attachments
unfolding lookup bytes_eq
presence-HasKeysOnce = (refl, (refl, tt))

presence_changed-cleared_example :
    ((from name : Bytes)
      → get_remote_attachment
          (remote_source_presence_state_changed presence source disconnected new_bus).0.connector
          from
          name
        ≡ none)
    × ((remote_source_presence_state_changed presence source disconnected new_bus).0.deleted
        ≡ presence.deleted ++ attachments_at source presence.connector.remote_attachments)
presence_changed-cleared_example =
    presence_changed-cleared presence source disconnected new_bus (λ e. ground (arith, e))
      presence-HasKeysOnce
