-- ===== src/RemoteBusAttachment/Sessions.antt =====
-- How the ids of a session are translated on its two sides.
use xmppconn.Base.{
  ℕ, ◌<◌, ◌^◌, none, some, [], ◌∷◌, Bytes, newline, bytes_key, nat_eq_iff, nat_key, Map, lookup,
  insert, lookup-insert, lookup-erase, ◌≡◌, ◌≢◌, ap, ◌∙◌, arith, All, Lacks,
}
use xmppconn.RemoteBusAttachment.{
  SessionInfo, RemoteBusAttachment, add_session, remove_session, local_id_in, get_local_session_id,
  get_peer_by_session_id, session_joined, session_lost,
}
use xmppconn.Wire.Receive.{SessionJoined, parse_session_joined, parse_session_lost}
use xmppconn.Wire.Send.{send_session_lost}
use xmppconn.Wire.RoundTrip.{parse-send_session_joined, parse-send_session_ids}

-- No session with this remote id.
abbrev pub IsFresh : ℕ → Map ℕ SessionInfo → Type 0
IsFresh remote_id = All (λ e. e.1.remote_id ≢ remote_id)

local_id_in-insert :
    (id : ℕ) (info : SessionInfo) (m : Map ℕ SessionInfo)
    → IsFresh info.remote_id m
    → local_id_in info.remote_id (insert id info m) ≡ id
unfolding local_id_in insert
local_id_in-insert id info [] _ = ground arith
local_id_in-insert id info ((j, other) ∷ m) (h, hs) = ground (
  arith,
  local_id_in-insert id info m,
  hs,
  nat_eq_iff other.remote_id info.remote_id,
  nat_eq_iff info.remote_id info.remote_id,
)

get_local_session_id-add_session :
    (a : RemoteBusAttachment) (local_id : ℕ) (peer : Bytes) (port remote_id : ℕ)
    → IsFresh remote_id a.active_sessions
    → get_local_session_id (add_session a local_id peer port remote_id) remote_id ≡ local_id
unfolding get_local_session_id add_session
get_local_session_id-add_session a local_id peer port remote_id h =
    local_id_in-insert local_id (record { peer = peer; port = port; remote_id = remote_id })
      a.active_sessions h

get_peer-add_session :
    (a : RemoteBusAttachment) (local_id : ℕ) (peer : Bytes) (port remote_id : ℕ)
    → get_peer_by_session_id (add_session a local_id peer port remote_id) local_id ≡ peer
unfolding get_peer_by_session_id add_session
get_peer-add_session a local_id peer port remote_id = ground (
  arith,
  lookup-insert local_id local_id (record { peer = peer; port = port; remote_id = remote_id })
      a.active_sessions,
  nat_eq_iff local_id local_id,
)

-- What a session needs to be opened between the attachments `a` and `b`: names of one line, numbers
-- that fit, and ids that are new.
pub record CanOpen (a b : RemoteBusAttachment) (joiner : Bytes) (port id remote : ℕ) : Type 0 where
  pub name_ok : Lacks newline a.remote_name
  pub joiner_ok : Lacks newline joiner
  pub joiner_some : joiner ≢ []
  pub port_fits : port < 2 ^ 16
  pub id_fits : id < 2 ^ 32
  pub remote_fits : remote < 2 ^ 32
  pub accepted : lookup joiner a.listener.pending_session_joiners ≡ some remote
  pub fresh_here : IsFresh remote a.active_sessions
  pub fresh_there : IsFresh id b.active_sessions

-- What the peer does with the message.
abbrev pub add_received : RemoteBusAttachment → SessionJoined → RemoteBusAttachment
add_received b j = add_session b j.local_id j.joinee j.port j.remote_id

-- Where the names hold no newline, the numbers fit their types, and the ids are new to the two sides:
-- once an accepted joiner has joined, and the peer has read the message about it, the two sides
-- translate their ids of the session into each other's: what is local here is remote there.
pub session_joined-mirrored :
    (a b : RemoteBusAttachment) (joiner : Bytes) (port id remote : ℕ)
    → CanOpen a b joiner port id remote
    → (get_local_session_id (session_joined a port id joiner).0 remote ≡ id)
      × ((j : SessionJoined) × (parse_session_joined (session_joined a port id joiner).1 ≡ some j)
          × (get_local_session_id (add_received b j) id ≡ remote))
unfolding session_joined
session_joined-mirrored a b joiner port id remote h = (
  rw h.accepted (get_local_session_id-add_session _ id joiner port remote h.fresh_here),
  (
    record {
      joiner = joiner;
      joinee = a.remote_name;
      port = port;
      local_id = remote;
      remote_id = id;
    },
    rw h.accepted (
        parse-send_session_joined joiner a.remote_name port remote id h.joiner_ok h.name_ok
          h.port_fits h.remote_fits h.id_fits),
    get_local_session_id-add_session b remote a.remote_name port id h.fresh_there,
  ),
)

removed :
    (a : RemoteBusAttachment) (id : ℕ) → lookup id (remove_session a id).active_sessions ≡ none
unfolding remove_session
removed a id = ground (arith, lookup-erase id id a.active_sessions, nat_eq_iff id id)

session_lost-known :
    (a : RemoteBusAttachment) (id : ℕ) (peer : Bytes)
    → get_peer_by_session_id a id ≡ peer
    → peer ≢ []
    → session_lost a id ≡ (remove_session a id, some (send_session_lost peer id))
unfolding session_lost
session_lost-known a id peer e h = rw e (ground (arith, h))

-- For a session opened under the same conditions (names of one line, numbers that fit, new ids, an
-- accepted joiner): when AllJoyn reports that it is lost, the attachment forgets it and sends its loss, and
-- the id that the peer reads is translated to the peer's own id of it; once the peer has removed that
-- one, it is gone.
pub session_lost-mirrored :
    (a b : RemoteBusAttachment) (joiner : Bytes) (port id remote : ℕ)
    → CanOpen a b joiner port id remote
    → (m : Bytes) × ((session_lost (session_joined a port id joiner).0 id).1 ≡ some m)
      × (lookup id (session_lost (session_joined a port id joiner).0 id).0.active_sessions ≡ none)
      × (parse_session_lost m ≡ some (joiner, id))
      × (get_local_session_id (add_session b remote a.remote_name port id) id ≡ remote)
      × (lookup remote
            (remove_session (add_session b remote a.remote_name port id) remote).active_sessions
          ≡ none)
unfolding session_joined
session_lost-mirrored a b joiner port id remote h =
    let gone =
      session_lost-known (session_joined a port id joiner).0 id joiner
        (get_peer-add_session _ id joiner port _) h.joiner_some in
    (
      send_session_lost joiner id,
      ap (λ x. x.1) gone,
      ap (λ x. lookup id x.0.active_sessions) gone ∙ removed (session_joined a port id joiner).0 id,
      (parse-send_session_ids joiner id h.joiner_ok h.id_fits).1,
      get_local_session_id-add_session b remote a.remote_name port id h.fresh_there,
      removed (add_session b remote a.remote_name port id) remote,
    )
