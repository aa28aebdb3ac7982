-- ===== src/Connector/SessionLost.antt =====
-- The loss of a session, from the attachment that it is reported to, to the peer's.
use xmppconn.Base.{
  ℕ, Bool, ◌&&◌, none, some, Bytes, bytes_key, nat_key, bytes_eq, bytes_eq_iff, lookup,
  if◌then◌else◌, ◌≡◌, refl, ap, ◌∙◌, arith, Bool-cases, inl, inr,
}
use xmppconn.RemoteBusAttachment.{
  RemoteBusAttachment, add_session, remove_session, get_local_session_id, session_joined,
  session_lost,
}
use xmppconn.RemoteBusAttachment.Sessions.{CanOpen, session_lost-mirrored}
use xmppconn.Connector.{Connector, get_remote_attachment, receive_session_lost, lost, leave}
use xmppconn.Connector.Sessions.{get-set_remote_attachment, get-named}

-- The peer's attachment behind the message, which forgets the session if it could be left.
abbrev pub left_session : (left : ℕ → Bool) → RemoteBusAttachment → ℕ → RemoteBusAttachment
left_session left a id = if left id then remove_session a id else a

remove_session-name :
    (a : RemoteBusAttachment) (id : ℕ) → (remove_session a id).remote_name ≡ a.remote_name
unfolding remove_session
remove_session-name a id = refl

leave-found :
    (left : ℕ → Bool) (c : Connector) (from name source n : Bytes) (id remote : ℕ)
    (a : RemoteBusAttachment)
    → get_remote_attachment c from name ≡ some a
    → get_local_session_id a id ≡ remote
    → get_remote_attachment (leave left c from id (some a)) source n ≡ (
        if bytes_eq from source && bytes_eq n name
        then some (left_session left a remote)
        else get_remote_attachment c source n)
unfolding leave
leave-found left c from name source n id remote a found here = elim (Bool-cases (left remote)) [
  | inl e ↦ rw here (
      rw e (
        get-set_remote_attachment c from source n (remove_session a remote)
        ∙ ground (
          arith,
          remove_session-name a remote,
          get-named c from name a found,
          found,
          bytes_eq_iff from source,
          bytes_eq_iff n name,
          bytes_eq_iff n (remove_session a remote).remote_name,
        )))
  | inr e ↦ rw here (rw e (ground (arith, found, bytes_eq_iff from source, bytes_eq_iff n name)))
]

-- For a session opened under the same conditions (names of one line, numbers that fit, new ids, an
-- accepted joiner) that the peer's attachment of the joiner holds: when AllJoyn reports that it is
-- lost, the attachment forgets it and sends a message, and the peer that receives the message leaves
-- its own session. If that succeeds, by the answer for that id, the peer's attachment forgets the
-- session, and otherwise it stays as it was; so does every other attachment of the peer.
pub session_lost-received :
    (left : ℕ → Bool) (c : Connector) (from source n : Bytes) (a b : RemoteBusAttachment)
    (joiner : Bytes) (port id remote : ℕ)
    → CanOpen a b joiner port id remote
    → get_remote_attachment c from joiner ≡ some (add_session b remote a.remote_name port id)
    → (m : Bytes) × ((session_lost (session_joined a port id joiner).0 id).1 ≡ some m)
      × (lookup id (session_lost (session_joined a port id joiner).0 id).0.active_sessions ≡ none)
      × (get_remote_attachment (receive_session_lost left c from m) source n ≡ (
          if bytes_eq from source && bytes_eq n joiner
          then some (left_session left (add_session b remote a.remote_name port id) remote)
          else get_remote_attachment c source n))
      × (lookup remote
            (remove_session (add_session b remote a.remote_name port id) remote).active_sessions
          ≡ none)
unfolding receive_session_lost
session_lost-received left c from source n a b joiner port id remote h found =
    let (m, sent, gone, parsed, here, forgotten) =
      session_lost-mirrored a b joiner port id remote h in
    (
      m,
      sent,
      gone,
      ap (λ o. get_remote_attachment (lost left c from o) source n) parsed
          ∙ ap (λ o. get_remote_attachment (leave left c from id o) source n) found
          ∙ leave-found left c from joiner source n id remote _ found here,
      forgotten,
    )
