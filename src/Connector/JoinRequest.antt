-- ===== src/Connector/JoinRequest.antt =====
-- `ReceiveJoinRequest` of app/XMPPConnector.cpp: which session id is answered, and what the session
-- tracker holds then. What AllJoyn answers is an argument: the reply to each join, and whether there
-- is an attachment to join from. The signal handlers that are registered after a join are not
-- modelled.
pub mod Agreement
use xmppconn.Base.{
  ℕ, Bool, true, false, not, ◌&&◌, Option, none, some, Bytes, bytes_key, bytes_eq, bytes_eq_iff,
  nat_eq, nat_eq_iff, lookup, insert, get_or, lookup-insert, lookup-erase, if◌then◌else◌, ◌≡◌, ◌≢◌,
  ◌⊎◌, inl, inr, refl, sym, ◌∙◌, arith, Bool-cases, if_rule,
}
use xmppconn.SessionTracker.{
  SessionTracker, join_sent, join_confirmed, session_lost, get_session, is_session_pending,
  is_session_joined,
}
use xmppconn.RemoteBusAttachment.{RemoteBusAttachment, get_session_id_by_peer}
use xmppconn.Wire.Receive.{JoinRequest, parse_join_request}
use xmppconn.Wire.Send.{send_join_response}

pub data Status : Type 0 where
  er_ok already_joined rejected : Status

-- What `JoinSession` returns, with the id that it leaves in its argument.
pub record JoinReply : Type 0 where
  pub status : Status
  pub id : ℕ

-- The variables of the handler: the tracker, `err` and `id`.
pub record Joining : Type 0 where
  pub tracker : SessionTracker
  pub status : Status
  pub id : ℕ

abbrev pub is_already_joined : Status → Bool
is_already_joined already_joined = true
is_already_joined _ = false

-- The recovery, for the id that the bus knows of the peer and the one that the tracker gives; `again`
-- is the reply to the second join, after the session was left.
unfoldable pub recover : SessionTracker → Bytes → ℕ → ℕ → JoinReply → Joining
recover t joiner id pending again =
    if not (nat_eq pending 0)
    then (if nat_eq id 0
        then record { tracker = session_lost t joiner; status = already_joined; id = pending }
        else if not (nat_eq id pending)
        then record {
          tracker = join_sent (session_lost t joiner) joiner id;
          status = already_joined;
          id = id;
        }
        else record { tracker = t; status = already_joined; id = id })
    else (if not (nat_eq id 0)
        then record { tracker = t; status = again.status; id = again.id }
        else record {
          tracker = session_lost (join_confirmed t joiner) joiner;
          status = already_joined;
          id = 0;
        })

unfoldable pub finish : Bytes → Joining → SessionTracker × ℕ
finish joiner j = elim j.status [
  | er_ok ↦ (join_sent j.tracker joiner j.id, j.id)
  | _ ↦ (j.tracker, j.id)
]

-- The body of the handler, with an attachment to join from.
unfoldable pub join :
    SessionTracker
    → RemoteBusAttachment
    → Bytes
    → Bytes
    → JoinReply
    → JoinReply
    → SessionTracker × ℕ
unfolding recover finish
join t bus joinee joiner reply again = finish joiner (
    if is_already_joined reply.status && nat_eq reply.id 0
    then recover t joiner (get_session_id_by_peer bus joinee) (get_session t joiner) again
    else record { tracker = t; status = reply.status; id = reply.id })

join_or_refuse :
    SessionTracker
    → Option RemoteBusAttachment
    → Bytes
    → Bytes
    → JoinReply
    → JoinReply
    → SessionTracker × ℕ
unfolding join
join_or_refuse t none joinee joiner reply again = (t, 0)
join_or_refuse t (some bus) joinee joiner reply again = join t bus joinee joiner reply again

-- The handler: the tracker behind it, and the message that it sends, unless the request is none.
unfoldable pub receive_join_request :
    SessionTracker
    → (JoinRequest → Option RemoteBusAttachment)
    → JoinReply
    → JoinReply
    → Bytes
    → SessionTracker × Option Bytes
unfolding join_or_refuse
receive_join_request t attachment reply again message = elim (parse_join_request message) [
  | none ↦ (t, none)
  | some r ↦
      let (t', id) = join_or_refuse t (attachment r) r.joinee r.joiner reply again in
      (t', some (send_join_response r.joinee id))
]
