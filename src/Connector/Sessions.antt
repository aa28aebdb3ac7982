-- ===== src/Connector/Sessions.antt =====
-- Which attachment a message acts on.
use xmppconn.Base.{
  ◌&&◌, none, some, List, [], ◌∷◌, Bytes, bytes_key, bytes_eq, bytes_eq_iff, lookup, get_or,
  is_some, lookup-insert, if◌then◌else◌, ◌≡◌, refl, ap, ◌∙◌, arith, Option-cases, inl, inr,
}
use xmppconn.SessionTracker.{join_confirmed}
use xmppconn.RemoteBusAttachment.{RemoteBusAttachment, add_session}
use xmppconn.Wire.Receive.{SessionJoined, parse_session_joined}
use xmppconn.Connector.{
  Connector, find_name, set_name, without_name, get_remote_attachment, set_remote_attachment,
  delete_remote_attachment, receive_session_joined, joined, add_joined,
}

find_name-without_name :
    (n name : Bytes) (bs : List RemoteBusAttachment)
    → find_name n (without_name name bs) ≡ (if bytes_eq n name then none else find_name n bs)
unfolding find_name without_name
find_name-without_name n name [] = ground arith
find_name-without_name n name (b ∷ bs) = ground (
  arith,
  find_name-without_name n name bs,
  bytes_eq_iff n name,
  bytes_eq_iff n b.remote_name,
  bytes_eq_iff name b.remote_name,
)

-- Deleting an attachment deletes that one and no other: for its source and name there is none any
-- more, and any other source or name finds what it found before.
pub get-delete_remote_attachment :
    (c : Connector) (from name source n : Bytes)
    → get_remote_attachment (delete_remote_attachment c from name) source n
      ≡ (if bytes_eq from source && bytes_eq n name then none else get_remote_attachment c source n)
unfolding get_remote_attachment delete_remote_attachment
get-delete_remote_attachment c from name source n =
    elim (Option-cases (lookup from c.remote_attachments)) [
      | inl e ↦ rw e (unfold find_name in ground (arith, e, bytes_eq_iff from source))
      | inr (bs, e) ↦ rw e (
          ground (
            arith,
            e,
            lookup-insert from source (without_name name bs) c.remote_attachments,
            bytes_eq_iff from source,
            find_name-without_name n name bs,
          ))
    ]

find_name-set_name :
    (n : Bytes) (b : RemoteBusAttachment) (bs : List RemoteBusAttachment)
    → find_name n (set_name b.remote_name b bs)
      ≡ (if bytes_eq n b.remote_name && is_some (find_name n bs) then some b else find_name n bs)
unfolding find_name set_name
find_name-set_name n b [] = ground arith
find_name-set_name n b (a ∷ bs) = ground (
  arith,
  find_name-set_name n b bs,
  bytes_eq_iff n b.remote_name,
  bytes_eq_iff n a.remote_name,
  bytes_eq_iff b.remote_name a.remote_name,
)

-- Putting back a changed attachment: it is found under its own source and name, if there was one.
pub get-set_remote_attachment :
    (c : Connector) (from source n : Bytes) (b : RemoteBusAttachment)
    → get_remote_attachment (set_remote_attachment c from b) source n ≡ (
        if bytes_eq from source
          && (bytes_eq n b.remote_name && is_some (get_remote_attachment c source n))
        then some b
        else get_remote_attachment c source n)
unfolding get_remote_attachment set_remote_attachment
get-set_remote_attachment c from source n b = ground (
  arith,
  lookup-insert from source
      (set_name b.remote_name b (get_or (lookup from c.remote_attachments) []))
      c.remote_attachments,
  bytes_eq_iff from source,
  find_name-set_name n b (get_or (lookup from c.remote_attachments) []),
)

find_name-named :
    (n : Bytes) (a : RemoteBusAttachment) (bs : List RemoteBusAttachment)
    → find_name n bs ≡ some a
    → a.remote_name ≡ n
unfolding find_name
find_name-named n a [] h = ground arith
find_name-named n a (b ∷ bs) h =
    ground (arith, find_name-named n a bs, bytes_eq_iff n b.remote_name, h)

-- The state after the message, up to the attachment that is put back.
abbrev pub confirmed : Connector → SessionJoined → Connector
confirmed c j = record c { session_tracker = join_confirmed c.session_tracker j.joiner }

abbrev pub session_added : RemoteBusAttachment → SessionJoined → RemoteBusAttachment
session_added a j = add_session a j.local_id j.joinee j.port j.remote_id

receive_session_joined-set :
    (c : Connector) (from message : Bytes) (j : SessionJoined) (a : RemoteBusAttachment)
    → parse_session_joined message ≡ some j
    → get_remote_attachment c from j.joiner ≡ some a
    → receive_session_joined c from message
      ≡ set_remote_attachment (confirmed c j) from (session_added a j)
unfolding receive_session_joined
receive_session_joined-set c from message j a parsed found =
    ap (joined c from) parsed ∙ ap (add_joined (confirmed c j) from j) found

get_remote_attachment-confirmed :
    (c : Connector) (j : SessionJoined) (source n : Bytes)
    → get_remote_attachment (confirmed c j) source n ≡ get_remote_attachment c source n
unfolding get_remote_attachment
get_remote_attachment-confirmed c j source n = refl

session_added-name :
    (a : RemoteBusAttachment) (j : SessionJoined) → (session_added a j).remote_name ≡ a.remote_name
unfolding add_session
session_added-name a j = refl

set-tracker :
    (c : Connector) (from : Bytes) (b : RemoteBusAttachment)
    → (set_remote_attachment c from b).session_tracker ≡ c.session_tracker
unfolding set_remote_attachment
set-tracker c from b = refl

pub get-named :
    (c : Connector) (from name : Bytes) (a : RemoteBusAttachment)
    → get_remote_attachment c from name ≡ some a
    → a.remote_name ≡ name
unfolding get_remote_attachment
get-named c from name a h = find_name-named name a _ h

-- A message that a session was joined confirms the join with the tracker, and adds the session to
-- the attachment of its joiner, where the source has one; every other attachment stays as it was.
pub receive_session_joined-found :
    (c : Connector) (from message source n : Bytes) (j : SessionJoined) (a : RemoteBusAttachment)
    → parse_session_joined message ≡ some j
    → get_remote_attachment c from j.joiner ≡ some a
    → (get_remote_attachment (receive_session_joined c from message) source n ≡ (
        if bytes_eq from source && bytes_eq n j.joiner
        then some (session_added a j)
        else get_remote_attachment c source n))
      × ((receive_session_joined c from message).session_tracker
          ≡ join_confirmed c.session_tracker j.joiner)
receive_session_joined-found c from message source n j a parsed found =
    let eq = receive_session_joined-set c from message j a parsed found in
    let b = session_added a j in
    (
      ap (λ x. get_remote_attachment x source n) eq
          ∙ get-set_remote_attachment (confirmed c j) from source n b
          ∙ ground (
            arith,
            get_remote_attachment-confirmed c j source n,
            session_added-name a j,
            get-named c from j.joiner a found,
            found,
            bytes_eq_iff from source,
            bytes_eq_iff n j.joiner,
            bytes_eq_iff n b.remote_name,
          ),
      ap (λ x. x.session_tracker) eq ∙ set-tracker (confirmed c j) from b,
    )
