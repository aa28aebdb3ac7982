-- ===== src/Connector/JoinRequest/Agreement.antt =====
-- The id that a join request is answered, and the one that the session tracker gives then.
use xmppconn.Base.{
  ℕ, true, false, not, ◌&&◌, Bytes, bytes_key, bytes_eq, bytes_eq_iff, nat_eq, nat_eq_iff, lookup,
  insert, get_or, lookup-insert, lookup-erase, if◌then◌else◌, ◌≡◌, ◌≢◌, ◌⊎◌, inl, inr, refl, sym,
  ◌∙◌, arith, Bool-cases, if_rule,
}
use xmppconn.SessionTracker.{
  SessionTracker, join_sent, join_confirmed, session_lost, get_session, is_session_pending,
  is_session_joined,
}
use xmppconn.RemoteBusAttachment.{RemoteBusAttachment, get_session_id_by_peer}
use xmppconn.Connector.JoinRequest.{
  Status, JoinReply, Joining, is_already_joined, recover, finish, join, er_ok, already_joined,
  rejected,
}

-- The tracker agrees with what is answered: the answer is 0, or the id that the tracker gives.
abbrev pub Agrees : Bytes → SessionTracker × ℕ → Type 0
Agrees joiner r = (r.1 ≡ 0) ⊎ (get_session r.0 joiner ≡ r.1)

-- The call of `JoinSession` failed, the id that it left is answered, and the tracker is as it was.
abbrev pub AnswersLeft : SessionTracker → JoinReply → SessionTracker × ℕ → Type 0
AnswersLeft t reply r = (reply.status ≢ er_ok) × (r.0 ≡ t) × (r.1 ≡ reply.id)

-- What comes of a join: the tracker agrees, or the id is one that a failed call left.
abbrev pub Joins : SessionTracker → Bytes → JoinReply → JoinReply → SessionTracker × ℕ → Type 0
Joins t joiner reply again r = Agrees joiner r ⊎ (AnswersLeft t reply r ⊎ AnswersLeft t again r)

get-join_sent :
    (t : SessionTracker) (name other : Bytes) (id : ℕ)
    → get_session (join_sent t name id) other
      ≡ (if bytes_eq name other then id else get_session t other)
unfolding get_session join_sent
get-join_sent t name other id = ground (arith, lookup-insert name other id t.pending)

get-join_sent_self :
    (t : SessionTracker) (name : Bytes) (id : ℕ) → get_session (join_sent t name id) name ≡ id
get-join_sent_self t name id = ground (arith, get-join_sent t name name id, bytes_eq_iff name name)

get-session_lost_pending :
    (t : SessionTracker) (name : Bytes)
    → is_session_pending t name ≡ true
    → get_session (session_lost t name) name ≡ get_session t name
unfolding get_session session_lost is_session_pending
get-session_lost_pending t name h = ground (arith, h)

get-session_lost_other :
    (t : SessionTracker) (name other : Bytes)
    → other ≢ name
    → get_session (session_lost t name) other ≡ get_session t other
unfolding get_session session_lost
get-session_lost_other t name other h =
    ground (arith, h, lookup-erase name other t.sessions, bytes_eq_iff name other)

get-join_confirmed_other :
    (t : SessionTracker) (name other : Bytes)
    → other ≢ name
    → get_session (join_confirmed t name) other ≡ get_session t other
unfolding get_session join_confirmed
get-join_confirmed_other t name other h = ground (
  arith,
  h,
  lookup-erase name other t.pending,
  lookup-insert name other (get_or (lookup name t.pending) 0) t.sessions,
  bytes_eq_iff name other,
)

get-forgotten :
    (t : SessionTracker) (name : Bytes)
    → get_session (session_lost (join_confirmed t name) name) name ≡ 0
unfolding get_session session_lost join_confirmed
get-forgotten t name = ground (
  arith,
  lookup-erase name name t.pending,
  lookup-erase name name t.sessions,
  lookup-erase name name (insert name (get_or (lookup name t.pending) 0) t.sessions),
  bytes_eq_iff name name,
)

joined_only :
    (t : SessionTracker) (name : Bytes)
    → is_session_joined t name ≡ false
    → get_session t name ≢ 0
    → is_session_pending t name ≡ true
unfolding get_session is_session_joined is_session_pending
joined_only t name h k = ground (arith, h, k)

-- What the branches owe, unless the join went through.
module _ (t : SessionTracker) (joiner : Bytes) (reply again : JoinReply) where
  Owes : Joining → Type 0
  Owes j = (j.status ≢ er_ok) → Joins t joiner reply again (j.tracker, j.id)

  finish-Joins :
      (u : SessionTracker) (status : Status) (id : ℕ)
      → Owes (record { tracker = u; status = status; id = id })
      → Joins t joiner reply again
          (finish joiner (record { tracker = u; status = status; id = id }))
  unfolding finish Owes
  finish-Joins u er_ok id h = inl (inr (get-join_sent_self u joiner id))
  finish-Joins u already_joined id h = h (λ e. ground (arith, e))
  finish-Joins u rejected id h = h (λ e. ground (arith, e))

  recover-Owes :
      (id : ℕ)
      → (is_session_joined t joiner ≡ false) ⊎ (is_session_pending t joiner ≡ true)
      → Owes (recover t joiner id (get_session t joiner) again)
  unfolding recover Owes
  recover-Owes id h = elim (Bool-cases (nat_eq (get_session t joiner) 0)) [
    | inl e ↦ rw e (
        if_rule Owes (not (nat_eq id 0)) _ _ (λ n. inr (inr (n, refl, refl))) (λ n. inl (inl refl)))
    | inr e ↦ rw e (elim (Bool-cases (nat_eq id 0)) [
      | inl z ↦
          let p : is_session_pending t joiner ≡ true = elim h [
            | inl j ↦ joined_only t joiner j (λ q. ground (arith, e, q))
            | inr j ↦ j
          ] in
          rw z (λ n. inl (inr (get-session_lost_pending t joiner p)))
      | inr z ↦ rw z (elim (Bool-cases (nat_eq id (get_session t joiner))) [
        | inl same ↦ rw same (λ n. inl (inr (sym ((nat_eq_iff id (get_session t joiner)).0 same))))
        | inr differ ↦
            rw differ (λ n. inl (inr (get-join_sent_self (session_lost t joiner) joiner id)))
      ])
    ])
  ]

  finish_whole : (j : Joining) → Owes j → Joins t joiner reply again (finish joiner j)
  finish_whole j = finish-Joins j.tracker j.status j.id

-- What the tracker gives for another name.
module _ (t : SessionTracker) (joiner other : Bytes) (differ : other ≢ joiner) where
  abbrev Same : SessionTracker → Type 0
  Same u = get_session u other ≡ get_session t other

  Same-join_sent : (u : SessionTracker) (id : ℕ) → Same u → Same (join_sent u joiner id)
  Same-join_sent u id h =
      ground (arith, h, get-join_sent u joiner other id, bytes_eq_iff joiner other, differ)

  recover-other :
      (id pending : ℕ) (again : JoinReply) → Same (recover t joiner id pending again).tracker
  unfolding recover
  recover-other id pending again =
      let P : Joining → Type 0 = λ j. Same j.tracker in
      let lost = get-session_lost_other t joiner other differ in
      if_rule P (not (nat_eq pending 0)) _ _
        (if_rule P (nat_eq id 0) _ _ lost (
          if_rule P (not (nat_eq id pending)) _ _ (Same-join_sent (session_lost t joiner) id lost)
            refl))
        (if_rule P (not (nat_eq id 0)) _ _ refl (
          get-session_lost_other (join_confirmed t joiner) joiner other differ
          ∙ get-join_confirmed_other t joiner other differ))

  finish-other :
      (u : SessionTracker) (status : Status) (id : ℕ)
      → Same u
      → Same (finish joiner (record { tracker = u; status = status; id = id })).0
  unfolding finish
  finish-other u er_ok id h = Same-join_sent u id h
  finish-other u already_joined id h = h
  finish-other u rejected id h = h

  finish-other_whole : (j : Joining) → Same j.tracker → Same (finish joiner j).0
  finish-other_whole j = finish-other j.tracker j.status j.id

  join-other :
      (bus : RemoteBusAttachment) (joinee : Bytes) (reply again : JoinReply)
      → Same (join t bus joinee joiner reply again).0
  unfolding join
  join-other bus joinee reply again = finish-other_whole _ (
      if_rule (λ (j : Joining). Same j.tracker)
        (is_already_joined reply.status && nat_eq reply.id 0) _ _
        (recover-other (get_session_id_by_peer bus joinee) (get_session t joiner) again) refl)

-- Whichever way the recovery goes, the id that a join answers is 0, or the one that the tracker then
-- gives for the joiner, or one that a failed call of `JoinSession` left, with the tracker as it was;
-- and for no other name the tracker gives another id than before. This is if the joiner has no joined
-- session or also a pending one.
pub join-Joins :
    (t : SessionTracker) (bus : RemoteBusAttachment) (joinee joiner : Bytes)
    (reply again : JoinReply) (other : Bytes)
    → (is_session_joined t joiner ≡ false) ⊎ (is_session_pending t joiner ≡ true)
    → other ≢ joiner
    → Joins t joiner reply again (join t bus joinee joiner reply again)
      × (get_session (join t bus joinee joiner reply again).0 other ≡ get_session t other)
unfolding join Owes
join-Joins t bus joinee joiner reply again other h differ = (
  finish_whole t joiner reply again _ (
      if_rule (Owes t joiner reply again) (is_already_joined reply.status && nat_eq reply.id 0) _ _
        (recover-Owes t joiner reply again (get_session_id_by_peer bus joinee) h)
        (λ n. inr (inl (n, refl, refl)))),
  join-other t joiner other differ bus joinee reply again,
)

get-session_lost_joined :
    (t : SessionTracker) (name : Bytes)
    → is_session_pending t name ≡ false
    → get_session (session_lost t name) name ≡ 0
unfolding get_session session_lost is_session_pending
get-session_lost_joined t name h =
    ground (arith, h, lookup-erase name name t.sessions, bytes_eq_iff name name)

-- Where the joiner has a joined session and none pending, AllJoyn says that it is already joined, and the
-- bus knows no session with the joinee, the handler takes the joined session for a pending one, answers
-- its id, and the tracker forgets it.
pub join_forgets :
    (t : SessionTracker) (bus : RemoteBusAttachment) (joinee joiner : Bytes) (again : JoinReply)
    → is_session_pending t joiner ≡ false
    → get_session t joiner ≢ 0
    → get_session_id_by_peer bus joinee ≡ 0
    → ((join t bus joinee joiner (record { status = already_joined; id = 0 }) again).1
        ≡ get_session t joiner)
      × (get_session
            (join t bus joinee joiner (record { status = already_joined; id = 0 }) again).0
            joiner
          ≡ 0)
unfolding join recover finish
join_forgets t bus joinee joiner again h k e =
    let some_session : nat_eq (get_session t joiner) 0 ≡ false = ground (arith, k) in
    rw (e, some_session) (refl, get-session_lost_joined t joiner h)
