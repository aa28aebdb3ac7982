-- ===== src/XmppTransport/Loop/LoginInvariant.antt =====
-- What each callback keeps about a login that has not come through.
use xmppconn.Base.{
  true, false, Option, none, some, List, [], ◌∷◌, ◌++◌, Bytes, is_empty, ◌≡◌, ◌≢◌, refl, arith, ◌∙◌,
  Bool-cases, inl, inr, All, All-append, if_rule, sym,
}
use xmppconn.Text.Compression.{Library}
use xmppconn.Transport.{
  Transport, ListenerCall, message, global_state, presence, ConnectionState, uninitialized,
  connected, disconnected, error, ConnectionError, no_error, auth_failure, unknown_error,
  is_uninitialized, remote_source_presence_state_changed, global_connection_state_changed,
}
use xmppconn.XmppTransport.{XmppTransport, new, ask}
use xmppconn.XmppTransport.Handlers.{
  Incoming, xmpp_stanza_handler, xmpp_presence_handler, xmpp_roster_handler, add_to_roster,
  ConnectionEvent, connect, disconnect, fail, xmpp_connection_handler, roster_sender,
  handle_presence,
}
use xmppconn.XmppTransport.Handlers.Roster.{stanza_handler_roster}

-- The call does not report the connection as up.
abbrev pub NotUp : ListenerCall → Type 0
NotUp c = (e : ConnectionError) → c ≢ global_state connected e

-- While the connection is in its first state, or has failed to log in, nobody was told it is up.
abbrev pub Inv : Transport → Type 0
Inv b =
    (b.connection_state ≡ uninitialized → All NotUp b.told)
    × (b.connection_error ≡ auth_failure → All NotUp b.told)

-- The same state and error, and no call that reports the connection as up.
pub record Keeps (b b' : Transport) : Type 0 where
  pub same_state : b'.connection_state ≡ b.connection_state
  pub same_error : b'.connection_error ≡ b.connection_error
  pub same_told : All NotUp b.told → All NotUp b'.told

Keeps-refl : (b : Transport) → Keeps b b
Keeps-refl b = record { same_state = refl; same_error = refl; same_told = λ h. h }

pub Keeps-Inv : (b b' : Transport) → Keeps b b' → Inv b → Inv b'
Keeps-Inv b b' k (i, j) =
    (λ h. k.same_told (i (sym k.same_state ∙ h)), λ h. k.same_told (j (sym k.same_error ∙ h)))

told_NotUp :
    (told : List ListenerCall) (c : ListenerCall)
    → NotUp c
    → All NotUp told
    → All NotUp (told ++ c ∷ [])
told_NotUp told c n h = All-append NotUp told (c ∷ []) h (n, _)

pub stanza-Inv :
    (lib : Library) (t t' : XmppTransport) (s : Incoming)
    → xmpp_stanza_handler lib t s ≡ some t'
    → Inv t.base
    → Inv t'.base
stanza-Inv lib t t' s e =
    let (t1, e1, (same, same'), told) = stanza_handler_roster lib t s in
    let x : t1 ≡ t' = cc in
    let quiet : All NotUp t.base.told → All NotUp t1.base.told = elim told [
      | inl n ↦ λ h. rw n h
      | inr (source, m, _, n) ↦
          λ h. rw n (told_NotUp t.base.told (message source m) (λ c. ground arith) h)
    ] in
    rw (sym x) (
      Keeps-Inv t.base t1.base
        (record { same_state = same; same_error = same'; same_told = quiet }))

presence_changed-Keeps :
    (b : Transport) (source : Bytes) (state : ConnectionState)
    → Keeps b (remote_source_presence_state_changed b source state no_error)
unfolding remote_source_presence_state_changed
presence_changed-Keeps b source state =
    if_rule (Keeps b) b.has_listener
      (record b { told = b.told ++ presence source state no_error ∷ [] }) b
      (record {
        same_state = refl;
        same_error = refl;
        same_told = told_NotUp b.told _ (λ e. ground arith);
      })
      (Keeps-refl b)

handle_presence-Keeps :
    (t : XmppTransport) (s : Incoming) (o : Option Bytes)
    → Keeps t.base (handle_presence t s o).base
unfolding handle_presence
handle_presence-Keeps t s none = Keeps-refl t.base
handle_presence-Keeps t s (some source) = presence_changed-Keeps t.base source _

pub presence-Keeps :
    (t : XmppTransport) (s : Incoming) → Keeps t.base (xmpp_presence_handler t s).base
unfolding xmpp_presence_handler
presence-Keeps t s = elim (Bool-cases s.renders) [
  | inl e ↦ rw e (handle_presence-Keeps t s (roster_sender t s.from))
  | inr e ↦ rw e (Keeps-refl t.base)
]

pub roster-base : (t : XmppTransport) (s : Incoming) → (xmpp_roster_handler t s).base ≡ t.base
unfolding xmpp_roster_handler ask
roster-base t s = ground arith

-- The connection's own changes.
changed-Inv :
    (b : Transport) (state : ConnectionState) (err : ConnectionError)
    → Inv b
    → state ≢ uninitialized
    → (err ≡ auth_failure → (state ≢ connected) × (b.connection_state ≡ uninitialized))
    → Inv (global_connection_state_changed b state err)
unfolding global_connection_state_changed
changed-Inv b state err h new login = elim (Bool-cases b.has_listener) [
  | inl e ↦ rw e (
    λ u. elim (new u) [ ],
    λ a. told_NotUp b.told _ (λ c. ground (arith, (login a).0)) (h.0 (login a).1),
  )
  | inr e ↦ rw e h
]

disconnect_login :
    (t : XmppTransport)
    → is_uninitialized t.base.connection_state ≡ true
    → (xmpp_connection_handler t disconnect).base
      ≡ global_connection_state_changed t.base disconnected auth_failure
unfolding xmpp_connection_handler
disconnect_login t e = ground arith

disconnect_lost :
    (t : XmppTransport)
    → is_uninitialized t.base.connection_state ≡ false
    → (xmpp_connection_handler t disconnect).base
      ≡ global_connection_state_changed t.base disconnected no_error
unfolding xmpp_connection_handler
disconnect_lost t e = ground arith

pub connection-Inv :
    (t : XmppTransport) (e : ConnectionEvent) → Inv t.base → Inv (xmpp_connection_handler t e).base
unfolding xmpp_connection_handler add_to_roster ask
connection-Inv t connect h = elim (Bool-cases (is_empty t.roster)) [
  | inl e ↦ rw e (changed-Inv t.base connected no_error h (ground arith) (λ a. ground arith))
  | inr e ↦ rw e (changed-Inv t.base connected no_error h (ground arith) (λ a. ground arith))
]
connection-Inv t disconnect h = elim (Bool-cases (is_uninitialized t.base.connection_state)) [
  | inl e ↦ rw (disconnect_login t e) (
      changed-Inv t.base disconnected auth_failure h (ground arith)
        (λ a. (ground arith, ground arith)))
  | inr e ↦
      rw (disconnect_lost t e)
        (changed-Inv t.base disconnected no_error h (ground arith) (λ a. ground arith))
]
connection-Inv t fail h =
    changed-Inv t.base error unknown_error h (ground arith) (λ a. ground arith)
