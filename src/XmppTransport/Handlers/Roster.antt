-- ===== src/XmppTransport/Handlers/Roster.antt =====
-- What gets through the roster check of the stanza and presence handlers.
use xmppconn.Base.{
  Option, none, some, [], ◌∷◌, ◌++◌, Bytes, codes, bytes_eq, bytes_eq_iff, get_or, if◌then◌else◌,
  ◌≡◌, ◌≢◌, refl, arith, ◌⊎◌, inl, inr, Total, bind-Total, if-Total, Bool-cases, Option-cases,
}
use xmppconn.Text.Compression.{Library}
use xmppconn.Transport.{
  message, presence, connected, disconnected, no_error, message_received,
  remote_source_presence_state_changed,
}
use xmppconn.XmppTransport.{XmppTransport, front}
use xmppconn.XmppTransport.Body.{Content, ignored, body, receive_body}
use xmppconn.XmppTransport.Body.Laws.{receive_body-Total}
use xmppconn.XmppTransport.Handlers.{
  Incoming, lower, roster_sender, deliver, handle_body, handle_message, xmpp_stanza_handler,
  handle_presence, xmpp_presence_handler,
}

handle_body-Total :
    (lib : Library) (t : XmppTransport) (source : Bytes) (o : Option Bytes)
    → Total (handle_body lib t source o)
unfolding handle_body
handle_body-Total lib t source none = (t, refl)
handle_body-Total lib t source (some s) =
    bind-Total (receive_body lib s) _ (receive_body-Total lib s) (λ c. (deliver t source c, refl))

handle_message-Total :
    (lib : Library) (t : XmppTransport) (s : Incoming) (o : Option Bytes)
    → Total (handle_message lib t s o)
unfolding handle_message
handle_message-Total lib t s none = (t, refl)
handle_message-Total lib t s (some source) =
    if-Total _ _ _ (handle_body-Total lib t source s.body_text) (t, refl)

pub stanza_handler-Total :
    (lib : Library) (t : XmppTransport) (s : Incoming) → Total (xmpp_stanza_handler lib t s)
unfolding xmpp_stanza_handler
stanza_handler-Total lib t s =
    if-Total _ _ _ (t, refl) (handle_message-Total lib t s (roster_sender t s.from))

-- The sender is the first entry of the roster, but for the case of letters.
abbrev pub IsPeer : XmppTransport → Incoming → Bytes → Type 0
IsPeer t s source =
    (t.roster ≢ [])
    × (source ≡ lower (get_or s.from []))
    × (lower (front t.roster) ≡ lower (get_or s.from []))

roster_sender-IsPeer :
    (t : XmppTransport) (s : Incoming) (source : Bytes)
    → roster_sender t s.from ≡ some source
    → IsPeer t s source
unfolding roster_sender
roster_sender-IsPeer t s source h =
    ground (arith, bytes_eq_iff (lower (front t.roster)) (lower (get_or s.from [])))

abbrev pub SameConnection : XmppTransport → XmppTransport → Type 0
SameConnection t t' =
    (t'.base.connection_state ≡ t.base.connection_state)
    × (t'.base.connection_error ≡ t.base.connection_error)

-- What the handler tells the listener: nothing, or one message.
abbrev Tells : XmppTransport → Bytes → XmppTransport → Type 0
Tells t source t' =
    SameConnection t t'
    × ((t'.base.told ≡ t.base.told)
        ⊎ ((m : Bytes) × (t'.base.told ≡ t.base.told ++ message source m ∷ [])))

deliver-Tells :
    (t : XmppTransport) (source : Bytes) (c : Content) → Tells t source (deliver t source c)
unfolding deliver message_received
deliver-Tells t source ignored = ((refl, refl), inl refl)
deliver-Tells t source (body m) = elim (Bool-cases t.base.has_listener) [
  | inl h ↦ ((rw h, rw h), inr (m, rw h))
  | inr h ↦ ((rw h, rw h), inl (rw h))
]

handle_body-Tells :
    (lib : Library) (t t' : XmppTransport) (source : Bytes) (o : Option Bytes)
    → handle_body lib t source o ≡ some t'
    → Tells t source t'
unfolding handle_body
handle_body-Tells lib t t' source none h = ((cc, cc), inl (cc))
handle_body-Tells lib t t' source (some s) h =
    let (c, e) = receive_body-Total lib s in ground (arith, deliver-Tells t source c, e)

-- One handler's message, with its sender.
abbrev TellsOfPeer : XmppTransport → Incoming → XmppTransport → Type 0
TellsOfPeer t s t' =
    SameConnection t t'
    × ((t'.base.told ≡ t.base.told)
        ⊎ ((source : Bytes) × (m : Bytes) × IsPeer t s source
            × (t'.base.told ≡ t.base.told ++ message source m ∷ [])))

of_peer :
    (t t' : XmppTransport) (s : Incoming) (source : Bytes)
    → IsPeer t s source
    → Tells t source t'
    → TellsOfPeer t s t'
of_peer t t' s source p (same, inl e) = (same, inl e)
of_peer t t' s source p (same, inr (m, e)) = (same, inr (source, m, p, e))

handle_message_tells :
    (lib : Library) (t t' : XmppTransport) (s : Incoming) (o : Option Bytes)
    → roster_sender t s.from ≡ o
    → handle_message lib t s o ≡ some t'
    → TellsOfPeer t s t'
unfolding handle_message
handle_message_tells lib t t' s none r h = ((cc, cc), inl (cc))
handle_message_tells lib t t' s (some source) r h =
    of_peer t t' s source (roster_sender-IsPeer t s source r)
      (ground (arith, handle_body-Tells lib t t' source s.body_text))

stanza_handler_tells :
    (lib : Library) (t t' : XmppTransport) (s : Incoming)
    → xmpp_stanza_handler lib t s ≡ some t'
    → TellsOfPeer t s t'
unfolding xmpp_stanza_handler
stanza_handler_tells lib t t' s h = elim (Bool-cases s.renders) [
  | inl e ↦ handle_message_tells lib t t' s (roster_sender t s.from) refl (rw e at h)
  | inr e ↦ (let h' = rw e at h in ((cc, cc), inl (cc)))
]

-- The stanza handler always returns, and what it tells the listener is nothing, or one message
-- from the first entry of the roster, named in lower case; from anyone else it tells nothing. The
-- connection's state and error stay as they are.
pub stanza_handler_roster :
    (lib : Library) (t : XmppTransport) (s : Incoming)
    → (t' : XmppTransport) × (xmpp_stanza_handler lib t s ≡ some t')
      × SameConnection t t'
      × ((t'.base.told ≡ t.base.told)
          ⊎ ((source : Bytes) × (m : Bytes) × IsPeer t s source
              × (t'.base.told ≡ t.base.told ++ message source m ∷ [])))
stanza_handler_roster lib t s =
    let (t', e) = stanza_handler-Total lib t s in
    let (same, told) = stanza_handler_tells lib t t' s e in (t', e, same, told)

-- The presence handler tells the listener of nobody else either, and of the peer once, as gone
-- exactly if the stanza's type is `unavailable`.
pub presence_handler_roster :
    (t : XmppTransport) (s : Incoming)
    → ((xmpp_presence_handler t s).base.told ≡ t.base.told)
      ⊎ ((source : Bytes) × IsPeer t s source
          × ((xmpp_presence_handler t s).base.told
              ≡ t.base.told
                ++ presence source
                    (if bytes_eq (get_or s.type []) (codes "unavailable")
                      then disconnected
                      else connected)
                    no_error
                  ∷ []))
unfolding xmpp_presence_handler handle_presence remote_source_presence_state_changed
presence_handler_roster t s = elim (Bool-cases s.renders) [
  | inr e ↦ inl (rw e)
  | inl e ↦ elim (Option-cases (roster_sender t s.from)) [
    | inl r ↦ inl (rw (e, r))
    | inr (source, r) ↦ elim (Bool-cases t.base.has_listener) [
      | inr h ↦ inl (rw (e, r, h))
      | inl h ↦ inr (source, roster_sender-IsPeer t s source r, rw (e, r, h))
    ]
  ]
]
