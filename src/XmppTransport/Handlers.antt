-- ===== src/XmppTransport/Handlers.antt =====
-- The callbacks of transport/XmppTransport.cpp. What the library answers about an incoming stanza
-- is the record `Incoming`.
pub mod Roster
use xmppconn.Base.{
  ℕ, ◌+◌, Bool, true, false, ◌&&◌, ◌||◌, not, Option, none, some, List, [], ◌∷◌, ◌++◌, Bytes, codes,
  map, ltb, bytes_eq, is_empty, if◌then◌else◌, ◌>>=◌, get_or,
}
use xmppconn.Text.Compression.{Library}
use xmppconn.Transport
use xmppconn.Transport.{
  Transport, connected, disconnected, error, no_error, auth_failure, unknown_error,
  message_received, global_connection_state_changed, remote_source_presence_state_changed,
  is_disconnecting, is_uninitialized,
}
use xmppconn.XmppTransport.{XmppTransport, ask, send, front}
use xmppconn.XmppTransport.Xml.{Stanza, Stanzas, element, text, nil, cons}
use xmppconn.XmppTransport.Body.{Content, ignored, body, receive_body}

pub record Incoming : Type 0 where
  -- `xmpp_stanza_to_text` on the stanza: whether it succeeds
  pub renders : Bool
  pub name : Bytes
  pub from : Option Bytes
  pub type : Option Bytes
  -- the rendered `body` child; `none` where there is none or it cannot be rendered
  pub body_text : Option Bytes

-- `::tolower` in the C locale
unfoldable pub to_lower : ℕ → ℕ
to_lower c = if not (ltb c b'A') && not (ltb b'Z' c) then c + 32 else c

unfoldable pub lower : Bytes → Bytes
unfolding to_lower
lower s = map to_lower s

-- The sender in lower case, if it is the first entry of the roster; otherwise the stanza is ignored.
unfoldable pub roster_sender : XmppTransport → Option Bytes → Option Bytes
unfolding lower
roster_sender t from =
    let sender = lower (get_or from []) in
    if is_empty t.roster || not (bytes_eq (lower (front t.roster)) sender)
    then none
    else some sender

deliver : XmppTransport → Bytes → Content → XmppTransport
deliver t source ignored = t
deliver t source (body message) = record t { base = message_received t.base source message }

handle_body : Library → XmppTransport → Bytes → Option Bytes → Option XmppTransport
unfolding deliver
handle_body lib t source none = some t
handle_body lib t source (some s) = do content ← receive_body lib s; some (deliver t source content)

handle_message : Library → XmppTransport → Incoming → Option Bytes → Option XmppTransport
unfolding handle_body
handle_message lib t s none = some t
handle_message lib t s (some source) =
    if bytes_eq (codes "message") s.name || bytes_eq (codes "chat") s.name
    then handle_body lib t source s.body_text
    else some t

unfoldable pub xmpp_stanza_handler : Library → XmppTransport → Incoming → Option XmppTransport
unfolding handle_message roster_sender
xmpp_stanza_handler lib t s =
    if not s.renders then some t else handle_message lib t s (roster_sender t s.from)

unfoldable pub handle_presence : XmppTransport → Incoming → Option Bytes → XmppTransport
handle_presence t s none = t
handle_presence t s (some source) =
    let state =
      if bytes_eq (get_or s.type []) (codes "unavailable") then disconnected else connected in
    record t { base = remote_source_presence_state_changed t.base source state no_error }

unfoldable pub xmpp_presence_handler : XmppTransport → Incoming → XmppTransport
unfolding handle_presence roster_sender
xmpp_presence_handler t s =
    if not s.renders then t else handle_presence t s (roster_sender t s.from)

muc_child : Stanza
muc_child =
    element (codes "x") ((codes "xmlns", codes "http://jabber.org/protocol/muc") ∷ [])
      (cons (element (codes "history") ((codes "maxchars", codes "0") ∷ []) nil) nil)

unfoldable pub presence_stanza : XmppTransport → Stanza
unfolding muc_child
presence_stanza t =
    let from : Bytes × Bytes = (codes "from", t.jabberid) in
    if not (is_empty t.chatroom)
    then element (codes "presence") (from ∷ (codes "to", t.chatroom) ∷ []) (cons muc_child nil)
    else if not (is_empty t.roster)
    then element (codes "presence") (from ∷ (codes "to", front t.roster) ∷ []) nil
    else element (codes "presence") (from ∷ []) nil

unfoldable pub xmpp_roster_handler : XmppTransport → Incoming → XmppTransport
unfolding presence_stanza ask
xmpp_roster_handler t s =
    if not s.renders
    then t
    else if bytes_eq (get_or s.type []) (codes "result")
    then ask t (send (presence_stanza t))
    else t

iq_stanza : Bytes → Bytes → Stanzas → Stanza
iq_stanza type id items =
    element (codes "iq") ((codes "type", type) ∷ (codes "id", id) ∷ [])
      (cons (element (codes "query") ((codes "xmlns", codes "jabber:iq:roster") ∷ []) items) nil)

unfoldable pub add_to_roster : XmppTransport → XmppTransport
unfolding iq_stanza ask
add_to_roster t =
    let item = element (codes "item") ((codes "jid", front t.roster) ∷ []) nil in
    ask (ask t (send (iq_stanza (codes "set") (codes "roster_add") (cons item nil))))
      (send (iq_stanza (codes "get") (codes "roster_get") nil))

-- `xmpp_conn_event_t`; `fail` stands for `XMPP_CONN_FAIL` and every other event.
pub data ConnectionEvent : Type 0 where
  connect disconnect fail : ConnectionEvent

unfoldable pub xmpp_connection_handler : XmppTransport → ConnectionEvent → XmppTransport
unfolding add_to_roster global_connection_state_changed
xmpp_connection_handler t connect =
    let t' = record t { base = global_connection_state_changed t.base connected no_error } in
    if not (is_empty t.roster) then add_to_roster t' else t'
xmpp_connection_handler t disconnect =
    if is_disconnecting t.base.connection_state
    then record t { base = global_connection_state_changed t.base disconnected no_error }
    else if not (is_uninitialized t.base.connection_state)
    then record t { base = global_connection_state_changed t.base disconnected no_error }
    else record t { base = global_connection_state_changed t.base disconnected auth_failure }
xmpp_connection_handler t fail = record t {
  base = global_connection_state_changed t.base error unknown_error;
}
