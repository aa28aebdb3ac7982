-- ===== src/XmppTransport/Loop.antt =====
-- `RunOnce` of transport/XmppTransport.cpp under `Run` of transport/Transport.cpp. A round's input
-- is what the library answers: whether it connects, and the events that `xmpp_run_once` delivers.
pub mod Keepalive
pub mod Ends
pub mod LoginInvariant
pub mod Login
use xmppconn.Base.{
  ℕ, zero, suc, ◌+◌, Bool, true, false, ◌&&◌, ◌||◌, not, Option, none, some, List, [], ◌∷◌, ◌++◌,
  Bytes, codes, leb, is_empty, if◌then◌else◌, ◌>>=◌,
}
use xmppconn.Text.Compression.{Library}
use xmppconn.Transport
use xmppconn.Transport.{
  Transport, ConnectionState, ConnectionError, unknown_error, no_error, uninitialized, is_connected,
  is_disconnected, is_none,
}
use xmppconn.XmppTransport.{
  XmppTransport, Handler, on_chat_type, on_message_name, on_presence, on_roster, ask, send,
  connect_client,
}
use xmppconn.XmppTransport.Xml.{text}
use xmppconn.XmppTransport.Handlers.{
  Incoming, ConnectionEvent, xmpp_stanza_handler, xmpp_presence_handler, xmpp_roster_handler,
  xmpp_connection_handler,
}

pub data Event : Type 0 where
  stanza presence roster : Incoming → Event
  connection : ConnectionEvent → Event

pub record Round : Type 0 where
  pub connects : Bool
  pub events : List Event

unfoldable pub dispatch : Library → XmppTransport → Event → Option XmppTransport
dispatch lib t (stanza s) = xmpp_stanza_handler lib t s
dispatch lib t (presence s) = some (xmpp_presence_handler t s)
dispatch lib t (roster s) = some (xmpp_roster_handler t s)
dispatch lib t (connection e) = some (xmpp_connection_handler t e)

-- `xmpp_run_once`
unfoldable pub run_library : Library → XmppTransport → List Event → Option XmppTransport
unfolding dispatch
run_library lib t [] = some t
run_library lib t (e ∷ es) = do t' ← dispatch lib t e; run_library lib t' es

-- `KEEPALIVE_IN_SECONDS * 1000`
abbrev pub next_keepalive : ℕ
next_keepalive = 60000

-- The first part of a round: register and connect, once. The second component is whether the
-- round goes on.
unfoldable pub initialize : XmppTransport → Bool → XmppTransport × Bool
unfolding ask
initialize t connects =
    if t.initialized
    then (t, true)
    else (let message = if is_empty t.chatroom then on_chat_type else on_message_name in
        let registered = record t {
          handlers = t.handlers ++ message ∷ on_presence ∷ on_roster ∷ [];
        } in
        let asked = ask registered connect_client in
        if connects then (record asked { initialized = true }, true) else (asked, false))

unfoldable pub keepalive : XmppTransport → XmppTransport
unfolding ask
keepalive t =
    if leb next_keepalive t.keepalive_counter
    then record (ask t (send (text (codes " ")))) { keepalive_counter = 0 }
    else t

count_round : XmppTransport → XmppTransport
count_round t = record t { keepalive_counter = t.keepalive_counter + 1 }

-- The second part of a round, by the connection state.
unfoldable pub process : Library → XmppTransport → List Event → Option XmppTransport
unfolding keepalive count_round
process lib t events =
    if is_connected t.base.connection_state
    then (do t' ← run_library lib (keepalive t) events; some (count_round t'))
    else if not (is_disconnected t.base.connection_state)
    then run_library lib t events
    else some t

finish_round :
    Library → List Event → XmppTransport × Bool → Option (XmppTransport × ConnectionError)
unfolding process
finish_round lib events (t, false) = some (t, unknown_error)
finish_round lib events (t, true) = do
  t' ← process lib t events
  some (t', t'.base.connection_error)

unfoldable pub run_once : Library → XmppTransport → Round → Option (XmppTransport × ConnectionError)
unfolding initialize finish_round
run_once lib t r = finish_round lib r.events (initialize t r.connects)

-- What `Run` has come to when its input ends: it returned, or it is still in its loop.
pub data Outcome : Type 0 where
  returned : XmppTransport → ConnectionError → Outcome
  running : XmppTransport → Outcome

-- `Run`: the loop goes on while the state is not `disconnected` and there is no error.
unfoldable pub run : Library → XmppTransport → List Round → Option Outcome
unfolding run_once
run lib t [] = some (running t)
run lib t (r ∷ rs) = do
  (t', err) ← run_once lib t r
  let rest = run lib t' rs
  if not (is_disconnected t'.base.connection_state) && is_none err
      then rest
      else some (returned t' err)
