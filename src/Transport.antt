-- ===== src/Transport.antt =====
-- transport/Transport.h and .cpp: the connection state that the event loop runs on, and what the
-- listener (the connector) is told. Each accessor holds the mutex for one read or one write, so it
-- is one step.
use xmppconn.Base.{Bool, true, false, List, [], ◌∷◌, ◌++◌, Bytes, if◌then◌else◌}

pub data ConnectionState : Type 0 where
  uninitialized connected disconnected connecting disconnecting error : ConnectionState

-- `none` of the source is `no_error`, and `unknown` is `unknown_error`.
pub data ConnectionError : Type 0 where
  no_error unknown_error not_connected auth_failure host_unreachable : ConnectionError

-- The calls that the listener receives, in order.
pub data ListenerCall : Type 0 where
  message : Bytes → Bytes → ListenerCall
  global_state : ConnectionState → ConnectionError → ListenerCall
  presence : Bytes → ConnectionState → ConnectionError → ListenerCall

pub record Transport : Type 0 where
  pub connection_state : ConnectionState
  pub connection_error : ConnectionError
  pub has_listener : Bool
  pub told : List ListenerCall

unfoldable pub new : Bool → Transport
new listener = record {
  connection_state = uninitialized;
  connection_error = no_error;
  has_listener = listener;
  told = [];
}

tell : Transport → ListenerCall → Transport
tell t c = record t { told = t.told ++ c ∷ [] }

-- The new state, and the previous one as the result.
unfoldable pub set_connection_state : Transport → ConnectionState → Transport × ConnectionState
set_connection_state t s = (record t { connection_state = s }, t.connection_state)

unfoldable pub set_connection_error : Transport → ConnectionError → Transport × ConnectionError
set_connection_error t e = (record t { connection_error = e }, t.connection_error)

unfoldable pub message_received : Transport → Bytes → Bytes → Transport
unfolding tell
message_received t source body = if t.has_listener then tell t (message source body) else t

unfoldable pub global_connection_state_changed :
    Transport → ConnectionState → ConnectionError → Transport
unfolding tell set_connection_state set_connection_error
global_connection_state_changed t s e =
    if t.has_listener
    then tell (set_connection_error (set_connection_state t s).0 e).0 (global_state s e)
    else t

unfoldable pub remote_source_presence_state_changed :
    Transport → Bytes → ConnectionState → ConnectionError → Transport
unfolding tell
remote_source_presence_state_changed t source s e =
    if t.has_listener then tell t (presence source s e) else t

abbrev pub is_connected : ConnectionState → Bool
is_connected connected = true
is_connected _ = false

abbrev pub is_disconnected : ConnectionState → Bool
is_disconnected disconnected = true
is_disconnected _ = false

abbrev pub is_disconnecting : ConnectionState → Bool
is_disconnecting disconnecting = true
is_disconnecting _ = false

abbrev pub is_uninitialized : ConnectionState → Bool
is_uninitialized uninitialized = true
is_uninitialized _ = false

abbrev pub is_none : ConnectionError → Bool
is_none no_error = true
is_none _ = false
