-- ===== src/XmppTransport.antt =====
-- transport/XmppTransport.h and .cpp over libstrophe: the object, what it sends, and its stop. What
-- is asked of the library is recorded in the field `requests`, in order.
pub mod Xml
pub mod Body
pub mod Handlers
pub mod Loop
use Xml.{Stanza, element, text, nil, cons}
use xmppconn.Base.{
  ℕ, Bool, true, false, ◌&&◌, not, Option, none, some, List, [], ◌∷◌, ◌++◌, Bytes, codes, is_empty,
  if◌then◌else◌, ◌>>=◌, get_or, take,
}
use xmppconn.Text.{find}
use xmppconn.Text.Compression.{Library, compress}
use xmppconn.Text.Escapes.{escape_xml}
use xmppconn.Transport
use xmppconn.Transport.{Transport, ConnectionError, no_error, disconnecting, set_connection_state}

-- The callbacks registered with the connection, each with its filter.
pub data Handler : Type 0 where
  on_chat_type on_message_name on_presence on_roster : Handler

pub data Request : Type 0 where
  connect_client : Request
  send : Stanza → Request
  disconnect : Request

pub record XmppTransport : Type 0 where
  pub base : Transport
  pub jabberid : Bytes
  pub password : Bytes
  pub chatroom : Bytes
  pub roster : List Bytes
  pub compressed : Bool
  pub initialized : Bool
  -- the static counter of `RunOnce`
  pub keepalive_counter : ℕ
  pub handlers : List Handler
  pub requests : List Request

unfoldable pub new : Bool → Bytes → Bytes → List Bytes → Bytes → Bool → XmppTransport
unfolding Transport.new
new listener jabberid password roster chatroom compressed = record {
  base = Transport.new listener;
  jabberid = jabberid;
  password = password;
  chatroom = chatroom;
  roster = roster;
  compressed = compressed;
  initialized = false;
  keepalive_counter = 0;
  handlers = [];
  requests = [];
}

unfoldable pub ask : XmppTransport → Request → XmppTransport
ask t r = record t { requests = t.requests ++ r ∷ [] }

-- `m_roster.front()`, where the roster is not empty.
abbrev pub front : List Bytes → Bytes
front [] = []
front (r ∷ rs) = r

-- `tmp.substr(0, tmp.find("/"))`; `npos` takes the whole text.
upto_slash : Option ℕ → Bytes → Bytes
upto_slash none s = s
upto_slash (some pos) s = take pos s

-- `SendImpl`: the addressee and the type of the message.
unfoldable pub destination : XmppTransport → Bytes × Bytes
unfolding upto_slash
destination t =
    if is_empty t.chatroom && not (is_empty t.roster)
    then (front t.roster, codes "chat")
    else (upto_slash (find t.chatroom (codes "/") 0) t.chatroom, codes "groupchat")

message_stanza : Bytes × Bytes → Bytes → Stanza
message_stanza (to, type) body =
    element (codes "message") ((codes "to", to) ∷ (codes "type", type) ∷ [])
      (cons (element (codes "body") [] (cons (text body) nil)) nil)

unfoldable pub process_body : Library → XmppTransport → Bytes → Option Bytes
process_body lib t message = if t.compressed then compress lib message else escape_xml message

unfoldable pub send_impl :
    Library → XmppTransport → Bytes → Option (XmppTransport × ConnectionError)
unfolding ask destination message_stanza process_body
send_impl lib t message = do
  body ← process_body lib t message
  some (ask t (send (message_stanza (destination t) body)), no_error)

-- `Transport::Stop` with `StopImpl`: the state first, then the library. The callbacks of stanza,
-- presence and roster are deleted, which are all.
unfoldable pub stop : XmppTransport → XmppTransport
unfolding ask set_connection_state
stop t =
    record (ask (record t { base = (set_connection_state t.base disconnecting).0 }) disconnect) {
      handlers = [];
    }
