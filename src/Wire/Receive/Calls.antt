-- ===== src/Wire/Receive/Calls.antt =====
-- The parsing half of the `Receive` functions of app/XMPPConnector.cpp for calls, replies, signals,
-- properties and name owners.
use xmppconn.Base.{ℕ, Option, some, [], ◌∷◌, Bytes, bytes_key, ◌>>=◌}
use xmppconn.Wire.{Stream, next_line, rest_of}
use xmppconn.Wire.Codes.{
  Kind, method_call, method_reply, signal, get_property, get_prop_reply, set_property,
  set_prop_reply, get_all, get_all_reply, name_owner_changed,
}
use xmppconn.Wire.Decimal.{session_id}
use xmppconn.Wire.Receive.{after_code}

pub record MethodCall : Type 0 where
  pub remote_name : Bytes
  pub dest_name : Bytes
  pub dest_path : Bytes
  pub iface_name : Bytes
  pub member_name : Bytes
  pub remote_session_id : ℕ
  pub args : Bytes

unfoldable pub parse_method_call : Bytes → Option MethodCall
unfolding after_code
parse_method_call message = do
  s ← after_code method_call message
  (remote_name, s) ← next_line s
  (dest_name, s) ← next_line s
  (dest_path, s) ← next_line s
  (iface_name, s) ← next_line s
  (member_name, s) ← next_line s
  (remote_session_id, s) ← next_line s
  some (record {
    remote_name = remote_name;
    dest_name = dest_name;
    dest_path = dest_path;
    iface_name = iface_name;
    member_name = member_name;
    remote_session_id = session_id remote_session_id;
    args = rest_of s;
  })

-- A reply with the rest of the message as its text; the three kinds are parsed alike.
pub record ReplyText : Type 0 where
  pub remote_name : Bytes
  pub obj_path : Bytes
  pub text : Bytes

unfoldable pub parse_reply : Kind → Bytes → Option ReplyText
unfolding after_code
parse_reply kind message = do
  s ← after_code kind message
  (remote_name, s) ← next_line s
  (obj_path, s) ← next_line s
  some (record { remote_name = remote_name; obj_path = obj_path; text = rest_of s })

unfoldable pub parse_method_reply : Bytes → Option ReplyText
unfolding parse_reply
parse_method_reply = parse_reply method_reply

unfoldable pub parse_get_reply : Bytes → Option ReplyText
unfolding parse_reply
parse_get_reply = parse_reply get_prop_reply

unfoldable pub parse_get_all_reply : Bytes → Option ReplyText
unfolding parse_reply
parse_get_all_reply = parse_reply get_all_reply

-- The reply to a set request is one line.
unfoldable pub parse_set_reply : Bytes → Option ReplyText
unfolding after_code
parse_set_reply message = do
  s ← after_code set_prop_reply message
  (remote_name, s) ← next_line s
  (obj_path, s) ← next_line s
  (status, s) ← next_line s
  some (record { remote_name = remote_name; obj_path = obj_path; text = status })

pub record Signal : Type 0 where
  pub sender_name : Bytes
  pub destination : Bytes
  pub remote_session_id : Bytes
  pub object_path : Bytes
  pub iface_name : Bytes
  pub iface_member : Bytes
  pub args : Bytes

unfoldable pub parse_signal : Bytes → Option Signal
unfolding after_code
parse_signal message = do
  s ← after_code signal message
  (sender_name, s) ← next_line s
  (destination, s) ← next_line s
  (remote_session_id, s) ← next_line s
  (object_path, s) ← next_line s
  (iface_name, s) ← next_line s
  (iface_member, s) ← next_line s
  some (record {
    sender_name = sender_name;
    destination = destination;
    remote_session_id = remote_session_id;
    object_path = object_path;
    iface_name = iface_name;
    iface_member = iface_member;
    args = rest_of s;
  })

-- A request about a property, or about all of them: `name` is the property's or the member's.
pub record PropertyRequest : Type 0 where
  pub dest_name : Bytes
  pub dest_path : Bytes
  pub iface_name : Bytes
  pub name : Bytes
  pub value : Bytes

unfoldable pub parse_property_request : Kind → Bytes → Option PropertyRequest
unfolding after_code
parse_property_request kind message = do
  s ← after_code kind message
  (dest_name, s) ← next_line s
  (dest_path, s) ← next_line s
  (iface_name, s) ← next_line s
  (name, s) ← next_line s
  some (record {
    dest_name = dest_name;
    dest_path = dest_path;
    iface_name = iface_name;
    name = name;
    value = rest_of s;
  })

unfoldable pub parse_get_request : Bytes → Option PropertyRequest
unfolding parse_property_request
parse_get_request = parse_property_request get_property

unfoldable pub parse_set_request : Bytes → Option PropertyRequest
unfolding parse_property_request
parse_set_request = parse_property_request set_property

unfoldable pub parse_get_all_request : Bytes → Option PropertyRequest
unfolding parse_property_request
parse_get_all_request = parse_property_request get_all

pub record NameOwner : Type 0 where
  pub bus_name : Bytes
  pub previous_owner : Bytes
  pub new_owner : Bytes

-- `getline` whose result is not looked at: a line that is not there is empty.
line_or_empty : Stream → Bytes × Stream
line_or_empty [] = ([], [])
line_or_empty (l ∷ s) = (l, s)

unfoldable pub parse_name_owner_changed : Bytes → Option NameOwner
unfolding after_code line_or_empty
parse_name_owner_changed message = do
  s ← after_code name_owner_changed message
  let (bus_name, s) = line_or_empty s
  let (previous_owner, s) = line_or_empty s
  let (new_owner, s) = line_or_empty s
  some (record { bus_name = bus_name; previous_owner = previous_owner; new_owner = new_owner })
