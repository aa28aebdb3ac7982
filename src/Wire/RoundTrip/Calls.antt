-- ===== src/Wire/RoundTrip/Calls.antt =====
-- What arrives of calls, replies, signals and requests about properties. The text of the arguments
-- comes last, so it may hold newlines; it arrives with one newline more.
use xmppconn.Base.{ℕ, ◌<◌, ◌^◌, some, [], ◌∷◌, ◌++◌, Bytes, newline, Map, ◌≡◌, refl, ◌∙◌, Lacks}
use xmppconn.Wire.{istringstream, rest_of, ◌<<◌, istringstream-line, rest_of-istringstream}
use xmppconn.Wire.Codes.{
  Kind, code_of, method_reply, get_prop_reply, get_all_reply, get_property, get_all, set_property,
}
use xmppconn.Wire.Decimal.{decimal, decimal-Lacks, session_id-decimal}
use xmppconn.Wire.RoundTrip.{after_code-code}
use xmppconn.Wire.Send.{
  unique_name, send_method_call, send_method_reply, send_method_reply_error, send_signal,
  send_get_request, send_get_reply, send_get_reply_error, send_set_request, send_set_reply,
  send_get_all_request, send_get_all_reply, send_get_all_reply_error, send_name_owner_changed,
}
use xmppconn.Wire.Receive.Calls.{
  ReplyText, PropertyRequest, parse_method_call, parse_reply, parse_method_reply, parse_get_reply,
  parse_get_all_reply, parse_set_reply, parse_signal, parse_property_request, parse_get_request,
  parse_set_request, parse_get_all_request, parse_name_owner_changed,
}

-- Where no name holds a newline and the id fits 32 bits, a method call arrives with all its names and the id of its session, and with the text of its
-- arguments.
pub parse-send_method_call :
    (sender bus_name object_path iface_name member_name : Bytes) (id : ℕ) (args : Bytes)
    → Lacks newline sender
    → Lacks newline bus_name
    → Lacks newline object_path
    → Lacks newline iface_name
    → Lacks newline member_name
    → id < 2 ^ 32
    → parse_method_call
        (send_method_call sender bus_name object_path iface_name member_name id args)
      ≡ some (record {
        remote_name = sender;
        dest_name = bus_name;
        dest_path = object_path;
        iface_name = iface_name;
        member_name = member_name;
        remote_session_id = id;
        args = args ++ newline ∷ [];
      })
unfolding parse_method_call send_method_call
parse-send_method_call sender bus_name object_path iface_name member_name id args h1 h2 h3 h4 h5 h =
    rw
      (
        after_code-code,
        istringstream-line sender _ h1,
        istringstream-line bus_name _ h2,
        istringstream-line object_path _ h3,
        istringstream-line iface_name _ h4,
        istringstream-line member_name _ h5,
        istringstream-line (decimal id) _ (decimal-Lacks id),
        rest_of-istringstream args,
        session_id-decimal id h,
      )
      refl

-- Where no name holds a newline, a signal arrives with the owner of its sender's name, as far as it is known, and with all else
-- as it was sent; the id of its session is still text.
pub parse-send_signal :
    (well_known : Map Bytes Bytes) (sender destination : Bytes) (id : ℕ)
    (object_path iface_name member_name args : Bytes)
    → Lacks newline (unique_name well_known sender)
    → Lacks newline destination
    → Lacks newline object_path
    → Lacks newline iface_name
    → Lacks newline member_name
    → parse_signal
        (send_signal well_known sender destination id object_path iface_name member_name args)
      ≡ some (record {
        sender_name = unique_name well_known sender;
        destination = destination;
        remote_session_id = decimal id;
        object_path = object_path;
        iface_name = iface_name;
        iface_member = member_name;
        args = args ++ newline ∷ [];
      })
unfolding parse_signal send_signal
parse-send_signal well_known sender destination id object_path iface_name member_name args h1 h2 h3
      h4 h5 =
    rw
      (
        after_code-code,
        istringstream-line (unique_name well_known sender) _ h1,
        istringstream-line destination _ h2,
        istringstream-line (decimal id) _ (decimal-Lacks id),
        istringstream-line object_path _ h3,
        istringstream-line iface_name _ h4,
        istringstream-line member_name _ h5,
        rest_of-istringstream args,
      )
      refl

abbrev pub reply_text : Bytes → Bytes → Bytes → ReplyText
reply_text name path text = record { remote_name = name; obj_path = path; text = text }

parse-reply :
    (k : Kind) (name path text : Bytes)
    → Lacks newline name
    → Lacks newline path
    → parse_reply k (code_of k << name << path << text << [])
      ≡ some (reply_text name path (text ++ newline ∷ []))
unfolding parse_reply
parse-reply k name path text hn hp =
    rw
      (
        after_code-code,
        istringstream-line name _ hn,
        istringstream-line path _ hp,
        rest_of-istringstream text,
      )
      refl

-- Where the name and the path hold no newline, the replies to a method call, a get and a get-all request, whether with arguments or with an
-- error status, arrive with the names and the text that were sent, ended by a newline; the reply to
-- a set request arrives with its status alone.
pub parse-send_replies :
    (name path args : Bytes) (status : ℕ)
    → Lacks newline name
    → Lacks newline path
    → (parse_method_reply (send_method_reply name path args)
        ≡ some (reply_text name path (args ++ newline ∷ [])))
      × (parse_method_reply (send_method_reply_error name path status)
          ≡ some (reply_text name path (decimal status ++ newline ∷ [])))
      × (parse_get_reply (send_get_reply name path args)
          ≡ some (reply_text name path (args ++ newline ∷ [])))
      × (parse_get_reply (send_get_reply_error name path status)
          ≡ some (reply_text name path (decimal status ++ newline ∷ [])))
      × (parse_get_all_reply (send_get_all_reply name path args)
          ≡ some (reply_text name path (args ++ newline ∷ [])))
      × (parse_get_all_reply (send_get_all_reply_error name path status)
          ≡ some (reply_text name path (decimal status ++ newline ∷ [])))
      × (parse_set_reply (send_set_reply name path status)
          ≡ some (reply_text name path (decimal status)))
unfolding parse_method_reply send_method_reply send_method_reply_error parse_get_reply
    send_get_reply send_get_reply_error parse_get_all_reply send_get_all_reply
    send_get_all_reply_error parse_set_reply send_set_reply
parse-send_replies name path args status hn hp = (
  parse-reply method_reply name path args hn hp,
  parse-reply method_reply name path (decimal status) hn hp,
  parse-reply get_prop_reply name path args hn hp,
  parse-reply get_prop_reply name path (decimal status) hn hp,
  parse-reply get_all_reply name path args hn hp,
  parse-reply get_all_reply name path (decimal status) hn hp,
  rw
      (
        after_code-code,
        istringstream-line name _ hn,
        istringstream-line path _ hp,
        istringstream-line (decimal status) _ (decimal-Lacks status),
      )
      refl,
)

abbrev pub property_request : Bytes → Bytes → Bytes → Bytes → Bytes → PropertyRequest
property_request dest_name dest_path iface_name name value = record {
  dest_name = dest_name;
  dest_path = dest_path;
  iface_name = iface_name;
  name = name;
  value = value;
}

parse-request :
    (k : Kind) (iface_name name dest_name dest_path rest : Bytes)
    → Lacks newline iface_name
    → Lacks newline name
    → Lacks newline dest_name
    → Lacks newline dest_path
    → parse_property_request k (code_of k << dest_name << dest_path << iface_name << name << rest)
      ≡ some (property_request dest_name dest_path iface_name name (rest_of (istringstream rest)))
unfolding parse_property_request
parse-request k iface_name name dest_name dest_path rest hi hn hd hp =
    rw
      (
        after_code-code,
        istringstream-line dest_name _ hd,
        istringstream-line dest_path _ hp,
        istringstream-line iface_name _ hi,
        istringstream-line name _ hn,
      )
      refl

-- Where no name holds a newline, the requests to get one property, to get all of them and to set one arrive with the names that
-- were sent, each in its place, and the last with the text of the value.
pub parse-send_property_requests :
    (iface_name name value dest_name dest_path : Bytes)
    → Lacks newline iface_name
    → Lacks newline name
    → Lacks newline dest_name
    → Lacks newline dest_path
    → (parse_get_request (send_get_request iface_name name dest_name dest_path)
        ≡ some (property_request dest_name dest_path iface_name name []))
      × (parse_get_all_request (send_get_all_request iface_name name dest_name dest_path)
          ≡ some (property_request dest_name dest_path iface_name name []))
      × (parse_set_request (send_set_request iface_name name value dest_name dest_path)
          ≡ some (property_request dest_name dest_path iface_name name (value ++ newline ∷ [])))
unfolding parse_get_request send_get_request parse_get_all_request send_get_all_request
    parse_set_request send_set_request istringstream
parse-send_property_requests iface_name name value dest_name dest_path hi hn hd hp = (
  parse-request get_property iface_name name dest_name dest_path [] hi hn hd hp,
  parse-request get_all iface_name name dest_name dest_path [] hi hn hd hp,
  parse-request set_property iface_name name dest_name dest_path (value << []) hi hn hd hp
      ∙ rw (rest_of-istringstream value) refl,
)

-- Where no name holds a newline, a change of a name's owner arrives as it was sent.
pub parse-send_name_owner_changed :
    (bus_name previous_owner new_owner : Bytes)
    → Lacks newline bus_name
    → Lacks newline previous_owner
    → Lacks newline new_owner
    → parse_name_owner_changed (send_name_owner_changed bus_name previous_owner new_owner)
      ≡ some
          (record { bus_name = bus_name; previous_owner = previous_owner; new_owner = new_owner })
unfolding parse_name_owner_changed send_name_owner_changed
parse-send_name_owner_changed bus_name previous_owner new_owner hb hp hn =
    rw
      (
        after_code-code,
        istringstream-line bus_name _ hb,
        istringstream-line previous_owner _ hp,
        istringstream-line new_owner _ hn,
      )
      refl
