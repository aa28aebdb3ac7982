-- ===== src/Wire/Send.antt =====
-- The `Send` functions of app/XMPPConnector.cpp: the body that each gives to the transport, from the
-- fields of the AllJoyn message. An `args` is the text that `util::msgarg::ToString` gives for the
-- arguments.
use xmppconn.Base.{
  ℕ, Option, none, some, List, [], ◌∷◌, ◌++◌, Bytes, codes, bytes_key, Map, lookup, get_or, is_some,
  if◌then◌else◌, ◌>>=◌,
}
use xmppconn.Text.{find}
use xmppconn.Wire.{◌<<◌}
use xmppconn.Wire.Codes.{
  code_of, advertisement, advert_lost, announce, method_call, method_reply, signal, join_request,
  join_response, session_joined, session_lost, get_property, get_prop_reply, set_property,
  set_prop_reply, get_all, get_all_reply, name_owner_changed,
}
use xmppconn.Wire.Decimal.{decimal}
use xmppconn.Wire.Objects.{BusObjectInfo, write_objects, write_joiner_objects}

abbrev pub alljoyn_url_suffix : Bytes
alljoyn_url_suffix = codes "org.alljoyn.XmppConnector"

abbrev pub alljoyn_xmpp_suffix : Bytes
alljoyn_xmpp_suffix = codes "XmppConnector"

-- The owner of a well-known name, where it is known, or the name itself.
unfoldable pub unique_name : Map Bytes Bytes → Bytes → Bytes
unique_name well_known name = get_or (lookup name well_known) name

-- `none`: nothing is sent, since the name is a connector's own.
unfoldable pub send_advertisement : Map Bytes Bytes → Bytes → List BusObjectInfo → Option Bytes
unfolding unique_name
send_advertisement well_known name objects =
    if is_some (find name alljoyn_url_suffix 0)
    then none
    else some
        (code_of advertisement << unique_name well_known name << name << write_objects objects)

unfoldable pub send_advertisement_lost : Bytes → Bytes
send_advertisement_lost name = code_of advert_lost << name << []

-- The interfaces that an object announces; `none` where one is a connector's.
unfoldable pub write_names : List Bytes → Option Bytes
write_names [] = some []
write_names (n ∷ ns) = do
  let rest = write_names ns
  if is_some (find n alljoyn_xmpp_suffix 0) then none else (rest >>= λ s. some (n << s))

unfoldable pub write_descriptions : Map Bytes (List Bytes) → Option Bytes
write_descriptions [] = some []
write_descriptions ((path, names) ∷ m) = do
  written ← write_names names
  rest ← write_descriptions m
  some (path << (written ++ rest))

-- The fields of the `AboutData`, each with the text of its value.
unfoldable pub write_properties : List (Bytes × Bytes) → Bytes
write_properties [] = []
write_properties ((field, text) ∷ fs) = field << text << [] << write_properties fs

pub record Announcement : Type 0 where
  pub version : ℕ
  pub port : ℕ
  pub bus_name : Bytes
  pub object_descs : Map Bytes (List Bytes)
  pub about_data : List (Bytes × Bytes)
  pub bus_objects : List BusObjectInfo

unfoldable pub send_announce : Map Bytes Bytes → Announcement → Option Bytes
unfolding unique_name write_descriptions write_properties
send_announce well_known a = do
  descriptions ← write_descriptions a.object_descs
  some (
      code_of announce
      << unique_name well_known a.bus_name
      << decimal a.version
      << decimal a.port
      << a.bus_name
      << (descriptions
          ++ ([] << (write_properties a.about_data ++ ([] << write_objects a.bus_objects)))))

unfoldable pub send_join_request : Bytes → ℕ → Bytes → List BusObjectInfo → Bytes
send_join_request remote_name port joiner objects =
    code_of join_request << remote_name << decimal port << joiner << write_joiner_objects objects

unfoldable pub send_join_response : Bytes → ℕ → Bytes
send_join_response joinee session_id = code_of join_response << joinee << decimal session_id << []

unfoldable pub send_session_joined : Bytes → Bytes → ℕ → ℕ → ℕ → Bytes
send_session_joined joiner joinee port remote_id local_id =
    code_of session_joined
    << joiner
    << joinee
    << decimal port
    << decimal remote_id
    << decimal local_id
    << []

unfoldable pub send_session_lost : Bytes → ℕ → Bytes
send_session_lost peer id = code_of session_lost << peer << decimal id << []

-- What a bus method call carries: the names are those of the `Message` and of the `Member`.
unfoldable pub send_method_call : Bytes → Bytes → Bytes → Bytes → Bytes → ℕ → Bytes → Bytes
send_method_call sender bus_name object_path iface_name member_name session_id args =
    code_of method_call
    << sender
    << bus_name
    << object_path
    << iface_name
    << member_name
    << decimal session_id
    << args
    << []

unfoldable pub send_method_reply : Bytes → Bytes → Bytes → Bytes
send_method_reply dest_name dest_path args =
    code_of method_reply << dest_name << dest_path << args << []

unfoldable pub send_method_reply_error : Bytes → Bytes → ℕ → Bytes
send_method_reply_error dest_name dest_path error =
    code_of method_reply << dest_name << dest_path << decimal error << []

unfoldable pub send_signal :
    Map Bytes Bytes → Bytes → Bytes → ℕ → Bytes → Bytes → Bytes → Bytes → Bytes
unfolding unique_name
send_signal well_known sender destination session_id object_path iface_name member_name args =
    code_of signal
    << unique_name well_known sender
    << destination
    << decimal session_id
    << object_path
    << iface_name
    << member_name
    << args
    << []

unfoldable pub send_get_request : Bytes → Bytes → Bytes → Bytes → Bytes
send_get_request iface_name prop_name dest_name dest_path =
    code_of get_property << dest_name << dest_path << iface_name << prop_name << []

unfoldable pub send_get_reply : Bytes → Bytes → Bytes → Bytes
send_get_reply dest_name dest_path args =
    code_of get_prop_reply << dest_name << dest_path << args << []

unfoldable pub send_get_reply_error : Bytes → Bytes → ℕ → Bytes
send_get_reply_error dest_name dest_path error =
    code_of get_prop_reply << dest_name << dest_path << decimal error << []

unfoldable pub send_set_request : Bytes → Bytes → Bytes → Bytes → Bytes → Bytes
send_set_request iface_name prop_name args dest_name dest_path =
    code_of set_property << dest_name << dest_path << iface_name << prop_name << args << []

unfoldable pub send_set_reply : Bytes → Bytes → ℕ → Bytes
send_set_reply dest_name dest_path status =
    code_of set_prop_reply << dest_name << dest_path << decimal status << []

unfoldable pub send_get_all_request : Bytes → Bytes → Bytes → Bytes → Bytes
send_get_all_request iface_name member_name dest_name dest_path =
    code_of get_all << dest_name << dest_path << iface_name << member_name << []

unfoldable pub send_get_all_reply : Bytes → Bytes → Bytes → Bytes
send_get_all_reply dest_name dest_path args =
    code_of get_all_reply << dest_name << dest_path << args << []

unfoldable pub send_get_all_reply_error : Bytes → Bytes → ℕ → Bytes
send_get_all_reply_error dest_name dest_path error =
    code_of get_all_reply << dest_name << dest_path << decimal error << []

unfoldable pub send_name_owner_changed : Bytes → Bytes → Bytes → Bytes
send_name_owner_changed bus_name previous_owner new_owner =
    code_of name_owner_changed << bus_name << previous_owner << new_owner << []
