-- ===== src/Wire/Codes.antt =====
-- The codes that the messages start with (app/XMPPConnector.cpp), and which code a message has.
use xmppconn.Base.{
  Option, none, some, List, [], ◌∷◌, Bytes, codes, newline, nat_eq, bytes_eq, if◌then◌else◌,
}

pub data Kind : Type 0 where
  advertisement advert_lost announce method_call method_reply signal join_request join_response
        session_joined session_lost get_property get_prop_reply set_property set_prop_reply get_all
        get_all_reply name_owner_changed :
      Kind

abbrev pub code_of : Kind → Bytes
code_of advertisement = codes "__ADVERTISEMENT"
code_of advert_lost = codes "__ADVERT_LOST"
code_of announce = codes "__ANNOUNCE"
code_of method_call = codes "__METHOD_CALL"
code_of method_reply = codes "__METHOD_REPLY"
code_of signal = codes "__SIGNAL"
code_of join_request = codes "__JOIN_REQUEST"
code_of join_response = codes "__JOIN_RESPONSE"
code_of session_joined = codes "__SESSION_JOINED"
code_of session_lost = codes "__SESSION_LOST"
code_of get_property = codes "__GET_PROPERTY"
code_of get_prop_reply = codes "__GET_PROP_REPLY"
code_of set_property = codes "__SET_PROPERTY"
code_of set_prop_reply = codes "__SET_PROP_REPLY"
code_of get_all = codes "__GET_ALL"
code_of get_all_reply = codes "__GET_ALL_REPLY"
code_of name_owner_changed = codes "__NAME_OWNER_CHANGED"

-- `message.substr(0, message.find_first_of('\n'))`
unfoldable pub first_part : Bytes → Bytes
first_part [] = []
first_part (c ∷ s) = let rest = first_part s in if nat_eq c newline then [] else c ∷ rest

-- The tests of `MessageReceived`, in its order.
abbrev pub tested : List Kind
tested =
    advertisement ∷ advert_lost ∷ announce ∷ method_call ∷ method_reply ∷ signal ∷ join_request
    ∷ join_response ∷ session_joined ∷ session_lost ∷ get_property ∷ get_prop_reply ∷ get_all
    ∷ get_all_reply ∷ set_property ∷ set_prop_reply ∷ name_owner_changed ∷ []

unfoldable pub first_match : Bytes → List Kind → Option Kind
first_match type_code [] = none
first_match type_code (k ∷ ks) =
    let rest = first_match type_code ks in if bytes_eq type_code (code_of k) then some k else rest

-- Which `Receive` function handles the message; `none` is the unrecognized one.
unfoldable pub kind_of : Bytes → Option Kind
unfolding first_part first_match
kind_of message = first_match (first_part message) tested
