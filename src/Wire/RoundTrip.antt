-- ===== src/Wire/RoundTrip.antt =====
-- What arrives of a message about calls, properties and sessions: the fields that were sent.
pub mod Calls
pub mod Descriptions
pub mod Properties
pub mod Announce
use xmppconn.Base.{
  ℕ, ◌<◌, ◌^◌, Bool, true, false, Option, none, some, List, [], ◌∷◌, ◌++◌, Bytes, newline, bytes_eq,
  Map, lookup, bytes_key, get_or, is_empty, if◌then◌else◌, ◌>>=◌, ◌≡◌, ◌≢◌, refl, ap, sym, ◌∙◌,
  arith, Lacks, All, map,
}
use xmppconn.Wire.{
  Stream, istringstream, next_line, rest_of, ◌<<◌, istringstream-line, rest_of-istringstream,
  write_lines,
}
use xmppconn.Wire.Codes.{
  Kind, code_of, advertisement, advert_lost, announce, method_call, method_reply, signal,
  join_request, join_response, session_joined, session_lost, get_property, get_prop_reply,
  set_property, set_prop_reply, get_all, get_all_reply, name_owner_changed, kind_of,
}
use xmppconn.Wire.Decimal.{
  decimal, session_id, session_port, decimal-Lacks, is_empty-decimal, session_id-decimal,
  session_port-decimal,
}
use xmppconn.Text.{find}
use xmppconn.Wire.Objects.{BusObjectInfo}
use xmppconn.Wire.Objects.RoundTrip.{IsObject, received_object, parse-write_objects}
use xmppconn.Wire.Objects.Joiner.{stripped, parse-write_joiner_objects}
use xmppconn.Wire.Send.{
  alljoyn_url_suffix, unique_name, send_advertisement, send_join_request, send_session_joined,
  send_join_response, send_session_lost,
}
use xmppconn.Wire.Receive.{
  after_code, Advertisement, parse_advertisement, JoinRequest, parse_join_request, SessionJoined,
  parse_session_joined, parse_join_response, parse_session_lost,
}

pub after_code-code :
    (k : Kind) (s : Bytes) → after_code k (code_of k << s) ≡ some (istringstream s)
unfolding after_code istringstream bytes_eq
after_code-code advertisement s = refl
after_code-code advert_lost s = refl
after_code-code announce s = refl
after_code-code method_call s = refl
after_code-code method_reply s = refl
after_code-code signal s = refl
after_code-code join_request s = refl
after_code-code join_response s = refl
after_code-code session_joined s = refl
after_code-code session_lost s = refl
after_code-code get_property s = refl
after_code-code get_prop_reply s = refl
after_code-code set_property s = refl
after_code-code set_prop_reply s = refl
after_code-code get_all s = refl
after_code-code get_all_reply s = refl
after_code-code name_owner_changed s = refl

-- A message that starts with a code is handled by the function of that code, whatever follows.
pub kind_of-code : (k : Kind) (s : Bytes) → kind_of (code_of k << s) ≡ some k
unfolding kind_of bytes_eq
kind_of-code advertisement s = refl
kind_of-code advert_lost s = refl
kind_of-code announce s = refl
kind_of-code method_call s = refl
kind_of-code method_reply s = refl
kind_of-code signal s = refl
kind_of-code join_request s = refl
kind_of-code join_response s = refl
kind_of-code session_joined s = refl
kind_of-code session_lost s = refl
kind_of-code get_property s = refl
kind_of-code get_prop_reply s = refl
kind_of-code set_property s = refl
kind_of-code set_prop_reply s = refl
kind_of-code get_all s = refl
kind_of-code get_all_reply s = refl
kind_of-code name_owner_changed s = refl

-- Where no name holds a newline and the numbers fit their types, a session that was joined on one
-- side arrives at the other with its ids exchanged: the sender's
-- local id is the receiver's remote id.
pub parse-send_session_joined :
    (joiner joinee : Bytes) (port remote_id local_id : ℕ)
    → Lacks newline joiner
    → Lacks newline joinee
    → port < 2 ^ 16
    → remote_id < 2 ^ 32
    → local_id < 2 ^ 32
    → parse_session_joined (send_session_joined joiner joinee port remote_id local_id)
      ≡ some (record {
        joiner = joiner;
        joinee = joinee;
        port = port;
        local_id = remote_id;
        remote_id = local_id;
      })
unfolding parse_session_joined send_session_joined
parse-send_session_joined joiner joinee port remote_id local_id hr hj p r l =
    rw
      (
        after_code-code,
        istringstream-line joiner _ hr,
        istringstream-line joinee _ hj,
        istringstream-line (decimal port) _ (decimal-Lacks port),
        istringstream-line (decimal remote_id) _ (decimal-Lacks remote_id),
        istringstream-line (decimal local_id) _ (decimal-Lacks local_id),
      )
      (rw
        (
          is_empty-decimal remote_id,
          is_empty-decimal local_id,
          session_port-decimal port p,
          session_id-decimal remote_id r,
          session_id-decimal local_id l,
        )
        refl)

-- Where no name holds a newline and no text an empty line, and the port fits 16 bits, a join request
-- arrives with the names and the port that were sent, and with the objects of the
-- joiner, but for the interfaces that every object has.
pub parse-send_join_request :
    (remote_name joiner : Bytes) (port : ℕ) (objects : List BusObjectInfo)
    → Lacks newline remote_name
    → Lacks newline joiner
    → port < 2 ^ 16
    → All IsObject objects
    → parse_join_request (send_join_request remote_name port joiner objects)
      ≡ some (record {
        joinee = remote_name;
        port = port;
        joiner = joiner;
        objects = map (received_object []) (map stripped objects);
      })
unfolding parse_join_request send_join_request
parse-send_join_request remote_name joiner port objects hn hj p ho =
    rw
      (
        after_code-code,
        istringstream-line remote_name _ hn,
        istringstream-line (decimal port) _ (decimal-Lacks port),
        istringstream-line joiner _ hj,
        parse-write_joiner_objects objects ho,
        session_port-decimal port p,
      )
      refl

-- Where the name holds no newline and the id fits 32 bits, the answer to a join request, and the loss of a session, arrive with the name and the id that
-- were sent.
pub parse-send_session_ids :
    (name : Bytes) (id : ℕ)
    → Lacks newline name
    → id < 2 ^ 32
    → (parse_join_response (send_join_response name id) ≡ some (name, id))
      × (parse_session_lost (send_session_lost name id) ≡ some (name, id))
unfolding parse_join_response send_join_response parse_session_lost send_session_lost
parse-send_session_ids name id hn h = (
  rw
      (
        after_code-code,
        istringstream-line name _ hn,
        istringstream-line (decimal id) _ (decimal-Lacks id),
        session_id-decimal id h,
      )
      refl,
  rw
      (
        after_code-code,
        istringstream-line name _ hn,
        istringstream-line (decimal id) _ (decimal-Lacks id),
        session_id-decimal id h,
      )
      refl,
)

-- Where no name holds a newline and no text an empty line, an advertisement, which is sent for every
-- name that does not contain a connector's, arrives with
-- the owner of the name, as far as it is known, the name, and the objects, none announced.
pub parse-send_advertisement :
    (well_known : Map Bytes Bytes) (name : Bytes) (objects : List BusObjectInfo)
    → find name alljoyn_url_suffix 0 ≡ none
    → Lacks newline name
    → Lacks newline (unique_name well_known name)
    → All IsObject objects
    → (send_advertisement well_known name objects >>= parse_advertisement)
      ≡ some (record {
        remote_name = unique_name well_known name;
        advertised_name = name;
        objects = map (received_object []) objects;
      })
unfolding parse_advertisement send_advertisement
parse-send_advertisement well_known name objects f hn hu ho =
    rw
      (
        f,
        after_code-code,
        istringstream-line (unique_name well_known name) _ hu,
        istringstream-line name _ hn,
        parse-write_objects [] objects ho,
      )
      refl
