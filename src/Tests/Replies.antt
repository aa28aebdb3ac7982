-- ===== src/Tests/Replies.antt =====
-- Replies that reach the local caller.
use xmppconn.Base.{
  false, List, map, take, length, refl, none, some, [], ◌∷◌, Bytes, codes, ◌≡◌, arith,
}
use xmppconn.MsgArg.{nil, cons}
use xmppconn.MsgArg.Print.{to_string, to_strings}
use xmppconn.MsgArg.Valid.{AllValid}
use xmppconn.RemoteBusObject
use xmppconn.RemoteBusObject.{
  status_of, Reply, set_reply, result, failure, transaction, unwrap, get, get_all_props,
  alljoyn_method_handler, set, er_fail,
}
use xmppconn.RemoteBusObject.Replies.{over, arguments-Arrive, status-Arrives}
use xmppconn.RemoteBusObject.Late.{statuses, late_reply-Shifts}
use xmppconn.Tests.MsgArg.{sample_lib, sample-Laws, pair, pair-IsValid}
use xmppconn.Wire.Receive.Calls.{
  parse_method_reply, parse_get_reply, parse_get_all_reply, parse_set_reply,
}
use xmppconn.Wire.Send.{
  send_method_reply, send_method_reply_error, send_get_reply, send_get_reply_error, send_set_reply,
  send_get_all_reply, send_get_all_reply_error,
}

abbrev name : Bytes
name = codes ":1.7"

abbrev path : Bytes
path = codes "/lamp"

-- A reply object that no reply is left in.
abbrev idle : Reply
idle = record { reply_received = false; reply_str = codes "old" }

pairs-AllValid : AllValid sample_lib (cons pair (cons pair nil))
unfolding AllValid
pairs-AllValid = (pair-IsValid, (pair-IsValid, tt))

arguments-Arrive_example :
    (over parse_get_reply
        (get sample_lib)
        idle
        (send_get_reply name path (to_string sample_lib pair 0))
      ≡ some (RemoteBusObject.new, result (unwrap pair)))
    × (over parse_get_all_reply
          (get_all_props sample_lib)
          idle
          (send_get_all_reply name path (to_string sample_lib pair 0))
        ≡ some (RemoteBusObject.new, result pair))
    × (over parse_method_reply
          (λ r. alljoyn_method_handler sample_lib r none)
          idle
          (send_method_reply name path (to_strings sample_lib (cons pair (cons pair nil)) 0))
        ≡ some (RemoteBusObject.new, some (result (cons pair (cons pair nil)))))
arguments-Arrive_example =
    arguments-Arrive sample_lib idle name path pair pair (cons pair nil) refl sample-Laws
      (ground arith) (ground arith) pair-IsValid pairs-AllValid

status-Arrives_example :
    (over parse_get_reply (get sample_lib) idle (send_get_reply_error name path 9)
      ≡ some (RemoteBusObject.new, failure 9))
    × (over parse_get_all_reply
          (get_all_props sample_lib)
          idle
          (send_get_all_reply_error name path 9)
        ≡ some (RemoteBusObject.new, failure 9))
    × (over parse_method_reply
          (λ r. alljoyn_method_handler sample_lib r none)
          idle
          (send_method_reply_error name path 9)
        ≡ some (RemoteBusObject.new, some (failure 9)))
    × (over parse_set_reply (λ r ss. some (set r ss)) idle (send_set_reply name path 9)
        ≡ some (RemoteBusObject.new, 9))
status-Arrives_example =
    status-Arrives sample_lib idle name path 9 refl (ground arith) (ground arith) (omega arith)

abbrev sent : List Bytes
sent = codes "0" ∷ codes "4" ∷ []

late_reply-Shifts_example :
    (statuses (set_reply (set idle []).0 (codes "3")) sent
      ≡ map status_of (take (length sent) (codes "3" ∷ sent)))
    × (statuses idle sent ≡ map status_of sent)
late_reply-Shifts_example = late_reply-Shifts idle (codes "3") sent refl
