-- ===== src/RemoteBusObject/Late.antt =====
-- What a call of the local bus is answered after a late reply, and where one with no arguments comes.
use xmppconn.Base.{
  ℕ, false, map, take, length, ap, ◌∙◌, List, Bytes, codes, newline, [], ◌∷◌, some, none, ◌≡◌, refl,
  ◌++◌, bytes_eq,
}
use xmppconn.Text.{starts_with}
use xmppconn.MsgArg.{Library, nil}
use xmppconn.MsgArg.Print.{to_strings}
use xmppconn.RemoteBusObject
use xmppconn.RemoteBusObject.Replies.{set-one}
use xmppconn.RemoteBusObject.{
  Reply, set_reply, get, get_all_props, alljoyn_method_handler, set, failure, er_fail, transaction,
  status_of, reply_necessary, set_answer,
}

-- The statuses that a sequence of calls of `Set` is answered, to each of which the remote side sends its
-- reply in time.
abbrev pub statuses : Reply → List Bytes → List ℕ
statuses r [] = []
statuses r (s ∷ ss) = let (r', status) = set r (s ∷ []) in status ∷ statuses r' ss

-- A reply that is there already is answered, and the one that is sent stays.
set-late :
    (r : Reply) (s next : Bytes)
    → set (set_reply r s) (next ∷ []) ≡ (set_reply RemoteBusObject.new next, status_of s)
unfolding set set_answer transaction set_reply RemoteBusObject.new
set-late r s next = refl

statuses-idle :
    (r : Reply) (ss : List Bytes) → r.reply_received ≡ false → statuses r ss ≡ map status_of ss
statuses-idle r [] idle = refl
statuses-idle r (s ∷ ss) idle =
    ap (λ (x : Reply × ℕ). x.1 ∷ statuses x.0 ss) (set-one r s idle)
    ∙ ap (λ rest. status_of s ∷ rest)
        (statuses-idle RemoteBusObject.new ss (unfold RemoteBusObject.new in refl))

statuses-late :
    (r : Reply) (s : Bytes) (ss : List Bytes)
    → statuses (set_reply r s) ss ≡ map status_of (take (length ss) (s ∷ ss))
statuses-late r s [] = refl
statuses-late r s (next ∷ ss) =
    ap (λ (x : Reply × ℕ). x.1 ∷ statuses x.0 ss) (set-late r s next)
    ∙ ap (λ rest. status_of s ∷ rest) (statuses-late RemoteBusObject.new next ss)

-- One reply that comes only after the wait of its call shifts the answers of all calls that follow,
-- though each of these has its own reply in time: each is answered the status of the call before it,
-- the first one that of the late reply. Without the late reply each is answered its own.
pub late_reply-Shifts :
    (r : Reply) (late : Bytes) (ss : List Bytes)
    → r.reply_received ≡ false
    → (statuses (set_reply (set r []).0 late) ss ≡ map status_of (take (length ss) (late ∷ ss)))
      × (statuses r ss ≡ map status_of ss)
late_reply-Shifts r late ss idle = (statuses-late (set r []).0 late ss, statuses-idle r ss idle)

-- A method call whose reply has no arguments is answered a failure, and so is any that no reply comes
-- for; one that is annotated to need no reply waits for one, and one annotated to need it does not.
pub no_arguments-Fails :
    (lib : Library) (r : Reply) (arrived : List Bytes)
    → r.reply_received ≡ false
    → (alljoyn_method_handler lib r none ((to_strings lib nil 0 ++ newline ∷ []) ∷ [])
        ≡ some (RemoteBusObject.new, some (failure er_fail)))
      × (alljoyn_method_handler lib r (some (codes "True")) arrived
          ≡ alljoyn_method_handler lib r none arrived)
      × (alljoyn_method_handler lib r (some (codes "false")) arrived ≡ some (r, none))
unfolding alljoyn_method_handler reply_necessary to_strings status_of RemoteBusObject.new
    transaction starts_with bytes_eq
no_arguments-Fails lib r arrived idle = (rw idle refl, refl, refl)
