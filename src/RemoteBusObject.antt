-- ===== src/RemoteBusObject.antt =====
-- app/RemoteBusObject.cpp, app/Reply.cpp and app/ScopedTransactionLocker.cpp: a call of the local bus
-- waits for the answer of the remote side, and is replied to from it. A transaction is the time that
-- its locker lives; `arrived` are the replies that the other thread sets before the wait is over.
pub mod Replies
pub mod Late
use xmppconn.Base.{
  ℕ, zero, suc, ◌+◌, ◌-◌, ◌*◌, ◌%◌, ◌^◌, Bool, true, false, ◌&&◌, ◌||◌, Option, none, some, List,
  [], ◌∷◌, Bytes, codes, nat_eq, leb, bytes_eq, if◌then◌else◌, ◌>>=◌, get_or,
}
use xmppconn.Text.{starts_with}
use xmppconn.MsgArg.{MsgArg, Args, Library, invalid, variant}
use xmppconn.MsgArg.Parse.{from_string, vector_from_string}
use xmppconn.Wire.Decimal.{value, is_digit, skip_spaces}

pub record Reply : Type 0 where
  pub reply_received : Bool
  pub reply_str : Bytes

unfoldable pub new : Reply
new = record { reply_received = false; reply_str = [] }

unfoldable pub set_reply : Reply → Bytes → Reply
set_reply r s = record { reply_received = true; reply_str = s }

unfoldable pub set_replies : Reply → List Bytes → Reply
unfolding set_reply
set_replies r [] = r
set_replies r (s ∷ ss) = set_replies (set_reply r s) ss

-- `ReceiveReply` behind its wait, which ends with a reply or the time: what it passes on, and the
-- reply is reset.
unfoldable pub receive_reply : Reply → Reply × Option Bytes
receive_reply r = (
  record { reply_received = false; reply_str = [] },
  if r.reply_received then some r.reply_str else none,
)

-- From the lock to the unlock, with the calls of `SetReply` that are made from when the lock is taken. A
-- reply that is there already ends the wait before it begins, and then the mutex is not released, so
-- those calls are held up until the unlock.
unfoldable pub transaction : Reply → List Bytes → Reply × Option Bytes
unfolding receive_reply set_replies
transaction r arrived =
    let (held, early) = receive_reply r in
    let waited = receive_reply (set_replies r arrived) in
    if r.reply_received then (set_replies held arrived, early) else waited

abbrev pub er_ok : ℕ
er_ok = 0

abbrev pub er_fail : ℕ
er_fail = 1

uint32_max : ℕ
uint32_max = 2 ^ 32 - 1

-- The digits that a number starts with, negated or not; none sets the failbit.
extract_digits : Bool → Bytes → Option ℕ
unfolding uint32_max value
extract_digits minus [] = none
extract_digits minus (c ∷ s) =
    let n = value 0 (c ∷ s) in
    if is_digit c && leb n uint32_max
    then some (if minus then (2 ^ 32 - n) % 2 ^ 32 else n)
    else none

extract_sign : Bytes → Option ℕ
unfolding extract_digits
extract_sign [] = none
extract_sign (c ∷ s) =
    if nat_eq c b'-'
    then extract_digits true s
    else if nat_eq c b'+'
    then extract_digits false s
    else extract_digits false (c ∷ s)

-- `ss >> status` for a `uint32_t`.
unfoldable pub extract : Bytes → Option ℕ
unfolding extract_sign skip_spaces
extract s = extract_sign (skip_spaces s)

-- The status of a reply that is no argument; a text that is no number is a failure.
unfoldable pub status_of : Bytes → ℕ
unfolding extract
status_of s = get_or (extract s) er_fail

-- What the local caller is answered: a value, or a status.
pub data Answer {ℓ} (A : Type ℓ) : Type ℓ where
  result : A → Answer A
  failure : ℕ → Answer A

-- The three callers that take an argument for an answer, by how they read it.
unfoldable pub answer {ℓ} : {A : Type ℓ} → (Bytes → Option A) → Option Bytes → Option (Answer A)
unfolding status_of
answer read none = some (failure er_fail)
answer read (some s) =
    if starts_with (codes "<") s
    then (do a ← read s; some (result a))
    else some (failure (status_of s))

abbrev pub unwrap : MsgArg → MsgArg
unwrap (variant a) = a
unwrap a = a

to_lower : ℕ → ℕ
to_lower c = if leb b'A' c && leb c b'Z' then c + 32 else c

lower : Bytes → Bytes
unfolding to_lower
lower [] = []
lower (c ∷ s) = to_lower c ∷ lower s

-- Whether the handler waits, by the member's annotation `NoReply`.
unfoldable pub reply_necessary : Option Bytes → Bool
unfolding lower
reply_necessary none = true
reply_necessary (some annotation) = bytes_eq (codes "true") (lower annotation)

module _ (lib : Library) where
  unfoldable pub get_answer : Reply × Option Bytes → Option (Reply × Answer MsgArg)
  unfolding answer
  get_answer (r, reply) = do
    a ← answer (λ s. from_string lib s >>= λ v. some (unwrap v)) reply
    some (r, a)

  unfoldable pub get : Reply → List Bytes → Option (Reply × Answer MsgArg)
  unfolding transaction get_answer
  get r arrived = get_answer (transaction r arrived)

  unfoldable pub get_all_answer : Reply × Option Bytes → Option (Reply × Answer MsgArg)
  unfolding answer
  get_all_answer (r, reply) = do a ← answer (from_string lib) reply; some (r, a)

  unfoldable pub get_all_props : Reply → List Bytes → Option (Reply × Answer MsgArg)
  unfolding transaction get_all_answer
  get_all_props r arrived = get_all_answer (transaction r arrived)

  unfoldable pub method_answer : Reply × Option Bytes → Option (Reply × Option (Answer Args))
  unfolding answer
  method_answer (r, reply) = do a ← answer (vector_from_string lib) reply; some (r, some a)

  -- `AllJoynMethodHandler`; where no reply is awaited none is given.
  unfoldable pub alljoyn_method_handler :
      Reply → Option Bytes → List Bytes → Option (Reply × Option (Answer Args))
  unfolding reply_necessary transaction method_answer
  alljoyn_method_handler r annotation arrived =
      if reply_necessary annotation then method_answer (transaction r arrived) else some (r, none)

unfoldable pub set_answer : Option Bytes → ℕ
unfolding status_of
set_answer none = er_fail
set_answer (some s) = status_of s

unfoldable pub set : Reply → List Bytes → Reply × ℕ
unfolding transaction set_answer
set r arrived = let (r', reply) = transaction r arrived in (r', set_answer reply)
