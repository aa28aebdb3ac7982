-- ===== src/RemoteBusObject/Replies.antt =====
-- What a remote side replies is what the local caller is answered.
use xmppconn.Base.{
  ℕ, ◌+◌, ◌-◌, ◌*◌, ◌<◌, ◌^◌, true, false, none, some, List, [], ◌∷◌, ◌++◌, Bytes, codes, newline,
  ◌≡◌, ◌≢◌, refl, sym, ap, ◌∙◌, arith, All, Lacks, subst, append-nil, inr, ◌>>=◌, Option, get_or,
  append_assoc,
}
use xmppconn.Text.{starts_with}
use xmppconn.MsgArg.{MsgArg, Args, Library, cons}
use xmppconn.MsgArg.Print.{body, spaces, to_string, to_strings}
use xmppconn.MsgArg.Parse.{from_string, vector_from_string}
use xmppconn.MsgArg.Valid.{Laws, IsValid, AllValid, IsBlank}
use xmppconn.MsgArg.Shape.{body-Shape}
use xmppconn.MsgArg.RoundTrip.{from_string-body, vector_from_string-texts}
use xmppconn.Wire.Decimal.{
  decimal, digits, value, skip_spaces, IsDigit, digits-IsDigit, digits-nonempty, value-digits,
}
use xmppconn.Wire.Send.{
  send_method_reply, send_method_reply_error, send_get_reply, send_get_reply_error, send_set_reply,
  send_get_all_reply, send_get_all_reply_error,
}
use xmppconn.Wire.Receive.Calls.{
  ReplyText, parse_method_reply, parse_get_reply, parse_get_all_reply, parse_set_reply,
}
use xmppconn.Wire.RoundTrip.Calls.{parse-send_replies, reply_text}
use xmppconn.RemoteBusObject
use xmppconn.RemoteBusObject.{
  Reply, Answer, result, failure, transaction, answer, extract, extract_sign, extract_digits,
  uint32_max, status_of, unwrap, reply_necessary, get, get_all_props, get_answer, get_all_answer,
  method_answer, set_answer, alljoyn_method_handler, set, er_fail,
}

value-line : (acc : ℕ) (s : Bytes) → All IsDigit s → value acc (s ++ newline ∷ []) ≡ value acc s
unfolding value
value-line acc [] h = refl
value-line acc (c ∷ s) (hc, h) = ground (arith, value-line (acc * 10 + (c - 48)) s h)

extract-digits :
    (s rest : Bytes) (n : ℕ)
    → All IsDigit s
    → s ≢ []
    → value 0 (s ++ rest) ≡ n
    → n < 2 ^ 32
    → extract (s ++ rest) ≡ some n
unfolding extract extract_sign extract_digits uint32_max skip_spaces
extract-digits [] rest n h k e l = absurd (k refl)
extract-digits (c ∷ s) rest n (hc, h) k e l = ground (arith, hc, e, l)

-- A status is read back from the text of an error reply, with its newline and without.
status_of-decimal :
    (n : ℕ) → n < 2 ^ 32 → (status_of (decimal n ++ newline ∷ []) ≡ n) × (status_of (decimal n) ≡ n)
unfolding status_of decimal
status_of-decimal n h =
    let s = digits n n in
    let ds = digits-IsDigit n n in
    let e : value 0 s ≡ n = value-digits n n (omega arith) in
    (
      ap (λ o. get_or o er_fail)
          (extract-digits s (newline ∷ []) n ds (digits-nonempty n n) (value-line 0 s ds ∙ e) h),
      ap (λ o. get_or o er_fail)
          (ap extract (sym (append-nil s))
            ∙ extract-digits s [] n ds (digits-nonempty n n) (ap (value 0) (append-nil s) ∙ e) h),
    )

-- Where a text is one that begins with an element, it is taken as a value.
answer-value {ℓ} :
    {A : Type ℓ} (read : Bytes → Option A) (s : Bytes) (a : A)
    → starts_with (codes "<") s ≡ true
    → read s ≡ some a
    → answer read (some s) ≡ some (result a)
unfolding answer
answer-value read s a h e = rw (h, e) refl

-- A status is taken as a failure.
answer-status {ℓ} :
    {A : Type ℓ} (read : Bytes → Option A) (s : Bytes)
    → starts_with (codes "<") s ≡ false
    → answer read (some s) ≡ some (failure (status_of s))
unfolding answer
answer-status read s h = rw h refl

starts-element : (t rest : Bytes) → starts_with (codes "<") (b'<' ∷ t ++ rest) ≡ true
unfolding starts_with
starts-element t rest = refl

starts-digits :
    (s rest : Bytes) → All IsDigit s → s ≢ [] → starts_with (codes "<") (s ++ rest) ≡ false
unfolding starts_with
starts-digits [] rest h k = absurd (k refl)
starts-digits (c ∷ s) rest (hc, h) k = ground (arith, hc)

starts-decimal : (n : ℕ) (rest : Bytes) → starts_with (codes "<") (decimal n ++ rest) ≡ false
unfolding decimal
starts-decimal n rest = starts-digits (digits n n) rest (digits-IsDigit n n) (digits-nonempty n n)

module _ (lib : Library) (laws : Laws lib) where
  starts-body :
      (a : MsgArg) (h : IsValid lib a) (rest : Bytes)
      → starts_with (codes "<") (body lib a 0 ++ rest) ≡ true
  starts-body a h rest =
      let s = body-Shape lib laws a h 0 in
      subst (λ x. starts_with (codes "<") (x ++ rest) ≡ true) (sym s.is_element)
        (starts-element _ rest)

  starts-strings :
      (a : MsgArg) (args : Args) (h : IsValid lib a) (rest : Bytes)
      → starts_with (codes "<") (to_strings lib (cons a args) 0 ++ rest) ≡ true
  unfolding to_strings spaces
  starts-strings a args h rest =
      ap (starts_with (codes "<"))
        (append_assoc (body lib a 0) (newline ∷ to_strings lib args 0) rest)
      ∙ starts-body a h (newline ∷ to_strings lib args 0 ++ rest)

-- What the one reply that arrives in the wait gives, where none was there before it.
one_reply :
    (r : Reply) (s : Bytes)
    → r.reply_received ≡ false
    → transaction r (s ∷ []) ≡ (RemoteBusObject.new, some s)
unfolding transaction RemoteBusObject.new
one_reply r s idle = rw idle refl

pub set-one :
    (r : Reply) (s : Bytes)
    → r.reply_received ≡ false
    → set r (s ∷ []) ≡ (RemoteBusObject.new, status_of s)
unfolding set set_answer
set-one r s idle = ap (λ (x : Reply × Option Bytes). (x.0, set_answer x.1)) (one_reply r s idle)

-- What the wait for one reply gives, where the reply comes in the message.
abbrev pub over {ℓ} :
    {A : Type ℓ}
    → (Bytes → Option ReplyText)
    → (Reply → List Bytes → Option A)
    → Reply
    → Bytes
    → Option A
over parse call r message = parse message >>= λ t. call r (t.text ∷ [])

module _ (lib : Library) where
  call_get :
      (r : Reply) (s : Bytes) (a : MsgArg)
      → r.reply_received ≡ false
      → starts_with (codes "<") s ≡ true
      → from_string lib s ≡ some a
      → get lib r (s ∷ []) ≡ some (RemoteBusObject.new, result (unwrap a))
  unfolding get get_answer
  call_get r s a idle h e =
      ap (get_answer lib) (one_reply r s idle)
      ∙ rw
          (answer-value (λ t. from_string lib t >>= λ v. some (unwrap v)) s (unwrap a) h
            (rw e refl))
          refl

  call_get_all :
      (r : Reply) (s : Bytes) (a : MsgArg)
      → r.reply_received ≡ false
      → starts_with (codes "<") s ≡ true
      → from_string lib s ≡ some a
      → get_all_props lib r (s ∷ []) ≡ some (RemoteBusObject.new, result a)
  unfolding get_all_props get_all_answer
  call_get_all r s a idle h e =
      ap (get_all_answer lib) (one_reply r s idle)
      ∙ rw (answer-value (from_string lib) s a h e) refl

  call_method :
      (r : Reply) (s : Bytes) (args : Args)
      → r.reply_received ≡ false
      → starts_with (codes "<") s ≡ true
      → vector_from_string lib s ≡ some args
      → alljoyn_method_handler lib r none (s ∷ []) ≡ some (RemoteBusObject.new, some (result args))
  unfolding alljoyn_method_handler method_answer reply_necessary
  call_method r s args idle h e =
      ap (method_answer lib) (one_reply r s idle)
      ∙ rw (answer-value (vector_from_string lib) s args h e) refl

  call-status :
      (r : Reply) (s : Bytes)
      → r.reply_received ≡ false
      → starts_with (codes "<") s ≡ false
      → (get lib r (s ∷ []) ≡ some (RemoteBusObject.new, failure (status_of s)))
        × (get_all_props lib r (s ∷ []) ≡ some (RemoteBusObject.new, failure (status_of s)))
        × (alljoyn_method_handler lib r none (s ∷ [])
            ≡ some (RemoteBusObject.new, some (failure (status_of s))))
  unfolding get get_answer get_all_props get_all_answer alljoyn_method_handler method_answer
      reply_necessary
  call-status r s idle h = (
    ap (get_answer lib) (one_reply r s idle)
        ∙ rw (answer-status (λ t. from_string lib t >>= λ v. some (unwrap v)) s h) refl,
    ap (get_all_answer lib) (one_reply r s idle) ∙ rw (answer-status (from_string lib) s h) refl,
    ap (method_answer lib) (one_reply r s idle)
        ∙ rw (answer-status (vector_from_string lib) s h) refl,
  )

over-parse {ℓ} :
    {A : Type ℓ} (parse : Bytes → Option ReplyText) (call : Reply → List Bytes → Option A)
    (r : Reply) (message name path text : Bytes)
    → parse message ≡ some (reply_text name path text)
    → over parse call r message ≡ call r (text ∷ [])
over-parse parse call r message name path text e = rw e refl

newline-IsBlank : All IsBlank (newline ∷ [])
newline-IsBlank = (inr refl, tt)

-- The arguments that the other side replies to a get request, a get-all request and a method call are
-- what the local caller is answered, out of a variant for a get request, and the reply object then is as
-- new. This is where no reply of an earlier call is left, the reply comes within the wait, the names
-- hold no newline, the arguments are such as come back from their text, a method replies at least one, and no
-- annotation is on the method.
pub arguments-Arrive :
    (lib : Library) (r : Reply) (name path : Bytes) (a x : MsgArg) (args : Args)
    → r.reply_received ≡ false
    → Laws lib
    → Lacks newline name
    → Lacks newline path
    → IsValid lib a
    → AllValid lib (cons x args)
    → (over parse_get_reply (get lib) r (send_get_reply name path (to_string lib a 0))
        ≡ some (RemoteBusObject.new, result (unwrap a)))
      × (over parse_get_all_reply
            (get_all_props lib)
            r
            (send_get_all_reply name path (to_string lib a 0))
          ≡ some (RemoteBusObject.new, result a))
      × (over parse_method_reply
            (λ r. alljoyn_method_handler lib r none)
            r
            (send_method_reply name path (to_strings lib (cons x args) 0))
          ≡ some (RemoteBusObject.new, some (result (cons x args))))
unfolding to_string spaces AllValid
arguments-Arrive lib r name path a x args idle laws hn hp h hs =
    let line = newline ∷ [] in
    let one = body lib a 0 in
    let all = to_strings lib (cons x args) 0 in
    let (_, _, get_p, _, get_all_p, _, _) = parse-send_replies name path one 0 hn hp in
    let (method_p, _, _, _, _, _, _) = parse-send_replies name path all 0 hn hp in
    let read = from_string-body lib laws a 0 [] line h tt newline-IsBlank in
    let ink = starts-body lib laws a h line in
    (
      over-parse parse_get_reply (get lib) r (send_get_reply name path one) name path (one ++ line)
            get_p
          ∙ call_get lib r (one ++ line) a idle ink read,
      over-parse parse_get_all_reply (get_all_props lib) r (send_get_all_reply name path one) name
            path (one ++ line) get_all_p
          ∙ call_get_all lib r (one ++ line) a idle ink read,
      over-parse parse_method_reply (λ r. alljoyn_method_handler lib r none) r
            (send_method_reply name path all) name path (all ++ line) method_p
          ∙ call_method lib r (all ++ line) (cons x args) idle
              (starts-strings lib laws x args hs.0 line)
              (vector_from_string-texts lib laws (cons x args) 0 [] line hs tt newline-IsBlank),
    )

-- A status below 2^32 that the other side replies to a get, a get-all or a set request or to a method
-- call is the status that the local caller is answered, and the reply object then is as new. This is
-- where no reply of an earlier call is left, the reply comes within the wait, the names hold no
-- newline, and no annotation is on the method.
pub status-Arrives :
    (lib : Library) (r : Reply) (name path : Bytes) (status : ℕ)
    → r.reply_received ≡ false
    → Lacks newline name
    → Lacks newline path
    → status < 2 ^ 32
    → (over parse_get_reply (get lib) r (send_get_reply_error name path status)
        ≡ some (RemoteBusObject.new, failure status))
      × (over parse_get_all_reply (get_all_props lib) r (send_get_all_reply_error name path status)
          ≡ some (RemoteBusObject.new, failure status))
      × (over parse_method_reply
            (λ r. alljoyn_method_handler lib r none)
            r
            (send_method_reply_error name path status)
          ≡ some (RemoteBusObject.new, some (failure status)))
      × (over parse_set_reply (λ r ss. some (set r ss)) r (send_set_reply name path status)
          ≡ some (RemoteBusObject.new, status))
status-Arrives lib r name path status idle hn hp h =
    let line = newline ∷ [] in
    let s = decimal status in
    let (_, method_p, _, get_p, _, get_all_p, set_p) =
      parse-send_replies name path [] status hn hp in
    let (e, e') = status_of-decimal status h in
    let (get_e, get_all_e, method_e) =
      call-status lib r (s ++ line) idle (starts-decimal status line) in
    (
      over-parse parse_get_reply (get lib) r (send_get_reply_error name path status) name path
            (s ++ line) get_p
          ∙ get_e
          ∙ ap (λ n. some (RemoteBusObject.new, failure n)) e,
      over-parse parse_get_all_reply (get_all_props lib) r
            (send_get_all_reply_error name path status) name path (s ++ line) get_all_p
          ∙ get_all_e
          ∙ ap (λ n. some (RemoteBusObject.new, failure n)) e,
      over-parse parse_method_reply (λ r. alljoyn_method_handler lib r none) r
            (send_method_reply_error name path status) name path (s ++ line) method_p
          ∙ method_e
          ∙ ap (λ n. some (RemoteBusObject.new, some (failure n))) e,
      over-parse parse_set_reply (λ r ss. some (set r ss)) r (send_set_reply name path status) name
            path s set_p
          ∙ ap some (set-one r s idle)
          ∙ ap (λ n. some (RemoteBusObject.new, n)) e',
    )
