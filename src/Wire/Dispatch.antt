-- ===== src/Wire/Dispatch.antt =====
-- `MessageReceived` of app/XMPPConnector.cpp: which function handles a message.
use xmppconn.Base.{
  ℕ, Option, some, List, [], ◌∷◌, Bytes, newline, nat_eq, nat_eq_iff, bytes_eq, bytes_eq_iff, ◌≡◌,
  ◌⊎◌, ◌↔◌, inl, inr, refl, ap, sym, ◌∙◌, arith, Bool-cases, get_or,
}
use xmppconn.Wire.{◌<<◌}
use xmppconn.Wire.Codes.{
  Kind, code_of, advertisement, advert_lost, announce, method_call, method_reply, signal,
  join_request, join_response, session_joined, session_lost, get_property, get_prop_reply,
  set_property, set_prop_reply, get_all, get_all_reply, name_owner_changed, tested, first_part,
  first_match, kind_of,
}
use xmppconn.Wire.RoundTrip.{kind_of-code}

-- The first line of the text.
abbrev pub StartsWith : Bytes → Bytes → Type 0
StartsWith line message = (message ≡ line) ⊎ ((rest : Bytes) × (message ≡ line << rest))

StartsWith-cons :
    (c : ℕ) (line message : Bytes) → StartsWith line message → StartsWith (c ∷ line) (c ∷ message)
StartsWith-cons c line message (inl e) = inl (ap (◌∷◌ c) e)
StartsWith-cons c line message (inr (rest, e)) = inr (rest, ap (◌∷◌ c) e)

first_part-StartsWith : (message : Bytes) → StartsWith (first_part message) message
unfolding first_part
first_part-StartsWith [] = inl refl
first_part-StartsWith (c ∷ s) = elim (Bool-cases (nat_eq c newline)) [
  | inl e ↦ rw e (inr (s, ap (λ x. x ∷ s) ((nat_eq_iff c newline).0 e)))
  | inr e ↦ rw e (StartsWith-cons c (first_part s) s (first_part-StartsWith s))
]

first_match-code :
    (line : Bytes) (ks : List Kind) (k : Kind) → first_match line ks ≡ some k → line ≡ code_of k
unfolding first_match
first_match-code line [] k h = ground (arith, h)
first_match-code line (x ∷ ks) k h = elim (Bool-cases (bytes_eq line (code_of x))) [
  | inl e ↦
      let same : some x ≡ some k = rw e at h in
      (bytes_eq_iff line (code_of x)).0 e ∙ ap (λ (o : Option Kind). code_of (get_or o x)) same
  | inr e ↦ first_match-code line ks k (rw e at h)
]

kind_of-bare : (k : Kind) → kind_of (code_of k) ≡ some k
unfolding kind_of bytes_eq
kind_of-bare advertisement = refl
kind_of-bare advert_lost = refl
kind_of-bare announce = refl
kind_of-bare method_call = refl
kind_of-bare method_reply = refl
kind_of-bare signal = refl
kind_of-bare join_request = refl
kind_of-bare join_response = refl
kind_of-bare session_joined = refl
kind_of-bare session_lost = refl
kind_of-bare get_property = refl
kind_of-bare get_prop_reply = refl
kind_of-bare set_property = refl
kind_of-bare set_prop_reply = refl
kind_of-bare get_all = refl
kind_of-bare get_all_reply = refl
kind_of-bare name_owner_changed = refl

-- A message goes to the function of a code exactly if that code is its first line, whole, whatever
-- stands behind it.
pub kind_of-StartsWith :
    (k : Kind) (message : Bytes) → (kind_of message ≡ some k) ↔ StartsWith (code_of k) message
unfolding kind_of
kind_of-StartsWith k message = (
  λ h.
      let e = first_match-code (first_part message) tested k h in
      rw (sym e) (first_part-StartsWith message),
  λ s. elim s [ inl e ↦ rw e (kind_of-bare k) | inr (rest, e) ↦ rw e (kind_of-code k rest) ],
)
