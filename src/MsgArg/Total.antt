-- ===== src/MsgArg/Total.antt =====
-- Reading an argument ends, whatever the text is.
use xmppconn.Base.{
  ℕ, zero, suc, ◌+◌, ◌-◌, ◌*◌, ◌≤◌, ◌<◌, Bool, Option, none, some, [], ◌∷◌, Bytes, nat_eq, ltb,
  length, take, drop, ◌≡◌, refl, arith, ◌>>=◌, Total, bind-Total, if_rule, Option-cases, inl, inr,
}
use xmppconn.MsgArg.{MsgArg, Args, Library, nil, cons, invalid}
use xmppconn.MsgArg.Print.{close_tag}
use xmppconn.MsgArg.Parse.{
  Close, missing, exhausted, found, Form, typed_array, entry, structure, packed, descriptor,
  unknown, one, phrase, many, next_round, close_from, first_of, last_of, substr_to, form_of,
  read_form, read_text, read_element, split_element, ends_name, behind, from_text, elements,
  from_string, vector_from_string,
}
use xmppconn.MsgArg.Tags.{AtLeast, find_at-AtLeast}

length-drop : (n : ℕ) (s : Bytes) → length (drop n s) ≤ length s - n
length-drop zero s = omega arith
length-drop (suc n) [] = omega arith
length-drop (suc n) (c ∷ s) = omega (arith, length-drop n s)

length-take : (n : ℕ) (s : Bytes) → length (take n s) ≤ length s
length-take zero s = omega arith
length-take (suc n) [] = omega arith
length-take (suc n) (c ∷ s) = omega (arith, length-take n s)

Ends : Close → Type 0
Ends missing = Unit
Ends exhausted = ⊥
Ends (found at) = Unit

next_round-Ends :
    (go : ℕ → Bytes → ℕ → ℕ → Close) (prefix close : Bytes) (d c : ℕ) (s : Bytes) (cur at : ℕ)
    (o p : Option ℕ)
    → 0 < length prefix
    → 0 < length close
    → AtLeast cur o
    → AtLeast cur p
    → ((d' : ℕ) (s' : Bytes) (cur' at' : ℕ) → length s' ≤ length s → Ends (go d' s' cur' at'))
    → Ends (next_round go prefix close d (c ∷ s) cur at o p)
unfolding next_round Ends
next_round-Ends go prefix close d c s cur at none p hp hc ho hq more = tt
next_round-Ends go prefix close d c s cur at (some n) none hp hc ho hq more =
    more d _ _ _ (omega (arith, length-drop (n + length close - cur) (c ∷ s)))
next_round-Ends go prefix close d c s cur at (some n) (some m) hp hc ho hq more =
    if_rule Ends (ltb m n) _ _
      (more (suc (suc d)) _ _ _ (omega (arith, length-drop (m + length prefix - cur) (c ∷ s))))
      (more d _ _ _ (omega (arith, length-drop (n + length close - cur) (c ∷ s))))

close_from-Ends :
    (f : ℕ) (prefix close : Bytes) (depth : ℕ) (s : Bytes) (cur at : ℕ)
    → 0 < length prefix
    → 0 < length close
    → length s < f
    → Ends (close_from f prefix close depth s cur at)
unfolding close_from Ends
close_from-Ends zero prefix close depth s cur at hp hc h = elim h [ ]
close_from-Ends (suc f) prefix close zero s cur at hp hc h = tt
close_from-Ends (suc f) prefix close (suc d) [] cur at hp hc h = tt
close_from-Ends (suc f) prefix close (suc d) (c ∷ s) cur at hp hc h =
    next_round-Ends (close_from f prefix close) prefix close d c s cur at _ _ hp hc
      (find_at-AtLeast close (c ∷ s) cur) (find_at-AtLeast prefix (c ∷ s) cur)
      (λ d' s' cur' at' le. close_from-Ends f prefix close d' s' cur' at' hp hc (omega (arith, h)))

-- Both readings return on shorter texts.
module _ (read : Bytes → Option MsgArg) (more : Bytes → Option Args) (n : ℕ)
    (reads : (s : Bytes) → length s ≤ n → Total (read s))
    (goes_on : (s : Bytes) → length s < n → Total (more s)) where
  split_element-Total :
      (content close : Bytes) (r : Close)
      → length content ≤ n
      → 0 < length content
      → 0 < length close
      → Ends r
      → Total (split_element read more content close r)
  unfolding split_element Ends
  split_element-Total content close missing h k l e = (nil, refl)
  split_element-Total content close exhausted h k l e = absurd e
  split_element-Total content close (found at) h k l e =
      let cut = at + length close in
      bind-Total (read (take cut content))
        (λ a. more (drop cut content) >>= λ args. some (cons a args))
        (reads (take cut content) (omega (arith, length-take cut content)))
        (λ a.
          bind-Total (more (drop cut content)) (λ args. some (cons a args))
            (goes_on (drop cut content) (omega (arith, length-drop cut content)))
            (λ args. (cons a args, refl)))

  read_element-Total :
      (content : Bytes)
      → length content ≤ n
      → 0 < length content
      → Total (read_element read more content)
  unfolding read_element
  read_element-Total content h k =
      let begin = behind (first_of (nat_eq b'<') content 0) in
      elim (Option-cases (first_of ends_name (drop begin content) begin)) [
        | inl e ↦ rw e (nil, refl)
        | inr (end, e) ↦
            let name = substr_to content begin (some end) in
            rw e (
              split_element-Total content (close_tag name) _ h k (omega arith) (
                close_from-Ends (suc (length content)) (b'<' ∷ name) (close_tag name) 1
                  (drop end content) end end (omega arith) (omega arith)
                  (omega (arith, length-drop end content))))
      ]

substr_to-le : (s : Bytes) (pos : ℕ) (o : Option ℕ) → length (substr_to s pos o) ≤ length s - pos
unfolding substr_to
substr_to-le s pos none = length-drop pos s
substr_to-le s pos (some end) =
    if_rule (λ x. length x ≤ length s - pos) (ltb end pos) (drop pos s)
      (take (end - pos) (drop pos s)) (length-drop pos s)
      (omega (arith, length-drop pos s, length-take (end - pos) (drop pos s)))

trim-nil : (s : Bytes) → length s ≤ 0 → s ≡ []
trim-nil [] h = refl
trim-nil (c ∷ s) h = absurd (omega (arith, h))

first_of-lt :
    (p : ℕ → Bool) (s : Bytes) (pos n : ℕ) → first_of p s pos ≡ some n → n < pos + length s
unfolding first_of
first_of-lt p [] pos n h = absurd (ground (arith, h))
first_of-lt p (c ∷ s) pos n h = ground (arith, h, first_of-lt p s (suc pos) n)

module _ (lib : Library) (shortens : (s : Bytes) → length (lib.trim s) ≤ length s) where
  read_form-Total :
      (vector : Bytes → Option Args) (single : Bytes → Option MsgArg) (form : Form)
      (tag content : Bytes)
      → Total (vector content)
      → Total (single content)
      → Total (read_form lib vector single form tag content)
  unfolding read_form
  read_form-Total vector single typed_array tag content hv hs =
      bind-Total (vector content) _ hv (λ a. (_, refl))
  read_form-Total vector single entry tag content hv hs =
      bind-Total (vector content) _ hv (λ a. (_, refl))
  read_form-Total vector single structure tag content hv hs =
      bind-Total (vector content) _ hv (λ a. (_, refl))
  read_form-Total vector single packed tag content hv hs =
      bind-Total (single content) _ hs (λ a. (_, refl))
  read_form-Total vector single descriptor tag content hv hs = (_, refl)
  read_form-Total vector single (one kind) tag content hv hs = (_, refl)
  read_form-Total vector single (phrase kind) tag content hv hs = (_, refl)
  read_form-Total vector single (many kind) tag content hv hs = (_, refl)
  read_form-Total vector single unknown tag content hv hs = (_, refl)

  read_text-Total :
      (vector : Bytes → Option Args) (single : Bytes → Option MsgArg) (xml : Bytes)
      → ((s : Bytes) → length s < length xml → Total (vector s))
      → ((s : Bytes) → length s < length xml → Total (single s))
      → Total (read_text lib vector single xml)
  unfolding read_text
  read_text-Total vector single xml hv hs = elim (Option-cases (first_of (nat_eq b'>') xml 0)) [
    | inl e ↦
        let empty : lib.trim [] ≡ [] = trim-nil (lib.trim []) (shortens []) in
        rw (e, empty) (unfold form_of in unfold read_form in (invalid, refl))
    | inr (p, e) ↦
        let content = substr_to xml (suc p) (last_of b'<' xml 0) in
        let shorter : length content < length xml = omega (
          arith,
          substr_to-le xml (suc p) (last_of b'<' xml 0),
          first_of-lt (nat_eq b'>') xml 0 p e,
        ) in
        rw e (
          read_form-Total vector single (form_of (lib.trim (take (suc p) xml)))
            (lib.trim (take (suc p) xml)) content (hv content shorter) (hs content shorter))
  ]

  mutual
    unfolding from_text elements

    from_text-Total : (f : ℕ) (xml : Bytes) → 2 * length xml + 1 ≤ f → Total (from_text lib f xml)
    from_text-Total zero xml h = absurd (omega (arith, h))
    from_text-Total (suc f) xml h =
        read_text-Total (λ s. elements lib f (lib.trim s)) (from_text lib f) xml
          (λ s lt. elements-Total f (lib.trim s) (omega (arith, h, lt, shortens s)))
          (λ s lt. from_text-Total f s (omega (arith, h, lt)))

    elements-Total :
        (f : ℕ) (content : Bytes) → 2 * length content + 2 ≤ f → Total (elements lib f content)
    elements-Total zero content h = absurd (omega (arith, h))
    elements-Total (suc f) [] h = (nil, refl)
    elements-Total (suc f) (c ∷ s) h =
        read_element-Total (from_text lib f) (λ r. elements lib f (lib.trim r)) (suc (length s))
          (λ r le. from_text-Total f r (omega (arith, h, le)))
          (λ r lt. elements-Total f (lib.trim r) (omega (arith, h, lt, shortens r))) (c ∷ s)
          (omega arith) (omega arith)

-- Whatever the text is, well formed or not, both readings end with a result, if the library's trim
-- makes no text longer: every loop and every recursion moves on in the text.
pub from_string-Total :
    (lib : Library) (s : Bytes)
    → ((t : Bytes) → length (lib.trim t) ≤ length t)
    → Total (from_string lib s) × Total (vector_from_string lib s)
unfolding from_string vector_from_string
from_string-Total lib s shortens = (
  from_text-Total lib shortens (2 * length s + 2) s (omega arith),
  elements-Total lib shortens (2 * length s + 2) (lib.trim s) (omega (arith, shortens s)),
)
