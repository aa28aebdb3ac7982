-- ===== src/MsgArg/Cuts.antt =====
-- Where the starting tag of an element ends, and its content.
use xmppconn.Base.{
  ℕ, suc, ◌+◌, ◌-◌, ◌<◌, Bool, true, false, Option, none, some, [], ◌∷◌, ◌++◌, Bytes, nat_eq, ltb,
  length, take, ◌≡◌, ◌≢◌, refl, ap, ◌∙◌, arith, All, Lacks, append_assoc, subst, length-append,
  take-append, drop-append, All-append, inl, inr,
}
use xmppconn.MsgArg.{Library, MsgArg, Args}
use xmppconn.MsgArg.Parse.{first_of, last_of, substr_to, form_of, read_form, read_text, ends_name}
use xmppconn.MsgArg.Tags.{NameByte, name-Lacks}
use xmppconn.MsgArg.Passes.{IsAttributes, Attributes-Lacks}
use xmppconn.MsgArg.Valid.{IsBlank, IsTrimmed, LastInk, LastInk-append}

pub length_of : (xs ys : Bytes) → length (xs ++ ys) ≡ length xs + length ys
length_of = length-append

pub first_of-at :
    (p : ℕ → Bool) (t : Bytes) (c : ℕ) (s : Bytes) (pos : ℕ)
    → All (λ b. p b ≡ false) t
    → p c ≡ true
    → first_of p (t ++ c ∷ s) pos ≡ some (pos + length t)
unfolding first_of
first_of-at p [] c s pos ht hc = rw hc (ap some (omega arith))
first_of-at p (b ∷ t) c s pos (hb, ht) hc =
    rw hb (first_of-at p t c s (suc pos) ht hc ∙ ap some (omega arith))

last_of-none : (c : ℕ) (s : Bytes) (pos : ℕ) → Lacks c s → last_of c s pos ≡ none
unfolding last_of
last_of-none c [] pos h = refl
last_of-none c (d ∷ s) pos (hd, h) = rw (last_of-none c s (suc pos) h) (ground (arith, hd))

pub last_of-at :
    (c : ℕ) (t s : Bytes) (pos : ℕ) → Lacks c s → last_of c (t ++ c ∷ s) pos ≡ some (pos + length t)
unfolding last_of
last_of-at c [] s pos h =
    let self : nat_eq c c ≡ true = ground arith in
    rw (last_of-none c s (suc pos) h) (rw self (ap some (omega arith)))
last_of-at c (b ∷ t) s pos h = rw (last_of-at c t s (suc pos) h) (ap some (omega arith))

pub not_angle : (t : Bytes) → Lacks b'>' t → All (λ b. nat_eq b'>' b ≡ false) t
not_angle [] h = tt
not_angle (c ∷ t) (hc, h) = (ground (arith, hc), not_angle t h)

blank-Lacks : (c : ℕ) (s : Bytes) → (32 < c) → All IsBlank s → Lacks c s
blank-Lacks c [] h k = tt
blank-Lacks c (b ∷ s) h (inl e, k) = (λ q. absurd (omega (arith, e, q)), blank-Lacks c s h k)
blank-Lacks c (b ∷ s) h (inr e, k) = (λ q. absurd (omega (arith, e, q)), blank-Lacks c s h k)

name_closes : (t : Bytes) → All NameByte t → Lacks b'>' t
name_closes [] h = tt
name_closes (c ∷ t) (hc, h) = (hc.1, name_closes t h)

pub name_goes_on : (t : Bytes) → All NameByte t → All (λ c. ends_name c ≡ false) t
name_goes_on [] h = tt
name_goes_on (c ∷ t) (hc, h) = (ground (arith, hc), name_goes_on t h)

-- The starting tag.
abbrev pub tag_of : Bytes → Bytes → Bytes
tag_of t attributes = b'<' ∷ t ++ (attributes ++ b'>' ∷ [])

pub tag_of-IsTrimmed : (t attributes : Bytes) → IsTrimmed (tag_of t attributes)
tag_of-IsTrimmed t attributes = (
  omega arith,
  subst (λ s. LastInk (b'<' ∷ s)) (append_assoc t attributes (b'>' ∷ []))
      (LastInk-append (b'<' ∷ (t ++ attributes)) b'>' [] (omega arith)),
)

-- The text up to the end of the starting tag.
unfoldable pub head : Bytes → Bytes → Bytes → Bytes
head before t attributes = before ++ (b'<' ∷ t ++ attributes)

pub head-Lacks :
    (before t attributes : Bytes)
    → All IsBlank before
    → All NameByte t
    → IsAttributes attributes
    → Lacks b'>' (head before t attributes)
unfolding head
head-Lacks before t attributes hb ht ha =
    All-append (λ c. c ≢ b'>') before (b'<' ∷ t ++ attributes)
      (blank-Lacks b'>' before (omega arith) hb)
      (
        λ e. absurd (omega (arith, e)),
        All-append (λ c. c ≢ b'>') t attributes (name_closes t ht)
            (Attributes-Lacks attributes ha).1,
      )

pub close-Lacks :
    (t after : Bytes) → All NameByte t → All IsBlank after → Lacks b'<' (b'/' ∷ (t ++ b'>' ∷ after))
close-Lacks t after ht ha = (
  λ e. absurd (omega (arith, e)),
  All-append (λ c. c ≢ b'<') t (b'>' ∷ after) (name-Lacks t ht)
      (λ e. absurd (omega (arith, e)), blank-Lacks b'<' after (omega arith) ha),
)

-- What a reading needs: where the tag ends, and where the content does.
pub record Cut (xml tag content : Bytes) (lib : Library) : Type 0 where
  pub pos : ℕ
  pub end : ℕ
  pub tag_end : first_of (nat_eq b'>') xml 0 ≡ some pos
  pub tag_text : lib.trim (take (suc pos) xml) ≡ tag
  pub content_end : last_of b'<' xml 0 ≡ some end
  pub content_text : substr_to xml (suc pos) (some end) ≡ content

pub read_text-Cut :
    (lib : Library) (vector : Bytes → Option Args) (single : Bytes → Option MsgArg)
    (xml tag content : Bytes)
    → Cut xml tag content lib
    → read_text lib vector single xml ≡ read_form lib vector single (form_of tag) tag content
unfolding read_text
read_text-Cut lib vector single xml tag content c =
    rw (c.tag_end, c.tag_text, c.content_end, c.content_text) refl

pub substr_to-inner :
    (front inner rest : Bytes)
    → substr_to (front ++ (inner ++ rest)) (length front) (some (length front + length inner))
      ≡ inner
unfolding substr_to
substr_to-inner front inner rest =
    let le : ltb (length front + length inner) (length front) ≡ false = ground arith in
    let e : length front + length inner - length front ≡ length inner = omega arith in
    rw (le, e, drop-append front (inner ++ rest)) (take-append inner rest)
