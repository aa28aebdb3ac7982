-- ===== src/MsgArg/Tags.antt =====
-- The names of tags, and the searches for a tag in a text.
use xmppconn.Base.{
  ℕ, suc, ◌+◌, ◌-◌, ◌≤◌, true, false, Option, none, some, [], ◌∷◌, ◌++◌, Bytes, length, drop, ◌≡◌,
  ◌≢◌, refl, sym, ap, ◌∙◌, arith, All, Lacks, subst, if_rule, All-append, ◌⊎◌, bytes_eq,
}
use xmppconn.Text.{starts_with, find_at}
use xmppconn.MsgArg.Parse.{Close, next_round}

-- A byte of the name of a tag.
abbrev pub NameByte : ℕ → Type 0
NameByte c = (c ≢ b'<') × (c ≢ b'>') × (c ≢ b' ') × (c ≢ b'/')

abbrev pub IsName : Bytes → Type 0
IsName name = (name ≢ []) × All NameByte name

abbrev pub AtLeast : ℕ → Option ℕ → Type 0
AtLeast pos none = Unit
AtLeast pos (some n) = pos ≤ n

AtLeast-le : (a b : ℕ) (o : Option ℕ) → a ≤ b → AtLeast b o → AtLeast a o
AtLeast-le a b none h k = tt
AtLeast-le a b (some n) h k = omega arith

pub find_at-AtLeast : (from s : Bytes) (pos : ℕ) → AtLeast pos (find_at from s pos)
unfolding find_at
find_at-AtLeast [] [] pos = omega arith
find_at-AtLeast (a ∷ from) [] pos = tt
find_at-AtLeast from (c ∷ s) pos =
    if_rule (AtLeast pos) (starts_with from (c ∷ s)) (some pos) (find_at from s (suc pos))
      (omega arith)
      (AtLeast-le pos (suc pos) (find_at from s (suc pos)) (omega arith)
        (find_at-AtLeast from s (suc pos)))

pub find_at-skip :
    (from : Bytes) (c : ℕ) (s : Bytes) (pos : ℕ)
    → starts_with from (c ∷ s) ≡ false
    → find_at from (c ∷ s) pos ≡ find_at from s (suc pos)
unfolding find_at
find_at-skip from c s pos h = rw h refl

pub find_at-hit :
    (from : Bytes) (c : ℕ) (s : Bytes) (pos : ℕ)
    → starts_with from (c ∷ s) ≡ true
    → find_at from (c ∷ s) pos ≡ some pos
unfolding find_at
find_at-hit from c s pos h = rw h refl

pub find_at-past :
    (from : Bytes) (c : ℕ) (s : Bytes) (pos : ℕ)
    → starts_with from (c ∷ s) ≡ false
    → AtLeast (suc pos) (find_at from (c ∷ s) pos)
find_at-past from c s pos h =
    subst (AtLeast (suc pos)) (sym (find_at-skip from c s pos h)) (find_at-AtLeast from s (suc pos))

drop_shift : (c : ℕ) (s : Bytes) (n k : ℕ) → suc k ≤ n → drop (n - k) (c ∷ s) ≡ drop (n - suc k) s
drop_shift c s n k h = let e : n - k ≡ suc (n - suc k) = omega arith in ap (λ m. drop m (c ∷ s)) e

pub next_round-shift :
    (go : ℕ → Bytes → ℕ → ℕ → Close) (prefix close : Bytes) (d c : ℕ) (s : Bytes) (cur at : ℕ)
    (o p : Option ℕ)
    → AtLeast (suc cur) o
    → AtLeast (suc cur) p
    → next_round go prefix close d (c ∷ s) cur at o p
      ≡ next_round go prefix close d s (suc cur) at o p
unfolding next_round
next_round-shift go prefix close d c s cur at none p h k = refl
next_round-shift go prefix close d c s cur at (some n) none h k =
    rw (drop_shift c s (n + length close) cur (omega arith)) refl
next_round-shift go prefix close d c s cur at (some n) (some m) h k =
    rw (drop_shift c s (n + length close) cur (omega arith))
      (rw (drop_shift c s (m + length prefix) cur (omega arith)) refl)

-- A name is not where a closing tag goes on.
pub starts-slash : (name s : Bytes) → IsName name → starts_with name (b'/' ∷ s) ≡ false
unfolding starts_with
starts-slash [] s (h, _) = absurd (h refl)
starts-slash (c ∷ name) s (_, hs) = ground (arith, hs)

pub slash-starts :
    (name t s : Bytes) → IsName t → starts_with (b'/' ∷ (name ++ b'>' ∷ [])) (t ++ s) ≡ false
unfolding starts_with
slash-starts name [] s (h, _) = absurd (h refl)
slash-starts name (c ∷ t) s (_, hs) = ground (arith, hs)

pub starts-angle :
    (from : Bytes) (c : ℕ) (s : Bytes) → c ≢ b'<' → starts_with (b'<' ∷ from) (c ∷ s) ≡ false
unfolding starts_with
starts-angle from c s h = ground (arith, h)

pub starts-other :
    (name t s : Bytes) (d : ℕ)
    → All NameByte name
    → (d ≡ b' ') ⊎ (d ≡ b'>')
    → starts_with name t ≡ false
    → starts_with name (t ++ d ∷ s) ≡ false
unfolding starts_with
starts-other [] t s d hs hd h = h
starts-other (c ∷ name) [] s d hs hd h = ground (arith, hs, hd)
starts-other (c ∷ name) (b ∷ t) s d hs hd h = ground (arith, starts-other name t s d hs.1 hd)

pub starts_self : (name s : Bytes) → starts_with name (name ++ s) ≡ true
unfolding starts_with
starts_self [] s = refl
starts_self (c ∷ name) s = ground (arith, starts_self name s)

-- The two names end at the same `>`.
pub closing-other :
    (name t s : Bytes)
    → All NameByte name
    → All NameByte t
    → bytes_eq name t ≡ false
    → starts_with (name ++ b'>' ∷ []) (t ++ b'>' ∷ s) ≡ false
unfolding starts_with bytes_eq
closing-other [] [] s hs ht h = ground (arith, h)
closing-other [] (b ∷ t) s hs ht h = ground (arith, ht)
closing-other (c ∷ name) [] s hs ht h = ground (arith, hs)
closing-other (c ∷ name) (b ∷ t) s hs ht h = ground (arith, closing-other name t s hs.1 ht.1)

pub find_at-plain :
    (from t s : Bytes) (pos : ℕ)
    → Lacks b'<' t
    → find_at (b'<' ∷ from) (t ++ s) pos ≡ find_at (b'<' ∷ from) s (pos + length t)
find_at-plain from [] s pos h = ap (find_at (b'<' ∷ from) s) (omega arith)
find_at-plain from (c ∷ t) s pos (hc, h) =
    find_at-skip (b'<' ∷ from) c (t ++ s) pos (starts-angle from c (t ++ s) hc)
    ∙ find_at-plain from t s (suc pos) h
    ∙ ap (find_at (b'<' ∷ from) s) (omega arith)

pub name-Lacks : (name : Bytes) → All NameByte name → Lacks b'<' name
name-Lacks [] h = tt
name-Lacks (c ∷ name) (hc, h) = (hc.0, name-Lacks name h)

pub close-Lacks : (name : Bytes) → All NameByte name → Lacks b'<' (b'/' ∷ (name ++ b'>' ∷ []))
close-Lacks name h = (
  λ e. absurd (omega (arith, e)),
  All-append (λ c. c ≢ b'<') name (b'>' ∷ []) (name-Lacks name h)
      (λ e. absurd (omega (arith, e)), tt),
)
