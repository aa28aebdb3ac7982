-- ===== src/MsgArg/Close.antt =====
-- How the search for a closing tag moves over a text: each piece of the text is passed, and changes
-- the depth by the tags that it holds.
use xmppconn.Base.{
  ℕ, zero, suc, ◌+◌, ◌-◌, ◌<◌, true, false, Option, none, some, [], ◌∷◌, ◌++◌, Bytes, nat_eq, ltb,
  is_empty, length, ◌≡◌, refl, ap, ◌∙◌, arith, Lacks, length-append, drop-append, append_assoc,
  subst, if◌then◌else◌, ◌⊎◌, bytes_eq,
}
use xmppconn.Text.{starts_with, find_at}
use xmppconn.MsgArg.Print.{close_tag}
use xmppconn.MsgArg.Parse.{found, next_round, close_from}
use xmppconn.MsgArg.Tags.{
  IsName, AtLeast, find_at-AtLeast, find_at-skip, find_at-hit, find_at-past, next_round-shift,
  starts-slash, slash-starts, starts-angle, starts-other, starts_self, closing-other, find_at-plain,
  name-Lacks, close-Lacks,
}

-- A round at a starting tag, which is met before any closing tag.
open_round :
    (name : Bytes) (f d b : ℕ) (s : Bytes) (pos at : ℕ) (o : Option ℕ)
    → find_at (close_tag name) (b ∷ s) (pos + suc (length name)) ≡ o
    → AtLeast (pos + suc (length name)) o
    → find_at (b'<' ∷ name) (b'<' ∷ name ++ b ∷ s) pos ≡ some pos
    → find_at (close_tag name) (b'<' ∷ name ++ b ∷ s) pos ≡ o
    → close_from (suc (suc f)) (b'<' ∷ name) (close_tag name) (suc d) (b'<' ∷ name ++ b ∷ s) pos at
      ≡ close_from
          (suc f)
          (b'<' ∷ name)
          (close_tag name)
          (suc (suc d))
          (b ∷ s)
          (pos + suc (length name))
          at
unfolding close_from next_round
open_round name f d b s pos at none eo k hp hc = rw (eo, hp, hc) refl
open_round name f d b s pos at (some q) eo k hp hc =
    let lt : ltb pos q ≡ true = ground (arith, k) in
    let e : pos + suc (length name) - pos ≡ suc (length name) = omega arith in
    rw (hp, hc, lt, e, drop-append name (b ∷ s)) refl

-- A round at the closing tag.
close_round :
    (name : Bytes) (f d : ℕ) (s : Bytes) (pos at : ℕ) (o : Option ℕ)
    → AtLeast (suc pos) o
    → find_at (b'<' ∷ name) (close_tag name ++ s) pos ≡ o
    → find_at (close_tag name) (close_tag name ++ s) pos ≡ some pos
    → close_from (suc f) (b'<' ∷ name) (close_tag name) (suc d) (close_tag name ++ s) pos at
      ≡ close_from f
          (b'<' ∷ name)
          (close_tag name)
          d
          s
          (pos + length (close_tag name))
          (if nat_eq d 0 then pos else at)
unfolding close_from next_round
close_round name f d s pos at none k hp hc =
    let n = length (close_tag name) in
    let e : pos + n - pos ≡ n = omega arith in rw (hp, hc, e, drop-append (close_tag name) s) refl
close_round name f d s pos at (some q) k hp hc =
    let n = length (close_tag name) in
    let e : pos + n - pos ≡ n = omega arith in
    let lt : ltb q pos ≡ false = ground (arith, k) in
    rw (hp, hc, lt, e, drop-append (close_tag name) s) refl

close_round-at :
    (name : Bytes) (f d : ℕ) (s : Bytes) (pos at : ℕ)
    → IsName name
    → close_from (suc f) (b'<' ∷ name) (close_tag name) (suc d) (close_tag name ++ s) pos at
      ≡ close_from f
          (b'<' ∷ name)
          (close_tag name)
          d
          s
          (pos + length (close_tag name))
          (if nat_eq d 0 then pos else at)
close_round-at name f d s pos at hn =
    let rest = b'/' ∷ (name ++ b'>' ∷ []) ++ s in
    let no : starts_with (b'<' ∷ name) (b'<' ∷ rest) ≡ false =
      unfold starts_with in starts-slash name ((name ++ b'>' ∷ []) ++ s) hn in
    close_round name f d s pos at (find_at (b'<' ∷ name) (b'<' ∷ rest) pos)
      (find_at-past (b'<' ∷ name) b'<' rest pos no) refl
      (find_at-hit (close_tag name) b'<' rest pos (starts_self (close_tag name) s))

skip_round :
    (name : Bytes) (f d c b : ℕ) (s : Bytes) (pos at : ℕ)
    → starts_with (b'<' ∷ name) (c ∷ b ∷ s) ≡ false
    → starts_with (close_tag name) (c ∷ b ∷ s) ≡ false
    → close_from (suc f) (b'<' ∷ name) (close_tag name) (suc d) (c ∷ b ∷ s) pos at
      ≡ close_from (suc f) (b'<' ∷ name) (close_tag name) (suc d) (b ∷ s) (suc pos) at
skip_round name f d c b s pos at hp hc =
    let p = b'<' ∷ name in
    let k = close_tag name in
    let go = close_from f p k in
    let o = find_at k (c ∷ b ∷ s) pos in
    let q = find_at p (c ∷ b ∷ s) pos in
    unfold close_from in
    (next_round-shift go p k d c (b ∷ s) pos at o q (find_at-past k c (b ∷ s) pos hc)
        (find_at-past p c (b ∷ s) pos hp)
      ∙ rw (find_at-skip k c (b ∷ s) pos hc) (rw (find_at-skip p c (b ∷ s) pos hp) refl))

module _ (name : Bytes) where
  abbrev pub prefix : Bytes
  prefix = b'<' ∷ name

  -- From depth `d + 1` at position `pos`, the search of the text `s` finds the closing tag at `n`, with
  -- any fuel above the length of the text.
  abbrev pub Closes : ℕ → Bytes → ℕ → ℕ → Type 0
  Closes d s pos n =
      (is_empty s ≡ false)
      × ((f at : ℕ)
          → length s < f
          → close_from f prefix (close_tag name) (suc d) s pos at ≡ found n)

  Closes-skip :
      (d c : ℕ) (s : Bytes) (pos n : ℕ)
      → starts_with prefix (c ∷ s) ≡ false
      → starts_with (close_tag name) (c ∷ s) ≡ false
      → Closes d s (suc pos) n
      → Closes d (c ∷ s) pos n
  Closes-skip d c [] pos n hp hc (e, h) = absurd (ground (arith, e))
  Closes-skip d c (b ∷ s) pos n hp hc (e, h) = (refl, λ f at lt. skipped f at lt)
    where
      skipped :
          (f at : ℕ)
          → length (c ∷ b ∷ s) < f
          → close_from f prefix (close_tag name) (suc d) (c ∷ b ∷ s) pos at ≡ found n
      skipped zero at lt = elim lt [ ]
      skipped (suc f) at lt = skip_round name f d c b s pos at hp hc ∙ h (suc f) at (omega arith)

  pub Closes-plain :
      (d : ℕ) (t s : Bytes) (pos n : ℕ)
      → Lacks b'<' t
      → Closes d s (pos + length t) n
      → Closes d (t ++ s) pos n
  Closes-plain d [] s pos n ht h = subst (λ k. Closes d s k n) (omega arith) h
  Closes-plain d (c ∷ t) s pos n (hc, ht) h =
      let e : pos + suc (length t) ≡ suc pos + length t = omega arith in
      Closes-skip d c (t ++ s) pos n (starts-angle name c (t ++ s) hc)
        (starts-angle (b'/' ∷ (name ++ b'>' ∷ [])) c (t ++ s) hc)
        (Closes-plain d t s (suc pos) n ht (subst (λ k. Closes d s k n) e h))

  find-close-opened :
      (s : Bytes) (pos : ℕ)
      → IsName name
      → find_at (close_tag name) (prefix ++ s) pos
        ≡ find_at (close_tag name) s (pos + length prefix)
  find-close-opened s pos hn =
      find_at-skip (close_tag name) b'<' (name ++ s) pos
        (unfold starts_with in slash-starts name name s hn)
      ∙ find_at-plain (b'/' ∷ (name ++ b'>' ∷ [])) name s (suc pos) (name-Lacks name hn.1)
      ∙ ap (find_at (close_tag name) s) (omega arith)

  -- An inner element of the same name begins.
  pub Closes-open :
      (d : ℕ) (s : Bytes) (pos n : ℕ)
      → IsName name
      → Closes (suc d) s (pos + length prefix) n
      → Closes d (prefix ++ s) pos n
  Closes-open d [] pos n hn (e, h) = absurd (ground (arith, e))
  Closes-open d (b ∷ s) pos n hn (e, h) = (refl, λ f at lt. opened f at lt)
    where
      opened :
          (f at : ℕ)
          → length (prefix ++ b ∷ s) < f
          → close_from f prefix (close_tag name) (suc d) (prefix ++ b ∷ s) pos at ≡ found n
      opened zero at lt = elim lt [ ]
      opened (suc zero) at lt = absurd (omega arith)
      opened (suc (suc f)) at lt =
          let o = find_at (close_tag name) (b ∷ s) (pos + suc (length name)) in
          open_round name f d b s pos at o refl
            (find_at-AtLeast (close_tag name) (b ∷ s) (pos + suc (length name)))
            (find_at-hit prefix b'<' (name ++ b ∷ s) pos (starts_self prefix (b ∷ s)))
            (find-close-opened (b ∷ s) pos hn)
          ∙ h (suc f) at (omega (arith, length-append {0} name (b ∷ s)))

  -- An inner element of the same name ends.
  pub Closes-inner :
      (d : ℕ) (s : Bytes) (pos n : ℕ)
      → IsName name
      → Closes d s (pos + length (close_tag name)) n
      → Closes (suc d) (close_tag name ++ s) pos n
  Closes-inner d s pos n hn (e, h) = (refl, λ f at lt. closed f at lt)
    where
      closed :
          (f at : ℕ)
          → length (close_tag name ++ s) < f
          → close_from f prefix (close_tag name) (suc (suc d)) (close_tag name ++ s) pos at
            ≡ found n
      closed zero at lt = elim lt [ ]
      closed (suc f) at lt =
          let inner : nat_eq (suc d) 0 ≡ false = ground arith in
          close_round-at name f (suc d) s pos at hn
          ∙ rw inner refl
          ∙ h f at (omega (arith, length-append {0} (name ++ b'>' ∷ []) s))

  -- The closing tag that is looked for.
  pub Closes-last : (s : Bytes) (pos : ℕ) → IsName name → Closes 0 (close_tag name ++ s) pos pos
  Closes-last s pos hn = (refl, λ f at lt. closed f at lt)
    where
      closed :
          (f at : ℕ)
          → length (close_tag name ++ s) < f
          → close_from f prefix (close_tag name) 1 (close_tag name ++ s) pos at ≡ found pos
      closed zero at lt = elim lt [ ]
      closed (suc zero) at lt = absurd (omega arith)
      closed (suc (suc f)) at lt =
          close_round-at name (suc f) 0 s pos at hn ∙ (unfold close_from in refl)

  -- A starting tag of another name; `c` is the byte behind its name.
  pub Closes-open_other :
      (d c : ℕ) (t s : Bytes) (pos n : ℕ)
      → IsName name
      → IsName t
      → (c ≡ b' ') ⊎ (c ≡ b'>')
      → starts_with name t ≡ false
      → Closes d (c ∷ s) (pos + suc (length t)) n
      → Closes d (b'<' ∷ t ++ c ∷ s) pos n
  Closes-open_other d c t s pos n hn ht hc differ h =
      let e : pos + suc (length t) ≡ suc pos + length t = omega arith in
      Closes-skip d b'<' (t ++ c ∷ s) pos n
        (unfold starts_with in starts-other name t s c hn.1 hc differ)
        (unfold starts_with in slash-starts name t (c ∷ s) ht)
        (Closes-plain d t (c ∷ s) (suc pos) n (name-Lacks t ht.1)
          (subst (λ k. Closes d (c ∷ s) k n) e h))

  pub Closes-close_other :
      (d : ℕ) (t s : Bytes) (pos n : ℕ)
      → IsName name
      → IsName t
      → bytes_eq name t ≡ false
      → Closes d s (pos + length (close_tag t)) n
      → Closes d (close_tag t ++ s) pos n
  Closes-close_other d t s pos n hn ht differ h =
      let rest = b'/' ∷ (t ++ b'>' ∷ []) in
      let assoc : (t ++ b'>' ∷ []) ++ s ≡ t ++ b'>' ∷ s = append_assoc t (b'>' ∷ []) s in
      let other : starts_with (name ++ b'>' ∷ []) ((t ++ b'>' ∷ []) ++ s) ≡ false =
        rw assoc (closing-other name t s hn.1 ht.1 differ) in
      let e : pos + length (close_tag t) ≡ suc pos + length rest = omega arith in
      Closes-skip d b'<' (rest ++ s) pos n
        (unfold starts_with in starts-slash name ((t ++ b'>' ∷ []) ++ s) hn)
        (unfold starts_with in other)
        (Closes-plain d rest s (suc pos) n (close-Lacks t ht.1) (subst (λ k. Closes d s k n) e h))
