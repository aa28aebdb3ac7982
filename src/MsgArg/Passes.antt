-- ===== src/MsgArg/Passes.antt =====
-- Every printed argument is passed by the search for a closing tag, at whatever depth and whichever
-- name is looked for.
use xmppconn.Base.{
  ℕ, suc, ◌+◌, Bool, true, false, not, ◌&&◌, ◌||◌, List, [], ◌∷◌, ◌++◌, Bytes, codes, nat_eq,
  bytes_eq, bytes_eq_iff, is_empty, length, ◌≡◌, inl, inr, refl, sym, arith, All, Lacks,
  length-append, append_assoc, subst, Bool-cases,
}
use xmppconn.Text.{starts_with}
use xmppconn.MsgArg.Print.{element, close_tag}
use xmppconn.MsgArg.Close.{
  Closes, Closes-plain, Closes-open, Closes-inner, Closes-open_other, Closes-close_other,
}
use xmppconn.MsgArg.Tags.{NameByte, IsName}

-- The names of the tags that are printed.
abbrev tags : List Bytes
tags =
    codes "array"
    ∷ codes "boolean"
    ∷ codes "double"
    ∷ codes "dict_entry"
    ∷ codes "signature"
    ∷ codes "int32"
    ∷ codes "int16"
    ∷ codes "object_path"
    ∷ codes "uint16"
    ∷ codes "struct"
    ∷ codes "string"
    ∷ codes "uint64"
    ∷ codes "uint32"
    ∷ codes "variant"
    ∷ codes "int64"
    ∷ codes "byte"
    ∷ codes "handle"
    ∷ []

any : (Bytes → Bool) → List Bytes → Bool
any p [] = false
any p (x ∷ xs) = p x || any p xs

every : (Bytes → Bool) → List Bytes → Bool
every p [] = true
every p (x ∷ xs) = p x && every p xs

unfoldable pub is_tag : Bytes → Bool
unfolding any
is_tag t = any (bytes_eq t) tags

every-any :
    (p : Bytes → Bool) (t : Bytes) (xs : List Bytes)
    → every p xs ≡ true
    → any (bytes_eq t) xs ≡ true
    → p t ≡ true
unfolding every any
every-any p t [] h k = absurd (ground (arith, k))
every-any p t (x ∷ xs) h k = elim (Bool-cases (bytes_eq t x)) [
  | inl e ↦ rw ((bytes_eq_iff t x).0 e) (ground (arith, h))
  | inr e ↦ every-any p t xs (ground (arith, h)) (rw e at k)
]

name_byte : ℕ → Bool
name_byte c =
    not (nat_eq c b'<') && not (nat_eq c b'>') && not (nat_eq c b' ') && not (nat_eq c b'/')

all_name_bytes : Bytes → Bool
unfolding name_byte
all_name_bytes [] = true
all_name_bytes (c ∷ s) = name_byte c && all_name_bytes s

name_byte-NameByte : (c : ℕ) → name_byte c ≡ true → NameByte c
unfolding name_byte
name_byte-NameByte c h = (
  λ e. ground (arith, h, e),
  λ e. ground (arith, h, e),
  λ e. ground (arith, h, e),
  λ e. ground (arith, h, e),
)

all_name_bytes-NameByte : (s : Bytes) → all_name_bytes s ≡ true → All NameByte s
unfolding all_name_bytes
all_name_bytes-NameByte [] h = tt
all_name_bytes-NameByte (c ∷ s) h =
    (name_byte-NameByte c (ground (arith, h)), all_name_bytes-NameByte s (ground (arith, h)))

good_name : Bytes → Bool
unfolding all_name_bytes
good_name t = not (is_empty t) && all_name_bytes t

tag_names : every good_name tags ≡ true
unfolding every good_name
tag_names = refl

pub is_tag-IsName : (t : Bytes) → is_tag t ≡ true → IsName t
unfolding good_name is_tag
is_tag-IsName [] h = absurd (ground (arith, every-any good_name [] tags tag_names h))
is_tag-IsName (c ∷ t) h = (
  λ e. ground (arith, e),
  all_name_bytes-NameByte (c ∷ t) (every-any good_name (c ∷ t) tags tag_names h),
)

-- No name begins with another.
apart : Bytes → Bytes → Bool
apart name t = not (starts_with name t) || bytes_eq name t

apart_all : Bytes → Bool
unfolding every apart
apart_all name = every (apart name) tags

tags_apart : every apart_all tags ≡ true
unfolding every apart_all starts_with bytes_eq
tags_apart = refl

starts-apart :
    (name t : Bytes)
    → is_tag name ≡ true
    → is_tag t ≡ true
    → bytes_eq name t ≡ false
    → starts_with name t ≡ false
unfolding is_tag
starts-apart name t hn ht h =
    let one = every-any apart_all name tags tags_apart hn in
    let both : apart name t ≡ true = every-any (apart name) t tags (unfold apart_all in one) ht in
    let split : (not (starts_with name t) || bytes_eq name t) ≡ true = unfold apart in both in
    ground (arith, split)

-- Attributes are nothing, or begin with a space.
abbrev pub IsAttributes : Bytes → Type 0
IsAttributes [] = Unit
IsAttributes (c ∷ s) = (c ≡ b' ') × Lacks b'<' s × Lacks b'>' s

pub Attributes-Lacks : (s : Bytes) → IsAttributes s → Lacks b'<' s × Lacks b'>' s
Attributes-Lacks [] h = (tt, tt)
Attributes-Lacks (c ∷ s) (e, h, k) =
    ((λ q. absurd (omega (arith, e, q)), h), (λ q. absurd (omega (arith, e, q)), k))

length_of : (xs ys : Bytes) → length (xs ++ ys) ≡ length xs + length ys
length_of = length-append

module _ (name : Bytes) (found_name : is_tag name ≡ true) where
  abbrev pub Passes : Bytes → Type 0
  Passes t =
      (d : ℕ) (s : Bytes) (pos n : ℕ)
      → Closes name d s (pos + length t) n
      → Closes name d (t ++ s) pos n

  pub Passes-plain : (t : Bytes) → Lacks b'<' t → Passes t
  Passes-plain t h d s pos n = Closes-plain name d t s pos n h

  pub Passes-append : (t u : Bytes) → Passes t → Passes u → Passes (t ++ u)
  Passes-append t u ht hu d s pos n h =
      let e : pos + length (t ++ u) ≡ pos + length t + length u = omega (arith, length_of t u) in
      subst (λ x. Closes name d x pos n) (sym (append_assoc t u s))
        (ht d (u ++ s) pos n (hu d s (pos + length t) n (subst (λ k. Closes name d s k n) e h)))

  -- What stands between the name of the starting tag and the closing tag.
  pub Passes-inside :
      (attributes content : Bytes)
      → IsAttributes attributes
      → Passes content
      → Passes (attributes ++ b'>' ∷ content)
  Passes-inside attributes content ha hc =
      Passes-append attributes (b'>' ∷ content)
        (Passes-plain attributes (Attributes-Lacks attributes ha).0)
        (Passes-append (b'>' ∷ []) content
          (Passes-plain (b'>' ∷ []) (λ e. absurd (omega (arith, e)), tt)) hc)

  element_text :
      (t attributes content s : Bytes)
      → element t attributes content ++ s
        ≡ b'<' ∷ t ++ ((attributes ++ b'>' ∷ content) ++ (close_tag t ++ s))
  element_text t attributes content s = simp append_assoc

  length-element :
      (t attributes content : Bytes)
      → length (element t attributes content)
        ≡ suc (length t) + length (attributes ++ b'>' ∷ content) + length (close_tag t)
  length-element t attributes content = omega (arith, length_of)

  delimiter :
      (d : ℕ) (attributes r : Bytes) (pos n : ℕ) (t : Bytes)
      → IsAttributes attributes
      → is_tag t ≡ true
      → bytes_eq name t ≡ false
      → Closes name d (attributes ++ b'>' ∷ r) (pos + suc (length t)) n
      → Closes name d (b'<' ∷ t ++ (attributes ++ b'>' ∷ r)) pos n
  delimiter d [] r pos n t ha ht differ h =
      Closes-open_other name d b'>' t r pos n (is_tag-IsName name found_name) (is_tag-IsName t ht)
        (inr refl) (starts-apart name t found_name ht differ) h
  delimiter d (c ∷ attributes) r pos n t ha ht differ h =
      Closes-open_other name d c t (attributes ++ b'>' ∷ r) pos n (is_tag-IsName name found_name)
        (is_tag-IsName t ht) (inl ha.0) (starts-apart name t found_name ht differ) h

  Passes-other :
      (t attributes content : Bytes)
      → is_tag t ≡ true
      → bytes_eq name t ≡ false
      → IsAttributes attributes
      → Passes content
      → Passes (element t attributes content)
  Passes-other t attributes content ht differ ha hc d s pos n h =
      let inside = attributes ++ b'>' ∷ content in
      let total = length-element t attributes content in
      let e : pos + length (element t attributes content)
          ≡ pos + suc (length t) + length inside + length (close_tag t) =
        omega (arith, total) in
      subst (λ x. Closes name d x pos n) (simp append_assoc)
        (delimiter d attributes (content ++ (close_tag t ++ s)) pos n t ha ht differ (
          subst (λ x. Closes name d x (pos + suc (length t)) n) (simp append_assoc)
            (Passes-inside attributes content ha hc d (close_tag t ++ s) (pos + suc (length t)) n (
              Closes-close_other name d t s (pos + suc (length t) + length inside) n
                (is_tag-IsName name found_name) (is_tag-IsName t ht) differ
                (subst (λ k. Closes name d s k n) e h)))))

  Passes-same :
      (attributes content : Bytes)
      → IsAttributes attributes
      → Passes content
      → Passes (element name attributes content)
  Passes-same attributes content ha hc d s pos n h =
      let inside = attributes ++ b'>' ∷ content in
      let total = length-element name attributes content in
      let e : pos + length (element name attributes content)
          ≡ pos + suc (length name) + length inside + length (close_tag name) =
        omega (arith, total) in
      let named = is_tag-IsName name found_name in
      subst (λ x. Closes name d x pos n) (sym (element_text name attributes content s))
        (Closes-open name d (inside ++ (close_tag name ++ s)) pos n named (
          Passes-inside attributes content ha hc (suc d) (close_tag name ++ s)
            (pos + suc (length name)) n
            (Closes-inner name d s (pos + suc (length name) + length inside) n named
              (subst (λ k. Closes name d s k n) e h))))

  -- An element is passed as a whole if its content is.
  pub Passes-element :
      (t attributes content : Bytes)
      → is_tag t ≡ true
      → IsAttributes attributes
      → Passes content
      → Passes (element t attributes content)
  Passes-element t attributes content ht ha hc = elim (Bool-cases (bytes_eq name t)) [
    | inl e ↦
        subst (λ u. Passes (element u attributes content)) ((bytes_eq_iff name t).0 e)
          (Passes-same attributes content ha hc)
    | inr e ↦ Passes-other t attributes content ht e ha hc
  ]
