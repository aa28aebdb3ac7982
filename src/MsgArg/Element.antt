-- ===== src/MsgArg/Element.antt =====
-- How one element is read, and split off the text behind it.
use xmppconn.Base.{
  ℕ, suc, ◌+◌, ◌<◌, true, Option, some, [], ◌∷◌, ◌++◌, Bytes, nat_eq, length, take, drop, ◌≡◌, refl,
  ap, ◌∙◌, arith, All, append_assoc, subst, ◌>>=◌, take-append, drop-append, append-nil,
}
use xmppconn.MsgArg.{Library, MsgArg, Args, cons}
use xmppconn.MsgArg.Print.{element, close_tag}
use xmppconn.MsgArg.Parse.{
  first_of, substr_to, form_of, read_form, read_text, read_element, close_from, found,
  split_element, ends_name,
}
use xmppconn.MsgArg.Close.{Closes, Closes-last}
use xmppconn.MsgArg.Tags.{IsName, NameByte}
use xmppconn.MsgArg.Passes.{IsAttributes, Passes, Passes-inside, is_tag, is_tag-IsName}
use xmppconn.MsgArg.Valid.{Laws, IsBlank}
use xmppconn.MsgArg.Cuts.{
  length_of, first_of-at, last_of-at, not_angle, name_goes_on, tag_of, tag_of-IsTrimmed, head,
  head-Lacks, close-Lacks, Cut, read_text-Cut, substr_to-inner,
}

module _ (lib : Library) (laws : Laws lib) where
  element-Cut :
      (before t attributes content after : Bytes)
      → All IsBlank before
      → All IsBlank after
      → IsName t
      → IsAttributes attributes
      → Cut (before ++ (element t attributes content ++ after)) (tag_of t attributes) content lib
  unfolding head
  element-Cut before t attributes content after hb hafter ht ha =
      let front = head before t attributes in
      let rest = content ++ (close_tag t ++ after) in
      let xml = before ++ (element t attributes content ++ after) in
      let e : xml ≡ front ++ b'>' ∷ rest = unfold head in simp append_assoc in
      let f : xml ≡ (front ++ b'>' ∷ content) ++ b'<' ∷ (b'/' ∷ (t ++ b'>' ∷ after)) =
        unfold head in simp append_assoc in
      let g : xml ≡ (front ++ b'>' ∷ []) ++ rest = unfold head in simp append_assoc in
      let n : suc (length front) ≡ length (front ++ b'>' ∷ []) = omega (arith, length_of) in
      let m : length (front ++ b'>' ∷ content) ≡ length (front ++ b'>' ∷ []) + length content =
        omega (arith, length_of) in
      record {
        pos = length front;
        end = length (front ++ b'>' ∷ content);
        tag_end = rw e (
            first_of-at (nat_eq b'>') front b'>' rest 0
              (not_angle front (head-Lacks before t attributes hb ht.1 ha)) (ground arith)
            ∙ ap some (omega arith));
        tag_text =
            ap (λ x. lib.trim (take (suc (length front)) x)) g
            ∙ ap (λ k. lib.trim (take k ((front ++ b'>' ∷ []) ++ rest))) n
            ∙ ap lib.trim (take-append (front ++ b'>' ∷ []) rest)
            ∙ ap lib.trim (unfold head in simp (append_assoc, append-nil))
            ∙ laws.trimmed before (tag_of t attributes) [] hb tt (tag_of-IsTrimmed t attributes);
        content_end = rw f (
            last_of-at b'<' (front ++ b'>' ∷ content) (b'/' ∷ (t ++ b'>' ∷ after)) 0
              (close-Lacks t after ht.1 hafter)
            ∙ ap some (omega arith));
        content_text =
            ap (λ x. substr_to x (suc (length front)) (some (length (front ++ b'>' ∷ content)))) g
            ∙ ap
                (λ k.
                  substr_to ((front ++ b'>' ∷ []) ++ rest) k
                    (some (length (front ++ b'>' ∷ content))))
                n
            ∙ ap
                (λ k.
                  substr_to ((front ++ b'>' ∷ []) ++ rest) (length (front ++ b'>' ∷ [])) (some k))
                m
            ∙ substr_to-inner (front ++ b'>' ∷ []) content (close_tag t ++ after);
      }

  -- An element with blanks around it is read by its tag and its content.
  pub read_text-element :
      (vector : Bytes → Option Args) (single : Bytes → Option MsgArg)
      (before t attributes content after : Bytes)
      → All IsBlank before
      → All IsBlank after
      → IsName t
      → IsAttributes attributes
      → read_text lib vector single (before ++ (element t attributes content ++ after))
        ≡ read_form lib vector single (form_of (tag_of t attributes)) (tag_of t attributes) content
  read_text-element vector single before t attributes content after hb hafter ht ha =
      read_text-Cut lib vector single _ (tag_of t attributes) content
        (element-Cut before t attributes content after hb hafter ht ha)

-- The position behind the name of the tag.
name_end :
    (t attributes r : Bytes)
    → All NameByte t
    → IsAttributes attributes
    → first_of ends_name (t ++ (attributes ++ b'>' ∷ r)) 1 ≡ some (1 + length t)
name_end t [] r ht ha = first_of-at ends_name t b'>' r 1 (name_goes_on t ht) refl
name_end t (c ∷ attributes) r ht ha =
    first_of-at ends_name t c (attributes ++ b'>' ∷ r) 1 (name_goes_on t ht) (rw (ha.0) refl)

closing_found :
    (t attributes content rest : Bytes)
    → (tagged : is_tag t ≡ true) → IsAttributes attributes
    → Passes t tagged content
    → (f at : ℕ) → length (attributes ++ b'>' ∷ (content ++ (close_tag t ++ rest))) < f
    → close_from f
        (b'<' ∷ t)
        (close_tag t)
        1
        (attributes ++ b'>' ∷ (content ++ (close_tag t ++ rest)))
        (1 + length t)
        at
      ≡ found (1 + length t + length (attributes ++ b'>' ∷ content))
closing_found t attributes content rest tagged ha hc =
    let inside = attributes ++ b'>' ∷ content in
    let h : Closes t 0 (attributes ++ b'>' ∷ (content ++ (close_tag t ++ rest))) (1 + length t)
        (1 + length t + length inside) =
      subst (λ x. Closes t 0 x (1 + length t) (1 + length t + length inside)) (simp append_assoc)
        (Passes-inside t tagged attributes content ha hc 0 (close_tag t ++ rest) (1 + length t)
          (1 + length t + length inside)
          (Closes-last t rest (1 + length t + length inside) (is_tag-IsName t tagged))) in
    h.1

split_at :
    (read : Bytes → Option MsgArg) (more : Bytes → Option Args) (content name element rest : Bytes)
    (end at : ℕ)
    → first_of (nat_eq b'<') content 0 ≡ some 0
    → first_of ends_name (drop 1 content) 1 ≡ some end
    → substr_to content 1 (some end) ≡ name
    → close_from (suc (length content)) (b'<' ∷ name) (close_tag name) 1 (drop end content) end end
      ≡ found at
    → take (at + length (close_tag name)) content ≡ element
    → drop (at + length (close_tag name)) content ≡ rest
    → read_element read more content ≡ (do a ← read element; args ← more rest; some (cons a args))
unfolding read_element split_element
split_at read more content name element rest end at hb he hn hc ht hd =
    rw (hb, he, hn, hc, ht, hd) refl

-- The first element of a text is split off whole, and read.
pub read_element-element :
    (read : Bytes → Option MsgArg) (more : Bytes → Option Args) (t attributes content rest : Bytes)
    → (tagged : is_tag t ≡ true) → IsAttributes attributes
    → Passes t tagged content
    → read_element read more (element t attributes content ++ rest)
      ≡ (do a ← read (element t attributes content); args ← more rest; some (cons a args))
read_element-element read more t attributes content rest tagged ha hc =
    let named = is_tag-IsName t tagged in
    let whole = element t attributes content in
    let inside = attributes ++ b'>' ∷ content in
    let tail = attributes ++ b'>' ∷ (content ++ (close_tag t ++ rest)) in
    let e : whole ++ rest ≡ b'<' ∷ t ++ tail = simp append_assoc in
    let n : 1 + length t + length inside + length (close_tag t) ≡ length whole =
      omega (arith, length_of) in
    let size : length (whole ++ rest) ≡ suc (length t + length tail) =
      ap length e ∙ ap suc (length_of t tail) in
    let one : 1 + length t ≡ suc (length t) = omega arith in
    let first : first_of (nat_eq b'<') (whole ++ rest) 0 ≡ some 0 = unfold first_of in refl in
    let named_end : first_of ends_name (drop 1 (whole ++ rest)) 1 ≡ some (1 + length t) =
      rw e (name_end t attributes (content ++ (close_tag t ++ rest)) named.1 ha) in
    let behind_name : drop (1 + length t) (whole ++ rest) ≡ tail =
      rw e (ap (λ k. drop k (b'<' ∷ t ++ tail)) one ∙ drop-append (b'<' ∷ t) tail) in
    let name : substr_to (whole ++ rest) 1 (some (1 + length t)) ≡ t =
      rw e (substr_to-inner (b'<' ∷ []) t tail) in
    split_at read more (whole ++ rest) t whole rest (1 + length t) (1 + length t + length inside)
      first named_end name
      (rw behind_name (
        closing_found t attributes content rest tagged ha hc (suc (length (whole ++ rest)))
          (1 + length t) (omega (arith, size))))
      (rw n (take-append whole rest)) (rw n (drop-append whole rest))
