-- ===== src/MsgArg/RoundTrip.antt =====
-- Arguments come back from their text.
use xmppconn.Base.{
  ℕ, zero, suc, ◌+◌, ◌*◌, ◌≤◌, some, [], ◌∷◌, ◌++◌, Bytes, codes, newline, length, ◌≡◌, sym, ap,
  ◌∙◌, arith, append-nil, length-append, All,
}
use xmppconn.MsgArg.{
  MsgArg, Args, Library, invalid, array, scalar, dict_entry, text, struct, variant, handle,
  scalar_array, nil, cons,
}
use xmppconn.MsgArg.Print.{spaces, element, quoted, body, each_before, to_strings, to_string}
use xmppconn.MsgArg.Parse.{elements, from_string, vector_from_string}
use xmppconn.MsgArg.Valid.{Laws, IsValid, AllValid, IsBlank}
use xmppconn.MsgArg.Numbers.{spaces-IsBlank}
use xmppconn.MsgArg.Sequence.{all_text, trim-to_strings, elements-cons}
use xmppconn.MsgArg.Reads.{
  weight, weights, Reads, Reads-at, scalar-Reads, text-Reads, scalar_array-Reads, array-Reads,
  struct-Reads, variant-Reads, dict_entry-Reads, elements-nil,
}

module _ (lib : Library) (laws : Laws lib) where
  mutual
    unfolding weight weights IsValid

    body-Reads :
        (a : MsgArg) → IsValid lib a → (f indent : ℕ) → weight a ≤ f → Reads lib laws f a indent
    body-Reads invalid h f indent w = absurd h
    body-Reads (handle fd) h f indent w = absurd h
    body-Reads (scalar kind n) h zero indent w = absurd (omega arith)
    body-Reads (scalar kind n) (ht, hp, hn) (suc f) indent w =
        scalar-Reads lib laws f kind n indent ht hp hn
    body-Reads (text kind s) h zero indent w = absurd (omega arith)
    body-Reads (text kind s) (ht, _, hz) (suc f) indent w =
        text-Reads lib laws f kind s indent ht hz
    body-Reads (scalar_array kind ns) h zero indent w = absurd (omega arith)
    body-Reads (scalar_array kind ns) (ht, hr, hn) (suc f) indent w =
        scalar_array-Reads lib laws f kind ns indent ht hr hn
    body-Reads (array sig elems) h zero indent w = absurd (omega arith)
    body-Reads (array sig elems) (ht, hs, hh, he) (suc f) indent w =
        array-Reads lib laws f sig elems indent ht hs hh he
          (all-Reads elems he f (indent + 2) (omega arith))
    body-Reads (struct members) h zero indent w = absurd (omega arith)
    body-Reads (struct members) (ht, _, hm) (suc f) indent w =
        struct-Reads lib laws f members indent ht hm
          (all-Reads members hm f (indent + 2) (omega arith))
    body-Reads (variant val) h zero indent w = absurd (omega arith)
    body-Reads (variant val) (ht, hs, hv) (suc f) indent w =
        variant-Reads lib laws f val indent ht hs (body-Reads val hv f (indent + 2) (omega arith))
    body-Reads (dict_entry key val) (ht, hk, hv) (suc (suc (suc (suc f)))) indent w =
        dict_entry-Reads lib laws f key val indent ht hk hv
          (body-Reads key hk (suc (suc f)) (indent + 2) (omega arith))
          (body-Reads val hv (suc f) (indent + 2) (omega arith))
    body-Reads (dict_entry key val) h f indent w = absurd (omega arith)

    all-Reads :
        (args : Args)
        → AllValid lib args
        → (f indent : ℕ) → weights args ≤ f
        → elements lib f (all_text lib args indent) ≡ some args
    all-Reads nil h zero indent w = absurd (omega arith)
    all-Reads (cons a args) h zero indent w = absurd (omega arith)
    all-Reads nil h (suc f) indent w = elements-nil lib laws f indent
    all-Reads (cons a args) (ha, h) (suc f) indent w =
        elements-cons lib laws f a args indent ha h
          (Reads-at lib laws f a indent (body-Reads a ha f indent (omega arith)))
          (all-Reads args h f indent (omega arith))

length_of : (xs ys : Bytes) → length (xs ++ ys) ≡ length xs + length ys
length_of = length-append

element-ge :
    (t attributes content : Bytes) → length content + 5 ≤ length (element t attributes content)
element-ge t attributes content = omega (arith, length_of)

line-ge :
    (indent : ℕ) (s rest : Bytes) → length s + length rest ≤ length ((spaces indent ++ s) ++ rest)
line-ge indent s rest = omega (arith, length_of)

module _ (lib : Library) where
  mutual
    unfolding weight weights body each_before to_strings

    weight-le : (a : MsgArg) (indent : ℕ) → weight a ≤ length (body lib a indent)
    weight-le invalid indent = omega arith
    weight-le (handle fd) indent = omega arith
    weight-le (scalar kind n) indent = omega arith
    weight-le (text kind s) indent = omega arith
    weight-le (scalar_array kind ns) indent = omega arith
    weight-le (array sig elems) indent =
        let inner = each_before lib elems (indent + 2) in
        let after = newline ∷ spaces indent in
        omega (
          arith,
          length_of inner after,
          element-ge (codes "array") (quoted (codes "type_sig") sig) (inner ++ after),
          weights-each elems (indent + 2),
        )
    weight-le (struct members) indent =
        let inner = to_strings lib members (indent + 2) in
        omega (
          arith,
          length_of inner (spaces indent),
          element-ge (codes "struct") [] (newline ∷ (inner ++ spaces indent)),
          weights-strings members (indent + 2),
        )
    weight-le (variant val) indent =
        let inner = body lib val (indent + 2) in
        let after = newline ∷ spaces indent in
        omega (
          arith,
          line-ge (indent + 2) inner after,
          element-ge (codes "variant") (quoted (codes "signature") (lib.signature_of val))
              (newline ∷ ((spaces (indent + 2) ++ inner) ++ after)),
          weight-le val (indent + 2),
        )
    weight-le (dict_entry key val) indent =
        let inner = body lib val (indent + 2) in
        let after = newline ∷ spaces indent in
        let second = newline ∷ ((spaces (indent + 2) ++ inner) ++ after) in
        let first = body lib key (indent + 2) in
        omega (
          arith,
          line-ge (indent + 2) inner after,
          line-ge (indent + 2) first second,
          element-ge (codes "dict_entry") [] (newline ∷ ((spaces (indent + 2) ++ first) ++ second)),
          weight-le key (indent + 2),
          weight-le val (indent + 2),
        )

    weights-each :
        (args : Args) (indent : ℕ) → weights args ≤ 1 + length (each_before lib args indent)
    weights-each nil indent = omega arith
    weights-each (cons a args) indent = omega (
      arith,
      line-ge indent (body lib a indent) (each_before lib args indent),
      weight-le a indent,
      weights-each args indent,
    )

    weights-strings :
        (args : Args) (indent : ℕ) → weights args ≤ 1 + length (to_strings lib args indent)
    weights-strings nil indent = omega arith
    weights-strings (cons a args) indent = omega (
      arith,
      line-ge indent (body lib a indent) (newline ∷ to_strings lib args indent),
      weight-le a indent,
      weights-strings args indent,
    )

-- The readings of a text with blanks around it.
module _ (lib : Library) (laws : Laws lib) where
  pub from_string-body :
      (a : MsgArg) (indent : ℕ) (before after : Bytes)
      → IsValid lib a
      → All IsBlank before
      → All IsBlank after
      → from_string lib (before ++ (body lib a indent ++ after)) ≡ some a
  unfolding from_string Reads
  from_string-body a indent before after h hb ha =
      let one = body lib a indent in
      let all = before ++ (one ++ after) in
      body-Reads lib laws a h (2 * length all + 2) indent
        (omega
          (arith, length_of before (one ++ after), length_of one after, weight-le lib a indent))
        before after hb ha

  pub vector_from_string-texts :
      (args : Args) (indent : ℕ) (before after : Bytes)
      → AllValid lib args
      → All IsBlank before
      → All IsBlank after
      → vector_from_string lib (before ++ (to_strings lib args indent ++ after)) ≡ some args
  unfolding vector_from_string
  vector_from_string-texts args indent before after h hb ha =
      let texts = to_strings lib args indent in
      let all = before ++ (texts ++ after) in
      rw (trim-to_strings lib laws args indent before after h hb ha) (
        all-Reads lib laws args h (2 * length all + 2) indent (
          omega (
            arith,
            length_of before (texts ++ after),
            length_of texts after,
            weights-strings lib args indent,
          )))

-- Whatever the indent, a list of valid arguments of any depth, and a single one, come back from their
-- text as they were: numbers in the range of their types, texts and signatures with no `<`, strings
-- with no zero byte, arrays with one signature, no empty array of numbers but of Booleans, no single double, no handle,
-- and all of them values that `Set` takes. This is under the documented behaviour of the library's
-- number functions and of its trim.
pub from_string-to_string :
    (lib : Library) (args : Args) (a : MsgArg) (indent : ℕ)
    → Laws lib
    → AllValid lib args
    → IsValid lib a
    → (vector_from_string lib (to_strings lib args indent) ≡ some args)
      × (from_string lib (to_string lib a indent) ≡ some a)
unfolding to_string
from_string-to_string lib args a indent laws hs h = (
  ap (vector_from_string lib) (sym (append-nil (to_strings lib args indent)))
      ∙ vector_from_string-texts lib laws args indent [] [] hs tt tt,
  ap (λ s. from_string lib (spaces indent ++ s)) (sym (append-nil (body lib a indent)))
      ∙ from_string-body lib laws a indent (spaces indent) [] h (spaces-IsBlank indent) tt,
)
