-- ===== src/MsgArg/Reads.antt =====
-- The text of an argument of each type is read back, if those of its parts are.
use xmppconn.Base.{
  ℕ, suc, ◌+◌, ◌<◌, true, some, List, [], ◌∷◌, ◌++◌, Bytes, codes, newline, ◌≡◌, refl, sym, ap, ◌∙◌,
  All, Lacks, append_assoc, append-nil, subst, bytes_eq, bytes_eq_iff, Bool-cases, inl, inr,
}
use xmppconn.MsgArg.{
  double, Scalar, Text, MsgArg, Args, Library, boolean, signature, object_path, string, array,
  scalar, dict_entry, text, struct, variant, scalar_array, nil, cons,
}
use xmppconn.MsgArg.Print.{
  spaces, element, quoted, scalar_name, text_name, number_text, scalar_array_content, body,
  each_before, to_strings,
}
use xmppconn.MsgArg.Parse.{
  set_scalar, form_of, read_form, from_text, elements, only_strings, read_array, read_entry,
  set_numbers,
}
use xmppconn.MsgArg.Valid.{
  IsPassed, Laws, IsValid, AllValid, IsBlank, IsString, IsSignature, HaveSignature, IsReadable,
  Takes, bound,
}
use xmppconn.MsgArg.Numbers.{read-number_text, read-scalar_array_content, spaces-IsBlank}
use xmppconn.MsgArg.Passes.{is_tag, is_tag-IsName, IsAttributes}
use xmppconn.MsgArg.Element.{read_text-element}
use xmppconn.MsgArg.Cuts.{tag_of}
use xmppconn.MsgArg.Attributes.{
  line_start, scalar_tag, text_tag, array_tag, dict_entry_tag, struct_tag, variant_tag,
  type_sig-IsAttributes, signature-IsAttributes, type-IsAttributes,
}
use xmppconn.MsgArg.Sequence.{all_text, trim-each_before, trim-to_strings, elements-cons}
use xmppconn.MsgArg.Forms.{
  form-scalar, form-text, form-scalar_array, form-array, form-variant, form-dict_entry, form-struct,
  array_signature-quoted, c_str-whole,
}

-- The fuel that the reading of an argument needs.
unfoldable mutual
  pub weight : MsgArg → ℕ
  weight (array sig elems) = suc (weights elems)
  weight (dict_entry key val) = 4 + weight key + weight val
  weight (struct members) = suc (weights members)
  weight (variant val) = suc (weight val)
  weight a = 1

  pub weights : Args → ℕ
  weights nil = 1
  weights (cons a args) = suc (weight a + weights args)

module _ (lib : Library) (laws : Laws lib) where
  only_strings-string :
      (a : MsgArg) (args : Args)
      → IsString a
      → only_strings args ≡ args
      → only_strings (cons a args) ≡ cons a args
  unfolding only_strings
  only_strings-string (text string s) args h e = rw e refl
  only_strings-string (text signature s) args h e = absurd h
  only_strings-string (text object_path s) args h e = absurd h
  only_strings-string _ args h e = absurd h

  only_strings-all : (args : Args) → HaveSignature lib (codes "s") args → only_strings args ≡ args
  only_strings-all nil h = unfold only_strings in refl
  only_strings-all (cons a args) (ha, h) =
      only_strings-string a args (laws.string_signature a ha) (only_strings-all args h)

  read_array-valid :
      (sig : Bytes) (elems : Args)
      → Takes lib (array sig elems)
      → HaveSignature lib sig elems
      → read_array lib sig elems ≡ array sig elems
  unfolding read_array
  read_array-valid sig nil ht h = ht
  read_array-valid sig (cons a args) ht h = elim (Bool-cases (bytes_eq sig (codes "s"))) [
    | inl e ↦
        let s : sig ≡ codes "s" = (bytes_eq_iff sig (codes "s")).0 e in
        let all =
          only_strings-all (cons a args) (subst (λ x. HaveSignature lib x (cons a args)) s h) in
        rw (e, all) ht
    | inr e ↦ rw (e, h.0) ht
  ]

  set_numbers-valid :
      (kind : Scalar) (ns : List ℕ)
      → Takes lib (scalar_array kind ns)
      → IsReadable kind ns
      → set_numbers lib kind ns ≡ scalar_array kind ns
  unfolding set_numbers
  set_numbers-valid boolean [] h r = h
  set_numbers-valid boolean (n ∷ ns) h r = h
  set_numbers-valid kind [] h r = absurd r
  set_numbers-valid kind (n ∷ ns) h r = h

  pub from_text-element :
      (f : ℕ) (before t attributes content after : Bytes)
      → is_tag t ≡ true
      → IsAttributes attributes
      → All IsBlank before
      → All IsBlank after
      → from_text lib (suc f) (before ++ (element t attributes content ++ after))
        ≡ read_form lib
            (λ x. elements lib f (lib.trim x))
            (from_text lib f)
            (form_of (tag_of t attributes))
            (tag_of t attributes)
            content
  unfolding from_text
  from_text-element f before t attributes content after ht ha hb hafter =
      read_text-element lib laws (λ x. elements lib f (lib.trim x)) (from_text lib f) before t
        attributes content after hb hafter (is_tag-IsName t ht) ha

  -- The text of an argument, with blanks around it, is read back.
  unfoldable pub Reads : ℕ → MsgArg → ℕ → Type 0
  Reads f a indent =
      (before after : Bytes)
      → All IsBlank before
      → All IsBlank after
      → from_text lib f (before ++ (body lib a indent ++ after)) ≡ some a

  pub Reads-at :
      (f : ℕ) (a : MsgArg) (indent : ℕ)
      → Reads f a indent
      → from_text lib f (body lib a indent) ≡ some a
  unfolding Reads
  Reads-at f a indent h =
      ap (from_text lib f) (sym (append-nil (body lib a indent))) ∙ h [] [] tt tt

  set_scalar-passed :
      (kind : Scalar) (n : ℕ) → IsPassed kind → set_scalar lib kind n ≡ lib.set (scalar kind n)
  unfolding set_scalar
  set_scalar-passed double n h = absurd h
  set_scalar-passed kind n h = refl

  pub scalar-Reads :
      (f : ℕ) (kind : Scalar) (n indent : ℕ)
      → Takes lib (scalar kind n)
      → IsPassed kind
      → n < bound kind
      → Reads (suc f) (scalar kind n) indent
  unfolding Reads body read_form
  scalar-Reads f kind n indent ht hp hn before after hb ha =
      from_text-element f before (scalar_name kind) [] (number_text lib kind n) after
        (scalar_tag kind) tt hb ha
      ∙ rw (form-scalar kind)
          (rw (read-number_text lib laws kind n hn) (ap some (set_scalar-passed kind n hp ∙ ht)))

  pub text-Reads :
      (f : ℕ) (kind : Text) (s : Bytes) (indent : ℕ)
      → Takes lib (text kind s)
      → Lacks 0 s
      → Reads (suc f) (text kind s) indent
  unfolding Reads body read_form
  text-Reads f kind s indent ht hs before after hb ha =
      from_text-element f before (text_name kind) [] s after (text_tag kind) tt hb ha
      ∙ rw (form-text kind) (rw (c_str-whole s hs) (ap some ht))

  pub scalar_array-Reads :
      (f : ℕ) (kind : Scalar) (ns : List ℕ) (indent : ℕ)
      → Takes lib (scalar_array kind ns)
      → IsReadable kind ns
      → All (λ n. n < bound kind) ns
      → Reads (suc f) (scalar_array kind ns) indent
  unfolding Reads body read_form
  scalar_array-Reads f kind ns indent ht hr hn before after hb ha =
      from_text-element f before (codes "array") (quoted (codes "type") (scalar_name kind))
        (scalar_array_content lib kind ns indent) after array_tag (type-IsAttributes kind) hb ha
      ∙ rw (form-scalar_array kind) (
          ap (λ x. some (set_numbers lib kind x))
            (read-scalar_array_content lib laws kind ns indent hn)
          ∙ ap some (set_numbers-valid kind ns ht hr))

  pub array-Reads :
      (f : ℕ) (sig : Bytes) (elems : Args) (indent : ℕ)
      → Takes lib (array sig elems)
      → IsSignature sig
      → HaveSignature lib sig elems
      → AllValid lib elems
      → elements lib f (all_text lib elems (indent + 2)) ≡ some elems
      → Reads (suc f) (array sig elems) indent
  unfolding Reads body read_form
  array-Reads f sig elems indent ht hs hh he inner before after hb ha =
      from_text-element f before (codes "array") (quoted (codes "type_sig") sig)
        (each_before lib elems (indent + 2) ++ newline ∷ spaces indent) after array_tag
        (type_sig-IsAttributes sig hs) hb ha
      ∙ rw (form-array sig) (
          rw
            (trim-each_before lib laws elems (indent + 2) (newline ∷ spaces indent) he
              (line_start indent))
            (rw inner
              (rw (array_signature-quoted sig hs) (ap some (read_array-valid sig elems ht hh)))))

  pub struct-Reads :
      (f : ℕ) (members : Args) (indent : ℕ)
      → Takes lib (struct members)
      → AllValid lib members
      → elements lib f (all_text lib members (indent + 2)) ≡ some members
      → Reads (suc f) (struct members) indent
  unfolding Reads body read_form
  struct-Reads f members indent ht hm inner before after hb ha =
      from_text-element f before (codes "struct") []
        (newline ∷ (to_strings lib members (indent + 2) ++ spaces indent)) after struct_tag tt hb ha
      ∙ rw form-struct (
          rw
            (trim-to_strings lib laws members (indent + 2) (newline ∷ []) (spaces indent) hm
              (inr refl, tt) (spaces-IsBlank indent))
            (rw inner (ap some ht)))

  pub variant-Reads :
      (f : ℕ) (val : MsgArg) (indent : ℕ)
      → Takes lib (variant val)
      → IsSignature (lib.signature_of val)
      → Reads f val (indent + 2)
      → Reads (suc f) (variant val) indent
  unfolding Reads body read_form
  variant-Reads f val indent ht hs inner before after hb ha =
      let content =
        newline ∷ ((spaces (indent + 2) ++ body lib val (indent + 2)) ++ newline ∷ spaces indent) in
      let e : content
          ≡ (newline ∷ spaces (indent + 2))
            ++ (body lib val (indent + 2) ++ newline ∷ spaces indent) =
        simp append_assoc in
      from_text-element f before (codes "variant")
        (quoted (codes "signature") (lib.signature_of val)) content after variant_tag
        (signature-IsAttributes (lib.signature_of val) hs) hb ha
      ∙ rw (form-variant (lib.signature_of val)) (
          rw e (
            rw
              (inner (newline ∷ spaces (indent + 2)) (newline ∷ spaces indent)
                (line_start (indent + 2)) (line_start indent))
              (ap some ht)))

  pair_text :
      (key val : MsgArg) (indent : ℕ)
      → (spaces (indent + 2) ++ body lib key (indent + 2))
          ++ newline
            ∷ ((spaces (indent + 2) ++ body lib val (indent + 2)) ++ newline ∷ spaces indent)
        ≡ to_strings lib (cons key (cons val nil)) (indent + 2) ++ spaces indent
  unfolding to_strings
  pair_text key val indent = simp append_assoc

  pub elements-nil : (f indent : ℕ) → elements lib (suc f) (all_text lib nil indent) ≡ some nil
  unfolding elements
  elements-nil f indent = refl

  pub dict_entry-Reads :
      (f : ℕ) (key val : MsgArg) (indent : ℕ)
      → Takes lib (dict_entry key val)
      → IsValid lib key
      → IsValid lib val
      → Reads (suc (suc f)) key (indent + 2)
      → Reads (suc f) val (indent + 2)
      → Reads (suc (suc (suc (suc f)))) (dict_entry key val) indent
  unfolding body read_form IsValid read_entry
  dict_entry-Reads f key val indent ht hk hv rk rv =
      let all : AllValid lib (cons key (cons val nil)) = (hk, (hv, tt)) in
      let inner : elements lib (suc (suc (suc f)))
            (all_text lib (cons key (cons val nil)) (indent + 2))
          ≡ some (cons key (cons val nil)) =
        elements-cons lib laws (suc (suc f)) key (cons val nil) (indent + 2) hk (hv, tt)
          (Reads-at (suc (suc f)) key (indent + 2) rk)
          (elements-cons lib laws (suc f) val nil (indent + 2) hv tt
            (Reads-at (suc f) val (indent + 2) rv) (elements-nil f (indent + 2))) in
      let content =
        newline
        ∷ ((spaces (indent + 2) ++ body lib key (indent + 2))
            ++ newline
              ∷ ((spaces (indent + 2) ++ body lib val (indent + 2)) ++ newline ∷ spaces indent)) in
      unfold Reads in
      λ before after hb ha.
        from_text-element (suc (suc (suc f))) before (codes "dict_entry") [] content after
          dict_entry_tag tt hb ha
        ∙ rw form-dict_entry (
            rw (pair_text key val indent) (
              rw
                (trim-to_strings lib laws (cons key (cons val nil)) (indent + 2) (newline ∷ [])
                  (spaces indent) all (inr refl, tt) (spaces-IsBlank indent))
                (rw inner (ap some ht))))
