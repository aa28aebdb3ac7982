-- ===== src/MsgArg/Shape.antt =====
-- Each printed argument is one element, which every search passes; and what the texts of several
-- arguments look like behind a trim.
use xmppconn.Base.{
  ℕ, ◌+◌, true, [], ◌∷◌, ◌++◌, List, Bytes, codes, newline, ◌≡◌, ◌≢◌, refl, sym, arith, All, Lacks,
  subst, All-append, inr,
}
use xmppconn.MsgArg.{
  Scalar, MsgArg, Args, Library, invalid, array, scalar, dict_entry, text, struct, variant, handle,
  scalar_array, nil, cons,
}
use xmppconn.MsgArg.Print.{
  spaces, element, quoted, scalar_name, text_name, number_text, number_texts, scalar_array_content,
  body, each_before, to_strings,
}
use xmppconn.MsgArg.Passes.{
  Passes, Passes-plain, Passes-append, Passes-element, is_tag, IsAttributes,
}
use xmppconn.MsgArg.Valid.{Laws, IsValid, AllValid, IsBlank}
use xmppconn.MsgArg.Numbers.{number_text-IsWord, spaces-IsBlank}
use xmppconn.MsgArg.Attributes.{
  blank_plain, word_plain, line_start, scalar_tag, array_tag, dict_entry_tag, struct_tag,
  variant_tag, text_tag, type_sig-IsAttributes, signature-IsAttributes, type-IsAttributes,
}

-- An argument's text as one element, passed in a search for any name.
pub record Shape (lib : Library) (a : MsgArg) (indent : ℕ) : Type 0 where
  pub tag : Bytes
  pub attributes : Bytes
  pub content : Bytes
  pub is_element : body lib a indent ≡ element tag attributes content
  pub tagged : is_tag tag ≡ true
  pub attributed : IsAttributes attributes
  pub passed : (name : Bytes) (t : is_tag name ≡ true) → Passes name t content

Shape-Passes :
    (lib : Library) (a : MsgArg) (indent : ℕ) (h : Shape lib a indent) (name : Bytes)
    (t : is_tag name ≡ true)
    → Passes name t (body lib a indent)
Shape-Passes lib a indent h name t =
    subst (Passes name t) (sym h.is_element)
      (Passes-element name t h.tag h.attributes h.content h.tagged h.attributed (h.passed name t))

module _ (lib : Library) (laws : Laws lib) where
  number_texts-Lacks : (kind : Scalar) (ns : List ℕ) → Lacks b'<' (number_texts lib kind ns)
  unfolding number_texts
  number_texts-Lacks kind [] = tt
  number_texts-Lacks kind (n ∷ ns) =
      All-append (λ c. c ≢ b'<') (number_text lib kind n) (b' ' ∷ number_texts lib kind ns)
        (word_plain (number_text lib kind n) (number_text-IsWord lib laws kind n).1)
        (λ e. absurd (omega (arith, e)), number_texts-Lacks kind ns)

  scalar_content-Lacks :
      (kind : Scalar) (ns : List ℕ) (indent : ℕ)
      → Lacks b'<' (scalar_array_content lib kind ns indent)
  unfolding scalar_array_content
  scalar_content-Lacks kind [] indent = blank_plain (newline ∷ spaces indent) (line_start indent)
  scalar_content-Lacks kind (n ∷ ns) indent =
      All-append (λ c. c ≢ b'<') (newline ∷ (spaces (indent + 2) ++ number_texts lib kind (n ∷ ns)))
        (newline ∷ spaces indent)
        (
          λ e. absurd (omega (arith, e)),
          All-append (λ c. c ≢ b'<') (spaces (indent + 2)) (number_texts lib kind (n ∷ ns))
              (blank_plain (spaces (indent + 2)) (spaces-IsBlank (indent + 2)))
              (number_texts-Lacks kind (n ∷ ns)),
        )
        (blank_plain (newline ∷ spaces indent) (line_start indent))

  blank-Passes :
      (name : Bytes) (t : is_tag name ≡ true) (s : Bytes) → All IsBlank s → Passes name t s
  blank-Passes name t s h = Passes-plain name t s (blank_plain s h)

  -- A line with an indent, and what follows it.
  line-Passes :
      (name : Bytes) (t : is_tag name ≡ true) (indent : ℕ) (s rest : Bytes)
      → Passes name t s
      → Passes name t rest
      → Passes name t ((spaces indent ++ s) ++ rest)
  line-Passes name t indent s rest hs hr =
      Passes-append name t (spaces indent ++ s) rest
        (Passes-append name t (spaces indent) s
          (blank-Passes name t (spaces indent) (spaces-IsBlank indent)) hs)
        hr

  newline-Passes :
      (name : Bytes) (t : is_tag name ≡ true) (s : Bytes)
      → Passes name t s
      → Passes name t (newline ∷ s)
  newline-Passes name t s h =
      Passes-append name t (newline ∷ []) s (blank-Passes name t (newline ∷ []) (inr refl, tt)) h

  mutual
    unfolding body each_before to_strings IsValid

    pub body-Shape : (a : MsgArg) → IsValid lib a → (indent : ℕ) → Shape lib a indent
    body-Shape invalid h indent = absurd h
    body-Shape (handle fd) h indent = absurd h
    body-Shape (array sig elems) (_, hs, _, he) indent = record {
      tag = codes "array";
      attributes = quoted (codes "type_sig") sig;
      content = each_before lib elems (indent + 2) ++ newline ∷ spaces indent;
      is_element = refl;
      tagged = array_tag;
      attributed = type_sig-IsAttributes sig hs;
      passed = λ name t.
          Passes-append name t (each_before lib elems (indent + 2)) (newline ∷ spaces indent)
            (each-Passes elems he (indent + 2) name t)
            (blank-Passes name t (newline ∷ spaces indent) (line_start indent));
    }
    body-Shape (scalar kind n) h indent = record {
      tag = scalar_name kind;
      attributes = [];
      content = number_text lib kind n;
      is_element = refl;
      tagged = scalar_tag kind;
      attributed = tt;
      passed = λ name t.
          Passes-plain name t (number_text lib kind n)
            (word_plain (number_text lib kind n) (number_text-IsWord lib laws kind n).1);
    }
    body-Shape (dict_entry key val) (_, hk, hv) indent = record {
      tag = codes "dict_entry";
      attributes = [];
      content =
          newline
          ∷ ((spaces (indent + 2) ++ body lib key (indent + 2))
              ++ newline
                ∷ ((spaces (indent + 2) ++ body lib val (indent + 2)) ++ newline ∷ spaces indent));
      is_element = refl;
      tagged = dict_entry_tag;
      attributed = tt;
      passed = λ name t. newline-Passes name t _ (
          line-Passes name t (indent + 2) (body lib key (indent + 2)) _
            (Shape-Passes lib key (indent + 2) (body-Shape key hk (indent + 2)) name t)
            (newline-Passes name t _ (
              line-Passes name t (indent + 2) (body lib val (indent + 2)) _
                (Shape-Passes lib val (indent + 2) (body-Shape val hv (indent + 2)) name t)
                (blank-Passes name t (newline ∷ spaces indent) (line_start indent)))));
    }
    body-Shape (text kind s) (_, h, _) indent = record {
      tag = text_name kind;
      attributes = [];
      content = s;
      is_element = refl;
      tagged = text_tag kind;
      attributed = tt;
      passed = λ name t. Passes-plain name t s h;
    }
    body-Shape (struct members) (_, _, hm) indent = record {
      tag = codes "struct";
      attributes = [];
      content = newline ∷ (to_strings lib members (indent + 2) ++ spaces indent);
      is_element = refl;
      tagged = struct_tag;
      attributed = tt;
      passed = λ name t. newline-Passes name t _ (
          Passes-append name t (to_strings lib members (indent + 2)) (spaces indent)
            (strings-Passes members hm (indent + 2) name t)
            (blank-Passes name t (spaces indent) (spaces-IsBlank indent)));
    }
    body-Shape (variant val) (_, hs, hv) indent = record {
      tag = codes "variant";
      attributes = quoted (codes "signature") (lib.signature_of val);
      content =
          newline ∷ ((spaces (indent + 2) ++ body lib val (indent + 2)) ++ newline ∷ spaces indent);
      is_element = refl;
      tagged = variant_tag;
      attributed = signature-IsAttributes (lib.signature_of val) hs;
      passed = λ name t. newline-Passes name t _ (
          line-Passes name t (indent + 2) (body lib val (indent + 2)) _
            (Shape-Passes lib val (indent + 2) (body-Shape val hv (indent + 2)) name t)
            (blank-Passes name t (newline ∷ spaces indent) (line_start indent)));
    }
    body-Shape (scalar_array kind numbers) h indent = record {
      tag = codes "array";
      attributes = quoted (codes "type") (scalar_name kind);
      content = scalar_array_content lib kind numbers indent;
      is_element = refl;
      tagged = array_tag;
      attributed = type-IsAttributes kind;
      passed = λ name t.
          Passes-plain name t (scalar_array_content lib kind numbers indent)
            (scalar_content-Lacks kind numbers indent);
    }

    each-Passes :
        (args : Args)
        → AllValid lib args
        → (indent : ℕ) (name : Bytes) (t : is_tag name ≡ true)
        → Passes name t (each_before lib args indent)
    each-Passes nil h indent name t = Passes-plain name t [] tt
    each-Passes (cons a args) (ha, h) indent name t = newline-Passes name t _ (
        line-Passes name t indent (body lib a indent) (each_before lib args indent)
          (Shape-Passes lib a indent (body-Shape a ha indent) name t)
          (each-Passes args h indent name t))

    strings-Passes :
        (args : Args)
        → AllValid lib args
        → (indent : ℕ) (name : Bytes) (t : is_tag name ≡ true)
        → Passes name t (to_strings lib args indent)
    strings-Passes nil h indent name t = Passes-plain name t [] tt
    strings-Passes (cons a args) (ha, h) indent name t =
        line-Passes name t indent (body lib a indent) (newline ∷ to_strings lib args indent)
          (Shape-Passes lib a indent (body-Shape a ha indent) name t)
          (newline-Passes name t _ (strings-Passes args h indent name t))
