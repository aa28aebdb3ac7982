-- ===== src/MsgArg/Sequence.antt =====
-- Several arguments in one text: what is left of it behind a trim, and how it is read one argument
-- after another.
use xmppconn.Base.{
  ℕ, suc, some, [], ◌∷◌, ◌++◌, Bytes, newline, ◌≡◌, ◌≢◌, refl, sym, ap, ◌∙◌, arith, All,
  append_assoc, append-nil, subst, All-append, inr,
}
use xmppconn.MsgArg.{MsgArg, Args, Library, nil, cons}
use xmppconn.MsgArg.Print.{spaces, element, body, each_before, to_strings}
use xmppconn.MsgArg.Parse.{from_text, elements, read_element}
use xmppconn.MsgArg.Valid.{
  Laws, IsValid, AllValid, IsBlank, IsTrimmed, FirstInk, LastInk, LastInk-append,
}
use xmppconn.MsgArg.Numbers.{spaces-IsBlank}
use xmppconn.MsgArg.Element.{read_element-element}
use xmppconn.MsgArg.Shape.{Shape, body-Shape}
use xmppconn.MsgArg.Attributes.{line_start}

LastInk-element : (t attributes content : Bytes) → LastInk (element t attributes content)
LastInk-element t attributes content =
    let front = b'<' ∷ (t ++ (attributes ++ b'>' ∷ (content ++ b'<' ∷ b'/' ∷ t))) in
    let e : front ++ b'>' ∷ [] ≡ element t attributes content = simp append_assoc in
    subst LastInk e (LastInk-append front b'>' [] (omega arith))

element_nonempty : (t attributes content s : Bytes) → element t attributes content ++ s ≢ []
element_nonempty t attributes content s e = ground (arith, e)

module _ (lib : Library) where
  -- The texts without the blanks at both ends.
  abbrev pub all_text : Args → ℕ → Bytes
  all_text nil indent = []
  all_text (cons a args) indent = body lib a indent ++ each_before lib args indent

  each_before-all_text :
      (a : MsgArg) (args : Args) (indent : ℕ)
      → each_before lib (cons a args) indent
        ≡ (newline ∷ spaces indent) ++ all_text (cons a args) indent
  unfolding each_before
  each_before-all_text a args indent =
      ap (◌∷◌ newline)
        (append_assoc (spaces indent) (body lib a indent) (each_before lib args indent))

  to_strings-all_text :
      (a : MsgArg) (args : Args) (indent : ℕ)
      → to_strings lib (cons a args) indent
        ≡ spaces indent ++ (all_text (cons a args) indent ++ newline ∷ [])
  unfolding each_before to_strings
  to_strings-all_text a nil indent = simp (append_assoc, append-nil)
  to_strings-all_text a (cons b args) indent =
      rw (to_strings-all_text b args indent) (simp append_assoc)

  Shape-LastInk : (a : MsgArg) (indent : ℕ) → Shape lib a indent → LastInk (body lib a indent)
  Shape-LastInk a indent h =
      subst LastInk (sym h.is_element) (LastInk-element h.tag h.attributes h.content)

  Shape-FirstInk :
      (a : MsgArg) (indent : ℕ) (s : Bytes) → Shape lib a indent → FirstInk (body lib a indent ++ s)
  Shape-FirstInk a indent s h = subst (λ x. FirstInk (x ++ s)) (sym h.is_element) (omega arith)

  LastInk-line :
      (n : ℕ) (w s : Bytes)
      → FirstInk s
      → s ≢ []
      → LastInk s
      → LastInk (w ++ newline ∷ (spaces n ++ s))
  LastInk-line n w [] f e h = absurd (e refl)
  LastInk-line n w (c ∷ s) f e h =
      subst LastInk (append_assoc w (newline ∷ spaces n) (c ∷ s))
        (LastInk-append (w ++ newline ∷ spaces n) c s h)

  all_text-FirstInk :
      (args : Args) (indent : ℕ)
      → ((a : MsgArg) → IsValid lib a → Shape lib a indent)
      → AllValid lib args
      → FirstInk (all_text args indent)
  unfolding IsValid
  all_text-FirstInk nil indent shape h = tt
  all_text-FirstInk (cons a args) indent shape (ha, h) =
      Shape-FirstInk a indent (each_before lib args indent) (shape a ha)

  all_text-nonempty :
      (a : MsgArg) (args : Args) (indent : ℕ)
      → Shape lib a indent
      → all_text (cons a args) indent ≢ []
  all_text-nonempty a args indent h e =
      element_nonempty h.tag h.attributes h.content (each_before lib args indent)
        (subst (λ x. x ++ each_before lib args indent ≡ []) h.is_element e)

  all_text-LastInk :
      (args : Args) (indent : ℕ)
      → ((a : MsgArg) → IsValid lib a → Shape lib a indent)
      → AllValid lib args
      → LastInk (all_text args indent)
  unfolding IsValid
  all_text-LastInk nil indent shape h = tt
  all_text-LastInk (cons a nil) indent shape (ha, h) =
      unfold each_before in
      subst LastInk (sym (append-nil (body lib a indent))) (Shape-LastInk a indent (shape a ha))
  all_text-LastInk (cons a (cons b args)) indent shape (ha, h) =
      subst (λ x. LastInk (body lib a indent ++ x)) (sym (each_before-all_text b args indent))
        (LastInk-line indent (body lib a indent) (all_text (cons b args) indent)
          (all_text-FirstInk (cons b args) indent shape h)
          (all_text-nonempty b args indent (shape b h.0))
          (all_text-LastInk (cons b args) indent shape h))

module _ (lib : Library) (laws : Laws lib) where
  all_text-IsTrimmed :
      (args : Args) (indent : ℕ) → AllValid lib args → IsTrimmed (all_text lib args indent)
  all_text-IsTrimmed args indent h =
      let shape : (a : MsgArg) → IsValid lib a → Shape lib a indent =
        λ a ha. body-Shape lib laws a ha indent in
      (all_text-FirstInk lib args indent shape h, all_text-LastInk lib args indent shape h)

  -- Blanks around the texts are trimmed away.
  trim-around :
      (args : Args) (indent : ℕ) (before after : Bytes)
      → AllValid lib args
      → All IsBlank before
      → All IsBlank after
      → lib.trim (before ++ (all_text lib args indent ++ after)) ≡ all_text lib args indent
  trim-around args indent before after h hb ha =
      laws.trimmed before (all_text lib args indent) after hb ha (all_text-IsTrimmed args indent h)

  pub trim-each_before :
      (args : Args) (indent : ℕ) (after : Bytes)
      → AllValid lib args
      → All IsBlank after
      → lib.trim (each_before lib args indent ++ after) ≡ all_text lib args indent
  trim-each_before nil indent after h ha =
      unfold each_before in
      (ap lib.trim (sym (append-nil after)) ∙ laws.trimmed after [] [] ha tt (tt, tt))
  trim-each_before (cons a args) indent after h ha = rw (each_before-all_text lib a args indent) (
      ap lib.trim (append_assoc (newline ∷ spaces indent) (all_text lib (cons a args) indent) after)
      ∙ trim-around (cons a args) indent (newline ∷ spaces indent) after h (line_start indent) ha)

  pub trim-to_strings :
      (args : Args) (indent : ℕ) (before after : Bytes)
      → AllValid lib args
      → All IsBlank before
      → All IsBlank after
      → lib.trim (before ++ (to_strings lib args indent ++ after)) ≡ all_text lib args indent
  trim-to_strings nil indent before after h hb ha =
      unfold to_strings in laws.trimmed before [] after hb ha (tt, tt)
  trim-to_strings (cons a args) indent before after h hb ha =
      let all = all_text lib (cons a args) indent in
      let e : before ++ ((spaces indent ++ (all ++ newline ∷ [])) ++ after)
          ≡ (before ++ spaces indent) ++ (all ++ newline ∷ after) =
        simp append_assoc in
      rw (to_strings-all_text lib a args indent) (
        ap lib.trim e
        ∙ trim-around (cons a args) indent (before ++ spaces indent) (newline ∷ after) h
            (All-append IsBlank before (spaces indent) hb (spaces-IsBlank indent)) (inr refl, ha))

  elements_round :
      (f : ℕ) (t attributes content rest : Bytes)
      → elements lib (suc f) (element t attributes content ++ rest)
        ≡ read_element
            (from_text lib f)
            (λ r. elements lib f (lib.trim r))
            (element t attributes content ++ rest)
  unfolding elements
  elements_round f t attributes content rest = refl

  -- One argument is read, and then those behind it.
  pub elements-cons :
      (f : ℕ) (a : MsgArg) (args : Args) (indent : ℕ)
      → IsValid lib a
      → AllValid lib args
      → from_text lib f (body lib a indent) ≡ some a
      → elements lib f (all_text lib args indent) ≡ some args
      → elements lib (suc f) (all_text lib (cons a args) indent) ≡ some (cons a args)
  elements-cons f a args indent ha h one more =
      let s = body-Shape lib laws a ha indent in
      let rest = each_before lib args indent in
      let single : from_text lib f (element s.tag s.attributes s.content) ≡ some a =
        subst (λ x. from_text lib f x ≡ some a) s.is_element one in
      let trimmed : lib.trim rest ≡ all_text lib args indent =
        ap lib.trim (sym (append-nil rest)) ∙ trim-each_before args indent [] h tt in
      subst (λ x. elements lib (suc f) (x ++ rest) ≡ some (cons a args)) (sym s.is_element)
        (elements_round f s.tag s.attributes s.content rest
          ∙ read_element-element (from_text lib f) (λ r. elements lib f (lib.trim r)) s.tag
              s.attributes s.content rest s.tagged s.attributed (s.passed s.tag s.tagged)
          ∙ rw (single, trimmed, more) refl)
