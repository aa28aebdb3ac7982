-- ===== src/Wire/RoundTrip/Properties.antt =====
-- What arrives of the fields of an announcement's `AboutData`.
use xmppconn.Base.{
  List, [], ◌∷◌, ◌++◌, Bytes, newline, bytes_key, nat_eq, nat_eq_iff, if◌then◌else◌, ◌≡◌, ◌≢◌, refl,
  ap, sym, ◌∙◌, arith, Lacks, All, map, append_assoc, append-nil,
}
use xmppconn.Wire.{Stream, istringstream, ◌<<◌, istringstream-line, write_lines}
use xmppconn.Wire.Objects.RoundTrip.{IsLine, append-line, istringstream-lines}
use xmppconn.Wire.Send.{write_properties}
use xmppconn.Wire.Receive.{parse_properties}

-- The text of a value: one or more lines, none of them empty, the last not ended.
pub record IsProperty (f : Bytes × Bytes) : Type 0 where
  pub field_line : IsLine f.0
  pub lines : List Bytes
  pub lines_ok : All IsLine lines
  pub text : (f.1 << []) ≡ write_lines lines

-- A text without its newlines: the lines of a value are put together without their ends.
abbrev pub without_newlines : Bytes → Bytes
without_newlines [] = []
without_newlines (c ∷ s) =
    let rest = without_newlines s in if nat_eq c newline then rest else c ∷ rest

abbrev pub received_property : Bytes × Bytes → Bytes × Bytes
received_property (field, text) = (field, without_newlines text)

without_newlines-line :
    (l s : Bytes) → Lacks newline l → without_newlines (l << s) ≡ l ++ without_newlines s
without_newlines-line [] s _ = refl
without_newlines-line (c ∷ l) s (h, hs) =
    ground (arith, nat_eq_iff c newline, without_newlines-line l s hs)

without_newlines-end : (s : Bytes) → without_newlines (s << []) ≡ without_newlines s
without_newlines-end [] = refl
without_newlines-end (c ∷ s) = ground (arith, without_newlines-end s)

parse_value_line :
    (name desc l : Bytes) (fields : List (Bytes × Bytes)) (s : Stream)
    → name ≢ []
    → l ≢ []
    → parse_properties name desc fields (l ∷ s) ≡ parse_properties name (desc ++ l) fields s
unfolding parse_properties
parse_value_line name desc l fields s hn hl = ground (arith, hn, hl)

parse_value :
    (name desc : Bytes) (ls : List Bytes) (fields : List (Bytes × Bytes)) (s : Stream)
    → name ≢ []
    → All IsLine ls
    → parse_properties name desc fields (ls ++ s)
      ≡ parse_properties name (desc ++ without_newlines (write_lines ls)) fields s
parse_value name desc [] fields s hn _ =
    ap (λ d. parse_properties name d fields s) (sym (append-nil desc))
parse_value name desc (l ∷ ls) fields s hn (hl, hls) =
    parse_value_line name desc l fields (ls ++ s) hn hl.some_text
    ∙ parse_value name (desc ++ l) ls fields s hn hls
    ∙ ap (λ d. parse_properties name d fields s)
        (append_assoc desc l (without_newlines (write_lines ls))
          ∙ ap (λ x. desc ++ x) (sym (without_newlines-line l (write_lines ls) hl.one_line)))

parse_value_end :
    (name desc : Bytes) (fields : List (Bytes × Bytes)) (s : Stream)
    → name ≢ []
    → parse_properties name desc fields ([] ∷ s)
      ≡ parse_properties [] [] (fields ++ (name, desc) ∷ []) s
unfolding parse_properties
parse_value_end name desc fields s hn = ground (arith, hn)

parse_field :
    (name : Bytes) (fields : List (Bytes × Bytes)) (s : Stream)
    → name ≢ []
    → parse_properties [] [] fields (name ∷ s) ≡ parse_properties name [] fields s
unfolding parse_properties
parse_field name fields s hn = ground (arith, hn)

value_lines :
    (f : Bytes × Bytes) (s : Bytes) (h : IsProperty f)
    → istringstream (f.1 << [] << s) ≡ h.lines ++ [] ∷ istringstream s
value_lines f s h =
    ap istringstream
      (sym (append_assoc f.1 (newline ∷ []) ([] << s)) ∙ ap (λ x. x ++ ([] << s)) h.text)
    ∙ istringstream-lines h.lines ([] << s) h.lines_ok
    ∙ ap (λ x. h.lines ++ x) (istringstream-line [] s _)

value_text :
    (f : Bytes × Bytes) (h : IsProperty f)
    → without_newlines (write_lines h.lines) ≡ without_newlines f.1
value_text f h = ap without_newlines (sym h.text) ∙ without_newlines-end f.1

one_property :
    (f : Bytes × Bytes) (fields : List (Bytes × Bytes)) (s : Bytes)
    → IsProperty f
    → parse_properties [] [] fields (istringstream (f.0 << f.1 << [] << s))
      ≡ parse_properties [] [] (fields ++ received_property f ∷ []) (istringstream s)
one_property f fields s h =
    ap (parse_properties [] [] fields) (
      istringstream-line f.0 (f.1 << [] << s) h.field_line.one_line
      ∙ ap (◌∷◌ f.0) (value_lines f s h))
    ∙ parse_field f.0 fields (h.lines ++ [] ∷ istringstream s) h.field_line.some_text
    ∙ parse_value f.0 [] h.lines fields ([] ∷ istringstream s) h.field_line.some_text h.lines_ok
    ∙ parse_value_end f.0 (without_newlines (write_lines h.lines)) fields (istringstream s)
        h.field_line.some_text
    ∙ ap (λ d. parse_properties [] [] (fields ++ (f.0, d) ∷ []) (istringstream s)) (value_text f h)

pub parse_fields :
    (fs fields : List (Bytes × Bytes)) (s : Bytes)
    → All IsProperty fs
    → parse_properties [] [] fields (istringstream (write_properties fs ++ ([] << s)))
      ≡ (fields ++ map received_property fs, istringstream s)
unfolding write_properties
parse_fields [] fields s _ =
    unfold parse_properties in
    ap (parse_properties [] [] fields) (istringstream-line [] s _)
    ∙ ap (λ x. (x, istringstream s)) (sym (append-nil fields))
parse_fields (f ∷ fs) fields s (hf, hfs) =
    ap (λ x. parse_properties [] [] fields (istringstream x))
      (append-line f.0 (f.1 << [] << write_properties fs) ([] << s)
        ∙ ap (λ x. f.0 << x) (append-line f.1 ([] << write_properties fs) ([] << s)))
    ∙ one_property f fields (write_properties fs ++ ([] << s)) hf
    ∙ parse_fields fs (fields ++ received_property f ∷ []) s hfs
    ∙ ap (λ x. (x, istringstream s))
        (append_assoc fields (received_property f ∷ []) (map received_property fs))
