-- ===== src/Wire.antt =====
-- The text of the connector's messages (app/XMPPConnector.cpp): what `ostringstream` writes line by
-- line, and the `istringstream` that it is read from.
pub mod Decimal
pub mod Objects
pub mod Codes
pub mod Send
pub mod Receive
pub mod RoundTrip
pub mod Dispatch
use xmppconn.Base.{
  ℕ, zero, suc, Bool, true, false, Option, none, some, List, [], ◌∷◌, ◌++◌, Bytes, newline, nat_eq,
  nat_eq_iff, if◌then◌else◌, ◌≡◌, refl, ap, sym, ◌∙◌, arith, Lacks, append_assoc, Bool-cases, inl,
  inr,
}

-- `stream << l << "\n"`, before what is written next.
infixr 5 ◌<<◌
abbrev pub ◌<<◌ : Bytes → Bytes → Bytes
l << s = l ++ newline ∷ s

-- The same for each line in turn.
abbrev pub write_lines : List Bytes → Bytes
write_lines [] = []
write_lines (l ∷ ls) = l << write_lines ls

-- An `istringstream` that is only read by `getline` is the list of the lines still to read.
abbrev pub Stream : Type 0
Stream = List Bytes

abbrev pub on_first_line : ℕ → Stream → Stream
on_first_line c [] = (c ∷ []) ∷ []
on_first_line c (l ∷ ls) = (c ∷ l) ∷ ls

unfoldable pub istringstream : Bytes → Stream
istringstream [] = []
istringstream (c ∷ s) =
    let rest = istringstream s in if nat_eq c newline then [] ∷ rest else on_first_line c rest

-- `getline` on a stream: `none` where it fails.
abbrev pub next_line : Stream → Option (Bytes × Stream)
next_line [] = none
next_line (l ∷ ls) = some (l, ls)

-- `while(getline(stream, line)) text += line + "\n"`
abbrev pub rest_of : Stream → Bytes
rest_of = write_lines

-- One `getline` on the characters: up to the next newline, which it drops, or to the end; it fails
-- at the end of the text.
unfoldable pub getline : Bytes → Option (Bytes × Bytes)
getline [] = none
getline (c ∷ s) =
    let rest = getline s in
    if nat_eq c newline
    then some ([], s)
    else some (elim rest [ none ↦ (c ∷ [], []) | some (l, r) ↦ (c ∷ l, r) ])

-- The lines of the list are those that `getline` reads.
pub next_line-istringstream :
    (s : Bytes)
    → next_line (istringstream s)
      ≡ (elim (getline s) [ none ↦ none | some (l, r) ↦ some (l, istringstream r) ])
unfolding istringstream getline
next_line-istringstream [] = refl
next_line-istringstream (c ∷ s) = ground (arith, next_line-istringstream s)

pub istringstream-line :
    (l s : Bytes) → Lacks newline l → istringstream (l << s) ≡ l ∷ istringstream s
unfolding istringstream
istringstream-line [] s h = refl
istringstream-line (c ∷ l) s (n, h) =
    rw (istringstream-line l s h) (ground (arith, nat_eq_iff c newline))

rest_of-first :
    (c : ℕ) (ls : Stream) (s : Bytes)
    → rest_of ls ≡ s ++ newline ∷ []
    → rest_of (on_first_line c ls) ≡ c ∷ s ++ newline ∷ []
rest_of-first c [] [] h = ground arith
rest_of-first c [] (d ∷ s) h = ground arith
rest_of-first c (l ∷ ls) s h = ap (◌∷◌ c) h

-- The rest of a text that ends with a newline is read whole.
pub rest_of-istringstream :
    (s : Bytes) → rest_of (istringstream (s ++ newline ∷ [])) ≡ s ++ newline ∷ []
unfolding istringstream
rest_of-istringstream [] = refl
rest_of-istringstream (c ∷ s) =
    let h = rest_of-istringstream s in
    elim (Bool-cases (nat_eq c newline)) [
      | inl e ↦ rw e (rw h (ground arith))
      | inr e ↦ rw e (rest_of-first c (istringstream (s ++ newline ∷ [])) s h)
    ]
