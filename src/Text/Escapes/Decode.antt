-- ===== src/Text/Escapes/Decode.antt =====
-- What `UnescapeXml` makes of an escaped text.
use mathlib.Core.List.{flat_map}
use xmppconn.Base.{
  ℕ, zero, suc, ◌<◌, ◌⊎◌, All, Lacks, false, ◌&&◌, some, Bytes, codes, ◌>>=◌, ◌≡◌, ◌≢◌, refl,
  if◌then◌else◌, nat_eq, ◌∷◌, [], ◌++◌, arith, ap, ◌∙◌, Bool-cases, inl, inr, length, length-append,
}
use xmppconn.Text.{starts_with}
use xmppconn.Text.ReplaceAll.{
  pass, replace_all-pass, swept, swept-hit, swept-miss, starts_with_split,
}
use xmppconn.Text.Escapes.{escape_xml, unescape_xml, unescape_marks, entity}
use xmppconn.Text.Escapes.Encode.{escape_xml-entity, flat_map-append}

-- The entities without the ampersand's.
abbrev mark : ℕ → Bytes
mark c =
    if nat_eq 34 c
    then codes "&quot;"
    else if nat_eq 39 c
    then codes "&apos;"
    else if nat_eq 60 c
    then codes "&lt;"
    else if nat_eq 62 c
    then codes "&gt;"
    else c ∷ []

abbrev mark₃ : ℕ → Bytes
mark₃ c =
    if nat_eq 39 c
    then codes "&apos;"
    else if nat_eq 60 c
    then codes "&lt;"
    else if nat_eq 62 c
    then codes "&gt;"
    else c ∷ []

abbrev mark₂ : ℕ → Bytes
mark₂ c = if nat_eq 60 c then codes "&lt;" else if nat_eq 62 c then codes "&gt;" else c ∷ []

abbrev mark₁ : ℕ → Bytes
mark₁ c = if nat_eq 62 c then codes "&gt;" else c ∷ []

amp_round :
    (c : ℕ) (t : Bytes)
    → pass (codes "&amp;") (codes "&") 0 (entity c ++ t)
      ≡ mark c ++ pass (codes "&amp;") (codes "&") 0 t
unfolding starts_with
amp_round c t = ground arith

pass-amp : (s : Bytes) → pass (codes "&amp;") (codes "&") 0 (flat_map entity s) ≡ flat_map mark s
unfolding flat_map
pass-amp [] = refl
pass-amp (c ∷ s) = amp_round c (flat_map entity s) ∙ ap (◌++◌ (mark c)) (pass-amp s)

-- One of the other four: `&name` stands for the byte `q`, `enc` writes it and `enc'` does not.
module _ (name : Bytes) (q : ℕ) (enc enc' : ℕ → Bytes)
    (plain : (enc 38 ≡ 38 ∷ []) × (enc' 38 ≡ 38 ∷ [])) (q-ne-amp : q ≢ 38)
    (quoted : (enc q ≡ 38 ∷ name) × (enc' q ≡ q ∷ []))
    (others : (c : ℕ) (t : Bytes)
      → c ≢ 38
      → c ≢ q
      → swept 38 name (q ∷ []) (enc c ++ t) ≡ enc' c ++ swept 38 name (q ∷ []) t)
    (miss_here : (c : ℕ) (s : Bytes) → c ≢ 38 → starts_with (38 ∷ name) (c ∷ s) ≡ false)
    (known : flat_map enc (38 ∷ name) ≡ 38 ∷ name)
    (same_start : (s : Bytes) → starts_with name (flat_map enc s) ≡ starts_with name s) where
  abbrev decode : Bytes → Bytes
  decode = swept 38 name (q ∷ [])

  decode_amp :
      (s : Bytes)
      → starts_with (38 ∷ name) (38 ∷ s) ≡ false
      → decode (flat_map enc s) ≡ flat_map enc' (decode s)
      → decode (flat_map enc (38 ∷ s)) ≡ flat_map enc' (decode (38 ∷ s))
  unfolding flat_map
  decode_amp s miss ih =
      let missed : starts_with (38 ∷ name) (38 ∷ flat_map enc s) ≡ false =
        unfold starts_with in same_start s ∙ miss in
      rw (
        plain.0,
        swept-miss 38 name (q ∷ []) 38 s miss,
        plain.1,
        swept-miss 38 name (q ∷ []) 38 (flat_map enc s) missed,
        ih,
      )

  decode_hit :
      (post : Bytes)
      → decode (flat_map enc post) ≡ flat_map enc' (decode post)
      → decode (flat_map enc (38 ∷ name ++ post)) ≡ flat_map enc' (decode (38 ∷ name ++ post))
  decode_hit post ih =
      rw
        (
          flat_map-append enc (38 ∷ name) post,
          known,
          swept-hit 38 name (q ∷ []) (flat_map enc post),
          swept-hit 38 name (q ∷ []) post,
          flat_map-append enc' (q ∷ []) (decode post),
        )
        (unfold flat_map in rw (ih, quoted.1))

  decode_quote :
      (s : Bytes)
      → decode (flat_map enc s) ≡ flat_map enc' (decode s)
      → decode (flat_map enc (q ∷ s)) ≡ flat_map enc' (decode (q ∷ s))
  unfolding flat_map
  decode_quote s ih = rw (
    quoted.0,
    swept-hit 38 name (q ∷ []) (flat_map enc s),
    ih,
    swept-miss 38 name (q ∷ []) q s (miss_here q s q-ne-amp),
    quoted.1,
  )

  decode_other :
      (c : ℕ) (s : Bytes)
      → c ≢ 38
      → c ≢ q
      → decode (flat_map enc s) ≡ flat_map enc' (decode s)
      → decode (flat_map enc (c ∷ s)) ≡ flat_map enc' (decode (c ∷ s))
  unfolding flat_map
  decode_other c s a b ih =
      rw (swept-miss 38 name (q ∷ []) c s (miss_here c s a), others c (flat_map enc s) a b, ih)

  decode_by_length :
      (n : ℕ) (s : Bytes) → length s < n → decode (flat_map enc s) ≡ flat_map enc' (decode s)
  decode_by_length zero s h = elim h [ ]
  decode_by_length (suc n) [] h = unfold swept flat_map in refl
  decode_by_length (suc n) (c ∷ s) h =
      let ih = decode_by_length n s (omega arith) in
      elim (Bool-cases (starts_with (38 ∷ name) (c ∷ s))) [
        | inl hit ↦
            let (post, e) = starts_with_split (38 ∷ name) (c ∷ s) hit in
            rw e (
              decode_hit post (
                decode_by_length n post
                  (omega (arith, h, ap length e, length-append (38 ∷ name) post))))
        | inr miss ↦ elim (Bool-cases (nat_eq 38 c)) [
          | inl amp ↦ let e : c ≡ 38 = ground arith in rw e (decode_amp s (rw e at miss) ih)
          | inr other ↦ elim (Bool-cases (nat_eq q c)) [
            | inl quote ↦ let e : c ≡ q = ground arith in rw e (decode_quote s ih)
            | inr neither ↦ decode_other c s (ground arith) (ground arith) ih
          ]
        ]
      ]

  pass-flat_map :
      (s : Bytes)
      → pass (38 ∷ name) (q ∷ []) 0 (flat_map enc s) ≡ flat_map enc' (pass (38 ∷ name) (q ∷ []) 0 s)
  unfolding swept
  pass-flat_map s = decode_by_length (suc (length s)) s (omega arith)

-- A text with no byte that `enc` changes starts the coded text exactly if it starts the text.
starts_with-flat_map :
    (enc : ℕ → Bytes)
    → ((c : ℕ) → (enc c ≡ c ∷ []) ⊎ ((r : Bytes) × (enc c ≡ 38 ∷ r)))
    → (xs : Bytes) → All (λ x. (x ≢ 38) × (enc x ≡ x ∷ [])) xs
    → (s : Bytes) → starts_with xs (flat_map enc s) ≡ starts_with xs s
unfolding starts_with flat_map
starts_with-flat_map enc heads [] h s = refl
starts_with-flat_map enc heads (x ∷ xs) h [] = refl
starts_with-flat_map enc heads (x ∷ xs) (hx, h) (c ∷ s) = elim (heads c) [
  | inl e ↦ rw e (ap (λ b. nat_eq x c && b) (starts_with-flat_map enc heads xs h s))
  | inr (r, e) ↦ rw e (ground (arith, hx, e))
]

pass-quot :
    (s : Bytes)
    → pass (codes "&quot;") (codes "\"") 0 (flat_map mark s)
      ≡ flat_map mark₃ (pass (codes "&quot;") (codes "\"") 0 s)
unfolding swept starts_with flat_map
pass-quot =
    pass-flat_map (codes "quot;") 34 mark mark₃ (refl, refl) (omega arith) (refl, refl)
      (λ c t a b. ground arith) (λ c s a. ground arith) refl
      (starts_with-flat_map mark (λ c. ground arith) (codes "quot;") (ground arith))

pass-apos :
    (s : Bytes)
    → pass (codes "&apos;") (codes "'") 0 (flat_map mark₃ s)
      ≡ flat_map mark₂ (pass (codes "&apos;") (codes "'") 0 s)
unfolding swept starts_with flat_map
pass-apos =
    pass-flat_map (codes "apos;") 39 mark₃ mark₂ (refl, refl) (omega arith) (refl, refl)
      (λ c t a b. ground arith) (λ c s a. ground arith) refl
      (starts_with-flat_map mark₃ (λ c. ground arith) (codes "apos;") (ground arith))

pass-lt :
    (s : Bytes)
    → pass (codes "&lt;") (codes "<") 0 (flat_map mark₂ s)
      ≡ flat_map mark₁ (pass (codes "&lt;") (codes "<") 0 s)
unfolding swept starts_with flat_map
pass-lt =
    pass-flat_map (codes "lt;") 60 mark₂ mark₁ (refl, refl) (omega arith) (refl, refl)
      (λ c t a b. ground arith) (λ c s a. ground arith) refl
      (starts_with-flat_map mark₂ (λ c. ground arith) (codes "lt;") (ground arith))

pass-gt :
    (s : Bytes)
    → pass (codes "&gt;") (codes ">") 0 (flat_map mark₁ s)
      ≡ flat_map (λ c. c ∷ []) (pass (codes "&gt;") (codes ">") 0 s)
unfolding swept starts_with flat_map
pass-gt =
    pass-flat_map (codes "gt;") 62 mark₁ (λ c. c ∷ []) (refl, refl) (omega arith) (refl, refl)
      (λ c t a b. ground arith) (λ c s a. ground arith) refl
      (starts_with-flat_map mark₁ (λ c. ground arith) (codes "gt;") (ground arith))

flat_map_single : (s : Bytes) → flat_map (λ c. c ∷ []) s ≡ s
unfolding flat_map
flat_map_single [] = refl
flat_map_single (c ∷ s) = ap (◌∷◌ c) (flat_map_single s)

-- Unescaping an escaped text is not the text but what the last four replacements make of it: the
-- ampersand is restored first, so an entity that stood in the text itself is decoded as well.
pub unescape-escape : (s : Bytes) → (escape_xml s >>= unescape_xml) ≡ unescape_marks s
unfolding unescape_xml unescape_marks
unescape-escape s = simp (
  escape_xml-entity, replace_all-pass, pass-amp, pass-quot, pass-apos, pass-lt, pass-gt,
  flat_map_single,
)

pass-Lacks : (name to s : Bytes) → Lacks 38 s → pass (38 ∷ name) to 0 s ≡ s
unfolding starts_with
pass-Lacks name to [] h = refl
pass-Lacks name to (c ∷ s) (hc, h) = ground (arith, pass-Lacks name to s h)

-- A text with no ampersand comes back whole from escaping and unescaping.
pub unescape-escape_plain : (s : Bytes) → Lacks 38 s → (escape_xml s >>= unescape_xml) ≡ some s
unescape-escape_plain s h =
    rw (unescape-escape s) (unfold unescape_marks in simp (replace_all-pass, pass-Lacks _ _ s h))
