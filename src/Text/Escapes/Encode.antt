-- ===== src/Text/Escapes/Encode.antt =====
-- `EscapeXml` works byte by byte.
use mathlib.Core.List.{flat_map}
use mathlib.Core.Path.{ap₂}
use xmppconn.Base.{
  ℕ, some, Bytes, codes, ◌≡◌, refl, if◌then◌else◌, nat_eq, ◌∷◌, [], ◌++◌, arith, append_assoc, ap,
}
use xmppconn.Text.{starts_with}
use xmppconn.Text.ReplaceAll.{pass, replace_all-pass}
use xmppconn.Text.Escapes.{escape_xml, entity}

-- The replacement of one byte.
abbrev pub swap : ℕ → Bytes → ℕ → Bytes
swap a to c = if nat_eq a c then to else c ∷ []

pass-swap : (a : ℕ) (to s : Bytes) → pass (a ∷ []) to 0 s ≡ flat_map (swap a to) s
unfolding starts_with flat_map
pass-swap a to [] = refl
pass-swap a to (c ∷ s) = ground (arith, pass-swap a to s)

pub flat_map-append :
    (f : ℕ → Bytes) (s t : Bytes) → flat_map f (s ++ t) ≡ flat_map f s ++ flat_map f t
unfolding flat_map
flat_map-append f [] t = refl
flat_map-append f (c ∷ s) t = simp (flat_map-append f s t, append_assoc)

entity-swap :
    (c : ℕ)
    → flat_map (swap 62 (codes "&gt;")) (
        flat_map (swap 60 (codes "&lt;")) (
          flat_map
            (swap 39 (codes "&apos;"))
            (flat_map (swap 34 (codes "&quot;")) (swap 38 (codes "&amp;") c))))
      ≡ entity c
unfolding flat_map
entity-swap c = ground arith

-- The five replacements, one behind another.
abbrev swaps : Bytes → Bytes
swaps s = flat_map (swap 62 (codes "&gt;")) (
    flat_map (swap 60 (codes "&lt;")) (
      flat_map (swap 39 (codes "&apos;"))
        (flat_map (swap 34 (codes "&quot;")) (flat_map (swap 38 (codes "&amp;")) s))))

swaps-entity : (s : Bytes) → swaps s ≡ flat_map entity s
unfolding flat_map
swaps-entity [] = refl
swaps-entity (c ∷ s) = simp (flat_map-append) (ap₂ ◌++◌ (entity-swap c) (swaps-entity s))

-- Escaping ends for every text, and sends each byte as its entity, in order.
pub escape_xml-entity : (s : Bytes) → escape_xml s ≡ some (flat_map entity s)
unfolding escape_xml
escape_xml-entity s = simp (replace_all-pass, pass-swap) (ap some (swaps-entity s))
