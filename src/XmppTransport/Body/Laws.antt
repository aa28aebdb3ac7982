-- ===== src/XmppTransport/Body/Laws.antt =====
-- What comes of a body: always something, and what was sent.
use mathlib.Core.List.{flat_map}
use xmppconn.Base.{
  All, subst, inl, inr, ℕ, ◌+◌, ◌-◌, ◌%◌, ◌<◌, Bool, true, false, some, [], ◌∷◌, ◌++◌, Bytes, codes,
  ◌>>=◌, ◌≡◌, refl, sym, ap, ◌∙◌, arith, Total, bind-Total, if-Total, Lacks, length, length-append,
  take-append,
}
use xmppconn.Text.{find, starts_with}
use xmppconn.Text.ReplaceAll.{replace_all-pass}
use xmppconn.Text.Escapes.{escape_xml, unescape_xml, entity}
use xmppconn.Text.Escapes.Encode.{escape_xml-entity}
use xmppconn.Text.Escapes.Decode.{unescape-escape_plain}
use xmppconn.Text.Compression.{Library, compress, decompress}
use xmppconn.Text.Compression.Laws.{
  IsHex, RoundTrips, compress-Codes, decompress-Codes, compress_total,
}
use xmppconn.XmppTransport.Body.{
  size_mod, ignored, body, is_empty_message, strip_tags, trim_front, looks_compressed,
  decode_trimmed, decode_body, receive_body,
}

unescape_xml-Total : (s : Bytes) → Total (unescape_xml s)
unfolding unescape_xml
unescape_xml-Total s = simp replace_all-pass (_, refl)

decode_trimmed-Total : (lib : Library) (s : Bytes) (b : Bool) → Total (decode_trimmed lib s b)
unfolding decode_trimmed
decode_trimmed-Total lib s b =
    if-Total b (decompress lib s) (unescape_xml s) (compress_total lib s).1 (unescape_xml-Total s)

decode_body-Total : (lib : Library) (s : Bytes) → Total (decode_body lib s)
unfolding decode_body
decode_body-Total lib [] = decode_trimmed-Total lib [] false
decode_body-Total lib (c ∷ s) = decode_trimmed-Total lib _ _

pub receive_body-Total : (lib : Library) (s : Bytes) → Total (receive_body lib s)
unfolding receive_body
receive_body-Total lib s =
    if-Total (is_empty_message s) _ _ (ignored, refl)
      (bind-Total (decode_body lib (strip_tags s)) _ (decode_body-Total lib (strip_tags s))
        (λ m. (body m, refl)))

abbrev pub tagged : Bytes → Bytes
tagged b = codes "<body>" ++ (b ++ codes "</body>")

tagged_opens : (b : Bytes) → is_empty_message (tagged b) ≡ false
unfolding is_empty_message find starts_with
tagged_opens b = ground arith

strip-tagged : (b : Bytes) → length b + 13 < size_mod → strip_tags (tagged b) ≡ b
unfolding strip_tags
strip-tagged b h =
    let long : length (tagged b) ≡ length b + 13 =
      omega (arith, length-append b (codes "</body>")) in
    let e : (length b + 13 + size_mod - 13) % size_mod ≡ length b = omega arith in
    rw (long, e) (take-append b (codes "</body>"))

-- The tags come off exactly, if the length is below the wrap of `size_t`.
receive_body-tagged :
    (lib : Library) (b : Bytes)
    → length b + 13 < size_mod
    → receive_body lib (tagged b) ≡ (do m ← decode_body lib b; some (body m))
unfolding receive_body
receive_body-tagged lib b h = rw (tagged_opens b, strip-tagged b h)

-- A body that begins with `_` is unescaped as it is.
decode_body-plain :
    (lib : Library) (s : Bytes) → decode_body lib (b'_' ∷ s) ≡ unescape_xml (b'_' ∷ s)
unfolding decode_body
decode_body-plain lib s = refl

-- Where a sender does not compress, a message that begins with `_` and holds no ampersand is passed
-- on as it was sent, if the library renders the body with its tags and the text that was put in.
pub receive-send_plain :
    (lib : Library) (m b : Bytes)
    → Lacks 38 (b'_' ∷ m)
    → escape_xml (b'_' ∷ m) ≡ some b
    → length b + 13 < size_mod
    → receive_body lib (tagged b) ≡ some (body (b'_' ∷ m))
unfolding flat_map
receive-send_plain lib m b plain sent fits =
    let e : b ≡ b'_' ∷ flat_map entity m = cc (escape_xml-entity (b'_' ∷ m)) in
    let read : unescape_xml b ≡ some (b'_' ∷ m) =
      rw sent at (unescape-escape_plain (b'_' ∷ m) plain) in
    let decoded : decode_body lib b ≡ some (b'_' ∷ m) =
      ap (decode_body lib) e ∙ decode_body-plain lib _ ∙ ap unescape_xml (sym e) ∙ read in
    rw (receive_body-tagged lib b fits, decoded)

-- Hex digits are neither white space nor the marks of a text that is not compressed.
trim_front-digit : (c : ℕ) (s : Bytes) → IsHex c → trim_front (c ∷ s) ≡ c ∷ s
unfolding trim_front
trim_front-digit c s (inl h) = ground (arith, h)
trim_front-digit c s (inr (inl h)) = ground (arith, h)
trim_front-digit c s (inr (inr h)) = ground (arith, h)

looks_compressed-digit : (c : ℕ) (s : Bytes) → IsHex c → looks_compressed (c ∷ s) ≡ true
unfolding looks_compressed
looks_compressed-digit c s (inl h) = ground (arith, h)
looks_compressed-digit c s (inr (inl h)) = ground (arith, h)
looks_compressed-digit c s (inr (inr h)) = ground (arith, h)

-- Where it compresses, any message arrives as it was sent, if the calls of zlib put out bytes for it
-- that are some and that they take back, the hex functions write two hex digits for each of these
-- bytes and read them back, and the length of the body with its tags does not wrap.
pub receive-send_compressed :
    (lib : Library) (m z b : Bytes) (c : ℕ)
    → RoundTrips lib m z
    → lib.to_hex z ≡ c ∷ b
    → length (c ∷ b) + 13 < size_mod
    → (compress lib m >>= λ sent. receive_body lib (tagged sent)) ≡ some (body m)
unfolding decode_body
receive-send_compressed lib m z b c h hex fits =
    let back : decompress lib (c ∷ b) ≡ some m = rw hex at (decompress-Codes lib m z h) in
    let digit : IsHex c = (subst (All IsHex) hex h.digits).0 in
    rw
      (
        compress-Codes lib m z h.packs,
        hex,
        receive_body-tagged lib (c ∷ b) fits,
        trim_front-digit c b digit,
        looks_compressed-digit c b digit,
      )
      (rw back)
