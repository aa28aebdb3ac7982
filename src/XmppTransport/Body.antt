-- ===== src/XmppTransport/Body.antt =====
-- The body of an incoming message: `XmppStanzaHandler`, from the check of the tags on. Positions
-- are `size_t`, so `npos + n` and a difference below zero wrap around.
pub mod Laws
use xmppconn.Base.{
  ℕ, ◌+◌, ◌-◌, ◌%◌, ◌^◌, Bool, true, false, ◌&&◌, ◌||◌, not, Option, none, some, [], ◌∷◌, Bytes,
  codes, nat_eq, ltb, if◌then◌else◌, ◌>>=◌, length, take, drop,
}
use xmppconn.Text.{find}
use xmppconn.Text.Compression.{Library, decompress}
use xmppconn.Text.Escapes.{unescape_xml}

abbrev pub size_mod : ℕ
size_mod = 2 ^ 64

position : Option ℕ → ℕ
position none = size_mod - 1
position (some pos) = pos

-- What happens to a body: the handler ignores it as empty, or passes a text on.
pub data Content : Type 0 where
  ignored : Content
  body : Bytes → Content

-- The condition under which the source takes the message to be empty.
unfoldable pub is_empty_message : Bytes → Bool
unfolding position
is_empty_message s =
    not (nat_eq 0 (position (find s (codes "<body>") 0)))
    && not (nat_eq (length s) ((position (find s (codes "</body>") 0) + 7) % size_mod))

-- `substr(6, length - 13)`
unfoldable pub strip_tags : Bytes → Bytes
strip_tags s = take ((length s + size_mod - 13) % size_mod) (drop 6 s)

is_space : ℕ → Bool
is_space c = nat_eq c 32 || (not (ltb c 9) && ltb c 14)

unfoldable pub trim_front : Bytes → Bytes
unfolding is_space
trim_front [] = []
trim_front (c ∷ s) = let rest = trim_front s in if is_space c then rest else c ∷ s

-- Compressed unless it begins with `_` or `{`; behind the trim an empty text has a 0 there.
unfoldable pub looks_compressed : Bytes → Bool
looks_compressed [] = true
looks_compressed (c ∷ s) = not (nat_eq c b'_') && not (nat_eq c b'{')

-- A body that is empty before the trim is not decompressed.
decode_trimmed : Library → Bytes → Bool → Option Bytes
decode_trimmed lib s compressed = if compressed then decompress lib s else unescape_xml s

unfoldable pub decode_body : Library → Bytes → Option Bytes
unfolding trim_front looks_compressed decode_trimmed
decode_body lib [] = decode_trimmed lib [] false
decode_body lib (c ∷ s) =
    let trimmed = trim_front (c ∷ s) in decode_trimmed lib trimmed (looks_compressed trimmed)

-- The text of the `body` child, as the library renders it.
unfoldable pub receive_body : Library → Bytes → Option Content
unfolding is_empty_message strip_tags decode_body
receive_body lib s =
    if is_empty_message s
    then some ignored
    else (do message ← decode_body lib (strip_tags s); some (body message))
