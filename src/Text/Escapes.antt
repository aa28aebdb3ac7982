-- ===== src/Text/Escapes.antt =====
-- `EscapeXml` and `UnescapeXml`: five replacements each, the ampersand first in both.
pub mod Encode
pub mod Decode
use xmppconn.Base.{
  ℕ, Option, none, some, Bytes, codes, ◌>>=◌, ◌≡◌, refl, if◌then◌else◌, nat_eq, ◌∷◌, [],
}
use xmppconn.Text.{replace_all}

unfoldable pub escape_xml : Bytes → Option Bytes
escape_xml s = do
  s ← replace_all s (codes "&") (codes "&amp;")
  s ← replace_all s (codes "\"") (codes "&quot;")
  s ← replace_all s (codes "'") (codes "&apos;")
  s ← replace_all s (codes "<") (codes "&lt;")
  replace_all s (codes ">") (codes "&gt;")

-- The replacements of `UnescapeXml` behind that of the ampersand.
unfoldable pub unescape_marks : Bytes → Option Bytes
unescape_marks s = do
  s ← replace_all s (codes "&quot;") (codes "\"")
  s ← replace_all s (codes "&apos;") (codes "'")
  s ← replace_all s (codes "&lt;") (codes "<")
  replace_all s (codes "&gt;") (codes ">")

unfoldable pub unescape_xml : Bytes → Option Bytes
unfolding unescape_marks
unescape_xml s = do s ← replace_all s (codes "&amp;") (codes "&"); unescape_marks s

-- What one byte is sent as.
abbrev pub entity : ℕ → Bytes
entity c =
    if nat_eq 38 c
    then codes "&amp;"
    else if nat_eq 34 c
    then codes "&quot;"
    else if nat_eq 39 c
    then codes "&apos;"
    else if nat_eq 60 c
    then codes "&lt;"
    else if nat_eq 62 c
    then codes "&gt;"
    else c ∷ []
