-- ===== src/Tests/Text.antt =====
-- The text functions on small texts, and a zlib that copies its input.
use xmppconn.Base.{
  length, ℕ, ◌+◌, ◌-◌, ◌*◌, ◌/◌, ◌%◌, ◌<◌, some, [], ◌∷◌, Bytes, codes, suc, zero, ltb,
  if◌then◌else◌, ◌>>=◌, ◌≡◌, refl, arith,
}
use xmppconn.Text.{replace_all}
use xmppconn.Text.ReplaceAll.{pass, replace_all-pass}
use xmppconn.Text.Escapes.{escape_xml, unescape_xml, unescape_marks}
use xmppconn.Text.Escapes.Decode.{unescape-escape}
use xmppconn.Text.Compression.{Ret, z_ok, z_stream_end, Codec, Library, compress, decompress}
use xmppconn.Text.Compression.Laws.{PutsOut, RoundTrips, decompress-compress}
use xmppconn.XmppTransport.Body.{body, receive_body}
use xmppconn.XmppTransport.Body.Laws.{tagged, receive-send_compressed}

replace_all-pass_example :
    replace_all (codes "a--b---") (codes "--") (codes "-")
    ≡ some (pass (codes "--") (codes "-") 0 (codes "a--b---"))
replace_all-pass_example = replace_all-pass (codes "a--b---") b'-' (codes "-") (codes "-")

unescape-escape_example :
    (escape_xml (codes "&lt;") >>= unescape_xml) ≡ unescape_marks (codes "&lt;")
unescape-escape_example = unescape-escape (codes "&lt;")

abbrev byte_round : Bytes → record { next : Bytes; out : Bytes; ret : Ret }
byte_round [] = record { next = []; out = []; ret = z_stream_end }
byte_round (c ∷ s) = record { next = s; out = c ∷ []; ret = z_ok }

pub copying_progress :
    (z : Bytes) → (byte_round z).ret ≡ z_ok → length (byte_round z).next < length z
copying_progress [] h = cc
copying_progress (c ∷ s) h = omega arith

-- One byte is put out in each round, and nothing in the last.
abbrev copying : Codec
copying = record {
  Stream = Bytes;
  start = λ s. some s;
  round = byte_round;
  rounds = length;
  progress = copying_progress;
}

copying-PutsOut : (s : Bytes) → PutsOut copying (length s) s s
copying-PutsOut [] = (refl, refl)
copying-PutsOut (c ∷ s) = (refl, (s, refl, copying-PutsOut s))

abbrev digit : ℕ → ℕ
digit n = if ltb n 10 then 48 + n else 55 + n

abbrev digit_value : ℕ → ℕ
digit_value c = if ltb c 58 then c - 48 else c - 55

abbrev to_hex : Bytes → Bytes
to_hex [] = []
to_hex (b ∷ s) = digit (b / 16) ∷ digit (b % 16) ∷ to_hex s

abbrev from_hex : Bytes → ℕ → Bytes
from_hex s zero = []
from_hex [] (suc n) = []
from_hex (c ∷ []) (suc n) = []
from_hex (c ∷ d ∷ s) (suc n) = (digit_value c * 16 + digit_value d) ∷ from_hex s n

abbrev pub copying_library : Library
copying_library = record {
  deflate = copying;
  inflate = copying;
  to_hex = to_hex;
  from_hex = from_hex;
}

abbrev sample : Bytes
sample = codes "__SIGNAL"

sample-RoundTrips : RoundTrips copying_library sample sample
sample-RoundTrips = record {
  packs = (sample, refl, (length sample, copying-PutsOut sample));
  unpacks = (sample, refl, (length sample, copying-PutsOut sample));
  digits = ground arith;
  two = refl;
  back = refl;
}

decompress-compress_example :
    (compress copying_library sample >>= decompress copying_library) ≡ some sample
decompress-compress_example = decompress-compress copying_library sample sample sample-RoundTrips

receive-send_compressed_example :
    (compress copying_library sample >>= λ sent. receive_body copying_library (tagged sent))
    ≡ some (body sample)
receive-send_compressed_example =
    receive-send_compressed copying_library sample sample (codes "F5F5349474E414C") b'5'
      sample-RoundTrips refl (omega arith)

replace_all_overlap : replace_all (codes "aaaa&&x") (codes "aa") (codes "a") ≡ some (codes "aa&&x")
unfolding replace_all
replace_all_overlap = refl

escape_sample : escape_xml (codes "a<\"&") ≡ some (codes "a&lt;&quot;&amp;")
unfolding escape_xml replace_all
escape_sample = refl
