-- ===== src/Text/Compression.antt =====
-- `Compress` and `Decompress` of util::str, over zlib and the hex functions of the AllJoyn core
-- library, which are parameters.
pub mod Laws
use xmppconn.Base.{
  ℕ, zero, suc, ◌+◌, ◌/◌, ◌<◌, Bool, true, false, not, Option, none, some, List, [], ◌++◌, Bytes,
  nat_eq, length, if◌then◌else◌, ◌>>=◌, ◌≡◌,
}

pub data Ret : Type 0 where
  z_ok z_stream_end z_error : Ret

-- One direction of zlib with its input set: each call yields the bytes that it put into the
-- caller's buffer, which is emptied before the next call. A call that returns `Z_OK` has made
-- progress: fewer rounds remain.
pub record Codec : Type 1 where
  pub Stream : Type 0
  pub start : Bytes → Option Stream
  pub round : Stream → record { next : Stream; out : Bytes; ret : Ret }
  pub rounds : Stream → ℕ
  pub progress : (s : Stream) → (round s).ret ≡ z_ok → rounds (round s).next < rounds s

pub record Library : Type 1 where
  pub deflate : Codec
  pub inflate : Codec
  pub to_hex : Bytes → Bytes
  -- the bytes that `HexStringToBytes` writes into a buffer of the given size
  pub from_hex : Bytes → ℕ → Bytes

abbrev pub is_ok : Ret → Bool
is_ok z_ok = true
is_ok _ = false

abbrev pub is_stream_end : Ret → Bool
is_stream_end z_stream_end = true
is_stream_end _ = false

-- The `do … while` loop of both functions: what was put out so far is `bytes`.
unfoldable pub run_codec : (c : Codec) → ℕ → c.Stream → Bytes → Option (Ret × Bytes)
run_codec c zero z bytes = none
run_codec c (suc fuel) z bytes =
    let r = c.round z in
    let rest = run_codec c fuel r.next (bytes ++ r.out) in
    if is_ok r.ret then rest else some (r.ret, bytes ++ r.out)

finish : Bytes → (Bytes → Bytes) → Option (Ret × Bytes) → Option Bytes
finish str convert none = none
finish str convert (some (ret, bytes)) = some (if is_stream_end ret then convert bytes else str)

-- The fuel is one round more than the codec can make.
code_with : (c : Codec) → Bytes → (Bytes → Bytes) → Option c.Stream → Option Bytes
unfolding run_codec finish
code_with c str convert none = some str
code_with c str convert (some z) = finish str convert (run_codec c (suc (c.rounds z)) z [])

module _ (lib : Library) where
  unfoldable pub compress : Bytes → Option Bytes
  unfolding code_with
  compress str = code_with lib.deflate str lib.to_hex (lib.deflate.start str)

  unfoldable pub decompress : Bytes → Option Bytes
  unfolding code_with
  decompress str =
      let num_bytes = length str / 2 in
      let bytes = lib.from_hex str num_bytes in
      if not (nat_eq num_bytes (length bytes))
      then some str
      else code_with lib.inflate str (λ out. out) (lib.inflate.start bytes)
