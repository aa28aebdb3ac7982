-- ===== src/Text/Compression/Laws.antt =====
-- Compression ends whatever zlib answers, and decompression undoes it.
use xmppconn.Base.{
  All, ◌⊎◌, ◌≤◌, append_assoc, ap, ◌∙◌, ℕ, zero, suc, ◌*◌, ◌/◌, ◌<◌, Bool, true, false, not, Option,
  none, some, [], ◌++◌, Bytes, nat_eq, length, if◌then◌else◌, ◌>>=◌, ◌≡◌, refl, arith, Bool-cases,
  inl, inr,
}
use xmppconn.Text.Compression.{
  Ret, z_ok, z_stream_end, z_error, Codec, Library, is_ok, is_stream_end, run_codec, code_with,
  compress, decompress,
}

is_ok→eq : (r : Ret) → is_ok r ≡ true → r ≡ z_ok
is_ok→eq z_ok h = refl
is_ok→eq z_stream_end h = cc
is_ok→eq z_error h = cc

run_codec_total :
    (c : Codec) (fuel : ℕ) (z : c.Stream) (bytes : Bytes)
    → c.rounds z < fuel
    → (r : Ret × Bytes) × (run_codec c fuel z bytes ≡ some r)
unfolding run_codec
run_codec_total c zero z bytes h = elim h [ ]
run_codec_total c (suc fuel) z bytes h = elim (Bool-cases (is_ok (c.round z).ret)) [
  | inl more ↦ rw more (
      run_codec_total c fuel (c.round z).next (bytes ++ (c.round z).out)
        (omega (arith, c.progress z (is_ok→eq (c.round z).ret more))))
  | inr last ↦ (((c.round z).ret, bytes ++ (c.round z).out), rw last)
]

code_with_total :
    (c : Codec) (str : Bytes) (convert : Bytes → Bytes) (o : Option c.Stream)
    → (r : Bytes) × (code_with c str convert o ≡ some r)
unfolding code_with
code_with_total c str convert none = (str, refl)
code_with_total c str convert (some z) =
    let (r, e) = run_codec_total c (suc (c.rounds z)) z [] (omega arith) in
    (if is_stream_end r.0 then convert r.1 else str, rw e)

module _ (lib : Library) where
  -- Both loops end, whatever zlib answers in each round, so both functions return a text.
  pub compress_total :
      (s : Bytes)
      → ((r : Bytes) × (compress lib s ≡ some r)) × ((r : Bytes) × (decompress lib s ≡ some r))
  unfolding compress decompress
  compress_total s = (code_with_total lib.deflate s lib.to_hex (lib.deflate.start s), decoded _ _)
    where
      decoded :
          (b : Bool) (o : Option lib.inflate.Stream)
          → (r : Bytes) × ((if b then some s else code_with lib.inflate s (λ out. out) o) ≡ some r)
      decoded true o = (s, refl)
      decoded false o = code_with_total lib.inflate s (λ out. out) o

-- zlib puts out `b` from a stream on: `n` calls return `Z_OK`, the one after them `Z_STREAM_END`, and `b`
-- is what all of them put out, in their order.
abbrev pub PutsOut : (c : Codec) → ℕ → c.Stream → Bytes → Type 0
PutsOut c zero z b = ((c.round z).ret ≡ z_stream_end) × ((c.round z).out ≡ b)
PutsOut c (suc n) z b =
    ((c.round z).ret ≡ z_ok)
    × ((rest : Bytes) × ((c.round z).out ++ rest ≡ b) × PutsOut c n (c.round z).next rest)

-- The codec takes `s` to `b`, through the end of the stream.
abbrev pub Codes : (c : Codec) → Bytes → Bytes → Type 0
Codes c s b = (z : c.Stream) × (c.start s ≡ some z) × ((n : ℕ) × PutsOut c n z b)

run_codec-PutsOut :
    (c : Codec) (n fuel : ℕ) (z : c.Stream) (acc b : Bytes)
    → PutsOut c n z b
    → c.rounds z < fuel
    → run_codec c fuel z acc ≡ some (z_stream_end, acc ++ b)
unfolding run_codec
run_codec-PutsOut c n zero z acc b h less = elim less [ ]
run_codec-PutsOut c zero (suc fuel) z acc b (ended, e) less = rw (ended, e) refl
run_codec-PutsOut c (suc n) (suc fuel) z acc b (ok, (rest, e, h)) less = rw ok (
    run_codec-PutsOut c n fuel (c.round z).next (acc ++ (c.round z).out) rest h
      (omega (arith, c.progress z ok))
    ∙ ap (λ x. some (z_stream_end, x))
        (append_assoc acc (c.round z).out rest ∙ ap (λ x. acc ++ x) e))

code_with-Codes :
    (c : Codec) (s b str : Bytes) (convert : Bytes → Bytes)
    → Codes c s b
    → code_with c str convert (c.start s) ≡ some (convert b)
unfolding code_with
code_with-Codes c s b str convert (z, e, (n, h)) =
    rw (e, code_with) (rw (run_codec-PutsOut c n (suc (c.rounds z)) z [] b h (omega arith)))

pub compress-Codes :
    (lib : Library) (s b : Bytes) → Codes lib.deflate s b → compress lib s ≡ some (lib.to_hex b)
unfolding compress
compress-Codes lib s b packs = code_with-Codes lib.deflate s b s lib.to_hex packs

abbrev pub IsHex : ℕ → Type 0
IsHex c = ((b'0' ≤ c) × (c ≤ b'9')) ⊎ (((b'A' ≤ c) × (c ≤ b'F')) ⊎ ((b'a' ≤ c) × (c ≤ b'f')))

-- What a reader needs of zlib and the hex functions to get `s` back from the bytes `b`: the calls of
-- `deflate` put out `b` from `s` and those of `inflate` put out `s` from `b`; hex digits are two for
-- each byte, and they are read back.
pub record RoundTrips (lib : Library) (s b : Bytes) : Type 0 where
  pub packs : Codes lib.deflate s b
  pub unpacks : Codes lib.inflate b s
  pub digits : All IsHex (lib.to_hex b)
  pub two : length (lib.to_hex b) ≡ 2 * length b
  pub back : lib.from_hex (lib.to_hex b) (length b) ≡ b

pub decompress-Codes :
    (lib : Library) (s b : Bytes) → RoundTrips lib s b → decompress lib (lib.to_hex b) ≡ some s
unfolding decompress
decompress-Codes lib s b h =
    let half : length (lib.to_hex b) / 2 ≡ length b = omega (arith, h.two) in
    let same : not (nat_eq (length b) (length b)) ≡ false = ground arith in
    rw (half, h.back, same) (code_with-Codes lib.inflate b s (lib.to_hex b) (λ out. out) h.unpacks)

-- Where the calls of `deflate` put out some bytes for the text and end the stream, in however many
-- rounds, and those of `inflate` put out the text for these bytes, and hex digits are two for each byte
-- and are read back, decompressing the compressed text gives the text.
pub decompress-compress :
    (lib : Library) (s b : Bytes)
    → RoundTrips lib s b
    → (compress lib s >>= decompress lib) ≡ some s
decompress-compress lib s b h = rw (compress-Codes lib s b h.packs) (decompress-Codes lib s b h)
