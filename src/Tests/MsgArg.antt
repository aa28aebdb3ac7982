-- ===== src/Tests/MsgArg.antt =====
-- The texts of arguments at concrete inputs, and a library that has the laws.
use xmppconn.Base.{
  ℕ, suc, ◌<◌, Bool, true, false, ◌||◌, some, [], ◌∷◌, ◌++◌, Bytes, codes, nat_eq, ◌≡◌, ◌⊎◌, inl,
  inr, refl, sym, ap, ◌∙◌, arith, if◌then◌else◌, newline, All, drop, append-nil, Total, ◌≢◌, ◌≤◌,
  length, if_rule,
}
use xmppconn.Text.{find_at}
use xmppconn.MsgArg.{
  MsgArg, Args, Library, int32, uint16, byte, signature, object_path, string, invalid, array,
  scalar, dict_entry, text, struct, variant, handle, scalar_array, nil, cons,
}
use xmppconn.MsgArg.Print.{to_string, to_strings}
use xmppconn.MsgArg.Parse.{from_string, vector_from_string}
use xmppconn.MsgArg.Valid.{
  Laws, IsBlank, IsTrimmed, LastInk, IsWord, WordByte, IsString, IsValid, AllValid,
}
use xmppconn.MsgArg.RoundTrip.{from_string-to_string}
use xmppconn.MsgArg.Total.{from_string-Total}
use xmppconn.MsgArg.Lost.{from_string-empty_array}
use xmppconn.Wire.Decimal.{
  decimal, digits, value, strtoul, strtoul-decimal, digits-IsDigit, digits-nonempty, IsDigit,
}

abbrev blank : ℕ → Bool
blank c = nat_eq c 32 || nat_eq c newline

abbrev trim_front : Bytes → Bytes
trim_front [] = []
trim_front (c ∷ s) = let rest = trim_front s in if blank c then rest else c ∷ s

abbrev trim_back : Bytes → Bytes
trim_back [] = []
trim_back (c ∷ s) = elim (trim_back s) [ [] ↦ if blank c then [] else c ∷ [] | d ∷ t ↦ c ∷ d ∷ t ]

abbrev trim : Bytes → Bytes
trim s = trim_back (trim_front s)

blank-true : (c : ℕ) → (c ≡ b' ') ⊎ (c ≡ newline) → blank c ≡ true
blank-true c (inl e) = ground (arith, e)
blank-true c (inr e) = ground (arith, e)

blank-false : (c : ℕ) → b' ' < c → blank c ≡ false
blank-false c h = ground (arith, h)

trim_front-blank : (before s : Bytes) → All IsBlank before → trim_front (before ++ s) ≡ trim_front s
trim_front-blank [] s h = refl
trim_front-blank (c ∷ before) s (hc, h) = rw (blank-true c hc) (trim_front-blank before s h)

trim_front-ink : (c : ℕ) (s : Bytes) → b' ' < c → trim_front (c ∷ s) ≡ c ∷ s
trim_front-ink c s h = rw (blank-false c h) refl

trim_back-blank : (after : Bytes) → All IsBlank after → trim_back after ≡ []
trim_back-blank [] h = refl
trim_back-blank (c ∷ after) (hc, h) = rw (trim_back-blank after h) (rw (blank-true c hc) refl)

trim_back-ink : (s after : Bytes) → LastInk s → All IsBlank after → trim_back (s ++ after) ≡ s
trim_back-ink [] after h ha = trim_back-blank after ha
trim_back-ink (c ∷ []) after h ha = rw (trim_back-blank after ha) (rw (blank-false c h) refl)
trim_back-ink (c ∷ d ∷ s) after h ha = rw (trim_back-ink (d ∷ s) after h ha) refl

trim-trimmed :
    (before s after : Bytes)
    → All IsBlank before
    → All IsBlank after
    → IsTrimmed s
    → trim (before ++ (s ++ after)) ≡ s
trim-trimmed before [] after hb ha h =
    rw (trim_front-blank before after hb)
      (ap trim_back (sym (ap trim_front (append-nil after)) ∙ trim_front-blank after [] ha))
trim-trimmed before (c ∷ s) after hb ha h =
    rw (trim_front-blank before ((c ∷ s) ++ after) hb ∙ trim_front-ink c (s ++ after) h.0)
      (trim_back-ink (c ∷ s) after h.1 ha)

digits-WordByte : (s : Bytes) → All IsDigit s → All WordByte s
digits-WordByte [] h = tt
digits-WordByte (c ∷ s) (hc, h) =
    ((omega (arith, hc), λ e. absurd (omega (arith, hc, e))), digits-WordByte s h)

decimal-IsWord : (n : ℕ) → IsWord (decimal n)
unfolding decimal
decimal-IsWord n = (digits-nonempty n n, digits-WordByte (digits n n) (digits-IsDigit n n))

length-trim_front : (s : Bytes) → length (trim_front s) ≤ length s
length-trim_front [] = omega arith
length-trim_front (c ∷ s) =
    if_rule (λ x. length x ≤ length (c ∷ s)) (blank c) (trim_front s) (c ∷ s)
      (omega (arith, length-trim_front s)) (omega arith)

length-trim_back : (s : Bytes) → length (trim_back s) ≤ length s
length-trim_back [] = omega arith
length-trim_back (c ∷ s) = kept (trim_back s) (length-trim_back s)
  where
    kept :
        (t : Bytes)
        → length t ≤ length s
        → length {A = ℕ} (elim t [ [] ↦ if blank c then [] else c ∷ [] | d ∷ u ↦ c ∷ d ∷ u ])
          ≤ suc (length s)
    kept [] h =
        if_rule (λ x. length x ≤ suc (length s)) (blank c) [] (c ∷ []) (omega arith) (omega arith)
    kept (d ∷ u) h = omega (arith, h)

length-trim : (s : Bytes) → length (trim s) ≤ length s
length-trim s = omega (arith, length-trim_back (trim_front s), length-trim_front s)

abbrev is_string : MsgArg → Bytes
is_string (text string s) = codes "s"
is_string a = codes "(is)"

is_string-IsString : (a : MsgArg) → is_string a ≡ codes "s" → IsString a
is_string-IsString (text string s) h = tt
is_string-IsString (text signature s) h = ground (arith, h)
is_string-IsString (text object_path s) h = ground (arith, h)
is_string-IsString invalid h = ground (arith, h)
is_string-IsString _ h = ground (arith, h)

abbrev pub sample_lib : Library
sample_lib = record {
  u32_to_string = decimal;
  i32_to_string = decimal;
  u64_to_string = decimal;
  i64_to_string = decimal;
  u64_to_hex = decimal;
  string_to_u32 = strtoul;
  string_to_i32 = strtoul;
  string_to_u64 = strtoul;
  string_to_i64 = strtoul;
  hex_to_u64 = λ s. strtoul (drop 2 s);
  bytes_to_hex = λ s. s;
  hex_to_bytes = λ s n. s;
  trim = trim;
  signature_of = is_string;
  set = λ a. a;
  set_double = λ n. invalid;
  set_handle = λ s. handle s;
}

pub sample-Laws : Laws sample_lib
sample-Laws = record {
  u32 = λ n h. strtoul-decimal n (omega (arith, h));
  i32 = λ n h. strtoul-decimal n (omega (arith, h));
  u64 = λ n h. strtoul-decimal n (omega (arith, h));
  i64 = λ n h. strtoul-decimal n (omega (arith, h));
  hex = λ n h. strtoul-decimal n (omega (arith, h));
  u32_word = decimal-IsWord;
  i32_word = decimal-IsWord;
  u64_word = decimal-IsWord;
  i64_word = decimal-IsWord;
  hex_word = decimal-IsWord;
  trimmed = trim-trimmed;
  string_signature = is_string-IsString;
}

abbrev pub pair : MsgArg
pair = struct (cons (scalar int32 5) (cons (text string (codes "a b")) nil))

abbrev samples : Args
samples = cons (array (codes "(is)") (cons pair (cons pair nil))) (
    cons (scalar_array uint16 (3 ∷ 40 ∷ [])) (cons (dict_entry (scalar byte 1) (variant pair)) nil))

samples_run : vector_from_string sample_lib (to_strings sample_lib samples 0) ≡ some samples
unfolding vector_from_string to_strings decimal strtoul digits find_at value
samples_run = refl

pub pair-IsValid : IsValid sample_lib pair
unfolding IsValid
pair-IsValid = (refl, tt, ((refl, tt, omega arith), ((refl, omega arith, omega arith), tt)))

samples-AllValid : AllValid sample_lib samples
unfolding IsValid
samples-AllValid = (
  (refl, omega arith, (refl, (refl, tt)), (pair-IsValid, (pair-IsValid, tt))),
  (
    (refl, tt, omega arith),
    ((refl, (refl, tt, omega arith), (refl, omega arith, pair-IsValid)), tt),
  ),
)

from_string-to_string_example :
    (vector_from_string sample_lib (to_strings sample_lib samples 3) ≡ some samples)
    × (from_string sample_lib (to_string sample_lib pair 3) ≡ some pair)
from_string-to_string_example =
    from_string-to_string sample_lib samples pair 3 sample-Laws samples-AllValid pair-IsValid

from_string-Total_example :
    Total (from_string sample_lib (codes "<array type_sig=\"i\"><int32>"))
    × Total (vector_from_string sample_lib (codes "<array type_sig=\"i\"><int32>"))
from_string-Total_example =
    from_string-Total sample_lib (codes "<array type_sig=\"i\"><int32>") length-trim

from_string-empty_array_example :
    (from_string sample_lib (to_string sample_lib (scalar_array int32 []) 0) ≡ some invalid)
    × (scalar_array int32 [] ≢ invalid)
from_string-empty_array_example =
    from_string-empty_array sample_lib int32 0 sample-Laws (λ e. ground (arith, e))
