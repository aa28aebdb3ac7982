-- ===== src/Wire/Decimal.antt =====
-- Numbers in the messages: `operator<<` of an unsigned number, and `strtoul` to base 10 with a
-- 64-bit `unsigned long`.
use xmppconn.Base.{
  ℕ, zero, suc, ◌+◌, ◌-◌, ◌*◌, ◌/◌, ◌%◌, ◌^◌, ◌≤◌, ◌<◌, Bool, true, false, ◌&&◌, ◌||◌, [], ◌∷◌,
  ◌++◌, Bytes, newline, ltb, leb, nat_eq, if◌then◌else◌, ◌≡◌, ◌≢◌, refl, ◌∙◌, arith, Lacks,
  is_empty, All, All-append, Bool-cases, inl, inr,
}

-- The digits of a number, for which the number itself is fuel enough.
unfoldable pub digits : ℕ → ℕ → Bytes
digits zero n = (48 + n % 10) ∷ []
digits (suc fuel) n =
    let high = digits fuel (n / 10) in
    if ltb n 10 then (48 + n) ∷ [] else high ++ (48 + n % 10) ∷ []

unfoldable pub decimal : ℕ → Bytes
decimal n = digits n n

abbrev pub is_digit : ℕ → Bool
is_digit c = leb 48 c && leb c 57

-- The value of the digits that a text starts with.
unfoldable pub value : ℕ → Bytes → ℕ
value acc [] = acc
value acc (c ∷ s) = let rest = value (acc * 10 + (c - 48)) s in if is_digit c then rest else acc

abbrev pub ulong_max : ℕ
ulong_max = 18446744073709551615

-- `isspace` in the C locale
abbrev is_space : ℕ → Bool
is_space c = nat_eq c 32 || (leb 9 c && leb c 13)

unfoldable pub skip_spaces : Bytes → Bytes
skip_spaces [] = []
skip_spaces (c ∷ s) = let rest = skip_spaces s in if is_space c then rest else c ∷ s

in_range : ℕ → ℕ
in_range n = if leb n ulong_max then n else ulong_max

-- A minus sign negates in the unsigned type, unless the value is out of range.
negated : ℕ → ℕ
negated n = if leb n ulong_max then (ulong_max + 1 - n) % (ulong_max + 1) else ulong_max

after_sign : Bytes → ℕ
after_sign [] = 0
after_sign (c ∷ s) =
    if nat_eq c b'-'
    then negated (value 0 s)
    else if nat_eq c b'+'
    then in_range (value 0 s)
    else in_range (value 0 (c ∷ s))

unfoldable pub strtoul : Bytes → ℕ
unfolding skip_spaces after_sign in_range negated
strtoul s = after_sign (skip_spaces s)

-- The assignment of the result to a `SessionId` and to a `SessionPort`.
unfoldable pub session_id : Bytes → ℕ
session_id s = strtoul s % 2 ^ 32

unfoldable pub session_port : Bytes → ℕ
session_port s = strtoul s % 2 ^ 16

abbrev pub IsDigit : ℕ → Type 0
IsDigit c = (48 ≤ c) × (c ≤ 57)

one-IsDigit : (n : ℕ) → ltb n 10 ≡ true → All IsDigit ((48 + n) ∷ [])
one-IsDigit n h = ground arith

pub digits-IsDigit : (fuel n : ℕ) → All IsDigit (digits fuel n)
unfolding digits
digits-IsDigit zero n = ((omega arith, omega arith), _)
digits-IsDigit (suc fuel) n = elim (Bool-cases (ltb n 10)) [
  | inl e ↦ rw e (one-IsDigit n e)
  | inr e ↦ rw e (
      All-append IsDigit (digits fuel (n / 10)) _ (digits-IsDigit fuel (n / 10))
        ((omega arith, omega arith), _))
]

value-append :
    (acc : ℕ) (s : Bytes) (c : ℕ)
    → All IsDigit s
    → IsDigit c
    → value acc (s ++ c ∷ []) ≡ value acc s * 10 + (c - 48)
unfolding value
value-append acc [] c _ h = ground arith
value-append acc (d ∷ s) c (hd, hs) h = ground (arith, value-append (acc * 10 + (d - 48)) s c)

value-one : (n : ℕ) → n < 10 → value 0 ((48 + n) ∷ []) ≡ n
unfolding value
value-one n h = ground arith

pub value-digits : (fuel n : ℕ) → n ≤ fuel → value 0 (digits fuel n) ≡ n
unfolding digits
value-digits zero n h = unfold value in ground arith
value-digits (suc fuel) n h = elim (Bool-cases (ltb n 10)) [
  | inl e ↦ rw e (value-one n (ground arith))
  | inr e ↦
      let ih = value-digits fuel (n / 10) (omega arith) in
      let last =
        value-append 0 (digits fuel (n / 10)) (48 + n % 10) (digits-IsDigit fuel (n / 10))
          (omega arith, omega arith) in
      rw (e, last, ih) (omega arith)
]

pub digits-nonempty : (fuel n : ℕ) → digits fuel n ≢ []
unfolding digits
digits-nonempty zero n h = ground arith
digits-nonempty (suc fuel) n h = ground (arith, digits-nonempty fuel (n / 10))

strtoul-digits :
    (s : Bytes) → All IsDigit s → s ≢ [] → value 0 s ≤ ulong_max → strtoul s ≡ value 0 s
unfolding strtoul
strtoul-digits [] _ n h = elim (n refl) [ ]
strtoul-digits (c ∷ s) (hc, hs) n h = unfold skip_spaces after_sign in_range in ground arith

-- Reading back a number that was written gives the number, if it fits.
pub strtoul-decimal : (n : ℕ) → n ≤ ulong_max → strtoul (decimal n) ≡ n
unfolding decimal
strtoul-decimal n h =
    let e = value-digits n n (omega arith) in
    strtoul-digits (digits n n) (digits-IsDigit n n) (digits-nonempty n n) (rw e h) ∙ e

IsDigit-Lacks : (s : Bytes) → All IsDigit s → Lacks newline s
IsDigit-Lacks [] _ = _
IsDigit-Lacks (c ∷ s) (hc, hs) = (omega arith, IsDigit-Lacks s hs)

pub decimal-Lacks : (n : ℕ) → Lacks newline (decimal n)
unfolding decimal
decimal-Lacks n = IsDigit-Lacks (digits n n) (digits-IsDigit n n)

-- A session id and a port are read back as they were written.
pub session_id-decimal : (n : ℕ) → n < 2 ^ 32 → session_id (decimal n) ≡ n
unfolding session_id
session_id-decimal n h = rw (strtoul-decimal n (omega arith)) (omega arith)

pub session_port-decimal : (n : ℕ) → n < 2 ^ 16 → session_port (decimal n) ≡ n
unfolding session_port
session_port-decimal n h = rw (strtoul-decimal n (omega arith)) (omega arith)

is_empty-nonempty : (s : Bytes) → s ≢ [] → is_empty s ≡ false
is_empty-nonempty s h = ground arith

pub is_empty-decimal : (n : ℕ) → is_empty (decimal n) ≡ false
unfolding decimal
is_empty-decimal n = is_empty-nonempty (digits n n) (digits-nonempty n n)
