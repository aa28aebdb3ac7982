-- ===== src/Text.antt =====
-- The string helpers of common/xmppconnutil.cpp, namespace util::str. A `std::string` is the list
-- of its bytes, a position is a number, and `npos` is `none`.
pub mod ReplaceAll
pub mod Escapes
pub mod Compression
use xmppconn.Base.{
  ℕ, zero, suc, ◌+◌, ◌≤◌, ◌<◌, Bool, true, false, ◌&&◌, Option, none, some, List, [], ◌∷◌, ◌++◌,
  Bytes, codes, nat_eq, is_empty, if◌then◌else◌, length, take, drop, ◌≡◌, refl, arith, ltb,
}

-- Whether `from` stands at the start of the text.
unfoldable pub starts_with : Bytes → Bytes → Bool
starts_with [] s = true
starts_with (a ∷ from) [] = false
starts_with (a ∷ from) (b ∷ s) = nat_eq a b && starts_with from s

-- The first occurrence of `from`, in a text that begins at position `pos`.
unfoldable pub find_at : Bytes → Bytes → ℕ → Option ℕ
unfolding starts_with
find_at from [] pos = if is_empty from then some pos else none
find_at from (c ∷ s) pos =
    let later = find_at from s (suc pos) in if starts_with from (c ∷ s) then some pos else later

-- `str.find(from, pos)`; a position beyond the end finds nothing.
unfoldable pub find : Bytes → Bytes → ℕ → Option ℕ
unfolding find_at
find str from pos = if ltb (length str) pos then none else find_at from (drop pos str) pos

-- `str.replace(pos, n, to)`
unfoldable pub replace : Bytes → ℕ → ℕ → Bytes → Bytes
replace str pos n to = take pos str ++ (to ++ drop (pos + n) str)

-- The `while` loop of `ReplaceAll`; `none` means that the fuel ran out.
unfoldable pub replace_loop : ℕ → Bytes → Bytes → Bytes → Option ℕ → Option Bytes
unfolding find replace
replace_loop fuel str from to none = some str
replace_loop zero str from to (some pos) = none
replace_loop (suc fuel) str from to (some pos) =
    let str' = replace str pos (length from) to in
    replace_loop fuel str' from to (find str' from (pos + length to))

-- One round for each place where a text can begin.
unfoldable pub replace_all : Bytes → Bytes → Bytes → Option Bytes
unfolding replace_loop
replace_all str from to = replace_loop (suc (length str)) str from to (find str from 0)
