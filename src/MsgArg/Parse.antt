-- ===== src/MsgArg/Parse.antt =====
-- `FromString` and `VectorFromString`: the text of one argument, and of a sequence of them, read
-- back.
use xmppconn.Base.{
  ℕ, zero, suc, ◌+◌, ◌-◌, ◌*◌, ◌/◌, ◌%◌, ◌^◌, Bool, ◌||◌, Option, none, some, List, [], ◌∷◌, ◌++◌,
  Bytes, codes, nat_eq, ltb, bytes_eq, is_empty, if◌then◌else◌, ◌>>=◌, length, take, drop,
}
use xmppconn.Text.{starts_with, find_at}
use xmppconn.MsgArg.{
  Scalar, Text, MsgArg, Args, Library, boolean, double, int32, int16, uint16, uint64, uint32, int64,
  byte, signature, object_path, string, invalid, array, scalar, dict_entry, text, struct, variant,
  scalar_array, nil, cons,
}

-- `find_first_of` in a text that begins at position `pos`.
unfoldable pub first_of : (ℕ → Bool) → Bytes → ℕ → Option ℕ
first_of wanted [] pos = none
first_of wanted (c ∷ s) pos =
    let later = first_of wanted s (suc pos) in if wanted c then some pos else later

-- `find_last_of`
unfoldable pub last_of : ℕ → Bytes → ℕ → Option ℕ
last_of c [] pos = none
last_of c (d ∷ s) pos = elim (last_of c s (suc pos)) [
  | some later ↦ some later
  | none ↦ if nat_eq c d then some pos else none
]

-- `find_first_of(…) + 1`, where `npos + 1` is 0.
abbrev pub behind : Option ℕ → ℕ
behind none = 0
behind (some pos) = suc pos

-- `substr(pos, end - pos)`; a difference below zero, or of `npos`, reaches beyond the text.
unfoldable pub substr_to : Bytes → ℕ → Option ℕ → Bytes
substr_to s pos none = drop pos s
substr_to s pos (some end) = if ltb end pos then drop pos s else take (end - pos) (drop pos s)

-- What the tag of an element says it is.
pub data Form : Type 0 where
  typed_array entry structure packed descriptor unknown : Form
  one : Scalar → Form
  phrase : Text → Form
  many : Scalar → Form

-- The tests in their order.
unfoldable pub form_of : Bytes → Form
unfolding starts_with bytes_eq
form_of tag =
    if starts_with (codes "<array type_sig=") tag
    then typed_array
    else if bytes_eq tag (codes "<boolean>")
    then one boolean
    else if bytes_eq tag (codes "<double>")
    then one double
    else if bytes_eq tag (codes "<dict_entry>")
    then entry
    else if bytes_eq tag (codes "<signature>")
    then phrase signature
    else if bytes_eq tag (codes "<int32>")
    then one int32
    else if bytes_eq tag (codes "<int16>")
    then one int16
    else if bytes_eq tag (codes "<object_path>")
    then phrase object_path
    else if bytes_eq tag (codes "<uint16>")
    then one uint16
    else if bytes_eq tag (codes "<struct>")
    then structure
    else if bytes_eq tag (codes "<string>")
    then phrase string
    else if bytes_eq tag (codes "<uint64>")
    then one uint64
    else if bytes_eq tag (codes "<uint32>")
    then one uint32
    else if starts_with (codes "<variant signature=") tag
    then packed
    else if bytes_eq tag (codes "<int64>")
    then one int64
    else if bytes_eq tag (codes "<byte>")
    then one byte
    else if bytes_eq tag (codes "<handle>")
    then descriptor
    else if bytes_eq tag (codes "<array type=\"boolean\">")
    then many boolean
    else if bytes_eq tag (codes "<array type=\"double\">")
    then many double
    else if bytes_eq tag (codes "<array type=\"int32\">")
    then many int32
    else if bytes_eq tag (codes "<array type=\"int16\">")
    then many int16
    else if bytes_eq tag (codes "<array type=\"uint16\">")
    then many uint16
    else if bytes_eq tag (codes "<array type=\"uint64\">")
    then many uint64
    else if bytes_eq tag (codes "<array type=\"uint32\">")
    then many uint32
    else if bytes_eq tag (codes "<array type=\"int64\">")
    then many int64
    else if bytes_eq tag (codes "<array type=\"byte\">")
    then many byte
    else unknown

-- The text up to the delimiter that it is quoted by.
unquote : Bytes → Bytes
unfolding first_of substr_to
unquote [] = []
unquote (delimiter ∷ s) = substr_to s 0 (first_of (nat_eq delimiter) s 0)

-- The signature of an array, which stands behind `<array type_sig=`.
unfoldable pub array_signature : Bytes → Bytes
unfolding unquote
array_signature tag = unquote (drop (length (codes "<array type_sig=")) tag)

-- The elements that are strings, which is all that an array of strings takes over.
unfoldable pub only_strings : Args → Args
only_strings nil = nil
only_strings (cons (text string s) args) = cons (text string s) (only_strings args)
only_strings (cons a args) = only_strings args

-- The parts between the spaces; `word` is what has been read of the present one.
unfoldable pub words : Bytes → Bytes → List Bytes
words word [] = if is_empty word then [] else word ∷ []
words word (c ∷ s) =
    let ended = words [] s in
    let more = words (word ++ c ∷ []) s in
    if nat_eq c b' ' then (if is_empty word then ended else word ∷ ended) else more

-- The text that `c_str()` shows.
unfoldable pub c_str : Bytes → Bytes
c_str [] = []
c_str (c ∷ s) = let rest = c_str s in if nat_eq c 0 then [] else c ∷ rest

-- Where the closing tag stands; `missing` is the return from within the loop.
pub data Close : Type 0 where
  missing exhausted : Close
  found : ℕ → Close

-- One round of the loop, for the next closing and the next starting tag; `go` is the round after it.
-- `rest` begins at position `cur`.
unfoldable pub next_round :
    (ℕ → Bytes → ℕ → ℕ → Close)
    → (prefix close : Bytes) → ℕ
    → Bytes
    → ℕ
    → ℕ
    → Option ℕ
    → Option ℕ
    → Close
next_round go prefix close d rest cur at none start = missing
next_round go prefix close d rest cur at (some next) none =
    let cur' = next + length close in
    go d (drop (cur' - cur) rest) cur' (if nat_eq d 0 then next else at)
next_round go prefix close d rest cur at (some next) (some start) =
    let opened = start + length prefix in
    let closed = next + length close in
    if ltb start next
    then go (suc (suc d)) (drop (opened - cur) rest) opened at
    else go d (drop (closed - cur) rest) closed (if nat_eq d 0 then next else at)

-- The search for the closing tag, from `cur` on at a depth: each round moves on in the text.
unfoldable pub close_from : ℕ → (prefix close : Bytes) → ℕ → Bytes → ℕ → ℕ → Close
unfolding next_round
close_from zero prefix close depth rest cur at = exhausted
close_from (suc f) prefix close zero rest cur at = found at
close_from (suc f) prefix close (suc d) [] cur at = found at
close_from (suc f) prefix close (suc d) (c ∷ s) cur at =
    next_round (close_from f prefix close) prefix close d (c ∷ s) cur at (find_at close (c ∷ s) cur)
      (find_at prefix (c ∷ s) cur)

-- `find_first_of(" >")`
abbrev pub ends_name : ℕ → Bool
ends_name c = nat_eq c b' ' || nat_eq c b'>'

-- The element before the position and what is read of the text behind it.
unfoldable pub split_element :
    (Bytes → Option MsgArg) → (Bytes → Option Args) → Bytes → Bytes → Close → Option Args
split_element read more content close missing = some nil
split_element read more content close exhausted = none
split_element read more content close (found at) = do
  a ← read (take (at + length close) content)
  args ← more (drop (at + length close) content)
  some (cons a args)

name_found : (Bytes → Option MsgArg) → (Bytes → Option Args) → Bytes → ℕ → Option ℕ → Option Args
unfolding split_element close_from substr_to
name_found read more content begin none = some nil
name_found read more content begin (some end) =
    let name = substr_to content begin (some end) in
    let prefix = b'<' ∷ name in
    let close = b'<' ∷ b'/' ∷ (name ++ b'>' ∷ []) in
    split_element read more content close
      (close_from (suc (length content)) prefix close 1 (drop end content) end end)

-- One round of the loop of `VectorFromString`.
unfoldable pub read_element : (Bytes → Option MsgArg) → (Bytes → Option Args) → Bytes → Option Args
unfolding name_found first_of
read_element read more content =
    let begin = behind (first_of (nat_eq b'<') content 0) in
    name_found read more content begin (first_of ends_name (drop begin content) begin)

module _ (lib : Library) where
  -- The number, converted to the type that it is stored in.
  unfoldable pub read_number : Scalar → Bytes → ℕ
  unfolding bytes_eq
  read_number boolean s = if bytes_eq s (codes "1") then 1 else 0
  read_number double s = lib.hex_to_u64 s
  read_number int32 s = lib.string_to_i32 s
  read_number int16 s = lib.string_to_i32 s % 2 ^ 16
  read_number uint16 s = lib.string_to_u32 s % 2 ^ 16
  read_number uint64 s = lib.string_to_u64 s
  read_number uint32 s = lib.string_to_u32 s
  read_number int64 s = lib.string_to_i64 s
  read_number byte s = lib.string_to_u32 s % 2 ^ 8

  -- A double is handed over as the 64-bit number that holds its bits.
  unfoldable pub set_scalar : Scalar → ℕ → MsgArg
  set_scalar double n = lib.set_double n
  set_scalar kind n = lib.set (scalar kind n)

  unfoldable pub read_numbers : Scalar → List Bytes → List ℕ
  read_numbers kind [] = []
  read_numbers kind (w ∷ ws) = read_number kind w ∷ read_numbers kind ws

  -- Of an empty list only the array of Booleans is set.
  unfoldable pub set_numbers : Scalar → List ℕ → MsgArg
  set_numbers boolean [] = lib.set (scalar_array boolean [])
  set_numbers kind [] = invalid
  set_numbers kind (n ∷ ns) = lib.set (scalar_array kind (n ∷ ns))

  unfoldable pub read_array : Bytes → Args → MsgArg
  unfolding bytes_eq only_strings
  read_array sig nil = lib.set (array sig nil)
  read_array sig (cons a args) =
      if bytes_eq sig (codes "s")
      then lib.set (array sig (only_strings (cons a args)))
      else lib.set (array (lib.signature_of a) (cons a args))

  unfoldable pub read_entry : Args → MsgArg
  read_entry (cons key (cons val nil)) = lib.set (dict_entry key val)
  read_entry args = invalid

  unfoldable pub read_handle : Bytes → MsgArg
  read_handle content =
      let len = length content / 2 in
      let bytes = lib.hex_to_bytes content len in
      if nat_eq len (length bytes) then lib.set_handle bytes else invalid

  -- The branches of `FromString`, over `VectorFromString` and `FromString` of a content.
  unfoldable pub read_form :
      (Bytes → Option Args) → (Bytes → Option MsgArg) → Form → Bytes → Bytes → Option MsgArg
  unfolding read_number set_scalar read_numbers set_numbers read_array array_signature read_entry
      read_handle words c_str
  read_form vector single typed_array tag content = do
    args ← vector content
    some (read_array (array_signature tag) args)
  read_form vector single entry tag content = do args ← vector content; some (read_entry args)
  read_form vector single structure tag content = do
    args ← vector content
    some (lib.set (struct args))
  read_form vector single packed tag content = do a ← single content; some (lib.set (variant a))
  read_form vector single descriptor tag content = some (read_handle (lib.trim content))
  read_form vector single (one kind) tag content = some (set_scalar kind (read_number kind content))
  read_form vector single (phrase kind) tag content = some (lib.set (text kind (c_str content)))
  read_form vector single (many kind) tag content =
      some (set_numbers kind (read_numbers kind (words [] (lib.trim content))))
  read_form vector single unknown tag content = some invalid

  -- The tag ends behind the first `>`, and the content before the last `<`.
  unfoldable pub read_text : (Bytes → Option Args) → (Bytes → Option MsgArg) → Bytes → Option MsgArg
  unfolding read_form form_of first_of last_of substr_to
  read_text vector single xml =
      let pos = behind (first_of (nat_eq b'>') xml 0) in
      let tag = lib.trim (take pos xml) in
      read_form vector single (form_of tag) tag (substr_to xml pos (last_of b'<' xml 0))

  -- On fuel; `elements` is the loop of `VectorFromString` behind its trim.
  unfoldable mutual
    unfolding read_text read_element

    pub from_text : ℕ → Bytes → Option MsgArg
    from_text zero xml = none
    from_text (suc f) xml = read_text (λ s. elements f (lib.trim s)) (from_text f) xml

    pub elements : ℕ → Bytes → Option Args
    elements zero content = none
    elements (suc f) [] = some nil
    elements (suc f) (c ∷ s) =
        read_element (from_text f) (λ rest. elements f (lib.trim rest)) (c ∷ s)

  unfoldable pub from_string : Bytes → Option MsgArg
  unfolding from_text
  from_string xml = from_text (2 * length xml + 2) xml

  unfoldable pub vector_from_string : Bytes → Option Args
  unfolding elements
  vector_from_string content = elements (2 * length content + 2) (lib.trim content)
