-- ===== src/MsgArg/Print.antt =====
-- `ToString`: an argument as XML text. An element is written by its tag, its attributes and its
-- content, with `indent` spaces before it.
use xmppconn.Base.{
  ℕ, zero, suc, ◌+◌, ◌-◌, ◌^◌, List, [], ◌∷◌, ◌++◌, Bytes, codes, newline, nat_eq, ltb, is_empty,
  if◌then◌else◌,
}
use xmppconn.MsgArg.{
  Scalar, Text, MsgArg, Args, Library, boolean, double, int32, int16, uint16, uint64, uint32, int64,
  byte, signature, object_path, string, invalid, array, scalar, dict_entry, text, struct, variant,
  handle, scalar_array, nil, cons,
}

-- `string(n, ' ')`
unfoldable pub spaces : ℕ → Bytes
spaces zero = []
spaces (suc n) = b' ' ∷ spaces n

abbrev pub close_tag : Bytes → Bytes
close_tag tag = b'<' ∷ b'/' ∷ (tag ++ b'>' ∷ [])

abbrev pub element : Bytes → Bytes → Bytes → Bytes
element tag attributes content = b'<' ∷ (tag ++ (attributes ++ b'>' ∷ (content ++ close_tag tag)))

abbrev pub quoted : Bytes → Bytes → Bytes
quoted name value = b' ' ∷ (name ++ b'=' ∷ b'"' ∷ (value ++ b'"' ∷ []))

abbrev pub scalar_name : Scalar → Bytes
scalar_name boolean = codes "boolean"
scalar_name double = codes "double"
scalar_name int32 = codes "int32"
scalar_name int16 = codes "int16"
scalar_name uint16 = codes "uint16"
scalar_name uint64 = codes "uint64"
scalar_name uint32 = codes "uint32"
scalar_name int64 = codes "int64"
scalar_name byte = codes "byte"

abbrev pub text_name : Text → Bytes
text_name signature = codes "signature"
text_name object_path = codes "object_path"
text_name string = codes "string"

-- An `int16_t` as the `int32_t` that it is converted to.
abbrev pub extend : ℕ → ℕ
extend n = if ltb n (2 ^ 15) then n else n + (2 ^ 32 - 2 ^ 16)

module _ (lib : Library) where
  unfoldable pub number_text : Scalar → ℕ → Bytes
  number_text boolean n = if nat_eq n 0 then codes "0" else codes "1"
  number_text double n = codes "0x" ++ lib.u64_to_hex n
  number_text int32 n = lib.i32_to_string n
  number_text int16 n = lib.i32_to_string (extend n)
  number_text uint16 n = lib.u32_to_string n
  number_text uint64 n = lib.u64_to_string n
  number_text uint32 n = lib.u32_to_string n
  number_text int64 n = lib.i64_to_string n
  number_text byte n = lib.u32_to_string n

  unfoldable pub number_texts : Scalar → List ℕ → Bytes
  number_texts kind [] = []
  number_texts kind (n ∷ ns) = number_text kind n ++ b' ' ∷ number_texts kind ns

  unfoldable pub scalar_array_content : Scalar → List ℕ → ℕ → Bytes
  unfolding number_texts spaces
  scalar_array_content kind numbers indent =
      (if is_empty numbers
        then []
        else newline ∷ (spaces (indent + 2) ++ number_texts kind numbers))
      ++ newline ∷ spaces indent

  unfoldable mutual
    unfolding number_text scalar_array_content spaces

    -- The text behind the indent.
    pub body : MsgArg → ℕ → Bytes
    body invalid indent = codes "<invalid/>"
    body (array sig elems) indent =
        element (codes "array") (quoted (codes "type_sig") sig)
          (each_before elems (indent + 2) ++ newline ∷ spaces indent)
    body (scalar kind n) indent = element (scalar_name kind) [] (number_text kind n)
    body (dict_entry key val) indent = element (codes "dict_entry") [] (
        newline
        ∷ ((spaces (indent + 2) ++ body key (indent + 2))
            ++ newline
              ∷ ((spaces (indent + 2) ++ body val (indent + 2)) ++ newline ∷ spaces indent)))
    body (text kind s) indent = element (text_name kind) [] s
    body (struct members) indent =
        element (codes "struct") [] (newline ∷ (to_strings members (indent + 2) ++ spaces indent))
    body (variant val) indent =
        element (codes "variant") (quoted (codes "signature") (lib.signature_of val))
          (newline ∷ ((spaces (indent + 2) ++ body val (indent + 2)) ++ newline ∷ spaces indent))
    body (handle fd) indent = element (codes "handle") [] (lib.bytes_to_hex fd)
    body (scalar_array kind numbers) indent =
        element (codes "array") (quoted (codes "type") (scalar_name kind))
          (scalar_array_content kind numbers indent)

    -- The elements of an array, each with a newline before it.
    pub each_before : Args → ℕ → Bytes
    each_before nil indent = []
    each_before (cons a args) indent =
        newline ∷ ((spaces indent ++ body a indent) ++ each_before args indent)

    -- `ToString` of a list, and the members of a struct: each with a newline behind it.
    pub to_strings : Args → ℕ → Bytes
    to_strings nil indent = []
    to_strings (cons a args) indent =
        (spaces indent ++ body a indent) ++ newline ∷ to_strings args indent

  -- `ToString` of one argument.
  unfoldable pub to_string : MsgArg → ℕ → Bytes
  unfolding body spaces
  to_string arg indent = spaces indent ++ body arg indent
