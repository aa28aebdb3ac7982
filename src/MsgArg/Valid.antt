-- ===== src/MsgArg/Valid.antt =====
-- What the text of an argument relies on: the documented behaviour of the AllJoyn core library, and
-- which arguments a message can carry.
use xmppconn.Base.{
  ℕ, ◌<◌, ◌^◌, List, [], ◌∷◌, ◌++◌, Bytes, codes, newline, ◌≡◌, ◌≢◌, ◌⊎◌, All, Lacks,
}
use xmppconn.MsgArg.{
  Scalar, MsgArg, Args, Library, boolean, double, int32, int16, uint16, uint64, uint32, int64, byte,
  string, invalid, array, scalar, dict_entry, text, struct, variant, handle, scalar_array, nil,
  cons,
}

abbrev pub IsBlank : ℕ → Type 0
IsBlank c = (c ≡ b' ') ⊎ (c ≡ newline)

abbrev pub FirstInk : Bytes → Type 0
FirstInk [] = Unit
FirstInk (c ∷ s) = b' ' < c

abbrev pub LastInk : Bytes → Type 0
LastInk [] = Unit
LastInk (c ∷ []) = b' ' < c
LastInk (c ∷ d ∷ s) = LastInk (d ∷ s)

-- A text with no blank at its ends.
abbrev pub IsTrimmed : Bytes → Type 0
IsTrimmed s = FirstInk s × LastInk s

-- A number is written by visible characters, and `<` is none of them.
abbrev pub WordByte : ℕ → Type 0
WordByte c = (b' ' < c) × (c ≢ b'<')

abbrev pub IsWord : Bytes → Type 0
IsWord s = (s ≢ []) × All WordByte s

abbrev pub IsString : MsgArg → Type 0
IsString (text string s) = Unit
IsString a = ⊥

pub record Laws (lib : Library) : Type 0 where
  pub u32 : (n : ℕ) → n < 2 ^ 32 → lib.string_to_u32 (lib.u32_to_string n) ≡ n
  pub i32 : (n : ℕ) → n < 2 ^ 32 → lib.string_to_i32 (lib.i32_to_string n) ≡ n
  pub u64 : (n : ℕ) → n < 2 ^ 64 → lib.string_to_u64 (lib.u64_to_string n) ≡ n
  pub i64 : (n : ℕ) → n < 2 ^ 64 → lib.string_to_i64 (lib.i64_to_string n) ≡ n
  pub hex : (n : ℕ) → n < 2 ^ 64 → lib.hex_to_u64 (codes "0x" ++ lib.u64_to_hex n) ≡ n
  pub u32_word : (n : ℕ) → IsWord (lib.u32_to_string n)
  pub i32_word : (n : ℕ) → IsWord (lib.i32_to_string n)
  pub u64_word : (n : ℕ) → IsWord (lib.u64_to_string n)
  pub i64_word : (n : ℕ) → IsWord (lib.i64_to_string n)
  pub hex_word : (n : ℕ) → IsWord (lib.u64_to_hex n)
  pub trimmed :
      (before s after : Bytes)
      → All IsBlank before
      → All IsBlank after
      → IsTrimmed s
      → lib.trim (before ++ (s ++ after)) ≡ s
  pub string_signature : (a : MsgArg) → lib.signature_of a ≡ codes "s" → IsString a

-- The values that the type has.
abbrev pub bound : Scalar → ℕ
bound boolean = 2
bound double = 2 ^ 64
bound int32 = 2 ^ 32
bound int16 = 2 ^ 16
bound uint16 = 2 ^ 16
bound uint64 = 2 ^ 64
bound uint32 = 2 ^ 32
bound int64 = 2 ^ 64
bound byte = 2 ^ 8

-- A single double is not handed over as its signature wants it.
abbrev pub IsPassed : Scalar → Type 0
IsPassed double = ⊥
IsPassed kind = Unit

-- An empty array of numbers is only read back if it is one of Booleans.
abbrev pub IsReadable : Scalar → List ℕ → Type 0
IsReadable boolean [] = Unit
IsReadable kind [] = ⊥
IsReadable kind (n ∷ ns) = Unit

abbrev pub IsSignature : Bytes → Type 0
IsSignature = All (λ c. (c ≢ b'<') × (c ≢ b'>') × (c ≢ b'"'))

abbrev pub IsSome : Args → Type 0
IsSome nil = ⊥
IsSome (cons a args) = Unit

module _ (lib : Library) where
  -- `Set` takes the value.
  abbrev pub Takes : MsgArg → Type 0
  Takes a = lib.set a ≡ a

  abbrev pub HaveSignature : Bytes → Args → Type 0
  HaveSignature sig nil = Unit
  HaveSignature sig (cons a args) = (lib.signature_of a ≡ sig) × HaveSignature sig args

  unfoldable mutual
    -- An argument that `Set` can make, with numbers in the range of their types, texts with no `<`, no
    -- single double and no handle.
    pub IsValid : MsgArg → Type 0
    IsValid invalid = ⊥
    IsValid (array sig elems) =
        Takes (array sig elems) × IsSignature sig × HaveSignature sig elems × AllValid elems
    IsValid (scalar kind n) = Takes (scalar kind n) × IsPassed kind × (n < bound kind)
    IsValid (dict_entry key val) = Takes (dict_entry key val) × IsValid key × IsValid val
    IsValid (text kind s) = Takes (text kind s) × Lacks b'<' s × Lacks 0 s
    IsValid (struct members) = Takes (struct members) × IsSome members × AllValid members
    IsValid (variant val) = Takes (variant val) × IsSignature (lib.signature_of val) × IsValid val
    IsValid (handle fd) = ⊥
    IsValid (scalar_array kind numbers) =
        Takes (scalar_array kind numbers)
        × IsReadable kind numbers
        × All (λ n. n < bound kind) numbers

    pub AllValid : Args → Type 0
    AllValid nil = Unit
    AllValid (cons a args) = IsValid a × AllValid args

pub LastInk-append : (s : Bytes) (c : ℕ) (t : Bytes) → LastInk (c ∷ t) → LastInk (s ++ c ∷ t)
LastInk-append [] c t h = h
LastInk-append (b ∷ []) c t h = h
LastInk-append (b ∷ d ∷ s) c t h = LastInk-append (d ∷ s) c t h
