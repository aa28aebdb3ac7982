-- ===== src/MsgArg.antt =====
-- common/xmppconnutil.cpp, namespace util::msgarg: the arguments of calls, signals and properties as
-- XML text. The AllJoyn core library is a parameter: its number and hex functions, its `Trim`, and
-- what `MsgArg::Set` makes of a value that it is given.
pub mod Print
pub mod Parse
pub mod Tags
pub mod Close
pub mod Passes
pub mod Valid
pub mod Numbers
pub mod Cuts
pub mod Element
pub mod Attributes
pub mod Shape
pub mod Sequence
pub mod Forms
pub mod Reads
pub mod RoundTrip
pub mod Total
pub mod Lost
use xmppconn.Base.{ℕ, List, Bytes}

-- The types whose values are numbers. A signed number is its two's complement bit pattern, and a
-- `double` is its 64 bits.
pub data Scalar : Type 0 where
  boolean double int32 int16 uint16 uint64 uint32 int64 byte : Scalar

-- The types whose values are texts.
pub data Text : Type 0 where
  signature object_path string : Text

-- An `AllJoynTypeId` with its value. `array` has the signature of its elements.
mutual
  pub data MsgArg : Type 0 where
    invalid : MsgArg
    array : Bytes → Args → MsgArg
    scalar : Scalar → ℕ → MsgArg
    dict_entry : MsgArg → MsgArg → MsgArg
    text : Text → Bytes → MsgArg
    struct : Args → MsgArg
    variant : MsgArg → MsgArg
    handle : Bytes → MsgArg
    scalar_array : Scalar → List ℕ → MsgArg

  pub data Args : Type 0 where
    nil : Args
    cons : MsgArg → Args → Args

pub record Library : Type 0 where
  pub u32_to_string : ℕ → Bytes
  pub i32_to_string : ℕ → Bytes
  pub u64_to_string : ℕ → Bytes
  pub i64_to_string : ℕ → Bytes
  -- to the base 16
  pub u64_to_hex : ℕ → Bytes
  pub string_to_u32 : Bytes → ℕ
  pub string_to_i32 : Bytes → ℕ
  pub string_to_u64 : Bytes → ℕ
  pub string_to_i64 : Bytes → ℕ
  pub hex_to_u64 : Bytes → ℕ
  pub bytes_to_hex : Bytes → Bytes
  -- the bytes that `HexStringToBytes` writes into a buffer of the given size
  pub hex_to_bytes : Bytes → ℕ → Bytes
  pub trim : Bytes → Bytes
  pub signature_of : MsgArg → Bytes
  -- the `MsgArg` after `Set` with this value, which stays invalid where `Set` refuses it
  pub set : MsgArg → MsgArg
  -- the same for the signature of a double, where the argument is the 64-bit number that holds its bits
  pub set_double : ℕ → MsgArg
  -- the same for the address of the bytes of a handle
  pub set_handle : Bytes → MsgArg
