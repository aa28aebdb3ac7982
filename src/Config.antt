-- ===== src/Config.antt =====
-- app/ConfigParser.cpp: the fields of the configuration file. The file is the JSON document that it
-- holds, which rapidjson reads and writes; a result `none` is one of its assertions that fails.
pub mod Fields
pub mod Check
pub mod Errors
use xmppconn.Base.{
  ltb, ℕ, Bool, true, false, not, ◌||◌, Option, none, some, List, [], ◌∷◌, ◌++◌, Bytes, codes,
  bytes_eq, bytes_key, is_empty, Map, insert, map, is_some, if◌then◌else◌, ◌>>=◌,
}
use xmppconn.MsgArg.Parse.{c_str}

-- `int`; `negsuc n` is -(n + 1).
pub data ℤ : Type 0 where
  pos : ℕ → ℤ
  negsuc : ℕ → ℤ

-- A JSON value as far as it is looked at; an array's elements are strings, or none.
pub data Value : Type 0 where
  str : Bytes → Value
  int : ℤ → Value
  array : List (Option Bytes) → Value
  other : Value

-- The members of an object, in their order; `ill_formed` is a document that is no object.
pub data Document : Type 0 where
  object : List (Bytes × Value) → Document
  ill_formed : Document

pub data Problem : Type 0 where
  not_opened : Problem
  not_found : Bytes → Problem
  not_set : Bytes → Problem

-- `file` is none where it cannot be opened, and `writable` says whether it can be opened to be
-- written.
pub record ConfigParser : Type 0 where
  pub file : Option Document
  pub writable : Bool
  pub errors : List Problem

abbrev pub Result {ℓ} : Type ℓ → Type ℓ
Result A = Option (ConfigParser × A)

unfoldable pub fail {ℓ} : {A : Type ℓ} → ConfigParser → Problem → A → Result A
fail c problem a = some (record c { errors = c.errors ++ problem ∷ [] }, a)

unfoldable pub new : Option Document → Bool → ConfigParser
new file writable = record {
  file = file;
  writable = writable;
  errors = if is_some file then [] else not_opened ∷ [];
}

-- `d[field]`, the first member of that name; none where `HasMember` is false.
unfoldable pub find_member : Bytes → List (Bytes × Value) → Option Value
find_member field [] = none
find_member field ((name, v) ∷ ms) =
    let rest = find_member field ms in if bytes_eq name field then some v else rest

-- The first member of the name is set, or one is added behind the others.
unfoldable pub set_member : Bytes → Value → List (Bytes × Value) → List (Bytes × Value)
set_member field v [] = (field, v) ∷ []
set_member field v ((name, w) ∷ ms) =
    let rest = set_member field v ms in
    if bytes_eq name field then (name, v) ∷ ms else (name, w) ∷ rest

-- The members, where the document is an object.
abbrev pub members_of : Document → Option (List (Bytes × Value))
members_of (object ms) = some ms
members_of ill_formed = none

-- The common start of the operations: the file is opened and read.
read_file {ℓ} :
    {A : Type ℓ} → ConfigParser → A → (List (Bytes × Value) → Result A) → Option Document → Result A
unfolding fail
read_file c a go none = fail c not_opened a
read_file c a go (some document) = members_of document >>= go

unfoldable pub with_members {ℓ} :
    {A : Type ℓ} → ConfigParser → A → (List (Bytes × Value) → Result A) → Result A
unfolding read_file
with_members c a go = read_file c a go c.file

-- The common end of those that write.
unfoldable pub write : ConfigParser → List (Bytes × Value) → Result ℤ
unfolding fail
write c ms =
    if c.writable
    then some (record c { file = some (object ms) }, pos 0)
    else fail c not_opened (negsuc 0)

-- `GetString()` as a C string.
string_or_empty : Value → Bytes
unfolding c_str
string_or_empty (str s) = c_str s
string_or_empty v = []

field_of : ConfigParser → Bytes → Option Value → Result Bytes
unfolding fail string_or_empty
field_of c field (some v) = some (c, string_or_empty v)
field_of c field none = fail c (not_found field) []

unfoldable pub get_field : ConfigParser → Bytes → Result Bytes
unfolding with_members field_of
get_field c field = with_members c [] λ ms. field_of c field (find_member field ms)

-- `GetString` of each element, as a C string.
unfoldable pub all_strings : List (Option Bytes) → Option (List Bytes)
unfolding c_str
all_strings [] = some []
all_strings (none ∷ vs) = none
all_strings (some s ∷ vs) = do rest ← all_strings vs; some (c_str s ∷ rest)

roster_of : ConfigParser → Option Value → Result (List Bytes)
unfolding all_strings fail
roster_of c (some (array vs)) = do roster ← all_strings vs; some (c, roster)
roster_of c v = fail c (not_found (codes "Roster")) []

unfoldable pub get_roster : ConfigParser → Result (List Bytes)
unfolding with_members roster_of
get_roster c = with_members c [] λ ms. roster_of c (find_member (codes "Roster") ms)

abbrev pub to_array : List Bytes → Value
to_array roster = array (map some roster)

unfoldable pub set_roster : ConfigParser → List Bytes → Result ℤ
unfolding with_members write
set_roster c roster =
    with_members c (negsuc 0) λ ms. write c (set_member (codes "Roster") (to_array roster) ms)

-- `GetInt`
port_of : ConfigParser → Option Value → Result ℤ
unfolding fail
port_of c none = fail c (not_found (codes "Port")) (negsuc 0)
port_of c (some (int n)) = some (c, n)
port_of c (some v) = none

unfoldable pub get_port : ConfigParser → Result ℤ
unfolding with_members port_of
get_port c = with_members c (negsuc 0) λ ms. port_of c (find_member (codes "Port") ms)

-- The text of an object as it is written, by its length, and what a file is read as over whose start
-- the last part of this text was written once more.
pub record PrettyWriter : Type 0 where
  pub size : List (Bytes × Value) → ℕ
  pub overwritten : List (Bytes × Value) → Document

abbrev pub configparser_buf_size : ℕ
configparser_buf_size = 2048

-- A second stream writes the text that is in the buffer to the start of the file: the whole text once
-- more, where the buffer holds it with a zero byte behind it.
unfoldable pub write_twice : PrettyWriter → ConfigParser → List (Bytes × Value) → Result ℤ
unfolding fail
write_twice w c ms =
    if c.writable
    then some (
      record c {
        file = some (if ltb (w.size ms) configparser_buf_size then object ms else w.overwritten ms);
      },
      pos 0,
    )
    else fail c not_opened (negsuc 0)

-- Without the member the result is 1, and no error is noted.
unfoldable pub set_port : PrettyWriter → ConfigParser → ℤ → Result ℤ
unfolding with_members write_twice
set_port w c value = with_members c (negsuc 0) λ ms.
    if is_some (find_member (codes "Port") ms)
    then write_twice w c (set_member (codes "Port") (int value) ms)
    else some (c, pos 1)

-- The check that an added member is there always succeeds, so its error is left out.
unfoldable pub set_field : ConfigParser → Bytes → Bytes → Result ℤ
unfolding with_members write
set_field c field value = with_members c (negsuc 0) λ ms. write c (set_member field (str value) ms)

unfoldable pub add_named : Bytes → Value → Map Bytes Bytes → Map Bytes Bytes
unfolding c_str
add_named name v m =
    if bytes_eq name (codes "Port") || bytes_eq name (codes "Roster")
    then insert name [] m
    else elim v [ str s ↦ insert name (c_str s) m | _ ↦ m ]

-- Names and values are taken as C strings.
unfoldable pub add_member : Bytes → Value → Map Bytes Bytes → Map Bytes Bytes
unfolding add_named c_str
add_member name v m = add_named (c_str name) v m

unfoldable pub config_map_from : List (Bytes × Value) → Map Bytes Bytes → Map Bytes Bytes
unfolding add_member
config_map_from [] m = m
config_map_from ((name, v) ∷ ms) m = config_map_from ms (add_member name v m)

-- A document that is no object has no fields.
unfoldable pub get_config_map : ConfigParser → ConfigParser × Map Bytes Bytes
unfolding config_map_from
get_config_map c = elim c.file [
  | none ↦ (record c { errors = c.errors ++ not_opened ∷ [] }, [])
  | some (object ms) ↦ (c, config_map_from ms [])
  | some ill_formed ↦ (c, [])
]

abbrev pub required_fields : List Bytes
required_fields = codes "ProductID" ∷ codes "SerialNumber" ∷ []

abbrev pub optional_fields : List Bytes
optional_fields =
    codes "Server"
    ∷ codes "UserJID"
    ∷ codes "UserPassword"
    ∷ codes "Roster"
    ∷ codes "RoomJID"
    ∷ codes "Compress"
    ∷ codes "Verbosity"
    ∷ codes "Port"
    ∷ codes "AppId"
    ∷ codes "AllJoynPasscode"
    ∷ codes "DeviceName"
    ∷ codes "AppName"
    ∷ codes "Manufacturer"
    ∷ codes "ModelNumber"
    ∷ codes "Description"
    ∷ codes "DateOfManufacture"
    ∷ codes "SoftwareVersion"
    ∷ codes "HardwareVersion"
    ∷ codes "SupportUrl"
    ∷ []

unfoldable pub one_of : List Bytes → Bytes → Bool
one_of [] name = false
one_of (n ∷ ns) name = bytes_eq name n || one_of ns name

-- The loop; what it counts is only logged.
unfoldable pub all_known : Map Bytes Bytes → Bool
unfolding one_of
all_known [] = true
all_known ((name, value) ∷ m) =
    let rest = all_known m in
    if one_of required_fields name || one_of optional_fields name then rest else false

unfoldable pub is_config_valid : ConfigParser → ConfigParser × Bool
unfolding get_config_map all_known
is_config_valid c =
    let (c', m) = get_config_map c in if is_empty m then (c', false) else (c', all_known m)
