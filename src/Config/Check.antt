-- ===== src/Config/Check.antt =====
-- Which documents `isConfigValid` lets through.
use xmppconn.Base.{
  Bool, true, false, not, ◌&&◌, ◌||◌, Option, none, some, List, [], ◌∷◌, Bytes, codes, bytes_eq,
  bytes_key, bytes_eq_iff, is_empty, Map, insert, ◌≡◌, refl, arith,
}
use xmppconn.MsgArg.Parse.{c_str}
use xmppconn.Config.{
  Value, Document, Problem, ConfigParser, ill_formed, str, object, all_known, one_of,
  required_fields, optional_fields, add_member, add_named, config_map_from, get_config_map,
  is_config_valid,
}

-- A field that the check knows.
unfoldable pub is_known : Bytes → Bool
is_known name = one_of required_fields name || one_of optional_fields name

-- A member that counts: the port, the roster, and every string.
abbrev pub is_string : Value → Bool
is_string (str s) = true
is_string v = false

abbrev pub counts_as : Bytes → Value → Bool
counts_as name v = bytes_eq name (codes "Port") || bytes_eq name (codes "Roster") || is_string v

-- A name is taken as a C string.
abbrev pub counts : Bytes × Value → Bool
counts (name, v) = counts_as (c_str name) v

abbrev pub some_counts : List (Bytes × Value) → Bool
some_counts [] = false
some_counts (m ∷ ms) = counts m || some_counts ms

-- Every member that counts is known.
abbrev pub all_fine : List (Bytes × Value) → Bool
all_fine [] = true
all_fine (m ∷ ms) = (not (counts m) || is_known (c_str m.0)) && all_fine ms

all_known-cons :
    (name value : Bytes) (m : Map Bytes Bytes)
    → all_known ((name, value) ∷ m) ≡ (is_known name && all_known m)
unfolding all_known is_known
all_known-cons name value m = ground arith

all_known-insert :
    (name value : Bytes) (m : Map Bytes Bytes)
    → all_known (insert name value m) ≡ (is_known name && all_known m)
unfolding insert
all_known-insert name value [] = all_known-cons name value []
all_known-insert name value ((first, x) ∷ m) = ground (
  arith,
  all_known-cons name value m,
  all_known-cons name value ((first, x) ∷ m),
  all_known-cons first x m,
  all_known-cons first x (insert name value m),
  all_known-insert name value m,
  bytes_eq_iff first name,
)

is_empty-insert :
    (name value : Bytes) (m : Map Bytes Bytes) → is_empty (insert name value m) ≡ false
unfolding insert
is_empty-insert name value [] = refl
is_empty-insert name value ((first, x) ∷ m) = ground arith

all_known-add_named :
    (name : Bytes) (v : Value) (m : Map Bytes Bytes)
    → all_known (add_named name v m) ≡ ((not (counts_as name v) || is_known name) && all_known m)
unfolding add_named
all_known-add_named name (str s) m =
    ground (arith, all_known-insert name [] m, all_known-insert name (c_str s) m)
all_known-add_named name v m = ground (arith, all_known-insert name [] m)

is_empty-add_named :
    (name : Bytes) (v : Value) (m : Map Bytes Bytes)
    → is_empty (add_named name v m) ≡ (not (counts_as name v) && is_empty m)
unfolding add_named
is_empty-add_named name (str s) m =
    ground (arith, is_empty-insert name [] m, is_empty-insert name (c_str s) m)
is_empty-add_named name v m = ground (arith, is_empty-insert name [] m)

all_known-map :
    (ms : List (Bytes × Value)) (m : Map Bytes Bytes)
    → all_known (config_map_from ms m) ≡ (all_fine ms && all_known m)
unfolding config_map_from add_member
all_known-map [] m = refl
all_known-map ((name, v) ∷ ms) m =
    ground
      (arith, all_known-map ms (add_named (c_str name) v m), all_known-add_named (c_str name) v m)

is_empty-map :
    (ms : List (Bytes × Value)) (m : Map Bytes Bytes)
    → is_empty (config_map_from ms m) ≡ (not (some_counts ms) && is_empty m)
unfolding config_map_from add_member
is_empty-map [] m = refl
is_empty-map ((name, v) ∷ ms) m =
    ground
      (arith, is_empty-map ms (add_named (c_str name) v m), is_empty-add_named (c_str name) v m)

all_known-nil : all_known [] ≡ true
unfolding all_known
all_known-nil = refl

-- What the check says of the file.
abbrev pub is_fine : Option Document → Bool
is_fine none = false
is_fine (some ill_formed) = false
is_fine (some (object ms)) = some_counts ms && all_fine ms

check_of :
    (file : Option Document) (writable : Bool) (errors : List Problem)
    → (is_config_valid (record { file = file; writable = writable; errors = errors })).1
      ≡ is_fine file
unfolding is_config_valid get_config_map
check_of none writable errors = refl
check_of (some ill_formed) writable errors = refl
check_of (some (object ms)) writable errors =
    ground (arith, all_known-map ms [], is_empty-map ms [], all_known-nil)

-- The configuration is valid exactly if the file can be opened and holds an object, some member of it
-- counts, being the port, the roster or a string, and every member that counts has a known name.
-- Names are taken up to a zero byte. Whether the required names are there makes no difference.
pub is_config_valid-is_fine : (c : ConfigParser) → (is_config_valid c).1 ≡ is_fine c.file
is_config_valid-is_fine c = check_of c.file c.writable c.errors
