-- ===== src/Config/Fields.antt =====
-- What is set is what is then read, and how the operations report a failure.
use xmppconn.Base.{
  All, Lacks, ◌<◌, true, Option, none, some, List, [], ◌∷◌, Bytes, codes, bytes_eq, bytes_eq_iff,
  map, is_some, if◌then◌else◌, ◌>>=◌, ◌≡◌, ◌≢◌, refl, ap, ◌∙◌, sym, arith,
}
use xmppconn.MsgArg.Parse.{c_str}
use xmppconn.MsgArg.Forms.{c_str-whole}
use xmppconn.Config.{
  PrettyWriter, configparser_buf_size, ℤ, pos, negsuc, Value, str, int, array, object, ConfigParser,
  Result, find_member, set_member, with_members, get_field, field_of, read_file, roster_of, port_of,
  all_strings, get_roster, set_roster, get_port, set_port, set_field, to_array,
}

find-set_member :
    (field name : Bytes) (v : Value) (ms : List (Bytes × Value))
    → find_member name (set_member field v ms)
      ≡ (if bytes_eq field name then some v else find_member name ms)
unfolding find_member set_member
find-set_member field name v [] = refl
find-set_member field name v ((first, w) ∷ ms) = ground (
  arith,
  find-set_member field name v ms,
  bytes_eq_iff first field,
  bytes_eq_iff first name,
  bytes_eq_iff field name,
)

all_strings-map : (ss : List Bytes) → All (Lacks 0) ss → all_strings (map some ss) ≡ some ss
unfolding all_strings
all_strings-map [] h = refl
all_strings-map (s ∷ ss) (hs, h) =
    ap (λ o. o >>= λ rest. some (c_str s ∷ rest)) (all_strings-map ss h)
    ∙ ap (λ x. some (x ∷ ss)) (c_str-whole s hs)

-- The parser after its file was written.
abbrev pub written : ConfigParser → List (Bytes × Value) → ConfigParser
written c ms = record c { file = some (object ms) }

-- What an operation answers, without the state.
abbrev pub answer {ℓ} : {A : Type ℓ} → Result A → Option A
answer r = r >>= λ x. some x.1

-- The file can be read and written, and holds this object.
abbrev pub Holds : ConfigParser → List (Bytes × Value) → Type 0
Holds c ms = (c.file ≡ some (object ms)) × (c.writable ≡ true)

set_field-run :
    (c : ConfigParser) (ms : List (Bytes × Value)) (field value : Bytes)
    → Holds c ms
    → set_field c field value ≡ some (written c (set_member field (str value) ms), pos 0)
unfolding set_field
set_field-run c ms field value h = ground (arith, h)

with_members-object {ℓ} :
    {A : Type ℓ} (c : ConfigParser) (a : A) (go : List (Bytes × Value) → Result A)
    (ms : List (Bytes × Value))
    → c.file ≡ some (object ms)
    → with_members c a go ≡ go ms
unfolding with_members
with_members-object c a go ms h = ap (read_file c a go) h

field_answer : Option Value → Bytes
field_answer (some (str s)) = c_str s
field_answer v = []

field_of-answer :
    (c : ConfigParser) (field : Bytes) (o : Option Value)
    → answer (field_of c field o) ≡ some (field_answer o)
unfolding field_of field_answer
field_of-answer c field none = refl
field_of-answer c field (some (str s)) = refl
field_of-answer c field (some v) = refl

get_field-answer :
    (c : ConfigParser) (ms : List (Bytes × Value)) (field : Bytes)
    → c.file ≡ some (object ms)
    → answer (get_field c field) ≡ some (field_answer (find_member field ms))
get_field-answer c ms field h =
    unfold get_field in
    (ap answer (with_members-object c [] (λ ns. field_of c field (find_member field ns)) ms h)
      ∙ field_of-answer c field (find_member field ms))

roster_answer :
    (c d : ConfigParser) (o : Option Value) → answer (roster_of c o) ≡ answer (roster_of d o)
unfolding roster_of
roster_answer c d (some (array vs)) = ground arith
roster_answer c d none = refl
roster_answer c d (some v) = refl

port_answer : (c d : ConfigParser) (o : Option Value) → answer (port_of c o) ≡ answer (port_of d o)
unfolding port_of
port_answer c d (some (int n)) = refl
port_answer c d none = refl
port_answer c d (some v) = refl

-- The roster and the port are read from their members alone.
get_roster-member :
    (c d : ConfigParser) (ms ns : List (Bytes × Value))
    → c.file ≡ some (object ms)
    → d.file ≡ some (object ns)
    → find_member (codes "Roster") ms ≡ find_member (codes "Roster") ns
    → answer (get_roster c) ≡ answer (get_roster d)
get_roster-member c d ms ns h k e =
    let name = codes "Roster" in
    unfold get_roster in
    (ap answer (with_members-object c [] (λ xs. roster_of c (find_member name xs)) ms h)
      ∙ ap (λ o. answer (roster_of c o)) e
      ∙ roster_answer c d (find_member name ns)
      ∙ sym (ap answer (with_members-object d [] (λ xs. roster_of d (find_member name xs)) ns k)))

get_port-member :
    (c d : ConfigParser) (ms ns : List (Bytes × Value))
    → c.file ≡ some (object ms)
    → d.file ≡ some (object ns)
    → find_member (codes "Port") ms ≡ find_member (codes "Port") ns
    → answer (get_port c) ≡ answer (get_port d)
get_port-member c d ms ns h k e =
    let name = codes "Port" in
    unfold get_port in
    (ap answer (with_members-object c (negsuc 0) (λ xs. port_of c (find_member name xs)) ms h)
      ∙ ap (λ o. answer (port_of c o)) e
      ∙ port_answer c d (find_member name ns)
      ∙ sym (
          ap answer
            (with_members-object d (negsuc 0) (λ xs. port_of d (find_member name xs)) ns k)))

find-set_other :
    (field name : Bytes) (v : Value) (ms : List (Bytes × Value))
    → name ≢ field
    → find_member name (set_member field v ms) ≡ find_member name ms
find-set_other field name v ms h =
    ground (arith, find-set_member field name v ms, bytes_eq_iff field name, h)

find-set_self :
    (field : Bytes) (v : Value) (ms : List (Bytes × Value))
    → find_member field (set_member field v ms) ≡ some v
find-set_self field v ms =
    ground (arith, find-set_member field field v ms, bytes_eq_iff field field)

-- Every other field, the roster and the port are read as before.
abbrev pub KeepsOthers : ConfigParser → ConfigParser → Bytes → Type 0
KeepsOthers c c' field =
    ((name : Bytes) → name ≢ field → answer (get_field c' name) ≡ answer (get_field c name))
    × (codes "Roster" ≢ field → answer (get_roster c') ≡ answer (get_roster c))
    × (codes "Port" ≢ field → answer (get_port c') ≡ answer (get_port c))

set_member-KeepsOthers :
    (c : ConfigParser) (ms : List (Bytes × Value)) (field : Bytes) (v : Value)
    → c.file ≡ some (object ms)
    → KeepsOthers c (written c (set_member field v ms)) field
set_member-KeepsOthers c ms field v h =
    let ns = set_member field v ms in
    (
      λ name differ.
          get_field-answer (written c ns) ns name refl
          ∙ ap (λ o. some (field_answer o)) (find-set_other field name v ms differ)
          ∙ sym (get_field-answer c ms name h),
      λ differ.
          get_roster-member (written c ns) c ns ms refl h
            (find-set_other field (codes "Roster") v ms differ),
      λ differ.
          get_port-member (written c ns) c ns ms refl h
            (find-set_other field (codes "Port") v ms differ),
    )

-- Where the file can be written and holds an object that has a port, each of the three setters returns
-- 0 and notes no error; then the field, the roster or the port is read back as it was set, and all
-- others as before. This is if the field's value and the names in the roster hold no zero byte, and the
-- text with the new port is shorter than the buffer of 2048 bytes.
pub get-set :
    (w : PrettyWriter) (c : ConfigParser) (ms : List (Bytes × Value)) (field value : Bytes)
    (roster : List Bytes) (port : ℤ)
    → Holds c ms
    → Lacks 0 value
    → All (Lacks 0) roster
    → w.size (set_member (codes "Port") (int port) ms) < configparser_buf_size
    → is_some (find_member (codes "Port") ms) ≡ true
    → ((c' : ConfigParser) × (set_field c field value ≡ some (c', pos 0))
        × (c'.errors ≡ c.errors)
        × (get_field c' field ≡ some (c', value))
        × KeepsOthers c c' field)
      × ((c' : ConfigParser) × (set_roster c roster ≡ some (c', pos 0))
          × (c'.errors ≡ c.errors)
          × (get_roster c' ≡ some (c', roster))
          × KeepsOthers c c' (codes "Roster"))
      × ((c' : ConfigParser) × (set_port w c port ≡ some (c', pos 0))
          × (c'.errors ≡ c.errors)
          × (get_port c' ≡ some (c', port))
          × KeepsOthers c c' (codes "Port"))
unfolding get_field get_roster get_port set_roster set_port
get-set w c ms field value roster port h whole wholes fits there =
    let fs = set_member field (str value) ms in
    let rs = set_member (codes "Roster") (to_array roster) ms in
    let ps = set_member (codes "Port") (int port) ms in
    (
      (
        written c fs,
        set_field-run c ms field value h,
        refl,
        ap (field_of (written c fs) field) (find-set_self field (str value) ms)
            ∙ (unfold field_of in ap (λ x. some (written c fs, x)) (c_str-whole value whole)),
        set_member-KeepsOthers c ms field (str value) h.0,
      ),
      (
        written c rs,
        ground (arith, h),
        refl,
        ap (roster_of (written c rs)) (find-set_self (codes "Roster") (to_array roster) ms)
            ∙ ap (λ o. o >>= λ r. some (written c rs, r)) (all_strings-map roster wholes),
        set_member-KeepsOthers c ms (codes "Roster") (to_array roster) h.0,
      ),
      (
        written c ps,
        ground (arith, h, there, fits),
        refl,
        ap (port_of (written c ps)) (find-set_self (codes "Port") (int port) ms),
        set_member-KeepsOthers c ms (codes "Port") (int port) h.0,
      ),
    )
