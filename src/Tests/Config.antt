-- ===== src/Tests/Config.antt =====
-- A configuration file with a field that is not known, and one without a port.
use xmppconn.Base.{
  arith, Bytes, false, some, true, [], ◌∷◌, List, bytes_eq, codes, is_some, ◌≡◌, refl,
}
use xmppconn.MsgArg.Parse.{c_str}
use xmppconn.Config.{
  PrettyWriter, ill_formed, ConfigParser, Value, pos, negsuc, str, int, array, object, find_member,
  set_field, get_field, set_roster, get_roster, set_port, get_port, is_config_valid, one_of,
}
use xmppconn.Config.Fields.{KeepsOthers, get-set}
use xmppconn.Config.Check.{is_fine, is_known, is_config_valid-is_fine}
use xmppconn.Config.Errors.{Reports, Anything, NotFailed, operations-Reports}

abbrev file : List (Bytes × Value)
file =
    (codes "Server", str (codes "host"))
    ∷ (codes "Roster", array (some (codes "peer@host") ∷ []))
    ∷ (codes "Port", int (pos 5222))
    ∷ []

abbrev short : PrettyWriter
short = record { size = λ ms. 200; overwritten = λ ms. ill_formed }

abbrev config : ConfigParser
config = record { file = some (object file); writable = true; errors = [] }

file-has_port : is_some (find_member (codes "Port") file) ≡ true
unfolding find_member bytes_eq
file-has_port = refl

get-set_example :
    ((c' : ConfigParser) × (set_field config (codes "Server") (codes "other") ≡ some (c', pos 0))
      × (c'.errors ≡ config.errors)
      × (get_field c' (codes "Server") ≡ some (c', codes "other"))
      × KeepsOthers config c' (codes "Server"))
    × ((c' : ConfigParser) × (set_roster config (codes "a" ∷ []) ≡ some (c', pos 0))
        × (c'.errors ≡ config.errors)
        × (get_roster c' ≡ some (c', codes "a" ∷ []))
        × KeepsOthers config c' (codes "Roster"))
    × ((c' : ConfigParser) × (set_port short config (negsuc 4) ≡ some (c', pos 0))
        × (c'.errors ≡ config.errors)
        × (get_port c' ≡ some (c', negsuc 4))
        × KeepsOthers config c' (codes "Port"))
get-set_example =
    get-set short config file (codes "Server") (codes "other") (codes "a" ∷ []) (negsuc 4)
      (refl, refl) (ground arith) (ground arith, tt) (omega arith) file-has_port

-- Without the two required fields.
is_config_valid-is_fine_example : (is_config_valid config).1 ≡ is_fine config.file
is_config_valid-is_fine_example = is_config_valid-is_fine config

without_required : (is_config_valid config).1 ≡ true
unfolding bytes_eq is_known one_of c_str
without_required = is_config_valid-is_fine config

-- A file that cannot be written, and that has no port.
abbrev locked : ConfigParser
locked = record { file = some (object []); writable = false; errors = [] }

operations-Reports_example :
    Reports Anything locked [] (get_field locked (codes "Server"))
    × Reports Anything locked [] (get_roster locked)
    × Reports Anything locked (negsuc 0) (get_port locked)
    × Reports NotFailed locked (negsuc 0) (set_field locked (codes "Server") (codes "host"))
    × Reports NotFailed locked (negsuc 0) (set_roster locked [])
    × Reports NotFailed locked (negsuc 0) (set_port short locked (pos 80))
operations-Reports_example =
    operations-Reports short locked (codes "Server") (codes "host") [] (pos 80)
