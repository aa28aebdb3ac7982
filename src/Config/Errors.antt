-- ===== src/Config/Errors.antt =====
-- How the operations on the configuration report a failure.
use xmppconn.Base.{
  Option, none, some, List, [], ◌∷◌, ◌++◌, Bytes, codes, ◌>>=◌, ◌≡◌, ◌≢◌, ◌⊎◌, refl, arith, inl,
  inr, is_some, if_rule,
}
use xmppconn.Config.{
  PrettyWriter, write_twice, ℤ, pos, negsuc, Value, str, int, array, Document, object, ill_formed,
  Problem, not_opened, not_found, ConfigParser, Result, fail, find_member, set_member, read_file,
  with_members, write, field_of, get_field, all_strings, roster_of, get_roster, set_roster, port_of,
  get_port, set_port, set_field, to_array,
}

-- Either no error is noted, and the answer is a good one, or exactly one is, and then the file is as
-- it was and the answer is the one for failures. An assertion that fails gives no outcome.
abbrev pub Reports {ℓ} : {A : Type ℓ} → (A → Type 0) → ConfigParser → A → Result A → Type ℓ
Reports Good c failed none = Unit
Reports Good c failed (some (c', a)) =
    ((c'.errors ≡ c.errors) × Good a)
    ⊎ ((p : Problem) × (c'.errors ≡ c.errors ++ p ∷ []) × (c'.file ≡ c.file) × (a ≡ failed))

fail-Reports {ℓ} :
    {A : Type ℓ} (Good : A → Type 0) (c : ConfigParser) (p : Problem) (failed : A)
    → Reports Good c failed (fail c p failed)
unfolding fail
fail-Reports Good c p failed = inr (p, refl, refl, refl)

with_members-Reports {ℓ} :
    {A : Type ℓ} (Good : A → Type 0) (c : ConfigParser) (failed : A)
    (go : List (Bytes × Value) → Result A)
    → ((ms : List (Bytes × Value)) → Reports Good c failed (go ms))
    → (o : Option Document) → Reports Good c failed (read_file c failed go o)
unfolding read_file
with_members-Reports Good c failed go h none = fail-Reports Good c not_opened failed
with_members-Reports Good c failed go h (some ill_formed) = tt
with_members-Reports Good c failed go h (some (object ms)) = h ms

-- What a setter answers when it noted no error.
abbrev pub NotFailed : ℤ → Type 0
NotFailed r = r ≢ negsuc 0

abbrev pub Anything {ℓ} : {A : Type ℓ} → A → Type 0
Anything a = Unit

write-Reports :
    (c : ConfigParser) (ms : List (Bytes × Value)) → Reports NotFailed c (negsuc 0) (write c ms)
unfolding write
write-Reports c ms =
    if_rule (Reports NotFailed c (negsuc 0)) c.writable
      (some (record c { file = some (object ms) }, pos 0)) (fail c not_opened (negsuc 0))
      (inl (refl, λ e. ground (arith, e))) (fail-Reports NotFailed c not_opened (negsuc 0))

write_twice-Reports :
    (w : PrettyWriter) (c : ConfigParser) (ms : List (Bytes × Value))
    → Reports NotFailed c (negsuc 0) (write_twice w c ms)
unfolding write_twice
write_twice-Reports w c ms =
    if_rule (Reports NotFailed c (negsuc 0)) c.writable _ (fail c not_opened (negsuc 0))
      (inl (refl, λ e. ground (arith, e))) (fail-Reports NotFailed c not_opened (negsuc 0))

field_of-Reports :
    (c : ConfigParser) (field : Bytes) (o : Option Value)
    → Reports Anything c [] (field_of c field o)
unfolding field_of
field_of-Reports c field none = fail-Reports Anything c (not_found field) []
field_of-Reports c field (some v) = inl (refl, tt)

strings-Reports :
    (c : ConfigParser) (o : Option (List Bytes))
    → Reports Anything c [] (o >>= λ roster. some (c, roster))
strings-Reports c none = tt
strings-Reports c (some roster) = inl (refl, tt)

roster_of-Reports : (c : ConfigParser) (o : Option Value) → Reports Anything c [] (roster_of c o)
unfolding roster_of
roster_of-Reports c (some (array vs)) = strings-Reports c (all_strings vs)
roster_of-Reports c none = fail-Reports Anything c (not_found (codes "Roster")) []
roster_of-Reports c (some v) = fail-Reports Anything c (not_found (codes "Roster")) []

port_of-Reports :
    (c : ConfigParser) (o : Option Value) → Reports Anything c (negsuc 0) (port_of c o)
unfolding port_of
port_of-Reports c none = fail-Reports Anything c (not_found (codes "Port")) (negsuc 0)
port_of-Reports c (some (int n)) = inl (refl, tt)
port_of-Reports c (some v) = tt

-- Each of the six operations either notes no error, or exactly one, and then the file is as it was and
-- the answer is the empty text, the empty roster or -1; and a setter that notes none does not answer
-- -1. What rapidjson's assertions stop has no outcome.
pub operations-Reports :
    (w : PrettyWriter) (c : ConfigParser) (field value : Bytes) (roster : List Bytes) (port : ℤ)
    → Reports Anything c [] (get_field c field)
      × Reports Anything c [] (get_roster c)
      × Reports Anything c (negsuc 0) (get_port c)
      × Reports NotFailed c (negsuc 0) (set_field c field value)
      × Reports NotFailed c (negsuc 0) (set_roster c roster)
      × Reports NotFailed c (negsuc 0) (set_port w c port)
unfolding get_field get_roster get_port set_field set_roster set_port with_members
operations-Reports w c field value roster port = (
  with_members-Reports Anything c [] _ (λ ms. field_of-Reports c field (find_member field ms))
      c.file,
  with_members-Reports Anything c [] _ (λ ms. roster_of-Reports c (find_member (codes "Roster") ms))
      c.file,
  with_members-Reports Anything c (negsuc 0) _
      (λ ms. port_of-Reports c (find_member (codes "Port") ms)) c.file,
  with_members-Reports NotFailed c (negsuc 0) _
      (λ ms. write-Reports c (set_member field (str value) ms)) c.file,
  with_members-Reports NotFailed c (negsuc 0) _
      (λ ms. write-Reports c (set_member (codes "Roster") (to_array roster) ms)) c.file,
  with_members-Reports NotFailed c (negsuc 0) _
      (λ ms.
        if_rule (Reports NotFailed c (negsuc 0)) (is_some (find_member (codes "Port") ms))
          (write_twice w c (set_member (codes "Port") (int port) ms)) (some (c, pos 1))
          (write_twice-Reports w c (set_member (codes "Port") (int port) ms))
          (inl (refl, λ e. ground (arith, e))))
      c.file,
)
