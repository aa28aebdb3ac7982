-- ===== src/MsgArg/Forms.antt =====
-- Which form each printed tag is taken for.
use xmppconn.Base.{
  false, [], ◌∷◌, ◌++◌, Bytes, codes, ◌≡◌, refl, ap, ◌∙◌, arith, All, Lacks, append_assoc, nat_eq,
}
use xmppconn.MsgArg.{Scalar, Text, boolean, string}
use xmppconn.MsgArg.Print.{quoted, scalar_name, text_name}
use xmppconn.MsgArg.Parse.{
  typed_array, entry, structure, packed, one, phrase, many, form_of, array_signature, c_str,
  substr_to,
}
use xmppconn.MsgArg.Valid.{IsSignature}
use xmppconn.MsgArg.Cuts.{tag_of, first_of-at, substr_to-inner}

-- The tags are told apart.
pub form-scalar : (kind : Scalar) → form_of (tag_of (scalar_name kind) []) ≡ one kind
unfolding form_of
form-scalar boolean = refl
form-scalar _ = refl

pub form-text : (kind : Text) → form_of (tag_of (text_name kind) []) ≡ phrase kind
unfolding form_of
form-text string = refl
form-text _ = refl

pub form-scalar_array :
    (kind : Scalar)
    → form_of (tag_of (codes "array") (quoted (codes "type") (scalar_name kind))) ≡ many kind
unfolding form_of
form-scalar_array boolean = refl
form-scalar_array _ = refl

pub form-array :
    (sig : Bytes) → form_of (tag_of (codes "array") (quoted (codes "type_sig") sig)) ≡ typed_array
unfolding form_of
form-array sig = refl

pub form-variant :
    (sig : Bytes) → form_of (tag_of (codes "variant") (quoted (codes "signature") sig)) ≡ packed
unfolding form_of
form-variant sig = refl

pub form-dict_entry : form_of (tag_of (codes "dict_entry") []) ≡ entry
unfolding form_of
form-dict_entry = refl

pub form-struct : form_of (tag_of (codes "struct") []) ≡ structure
unfolding form_of
form-struct = refl

unquoted : (sig : Bytes) → IsSignature sig → All (λ c. nat_eq b'"' c ≡ false) sig
unquoted [] h = tt
unquoted (c ∷ sig) (hc, h) = (ground (arith, hc), unquoted sig h)

pub array_signature-quoted :
    (sig : Bytes)
    → IsSignature sig
    → array_signature (tag_of (codes "array") (quoted (codes "type_sig") sig)) ≡ sig
unfolding array_signature
array_signature-quoted sig h =
    let e : (sig ++ b'"' ∷ []) ++ b'>' ∷ [] ≡ sig ++ b'"' ∷ b'>' ∷ [] = simp append_assoc in
    rw e (
      ap (substr_to (sig ++ b'"' ∷ b'>' ∷ []) 0)
        (first_of-at (nat_eq b'"') sig b'"' (b'>' ∷ []) 0 (unquoted sig h) refl)
      ∙ substr_to-inner [] sig (b'"' ∷ b'>' ∷ []))

pub c_str-whole : (s : Bytes) → Lacks 0 s → c_str s ≡ s
unfolding c_str
c_str-whole [] h = refl
c_str-whole (c ∷ s) (hc, h) = rw (c_str-whole s h) (ground (arith, hc))
