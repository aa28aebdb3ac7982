-- ===== src/MsgArg/Attributes.antt =====
-- The names and the attributes that starting tags are printed with.
use xmppconn.Base.{
  ℕ, true, [], ◌∷◌, ◌++◌, Bytes, codes, newline, bytes_eq, ◌≡◌, ◌≢◌, refl, sym, arith, All, Lacks,
  All-append, inl, inr,
}
use xmppconn.MsgArg.{Scalar, Text, boolean, string}
use xmppconn.MsgArg.Print.{spaces, quoted, scalar_name, text_name}
use xmppconn.MsgArg.Passes.{is_tag, IsAttributes}
use xmppconn.MsgArg.Valid.{IsSignature, WordByte, IsBlank}
use xmppconn.MsgArg.Numbers.{spaces-IsBlank}

pub blank_plain : (s : Bytes) → All IsBlank s → Lacks b'<' s
blank_plain [] h = tt
blank_plain (c ∷ s) (inl e, h) = (λ q. absurd (omega (arith, e, q)), blank_plain s h)
blank_plain (c ∷ s) (inr e, h) = (λ q. absurd (omega (arith, e, q)), blank_plain s h)

pub word_plain : (s : Bytes) → All WordByte s → Lacks b'<' s
word_plain [] h = tt
word_plain (c ∷ s) (hc, h) = (hc.1, word_plain s h)

pub line_start : (n : ℕ) → All IsBlank (newline ∷ spaces n)
line_start n = (inr refl, spaces-IsBlank n)

pub scalar_tag : (kind : Scalar) → is_tag (scalar_name kind) ≡ true
unfolding is_tag bytes_eq
scalar_tag boolean = refl
scalar_tag _ = refl

pub array_tag : is_tag (codes "array") ≡ true
unfolding is_tag bytes_eq
array_tag = refl

pub dict_entry_tag : is_tag (codes "dict_entry") ≡ true
unfolding is_tag bytes_eq
dict_entry_tag = refl

pub struct_tag : is_tag (codes "struct") ≡ true
unfolding is_tag bytes_eq
struct_tag = refl

pub variant_tag : is_tag (codes "variant") ≡ true
unfolding is_tag bytes_eq
variant_tag = refl

pub text_tag : (kind : Text) → is_tag (text_name kind) ≡ true
unfolding is_tag bytes_eq
text_tag string = refl
text_tag _ = refl

signature_plain : (s : Bytes) → IsSignature s → Lacks b'<' s × Lacks b'>' s
signature_plain [] h = (tt, tt)
signature_plain (c ∷ s) (hc, h) = let r = signature_plain s h in ((hc.0, r.0), (hc.1, r.1))

quoted_plain :
    (b : ℕ) (name value : Bytes)
    → b ≢ b' '
    → b ≢ b'='
    → b ≢ b'"'
    → Lacks b name
    → Lacks b value
    → Lacks b (name ++ b'=' ∷ b'"' ∷ (value ++ b'"' ∷ []))
quoted_plain b name value h k l hn hv =
    All-append (λ c. c ≢ b) name (b'=' ∷ b'"' ∷ (value ++ b'"' ∷ [])) hn
      (
        λ e. k (sym e),
        (λ e. l (sym e), All-append (λ c. c ≢ b) value (b'"' ∷ []) hv (λ e. l (sym e), tt)),
      )

quoted-IsAttributes :
    (name value : Bytes)
    → Lacks b'<' name × Lacks b'>' name
    → Lacks b'<' value × Lacks b'>' value
    → IsAttributes (quoted name value)
quoted-IsAttributes name value hn hv = (
  refl,
  quoted_plain b'<' name value (omega arith) (omega arith) (omega arith) hn.0 hv.0,
  quoted_plain b'>' name value (omega arith) (omega arith) (omega arith) hn.1 hv.1,
)

pub type_sig-IsAttributes : (s : Bytes) → IsSignature s → IsAttributes (quoted (codes "type_sig") s)
type_sig-IsAttributes s h =
    quoted-IsAttributes (codes "type_sig") s (omega arith) (signature_plain s h)

pub signature-IsAttributes :
    (s : Bytes) → IsSignature s → IsAttributes (quoted (codes "signature") s)
signature-IsAttributes s h =
    quoted-IsAttributes (codes "signature") s (omega arith) (signature_plain s h)

scalar_name-Lacks : (kind : Scalar) → Lacks b'<' (scalar_name kind) × Lacks b'>' (scalar_name kind)
scalar_name-Lacks boolean = omega arith
scalar_name-Lacks _ = omega arith

pub type-IsAttributes : (kind : Scalar) → IsAttributes (quoted (codes "type") (scalar_name kind))
type-IsAttributes kind =
    quoted-IsAttributes (codes "type") (scalar_name kind) (omega arith) (scalar_name-Lacks kind)
