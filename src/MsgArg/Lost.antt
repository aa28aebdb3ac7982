-- ===== src/MsgArg/Lost.antt =====
-- What is not read back.
use xmppconn.Base.{
  ℕ, suc, ◌+◌, ◌*◌, some, [], ◌++◌, codes, length, ◌≡◌, ◌≢◌, refl, sym, ap, ◌∙◌, arith, append-nil,
}
use xmppconn.MsgArg.{Scalar, Library, boolean, double, invalid, scalar_array}
use xmppconn.MsgArg.Print.{spaces, quoted, scalar_name, scalar_array_content, body, to_string}
use xmppconn.MsgArg.Parse.{read_form, set_numbers, from_text, from_string}
use xmppconn.MsgArg.Valid.{Laws}
use xmppconn.MsgArg.Numbers.{read-scalar_array_content, spaces-IsBlank}
use xmppconn.MsgArg.Attributes.{array_tag, type-IsAttributes}
use xmppconn.MsgArg.Reads.{from_text-element}
use xmppconn.MsgArg.Forms.{form-scalar_array}

set_numbers-nil :
    (lib : Library) (kind : Scalar) → kind ≢ boolean → set_numbers lib kind [] ≡ invalid
unfolding set_numbers
set_numbers-nil lib boolean h = absurd (h refl)
set_numbers-nil lib double h = refl
set_numbers-nil lib _ h = refl

-- An empty array of numbers of any type but Boolean does not come back as the empty array: its text is
-- read as an invalid argument, whatever the indent, under the documented behaviour of the library.
pub from_string-empty_array :
    (lib : Library) (kind : Scalar) (indent : ℕ)
    → Laws lib
    → kind ≢ boolean
    → (from_string lib (to_string lib (scalar_array kind []) indent) ≡ some invalid)
      × (scalar_array kind [] ≢ invalid)
unfolding from_string to_string body read_form
from_string-empty_array lib kind indent laws h =
    let one = body lib (scalar_array kind []) indent in
    let fuel = 2 * length (spaces indent ++ one) + 1 in
    let e : 2 * length (spaces indent ++ one) + 2 ≡ suc fuel = omega arith in
    (
      ap (λ k. from_text lib k (spaces indent ++ one)) e
          ∙ ap (λ s. from_text lib (suc fuel) (spaces indent ++ s)) (sym (append-nil one))
          ∙ from_text-element lib laws fuel (spaces indent) (codes "array")
              (quoted (codes "type") (scalar_name kind)) (scalar_array_content lib kind [] indent)
              [] array_tag (type-IsAttributes kind) (spaces-IsBlank indent) tt
          ∙ rw (form-scalar_array kind) (
              ap (λ x. some (set_numbers lib kind x))
                (read-scalar_array_content lib laws kind [] indent tt)
              ∙ ap some (set_numbers-nil lib kind h)),
      λ q. ground (arith, q),
    )
