-- ===== src/Base/Maps.antt =====
-- `std::map` as the list of its entries in the order of the keys: iteration meets them in that
-- order, which decides what a search over the values returns.
use Prim.Native.Nat.{ℕ}
use mathlib.Core.Bool.{Bool, true}
use mathlib.Core.List.{List, [], ◌∷◌}
use mathlib.Core.Logic.{◌↔◌}
use mathlib.Core.Option.{Option, none, some}
use mathlib.Core.Path.{◌≡◌, refl}
use native.Mathlib.Omega.{arith}
use xmppconn.Base.Conditions.{ltb, nat_eq, nat_eq_iff, if◌then◌else◌}
use xmppconn.Base.Strings.{Bytes, bytes_eq, bytes_lt, bytes_eq_iff}

pub record Key {ℓ} (K : Type ℓ) : Type ℓ where
  pub beq : K → K → Bool
  pub blt : K → K → Bool
  pub beq_iff : (a b : K) → (beq a b ≡ true) ↔ (a ≡ b)

infix 50 ◌==◌
abbrev pub ◌==◌ {ℓ} : {K : Type ℓ} ⦃e : Key K⦄ → K → K → Bool
◌==◌ ⦃e⦄ = e.beq

instance abbrev pub nat_key : Key ℕ
nat_key = record { beq = nat_eq; blt = ltb; beq_iff = nat_eq_iff }

instance abbrev pub bytes_key : Key Bytes
bytes_key = record { beq = bytes_eq; blt = bytes_lt; beq_iff = bytes_eq_iff }

abbrev pub Map {ℓ κ} : Type ℓ → Type κ → Type (ℓ ⊔ κ)
Map K V = List (K × V)

module _ {ℓ κ} {K : Type ℓ} {V : Type κ} ⦃e : Key K⦄ where
  -- `find`
  unfoldable pub lookup : K → Map K V → Option V
  lookup key [] = none
  lookup key ((first, x) ∷ entries) =
      let rest = lookup key entries in if first == key then some x else rest

  -- `m[key] = y`
  unfoldable pub insert : K → V → Map K V → Map K V
  insert key y [] = (key, y) ∷ []
  insert key y ((first, x) ∷ entries) =
      let rest = insert key y entries in
      if first == key
      then (key, y) ∷ entries
      else if e.blt key first
      then (key, y) ∷ (first, x) ∷ entries
      else (first, x) ∷ rest

  -- `erase(k)`
  unfoldable pub erase : K → Map K V → Map K V
  erase k [] = []
  erase k ((j, v) ∷ m) = let rest = erase k m in if j == k then rest else (j, v) ∷ rest

  pub lookup-insert :
      (key other : K) (y : V) (entries : Map K V)
      → lookup other (insert key y entries)
        ≡ (if key == other then some y else lookup other entries)
  unfolding lookup insert
  lookup-insert key other y [] = refl
  lookup-insert key other y ((first, x) ∷ entries) = ground (
    arith,
    lookup-insert key other y entries,
    e.beq_iff key other,
    e.beq_iff first key,
    e.beq_iff first other,
  )

  pub lookup-erase :
      (k j : K) (m : Map K V) → lookup j (erase k m) ≡ (if k == j then none else lookup j m)
  unfolding lookup erase
  lookup-erase k j [] = ground arith
  lookup-erase k j ((i, v) ∷ m) =
      ground (arith, lookup-erase k j m, e.beq_iff i k, e.beq_iff i j, e.beq_iff k j)

  -- A map has each key once.
  abbrev pub HasKeysOnce : Map K V → Type κ
  HasKeysOnce [] = Unit
  HasKeysOnce ((k, v) ∷ m) = (lookup k m ≡ none) × HasKeysOnce m

  pub lookup-nil : (k : K) → lookup k ([]) ≡ none
  unfolding lookup
  lookup-nil k = refl

pub ==-refl {ℓ} : {K : Type ℓ} ⦃e : Key K⦄ (k : K) → (k == k) ≡ true
==-refl ⦃e⦄ k = (e.beq_iff k k).1 refl

pub ruleset map_laws = (lookup-nil, lookup-insert, lookup-erase)
