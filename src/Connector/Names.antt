-- ===== src/Connector/Names.antt =====
-- Whose a well-known name is, and which port an interface gets.
use xmppconn.Base.{
  ℕ, zero, suc, true, false, not, ◌&&◌, Option, none, some, List, [], ◌∷◌, Bytes, bytes_key,
  bytes_eq, bytes_eq_iff, nat_eq, Map, lookup, get_or, is_some, is_empty, if◌then◌else◌, ◌≡◌, ◌↔◌,
  ◌⊎◌, inl, inr, refl, sym, ap, arith, Bool-cases, subst, some-inj,
}
use xmppconn.Text.{find}
use xmppconn.RemoteBusAttachment.{RemoteBusAttachment}
use xmppconn.Connector.{
  Connector, any_owns, any_source_owns, owns_well_known_name, first_port, match_port,
  get_session_port,
}

-- One of the entries has the property.
abbrev pub AnyOf {ℓ} : {A : Type ℓ} → (A → Type 0) → List A → Type 0
AnyOf P [] = ⊥
AnyOf P (x ∷ xs) = P x ⊎ AnyOf P xs

abbrev pub Owns : Bytes → RemoteBusAttachment → Type 0
Owns name b = name ≡ b.well_known_name

any_owns-Owns :
    (name : Bytes) (bs : List RemoteBusAttachment)
    → (any_owns name bs ≡ true) ↔ AnyOf (Owns name) bs
unfolding any_owns
any_owns-Owns name [] = (λ h. ground (arith, h), λ h. elim h [ ])
any_owns-Owns name (b ∷ bs) = (
  λ h. elim (Bool-cases (bytes_eq name b.well_known_name)) [
    | inl e ↦ inl ((bytes_eq_iff name b.well_known_name).0 e)
    | inr e ↦ inr ((any_owns-Owns name bs).0 (rw e at h))
  ],
  λ h. elim h [
    | inl e ↦ rw ((bytes_eq_iff name b.well_known_name).1 e) refl
    | inr e ↦ rw ((any_owns-Owns name bs).1 e) (ground arith)
  ],
)

any_source_owns-Owns :
    (name : Bytes) (m : Map Bytes (List RemoteBusAttachment))
    → (any_source_owns name m ≡ true) ↔ AnyOf (λ e. AnyOf (Owns name) e.1) m
unfolding any_source_owns
any_source_owns-Owns name [] = (λ h. ground (arith, h), λ h. elim h [ ])
any_source_owns-Owns name ((source, bs) ∷ m) = (
  λ h. elim (Bool-cases (any_owns name bs)) [
    | inl e ↦ inl ((any_owns-Owns name bs).0 e)
    | inr e ↦ inr ((any_source_owns-Owns name m).0 (rw e at h))
  ],
  λ h. elim h [
    | inl e ↦ rw ((any_owns-Owns name bs).1 e) refl
    | inr e ↦ rw ((any_source_owns-Owns name m).1 e) (ground arith)
  ],
)

-- A well-known name is the connector's own exactly if it is the name of its bus interface, or one of
-- its attachments, of whatever source, has it.
pub owns_well_known_name-Owns :
    (c : Connector) (name : Bytes)
    → (owns_well_known_name c name ≡ true)
      ↔ ((c.bus_interface_name ≡ name) ⊎ AnyOf (λ e. AnyOf (Owns name) e.1) c.remote_attachments)
unfolding owns_well_known_name
owns_well_known_name-Owns c name = (
  λ h. elim (Bool-cases (bytes_eq c.bus_interface_name name)) [
    | inl e ↦ inl ((bytes_eq_iff c.bus_interface_name name).0 e)
    | inr e ↦ inr ((any_source_owns-Owns name c.remote_attachments).0 (rw e at h))
  ],
  λ h. elim h [
    | inl e ↦ rw ((bytes_eq_iff c.bus_interface_name name).1 e) refl
    | inr e ↦ rw ((any_source_owns-Owns name c.remote_attachments).1 e) (ground arith)
  ],
)

-- An entry that is looked at for an interface: its name is the interface's or occurs in it, and its
-- first port is the one that is given.
abbrev pub Gives : Bytes → ℕ → Bytes × List ℕ → Type 0
Gives interface_name port e =
    ((e.0 ≡ interface_name) ⊎ (is_some (find interface_name e.0 0) ≡ true))
    × (first_port e.1 ≡ port)

-- The port is the one that it started with, or that of an entry.
abbrev From : Bytes → ℕ → Map Bytes (List ℕ) → ℕ → Type 0
From name port m x = (x ≡ port) ⊎ AnyOf (Gives name x) m

match_port-taken :
    (name n : Bytes) (port : ℕ) (ports : List ℕ) (m : Map Bytes (List ℕ))
    → (is_some (find name n 0) && not (is_empty ports)) ≡ true
    → match_port name port ((n, ports) ∷ m) ≡ match_port name (first_port ports) m
unfolding match_port
match_port-taken name n port ports m e = rw e refl

match_port-kept :
    (name n : Bytes) (port : ℕ) (ports : List ℕ) (m : Map Bytes (List ℕ))
    → (is_some (find name n 0) && not (is_empty ports)) ≡ false
    → match_port name port ((n, ports) ∷ m) ≡ match_port name port m
unfolding match_port
match_port-kept name n port ports m e = rw e refl

occurs_of :
    (name n : Bytes) (ports : List ℕ)
    → (is_some (find name n 0) && not (is_empty ports)) ≡ true
    → is_some (find name n 0) ≡ true
occurs_of name n ports e = ground arith

From-taken :
    (name n : Bytes) (port : ℕ) (ports : List ℕ) (m : Map Bytes (List ℕ)) (x : ℕ)
    → is_some (find name n 0) ≡ true
    → From name (first_port ports) m x
    → From name port ((n, ports) ∷ m) x
From-taken name n port ports m x o (inl e) = inr (inl (inr o, sym e))
From-taken name n port ports m x o (inr h) = inr (inr h)

From-kept :
    (name n : Bytes) (port : ℕ) (ports : List ℕ) (m : Map Bytes (List ℕ)) (x : ℕ)
    → From name port m x
    → From name port ((n, ports) ∷ m) x
From-kept name n port ports m x (inl e) = inl e
From-kept name n port ports m x (inr h) = inr (inr h)

match_port-From :
    (name : Bytes) (port : ℕ) (m : Map Bytes (List ℕ)) → From name port m (match_port name port m)
match_port-From name port [] = inl (unfold match_port in refl)
match_port-From name port ((n, ports) ∷ m) =
    elim (Bool-cases (is_some (find name n 0) && not (is_empty ports))) [
      | inl e ↦
          subst (From name port ((n, ports) ∷ m)) (sym (match_port-taken name n port ports m e)) (
            From-taken name n port ports m _ (occurs_of name n ports e)
              (match_port-From name (first_port ports) m))
      | inr e ↦
          subst (From name port ((n, ports) ∷ m)) (sym (match_port-kept name n port ports m e))
            (From-kept name n port ports m _ (match_port-From name port m))
    ]

lookup-Gives :
    (name : Bytes) (ports : List ℕ) (m : Map Bytes (List ℕ))
    → lookup name m ≡ some ports
    → AnyOf (Gives name (first_port ports)) m
unfolding lookup
lookup-Gives name ports [] h = ground (arith, h)
lookup-Gives name ports ((n, ps) ∷ m) h = elim (Bool-cases (bytes_eq n name)) [
  | inl e ↦ inl (inl ((bytes_eq_iff n name).0 e), ap first_port (some-inj (rw e at h)))
  | inr e ↦ inr (lookup-Gives name ports m (rw e at h))
]

get_session_port-exact :
    (c : Connector) (name : Bytes) (o : Option (List ℕ))
    → lookup name c.session_ports ≡ o
    → AnyOf (Gives name (first_port (get_or o []))) c.session_ports ⊎ (first_port (get_or o []) ≡ 0)
unfolding first_port
get_session_port-exact c name none e = inr refl
get_session_port-exact c name (some ports) e = inl (lookup-Gives name ports c.session_ports e)

port_or_match : Bytes → Map Bytes (List ℕ) → ℕ → ℕ
port_or_match name m port = if nat_eq port 0 then match_port name port m else port

port_or_match-From :
    (name : Bytes) (m : Map Bytes (List ℕ)) (port : ℕ)
    → AnyOf (Gives name port) m ⊎ (port ≡ 0)
    → From name 0 m (port_or_match name m port)
unfolding port_or_match
port_or_match-From name m zero h = match_port-From name 0 m
port_or_match-From name m (suc port) (inl h) =
    let e : nat_eq (suc port) 0 ≡ false = ground arith in
    subst (From name 0 m) (ap (λ b. if b then match_port name (suc port) m else suc port) (sym e))
      (inr h)
port_or_match-From name m (suc port) (inr e) = ground (arith, e)

-- The port that an interface gets is 0, or the first port of an entry for the interface itself or
-- for a name that occurs in the interface's: no port is made up.
pub get_session_port-Gives :
    (c : Connector) (name : Bytes)
    → (get_session_port c name ≡ 0) ⊎ AnyOf (Gives name (get_session_port c name)) c.session_ports
unfolding get_session_port port_or_match
get_session_port-Gives c name =
    port_or_match-From name c.session_ports (first_port (get_or (lookup name c.session_ports) []))
      (get_session_port-exact c name (lookup name c.session_ports) refl)
