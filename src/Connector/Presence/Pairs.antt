-- ===== src/Connector/Presence/Pairs.antt =====
-- Which buses, listeners and attachments a source has after its presence changed.
use xmppconn.Base.{
  HasKeysOnce, Map, List, subst, append-nil, ◌∷◌, Bool, false, none, [], ◌++◌, Bytes, bytes_key,
  bytes_eq, bytes_eq_iff, lookup, lookup-insert, lookup-erase, get_or, is_some, if◌then◌else◌, ◌≡◌,
  ◌≢◌, inl, inr, refl, ap, ◌∙◌, arith, Bool-cases, ◌&&◌, ◌||◌, Option-cases,
}
use xmppconn.Transport.{ConnectionState, connected, disconnected}
use xmppconn.RemoteBusAttachment.{RemoteBusAttachment}
use xmppconn.Connector.{Connector, get_remote_attachment, find_name}
use xmppconn.Connector.Presence.{
  Presence, NewBus, create_bus_attachment, get_bus_listener, delete_bus_listener,
  delete_bus_attachment, attachments_of, offline, remote_source_presence_state_changed,
}

-- Each source has both a bus and a listener, or neither.
abbrev pub Paired : Presence → Type 0
Paired p = (name : Bytes) → is_some (lookup name p.buses) ≡ is_some (lookup name p.listeners)

create-Paired :
    (p : Presence) (from : Bytes) (new : NewBus)
    → Paired p
    → Paired (create_bus_attachment p from new).0
unfolding create_bus_attachment
create-Paired p from new h name = elim (Option-cases (lookup from p.buses)) [
  | inr (b, e) ↦ rw e (h name)
  | inl e ↦ rw e (elim (Bool-cases (new.started && new.connects)) [
    | inl ok ↦ rw ok (
        ground (
          arith,
          lookup-insert from name new.attachment p.buses,
          lookup-insert from name new.listener p.listeners,
          h name,
        ))
    | inr failed ↦ rw failed (h name)
  ])
]

delete-Paired : (p : Presence) (from : Bytes) → Paired p → Paired (delete_bus_attachment p from)
unfolding delete_bus_attachment delete_bus_listener
delete-Paired p from h name = ground (
  arith,
  lookup-erase from name p.buses,
  lookup-erase from name p.listeners,
  bytes_eq_iff from name,
  h name,
  h from,
)

delete-lookup :
    (p : Presence) (from name : Bytes)
    → lookup name (delete_bus_attachment p from).buses
      ≡ (if bytes_eq from name then none else lookup name p.buses)
unfolding delete_bus_attachment delete_bus_listener
delete-lookup p from name = ground (arith, lookup-erase from name p.buses, bytes_eq_iff from name)

searched :
    (p : Presence) (source : Bytes) (new : NewBus)
    → Paired p
    → (is_some (create_bus_attachment p source new).1
        && is_some (get_bus_listener (create_bus_attachment p source new).0 source))
      ≡ (is_some (lookup source p.buses) || (new.started && new.connects))
unfolding create_bus_attachment get_bus_listener
searched p source new h = elim (Option-cases (lookup source p.buses)) [
  | inr (b, e) ↦ ground (arith, e, h source)
  | inl e ↦ ground (
    arith,
    e,
    h source,
    lookup-insert source source new.listener p.listeners,
    bytes_eq_iff source source,
  )
]

create-other :
    (p : Presence) (source other : Bytes) (new : NewBus)
    → other ≢ source
    → lookup other (create_bus_attachment p source new).0.buses ≡ lookup other p.buses
unfolding create_bus_attachment
create-other p source other new differ =
    ground
      (arith, differ, lookup-insert source other new.attachment p.buses, bytes_eq_iff source other)

-- Whether a source has a bus after the change.
abbrev pub has_bus : Presence → Bytes → ConnectionState → NewBus → Bool
has_bus p source connected new = is_some (lookup source p.buses) || (new.started && new.connects)
has_bus p source state new = false

-- What the change owes, of the source and of another one.
abbrev pub Follows : Presence → Bytes → Bytes → ConnectionState → NewBus → Presence × Bool → Type 0
Follows p source other state new (q, searches) =
    Paired q
    × (searches ≡ has_bus p source state new)
    × (is_some (lookup source q.buses) ≡ has_bus p source state new)
    × (lookup other q.buses ≡ lookup other p.buses)

has_created :
    (p : Presence) (source : Bytes) (new : NewBus)
    → is_some (lookup source (create_bus_attachment p source new).0.buses)
      ≡ (is_some (lookup source p.buses) || (new.started && new.connects))
unfolding create_bus_attachment
has_created p source new = elim (Option-cases (lookup source p.buses)) [
  | inr (b, e) ↦ ground (arith, e)
  | inl e ↦
      ground
        (arith, e, lookup-insert source source new.attachment p.buses, bytes_eq_iff source source)
]

gone :
    (p : Presence) (source other : Bytes)
    → Paired p
    → other ≢ source
    → Paired (offline p source)
      × (false ≡ false)
      × (is_some (lookup source (offline p source).buses) ≡ false)
      × (lookup other (offline p source).buses ≡ lookup other p.buses)
unfolding offline
gone p source other h differ = (
  delete-Paired _ source h,
  refl,
  ap is_some (delete-lookup _ source source) ∙ ground (arith, bytes_eq_iff source source),
  delete-lookup _ source other ∙ ground (arith, bytes_eq_iff source other, differ),
)

-- Whatever becomes of a source, a bus and its listener are there together or not at all. The source is
-- searched exactly if it then has a bus: when it is connected, if it had one or its new one starts and
-- connects, and never in another state. No other source gains or loses a bus.
pub presence_changed-Follows :
    (p : Presence) (source other : Bytes) (state : ConnectionState) (new : NewBus)
    → Paired p
    → other ≢ source
    → Follows p source other state new (remote_source_presence_state_changed p source state new)
unfolding remote_source_presence_state_changed
presence_changed-Follows p source other connected new h differ = (
  create-Paired p source new h,
  searched p source new h,
  has_created p source new,
  create-other p source other new differ,
)
presence_changed-Follows p source other disconnected new h differ = gone p source other h differ
presence_changed-Follows p source other state new h differ = gone p source other h differ

-- The attachments of a source, if a map of attachments has it.
abbrev pub attachments_at : Bytes → Map Bytes (List RemoteBusAttachment) → List RemoteBusAttachment
attachments_at source m = get_or (lookup source m) []

attachments_of-at :
    (source : Bytes) (m : Map Bytes (List RemoteBusAttachment))
    → HasKeysOnce m
    → attachments_of source m ≡ attachments_at source m
unfolding attachments_of lookup
attachments_of-at source [] h = refl
attachments_of-at source ((name, others) ∷ m) (once, h) = elim (Bool-cases (bytes_eq name source)) [
  | inl e ↦
      let same : lookup source m ≡ none =
        subst (λ x. lookup x m ≡ none) ((bytes_eq_iff name source).0 e) once in
      rw e (
        ap (λ rest. others ++ rest) (attachments_of-at source m h ∙ ap (λ o. get_or o []) same)
        ∙ append-nil others)
  | inr e ↦ rw e (attachments_of-at source m h)
]

-- What is left of the attachments and what is deleted.
Cleared : Presence → Bytes → Presence → Type 0
Cleared p source q =
    ((from name : Bytes) → get_remote_attachment q.connector from name ≡ none)
    × (q.deleted ≡ p.deleted ++ attachments_at source p.connector.remote_attachments)

delete_bus-keeps :
    (p : Presence) (source : Bytes)
    → ((delete_bus_attachment p source).connector ≡ p.connector)
      × ((delete_bus_attachment p source).deleted ≡ p.deleted)
unfolding delete_bus_attachment delete_bus_listener
delete_bus-keeps p source = (ground arith, ground arith)

no_attachment :
    (c : Connector) (from name : Bytes)
    → c.remote_attachments ≡ []
    → get_remote_attachment c from name ≡ none
unfolding get_remote_attachment find_name
no_attachment c from name e =
    ap (λ m. find_name name (get_or (lookup from m) [])) e ∙ (unfold lookup in refl)

offline-Cleared :
    (p : Presence) (source : Bytes)
    → HasKeysOnce p.connector.remote_attachments
    → Cleared p source (offline p source)
unfolding Cleared offline
offline-Cleared p source once =
    let keeps = delete_bus-keeps _ source in
    (
      λ from name. no_attachment _ from name (ap (λ c. c.remote_attachments) keeps.0),
      keeps.1
          ∙ ap (λ others. p.deleted ++ others)
              (attachments_of-at source p.connector.remote_attachments once),
    )

-- When a source is in any other state than connected, exactly the attachments that the map has for that
-- source are deleted, the map being one that has each source once, and no source, also none that is still there, has an attachment any more.
pub presence_changed-cleared :
    (p : Presence) (source : Bytes) (state : ConnectionState) (new : NewBus)
    → state ≢ connected
    → HasKeysOnce p.connector.remote_attachments
    → ((from name : Bytes)
        → get_remote_attachment
            (remote_source_presence_state_changed p source state new).0.connector
            from
            name
          ≡ none)
      × ((remote_source_presence_state_changed p source state new).0.deleted
          ≡ p.deleted ++ attachments_at source p.connector.remote_attachments)
unfolding remote_source_presence_state_changed Cleared
presence_changed-cleared p source connected new h once = absurd (h refl)
presence_changed-cleared p source disconnected new h once = offline-Cleared p source once
presence_changed-cleared p source state new h once = offline-Cleared p source once
