-- ===== src/Connector/Presence.antt =====
-- What the connector does when a remote source comes or goes: `CreateBusAttachment`,
-- `DeleteBusAttachment` and `RemoteSourcePresenceStateChanged` of app/XMPPConnector.cpp. A bus
-- attachment and a listener are known by the handle that `new` gives them.
pub mod Pairs
use xmppconn.Base.{
  ℕ, Bool, false, Option, none, some, List, [], ◌∷◌, ◌++◌, Bytes, bytes_key, bytes_eq, bytes_eq_iff,
  Map, lookup, insert, erase, lookup-insert, lookup-erase, get_or, is_some, if◌then◌else◌, ◌≡◌, ◌≢◌,
  inl, inr, refl, ap, ◌∙◌, arith, Bool-cases, ◌&&◌, ◌||◌, Option-cases,
}
use xmppconn.Transport.{ConnectionState, connected, disconnected}
use xmppconn.RemoteBusAttachment.{RemoteBusAttachment}
use xmppconn.Connector.{Connector, get_remote_attachment, find_name}

-- The connector with its local buses; `deleted` are the remote attachments that were deleted.
pub record Presence : Type 0 where
  pub connector : Connector
  pub buses : Map Bytes ℕ
  pub listeners : Map Bytes ℕ
  pub deleted : List RemoteBusAttachment

-- What AllJoyn and `new` answer to the creation of a bus.
pub record NewBus : Type 0 where
  pub started : Bool
  pub connects : Bool
  pub attachment : ℕ
  pub listener : ℕ

created : Presence → Bytes → NewBus → Option ℕ → Presence × Option ℕ
created p from new (some attachment) = (p, some attachment)
created p from new none =
    if new.started && new.connects
    then (
      record p {
        buses = insert from new.attachment p.buses;
        listeners = insert from new.listener p.listeners;
      },
      some new.attachment,
    )
    else (p, none)

-- none where the attachment could not be started or connected.
unfoldable pub create_bus_attachment : Presence → Bytes → NewBus → Presence × Option ℕ
unfolding created
create_bus_attachment p from new = created p from new (lookup from p.buses)

unfoldable pub get_bus_listener : Presence → Bytes → Option ℕ
get_bus_listener p from = lookup from p.listeners

-- `DeleteBusListener`
unfoldable pub delete_bus_listener : Presence → Bytes → Presence
delete_bus_listener p from =
    if is_some (lookup from p.listeners) then record p { listeners = erase from p.listeners } else p

unfoldable pub delete_bus_attachment : Presence → Bytes → Presence
unfolding delete_bus_listener
delete_bus_attachment p from =
    if is_some (lookup from p.buses)
    then (let q = delete_bus_listener p from in record q { buses = erase from q.buses })
    else p

-- The loop over all sources, which deletes the attachments of one.
unfoldable pub attachments_of :
    Bytes → Map Bytes (List RemoteBusAttachment) → List RemoteBusAttachment
attachments_of source [] = []
attachments_of source ((name, others) ∷ m) =
    let rest = attachments_of source m in if bytes_eq name source then others ++ rest else rest

-- A source that is gone: the loop, and then the whole map is cleared.
unfoldable pub offline : Presence → Bytes → Presence
unfolding attachments_of delete_bus_attachment
offline p source =
    let all = p.connector.remote_attachments in
    delete_bus_attachment
      (record p {
        connector = record p.connector { remote_attachments = [] };
        deleted = p.deleted ++ attachments_of source all;
      })
      source

-- The second part says whether the source is searched for names and announcements from now on.
unfoldable pub remote_source_presence_state_changed :
    Presence → Bytes → ConnectionState → NewBus → Presence × Bool
unfolding create_bus_attachment get_bus_listener offline
remote_source_presence_state_changed p source connected new =
    let (p', attachment) = create_bus_attachment p source new in
    (p', is_some attachment && is_some (get_bus_listener p' source))
remote_source_presence_state_changed p source new_state new = (offline p source, false)
