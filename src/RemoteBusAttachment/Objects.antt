-- ===== src/RemoteBusAttachment/Objects.antt =====
-- The bus objects of app/RemoteBusAttachment.cpp, which stand for those of the remote side, and how a
-- reply finds the one that waits for it. What AllJoyn answers is an argument.
pub mod Registered
use xmppconn.Base.{
  ℕ, Bool, true, false, ◌||◌, Option, none, some, List, [], ◌∷◌, ◌++◌, Bytes, bytes_eq,
  if◌then◌else◌,
}
use xmppconn.RemoteBusObject
use xmppconn.RemoteBusObject.{Reply, set_reply}

pub data Status : Type 0 where
  er_ok er_fail er_bus_obj_not_found : Status
  refused : ℕ → Status

-- A bus object with the names of its interfaces.
pub record RemoteObject : Type 0 where
  pub path : Bytes
  pub interfaces : List Bytes
  pub reply : Reply

-- The objects of an attachment, and the paths of those that are registered on its bus.
pub record Objects : Type 0 where
  pub objects : List RemoteObject
  pub registered : List Bytes

-- What `ImplementInterfaces` and `RegisterBusObject` return.
pub record NewObject : Type 0 where
  pub implemented : Status
  pub registration : Status

unfoldable pub exists_in : Bytes → List RemoteObject → Bool
exists_in path [] = false
exists_in path (o ∷ os) = bytes_eq path o.path || exists_in path os

unfoldable pub remote_object_exists : Objects → Bytes → Bool
unfolding exists_in
remote_object_exists s path = exists_in path s.objects

unfoldable pub new_object : Bytes → List Bytes → RemoteObject
unfolding RemoteBusObject.new
new_object path interfaces = record {
  path = path;
  interfaces = interfaces;
  reply = RemoteBusObject.new;
}

-- `RegisterBusObject` and what comes behind it.
unfoldable pub register : Objects → RemoteObject → Status → Objects × Status
register s o er_ok =
    (record { objects = s.objects ++ o ∷ []; registered = s.registered ++ o.path ∷ [] }, er_ok)
register s o err = (s, err)

unfoldable pub implement : Objects → RemoteObject → Status → Status → Objects × Status
unfolding register
implement s o er_ok registration = register s o registration
implement s o err registration = (s, err)

unfoldable pub add_remote_object : Objects → Bytes → List Bytes → NewObject → Objects × Status
unfolding remote_object_exists new_object implement
add_remote_object s path interfaces answers =
    if remote_object_exists s path
    then (s, er_fail)
    else implement s (new_object path interfaces) answers.implemented answers.registration

-- The first object of the path is erased, and unregistered.
unfoldable pub without_object : Bytes → List RemoteObject → List RemoteObject
without_object path [] = []
without_object path (o ∷ os) =
    let rest = without_object path os in if bytes_eq path o.path then os else o ∷ rest

unfoldable pub unregistered : Bytes → List Bytes → List Bytes
unregistered path [] = []
unregistered path (p ∷ ps) =
    let rest = unregistered path ps in if bytes_eq path p then ps else p ∷ rest

unfoldable pub remove_remote_object : Objects → Bytes → Objects × Status
unfolding remote_object_exists without_object unregistered
remove_remote_object s path =
    if remote_object_exists s path
    then (
      record {
        objects = without_object path s.objects;
        registered = unregistered path s.registered;
      },
      er_ok,
    )
    else (s, er_bus_obj_not_found)

-- Whether the removal succeeds makes no difference.
unfoldable pub update_remote_object : Objects → Bytes → List Bytes → NewObject → Objects × Status
unfolding remove_remote_object add_remote_object
update_remote_object s path interfaces answers =
    add_remote_object (remove_remote_object s path).0 path interfaces answers

-- The object of a path, which `RelaySignal` sends from.
unfoldable pub find_object : Bytes → List RemoteObject → Option RemoteObject
find_object path [] = none
find_object path (o ∷ os) =
    let rest = find_object path os in if bytes_eq path o.path then some o else rest

unfoldable pub reply_in : Bytes → Bytes → List RemoteObject → List RemoteObject
unfolding set_reply
reply_in path text [] = []
reply_in path text (o ∷ os) =
    let rest = reply_in path text os in
    if bytes_eq path o.path then record o { reply = set_reply o.reply text } ∷ os else o ∷ rest

unfoldable pub signal_reply_received : Objects → Bytes → Bytes → Objects
unfolding reply_in
signal_reply_received s path text = record s { objects = reply_in path text s.objects }
