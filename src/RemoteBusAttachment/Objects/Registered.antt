-- ===== src/RemoteBusAttachment/Objects/Registered.antt =====
-- The objects of an attachment have different paths, and are those that are registered on its bus.
use xmppconn.Base.{
  ◌>>=◌, false, ◌||◌, some, List, [], ◌∷◌, ◌++◌, Bytes, bytes_eq, bytes_eq_iff, ◌≡◌, ◌≢◌, refl, sym,
  ap, ◌∙◌, arith, if_rule, Bool-cases, inl, inr,
}
use xmppconn.RemoteBusObject.{set_reply}
use xmppconn.RemoteBusAttachment.Objects.{
  Status, er_ok, er_fail, RemoteObject, Objects, NewObject, exists_in, remote_object_exists,
  new_object, register, implement, add_remote_object, without_object, unregistered,
  remove_remote_object, update_remote_object, find_object, reply_in, signal_reply_received,
}

abbrev pub paths : List RemoteObject → List Bytes
paths [] = []
paths (o ∷ os) = o.path ∷ paths os

abbrev pub Distinct : List RemoteObject → Type 0
Distinct [] = Unit
Distinct (o ∷ os) = (exists_in o.path os ≡ false) × Distinct os

pub record IsRegistered (s : Objects) : Type 0 where
  pub distinct : Distinct s.objects
  pub on_bus : s.registered ≡ paths s.objects

-- One call with what AllJoyn answers to it.
pub data Call : Type 0 where
  add : Bytes → List Bytes → NewObject → Call
  remove : Bytes → Call
  update : Bytes → List Bytes → NewObject → Call
  replied : Bytes → Bytes → Call

abbrev pub call : Objects → Call → Objects
call s (add path interfaces answers) = (add_remote_object s path interfaces answers).0
call s (remove path) = (remove_remote_object s path).0
call s (update path interfaces answers) = (update_remote_object s path interfaces answers).0
call s (replied path text) = signal_reply_received s path text

abbrev pub calls : Objects → List Call → Objects
calls s [] = s
calls s (c ∷ cs) = calls (call s c) cs

exists_in-append :
    (p : Bytes) (os : List RemoteObject) (o : RemoteObject)
    → exists_in p (os ++ o ∷ []) ≡ (exists_in p os || bytes_eq p o.path)
unfolding exists_in
exists_in-append p [] o = ground arith
exists_in-append p (x ∷ os) o = ground (arith, exists_in-append p os o)

Distinct-append :
    (os : List RemoteObject) (o : RemoteObject)
    → Distinct os
    → exists_in o.path os ≡ false
    → Distinct (os ++ o ∷ [])
unfolding exists_in
Distinct-append [] o h e = (refl, tt)
Distinct-append (x ∷ os) o (hx, h) e = (
  exists_in-append x.path os o
      ∙ ground (arith, hx, e, bytes_eq_iff o.path x.path, bytes_eq_iff x.path o.path),
  Distinct-append os o h (ground (arith, e)),
)

paths-append :
    (os : List RemoteObject) (o : RemoteObject) → paths (os ++ o ∷ []) ≡ paths os ++ o.path ∷ []
paths-append [] o = refl
paths-append (x ∷ os) o = ap (λ ps. x.path ∷ ps) (paths-append os o)

exists-without :
    (p path : Bytes) (os : List RemoteObject)
    → exists_in p os ≡ false
    → exists_in p (without_object path os) ≡ false
unfolding exists_in without_object
exists-without p path [] h = refl
exists-without p path (x ∷ os) h = ground (arith, h, exists-without p path os)

Distinct-without :
    (path : Bytes) (os : List RemoteObject) → Distinct os → Distinct (without_object path os)
unfolding without_object
Distinct-without path [] h = tt
Distinct-without path (x ∷ os) (hx, h) =
    if_rule Distinct (bytes_eq path x.path) os (x ∷ without_object path os) h
      (exists-without x.path path os hx, Distinct-without path os h)

paths-without :
    (path : Bytes) (os : List RemoteObject)
    → unregistered path (paths os) ≡ paths (without_object path os)
unfolding without_object unregistered
paths-without path [] = refl
paths-without path (x ∷ os) = ground (arith, paths-without path os)

paths-reply_in :
    (path text : Bytes) (os : List RemoteObject) → paths (reply_in path text os) ≡ paths os
unfolding reply_in
paths-reply_in path text [] = refl
paths-reply_in path text (x ∷ os) = ground (arith, paths-reply_in path text os)

exists-reply_in :
    (p path text : Bytes) (os : List RemoteObject)
    → exists_in p (reply_in path text os) ≡ exists_in p os
unfolding exists_in reply_in
exists-reply_in p path text [] = refl
exists-reply_in p path text (x ∷ os) = ground (arith, exists-reply_in p path text os)

Distinct-reply_in :
    (path text : Bytes) (os : List RemoteObject) → Distinct os → Distinct (reply_in path text os)
unfolding reply_in
Distinct-reply_in path text [] h = tt
Distinct-reply_in path text (x ∷ os) (hx, h) =
    if_rule Distinct (bytes_eq path x.path) _ (x ∷ reply_in path text os) (hx, h)
      (exists-reply_in x.path path text os ∙ hx, Distinct-reply_in path text os h)

register-IsRegistered :
    (s : Objects) (o : RemoteObject) (err : Status)
    → exists_in o.path s.objects ≡ false
    → IsRegistered s
    → IsRegistered (register s o err).0
unfolding register
register-IsRegistered s o er_ok e h = record {
  distinct = Distinct-append s.objects o h.distinct e;
  on_bus = ap (λ ps. ps ++ o.path ∷ []) h.on_bus ∙ sym (paths-append s.objects o);
}
register-IsRegistered s o er_fail e h = h
register-IsRegistered s o err e h = h

implement-IsRegistered :
    (s : Objects) (o : RemoteObject) (err registration : Status)
    → exists_in o.path s.objects ≡ false
    → IsRegistered s
    → IsRegistered (implement s o err registration).0
unfolding implement
implement-IsRegistered s o er_ok registration e h = register-IsRegistered s o registration e h
implement-IsRegistered s o er_fail registration e h = h
implement-IsRegistered s o err registration e h = h

pub add-IsRegistered :
    (s : Objects) (path : Bytes) (interfaces : List Bytes) (answers : NewObject)
    → IsRegistered s
    → IsRegistered (add_remote_object s path interfaces answers).0
unfolding add_remote_object remote_object_exists new_object
add-IsRegistered s path interfaces answers h = elim (Bool-cases (exists_in path s.objects)) [
  | inl e ↦ rw e h
  | inr e ↦ rw e (implement-IsRegistered s _ answers.implemented answers.registration e h)
]

remove-IsRegistered :
    (s : Objects) (path : Bytes) → IsRegistered s → IsRegistered (remove_remote_object s path).0
unfolding remove_remote_object
remove-IsRegistered s path h =
    if_rule (λ (r : Objects × Status). IsRegistered r.0) (remote_object_exists s path) _ _
      (record {
        distinct = Distinct-without path s.objects h.distinct;
        on_bus = ap (unregistered path) h.on_bus ∙ paths-without path s.objects;
      })
      h

call-IsRegistered : (s : Objects) (c : Call) → IsRegistered s → IsRegistered (call s c)
unfolding update_remote_object signal_reply_received
call-IsRegistered s (add path interfaces answers) h = add-IsRegistered s path interfaces answers h
call-IsRegistered s (remove path) h = remove-IsRegistered s path h
call-IsRegistered s (update path interfaces answers) h =
    add-IsRegistered (remove_remote_object s path).0 path interfaces answers
      (remove-IsRegistered s path h)
call-IsRegistered s (replied path text) h = record {
  distinct = Distinct-reply_in path text s.objects h.distinct;
  on_bus = h.on_bus ∙ sym (paths-reply_in path text s.objects);
}

-- Whatever is added, removed and updated, with whatever answers of AllJoyn, and whatever replies are
-- received: if the objects have different paths and are those that are registered on the bus, in
-- their order, then so they are afterwards.
pub calls-IsRegistered : (s : Objects) (cs : List Call) → IsRegistered s → IsRegistered (calls s cs)
calls-IsRegistered s [] h = h
calls-IsRegistered s (c ∷ cs) h = calls-IsRegistered (call s c) cs (call-IsRegistered s c h)

find-reply_in :
    (path text other : Bytes) (os : List RemoteObject)
    → other ≢ path
    → find_object other (reply_in path text os) ≡ find_object other os
unfolding find_object reply_in
find-reply_in path text other [] differ = refl
find-reply_in path text other (x ∷ os) differ = ground (
  arith,
  differ,
  find-reply_in path text other os differ,
  bytes_eq_iff path x.path,
  bytes_eq_iff other x.path,
)

-- An object that a reply has reached.
abbrev answered : Bytes → RemoteObject → RemoteObject
answered text o = record o { reply = set_reply o.reply text }

found-reply_in :
    (path text : Bytes) (os : List RemoteObject)
    → find_object path (reply_in path text os)
      ≡ (find_object path os >>= λ o. some (answered text o))
unfolding find_object reply_in
found-reply_in path text [] = refl
found-reply_in path text (x ∷ os) = elim (Bool-cases (bytes_eq path x.path)) [
  | inl e ↦ rw e (rw e refl)
  | inr e ↦ rw e (rw e (found-reply_in path text os))
]

-- A reply reaches the object of its path, and no other object changes.
pub find-signal_reply_received :
    (s : Objects) (path text other : Bytes) (o : RemoteObject)
    → find_object path s.objects ≡ some o
    → other ≢ path
    → (find_object path (signal_reply_received s path text).objects
        ≡ some (record o { reply = set_reply o.reply text }))
      × (find_object other (signal_reply_received s path text).objects
          ≡ find_object other s.objects)
unfolding signal_reply_received
find-signal_reply_received s path text other o h differ = (
  found-reply_in path text s.objects ∙ ap (λ r. r >>= λ x. some (answered text x)) h,
  find-reply_in path text other s.objects differ,
)
