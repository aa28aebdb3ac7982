-- ===== src/Tests/Objects.antt =====
-- The bus objects of an attachment.
use xmppconn.Base.{List, some, [], ◌∷◌, codes, ◌≡◌, refl, arith, bytes_eq}
use xmppconn.RemoteBusObject.{set_reply}
use xmppconn.RemoteBusAttachment.Objects.{
  er_ok, refused, RemoteObject, Objects, NewObject, new_object, find_object, exists_in,
  signal_reply_received,
}
use xmppconn.RemoteBusAttachment.Objects.Registered.{
  IsRegistered, Call, add, remove, update, replied, calls, calls-IsRegistered,
  find-signal_reply_received,
}

abbrev lamp : RemoteObject
lamp = new_object (codes "/lamp") (codes "org.lamp" ∷ [])

abbrev door : RemoteObject
door = new_object (codes "/door") []

abbrev two : Objects
two = record { objects = lamp ∷ door ∷ []; registered = codes "/lamp" ∷ codes "/door" ∷ [] }

two-IsRegistered : IsRegistered two
unfolding exists_in new_object bytes_eq
two-IsRegistered = record { distinct = (refl, (refl, tt)); on_bus = refl }

abbrev goes_well : NewObject
goes_well = record { implemented = er_ok; registration = er_ok }

abbrev goes_wrong : NewObject
goes_wrong = record { implemented = er_ok; registration = refused 7 }

abbrev some_calls : List Call
some_calls =
    add (codes "/bell") [] goes_well
    ∷ add (codes "/bell") [] goes_well
    ∷ update (codes "/lamp") [] goes_wrong
    ∷ replied (codes "/door") (codes "3")
    ∷ remove (codes "/none")
    ∷ []

calls-IsRegistered_example : IsRegistered (calls two some_calls)
calls-IsRegistered_example = calls-IsRegistered two some_calls two-IsRegistered

door-found : find_object (codes "/door") two.objects ≡ some door
unfolding find_object new_object bytes_eq
door-found = refl

find-signal_reply_received_example :
    (find_object (codes "/door") (signal_reply_received two (codes "/door") (codes "3")).objects
      ≡ some (record door { reply = set_reply door.reply (codes "3") }))
    × (find_object (codes "/lamp") (signal_reply_received two (codes "/door") (codes "3")).objects
        ≡ find_object (codes "/lamp") two.objects)
find-signal_reply_received_example =
    find-signal_reply_received two (codes "/door") (codes "3") (codes "/lamp") door door-found
      (λ e. ground (arith, e))
