-- ===== src/Tests/Transport.antt =====
-- The transport with one peer in its roster.
use xmppconn.Base.{true, some, List, [], ◌∷◌, ◌++◌, Bytes, codes, ◌≡◌, refl, ◌⊎◌, All, ◌-◌, ◌/◌}
use xmppconn.Tests.Text.{copying_library}
use xmppconn.Transport.{message, global_state, connected, disconnected, no_error, auth_failure}
use xmppconn.XmppTransport.{
  XmppTransport, new, stop, on_chat_type, on_presence, on_roster, connect_client,
}
use xmppconn.XmppTransport.Handlers.{
  Incoming, xmpp_stanza_handler, xmpp_connection_handler, connect,
}
use xmppconn.XmppTransport.Handlers.Roster.{IsPeer, SameConnection, stanza_handler_roster}
use xmppconn.XmppTransport.Loop.{
  Round, connection, stanza, run, run_once, run_library, returned, running, next_keepalive,
}
use xmppconn.XmppTransport.Loop.Ends.{lost, run-stop}
use xmppconn.XmppTransport.Loop.Keepalive.{quiet_rounds, keepalives, run-keepalives}
use xmppconn.XmppTransport.Loop.Login.{run-auth_failure}
use xmppconn.XmppTransport.Loop.LoginInvariant.{NotUp}

abbrev peer : Bytes
peer = codes "Peer@host"

abbrev fresh : XmppTransport
fresh = new true (codes "me@host") (codes "secret") (peer ∷ []) [] true

-- The same transport with its connection up.
abbrev up : XmppTransport
up = record fresh { initialized = true; base = record fresh.base { connection_state = connected } }

abbrev chat : Incoming
chat = record {
  renders = true;
  name = codes "message";
  from = some (codes "peer@host");
  type = some (codes "chat");
  body_text = some (codes "<body>_hello</body>");
}

stanza_handler_roster_example :
    (t' : XmppTransport) × (xmpp_stanza_handler copying_library up chat ≡ some t')
    × SameConnection up t'
    × ((t'.base.told ≡ up.base.told)
        ⊎ ((source : Bytes) × (m : Bytes) × IsPeer up chat source
            × (t'.base.told ≡ up.base.told ++ message source m ∷ [])))
stanza_handler_roster_example = stanza_handler_roster copying_library up chat

abbrev rounds : List Round
rounds =
    record { connects = true; events = connection connect ∷ stanza chat ∷ [] }
    ∷ record { connects = true; events = lost ∷ [] }
    ∷ []

run-stop_example :
    (t' : XmppTransport) × (run copying_library
        (stop up)
        (record { connects = true; events = lost ∷ [] } ∷ [])
      ≡ some (returned t' no_error))
    × (t'.base.told ≡ up.base.told ++ global_state disconnected no_error ∷ [])
unfolding new
run-stop_example = run-stop copying_library up true [] refl refl

run-keepalives_example :
    (t' : XmppTransport) × (run copying_library up (quiet_rounds 3) ≡ some (running t'))
    × (t'.requests ≡ up.requests ++ keepalives ((3 - 1) / next_keepalive))
unfolding new
run-keepalives_example =
    run-keepalives copying_library 3 up (record { ready = refl; up = refl; clean = refl }) refl

-- A login that fails: the library connects, and reports the disconnection first.
abbrev refused : List Round
refused = record { connects = true; events = lost ∷ [] } ∷ []

abbrev after_refusal : XmppTransport
after_refusal = record fresh {
  initialized = true;
  handlers = on_chat_type ∷ on_presence ∷ on_roster ∷ [];
  requests = connect_client ∷ [];
  base = record fresh.base {
    connection_state = disconnected;
    connection_error = auth_failure;
    told = global_state disconnected auth_failure ∷ [];
  };
}

run-auth_failure_example : All NotUp after_refusal.base.told
unfolding run run_once new run_library xmpp_connection_handler
run-auth_failure_example =
    run-auth_failure copying_library true true (codes "me@host") (codes "secret") [] (peer ∷ [])
      refused after_refusal refl
