-- ===== src/XmppTransport/Loop/Ends.antt =====
-- How `Run` ends at a disconnect event, where a failed login is told from a lost connection.
use xmppconn.Base.{Bool, true, false, some, List, [], ◌∷◌, ◌++◌, if◌then◌else◌, ◌≡◌, refl, arith}
use xmppconn.Text.Compression.{Library}
use xmppconn.Transport.{
  global_state, disconnected, no_error, auth_failure, is_connected, is_disconnected,
  is_uninitialized, global_connection_state_changed, set_connection_state,
}
use xmppconn.XmppTransport.{XmppTransport, ask, stop}
use xmppconn.XmppTransport.Handlers.{disconnect, xmpp_connection_handler}
use xmppconn.XmppTransport.Loop.{
  Event, connection, Round, returned, run, run_once, initialize, finish_round, process, keepalive,
  count_round, run_library, dispatch,
}

abbrev pub lost : Event
lost = connection disconnect

abbrev after_lost : XmppTransport → XmppTransport
after_lost t =
    if is_connected t.base.connection_state
    then count_round (xmpp_connection_handler (keepalive t) disconnect)
    else xmpp_connection_handler t disconnect

-- `Run` at the disconnect event: the state is `disconnected`, and the error says whether the
-- connection had ever left its first state.
lost_round :
    (lib : Library) (t : XmppTransport) (connects : Bool) (rs : List Round)
    → t.initialized ≡ true
    → t.base.has_listener ≡ true
    → is_disconnected t.base.connection_state ≡ false
    → (t' : XmppTransport) × (run lib t (record { connects = connects; events = lost ∷ [] } ∷ rs)
        ≡ some (
            returned t'
              (if is_uninitialized t.base.connection_state then auth_failure else no_error)))
      × (t'.base.told
          ≡ t.base.told
            ++ global_state disconnected
                (if is_uninitialized t.base.connection_state then auth_failure else no_error)
              ∷ [])
unfolding run run_once initialize finish_round process run_library dispatch xmpp_connection_handler
    keepalive count_round global_connection_state_changed ask
lost_round lib t connects rs i l d = (after_lost t, ground arith, ground arith)

-- `Stop` of a transport that has connected once and has a listener, answered by the library's disconnect event, ends `Run`
-- without an error, and the listener is told of the disconnection once and of nothing else.
pub run-stop :
    (lib : Library) (t : XmppTransport) (connects : Bool) (rs : List Round)
    → t.initialized ≡ true
    → t.base.has_listener ≡ true
    → (t' : XmppTransport) × (run lib
          (stop t)
          (record { connects = connects; events = lost ∷ [] } ∷ rs)
        ≡ some (returned t' no_error))
      × (t'.base.told ≡ t.base.told ++ global_state disconnected no_error ∷ [])
unfolding stop ask set_connection_state
run-stop lib t connects rs i l = lost_round lib (stop t) connects rs i l refl
