-- ===== src/SessionTracker.antt =====
-- common/SessionTracker.cpp and .h: the ids of the sessions that this connector joins on behalf of
-- remote joiners, by the joiner's name. Each method locks the one mutex for its whole body, so a
-- call is one step.
pub mod View
use xmppconn.Base.{
  ℕ, Bool, ◌||◌, Option, none, some, [], Bytes, bytes_key, Map, lookup, insert, erase, is_some,
  if◌then◌else◌,
}

pub record SessionTracker : Type 0 where
  pub pending : Map Bytes ℕ
  pub sessions : Map Bytes ℕ

unfoldable pub new : SessionTracker
new = record { pending = []; sessions = [] }

unfoldable pub join_sent : SessionTracker → Bytes → ℕ → SessionTracker
join_sent t name session_id = record t { pending = insert name session_id t.pending }

confirmed : SessionTracker → Bytes → Option ℕ → SessionTracker
confirmed t name (some id) = record t {
  sessions = insert name id t.sessions;
  pending = erase name t.pending;
}
confirmed t name none = t

unfoldable pub join_confirmed : SessionTracker → Bytes → SessionTracker
unfolding confirmed
join_confirmed t name = confirmed t name (lookup name t.pending)

unfoldable pub session_lost : SessionTracker → Bytes → SessionTracker
session_lost t name =
    if is_some (lookup name t.sessions) then record t { sessions = erase name t.sessions } else t

unfoldable pub is_session_pending : SessionTracker → Bytes → Bool
is_session_pending t name = is_some (lookup name t.pending)

unfoldable pub is_session_joined : SessionTracker → Bytes → Bool
is_session_joined t name = is_some (lookup name t.sessions)

unfoldable pub is_session_pending_or_joined : SessionTracker → Bytes → Bool
is_session_pending_or_joined t name =
    is_some (lookup name t.sessions) || is_some (lookup name t.pending)

or_current : Option ℕ → Option ℕ → ℕ
or_current (some id) joined = id
or_current none (some id) = id
or_current none none = 0

-- The pending session first; 0 if there is none at all.
unfoldable pub get_session : SessionTracker → Bytes → ℕ
unfolding or_current
get_session t name = or_current (lookup name t.pending) (lookup name t.sessions)
