-- ===== src/RemoteBusAttachment/Handshake.antt =====
-- Who is let in by `AcceptSessionJoiner`.
use xmppconn.Base.{
  ℕ, not, some, List, [], ◌∷◌, Bytes, bytes_key, bytes_eq_iff, nat_eq, lookup, lookup-insert, ◌≡◌,
  ◌≢◌, refl, arith,
}
use xmppconn.Wire.Objects.{BusObjectInfo}
use xmppconn.RemoteBusAttachment.{
  RemoteBusAttachment, accept_start, signal_session_joined, accept_end,
}

-- The answers that arrive during the wait.
abbrev pub signalled : RemoteBusAttachment → List ℕ → RemoteBusAttachment
signalled a [] = a
signalled a (r ∷ rs) = signalled (signal_session_joined a r) rs

-- The last of the answers, which is the one that is seen.
abbrev pub last_of : ℕ → List ℕ → ℕ
last_of r [] = r
last_of r (s ∷ rs) = last_of s rs

signalled_id :
    (a : RemoteBusAttachment) (rs : List ℕ)
    → (signalled a rs).listener.remote_session_id ≡ last_of a.listener.remote_session_id rs
unfolding signal_session_joined
signalled_id a [] = refl
signalled_id a (r ∷ rs) = signalled_id (signal_session_joined a r) rs

accept_end-id :
    (a : RemoteBusAttachment) (joiner : Bytes)
    → ((accept_end a joiner).1 ≡ not (nat_eq a.listener.remote_session_id 0))
      × (a.listener.remote_session_id ≢ 0
          → lookup joiner (accept_end a joiner).0.listener.pending_session_joiners
            ≡ some a.listener.remote_session_id)
unfolding accept_end
accept_end-id a joiner = (
  ground arith,
  λ h. ground (
    arith,
    lookup-insert joiner joiner a.listener.remote_session_id a.listener.pending_session_joiners,
    bytes_eq_iff joiner joiner,
  ),
)

-- A joiner is let in exactly if the last answer that came during the wait is a session id, and not
-- 0; then that id is kept for the joiner. Without an answer, which is a timeout, it is refused,
-- whatever an earlier handshake had left.
pub accept-signalled :
    (a : RemoteBusAttachment) (port : ℕ) (joiner : Bytes) (objects : List BusObjectInfo)
    (rs : List ℕ)
    → ((accept_end (signalled (accept_start a port joiner objects).0 rs) joiner).1
        ≡ not (nat_eq (last_of 0 rs) 0))
      × (last_of 0 rs ≢ 0
          → lookup joiner
              (accept_end
                (signalled (accept_start a port joiner objects).0 rs)
                joiner).0.listener.pending_session_joiners
            ≡ some (last_of 0 rs))
unfolding accept_start
accept-signalled a port joiner objects rs =
    let waited = signalled (accept_start a port joiner objects).0 rs in
    let seen = signalled_id (accept_start a port joiner objects).0 rs in
    rw seen at (accept_end-id waited joiner)
