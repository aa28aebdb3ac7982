-- ===== src/SessionTracker/View.antt =====
-- What the tracker promises, name by name: the pair of the pending and the joined session of one
-- name is a small state machine of its own, which no call for another name moves.
use xmppconn.Base.{
  ℕ, get_or, ◌≡◌, refl, true, false, Option, none, some, List, [], ◌∷◌, Bytes, arith, lookup, ◌==◌,
  bytes_key, bytes_eq_iff, lookup-insert, lookup-erase, if◌then◌else◌, Option-cases, inl, inr,
  Bool-cases,
}
use xmppconn.SessionTracker.{
  SessionTracker, join_sent, join_confirmed, session_lost, get_session, is_session_pending,
  is_session_joined,
}

pub record View : Type 0 where
  pub pending : Option ℕ
  pub joined : Option ℕ

abbrev pub no_session : View
no_session = record { pending = none; joined = none }

pub view : SessionTracker → Bytes → View
view t name = record { pending = lookup name t.pending; joined = lookup name t.sessions }

pub data Call : Type 0 where
  sent : ℕ → Call
  confirm : Call
  lost : Call

abbrev confirm_view : Option ℕ → Option ℕ → View
confirm_view (some id) joined = record { pending = none; joined = some id }
confirm_view none joined = record { pending = none; joined = joined }

-- The state machine of one name.
abbrev pub step_view : View → Call → View
step_view v (sent id) = record v { pending = some id }
step_view v confirm = confirm_view v.pending v.joined
step_view v lost = record v { joined = none }

pub step : SessionTracker → Bytes × Call → SessionTracker
step t (name, sent id) = join_sent t name id
step t (name, confirm) = join_confirmed t name
step t (name, lost) = session_lost t name

pub run : SessionTracker → List (Bytes × Call) → SessionTracker
run t [] = t
run t (c ∷ cs) = run (step t c) cs

-- The calls for `name`, in their order.
abbrev pub calls_for : Bytes → List (Bytes × Call) → List Call
calls_for name [] = []
calls_for name ((n, c) ∷ cs) = let rest = calls_for name cs in if n == name then c ∷ rest else rest

abbrev pub run_view : View → List Call → View
run_view v [] = v
run_view v (c ∷ cs) = run_view (step_view v c) cs

-- Field by field.
View-eq : {v w : View} → v.pending ≡ w.pending → v.joined ≡ w.joined → v ≡ w
View-eq p q = λ i. record { pending = p i; joined = q i }

view-sent :
    (t : SessionTracker) (n name : Bytes) (id : ℕ)
    → view (join_sent t n id) name
      ≡ (if n == name then step_view (view t name) (sent id) else view t name)
unfolding view join_sent
view-sent t n name id = ground (arith, lookup-insert n name id t.pending)

view-lost :
    (t : SessionTracker) (n name : Bytes)
    → view (session_lost t n) name
      ≡ (if n == name then step_view (view t name) lost else view t name)
unfolding view session_lost
view-lost t n name = ground (arith, lookup-erase n name t.sessions, bytes_eq_iff n name)

view-confirm :
    (t : SessionTracker) (n name : Bytes)
    → view (join_confirmed t n) name
      ≡ (if n == name then step_view (view t name) confirm else view t name)
unfolding view join_confirmed
view-confirm t n name = elim (Option-cases (lookup n t.pending)) [
  | inl e ↦ rw (e, join_confirmed) (ground (arith, e, bytes_eq_iff n name))
  | inr (id, e) ↦
      rw (e, join_confirmed)
        (ground (
          arith,
          e,
          bytes_eq_iff n name,
          lookup-insert n name id t.sessions,
          lookup-erase n name t.pending,
        ))
]

view-step :
    (t : SessionTracker) (n name : Bytes) (c : Call)
    → view (step t (n, c)) name ≡ (if n == name then step_view (view t name) c else view t name)
unfolding step
view-step t n name (sent id) = view-sent t n name id
view-step t n name confirm = view-confirm t n name
view-step t n name lost = view-lost t n name

-- After any calls from any state, what the tracker holds for a name is what the state machine of
-- that name reaches by the calls for that name alone, in their order.
pub view-run :
    (t : SessionTracker) (cs : List (Bytes × Call)) (name : Bytes)
    → view (run t cs) name ≡ run_view (view t name) (calls_for name cs)
unfolding run
view-run t [] name = refl
view-run t ((n, c) ∷ cs) name = elim (Bool-cases (n == name)) [
  | inl e ↦ rw (view-run (step t (n, c)) cs name, view-step t n name c) (rw e)
  | inr e ↦ rw (view-run (step t (n, c)) cs name, view-step t n name c) (rw e)
]

-- The id that is reported for a view: the pending one first.
abbrev reported : View → ℕ
reported v = get_or v.pending (get_or v.joined 0)

get_session-view : (t : SessionTracker) (name : Bytes) → get_session t name ≡ reported (view t name)
unfolding get_session view
get_session-view t name = ground arith

-- Confirming a join, of whatever name and whether or not it was pending, changes the id reported
-- for no name; and a pending name is then joined and no longer pending.
pub get_session-confirmed :
    (t : SessionTracker) (n name : Bytes)
    → (get_session (join_confirmed t n) name ≡ get_session t name)
      × (is_session_pending (join_confirmed t n) n ≡ false)
      × (is_session_pending t n ≡ true → is_session_joined (join_confirmed t n) n ≡ true)
get_session-confirmed t n name = (
  rw (get_session-view, get_session-view, view-confirm t n name) (ground arith),
  unfold is_session_pending view in ground (arith, view-confirm t n n, bytes_eq_iff n n),
  λ h.
      unfold is_session_pending is_session_joined view in
      ground (arith, view-confirm t n n, bytes_eq_iff n n, h),
)
