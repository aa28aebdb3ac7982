-- ===== src/XmppTransport/Loop/Login.antt =====
-- A failed login is told from a lost connection.
use xmppconn.Base.{
  Bool, true, false, ◌&&◌, not, some, List, [], ◌∷◌, Bytes, ◌≡◌, arith, ap, ◌∙◌, Bool-cases,
  Option-cases, inl, inr, All, some-inj, subst, bind-some, sym,
}
use xmppconn.Text.Compression.{Library}
use xmppconn.Transport.{ConnectionError, auth_failure, is_connected, is_disconnected, is_none}
use xmppconn.XmppTransport.{XmppTransport, new, ask}
use xmppconn.XmppTransport.Loop.{
  Event, stanza, roster, connection, Round, returned, run, run_once, initialize, finish_round,
  process, keepalive, count_round, run_library, dispatch,
}
use xmppconn.XmppTransport.Loop.LoginInvariant.{
  NotUp, Inv, Keeps-Inv, stanza-Inv, presence-Keeps, roster-base, connection-Inv,
}

dispatch-Inv :
    (lib : Library) (t t' : XmppTransport) (e : Event)
    → dispatch lib t e ≡ some t'
    → Inv t.base
    → Inv t'.base
unfolding dispatch
dispatch-Inv lib t t' (stanza s) e h = stanza-Inv lib t t' s e h
dispatch-Inv lib t t' (Event.presence s) e h =
    rw (sym (some-inj e)) (Keeps-Inv _ _ (presence-Keeps t s) h)
dispatch-Inv lib t t' (roster s) e h = rw (sym (some-inj e), roster-base t s) h
dispatch-Inv lib t t' (connection c) e h = rw (sym (some-inj e)) (connection-Inv t c h)

run_library-Inv :
    (lib : Library) (t t' : XmppTransport) (es : List Event)
    → run_library lib t es ≡ some t'
    → Inv t.base
    → Inv t'.base
unfolding run_library
run_library-Inv lib t t' [] e h = rw (sym (some-inj e)) h
run_library-Inv lib t t' (v ∷ es) e h = elim (Option-cases (dispatch lib t v)) [
  | inl n ↦ ground (arith, n)
  | inr (t1, n) ↦ run_library-Inv lib t1 t' es (rw n at e) (dispatch-Inv lib t t1 v n h)
]

keepalive-base : (t : XmppTransport) → (keepalive t).base ≡ t.base
unfolding keepalive ask
keepalive-base t = ground arith

process-Inv :
    (lib : Library) (t t' : XmppTransport) (es : List Event)
    → process lib t es ≡ some t'
    → Inv t.base
    → Inv t'.base
unfolding process count_round
process-Inv lib t t' es e h = elim (Bool-cases (is_connected t.base.connection_state)) [
  | inl c ↦
      let (t1, e1, e2) = bind-some _ _ t' (rw c at e) in
      let i : Inv t1.base = run_library-Inv lib (keepalive t) t1 es e1 (rw (keepalive-base t) h) in
      rw (sym (some-inj e2)) i
  | inr c ↦ elim (Bool-cases (is_disconnected t.base.connection_state)) [
    | inl d ↦ rw (sym (some-inj (rw (c, d) at e))) h
    | inr d ↦ run_library-Inv lib t t' es (rw (c, d) at e) h
  ]
]

initialize-base : (t : XmppTransport) (connects : Bool) → (initialize t connects).0.base ≡ t.base
unfolding initialize ask
initialize-base t connects = ground arith

-- A round keeps the invariant, and the `auth_failure` that it returns is the state's own.
finish_round-Inv :
    (lib : Library) (t t' : XmppTransport) (goes_on : Bool) (es : List Event)
    (err : ConnectionError)
    → finish_round lib es (t, goes_on) ≡ some (t', err)
    → Inv t.base
    → Inv t'.base × (err ≡ auth_failure → t'.base.connection_error ≡ auth_failure)
unfolding finish_round
finish_round-Inv lib t t' false es err e h =
    let p = some-inj e in (rw (sym (ap (λ x. x.0) p)) h, λ a. ground arith)
finish_round-Inv lib t t' true es err e h =
    let (t1, e1, e2) = bind-some _ _ _ e in
    let p = some-inj e2 in
    (
      subst (λ x. Inv x.base) (ap (λ x. x.0) p) (process-Inv lib t t1 es e1 h),
      λ a. sym (ap (λ x. x.0.base.connection_error) p) ∙ ap (λ x. x.1) p ∙ a,
    )

run_once-Inv :
    (lib : Library) (t t' : XmppTransport) (r : Round) (err : ConnectionError)
    → run_once lib t r ≡ some (t', err)
    → Inv t.base
    → Inv t'.base × (err ≡ auth_failure → t'.base.connection_error ≡ auth_failure)
unfolding run_once
run_once-Inv lib t t' r err e h =
    finish_round-Inv lib (initialize t r.connects).0 t' (initialize t r.connects).1 r.events err e
      (rw (initialize-base t r.connects) h)

returned-inj :
    (t t' : XmppTransport) (e e' : ConnectionError)
    → returned t e ≡ returned t' e'
    → (t ≡ t') × (e ≡ e')
returned-inj t t' e e' h = (cc, cc)

run-Inv :
    (lib : Library) (t t' : XmppTransport) (rs : List Round)
    → run lib t rs ≡ some (returned t' auth_failure)
    → Inv t.base
    → All NotUp t'.base.told
unfolding run
run-Inv lib t t' [] e h = ground arith
run-Inv lib t t' (r ∷ rs) e h =
    let ((t1, err), e1, e2) = bind-some _ _ _ e in
    let (i, own) = run_once-Inv lib t t1 r err e1 h in
    elim (Bool-cases (not (is_disconnected t1.base.connection_state) && is_none err)) [
      | inl c ↦ run-Inv lib t1 t' rs (rw c at e2) i
      | inr c ↦
          let (same, login) = returned-inj t1 t' err auth_failure (some-inj (rw c at e2)) in
          subst (λ x. All NotUp x.base.told) same (i.1 (own login))
    ]

-- If `Run`, on a new transport, returns that the login failed, then the listener was told at no
-- time that the connection is up.
pub run-auth_failure :
    (lib : Library) (listener compressed : Bool) (jabberid password chatroom : Bytes)
    (peers : List Bytes) (rs : List Round) (t' : XmppTransport)
    → run lib (new listener jabberid password peers chatroom compressed) rs
      ≡ some (returned t' auth_failure)
    → All NotUp t'.base.told
unfolding new
run-auth_failure lib listener compressed jabberid password chatroom peers rs t' e =
    run-Inv lib _ t' rs e ((λ _. _), (λ _. _))
