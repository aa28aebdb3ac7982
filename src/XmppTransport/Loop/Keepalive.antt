-- ===== src/XmppTransport/Loop/Keepalive.antt =====
-- How often an idle connection sends its keepalive.
use xmppconn.Base.{
  ℕ, zero, suc, ◌+◌, ◌-◌, ◌/◌, ◌≤◌, ◌<◌, ◌⊎◌, append-nil, append_assoc, true, some, List, [], ◌∷◌,
  ◌++◌, codes, ◌≡◌, refl, arith, inl, inr, ◌∙◌,
}
use xmppconn.Text.Compression.{Library}
use xmppconn.Transport.{connected, no_error}
use xmppconn.XmppTransport.{XmppTransport, Request, ask, send}
use xmppconn.XmppTransport.Xml.{text}
use xmppconn.XmppTransport.Loop.{
  Round, running, run, run_once, keepalive, count_round, run_library, next_keepalive,
}

abbrev quiet : Round
quiet = record { connects = true; events = [] }

abbrev pub quiet_rounds : ℕ → List Round
quiet_rounds zero = []
quiet_rounds (suc n) = quiet ∷ quiet_rounds n

-- The connection is up and the loop runs on.
pub record IsUp (t : XmppTransport) : Type 0 where
  pub ready : t.initialized ≡ true
  pub up : t.base.connection_state ≡ connected
  pub clean : t.base.connection_error ≡ no_error

-- One quiet round of a connection that is up: a keepalive if the counter has run, and the count.
after_quiet : XmppTransport → XmppTransport
after_quiet t = count_round (keepalive t)

run_once-quiet :
    (lib : Library) (t : XmppTransport)
    → IsUp t
    → run_once lib t quiet ≡ some (after_quiet t, no_error)
unfolding run_once after_quiet run_library
run_once-quiet lib t u = ground arith

after_quiet-IsUp : (t : XmppTransport) → IsUp t → IsUp (after_quiet t)
unfolding after_quiet keepalive count_round
after_quiet-IsUp t u = ground arith

run-quiet :
    (lib : Library) (t : XmppTransport) (n : ℕ)
    → IsUp t
    → run lib t (quiet_rounds (suc n)) ≡ run lib (after_quiet t) (quiet_rounds n)
unfolding run
run-quiet lib t n u = rw (run_once-quiet lib t u) (ground (arith, (after_quiet-IsUp t u).up))

abbrev pub keepalives : ℕ → List Request
keepalives zero = []
keepalives (suc n) = send (text (codes " ")) ∷ keepalives n

after_quiet_sends :
    (t : XmppTransport)
    → ((next_keepalive ≤ t.keepalive_counter)
        × ((after_quiet t).requests ≡ t.requests ++ keepalives 1)
        × ((after_quiet t).keepalive_counter ≡ 1))
      ⊎ ((t.keepalive_counter < next_keepalive)
          × ((after_quiet t).requests ≡ t.requests)
          × ((after_quiet t).keepalive_counter ≡ t.keepalive_counter + 1))
unfolding after_quiet keepalive count_round ask
after_quiet_sends t = ground arith

-- The requests after `n` quiet rounds are `k` keepalives more.
abbrev Sends : Library → XmppTransport → ℕ → ℕ → Type 0
Sends lib t n k =
    (t' : XmppTransport) × (run lib t (quiet_rounds n) ≡ some (running t'))
    × (t'.requests ≡ t.requests ++ keepalives k)

-- The two cases of a round add up.
quiet_step :
    (t t' : XmppTransport) (n : ℕ)
    → t.keepalive_counter ≤ next_keepalive
    → t'.requests
      ≡ (after_quiet t).requests
        ++ keepalives (((after_quiet t).keepalive_counter + n - 1) / next_keepalive)
    → t'.requests ≡ t.requests ++ keepalives ((t.keepalive_counter + suc n - 1) / next_keepalive)
quiet_step t t' n h sent = elim (after_quiet_sends t) [
  | inl (due, asked, reset) ↦
      let e : (t.keepalive_counter + suc n - 1) / next_keepalive ≡ suc (n / next_keepalive) =
        omega arith in
      let e' : (1 + n - 1) / next_keepalive ≡ n / next_keepalive = omega arith in
      rw e (sent ∙ rw (asked, reset, e', append_assoc))
  | inr (early, same, counted) ↦
      let e : t.keepalive_counter + suc n - 1 ≡ t.keepalive_counter + 1 + n - 1 = omega arith in
      rw e (sent ∙ rw (same, counted))
]

quiet-Sends :
    (lib : Library) (n : ℕ) (t : XmppTransport)
    → IsUp t
    → t.keepalive_counter ≤ next_keepalive
    → Sends lib t n ((t.keepalive_counter + n - 1) / next_keepalive)
quiet-Sends lib zero t u h =
    let e : (t.keepalive_counter + 0 - 1) / next_keepalive ≡ 0 = omega arith in
    (t, unfold run in refl, rw (e, append-nil))
quiet-Sends lib (suc n) t u h =
    let small : (after_quiet t).keepalive_counter ≤ next_keepalive =
      ground (arith, after_quiet_sends t) in
    let (t', e, sent) = quiet-Sends lib n (after_quiet t) (after_quiet-IsUp t u) small in
    (t', run-quiet lib t n u ∙ e, quiet_step t t' n h sent)

-- A connection that is up and hears nothing stays in its loop, and in any `n` rounds of one
-- millisecond from a fresh counter it sends exactly (n - 1) / 60000 keepalives and nothing else.
pub run-keepalives :
    (lib : Library) (n : ℕ) (t : XmppTransport)
    → IsUp t
    → t.keepalive_counter ≡ 0
    → (t' : XmppTransport) × (run lib t (quiet_rounds n) ≡ some (running t'))
      × (t'.requests ≡ t.requests ++ keepalives ((n - 1) / next_keepalive))
run-keepalives lib n t u z =
    let (t', e, sent) = quiet-Sends lib n t u (omega arith) in
    let e' : (t.keepalive_counter + n - 1) / next_keepalive ≡ (n - 1) / next_keepalive =
      omega arith in
    (t', e, rw e' at sent)
