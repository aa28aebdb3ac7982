-- ===== src/Tests/Sessions.antt =====
-- The session tracker on the calls for two joiners.
use xmppconn.Base.{List, [], ◌∷◌, Bytes, codes, ◌≡◌}
use xmppconn.SessionTracker.{new}
use xmppconn.SessionTracker.View.{
  Call, sent, confirm, lost, run, view, run_view, calls_for, view-run,
}

abbrev first : Bytes
first = codes ":a.1"

abbrev second : Bytes
second = codes ":b.2"

abbrev calls : List (Bytes × Call)
calls =
    (first, sent 7) ∷ (second, sent 8) ∷ (first, confirm) ∷ (second, lost) ∷ (first, sent 9) ∷ []

view-run_example : view (run new calls) first ≡ run_view (view new first) (calls_for first calls)
view-run_example = view-run new calls first
