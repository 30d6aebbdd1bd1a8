-- ===== src/Gateway/Dispatch/History.antt =====
-- Any history of passes, of crashes and of restarts over one journal of src/gateway: no operation's
-- request is sent twice.
use kapsel.Base.{
  ℕ, Bool, true, false, Option, none, some, List, [], Text, ◌≡◌, ◌≤◌, arith, if◌then◌else◌, ◌==◌,
}
use kapsel.Gateway.Journal.Record
use kapsel.Gateway.Journal.Record.{Record, integer, value_eq}
use kapsel.Gateway.Journal.Store.{World, find}
use kapsel.Gateway.Dispatch.{IsWithin, sends, attempts, attempts_of}
use kapsel.Gateway.Dispatch.Moves.{Covers}
use kapsel.Gateway.Dispatch.Passes.{Covers-IsPassing}
use kapsel.Gateway.Passing.Entry.{Pass, history, history-Moves}

-- Whatever the environment answers in each pass, a journal that covered the requests already sent
-- still covers every request after any history of passes.
pub history-IsWithin : (passes : List Pass) (w : World) → IsWithin w → IsWithin (history passes w)
history-IsWithin passes w h = history-Moves Covers Covers-IsPassing passes w h

unsent-le : (id : Text) (n : ℕ) → sends id [] ≤ n
unfolding sends
unsent-le id n = omega arith

attempts-le-one : (id : Text) (found : Option Record) → attempts_of found ≤ 1
attempts-le-one id none = omega arith
attempts-le-one id (some r) = flag_case (r.values Record.apply_attempted == integer _)
  where
    flag_case : (flag : Bool) → (if flag then 1 else 0) ≤ 1
    flag_case true = omega arith
    flag_case false = omega arith

-- From a journal with no request sent, any history of reconciliation passes, submissions and restarts,
-- with any replies, failures, lost commits and lost acknowledgements, sends the receiver at most one
-- mutation request for each operation identity.
pub history-sends :
    (passes : List Pass) (w : World) (id : Text)
    → w.sent ≡ []
    → sends id (history passes w).sent ≤ 1
unfolding IsWithin attempts
history-sends passes w id h =
    let start : IsWithin w = λ i. rw h (unsent-le i (attempts i w.rows)) in
    let le = history-IsWithin passes w start id in
    omega (arith, le, attempts-le-one id (find id (history passes w).rows))
