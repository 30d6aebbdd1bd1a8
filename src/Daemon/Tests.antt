-- ===== src/Daemon/Tests.antt =====
-- Runs of crates/kapsel-daemon/src/server/runtime.rs on two submissions.
use kapsel.Base.{
  ℕ, if◌then◌else◌, suc, zero, Option, none, some, List, [], ◌∷◌, Text, text, ok, true, false,
  list_eq, nat_eq, ◌≡◌, ◌≤◌, ◌↔◌, refl, arith, get_elem?, count_if,
}
use kapsel.Gateway.Types.{OperationState, requested}
use kapsel.Service.Disposition.{
  stop_blocked, finished, ExecutionObservation, unobserved, active, other_worker, stopped,
  stop_observation, is_busy, is_admitted, worker_is_contended, preflight_unavailable,
}
use kapsel.Daemon.Runtime.{
  Job, compared, is_live, connections_max, decided, decision, observation, Event, submit, pin, read,
  compare, write, acknowledge, finish, detach, initial, step, run, record_stop, find_stopped,
  forget, spawn,
}
use kapsel.Daemon.Runtime.Leases.{is_executing}
use kapsel.Daemon.Runtime.Refusal.{executing, decision-busy, history-exclusion}
use kapsel.Daemon.Runtime.Stops.{is_evicted, IsBounded, record_stop-IsBounded, record_stop_lem}
use kapsel.Daemon.Runtime.Observation.{observation-active, submit-executing}

abbrev empty_journal : Text → Option OperationState
empty_journal _ = none

-- Operation a executes while b asks; b's probe has read everything.
abbrev contended : List Event
contended =
    submit (text "a")
    ∷ write 0 requested
    ∷ submit (text "b")
    ∷ pin
    ∷ read 1 none
    ∷ compare 1 false
    ∷ []

abbrev probe : Job
probe = record {
  operation_id = text "b";
  lease = some (record { generation = 0; operation_id = text "a" });
  work = compared (ok none) (ok false);
  supervised = true;
  answer = none;
}

probe_here : get_elem? (run contended (initial empty_journal)).jobs 1 ≡ some probe
unfolding run initial count_if spawn
probe_here = refl

probe_refused : decision probe ≡ some (decided is_busy)
unfolding decision
probe_refused = refl

decision-busy_example :
    ((run contended (initial empty_journal)).journal (text "b") ≡ none)
    × (executing (text "b") (run contended (initial empty_journal)).jobs ≡ 0)
decision-busy_example = decision-busy contended empty_journal 1 probe probe_here probe_refused

history-exclusion_example :
    (count_if is_executing (run contended (initial empty_journal)).jobs ≤ 1)
    × (count_if is_live (run contended (initial empty_journal)).jobs ≤ connections_max)
history-exclusion_example = history-exclusion contended empty_journal

observation-active_example :
    (observation (run contended (initial empty_journal)) (text "a") ≡ active)
    ↔ (executing (text "a") (run contended (initial empty_journal)).jobs ≡ 1)
observation-active_example = observation-active contended empty_journal (text "a")

test_active : observation (run contended (initial empty_journal)) (text "a") ≡ active
unfolding run initial count_if spawn observation
test_active = refl

-- The execution of a ends while the probe of b still pins its selection.
abbrev retiring : List Event
retiring =
    acknowledge 0 (is_admitted requested)
    ∷ finish 0 (ok (stop_blocked preflight_unavailable))
    ∷ detach 0
    ∷ []

test_pinned :
    observation (run retiring (run contended (initial empty_journal))) (text "a") ≡ other_worker
unfolding run initial count_if spawn observation
test_pinned = refl

abbrev released : List Event
released = submit (text "a") ∷ finish 0 (ok (stop_blocked preflight_unavailable)) ∷ detach 0 ∷ []

test_released :
    observation (run released (initial empty_journal)) (text "a") ≡ stopped preflight_unavailable
unfolding run initial count_if spawn observation stop_observation
test_released = refl

released-idle : count_if is_live (run released (initial empty_journal)).jobs ≡ 0
unfolding run initial count_if spawn
released-idle = refl

released-free : (run released (initial empty_journal)).publishing ≡ none
unfolding run initial count_if spawn
released-free = refl

submit-executing_example :
    executing (text "b") (step (submit (text "b")) (run released (initial empty_journal))).jobs ≡ 1
submit-executing_example =
    submit-executing released empty_journal (text "b") released-idle released-free

-- The stops of these identities, the last of them first.
abbrev filled : List Text → List (Text × ExecutionObservation)
filled [] = []
filled (id ∷ ids) = record_stop (filled ids) id (ok (stop_blocked worker_is_contended))

filled-IsBounded : (ids : List Text) → IsBounded (filled ids)
filled-IsBounded [] = record { distinct = tt; bounded = omega arith }
filled-IsBounded (id ∷ ids) = record_stop-IsBounded (filled ids) id _ (filled-IsBounded ids)

abbrev names : ℕ → List Text
names zero = []
names (suc n) = (n ∷ []) ∷ names n

-- A full queue, whose oldest entry is the identity of one zero octet.
abbrev test_stops : List (Text × ExecutionObservation)
test_stops = filled (names 32)

abbrev oldest : Text
oldest = 0 ∷ []

record_stop_lem_example :
    IsBounded (record_stop test_stops (text "b") (ok finished))
    × (find_stopped (text "b") (record_stop test_stops (text "b") (ok finished))
        ≡ stop_observation (ok finished))
    × (find_stopped oldest (record_stop test_stops (text "b") (ok finished)) ≡ (
        if is_evicted oldest (forget (text "b") test_stops)
        then unobserved
        else find_stopped oldest test_stops))
record_stop_lem_example =
    record_stop_lem test_stops (text "b") oldest (ok finished) (filled-IsBounded (names 32)) refl

abbrev second : Text
second = 1 ∷ []

-- The oldest entry leaves, and the one after it stays.
test_evicts :
    (find_stopped oldest test_stops ≡ stopped worker_is_contended)
    × (find_stopped oldest (record_stop test_stops (text "b") (ok finished)) ≡ unobserved)
    × (find_stopped second (record_stop test_stops (text "b") (ok finished))
        ≡ stopped worker_is_contended)
unfolding record_stop find_stopped stop_observation
test_evicts = (refl, refl, refl)
