-- ===== src/Daemon/Runtime.antt =====
-- crates/kapsel-daemon/src/server/runtime.rs and runtime/jobs.rs: who executes, which probes wait on
-- whom, and what a caller is told. The reactor is one thread, so a handler runs from the lock on
-- `selected` to the registered job with only the blocking closures of other jobs between; these
-- closures run on threads, and every order of their steps is a list of events. Locks are not
-- poisoned, except where a step reads under one and its failure is an answer.
pub mod Leases
pub mod Steps
pub mod Invariant
pub mod Histories
pub mod Refusal
pub mod Stops
pub mod Observation
use kapsel.Base.{
  ℕ, suc, Bool, true, false, not, Option, none, some, List, [], ◌∷◌, ◌++◌, ◌&&◌, ◌||◌, Text, Result,
  ok, err, ◌==◌, nat_eq, list_eq, if◌then◌else◌, leb, length, drop, get_elem?, set, count_if,
}
use kapsel.Gateway.Types.{OperationState}
use kapsel.Service.Disposition.{
  ServiceError, operation_failure, ServiceAdmission, is_admitted, is_busy, ServiceStop,
  ExecutionObservation, unobserved, active, other_worker, stop_observation,
}

pub data SubmissionAdmission : Type 0 where
  decided : ServiceAdmission → SubmissionAdmission
  indeterminate : SubmissionAdmission
  failed_submission : ServiceError → SubmissionAdmission

-- The selection holds the one permit of `submission` while it lives.
pub record Selection : Type 0 where
  pub generation : ℕ
  pub operation_id : Text
  pub running : Bool

-- A strong reference to a selection, with the fields that never change.
pub record Lease : Type 0 where
  pub generation : ℕ
  pub operation_id : Text

-- How far the blocking closure of a job is: an execution, a status read, or a contention probe before its read, with
-- the retained state that it read, and with what it then saw of the current selection.
pub data Work : Type 0 where
  execution reading probing retired : Work
  sampled : Result ServiceError (Option OperationState) → Work
  compared : Result ServiceError (Option OperationState) → Result (Unit {0}) Bool → Work

-- The lease lives as long as the supervisor or the closure; the answer is the first one sent.
pub record Job : Type 0 where
  pub operation_id : Text
  pub lease : Option Lease
  pub work : Work
  pub supervised : Bool
  pub answer : Option SubmissionAdmission

-- The live selection with the permit, the weak reference to one, the handler that holds the lock on
-- `selected` after a failed acquisition, the stop reasons, every job so far, and the retained states.
pub record Server : Type 0 where
  pub owner : Option Selection
  pub selected : Option ℕ
  pub next_generation : ℕ
  pub publishing : Option Text
  pub stopped : List (Text × ExecutionObservation)
  pub jobs : List Job
  pub journal : Text → Option OperationState

abbrev pub connections_max : ℕ
connections_max = 8

abbrev pub stopped_max : ℕ
stopped_max = 32

unfoldable pub initial : (Text → Option OperationState) → Server
initial journal = record {
  owner = none;
  selected = none;
  next_generation = 0;
  publishing = none;
  stopped = [];
  jobs = [];
  journal = journal;
}

-- `Weak::upgrade`
abbrev pub upgrade : Option Selection → Option ℕ → Option Selection
upgrade (some s) (some generation) = if s.generation == generation then some s else none
upgrade _ _ = none

unfoldable pub find_stopped : Text → List (Text × ExecutionObservation) → ExecutionObservation
find_stopped id [] = unobserved
find_stopped id ((other, observation) ∷ rest) =
    if other == id then observation else find_stopped id rest

unfoldable pub observed_selection :
    Option Selection → List (Text × ExecutionObservation) → Text → ExecutionObservation
unfolding find_stopped
observed_selection (some s) stopped id =
    if s.operation_id == id && s.running then active else other_worker
observed_selection none stopped id = find_stopped id stopped

unfoldable pub observation : Server → Text → ExecutionObservation
unfolding observed_selection
observation s id = observed_selection (upgrade s.owner s.selected) s.stopped id

-- `retain(|(id, _)| id != &operation_id)`
unfoldable pub forget :
    Text → List (Text × ExecutionObservation) → List (Text × ExecutionObservation)
forget id [] = []
forget id ((other, observation) ∷ stopped) =
    let rest = forget id stopped in if other == id then rest else (other, observation) ∷ rest

-- The oldest entry leaves a full queue.
abbrev pub make_room : List (Text × ExecutionObservation) → List (Text × ExecutionObservation)
make_room stopped = if length stopped == stopped_max then drop 1 stopped else stopped

unfoldable pub record_stop :
    List (Text × ExecutionObservation)
    → Text
    → Result ServiceError ServiceStop
    → List (Text × ExecutionObservation)
unfolding forget
record_stop stopped id result = make_room (forget id stopped) ++ (id, stop_observation result) ∷ []

unfoldable pub contended_admission :
    Result ServiceError (Option OperationState)
    → Option Bool
    → Result (Unit {0}) Bool
    → SubmissionAdmission
contended_admission (ok (some phase)) pinned current = decided (is_admitted phase)
contended_admission (err error) pinned current = failed_submission error
contended_admission (ok none) none current = indeterminate
contended_admission (ok none) (some true) (ok current) = indeterminate
contended_admission (ok none) (some false) (ok true) = indeterminate
contended_admission (ok none) (some false) (ok false) = decided is_busy
contended_admission (ok none) (some pinned) (err _) = failed_submission operation_failure

abbrev pub is_retired : Work → Bool
is_retired retired = true
is_retired _ = false

abbrev pub is_execution : Work → Bool
is_execution execution = true
is_execution _ = false

-- The lease of the job is not dropped yet.
abbrev pub is_live : Job → Bool
is_live job = job.supervised || not (is_retired job.work)

abbrev pub leases : ℕ → Option Lease → Bool
leases generation none = false
leases generation (some lease) = lease.generation == generation

abbrev pub holds : ℕ → Job → Bool
holds generation job = is_live job && leases generation job.lease

-- `Jobs::spawn`: the registry keeps the jobs that are live, eight at most.
unfoldable pub spawn : Job → List Job → Option (List Job)
spawn job jobs =
    if leb connections_max (count_if is_live jobs) then none else some (jobs ++ job ∷ [])

abbrev pub new_job : Text → Option Lease → Work → Job
new_job id lease work = record {
  operation_id = id;
  lease = lease;
  work = work;
  supervised = true;
  answer = none;
}

abbrev pub lease_of : Selection → Lease
lease_of s = record { generation = s.generation; operation_id = s.operation_id }

-- A refused registration drops the selection, and the permit with it.
unfoldable pub registered : Option (List Job) → Server → Server
registered none s = record s { owner = none }
registered (some jobs) s = record s { jobs = jobs }

unfoldable pub select : Text → Server → Server
select id s = record s {
  owner = some (record { generation = s.next_generation; operation_id = id; running = true });
  selected = some s.next_generation;
  next_generation = suc s.next_generation;
  stopped = forget id s.stopped;
}

unfoldable pub acquire : Text → Server → Server
unfolding spawn registered select forget
acquire id s =
    registered
      (spawn
        (new_job id (some (record { generation = s.next_generation; operation_id = id })) execution)
        s.jobs)
      (select id s)

-- The permit is there, or the handler keeps the lock and will pin the current selection.
unfoldable pub try_acquire : Text → Option Selection → Server → Server
unfolding acquire
try_acquire id none s = acquire id s
try_acquire id (some _) s = record s { publishing = some id }

unfoldable pub submit_free : Text → Option Text → Server → Server
unfolding try_acquire
submit_free id none s = try_acquire id s.owner s
submit_free id (some _) s = s

abbrev pub pin_of : Option Selection → Option Lease
pin_of none = none
pin_of (some s) = some (lease_of s)

abbrev pub with_probe : Option (List Job) → Server → Server
with_probe none s = record s { publishing = none }
with_probe (some jobs) s = record s { jobs = jobs; publishing = none }

unfoldable pub pin_as : Option Text → Server → Server
unfolding spawn
pin_as none s = s
pin_as (some id) s =
    with_probe (spawn (new_job id (pin_of (upgrade s.owner s.selected)) probing) s.jobs) s

-- A read request, which selects nothing.
abbrev pub with_reading : Option (List Job) → Server → Server
with_reading none s = s
with_reading (some jobs) s = record s { jobs = jobs }

unfoldable pub read_free : Text → Option Text → Server → Server
unfolding spawn
read_free id none s = with_reading (spawn (new_job id none reading) s.jobs) s
read_free id (some _) s = s

-- The steps of a probe.
abbrev pub read_work : Result ServiceError (Option OperationState) → Work → Work
read_work retained probing = sampled retained
read_work retained work = work

abbrev pub compare_work : Result (Unit {0}) Bool → Work → Work
compare_work current (sampled retained) = compared retained current
compare_work current work = work

abbrev pub retained_as :
    Option ServiceError → Option OperationState → Result ServiceError (Option OperationState)
retained_as none state = ok state
retained_as (some error) state = err error

abbrev pub is_operation : Text → Option Selection → Bool
is_operation id none = false
is_operation id (some s) = s.operation_id == id

abbrev pub current_as : Bool → Bool → Result (Unit {0}) Bool
current_as true matches = err tt
current_as false matches = ok matches

abbrev pub pinned_matches : Text → Option Lease → Option Bool
pinned_matches id none = none
pinned_matches id (some lease) = some (lease.operation_id == id)

abbrev decide_work : Text → Option Lease → Work → Option SubmissionAdmission
decide_work id lease (compared retained current) =
    some (contended_admission retained (pinned_matches id lease) current)
decide_work id lease work = none

-- What a probe that has read everything answers.
unfoldable pub decision : Job → Option SubmissionAdmission
unfolding contended_admission
decision job = decide_work job.operation_id job.lease job.work

abbrev pub first_answer :
    Option SubmissionAdmission → SubmissionAdmission → Option SubmissionAdmission
first_answer none answer = some answer
first_answer (some sent) answer = some sent

-- The closure returns: its captures are dropped.
abbrev pub close : SubmissionAdmission → Job → Job
close answer job = record job { work = retired; answer = first_answer job.answer answer }

-- The drop of `ExecutionLifetime`, which an execution owns.
abbrev pub stop_running : Option Lease → Option Selection → Option Selection
stop_running (some lease) (some s) =
    if s.generation == lease.generation then some (record s { running = false }) else some s
stop_running _ owner = owner

abbrev pub closed_owner : Work → Option Lease → Option Selection → Option Selection
closed_owner execution lease owner = stop_running lease owner
closed_owner _ lease owner = owner

abbrev pub with_job : ℕ → Job → Server → Server
with_job k job s = record s { jobs = set s.jobs k job }

abbrev pub close_job : ℕ → SubmissionAdmission → Job → Server → Server
close_job k answer job s = record s {
  jobs = set s.jobs k (close answer job);
  owner = closed_owner job.work job.lease s.owner;
}

abbrev pub update :
    Text → OperationState → (Text → Option OperationState) → Text → Option OperationState
update id state journal other = if id == other then some state else journal other

-- A selection is dropped with its last lease.
abbrev pub settle_owner : Option Selection → List Job → Option Selection
settle_owner none jobs = none
settle_owner (some s) jobs = if count_if (holds s.generation) jobs == 0 then none else some s

unfoldable pub settle : Server → Server
settle s = record s { owner = settle_owner s.owner s.jobs }

pub data Event : Type 0 where
  submit : Text → Event
  pin : Event
  status : Text → Event
  reply : ℕ → Event
  read : ℕ → Option ServiceError → Event
  compare : ℕ → Bool → Event
  decide : ℕ → Event
  write : ℕ → OperationState → Event
  acknowledge : ℕ → ServiceAdmission → Event
  finish : ℕ → Result ServiceError ServiceStop → Event
  abandon : ℕ → Event
  detach : ℕ → Event

abbrev pub decide_as : ℕ → Job → Option SubmissionAdmission → Server → Server
decide_as k job none s = s
decide_as k job (some answer) s = close_job k answer job s

-- The failure of a pass that was never acknowledged.
abbrev pub unacknowledged : Result ServiceError ServiceStop → SubmissionAdmission
unacknowledged (ok _) = failed_submission operation_failure
unacknowledged (err error) = failed_submission error

-- What an execution does: only it writes, and only under its own identity.
abbrev pub write_as : Work → Job → OperationState → Server → Server
write_as execution job state s = record s { journal = update job.operation_id state s.journal }
write_as _ job state s = s

abbrev pub acknowledge_as : Work → ℕ → Job → ServiceAdmission → Server → Server
acknowledge_as execution k job admission s =
    with_job k (record job { answer = first_answer job.answer (decided admission) }) s
acknowledge_as _ k job admission s = s

abbrev pub finish_as : Work → ℕ → Job → Result ServiceError ServiceStop → Server → Server
finish_as execution k job result s =
    close_job k (unacknowledged result) job
      (record s { stopped = record_stop s.stopped job.operation_id result })
finish_as _ k job result s = s

abbrev pub reply_as : Work → ℕ → Job → Server → Server
reply_as reading k job s = with_job k (record job { work = retired }) s
reply_as _ k job s = s

abbrev pub compare_as : Option Text → ℕ → Bool → Job → Server → Server
compare_as none k poisoned job s =
    with_job k
      (record job {
        work =
            compare_work
              (current_as poisoned (is_operation job.operation_id (upgrade s.owner s.selected)))
              job.work;
      })
      s
compare_as (some _) k poisoned job s = s

-- One step of the job in slot `k`. A closure that never starts, or panics, is abandoned; the end of a
-- supervisor, or its abort, detaches it.
unfoldable pub job_step : Event → Job → Server → Server
unfolding record_stop decision
job_step (read k failure) job s =
    with_job k
      (record job { work = read_work (retained_as failure (s.journal job.operation_id)) job.work })
      s
job_step (compare k poisoned) job s = compare_as s.publishing k poisoned job s
job_step (reply k) job s = reply_as job.work k job s
job_step (decide k) job s = decide_as k job (decision job) s
job_step (write k state) job s = write_as job.work job state s
job_step (acknowledge k admission) job s = acknowledge_as job.work k job admission s
job_step (finish k result) job s = finish_as job.work k job result s
job_step (abandon k) job s = close_job k (failed_submission operation_failure) job s
job_step (detach k) job s = with_job k (record job { supervised = false }) s
job_step _ job s = s

abbrev pub slot : Event → ℕ
slot (submit _) = 0
slot pin = 0
slot (status _) = 0
slot (reply k) = k
slot (read k _) = k
slot (compare k _) = k
slot (decide k) = k
slot (write k _) = k
slot (acknowledge k _) = k
slot (finish k _) = k
slot (abandon k) = k
slot (detach k) = k

abbrev pub job_event : Event → Option Job → Server → Server
job_event event none s = s
job_event event (some job) s = settle (job_step event job s)

unfoldable pub step : Event → Server → Server
unfolding submit_free pin_as read_free job_step settle
step (submit id) s = submit_free id s.publishing s
step pin s = pin_as s.publishing s
step (status id) s = read_free id s.publishing s
step event s = job_event event (get_elem? s.jobs (slot event)) s

unfoldable pub run : List Event → Server → Server
unfolding step
run [] s = s
run (event ∷ events) s = run events (step event s)
