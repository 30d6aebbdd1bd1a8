-- ===== src/Daemon/Runtime/Histories.antt =====
-- The steps of one job of crates/kapsel-daemon/src/server/runtime.rs, and any history of events.
use kapsel.Base.{
  ℕ, Bool, true, false, not, Option, none, some, List, [], ◌∷◌, ◌||◌, Text, Result, ◌==◌, nat_eq,
  list_eq, ◌≡◌, refl, arith, All-get_elem?, All-mono, count_if, get_elem?,
}
use kapsel.Gateway.Types.{OperationState}
use kapsel.Service.Disposition.{ServiceError, ServiceAdmission, ServiceStop, operation_failure}
use kapsel.Daemon.Runtime.{
  Selection, Lease, Work, execution, reading, probing, retired, sampled, compared, Job, Server,
  SubmissionAdmission, decided, failed_submission, is_retired, is_execution, upgrade, first_answer,
  read_work, compare_work, retained_as, write_as, update, Event, status, reply, reply_as, submit,
  pin, read, compare, decide, write, acknowledge, finish, abandon, detach, job_step, job_event,
  step, run, initial, decide_as, acknowledge_as, finish_as, compare_as, current_as, is_operation,
  slot, decision, record_stop, unacknowledged,
}
use kapsel.Daemon.Runtime.Leases.{
  LeaseIsHeld, OwnsLease, IsAbsent, WorkIsValid, JobIsValid, is_executing, IsLeased, IsValid,
  executing-live, settle-IsValid,
}
use kapsel.Daemon.Runtime.Steps.{
  other_fields-IsLeased, changed-IsLeased, advanced-IsLeased, close_job-IsLeased,
}
use kapsel.Daemon.Runtime.Invariant.{submit_free-IsValid, pin_as-IsValid, read_free-IsValid}

-- What a probe reads is what is retained.
retained_as-IsAbsent :
    (failure : Option ServiceError) (journal : Text → Option OperationState) (id : Text)
    (lease : Option Lease)
    → IsAbsent journal id lease (retained_as failure (journal id))
retained_as-IsAbsent none journal id lease h other = cc h
retained_as-IsAbsent (some error) journal id lease h other = cc h

read_work_lem :
    (journal : Text → Option OperationState) (id : Text) (lease : Option Lease)
    (failure : Option ServiceError) (work : Work)
    → WorkIsValid journal id lease work
    → (is_retired (read_work (retained_as failure (journal id)) work) ≡ is_retired work)
      × WorkIsValid journal id lease (read_work (retained_as failure (journal id)) work)
      × (is_execution (read_work (retained_as failure (journal id)) work) ≡ is_execution work)
read_work_lem journal id lease failure execution v = (refl, v, refl)
read_work_lem journal id lease failure probing v =
    (refl, retained_as-IsAbsent failure journal id lease, refl)
read_work_lem journal id lease failure retired v = (refl, v, refl)
read_work_lem journal id lease failure reading v = (refl, v, refl)
read_work_lem journal id lease failure (sampled _) v = (refl, v, refl)
read_work_lem journal id lease failure (compared _ _) v = (refl, v, refl)

compare_work_lem :
    (journal : Text → Option OperationState) (id : Text) (lease : Option Lease)
    (current : Result (Unit {0}) Bool) (work : Work)
    → WorkIsValid journal id lease work
    → (is_retired (compare_work current work) ≡ is_retired work)
      × WorkIsValid journal id lease (compare_work current work)
      × (is_execution (compare_work current work) ≡ is_execution work)
compare_work_lem journal id lease current execution v = (refl, v, refl)
compare_work_lem journal id lease current probing v = (refl, v, refl)
compare_work_lem journal id lease current retired v = (refl, v, refl)
compare_work_lem journal id lease current reading v = (refl, v, refl)
compare_work_lem journal id lease current (sampled _) v = (refl, v, refl)
compare_work_lem journal id lease current (compared _ _) v = (refl, v, refl)

-- A write under the identity of the live selection leaves alone what a probe that pins another one
-- found absent.
update-IsAbsent :
    (o : Selection) (journal : Text → Option OperationState) (state : OperationState)
    (id other : Text) (lease : Option Lease)
    (retained : Result ServiceError (Option OperationState))
    → o.operation_id ≡ id
    → LeaseIsHeld (some o) lease
    → IsAbsent journal other lease retained
    → IsAbsent (update id state journal) other lease retained
update-IsAbsent o journal state id other none retained e h a absent pinned = cc pinned
update-IsAbsent o journal state id other (some lease) retained e h a absent pinned =
    let differs : (lease.operation_id == other) ≡ false = cc pinned in
    let same : id ≡ lease.operation_id = cc (e, h.1) in
    let kept : (id == other) ≡ false = rw same differs in rw kept (a absent pinned)

update-WorkIsValid :
    (o : Selection) (journal : Text → Option OperationState) (state : OperationState) (id : Text)
    (job : Job) (work : Work)
    → o.operation_id ≡ id
    → ((job.supervised || not (is_retired work)) ≡ true → LeaseIsHeld (some o) job.lease)
    → WorkIsValid journal job.operation_id job.lease work
    → WorkIsValid (update id state journal) job.operation_id job.lease work
update-WorkIsValid o journal state id job execution e h w = w
update-WorkIsValid o journal state id job probing e h w = w
update-WorkIsValid o journal state id job retired e h w = w
update-WorkIsValid o journal state id job reading e h w = w
update-WorkIsValid o journal state id job (sampled retained) e h w =
    update-IsAbsent o journal state id job.operation_id job.lease retained e
      (h (live job.supervised)) w
  where
    live : (b : Bool) → (b || true) ≡ true
    live b = ground arith
update-WorkIsValid o journal state id job (compared retained current) e h w =
    update-IsAbsent o journal state id job.operation_id job.lease retained e
      (h (live job.supervised)) w
  where
    live : (b : Bool) → (b || true) ≡ true
    live b = ground arith

execution-IsLeased :
    (s : Server) (job : Job) (state : OperationState) (owner : Option Selection)
    (lease : Option Lease)
    → s.owner ≡ owner
    → IsLeased s
    → LeaseIsHeld owner lease
    → OwnsLease job.operation_id lease
    → IsLeased (record s { journal = update job.operation_id state s.journal })
execution-IsLeased s job state owner none e l h own = absurd own
execution-IsLeased s job state none (some lease) e l h own = absurd h
execution-IsLeased s job state (some o) (some lease) e l h own = record {
  jobs =
      All-mono (JobIsValid s.owner s.journal)
        (JobIsValid s.owner (update job.operation_id state s.journal)) s.jobs
        (λ other v. record {
          held = v.held;
          work =
              update-WorkIsValid o s.journal state job.operation_id other other.work (cc (h.1, own))
                (λ live. rw e at (v.held live)) v.work;
        })
        l.jobs;
  single = l.single;
  published = l.published;
  registered = l.registered;
}

module _ (s : Server) (k : ℕ) (job : Job) (l : IsLeased s)
    (here : get_elem? s.jobs k ≡ some job) where
  valid : JobIsValid s.owner s.journal job
  valid = All-get_elem? (JobIsValid s.owner s.journal) s.jobs k job l.jobs here

  write_as-IsLeased :
      (work : Work) (state : OperationState)
      → job.work ≡ work
      → IsLeased (write_as work job state s)
  write_as-IsLeased execution state e =
      let exec : is_executing job ≡ true = rw e refl in
      execution-IsLeased s job state s.owner job.lease refl l (valid.held (executing-live job exec))
        (rw e at (valid.work))
  write_as-IsLeased probing state e = l
  write_as-IsLeased retired state e = l
  write_as-IsLeased reading state e = l
  write_as-IsLeased (sampled _) state e = l
  write_as-IsLeased (compared _ _) state e = l

  acknowledge_as-IsLeased :
      (work : Work) (admission : ServiceAdmission)
      → IsLeased (acknowledge_as work k job admission s)
  acknowledge_as-IsLeased execution admission =
      advanced-IsLeased s k job job.work (first_answer job.answer (decided admission)) l here refl
        valid.work refl
  acknowledge_as-IsLeased probing admission = l
  acknowledge_as-IsLeased retired admission = l
  acknowledge_as-IsLeased reading admission = l
  acknowledge_as-IsLeased (sampled _) admission = l
  acknowledge_as-IsLeased (compared _ _) admission = l

  finish_as-IsLeased :
      (work : Work) (result : Result ServiceError ServiceStop)
      → IsLeased (finish_as work k job result s)
  finish_as-IsLeased execution result =
      close_job-IsLeased (record s { stopped = record_stop s.stopped job.operation_id result }) k
        (unacknowledged result) job
        (other_fields-IsLeased s s.publishing (record_stop s.stopped job.operation_id result) l)
        here
  finish_as-IsLeased probing result = l
  finish_as-IsLeased retired result = l
  finish_as-IsLeased reading result = l
  finish_as-IsLeased (sampled _) result = l
  finish_as-IsLeased (compared _ _) result = l

  decide_as-IsLeased : (answer : Option SubmissionAdmission) → IsLeased (decide_as k job answer s)
  decide_as-IsLeased none = l
  decide_as-IsLeased (some answer) = close_job-IsLeased s k answer job l here

  compare_as-IsLeased :
      (publishing : Option Text) (poisoned : Bool)
      → IsLeased (compare_as publishing k poisoned job s)
  compare_as-IsLeased (some _) poisoned = l
  compare_as-IsLeased none poisoned =
      let current =
        current_as poisoned (is_operation job.operation_id (upgrade s.owner s.selected)) in
      let (retires, w, same) =
        compare_work_lem s.journal job.operation_id job.lease current job.work valid.work in
      advanced-IsLeased s k job (compare_work current job.work) job.answer l here retires w same

  reply_as-IsLeased : (work : Work) → job.work ≡ work → IsLeased (reply_as work k job s)
  reply_as-IsLeased reading e =
      changed-IsLeased s k job retired job.supervised job.answer l here
        (still job.supervised (is_retired job.work)) tt (rw e refl)
    where
      still : (a b : Bool) → (a || false) ≡ true → (a || not b) ≡ true
      still a b h = ground arith
  reply_as-IsLeased execution e = l
  reply_as-IsLeased probing e = l
  reply_as-IsLeased retired e = l
  reply_as-IsLeased (sampled _) e = l
  reply_as-IsLeased (compared _ _) e = l

  detach-IsLeased : IsLeased (job_step (detach k) job s)
  unfolding job_step
  detach-IsLeased =
      changed-IsLeased s k job job.work false job.answer l here
        (still job.supervised (is_retired job.work)) valid.work refl
    where
      still : (a b : Bool) → (false || not b) ≡ true → (a || not b) ≡ true
      still a b h = ground arith

  read-IsLeased : (failure : Option ServiceError) → IsLeased (job_step (read k failure) job s)
  unfolding job_step
  read-IsLeased failure =
      let (retires, w, same) =
        read_work_lem s.journal job.operation_id job.lease failure job.work valid.work in
      advanced-IsLeased s k job
        (read_work (retained_as failure (s.journal job.operation_id)) job.work) job.answer l here
        retires w same

job_step-IsLeased :
    (event : Event) (s : Server) (job : Job)
    → IsLeased s
    → get_elem? s.jobs (slot event) ≡ some job
    → IsLeased (job_step event job s)
unfolding job_step
job_step-IsLeased (submit id) s job l here = l
job_step-IsLeased pin s job l here = l
job_step-IsLeased (status _) s job l here = l
job_step-IsLeased (reply k) s job l here = reply_as-IsLeased s k job l here job.work refl
job_step-IsLeased (read k failure) s job l here = read-IsLeased s k job l here failure
job_step-IsLeased (compare k poisoned) s job l here =
    compare_as-IsLeased s k job l here s.publishing poisoned
job_step-IsLeased (decide k) s job l here = decide_as-IsLeased s k job l here (decision job)
job_step-IsLeased (write k state) s job l here =
    write_as-IsLeased s k job l here job.work state refl
job_step-IsLeased (acknowledge k admission) s job l here =
    acknowledge_as-IsLeased s k job l here job.work admission
job_step-IsLeased (finish k result) s job l here = finish_as-IsLeased s k job l here job.work result
job_step-IsLeased (abandon k) s job l here =
    close_job-IsLeased s k (failed_submission operation_failure) job l here
job_step-IsLeased (detach k) s job l here = detach-IsLeased s k job l here

job_event-IsValid :
    (event : Event) (found : Option Job) (s : Server)
    → IsValid s
    → get_elem? s.jobs (slot event) ≡ found
    → IsValid (job_event event found s)
job_event-IsValid event none s v here = v
job_event-IsValid event (some job) s v here =
    settle-IsValid (job_step event job s) (job_step-IsLeased event s job v.leased here)

pub step-IsValid : (event : Event) (s : Server) → IsValid s → IsValid (step event s)
unfolding step
step-IsValid (submit id) s v = submit_free-IsValid id s.publishing s v
step-IsValid pin s v = pin_as-IsValid s.publishing s v
step-IsValid (status id) s v = read_free-IsValid id s.publishing s v
step-IsValid (reply k) s v = job_event-IsValid (reply k) _ s v refl
step-IsValid (read k failure) s v = job_event-IsValid (read k failure) _ s v refl
step-IsValid (compare k poisoned) s v = job_event-IsValid (compare k poisoned) _ s v refl
step-IsValid (decide k) s v = job_event-IsValid (decide k) _ s v refl
step-IsValid (write k state) s v = job_event-IsValid (write k state) _ s v refl
step-IsValid (acknowledge k admission) s v = job_event-IsValid (acknowledge k admission) _ s v refl
step-IsValid (finish k result) s v = job_event-IsValid (finish k result) _ s v refl
step-IsValid (abandon k) s v = job_event-IsValid (abandon k) _ s v refl
step-IsValid (detach k) s v = job_event-IsValid (detach k) _ s v refl

pub run-IsValid : (events : List Event) (s : Server) → IsValid s → IsValid (run events s)
unfolding run
run-IsValid [] s v = v
run-IsValid (event ∷ events) s v = run-IsValid events (step event s) (step-IsValid event s v)

initial-IsValid : (journal : Text → Option OperationState) → IsValid (initial journal)
unfolding initial count_if
initial-IsValid journal = record {
  leased = record { jobs = tt; single = refl; published = tt; registered = omega arith };
  holder = tt;
}

-- After any history from the start of the server.
pub history-IsValid :
    (events : List Event) (journal : Text → Option OperationState)
    → IsValid (run events (initial journal))
history-IsValid events journal = run-IsValid events (initial journal) (initial-IsValid journal)
