-- ===== src/Daemon/Runtime/Observation.antt =====
-- The stop reasons over any history of crates/kapsel-daemon/src/server/runtime.rs, and what a status
-- read observes of them and of the selection.
use kapsel.Base.{
  ℕ, ◌≤◌, Bool, true, false, Option, none, some, List, [], ◌∷◌, ◌&&◌, Text, ◌==◌, nat_eq, list_eq,
  if◌then◌else◌, ◌≡◌, refl, inl, inr, Bool-cases, arith, get_elem?,
}
use kapsel.Gateway.Types.{OperationState}
use kapsel.Service.Disposition.{active, other_worker}
use kapsel.Daemon.Runtime.{
  Server, Job, Work, execution, reading, probing, retired, sampled, compared, SubmissionAdmission,
  Event, status, reply, reply_as, read_free, with_reading, submit, pin, read, compare, decide,
  write, acknowledge, finish, abandon, detach, select, acquire, try_acquire, submit_free, spawn,
  registered, pin_as, with_probe, job_step, job_event, step, run, initial, settle, decide_as,
  write_as, acknowledge_as, finish_as, compare_as, decision, new_job, upgrade,
}
use kapsel.Base.{
  ◌↔◌, All, All-mono, bit, count_if, count_if-All-false, count_if-snoc, count_if_mono,
}
use kapsel.Daemon.Runtime.{
  Selection, leases, observation, observed_selection, is_live, holds, execution,
}
use kapsel.Daemon.Runtime.Leases.{IsLeased, JobIsValid, is_executing, HasHolder}
use kapsel.Daemon.Runtime.Histories.{history-IsValid}
use kapsel.Daemon.Runtime.Refusal.{executes, executing, executing-operation, not_executes}
use kapsel.Daemon.Runtime.Stops.{
  IsReason, IsBounded, forget-IsBounded, record_stop-IsBounded, find_stopped-IsReason,
}

-- The queue over the steps of the server.
acquire-IsBounded :
    (id : Text) (s : Server) → IsBounded s.stopped → IsBounded (acquire id s).stopped
unfolding acquire select registered
acquire-IsBounded id s b = spawn_case (spawn _ s.jobs)
  where
    spawn_case : (jobs : Option (List Job)) → IsBounded (registered jobs (select id s)).stopped
    spawn_case none = forget-IsBounded id s.stopped b
    spawn_case (some jobs) = forget-IsBounded id s.stopped b

submit_free-IsBounded :
    (id : Text) (publishing : Option Text) (s : Server)
    → IsBounded s.stopped
    → IsBounded (submit_free id publishing s).stopped
unfolding submit_free try_acquire
submit_free-IsBounded id (some _) s b = b
submit_free-IsBounded id none s b =
    elim s.owner as (λ owner. IsBounded (try_acquire id owner s).stopped) [
      | none ↦ acquire-IsBounded id s b
      | some o ↦ b
    ]

pin_as-IsBounded :
    (publishing : Option Text) (s : Server)
    → IsBounded s.stopped
    → IsBounded (pin_as publishing s).stopped
unfolding pin_as
pin_as-IsBounded none s b = b
pin_as-IsBounded (some id) s b = spawn_case (spawn _ s.jobs)
  where
    spawn_case : (jobs : Option (List Job)) → IsBounded (with_probe jobs s).stopped
    spawn_case none = b
    spawn_case (some jobs) = b

read_free-IsBounded :
    (id : Text) (publishing : Option Text) (s : Server)
    → IsBounded s.stopped
    → IsBounded (read_free id publishing s).stopped
unfolding read_free
read_free-IsBounded id (some _) s b = b
read_free-IsBounded id none s b = spawn_case (spawn _ s.jobs)
  where
    spawn_case : (jobs : Option (List Job)) → IsBounded (with_reading jobs s).stopped
    spawn_case none = b
    spawn_case (some jobs) = b

module _ (k : ℕ) (job : Job) (s : Server) (b : IsBounded s.stopped) where
  decide_as-IsBounded :
      (answer : Option SubmissionAdmission) → IsBounded (decide_as k job answer s).stopped
  decide_as-IsBounded none = b
  decide_as-IsBounded (some answer) = b

  compare_as-IsBounded :
      (publishing : Option Text) (poisoned : Bool)
      → IsBounded (compare_as publishing k poisoned job s).stopped
  compare_as-IsBounded none poisoned = b
  compare_as-IsBounded (some _) poisoned = b

job_step-IsBounded :
    (event : Event) (job : Job) (s : Server)
    → IsBounded s.stopped
    → IsBounded (job_step event job s).stopped
unfolding job_step
job_step-IsBounded (submit id) job s b = b
job_step-IsBounded pin job s b = b
job_step-IsBounded (status _) job s b = b
job_step-IsBounded (reply k) job s b = work_as-reply job.work
  where
    work_as-reply : (work : Work) → IsBounded (reply_as work k job s).stopped
    work_as-reply execution = b
    work_as-reply reading = b
    work_as-reply probing = b
    work_as-reply retired = b
    work_as-reply (sampled _) = b
    work_as-reply (compared _ _) = b
job_step-IsBounded (read k failure) job s b = b
job_step-IsBounded (compare k poisoned) job s b =
    compare_as-IsBounded k job s b s.publishing poisoned
job_step-IsBounded (decide k) job s b = decide_as-IsBounded k job s b (decision job)
job_step-IsBounded (write k state) job s b = work_as-write job.work
  where
    work_as-write : (work : Work) → IsBounded (write_as work job state s).stopped
    work_as-write execution = b
    work_as-write probing = b
    work_as-write retired = b
    work_as-write reading = b
    work_as-write (sampled _) = b
    work_as-write (compared _ _) = b
job_step-IsBounded (acknowledge k admission) job s b = work_as-acknowledge job.work
  where
    work_as-acknowledge : (work : Work) → IsBounded (acknowledge_as work k job admission s).stopped
    work_as-acknowledge execution = b
    work_as-acknowledge probing = b
    work_as-acknowledge retired = b
    work_as-acknowledge reading = b
    work_as-acknowledge (sampled _) = b
    work_as-acknowledge (compared _ _) = b
job_step-IsBounded (finish k result) job s b = work_as-finish job.work
  where
    work_as-finish : (work : Work) → IsBounded (finish_as work k job result s).stopped
    work_as-finish execution = record_stop-IsBounded s.stopped job.operation_id result b
    work_as-finish probing = b
    work_as-finish retired = b
    work_as-finish reading = b
    work_as-finish (sampled _) = b
    work_as-finish (compared _ _) = b
job_step-IsBounded (abandon k) job s b = b
job_step-IsBounded (detach k) job s b = b

job_event-IsBounded :
    (event : Event) (found : Option Job) (s : Server)
    → IsBounded s.stopped
    → IsBounded (job_event event found s).stopped
unfolding settle
job_event-IsBounded event none s b = b
job_event-IsBounded event (some job) s b = job_step-IsBounded event job s b

step-IsBounded :
    (event : Event) (s : Server) → IsBounded s.stopped → IsBounded (step event s).stopped
unfolding step
step-IsBounded (submit id) s b = submit_free-IsBounded id s.publishing s b
step-IsBounded pin s b = pin_as-IsBounded s.publishing s b
step-IsBounded (status id) s b = read_free-IsBounded id s.publishing s b
step-IsBounded (reply k) s b = job_event-IsBounded (reply k) (get_elem? s.jobs k) s b
step-IsBounded (read k failure) s b = job_event-IsBounded (read k failure) (get_elem? s.jobs k) s b
step-IsBounded (compare k poisoned) s b =
    job_event-IsBounded (compare k poisoned) (get_elem? s.jobs k) s b
step-IsBounded (decide k) s b = job_event-IsBounded (decide k) (get_elem? s.jobs k) s b
step-IsBounded (write k state) s b = job_event-IsBounded (write k state) (get_elem? s.jobs k) s b
step-IsBounded (acknowledge k admission) s b =
    job_event-IsBounded (acknowledge k admission) (get_elem? s.jobs k) s b
step-IsBounded (finish k result) s b =
    job_event-IsBounded (finish k result) (get_elem? s.jobs k) s b
step-IsBounded (abandon k) s b = job_event-IsBounded (abandon k) (get_elem? s.jobs k) s b
step-IsBounded (detach k) s b = job_event-IsBounded (detach k) (get_elem? s.jobs k) s b

run-IsBounded :
    (events : List Event) (s : Server) → IsBounded s.stopped → IsBounded (run events s).stopped
unfolding run
run-IsBounded [] s b = b
run-IsBounded (event ∷ events) s b = run-IsBounded events (step event s) (step-IsBounded event s b)

initial-IsBounded : (journal : Text → Option OperationState) → IsBounded (initial journal).stopped
unfolding initial
initial-IsBounded journal = record { distinct = tt; bounded = omega arith }

-- The executions of one identity are all or none of the executions.
executing-le : (id : Text) (jobs : List Job) → executing id jobs ≤ count_if is_executing jobs
executing-le id jobs = count_if_mono (executes id) is_executing jobs (everywhere jobs)
  where
    first : (a b : Bool) → (a && b) ≡ true → a ≡ true
    first a b h = ground arith

    everywhere : (xs : List Job) → All (λ job. executes id job ≡ true → is_executing job ≡ true) xs
    everywhere [] = tt
    everywhere (job ∷ xs) = (first (is_executing job) (job.operation_id == id), everywhere xs)

owned-executing-le :
    (o : Selection) (s : Server) (id : Text)
    → All (JobIsValid (some o) s.journal) s.jobs
    → (o.operation_id == id) ≡ true
    → count_if is_executing s.jobs ≤ executing id s.jobs
owned-executing-le o s id jobs same = count_if_mono is_executing (executes id) s.jobs (
    All-mono (JobIsValid (some o) s.journal)
      (λ job. is_executing job ≡ true → executes id job ≡ true) s.jobs
      (λ job v exec. rw exec (rw (executing-operation o s.journal job v exec) same)) jobs)

active_iff :
    (s : Server) (id : Text) (owner : Option Selection) (selected : Option ℕ)
    → IsLeased s
    → IsBounded s.stopped
    → s.owner ≡ owner
    → s.selected ≡ selected
    → (observed_selection (upgrade owner selected) s.stopped id ≡ active)
      ↔ (executing id s.jobs ≡ 1)
unfolding observed_selection
active_iff s id none selected l b eo es = (
  λ h.
      let reason : IsReason active = rw h at (find_stopped-IsReason id s.stopped b.distinct) in
      absurd reason,
  λ h.
      let idle : count_if is_executing s.jobs ≡ 0 = rw eo at (l.single) in
      absurd (omega (arith, executing-le id s.jobs, idle, h)),
)
active_iff s id (some o) none l b eo es =
    let published : none ≡ some o.generation = rw es at (rw eo at (l.published)) in
    absurd (cc published)
active_iff s id (some o) (some generation) l b eo es =
    let published : some generation ≡ some o.generation = rw es at (rw eo at (l.published)) in
    let same : (o.generation == generation) ≡ true =
      rw (option_injective published) (nat_eq.beq_refl o.generation) in
    rw same (elim (Bool-cases (o.operation_id == id)) [
      | inr q ↦ rw q (
        λ h. cc h,
        λ h.
            let none_of : executing id s.jobs ≡ 0 = count_if-All-false (executes id) s.jobs (
              All-mono (JobIsValid s.owner s.journal) (λ job. executes id job ≡ false) s.jobs
                (λ job v. not_executes o s.journal id job q (rw eo at v)) l.jobs) in
            absurd (omega (arith, none_of, h)),
      )
      | inl p ↦ rw p (running_case p o.running (rw eo at (l.single)))
    ])
  where
    option_injective : {m n : ℕ} → ◌≡◌ {A = Option ℕ} (some m) (some n) → m ≡ n
    option_injective h = cc h

    running_case :
        (o.operation_id == id) ≡ true
        → (running : Bool) → count_if is_executing s.jobs ≡ bit running
        → ((if running then active else other_worker) ≡ active) ↔ (executing id s.jobs ≡ 1)
    running_case p true e = (
      λ _.
          omega (arith, e, executing-le id s.jobs, owned-executing-le o s id (rw eo at (l.jobs)) p),
      λ _. refl,
    )
    running_case p false e = (λ h. cc h, λ h. absurd (omega (arith, e, executing-le id s.jobs, h)))

-- After any history, an identity is observed as active exactly when an execution for it, and only one, is
-- in progress.
pub observation-active :
    (events : List Event) (journal : Text → Option OperationState) (id : Text)
    → (observation (run events (initial journal)) id ≡ active)
      ↔ (executing id (run events (initial journal)).jobs ≡ 1)
unfolding observation
observation-active events journal id =
    let s = run events (initial journal) in
    active_iff s id s.owner s.selected (history-IsValid events journal).leased
      (run-IsBounded events (initial journal) (initial-IsBounded journal)) refl refl

-- With no live job nothing holds the permit.
idle-owner :
    (s : Server) (owner : Option Selection)
    → count_if is_live s.jobs ≡ 0
    → HasHolder owner s.jobs
    → owner ≡ none
idle-owner s none idle h = refl
idle-owner s (some o) idle h =
    absurd (
      omega (arith, idle, h, count_if_mono (holds o.generation) is_live s.jobs (everywhere s.jobs)))
  where
    first : (a b : Bool) → (a && b) ≡ true → a ≡ true
    first a b h = ground arith

    everywhere :
        (xs : List Job) → All (λ job. holds o.generation job ≡ true → is_live job ≡ true) xs
    everywhere [] = tt
    everywhere (job ∷ xs) = (first (is_live job) (leases o.generation job.lease), everywhere xs)

acquire-executing :
    (id : Text) (s : Server)
    → count_if is_live s.jobs ≡ 0
    → executing id s.jobs ≡ 0
    → executing id (acquire id s).jobs ≡ 1
unfolding acquire spawn registered select
acquire-executing id s idle quiet =
    rw idle (omega (arith, count_if-snoc (executes id) s.jobs job, quiet, one))
  where
    job : Job
    job = new_job id (some (record { generation = s.next_generation; operation_id = id })) execution

    one : bit (executes id job) ≡ 1
    one = rw (list_eq.beq_refl id) refl

-- After any history, when no job is live and no handler waits for its pin, a submission starts the execution
-- of its operation.
pub submit-executing :
    (events : List Event) (journal : Text → Option OperationState) (id : Text)
    → count_if is_live (run events (initial journal)).jobs ≡ 0
    → (run events (initial journal)).publishing ≡ none
    → executing id (step (submit id) (run events (initial journal))).jobs ≡ 1
unfolding step submit_free try_acquire
submit-executing events journal id idle free =
    let s = run events (initial journal) in
    let v = history-IsValid events journal in
    let unowned : s.owner ≡ none = idle-owner s s.owner idle v.holder in
    let none_runs : count_if is_executing s.jobs ≡ 0 = rw unowned at (v.leased.single) in
    free_case s (acquire-executing id s idle (omega (arith, executing-le id s.jobs, none_runs)))
      unowned s.publishing free
  where
    owner_case :
        (s : Server)
        → executing id (acquire id s).jobs ≡ 1
        → (owner : Option Selection) → owner ≡ none
        → executing id (try_acquire id owner s).jobs ≡ 1
    owner_case s h none _ = h
    owner_case s h (some o) e = cc e

    free_case :
        (s : Server)
        → executing id (acquire id s).jobs ≡ 1
        → s.owner ≡ none
        → (publishing : Option Text) → publishing ≡ none
        → executing id (submit_free id publishing s).jobs ≡ 1
    free_case s h unowned none _ = owner_case s h s.owner unowned
    free_case s h unowned (some _) e = cc e
