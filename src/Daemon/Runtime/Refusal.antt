-- ===== src/Daemon/Runtime/Refusal.antt =====
-- A refusal of a contended submission in crates/kapsel-daemon/src/server/runtime.rs, and the number of
-- executions.
use kapsel.Base.{
  ℕ, ◌≤◌, Bool, true, false, Option, none, some, List, ◌&&◌, ◌||◌, Text, Result, ok, err, ◌==◌,
  nat_eq, list_eq, ◌≡◌, refl, inl, inr, Bool-cases, arith, All-get_elem?, All-mono, count_if,
  count_if-All-false, get_elem?,
}
use kapsel.Gateway.Types.{OperationState}
use kapsel.Service.Disposition.{ServiceError, is_busy}
use kapsel.Daemon.Runtime.{
  Selection, Lease, Work, execution, reading, probing, retired, sampled, compared, Job, Server,
  decided, connections_max, is_execution, is_live, pinned_matches, contended_admission, decision,
  Event, run, initial,
}
use kapsel.Daemon.Runtime.Leases.{
  LeaseIsHeld, OwnsLease, JobIsValid, WorkIsValid, is_executing, running_of, IsLeased,
  executing-live,
}
use kapsel.Daemon.Runtime.Steps.{bit_le_one}
use kapsel.Daemon.Runtime.Histories.{history-IsValid}

-- The executions of one identity.
abbrev pub executes : Text → Job → Bool
executes id job = is_executing job && job.operation_id == id

abbrev pub executing : Text → List Job → ℕ
executing id jobs = count_if (executes id) jobs

-- What a probe has read when it answers that the worker is busy.
abbrev IsRefused : Text → Option Lease → Work → Type 0
IsRefused id lease (compared retained current) =
    (retained ≡ ok none) × (pinned_matches id lease ≡ some false)
IsRefused id lease _ = ⊥

contended_admission-busy :
    (retained : Result ServiceError (Option OperationState)) (pinned : Option Bool)
    (current : Result (Unit {0}) Bool)
    → contended_admission retained pinned current ≡ decided is_busy
    → (retained ≡ ok none) × (pinned ≡ some false)
unfolding contended_admission
contended_admission-busy (ok (some phase)) pinned current h = cc h
contended_admission-busy (err error) pinned current h = cc h
contended_admission-busy (ok none) none current h = cc h
contended_admission-busy (ok none) (some true) (ok true) h = cc h
contended_admission-busy (ok none) (some true) (ok false) h = cc h
contended_admission-busy (ok none) (some false) (ok true) h = cc h
contended_admission-busy (ok none) (some false) (ok false) h = (refl, refl)
contended_admission-busy (ok none) (some true) (err e) h = cc h
contended_admission-busy (ok none) (some false) (err e) h = cc h

decision-IsRefused :
    (job : Job)
    → decision job ≡ some (decided is_busy)
    → IsRefused job.operation_id job.lease job.work
unfolding decision
decision-IsRefused job h = work_case job.work h
  where
    work_case :
        (work : Work)
        → decision (record job { work = work }) ≡ some (decided is_busy)
        → IsRefused job.operation_id job.lease work
    work_case execution h' = cc h'
    work_case probing h' = cc h'
    work_case retired h' = cc h'
    work_case reading h' = cc h'
    work_case (sampled _) h' = cc h'
    work_case (compared retained current) h' =
        contended_admission-busy retained (pinned_matches job.operation_id job.lease) current
          (cc h')

-- An execution is of the operation of the live selection.
pub executing-operation :
    (o : Selection) (journal : Text → Option OperationState) (job : Job)
    → JobIsValid (some o) journal job
    → is_executing job ≡ true
    → job.operation_id ≡ o.operation_id
executing-operation o journal job v exec =
    lease_case job.lease (own_case job.work exec v.work) (v.held (executing-live job exec))
  where
    own_case :
        (work : Work)
        → is_execution work ≡ true
        → WorkIsValid journal job.operation_id job.lease work
        → OwnsLease job.operation_id job.lease
    own_case execution h w = w
    own_case probing h w = cc h
    own_case retired h w = cc h
    own_case reading h w = cc h
    own_case (sampled _) h w = cc h
    own_case (compared _ _) h w = cc h

    lease_case :
        (lease : Option Lease)
        → OwnsLease job.operation_id lease
        → LeaseIsHeld (some o) lease
        → job.operation_id ≡ o.operation_id
    lease_case none own h = absurd own
    lease_case (some lease) own h = cc (own, h.1)

pub not_executes :
    (o : Selection) (journal : Text → Option OperationState) (id : Text) (job : Job)
    → (o.operation_id == id) ≡ false
    → JobIsValid (some o) journal job
    → executes id job ≡ false
not_executes o journal id job differs v = elim (Bool-cases (is_executing job)) [
  | inr q ↦ rw q refl
  | inl p ↦ rw p (rw (executing-operation o journal job v p) differs)
]

refused_case :
    (s : Server) (job : Job) (work : Work) (owner : Option Selection) (lease : Option Lease)
    → IsLeased s
    → JobIsValid s.owner s.journal job
    → job.work ≡ work
    → s.owner ≡ owner
    → job.lease ≡ lease
    → IsRefused job.operation_id job.lease work
    → (s.journal job.operation_id ≡ none) × (executing job.operation_id s.jobs ≡ 0)
refused_case s job execution owner lease l v ew eo el h = absurd h
refused_case s job probing owner lease l v ew eo el h = absurd h
refused_case s job retired owner lease l v ew eo el h = absurd h
refused_case s job reading owner lease l v ew eo el h = absurd h
refused_case s job (sampled _) owner lease l v ew eo el h = absurd h
refused_case s job (compared retained current) owner none l v ew eo el h = cc (rw el at (h.1))
refused_case s job (compared retained current) none (some lease) l v ew eo el h =
    absurd (rw eo at (rw el at (v.held (rw ew (live job.supervised)))))
  where
    live : (b : Bool) → (b || true) ≡ true
    live b = ground arith
refused_case s job (compared retained current) (some o) (some lease) l v ew eo el h =
    let held : LeaseIsHeld (some o) (some lease) =
      rw eo at (rw el at (v.held (rw ew (live job.supervised)))) in
    let pinned : (lease.operation_id == job.operation_id) ≡ false = cc (rw el at (h.1)) in
    let differs : (o.operation_id == job.operation_id) ≡ false = rw (held.1) pinned in
    let absent : WorkIsValid s.journal job.operation_id job.lease (compared retained current) =
      rw ew at (v.work) in
    (
      absent h.0 h.1,
      count_if-All-false (executes job.operation_id) s.jobs (
          All-mono (JobIsValid s.owner s.journal) (λ other. executes job.operation_id other ≡ false)
            s.jobs (λ other w. not_executes o s.journal job.operation_id other differs (rw eo at w))
            l.jobs),
    )
  where
    live : (b : Bool) → (b || true) ≡ true
    live b = ground arith

-- After any history of the server, a contended submission that is about to be answered BUSY is of an
-- operation that is not retained, and that no execution of the server is for.
pub decision-busy :
    (events : List Event) (journal : Text → Option OperationState) (k : ℕ) (job : Job)
    → get_elem? (run events (initial journal)).jobs k ≡ some job
    → decision job ≡ some (decided is_busy)
    → ((run events (initial journal)).journal job.operation_id ≡ none)
      × (executing job.operation_id (run events (initial journal)).jobs ≡ 0)
decision-busy events journal k job here busy =
    let s = run events (initial journal) in
    let l = (history-IsValid events journal).leased in
    refused_case s job job.work s.owner job.lease l
      (All-get_elem? (JobIsValid s.owner s.journal) s.jobs k job l.jobs here) refl refl refl
      (decision-IsRefused job busy)

-- After any history, at most one execution is in progress, and at most eight jobs are registered.
pub history-exclusion :
    (events : List Event) (journal : Text → Option OperationState)
    → (count_if is_executing (run events (initial journal)).jobs ≤ 1)
      × (count_if is_live (run events (initial journal)).jobs ≤ connections_max)
history-exclusion events journal =
    let l = (history-IsValid events journal).leased in
    (owner_case (run events (initial journal)).owner l.single, l.registered)
  where
    owner_case : {n : ℕ} (owner : Option Selection) → n ≡ running_of owner → n ≤ 1
    owner_case none e = omega arith
    owner_case (some o) e = omega (arith, bit_le_one o.running)
