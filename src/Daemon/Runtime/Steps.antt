-- ===== src/Daemon/Runtime/Steps.antt =====
-- Every step of crates/kapsel-daemon/src/server/runtime.rs keeps the jobs and the selection tied.
use kapsel.Base.{
  ℕ, ◌≤◌, Bool, true, false, not, Option, none, some, List, ◌||◌, Text, ◌==◌, nat_eq, list_eq, ◌≡◌,
  refl, ap, arith, bit, All-set, All-get_elem?, All-mono, count_if, count_if-set, count_if-pos, set,
  get_elem?,
}
use kapsel.Service.Disposition.{ExecutionObservation}
use kapsel.Daemon.Runtime.{
  Selection, Lease, Work, execution, reading, probing, retired, sampled, compared, Job, Server,
  SubmissionAdmission, connections_max, is_retired, is_execution, is_live, with_job, close_job,
  closed_owner, stop_running, first_answer,
}
use kapsel.Daemon.Runtime.Leases.{
  LeaseIsHeld, OwnsLease, WorkIsValid, JobIsValid, is_executing, IsLeased, executing-live,
}

-- The fields that the invariant does not read.
pub other_fields-IsLeased :
    (s : Server) (publishing : Option Text) (stopped : List (Text × ExecutionObservation))
    → IsLeased s
    → IsLeased (record s { publishing = publishing; stopped = stopped })
other_fields-IsLeased s publishing stopped l = record {
  jobs = l.jobs;
  single = l.single;
  published = l.published;
  registered = l.registered;
}

bit_mono : (a b : Bool) → (a ≡ true → b ≡ true) → bit a ≤ bit b
bit_mono true b h = rw (h refl) (omega arith)
bit_mono false b h = omega arith

pub bit_le_one : (b : Bool) → bit b ≤ 1
bit_le_one true = omega arith
bit_le_one false = omega arith

-- A job that goes on under the same lease.
pub changed-IsLeased :
    (s : Server) (k : ℕ) (job : Job) (work : Work) (supervised : Bool)
    (answer : Option SubmissionAdmission)
    → IsLeased s
    → get_elem? s.jobs k ≡ some job
    → ((supervised || not (is_retired work)) ≡ true → is_live job ≡ true)
    → WorkIsValid s.journal job.operation_id job.lease work
    → is_execution work ≡ is_execution job.work
    → IsLeased (with_job k (record job { work = work; supervised = supervised; answer = answer }) s)
changed-IsLeased s k job work supervised answer l e live valid same =
    let job' : Job = record job { work = work; supervised = supervised; answer = answer } in
    let v = All-get_elem? (JobIsValid s.owner s.journal) s.jobs k job l.jobs e in
    record {
      jobs =
          All-set (JobIsValid s.owner s.journal) s.jobs k job' l.jobs
            (record { held = λ h. v.held (live h); work = valid });
      single = omega (arith, count_if-set is_executing s.jobs k job job' e, ap bit same, l.single);
      published = l.published;
      registered = omega (
        arith,
        count_if-set is_live s.jobs k job job' e,
        bit_mono (supervised || not (is_retired work)) (is_live job) live,
        l.registered,
      );
    }

pub advanced-IsLeased :
    (s : Server) (k : ℕ) (job : Job) (work : Work) (answer : Option SubmissionAdmission)
    → IsLeased s
    → get_elem? s.jobs k ≡ some job
    → is_retired work ≡ is_retired job.work
    → WorkIsValid s.journal job.operation_id job.lease work
    → is_execution work ≡ is_execution job.work
    → IsLeased (with_job k (record job { work = work; answer = answer }) s)
advanced-IsLeased s k job work answer l e retires valid same =
    changed-IsLeased s k job work job.supervised answer l e (λ h. rw (← retires) h) valid same

-- The end of an execution.
stopped-LeaseIsHeld :
    (o : Selection) (lease : Option Lease)
    → LeaseIsHeld (some o) lease
    → LeaseIsHeld (some (record o { running = false })) lease
stopped-LeaseIsHeld o none h = tt
stopped-LeaseIsHeld o (some lease) h = h

module _ (s : Server) (k : ℕ) (answer : SubmissionAdmission) (job : Job) (l : IsLeased s)
    (e : get_elem? s.jobs k ≡ some job) where
  closed : Job
  closed = record job { work = retired; answer = first_answer job.answer answer }

  closed-JobIsValid : JobIsValid s.owner s.journal closed
  unfolding closed
  closed-JobIsValid = record {
    held = λ h.
        (All-get_elem? (JobIsValid s.owner s.journal) s.jobs k job l.jobs e).held
          (still job.supervised (is_retired job.work) h);
    work = tt;
  }
    where
      still : (a b : Bool) → (a || false) ≡ true → (a || not b) ≡ true
      still a b h = ground arith

  fewer_live : count_if is_live (set s.jobs k closed) ≤ connections_max
  unfolding closed
  fewer_live = omega (
    arith,
    count_if-set is_live s.jobs k job closed e,
    bit_mono (job.supervised || false) (is_live job) (still job.supervised (is_retired job.work)),
    l.registered,
  )
    where
      still : (a b : Bool) → (a || false) ≡ true → (a || not b) ≡ true
      still a b h = ground arith

  -- The job in the slot was no execution.
  closed-IsLeased :
      is_execution job.work ≡ false → IsLeased (record s { jobs = set s.jobs k closed })
  unfolding closed
  closed-IsLeased no_execution = record {
    jobs = All-set (JobIsValid s.owner s.journal) s.jobs k closed l.jobs closed-JobIsValid;
    single =
        omega
          (arith, count_if-set is_executing s.jobs k job closed e, ap bit no_execution, l.single);
    published = l.published;
    registered = fewer_live;
  }

  -- It was one.
  stopped-IsLeased :
      (owner : Option Selection) (lease : Option Lease)
      → s.owner ≡ owner
      → job.lease ≡ lease
      → is_execution job.work ≡ true
      → OwnsLease job.operation_id lease
      → LeaseIsHeld owner lease
      → IsLeased (record s { jobs = set s.jobs k closed; owner = stop_running lease owner })
  unfolding closed
  stopped-IsLeased owner none eo el exec own h = absurd own
  stopped-IsLeased none (some lease) eo el exec own h = absurd h
  stopped-IsLeased (some o) (some lease) eo el exec own h =
      let same : (o.generation == lease.generation) ≡ true =
        rw (h.0) (nat_eq.beq_refl lease.generation) in
      let running : count_if is_executing s.jobs ≡ bit o.running = rw eo at (l.single) in
      rw same (record {
        jobs =
            All-mono (JobIsValid s.owner s.journal)
              (JobIsValid (some (record o { running = false })) s.journal) (set s.jobs k closed)
              (λ other v. record {
                held = λ live. stopped-LeaseIsHeld o other.lease (rw eo at (v.held live));
                work = v.work;
              })
              (All-set (JobIsValid s.owner s.journal) s.jobs k closed l.jobs closed-JobIsValid);
        single = omega (
          arith,
          count_if-set is_executing s.jobs k job closed e,
          count_if-pos is_executing s.jobs k job e exec,
          ap bit exec,
          bit_le_one o.running,
          running,
        );
        published = rw eo at (l.published);
        registered = fewer_live;
      })

  -- A closure that returns, with the end of its execution if it is one.
  pub close_job-IsLeased : IsLeased (close_job k answer job s)
  unfolding closed
  close_job-IsLeased = work_case job.work refl
    where
      work_case :
          (work : Work)
          → job.work ≡ work
          → IsLeased
              (record s { jobs = set s.jobs k closed; owner = closed_owner work job.lease s.owner })
      work_case execution w =
          let v = All-get_elem? (JobIsValid s.owner s.journal) s.jobs k job l.jobs e in
          let exec : is_execution job.work ≡ true = rw w refl in
          stopped-IsLeased s.owner job.lease refl refl exec (rw w at (v.work))
            (v.held (executing-live job exec))
      work_case probing w = closed-IsLeased (rw w refl)
      work_case retired w = closed-IsLeased (rw w refl)
      work_case reading w = closed-IsLeased (rw w refl)
      work_case (sampled _) w = closed-IsLeased (rw w refl)
      work_case (compared _ _) w = closed-IsLeased (rw w refl)
