-- ===== src/Daemon/Runtime/Invariant.antt =====
-- The invariant of crates/kapsel-daemon/src/server/runtime.rs over every event and every history.
use kapsel.Base.{
  ℕ, suc, ◌≤◌, true, false, Option, none, some, List, [], ◌∷◌, ◌++◌, Text, ◌==◌, nat_eq, list_eq,
  leb, ◌≡◌, refl, inl, inr, Bool-cases, arith, bit, All-snoc, All-mono, count_if, count_if-snoc,
}
use kapsel.Daemon.Runtime.{
  Selection, Lease, execution, reading, probing, Job, Server, connections_max, is_live, holds,
  spawn, registered, select, acquire, try_acquire, submit_free, pin_as, pin_of, upgrade, new_job,
  read_free,
}
use kapsel.Daemon.Runtime.Leases.{LeaseIsHeld, JobIsValid, is_executing, HasHolder, IsValid}

-- A new execution on a free permit.
free-LeaseIsHeld :
    (s : Selection) (lease : Option Lease) → LeaseIsHeld none lease → LeaseIsHeld (some s) lease
free-LeaseIsHeld s none h = tt
free-LeaseIsHeld s (some lease) h = absurd h

acquire-IsValid : (id : Text) (s : Server) → s.owner ≡ none → IsValid s → IsValid (acquire id s)
unfolding acquire spawn registered select
acquire-IsValid id s free v =
    let idle : count_if is_executing s.jobs ≡ 0 = rw free at (v.leased.single) in
    elim (Bool-cases (leb connections_max (count_if is_live s.jobs))) [
      | inl full ↦ rw full (record {
        leased = record {
          jobs = rw free at (v.leased.jobs);
          single = idle;
          published = tt;
          registered = v.leased.registered;
        };
        holder = tt;
      })
      | inr room ↦ rw room (record {
        leased = record {
          jobs =
              All-snoc (JobIsValid (some owner) s.journal) s.jobs job
                (All-mono (JobIsValid s.owner s.journal) (JobIsValid (some owner) s.journal) s.jobs
                  (λ other w. record {
                    held = λ live. free-LeaseIsHeld owner other.lease (rw free at (w.held live));
                    work = w.work;
                  })
                  v.leased.jobs)
                (record { held = λ _. (refl, refl); work = refl });
          single = omega (arith, count_if-snoc is_executing s.jobs job, idle);
          published = refl;
          registered = omega (arith, count_if-snoc is_live s.jobs job, below room);
        };
        holder = held;
      })
    ]
  where
    owner : Selection
    owner = record { generation = s.next_generation; operation_id = id; running = true }

    job : Job
    job = new_job id (some (record { generation = s.next_generation; operation_id = id })) execution

    below :
        leb connections_max (count_if is_live s.jobs) ≡ false
        → suc (count_if is_live s.jobs) ≤ connections_max
    below h = ground arith

    held : HasHolder (some owner) (s.jobs ++ job ∷ [])
    held =
        let one : bit (holds s.next_generation job) ≡ 1 =
          rw (nat_eq.beq_refl s.next_generation) refl in
        omega (arith, count_if-snoc (holds s.next_generation) s.jobs job, one)

pub submit_free-IsValid :
    (id : Text) (publishing : Option Text) (s : Server)
    → IsValid s
    → IsValid (submit_free id publishing s)
unfolding submit_free try_acquire
submit_free-IsValid id (some other) s v = v
submit_free-IsValid id none s v = owner_case s.owner refl
  where
    owner_case : (owner : Option Selection) → s.owner ≡ owner → IsValid (try_acquire id owner s)
    owner_case none e = acquire-IsValid id s e v
    owner_case (some o) e = record {
      leased = record {
        jobs = v.leased.jobs;
        single = v.leased.single;
        published = v.leased.published;
        registered = v.leased.registered;
      };
      holder = v.holder;
    }

-- A probe pins what is selected.
pin-LeaseIsHeld :
    (owner : Option Selection) (selected : Option ℕ)
    → LeaseIsHeld owner (pin_of (upgrade owner selected))
pin-LeaseIsHeld none selected = tt
pin-LeaseIsHeld (some s) none = tt
pin-LeaseIsHeld (some s) (some generation) = elim (Bool-cases (s.generation == generation)) [
  | inl p ↦ rw p (refl, refl)
  | inr q ↦ rw q tt
]

snoc-HasHolder :
    (owner : Option Selection) (jobs : List Job) (job : Job)
    → HasHolder owner jobs
    → HasHolder owner (jobs ++ job ∷ [])
snoc-HasHolder none jobs job h = tt
snoc-HasHolder (some o) jobs job h = omega (arith, count_if-snoc (holds o.generation) jobs job)

pub pin_as-IsValid :
    (publishing : Option Text) (s : Server) → IsValid s → IsValid (pin_as publishing s)
unfolding pin_as spawn
pin_as-IsValid none s v = v
pin_as-IsValid (some id) s v = elim (Bool-cases (leb connections_max (count_if is_live s.jobs))) [
  | inl full ↦ rw full (record {
    leased = record {
      jobs = v.leased.jobs;
      single = v.leased.single;
      published = v.leased.published;
      registered = v.leased.registered;
    };
    holder = v.holder;
  })
  | inr room ↦ rw room (record {
    leased = record {
      jobs =
          All-snoc (JobIsValid s.owner s.journal) s.jobs job v.leased.jobs
            (record { held = λ _. pin-LeaseIsHeld s.owner s.selected; work = tt });
      single = omega (arith, count_if-snoc is_executing s.jobs job, v.leased.single);
      published = v.leased.published;
      registered = omega (arith, count_if-snoc is_live s.jobs job, below room);
    };
    holder = snoc-HasHolder s.owner s.jobs job v.holder;
  })
]
  where
    job : Job
    job = new_job id (pin_of (upgrade s.owner s.selected)) probing

    below :
        leb connections_max (count_if is_live s.jobs) ≡ false
        → suc (count_if is_live s.jobs) ≤ connections_max
    below h = ground arith

pub read_free-IsValid :
    (id : Text) (publishing : Option Text) (s : Server)
    → IsValid s
    → IsValid (read_free id publishing s)
unfolding read_free spawn
read_free-IsValid id (some _) s v = v
read_free-IsValid id none s v = elim (Bool-cases (leb connections_max (count_if is_live s.jobs))) [
  | inl full ↦ rw full v
  | inr room ↦ rw room (record {
    leased = record {
      jobs =
          All-snoc (JobIsValid s.owner s.journal) s.jobs job v.leased.jobs
            (record { held = λ _. tt; work = tt });
      single = omega (arith, count_if-snoc is_executing s.jobs job, v.leased.single);
      published = v.leased.published;
      registered = omega (arith, count_if-snoc is_live s.jobs job, below room);
    };
    holder = snoc-HasHolder s.owner s.jobs job v.holder;
  })
]
  where
    job : Job
    job = new_job id none reading

    below :
        leb connections_max (count_if is_live s.jobs) ≡ false
        → suc (count_if is_live s.jobs) ≤ connections_max
    below h = ground arith
