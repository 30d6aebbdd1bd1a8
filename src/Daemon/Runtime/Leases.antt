-- ===== src/Daemon/Runtime/Leases.antt =====
-- What ties the jobs of crates/kapsel-daemon/src/server/runtime.rs to the selection that holds the
-- permit, and what its drop with the last lease keeps.
use kapsel.Base.{
  ℕ, ◌≤◌, Bool, true, false, not, Option, none, some, List, ◌||◌, Text, Result, ok, ◌==◌, nat_eq,
  list_eq, ◌≡◌, refl, ◌⊎◌, inl, inr, Bool-cases, arith, bit, All, All-mono, All-both,
  All-count_if_zero, count_if, count_if_mono,
}
use kapsel.Gateway.Types.{OperationState}
use kapsel.Service.Disposition.{ServiceError}
use kapsel.Daemon.Runtime.{
  Selection, Lease, Work, execution, reading, probing, retired, sampled, compared, Job, Server,
  connections_max, is_retired, is_execution, is_live, leases, holds, pinned_matches, settle,
  settle_owner,
}

-- A lease keeps its selection alive.
abbrev pub LeaseIsHeld : Option Selection → Option Lease → Type 0
LeaseIsHeld owner none = Unit {0}
LeaseIsHeld none (some lease) = ⊥
LeaseIsHeld (some s) (some lease) =
    (s.generation ≡ lease.generation) × (s.operation_id ≡ lease.operation_id)

-- An execution holds the lease of its own selection.
abbrev pub OwnsLease : Text → Option Lease → Type 0
OwnsLease id none = ⊥
OwnsLease id (some lease) = lease.operation_id ≡ id

-- An absence that was read while another operation was pinned still stands.
abbrev pub IsAbsent :
    (Text → Option OperationState)
    → Text
    → Option Lease
    → Result ServiceError (Option OperationState)
    → Type 0
IsAbsent journal id lease retained =
    retained ≡ ok none → pinned_matches id lease ≡ some false → journal id ≡ none

abbrev pub WorkIsValid : (Text → Option OperationState) → Text → Option Lease → Work → Type 0
WorkIsValid journal id lease execution = OwnsLease id lease
WorkIsValid journal id lease probing = Unit {0}
WorkIsValid journal id lease retired = Unit {0}
WorkIsValid journal id lease reading = Unit {0}
WorkIsValid journal id lease (sampled retained) = IsAbsent journal id lease retained
WorkIsValid journal id lease (compared retained current) = IsAbsent journal id lease retained

pub record JobIsValid (owner : Option Selection) (journal : Text → Option OperationState)
    (job : Job) : Type 0 where
  pub held : is_live job ≡ true → LeaseIsHeld owner job.lease
  pub work : WorkIsValid journal job.operation_id job.lease job.work

abbrev pub is_executing : Job → Bool
is_executing job = is_execution job.work

abbrev pub running_of : Option Selection → ℕ
running_of none = 0
running_of (some s) = bit s.running

abbrev pub IsPublished : Option Selection → Option ℕ → Type 0
IsPublished none selected = Unit {0}
IsPublished (some s) selected = selected ≡ some s.generation

abbrev pub HasHolder : Option Selection → List Job → Type 0
HasHolder none jobs = Unit {0}
HasHolder (some s) jobs = 1 ≤ count_if (holds s.generation) jobs

-- What holds also between the last drop of a lease and that of the selection.
pub record IsLeased (s : Server) : Type 0 where
  pub jobs : All (JobIsValid s.owner s.journal) s.jobs
  pub single : count_if is_executing s.jobs ≡ running_of s.owner
  pub published : IsPublished s.owner s.selected
  pub registered : count_if is_live s.jobs ≤ connections_max

pub record IsValid (s : Server) : Type 0 where
  pub leased : IsLeased s
  pub holder : HasHolder s.owner s.jobs

pub executing-live : (job : Job) → is_executing job ≡ true → is_live job ≡ true
executing-live job h = live_case job.supervised job.work h
  where
    live_case :
        (supervised : Bool) (work : Work)
        → is_execution work ≡ true
        → (supervised || (not (is_retired work))) ≡ true
    live_case supervised work h' = ground arith

-- The lease of a live job is that of the live selection.
pub held-leases :
    (s : Selection) (lease : Option Lease)
    → LeaseIsHeld (some s) lease
    → (lease ≡ none) ⊎ (leases s.generation lease ≡ true)
held-leases s none h = inl refl
held-leases s (some lease) h = inr (rw (h.0) (nat_eq.beq_refl lease.generation))

pub live-holds :
    (s : Selection) (lease : Lease) (job : Job)
    → job.lease ≡ some lease
    → is_live job ≡ true
    → LeaseIsHeld (some s) (some lease)
    → holds s.generation job ≡ true
live-holds s lease job e live h = rw live (rw e (rw (h.0) (nat_eq.beq_refl lease.generation)))

-- An execution holds the live selection.
pub executing-holds :
    (s : Selection) (journal : Text → Option OperationState) (job : Job)
    → JobIsValid (some s) journal job
    → is_executing job ≡ true
    → holds s.generation job ≡ true
executing-holds s journal job v h = lease_case job.lease refl (own_case job.work h v.work)
  where
    own_case :
        (work : Work)
        → is_execution work ≡ true
        → WorkIsValid journal job.operation_id job.lease work
        → OwnsLease job.operation_id job.lease
    own_case execution h' w = w
    own_case probing h' w = cc h'
    own_case retired h' w = cc h'
    own_case reading h' w = cc h'
    own_case (sampled _) h' w = cc h'
    own_case (compared _ _) h' w = cc h'

    lease_case :
        (lease : Option Lease)
        → job.lease ≡ lease
        → OwnsLease job.operation_id lease
        → holds s.generation job ≡ true
    lease_case none e own = absurd own
    lease_case (some lease) e own =
        let live = executing-live job h in live-holds s lease job e live (rw e at (v.held live))

-- Nothing that is live holds a selection whose last lease was dropped.
freed-JobIsValid :
    (s : Selection) (journal : Text → Option OperationState) (job : Job)
    → JobIsValid (some s) journal job × (holds s.generation job ≡ false)
    → JobIsValid none journal job
freed-JobIsValid s journal job (v, free) = record {
  held = λ live. lease_case job.lease refl live (v.held live);
  work = v.work;
}
  where
    lease_case :
        (lease : Option Lease)
        → job.lease ≡ lease
        → is_live job ≡ true
        → LeaseIsHeld (some s) job.lease
        → LeaseIsHeld none lease
    lease_case none e live h = tt
    lease_case (some lease) e live h = cc (free, live-holds s lease job e live (rw e at h))

settle_owner-IsValid :
    (owner : Option Selection) (s : Server)
    → IsLeased (record s { owner = owner })
    → IsValid (record s { owner = settle_owner owner s.jobs })
settle_owner-IsValid none s l = record { leased = l; holder = tt }
settle_owner-IsValid (some o) s l = elim (Bool-cases (count_if (holds o.generation) s.jobs == 0)) [
  | inr q ↦ rw q (record { leased = l; holder = positive q })
  | inl p ↦ rw p (record { leased = freed (nat_eq.beq_sound _ _ p); holder = tt })
]
  where
    positive :
        (count_if (holds o.generation) s.jobs == 0) ≡ false
        → 1 ≤ count_if (holds o.generation) s.jobs
    positive q = ground arith

    freed : count_if (holds o.generation) s.jobs ≡ 0 → IsLeased (record s { owner = none })
    freed e =
        let fewer = count_if_mono is_executing (holds o.generation) s.jobs (
          All-mono (JobIsValid (some o) s.journal)
            (λ job. is_executing job ≡ true → holds o.generation job ≡ true) s.jobs
            (executing-holds o s.journal) l.jobs) in
        record {
          jobs =
              All-mono (λ job. JobIsValid (some o) s.journal job × (holds o.generation job ≡ false))
                (JobIsValid none s.journal) s.jobs (freed-JobIsValid o s.journal)
                (All-both (JobIsValid (some o) s.journal) (λ job. holds o.generation job ≡ false)
                  s.jobs l.jobs (All-count_if_zero (holds o.generation) s.jobs e));
          single = omega (arith, fewer, e);
          published = tt;
          registered = l.registered;
        }

-- A selection is live exactly as long as a lease of it.
pub settle-IsValid : (s : Server) → IsLeased s → IsValid (settle s)
unfolding settle
settle-IsValid s l = settle_owner-IsValid s.owner s l
