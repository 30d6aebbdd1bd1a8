-- ===== src/Gateway/Passing/Capacity.antt =====
-- The admission bound of src/gateway/journal/capacity.rs over any history of entries.
use kapsel.Base.{List, Option, none, some, ok, err, ◌≤◌}
use kapsel.Gateway.Types.{G, AuthorizedRequest}
use kapsel.Gateway.Journal.Record.{Record}
use kapsel.Gateway.Journal.Phases.{DispatchPermission}
use kapsel.Gateway.Journal.Store.{Env, World, replace, tick, identity_capacity}
use kapsel.Gateway.Journal.Steps.{insert_requested, requested_record}
use kapsel.Gateway.Journal.Capacity.{retained, world_after, replace-capacity}
use kapsel.Gateway.Reconcile.{apply}
use kapsel.Gateway.Dispatch.{Holds}
use kapsel.Gateway.Dispatch.Moves.{Moves}
use kapsel.Gateway.Passing.{IsPreorder}
use kapsel.Gateway.Passing.Pass.{apply-Moves}
use kapsel.Gateway.Passing.Writing.{IsWriting, IsWriting-IsPassing}
use kapsel.Gateway.Passing.Entry.{Pass, history, history-Moves}

-- The tables stay within the capacity where they were within it.
abbrev Bounded : World → World → Type 0
Bounded w v = retained w ≤ identity_capacity → retained v ≤ identity_capacity

Bounded-IsPreorder : IsPreorder Bounded
Bounded-IsPreorder = record {
  trans = λ u v w f g h. g (f h);
  reads = λ w v r h. rw r.rows (rw r.git h);
}

after-Bounded :
    {A : Type 0} (w : World) (out : G A × World)
    → Bounded w (world_after out)
    → Holds (Bounded w) (λ _ v. Bounded w v) out
after-Bounded w (ok value, v) h = h
after-Bounded w (err error, v) h = h

replace-Bounded :
    (e : Env) (expected : Option Record) (next : Record) (w : World)
    → Holds (Bounded w) (λ _ v. Bounded w v) (replace e expected next w)
replace-Bounded e expected next w =
    after-Bounded w (replace e expected next w) (replace-capacity e expected next w)

apply-Bounded : (e : Env) (permission : DispatchPermission) → Moves Bounded (apply e permission)
unfolding tick
apply-Bounded = apply-Moves Bounded (λ w sent h. h)

insert_requested-Bounded : (e : Env) (a : AuthorizedRequest) → Moves Bounded (insert_requested e a)
unfolding Moves insert_requested
insert_requested-Bounded e a w = replace-Bounded e none (requested_record a) w

Bounded-IsWriting : IsWriting Bounded
Bounded-IsWriting = record {
  order = Bounded-IsPreorder;
  inserts = insert_requested-Bounded;
  applies = apply-Bounded;
  writes = λ e id expected w v r next t _ _ _ _. replace-Bounded e (some r) next v;
}

-- No history of passes, submissions and restarts, with any failures, lost commits and lost
-- acknowledgements, makes the two tables retain more than 504 identities if they retained no more before.
pub history-capacity :
    (passes : List Pass) (w : World)
    → retained w ≤ identity_capacity
    → retained (history passes w) ≤ identity_capacity
history-capacity passes w =
    history-Moves Bounded (IsWriting-IsPassing Bounded Bounded-IsWriting) passes w
