-- ===== src/Gateway/Rounds/Enough.antt =====
-- The fuel of the loop of src/gateway/mod.rs is enough: it returns what the source returns.
use kapsel.Base.{
  ℕ, suc, zero, Bool, true, false, Option, none, some, List, Bytes, Text, ok, err, ◌≡◌, ◌≤◌, ◌+◌,
  ◌⊎◌, inl, inr, from-bind, refl, arith, is_some,
}
use kapsel.Authority.Grant.{AuthorizationTrust}
use kapsel.Gateway.Types.{
  G, OperationState, not_attempted, finalized, bind, try_from_request, AuthorizedRequest,
  SetDeploymentImageRequest, ReconciliationError, submission, advancement, completion,
}
use kapsel.Gateway.Custody.{verify_grant_with, bind_authorization}
use kapsel.Gateway.Journal.Phases.{
  LoadedOperation, requested_phase, authorized_phase, not_attempted_phase, apply_started_phase,
  receiver_observed_phase, finalized_phase, loaded_state, ReceiverObservedOperation,
}
use kapsel.Gateway.Journal.Store.{find, Env, World, Run, ◌>>=◌, lift, return, on_error}
use kapsel.Gateway.Journal.Writes.{authorized_operation}
use kapsel.Gateway.Reconcile.{ReceiptSettings, Outcome, out_of_fuel, finished, submit_authorized}
use kapsel.Gateway.Admission.{
  run_adapter, run_signer, advance, proceed, round, reconcile_loop, reconcile_locked_with_adapter,
}
use kapsel.Gateway.Dispatch.Decoded.{try_from_request-id}
use kapsel.Gateway.Dispatch.Replace.{Reads}
use kapsel.Gateway.Rounds.{
  rank, Below, Ends, Ends-any, Ends-bind, Ends-then, Ends-weaken, Ends-convert,
}
use kapsel.Gateway.Rounds.Found.{Found, FoundIn, Found-rank, authorized_operation-FoundIn}
use kapsel.Gateway.Rounds.Advance.{Done}
use kapsel.Gateway.Rounds.Passes.{run_locked_operation_once-Done, finalize-Done, IsRunnable}
use kapsel.Gateway.Rounds.Submission.{submit_authorized-Below}

-- A turn advanced, and left the row of at most this rank.
abbrev Advanced : Text → ℕ → Bool → World → Type 0
Advanced id n true w = Below id n w
Advanced id n false w = ⊥

-- The loop returned: there is no row of the identity, or the operation that its row decodes to is
-- terminal.
abbrev pub Settled : Env → Text → Outcome → World → Type 0
Settled e id out_of_fuel w = ⊥
Settled e id (finished none) w = find id w.rows ≡ none
Settled e id (finished (some loaded)) w =
    Found e id loaded w
    × ((loaded_state loaded ≡ not_attempted) ⊎ (loaded_state loaded ≡ finalized))

rank-bound : (state : OperationState) → rank state ≤ 3
unfolding rank
rank-bound OperationState.requested = omega arith
rank-bound OperationState.authorized = omega arith
rank-bound OperationState.not_attempted = omega arith
rank-bound OperationState.apply_started = omega arith
rank-bound OperationState.receiver_observed = omega arith
rank-bound OperationState.finalized = omega arith

module _ (e : Env) (authorities : List AuthorizationTrust) (request : SetDeploymentImageRequest)
    (signed_grant : Bytes) (adapter : Bool) (settings : Option ReceiptSettings)
    (a : AuthorizedRequest) where
  abbrev Turned : ℕ → Bool → World → Type 0
  Turned n advanced w = Advanced a.request.operation_id n advanced w

  abbrev Returned : Outcome → World → Type 0
  Returned outcome w = Settled e a.request.operation_id outcome w

  is_some-Turned :
      (n : ℕ) (state : Option OperationState) (w : World)
      → Done e n a.request.operation_id state w
      → Turned n (is_some state) w
  is_some-Turned n none w h = h
  is_some-Turned n (some s) w h = h

  run_adapter-Turned :
      (configured : Bool) (loaded : LoadedOperation) (w : World)
      → IsRunnable e loaded
      → Found e a.request.operation_id loaded w
      → Ends
          (Turned 1)
          (run_adapter e authorities request signed_grant adapter settings a configured w)
  unfolding lift return
  run_adapter-Turned false loaded w runs f = tt
  run_adapter-Turned true loaded w runs f =
      Ends-bind (λ state v. Done e 1 a.request.operation_id state v) (Turned 1) _ _ w
        (Ends-convert (λ state v. Done e 1 a.request.operation_id state v) advancement _
          (run_locked_operation_once-Done e a loaded w runs f))
        (is_some-Turned 1)

  run_signer-Turned :
      (operation : ReceiverObservedOperation) (keys : Option ReceiptSettings) (w : World)
      → Found e a.request.operation_id (receiver_observed_phase operation) w
      → Ends (Turned 0) (
          run_signer e authorities request signed_grant adapter settings
            (receiver_observed_phase operation)
            keys
            w)
  unfolding lift return
  run_signer-Turned operation none w f = tt
  run_signer-Turned operation (some keys) w f =
      Ends-bind (λ state v. Done e 0 a.request.operation_id state v) (Turned 0) _ _ w
        (Ends-convert (λ state v. Done e 0 a.request.operation_id state v) (λ _. completion) _
          (finalize-Done e a.request.operation_id operation keys w f))
        (is_some-Turned 0)

  proceed-Returned :
      (next : Run ReconciliationError Outcome) (n : ℕ) (advanced : Bool) (w : World)
      → ((v : World) → Below a.request.operation_id n v → Ends Returned (next v))
      → Turned n advanced w
      → Ends Returned (proceed e authorities request signed_grant adapter settings next advanced w)
  proceed-Returned next n true w h k = h w k
  proceed-Returned next n false w h k = absurd k

  module _ (bound : bind_authorization e.crypto authorities request signed_grant ≡ ok a) where
    submit-Turned :
        (w : World)
        → Ends (Turned 2) (
            (on_error submission (submit_authorized e authorities request signed_grant) >>= λ _.
            return true)
              w)
    unfolding return
    submit-Turned w =
        Ends-bind (λ _ v. Below a.request.operation_id 2 v) (Turned 2) _ _ w
          (Ends-convert (λ _ v. Below a.request.operation_id 2 v) submission _
            (submit_authorized-Below e authorities request signed_grant a w bound))
          λ _ v h. h

    -- A turn on a phase that is not terminal, and what follows it.
    module _ (limit : ℕ) (next : Run ReconciliationError Outcome)
        (later : (n : ℕ)
          → n + 1 ≤ limit
          → (v : World) → Below a.request.operation_id n v
          → Ends Returned (next v)) where
      Turned-Returned :
          (n : ℕ) (turn : Run ReconciliationError Bool) (w : World)
          → n + 1 ≤ limit
          → Ends (Turned n) (turn w)
          → Ends Returned
              ((turn >>= proceed e authorities request signed_grant adapter settings next) w)
      Turned-Returned n turn w le h =
          Ends-bind (Turned n) Returned turn _ w h
            λ advanced v k. proceed-Returned next n advanced v (later n le) k

      round-Returned :
          (found : Option LoadedOperation) (w : World)
          → FoundIn e a.request.operation_id found w
          → Below a.request.operation_id limit w
          → Ends Returned (round e authorities request signed_grant adapter settings a next found w)
      unfolding round advance return rank loaded_state
      round-Returned none w f h = f
      round-Returned (some (not_attempted_phase _)) w f h = (f, inl refl)
      round-Returned (some (finalized_phase _)) w f h = (f, inr refl)
      round-Returned (some (requested_phase operation)) w f h =
          Turned-Returned 2 _ w
            (omega
              (arith, Found-rank e a.request.operation_id (requested_phase operation) limit w f h))
            (submit-Turned w)
      round-Returned (some (authorized_phase operation)) w f h =
          Turned-Returned 1 _ w
            (omega
              (arith, Found-rank e a.request.operation_id (authorized_phase operation) limit w f h))
            (run_adapter-Turned adapter (authorized_phase operation) w tt f)
      round-Returned (some (apply_started_phase operation)) w f h =
          Turned-Returned 1 _ w
            (omega (
              arith,
              Found-rank e a.request.operation_id (apply_started_phase operation) limit w f h,
            ))
            (run_adapter-Turned adapter (apply_started_phase operation) w tt f)
      round-Returned (some (receiver_observed_phase operation)) w f h =
          Turned-Returned 0 _ w
            (omega (
              arith,
              Found-rank e a.request.operation_id (receiver_observed_phase operation) limit w f h,
            ))
            (run_signer-Turned operation settings w f)

    lookup-FoundIn :
        (limit : ℕ) (w : World)
        → Below a.request.operation_id limit w
        → Ends
            (λ found v.
              FoundIn e a.request.operation_id found v × Below a.request.operation_id limit v)
            (authorized_operation e a w)
    lookup-FoundIn limit w h =
        Ends-weaken (λ found v. FoundIn e a.request.operation_id found v × Reads w v) _
          (authorized_operation e a w) (authorized_operation-FoundIn e a w)
          λ found v (f, r). (f, rw r.rows h)

    reconcile_loop-Returned :
        (fuel n : ℕ)
        → n + 1 ≤ fuel
        → (w : World) → Below a.request.operation_id n w
        → Ends Returned
            (reconcile_loop e authorities request signed_grant adapter settings fuel a w)
    unfolding reconcile_loop
    reconcile_loop-Returned zero n le w h = absurd (omega (arith, le))
    reconcile_loop-Returned (suc fuel) n le w h =
        let Q : Option LoadedOperation → World → Type 0 =
          λ found v. FoundIn e a.request.operation_id found v × Below a.request.operation_id n v in
        Ends-bind Q Returned _ _ w (Ends-convert Q advancement _ (lookup-FoundIn n w h))
          λ found v (f, k).
            round-Returned fuel _ (reconcile_loop-Returned fuel) found v f
              (λ r state p q. omega (arith, k r state p q, le))

-- A grant is bound to the operation that was asked for.
bind_authorization-id :
    (e : Env) (authorities : List AuthorizationTrust) (request : SetDeploymentImageRequest)
    (signed_grant : Bytes) (a : AuthorizedRequest)
    → bind_authorization e.crypto authorities request signed_grant ≡ ok a
    → a.request.operation_id ≡ request.operation_id
unfolding bind_authorization bind
bind_authorization-id e authorities request signed_grant a h =
    from-bind (verify_grant_with e.crypto authorities signed_grant) _ h λ verified _ h1.
      from-bind (try_from_request request) _ h1 λ valid k h2.
        let id = try_from_request-id request valid k in
        let same : a.request.operation_id ≡ valid.operation_id = ground arith in cc (id, same)

Settled-moved :
    (e : Env) (i j : Text) (outcome : Outcome) (w : World)
    → i ≡ j
    → Settled e i outcome w
    → Settled e j outcome w
Settled-moved e i j outcome w same h = rw same at h

-- Whatever the journal, the adapter and the clock do, a reconciliation returns: an error, or no operation when
-- the journal retains no row of the requested identity, or the operation that the row of that identity
-- decodes to in the end, which is not attempted or finalized. It never runs out of its four rounds.
pub reconcile_locked_with_adapter-Settled :
    (e : Env) (authorities : List AuthorizationTrust) (request : SetDeploymentImageRequest)
    (signed_grant : Bytes) (adapter : Bool) (settings : Option ReceiptSettings) (w : World)
    → Ends
        (Settled e request.operation_id)
        (reconcile_locked_with_adapter e authorities request signed_grant adapter settings w)
unfolding reconcile_locked_with_adapter lift
reconcile_locked_with_adapter-Settled e authorities request signed_grant adapter settings w =
    Ends-then (λ _ _. Unit {0}) (Settled e request.operation_id) _ _ w (Ends-any _)
      λ v _.
        Ends-bind (λ a _. bind_authorization e.crypto authorities request signed_grant ≡ ok a)
          (Settled e request.operation_id) _ _ v
          (bound_case (bind_authorization e.crypto authorities request signed_grant) v)
          λ a u bound.
            Ends-weaken (Settled e a.request.operation_id) (Settled e request.operation_id) _
              (reconcile_loop-Returned e authorities request signed_grant adapter settings a bound 4
                3 (omega arith) u (λ r state _ _. rank-bound state))
              λ outcome t.
                Settled-moved e a.request.operation_id request.operation_id outcome t
                  (bind_authorization-id e authorities request signed_grant a bound)
  where
    bound_case :
        (out : G AuthorizedRequest) (v : World)
        → Ends (λ a _. out ≡ ok a) (on_error advancement (lift out) v)
    bound_case (ok a) v = refl
    bound_case (err _) v = tt
