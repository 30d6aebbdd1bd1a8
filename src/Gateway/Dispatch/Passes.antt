-- ===== src/Gateway/Dispatch/Passes.antt =====
-- The passes of src/gateway/mod.rs over one operation: every request that is sent is covered by an
-- attempt that the journal retained before it.
use kapsel.Base.{
  Option, none, some, List, ◌∷◌, Text, Result, ok, err, ◌≡◌, ◌≤◌, ◌+◌, refl, arith, Bool-cases, inl,
  inr, if◌then◌else◌, ◌==◌, list_eq, nat_eq,
}
use kapsel.Gateway.Types.{G, AuthorizedRequest, to_adapter_request}
use kapsel.Gateway.Facts.{ValidatedTargetIdentity, ApplyOutcome, to_adapter_target}
use kapsel.Gateway.Journal.Phases.{AuthorizedOperation, ApplyStartedOperation, DispatchPermission}
use kapsel.Gateway.Journal.Store.{Env, World, Dispatch, Act, ◌>>=◌, lift, return, tick}
use kapsel.Gateway.Journal.Writes.{authorized_operation, operation}
use kapsel.Gateway.Journal.Steps.{begin_attempt}
use kapsel.Gateway.Reconcile.{
  apply, apply_reply, into_payload, as_started, dispatch, observe_attempt, with_permission,
  recorded,
}
use kapsel.Gateway.Dispatch.{
  Grows, Grows-IsWithin, IsWithin, sends, attempts, Holds, continue-Holds, Holds-weaken,
}
use kapsel.Gateway.Dispatch.Replace.{Reads, Reads-Grows}
use kapsel.Gateway.Dispatch.Moves.{
  Moves, Covers, Covering, Covering-lift, Covering-bind, Covering-then, Reading, Reading-Covering,
  Growing-Covering,
}
use kapsel.Gateway.Passing.{IsPreorder, IsPassing}
use kapsel.Gateway.Passing.Pass.{observe_attempt-Moves}
use kapsel.Gateway.Dispatch.Lifecycle.{authorized_operation-Reading}
use kapsel.Gateway.Dispatch.Transitions.{
  mark_not_attempted-Growing, insert_requested-Growing, mark_authorized-Growing,
  commit_receipt-Growing, record_apply_outcome-Growing, freeze_observation-Growing, Fresh, Begun,
  begin_attempt-Holds,
}

-- Nothing was sent for the operation of a permission, and its attempt is retained.
record Ready (permission : DispatchPermission) (w : World) : Type 0 where
  within : IsWithin w
  unsent : sends permission.request.operation_id w.sent ≡ 0
  retained : attempts permission.request.operation_id w.rows ≡ 1

Fresh-Ready :
    (e : Env) (w v : World) (permission : DispatchPermission)
    → IsWithin w
    → Fresh e w v permission
    → Ready permission v
unfolding IsWithin
Fresh-Ready e w v permission h f = record {
  within = Grows-IsWithin w v f.grows h;
  unsent =
      let le = h permission.request.operation_id in
      let none : sends permission.request.operation_id w.sent ≡ 0 = omega (arith, le, f.before) in
      rw f.grows.same_sent none;
  retained = f.after;
}

Reads-Ready :
    (w v : World) (permission : DispatchPermission)
    → Reads w v
    → Ready permission w
    → Ready permission v
Reads-Ready w v permission r h = record {
  within = Grows-IsWithin w v (Reads-Grows w v r) h.within;
  unsent = rw r.sent h.unsent;
  retained = rw r.rows h.retained;
}

Reading-Ready :
    {A : Type 0} (m : Act A) (permission : DispatchPermission) (w : World)
    → Reading m
    → Ready permission w
    → Holds IsWithin (λ _ v. Ready permission v) (m w)
unfolding Moves
Reading-Ready m permission w h r =
    Holds-weaken (Reads w) IsWithin (λ _ v. Reads w v) (λ _ v. Ready permission v) (m w)
      (λ v k. (Reads-Ready w v permission k r).within) (λ _ v k. Reads-Ready w v permission k r)
      (h w)

sends-payload :
    (permission : DispatchPermission) (i : Text) (sent : List Dispatch)
    → sends i (into_payload permission ∷ sent)
      ≡ (if permission.request.operation_id == i then 1 else 0) + sends i sent
unfolding sends to_adapter_request
sends-payload permission i sent = refl

payload-covered :
    (permission : DispatchPermission) (w : World) (i : Text)
    → Ready permission w
    → IsWithin w
    → sends i (into_payload permission ∷ w.sent) ≤ attempts i w.rows
unfolding IsWithin
payload-covered permission w i r within =
    let step = sends-payload permission i w.sent in
    elim (Bool-cases (permission.request.operation_id == i)) [
      | inl p ↦
          let e = list_eq.beq_sound permission.request.operation_id i p in
          let unsent : sends i w.sent ≡ 0 = rw e at r.unsent in
          let retained : attempts i w.rows ≡ 1 = rw e at r.retained in
          rw step (rw p (omega (arith, unsent, retained)))
      | inr q ↦ rw step (rw q (omega (arith, within i)))
    ]

-- The one request of a permission.
sent-IsWithin :
    (permission : DispatchPermission) (w v : World)
    → Ready permission w
    → v.rows ≡ w.rows
    → v.sent ≡ into_payload permission ∷ w.sent
    → IsWithin v
unfolding IsWithin
sent-IsWithin permission w v r hr hs i = rw hr (rw hs (payload-covered permission w i r r.within))

apply-Holds :
    (e : Env) (permission : DispatchPermission) (w : World)
    → Ready permission w
    → Holds IsWithin (λ _ v. IsWithin v) (apply e permission w)
unfolding apply tick
apply-Holds e permission w r =
    reply_case (
      e.apply w.clock (to_adapter_request permission.request) (to_adapter_target permission.target))
  where
    v : World
    v = record (tick w) { sent = into_payload permission ∷ w.sent }

    reply_case :
        (reply : Option ApplyOutcome) → Holds IsWithin (λ _ u. IsWithin u) (apply_reply reply, v)
    reply_case none = sent-IsWithin permission w v r refl refl
    reply_case (some outcome) = sent-IsWithin permission w v r refl refl

Covers-IsPreorder : IsPreorder Covers
Covers-IsPreorder = record {
  trans = λ u v w f g h. g (f h);
  reads = λ w v r. Grows-IsWithin w v (Reads-Grows w v r);
}

under-Covers :
    {E A : Type 0} (w : World) (out : Result E A × World)
    → (IsWithin w → Holds IsWithin (λ _ v. IsWithin v) out)
    → Holds (Covers w) (λ _ v. Covers w v) out
under-Covers w (ok value, v) h = h
under-Covers w (err error, v) h = h

module _ (e : Env) where
  lookup : (a : AuthorizedRequest) → Covering (authorized_operation e a)
  lookup a = Reading-Covering _ (authorized_operation-Reading e a)

  observe_attempt-Covering :
      (a : AuthorizedRequest) (attempted : ApplyStartedOperation)
      → Covering (observe_attempt e a attempted)
  observe_attempt-Covering =
      observe_attempt-Moves Covers Covers-IsPreorder e (λ operation observation.
        Growing-Covering _ (freeze_observation-Growing e operation observation))

  -- What follows the request.
  recorded-Covering :
      (a : AuthorizedRequest) (started : ApplyStartedOperation) (outcome : ApplyOutcome)
      → Covering (recorded e a started outcome)
  recorded-Covering a started outcome = Covering-bind _ _ (lookup a) λ after.
      Covering-bind _ _ (Covering-lift _) λ _.
        Covering-then _ _ (Growing-Covering _ (record_apply_outcome-Growing e started outcome))
          (Covering-bind _ _ (lookup a) λ found. Covering-lift _)

  started-Holds :
      (a : AuthorizedRequest) (permission : DispatchPermission) (out : G ApplyStartedOperation)
      (w : World)
      → Ready permission w
      → Holds IsWithin
          (λ _ v. IsWithin v)
          ((lift out >>= λ started. apply e permission >>= recorded e a started) w)
  unfolding ◌>>=◌ lift Moves
  started-Holds a permission (err error) w r = r.within
  started-Holds a permission (ok started) w r =
      continue-Holds IsWithin (λ _ v. IsWithin v) (λ _ v. IsWithin v) (apply e permission w) _
        (apply-Holds e permission w r)
        (λ outcome v h.
          Holds-weaken (Covers v) IsWithin (λ _ u. Covers v u) (λ _ u. IsWithin u)
            (recorded e a started outcome v) (λ u k. k h) (λ _ u k. k h)
            (recorded-Covering a started outcome v))

  dispatch-Holds :
      (a : AuthorizedRequest) (permission : DispatchPermission) (w : World)
      → Ready permission w
      → Holds IsWithin (λ _ v. IsWithin v) (dispatch e a permission w)
  unfolding dispatch ◌>>=◌
  dispatch-Holds a permission w r =
      continue-Holds IsWithin (λ _ v. Ready permission v) (λ _ v. IsWithin v)
        (authorized_operation e a w) _
        (Reading-Ready _ permission w (authorized_operation-Reading e a) r)
        (λ found v k. started-Holds a permission (as_started e found) v k)

  with_permission-Holds :
      (a : AuthorizedRequest) (w v : World) (permission : Option DispatchPermission)
      → IsWithin w
      → Begun e w permission v
      → Holds IsWithin (λ _ u. IsWithin u) (with_permission e a permission v)
  unfolding with_permission return ◌>>=◌ Moves
  with_permission-Holds a w v none h b = Grows-IsWithin w v b h
  with_permission-Holds a w v (some permission) h b =
      continue-Holds IsWithin (λ _ u. IsWithin u) (λ _ u. IsWithin u) (dispatch e a permission v) _
        (dispatch-Holds a permission v (Fresh-Ready e w v permission h b))
        (λ attempted u k.
          Holds-weaken (Covers u) IsWithin (λ _ x. Covers u x) (λ _ x. IsWithin x)
            (observe_attempt e a attempted u) (λ x c. c k) (λ _ x c. c k)
            (observe_attempt-Covering a attempted u))

  begun-Holds :
      (a : AuthorizedRequest) (operation : AuthorizedOperation) (target : ValidatedTargetIdentity)
      (w : World)
      → IsWithin w
      → Holds IsWithin
          (λ _ v. IsWithin v)
          ((begin_attempt e operation target >>= with_permission e a) w)
  unfolding ◌>>=◌
  begun-Holds a operation target w h =
      continue-Holds IsWithin (λ permission v. Begun e w permission v) (λ _ v. IsWithin v)
        (begin_attempt e operation target w) _
        (Holds-weaken (Grows w) IsWithin (λ permission v. Begun e w permission v)
          (λ permission v. Begun e w permission v) (begin_attempt e operation target w)
          (λ v g. Grows-IsWithin w v g h) (λ _ _ b. b) (begin_attempt-Holds e operation target w))
        (λ permission v b. with_permission-Holds a w v permission h b)

  attempt-Covering :
      (a : AuthorizedRequest) (operation : AuthorizedOperation) (target : ValidatedTargetIdentity)
      → Covering (begin_attempt e operation target >>= with_permission e a)
  unfolding Moves
  attempt-Covering a operation target w =
      under-Covers w ((begin_attempt e operation target >>= with_permission e a) w)
        (begun-Holds a operation target w)

-- Every step of the gateway keeps every request covered.
pub Covers-IsPassing : IsPassing Covers
Covers-IsPassing = record {
  order = Covers-IsPreorder;
  inserts = λ e a. Growing-Covering _ (insert_requested-Growing e a);
  authorizes = λ e operation a. Growing-Covering _ (mark_authorized-Growing e operation a);
  reject = λ e operation rejection.
      Growing-Covering _ (mark_not_attempted-Growing e operation rejection);
  attempt = attempt-Covering;
  freeze = λ e operation observation.
      Growing-Covering _ (freeze_observation-Growing e operation observation);
  commits = λ e operation kept. Growing-Covering _ (commit_receipt-Growing e operation kept);
}
