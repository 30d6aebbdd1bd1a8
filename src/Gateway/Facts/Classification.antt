-- ===== src/Gateway/Facts/Classification.antt =====
-- What each result of the classification says of the observation.
use kapsel.Base.{
  text_refl, if◌then◌else◌, ℤ, pos, Bool, true, false, Option, none, some, Text, text, ◌≡◌, ◌⊎◌,
  ◌↔◌, refl, sym, ◌∙◌, arith, ◌==◌, nat_eq, int_eq, list_eq, option_eq, is_some, is_some_and, leb_ℤ,
  ◌&&◌, inl, inr,
}
use kapsel.Gateway.Types.{succeeded, failed, unknown, ValidatedRequest}
use kapsel.Gateway.Facts.{
  ReceiverObservation, ApplyOutcome, classify, requested_generation_for, available_condition,
  progress_deadline_exceeded,
}

-- The receiver runs the requested image under the operation's marker, is the object that was
-- written, and has observed the generation that the write produced.
pub record IsEstablished (o : ReceiverObservation) (request : ValidatedRequest)
    (outcome : ApplyOutcome) : Type 0 where
  pub uid : Text
  pub generation : ℤ
  pub observed : ℤ
  pub marker : o.operation_marker ≡ some request.operation_id
  pub image : o.image ≡ some request.immutable_image
  pub written : outcome.deployment_uid ≡ some uid
  pub receiver : o.deployment_uid ≡ some uid
  pub current : o.current_generation ≡ some generation
  pub requested_lem :
      (outcome.requested_generation ≡ none) ⊎ (outcome.requested_generation ≡ some generation)
  pub observed_lem : o.observed_generation ≡ some observed
  pub reached : leb_ℤ generation observed ≡ true

pub record HasFailed (o : ReceiverObservation) : Type 0 where
  pub condition : o.rollout_condition_type ≡ some (text "Progressing")
  pub status : o.rollout_condition_status ≡ some (text "False")
  pub reason : o.rollout_condition_reason ≡ some (text "ProgressDeadlineExceeded")

pub record IsAvailable (o : ReceiverObservation) : Type 0 where
  pub replicas : ℤ
  pub desired : o.desired_replicas ≡ some replicas
  pub updated : o.updated_replicas ≡ some replicas
  pub available : o.available_replicas ≡ some replicas
  pub unavailable : o.unavailable_replicas ≡ some (pos 0)
  pub condition : o.rollout_condition_type ≡ some (text "Available")
  pub status : o.rollout_condition_status ≡ some (text "True")

abbrev established : ReceiverObservation → ValidatedRequest → ApplyOutcome → Bool
established o request outcome =
    is_some_and (requested_generation_for o request.operation_id request.immutable_image outcome)
      (λ requested.
        (o.operation_marker == some request.operation_id && o.image == some request.immutable_image)
        && is_some outcome.deployment_uid
        && o.deployment_uid == outcome.deployment_uid
        && o.current_generation == some requested
        && is_some_and o.observed_generation (λ observed. leb_ℤ requested observed))

abbrev rollout_available : ReceiverObservation → Bool
rollout_available o =
    (is_some o.desired_replicas
      && o.updated_replicas == o.desired_replicas
      && o.available_replicas == o.desired_replicas
      && o.unavailable_replicas == some (pos 0))
    && available_condition o

option_text_sound : (a b : Option Text) → a == b ≡ true → a ≡ b
option_text_sound a b h = option_eq.beq_sound a b h

option_int_sound : (a b : Option ℤ) → a == b ≡ true → a ≡ b
option_int_sound a b h = option_eq.beq_sound a b h

option_text_refl : (a : Option Text) → a == a ≡ true
option_text_refl a = option_eq.beq_refl a

option_int_refl : (a : Option ℤ) → a == a ≡ true
option_int_refl a = option_eq.beq_refl a

module _ (o : ReceiverObservation) (request : ValidatedRequest) (outcome : ApplyOutcome) where
  -- Which generation the test compared, from the response or from the receiver.
  requested_parts :
      (q : Option ℤ) (uid : Text) (g b : ℤ)
      → outcome.requested_generation ≡ q
      → outcome.deployment_uid ≡ some uid
      → o.current_generation ≡ some g
      → o.observed_generation ≡ some b
      → established o request outcome ≡ true
      → ((outcome.requested_generation ≡ none) ⊎ (outcome.requested_generation ≡ some g))
        × (leb_ℤ g b ≡ true)
  unfolding requested_generation_for
  requested_parts none uid g b eq eu eg eb h = (inl eq, ground (arith, h, eq, eu, eg, eb))
  requested_parts (some r) uid g b eq eu eg eb h =
      let same : g ≡ r = int_eq.beq_sound g r (ground (arith, h, eq, eu, eg, eb)) in
      (inr (rw same eq), rw same (ground (arith, h, eq, eu, eg, eb)))

  established_parts :
      (uid : Option Text) (generation observed : Option ℤ)
      → outcome.deployment_uid ≡ uid
      → o.current_generation ≡ generation
      → o.observed_generation ≡ observed
      → established o request outcome ≡ true
      → IsEstablished o request outcome
  unfolding requested_generation_for
  established_parts none g b eu eg eb h = absurd (ground (arith, h))
  established_parts (some u) none b eu eg eb h = absurd (ground (arith, h))
  established_parts (some u) (some g) none eu eg eb h = absurd (ground (arith, h))
  established_parts (some u) (some g) (some b) eu eg eb h =
      let (requested, reached) =
        requested_parts outcome.requested_generation u g b refl eu eg eb h in
      record {
        uid = u;
        generation = g;
        observed = b;
        marker =
            option_text_sound o.operation_marker (some request.operation_id) (ground (arith, h));
        image = option_text_sound o.image (some request.immutable_image) (ground (arith, h));
        written = eu;
        receiver = option_text_sound o.deployment_uid (some u) (ground (arith, h, eu));
        current = eg;
        requested_lem = requested;
        observed_lem = eb;
        reached = reached;
      }

  established_sound : established o request outcome ≡ true → IsEstablished o request outcome
  established_sound =
      established_parts outcome.deployment_uid o.current_generation o.observed_generation refl refl
        refl

  established_complete : IsEstablished o request outcome → established o request outcome ≡ true
  unfolding requested_generation_for
  established_complete e = ground (
    arith,
    e.marker,
    e.image,
    e.written,
    e.receiver,
    e.current,
    e.requested_lem,
    e.observed_lem,
    e.reached,
    text_refl request.operation_id,
    text_refl request.immutable_image,
    text_refl e.uid,
    int_eq.beq_refl e.generation,
  )

  classify_lem : classify o request outcome ≡ (
      if established o request outcome && progress_deadline_exceeded o
      then failed
      else if established o request outcome && rollout_available o
      then succeeded
      else unknown)
  unfolding classify
  classify_lem = refl

deadline_sound : (o : ReceiverObservation) → progress_deadline_exceeded o ≡ true → HasFailed o
unfolding progress_deadline_exceeded
deadline_sound o h = record {
  condition =
      option_text_sound o.rollout_condition_type (some (text "Progressing")) (ground (arith, h));
  status = option_text_sound o.rollout_condition_status (some (text "False")) (ground (arith, h));
  reason =
      option_text_sound o.rollout_condition_reason (some (text "ProgressDeadlineExceeded"))
        (ground (arith, h));
}

deadline_complete : (o : ReceiverObservation) → HasFailed o → progress_deadline_exceeded o ≡ true
unfolding progress_deadline_exceeded
deadline_complete o f = rw (f.condition, f.status, f.reason)

IsAvailable-parts :
    (o : ReceiverObservation) (d : Option ℤ)
    → o.desired_replicas ≡ d
    → rollout_available o ≡ true
    → IsAvailable o
unfolding available_condition
IsAvailable-parts o none e h = absurd (ground (arith, h))
IsAvailable-parts o (some n) e h = record {
  replicas = n;
  desired = e;
  updated = option_int_sound o.updated_replicas (some n) (ground (arith, h, e));
  available = option_int_sound o.available_replicas (some n) (ground (arith, h, e));
  unavailable = option_int_sound o.unavailable_replicas (some (pos 0)) (ground (arith, h));
  condition =
      option_text_sound o.rollout_condition_type (some (text "Available")) (ground (arith, h));
  status = option_text_sound o.rollout_condition_status (some (text "True")) (ground (arith, h));
}

available_complete : (o : ReceiverObservation) → IsAvailable o → rollout_available o ≡ true
unfolding available_condition
available_complete o a =
    rw (a.desired, a.updated, a.available, a.unavailable, a.condition, a.status)
      (ground (arith, int_eq.beq_refl a.replicas))

-- One condition is shown, so an observation is not both failed and available.
not_both : (o : ReceiverObservation) → IsAvailable o → progress_deadline_exceeded o ≡ false
unfolding progress_deadline_exceeded
not_both o a = rw a.condition

module _ (o : ReceiverObservation) (request : ValidatedRequest) (outcome : ApplyOutcome) where
  -- An observation is classified as failed exactly when it establishes the written generation and
  -- shows the exceeded progress deadline.
  pub classify-eq-failed :
      (classify o request outcome ≡ failed) ↔ (IsEstablished o request outcome × HasFailed o)
  classify-eq-failed = (
    λ h.
        let e = sym (classify_lem o request outcome) ∙ h in
        (
          established_sound o request outcome (ground (arith, e)),
          deadline_sound o (ground (arith, e)),
        ),
    λ (e, f).
        rw (classify_lem o request outcome)
          (ground (arith, established_complete o request outcome e, deadline_complete o f)),
  )

  -- An observation is classified as succeeded exactly when it establishes the written generation and
  -- shows the Available condition with every desired replica updated and available.
  pub classify-eq-succeeded :
      (classify o request outcome ≡ succeeded) ↔ (IsEstablished o request outcome × IsAvailable o)
  classify-eq-succeeded = (
    λ h.
        let e = sym (classify_lem o request outcome) ∙ h in
        (
          established_sound o request outcome (ground (arith, e)),
          IsAvailable-parts o o.desired_replicas refl (ground (arith, e)),
        ),
    λ (e, a). rw (classify_lem o request outcome) (
        ground
          (arith, established_complete o request outcome e, available_complete o a, not_both o a)),
  )
