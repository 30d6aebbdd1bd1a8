-- ===== src/Daemon/Runtime/Stops.antt =====
-- The stop reasons that crates/kapsel-daemon/src/server/runtime.rs keeps of this process.
use kapsel.Base.{
  suc, ◌≤◌, Bool, ◌&&◌, if◌then◌else◌, true, false, List, [], ◌∷◌, ◌++◌, Text, Result, ok, err,
  ◌==◌, nat_eq, list_eq, ◌≡◌, refl, inl, inr, Bool-cases, arith, length, length-append, drop,
}
use kapsel.Service.Disposition.{
  ServiceError, ServiceStop, ExecutionObservation, unobserved, active, other_worker, stopped,
  stop_observation, finished, stop_blocked,
}
use kapsel.Daemon.Runtime.{stopped_max, find_stopped, forget, make_room, record_stop}

abbrev Stops : Type 0
Stops = List (Text × ExecutionObservation)

-- What can be known of a pass that ended.
abbrev pub IsReason : ExecutionObservation → Type 0
IsReason unobserved = Unit {0}
IsReason (stopped _) = Unit {0}
IsReason active = ⊥
IsReason other_worker = ⊥

abbrev pub IsFresh : Text → Stops → Type 0
IsFresh id [] = Unit {0}
IsFresh id ((other, _) ∷ stops) = ((other == id) ≡ false) × IsFresh id stops

-- One reason for each identity.
abbrev pub IsDistinct : Stops → Type 0
IsDistinct [] = Unit {0}
IsDistinct ((id, reason) ∷ stops) = IsFresh id stops × IsReason reason × IsDistinct stops

pub record IsBounded (stops : Stops) : Type 0 where
  pub distinct : IsDistinct stops
  pub bounded : length stops ≤ stopped_max

stop_observation-IsReason :
    (result : Result ServiceError ServiceStop) → IsReason (stop_observation result)
unfolding stop_observation
stop_observation-IsReason (ok finished) = tt
stop_observation-IsReason (ok (stop_blocked condition)) = tt
stop_observation-IsReason (err error) = tt

length-forget-le : (id : Text) (stops : Stops) → length (forget id stops) ≤ length stops
unfolding forget
length-forget-le id [] = omega arith
length-forget-le id ((other, reason) ∷ stops) = elim (Bool-cases (other == id)) [
  | inl p ↦ rw p (omega (arith, length-forget-le id stops))
  | inr q ↦ rw q (omega (arith, length-forget-le id stops))
]

forget-IsFresh : (id : Text) (stops : Stops) → IsFresh id (forget id stops)
unfolding forget
forget-IsFresh id [] = tt
forget-IsFresh id ((other, reason) ∷ stops) = elim (Bool-cases (other == id)) [
  | inl p ↦ rw p (forget-IsFresh id stops)
  | inr q ↦ rw q (rw q (refl, forget-IsFresh id stops))
]

forget-IsFresh_other :
    (id other : Text) (stops : Stops) → IsFresh other stops → IsFresh other (forget id stops)
unfolding forget
forget-IsFresh_other id other [] h = tt
forget-IsFresh_other id other ((i, reason) ∷ stops) h = elim (Bool-cases (i == id)) [
  | inl p ↦ rw p (forget-IsFresh_other id other stops h.1)
  | inr q ↦ rw q (h.0, forget-IsFresh_other id other stops h.1)
]

forget-IsDistinct : (id : Text) (stops : Stops) → IsDistinct stops → IsDistinct (forget id stops)
unfolding forget
forget-IsDistinct id [] h = tt
forget-IsDistinct id ((i, reason) ∷ stops) h = elim (Bool-cases (i == id)) [
  | inl p ↦ rw p (forget-IsDistinct id stops h.2)
  | inr q ↦ rw q (forget-IsFresh_other id i stops h.0, h.1, forget-IsDistinct id stops h.2)
]

pub forget-IsBounded : (id : Text) (stops : Stops) → IsBounded stops → IsBounded (forget id stops)
forget-IsBounded id stops b = record {
  distinct = forget-IsDistinct id stops b.distinct;
  bounded = omega (arith, length-forget-le id stops, b.bounded);
}

drop-IsDistinct : (stops : Stops) → IsDistinct stops → IsDistinct (drop 1 stops)
drop-IsDistinct [] h = tt
drop-IsDistinct ((id, reason) ∷ stops) h = h.2

drop-IsFresh : (id : Text) (stops : Stops) → IsFresh id stops → IsFresh id (drop 1 stops)
drop-IsFresh id [] h = tt
drop-IsFresh id (_ ∷ stops) h = h.1

length-drop :
    (stops : Stops) → length stops ≡ stopped_max → suc (length (drop 1 stops)) ≡ stopped_max
length-drop [] h = absurd (omega arith)
length-drop (_ ∷ stops) h = h

-- The queue with room for one more.
record HasRoom (id : Text) (stops : Stops) : Type 0 where
  distinct : IsDistinct stops
  fresh : IsFresh id stops
  room : suc (length stops) ≤ stopped_max

make_room-HasRoom :
    (id : Text) (stops : Stops) → IsBounded stops → IsFresh id stops → HasRoom id (make_room stops)
make_room-HasRoom id stops b fresh = elim (Bool-cases (length stops == stopped_max)) [
  | inl p ↦ rw p (record {
    distinct = drop-IsDistinct stops b.distinct;
    fresh = drop-IsFresh id stops fresh;
    room = omega (arith, length-drop stops (nat_eq.beq_sound _ _ p));
  })
  | inr q ↦ rw q (record { distinct = b.distinct; fresh = fresh; room = below q b.bounded })
]
  where
    below :
        (length stops == stopped_max) ≡ false
        → length stops ≤ stopped_max
        → suc (length stops) ≤ stopped_max
    below q h = ground arith

snoc-IsFresh :
    (id other : Text) (reason : ExecutionObservation) (stops : Stops)
    → IsFresh other stops
    → (id == other) ≡ false
    → IsFresh other (stops ++ (id, reason) ∷ [])
snoc-IsFresh id other reason [] h d = (d, tt)
snoc-IsFresh id other reason (_ ∷ stops) h d = (h.0, snoc-IsFresh id other reason stops h.1 d)

differs-sym : (id other : Text) → (id == other) ≡ false → (other == id) ≡ false
differs-sym id other h = elim (Bool-cases (other == id)) [
  | inr q ↦ q
  | inl p ↦
      let e : other ≡ id = list_eq.beq_sound other id p in
      let same : (id == other) ≡ true = rw e (list_eq.beq_refl id) in cc (h, same)
]

snoc-IsDistinct :
    (id : Text) (reason : ExecutionObservation) (stops : Stops)
    → IsDistinct stops
    → IsFresh id stops
    → IsReason reason
    → IsDistinct (stops ++ (id, reason) ∷ [])
snoc-IsDistinct id reason [] h fresh r = (tt, r, tt)
snoc-IsDistinct id reason ((i, old) ∷ stops) h fresh r = (
  snoc-IsFresh id i reason stops h.0 (differs-sym i id fresh.0),
  h.1,
  snoc-IsDistinct id reason stops h.2 fresh.1 r,
)

pub record_stop-IsBounded :
    (stops : Stops) (id : Text) (result : Result ServiceError ServiceStop)
    → IsBounded stops
    → IsBounded (record_stop stops id result)
unfolding record_stop
record_stop-IsBounded stops id result b =
    let r =
      make_room-HasRoom id (forget id stops) (forget-IsBounded id stops b)
        (forget-IsFresh id stops) in
    record {
      distinct =
          snoc-IsDistinct id (stop_observation result) (make_room (forget id stops)) r.distinct
            r.fresh (stop_observation-IsReason result);
      bounded = omega (
        arith,
        length-append (make_room (forget id stops)) ((id, stop_observation result) ∷ []),
        r.room,
      );
    }

-- What is found of an identity.
find_stopped-IsFresh :
    (id : Text) (stops : Stops) → IsFresh id stops → find_stopped id stops ≡ unobserved
unfolding find_stopped
find_stopped-IsFresh id [] h = refl
find_stopped-IsFresh id ((i, _) ∷ stops) h = rw (h.0) (find_stopped-IsFresh id stops h.1)

find_stopped-snoc_self :
    (id : Text) (reason : ExecutionObservation) (stops : Stops)
    → IsFresh id stops
    → find_stopped id (stops ++ (id, reason) ∷ []) ≡ reason
unfolding find_stopped
find_stopped-snoc_self id reason [] h = rw (list_eq.beq_refl id) refl
find_stopped-snoc_self id reason (_ ∷ stops) h =
    rw (h.0) (find_stopped-snoc_self id reason stops h.1)

find_stopped-snoc :
    (id other : Text) (reason : ExecutionObservation) (stops : Stops)
    → (id == other) ≡ false
    → find_stopped other (stops ++ (id, reason) ∷ []) ≡ find_stopped other stops
unfolding find_stopped
find_stopped-snoc id other reason [] d = rw d refl
find_stopped-snoc id other reason ((i, old) ∷ stops) d = elim (Bool-cases (i == other)) [
  | inl p ↦ rw p refl
  | inr q ↦ rw q (find_stopped-snoc id other reason stops d)
]

pub find_stopped-forget :
    (id other : Text) (stops : Stops)
    → (id == other) ≡ false
    → find_stopped other (forget id stops) ≡ find_stopped other stops
unfolding find_stopped forget
find_stopped-forget id other [] d = refl
find_stopped-forget id other ((i, old) ∷ stops) d = elim (Bool-cases (i == id)) [
  | inl p ↦
      let e : (i == other) ≡ false = rw (list_eq.beq_sound i id p) d in
      rw p (rw e (find_stopped-forget id other stops d))
  | inr q ↦ elim (Bool-cases (i == other)) [
    | inl p ↦ rw q (rw p refl)
    | inr r ↦ rw q (rw r (find_stopped-forget id other stops d))
  ]
]

-- Whether an identity's is the oldest entry of a full queue.
abbrev pub is_evicted : Text → Stops → Bool
is_evicted id [] = false
is_evicted id ((oldest, reason) ∷ stops) =
    oldest == id && length ((oldest, reason) ∷ stops) == stopped_max

find_stopped-make_room :
    (id : Text) (stops : Stops)
    → IsDistinct stops
    → find_stopped id (make_room stops)
      ≡ (if is_evicted id stops then unobserved else find_stopped id stops)
unfolding find_stopped
find_stopped-make_room id [] d = refl
find_stopped-make_room id ((oldest, reason) ∷ stops) d =
    elim (Bool-cases (length ((oldest, reason) ∷ stops) == stopped_max)) [
      | inr q ↦ elim (Bool-cases (oldest == id)) [
        | inr r ↦ rw q (rw r refl)
        | inl p ↦ rw q (rw p refl)
      ]
      | inl full ↦ elim (Bool-cases (oldest == id)) [
        | inr r ↦ rw full (rw r refl)
        | inl p ↦
            let e : oldest ≡ id = list_eq.beq_sound oldest id p in
            let gone = find_stopped-IsFresh id stops (rw e at (d.0)) in rw full (rw p gone)
      ]
    ]

-- After a stop is recorded in a queue with one reason for each identity, at most 32, the queue has again
-- one for each, at most 32. It gives the new reason for the identity that stopped. For any other one it
-- gives none if that one's is the oldest entry of a queue that is full without the identity that
-- stopped, and the reason that it gave before if not.
pub record_stop_lem :
    (stops : Stops) (id other : Text) (result : Result ServiceError ServiceStop)
    → IsBounded stops
    → (id == other) ≡ false
    → IsBounded (record_stop stops id result)
      × (find_stopped id (record_stop stops id result) ≡ stop_observation result)
      × (find_stopped other (record_stop stops id result)
          ≡ (if is_evicted other (forget id stops) then unobserved else find_stopped other stops))
unfolding record_stop
record_stop_lem stops id other result b d = (
  record_stop-IsBounded stops id result b,
  find_stopped-snoc_self id (stop_observation result) (make_room (forget id stops))
      (make_room-HasRoom id (forget id stops) (forget-IsBounded id stops b)
        (forget-IsFresh id stops)).fresh,
  rw (← find_stopped-forget id other stops d) (
      rw (find_stopped-snoc id other (stop_observation result) (make_room (forget id stops)) d)
        (find_stopped-make_room other (forget id stops) (forget-IsBounded id stops b).distinct)),
)

pub find_stopped-IsReason :
    (id : Text) (stops : Stops) → IsDistinct stops → IsReason (find_stopped id stops)
unfolding find_stopped
find_stopped-IsReason id [] h = tt
find_stopped-IsReason id ((i, reason) ∷ stops) h = elim (Bool-cases (i == id)) [
  | inl p ↦ rw p (h.1)
  | inr q ↦ rw q (find_stopped-IsReason id stops h.2)
]
