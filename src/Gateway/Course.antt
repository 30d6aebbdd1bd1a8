-- ===== src/Gateway/Course.antt =====
-- What the journal of src/gateway promises of one operation: the course of its states.
pub mod States
pub mod Writes
pub mod Rows
pub mod History
use kapsel.Base.{Option, none, some, Text, Result, ok, err, ◌≡◌, ◌⊎◌, inl, inr, refl, sym}
use kapsel.Gateway.Types.{
  G, OperationState, requested, authorized, not_attempted, apply_started, receiver_observed,
  finalized,
}
use kapsel.Gateway.Journal.Record.{Record, get_text}
use kapsel.Gateway.Journal.Record
use kapsel.Gateway.Journal.Store.{World, find}
use kapsel.Gateway.Rounds.{spelling}

-- The moves of one operation. The answer to its request is recorded in the state that it has.
pub data Step : OperationState → OperationState → Type 0 where
  authorizes : Step requested authorized
  rejects : Step authorized not_attempted
  starts : Step authorized apply_started
  answers : Step apply_started apply_started
  observes : Step apply_started receiver_observed
  finalizes : Step receiver_observed finalized

-- What a row says of its state, or that there is none.
abbrev pub Standing : Type 0
Standing = Option (G OperationState)

abbrev pub standing_of : Option Record → Standing
standing_of none = none
standing_of (some r) = some (spelling (get_text r Record.state))

unfoldable pub standing : Text → World → Standing
standing id w = standing_of (find id w.rows)

pub data Move : Standing → Standing → Type 0 where
  submits : Move none (some (ok requested))
  steps : {s t : OperationState} → Step s t → Move (some (ok s)) (some (ok t))

-- Any number of moves.
pub data Reaches (p : Standing) : Standing → Type 0 where
  stays : Reaches p p
  later : {q r : Standing} → Reaches p q → Move q r → Reaches p r

pub Reaches-trans : (p q r : Standing) → Reaches p q → Reaches q r → Reaches p r
Reaches-trans p q _ f stays = f
Reaches-trans p q _ f (later g move) = later (Reaches-trans p q _ f g) move

-- Every operation of the second world has moved on from where it was in the first.
unfoldable pub Follows : World → World → Type 0
Follows v w = (id : Text) → Reaches (standing id v) (standing id w)

abbrev pub IsTerminal : Standing → Type 0
IsTerminal p = (p ≡ some (ok finalized)) ⊎ (p ≡ some (ok not_attempted))

Move-IsTerminal : (p q : Standing) → IsTerminal p → Move p q → ⊥
Move-IsTerminal _ _ (inl h) submits = cc h
Move-IsTerminal _ _ (inr h) submits = cc h
Move-IsTerminal _ _ (inl h) (steps authorizes) = cc h
Move-IsTerminal _ _ (inr h) (steps authorizes) = cc h
Move-IsTerminal _ _ (inl h) (steps rejects) = cc h
Move-IsTerminal _ _ (inr h) (steps rejects) = cc h
Move-IsTerminal _ _ (inl h) (steps starts) = cc h
Move-IsTerminal _ _ (inr h) (steps starts) = cc h
Move-IsTerminal _ _ (inl h) (steps answers) = cc h
Move-IsTerminal _ _ (inr h) (steps answers) = cc h
Move-IsTerminal _ _ (inl h) (steps observes) = cc h
Move-IsTerminal _ _ (inr h) (steps observes) = cc h
Move-IsTerminal _ _ (inl h) (steps finalizes) = cc h
Move-IsTerminal _ _ (inr h) (steps finalizes) = cc h

-- A terminal standing is left by no move.
pub Reaches-IsTerminal : (p q : Standing) → IsTerminal p → Reaches p q → q ≡ p
Reaches-IsTerminal p _ h stays = refl
Reaches-IsTerminal p _ h (later {q} {r} f move) =
    let same = Reaches-IsTerminal p q h f in absurd (Move-IsTerminal q r (rw (sym same) at h) move)
