-- ===== src/Gateway/Dispatch.antt =====
-- How often the adapter of src/gateway/mod.rs was told to send, against what the journal retains.
pub mod Rows
pub mod Replace
pub mod Decoded
pub mod Written
pub mod Moves
pub mod Lifecycle
pub mod Transitions
pub mod Passes
pub mod Permission
pub mod History
use kapsel.Base.{
  ℕ, pos, Bool, true, false, Option, none, some, List, [], ◌∷◌, Text, Result, ok, err, ◌≡◌, ◌≤◌,
  ◌==◌, list_eq, nat_eq, if◌then◌else◌, ◌+◌, refl, arith,
}
use kapsel.Gateway.Journal.Record
use kapsel.Gateway.Journal.Record.{Record, Value, integer, value_eq}
use kapsel.Gateway.Journal.Store.{World, Dispatch, Run, continue, find, ◌>>=◌}

-- The requests sent for one operation.
unfoldable pub sends : Text → List Dispatch → ℕ
sends id [] = 0
sends id (d ∷ sent) = (if d.request.operation_id == id then 1 else 0) + sends id sent

-- Whether a row retains an attempt.
abbrev pub attempted : Record → ℕ
attempted r = if r.values Record.apply_attempted == integer (pos 1) then 1 else 0

abbrev pub attempts_of : Option Record → ℕ
attempts_of none = 0
attempts_of (some r) = attempted r

unfoldable pub attempts : Text → List Record → ℕ
attempts id rows = attempts_of (find id rows)

-- Every request sent is covered by a retained attempt.
unfoldable pub IsWithin : World → Type 0
unfolding sends attempts
IsWithin w = (id : Text) → sends id w.sent ≤ attempts id w.rows

-- Nothing was sent, and no retained attempt was lost.
pub record Grows (v w : World) : Type 0 where
  pub same_sent : w.sent ≡ v.sent
  pub kept : (id : Text) → attempts id v.rows ≤ attempts id w.rows

-- What holds of the world after an action, by its outcome.
abbrev pub Holds :
    {E A : Type 0} → (World → Type 0) → (A → World → Type 0) → Result E A × World → Type 0
Holds P Q (ok value, w) = Q value w
Holds P Q (err _, w) = P w

pub continue-Holds :
    {E A B : Type 0} (P : World → Type 0) (R : A → World → Type 0) (Q : B → World → Type 0)
    (out : Result E A × World) (f : A → Run E B)
    → Holds P R out
    → ((value : A) (w : World) → R value w → Holds P Q (f value w))
    → Holds P Q (continue out f)
continue-Holds P R Q (ok value, w) f h k = k value w h
continue-Holds P R Q (err error, w) f h k = h

pub Holds-weaken :
    {E A : Type 0} (P P' : World → Type 0) (Q Q' : A → World → Type 0) (out : Result E A × World)
    → ((w : World) → P w → P' w)
    → ((value : A) (w : World) → Q value w → Q' value w)
    → Holds P Q out
    → Holds P' Q' out
Holds-weaken P P' Q Q' (ok value, w) p q h = q value w h
Holds-weaken P P' Q Q' (err error, w) p q h = p w h

pub Grows-refl : (w : World) → Grows w w
Grows-refl w = record { same_sent = refl; kept = λ id. omega arith }

pub Grows-trans : (u v w : World) → Grows u v → Grows v w → Grows u w
Grows-trans u v w f g = record {
  same_sent = cc (f.same_sent, g.same_sent);
  kept = λ id. omega (arith, f.kept id, g.kept id);
}

pub Grows-IsWithin : (v w : World) → Grows v w → IsWithin v → IsWithin w
unfolding IsWithin
Grows-IsWithin v w g h id = let e = g.same_sent in rw e (omega (arith, h id, g.kept id))
