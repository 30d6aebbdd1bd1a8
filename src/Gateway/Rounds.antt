-- ===== src/Gateway/Rounds.antt =====
-- Why the reconciliation loop of src/gateway/mod.rs ends: every round that advances leaves the operation's
-- row in a later phase.
pub mod Columns
pub mod Marks
pub mod Found
pub mod Advance
pub mod Passes
pub mod Submission
pub mod Enough
use kapsel.Base.{ℕ, Option, none, some, Text, Result, ok, err, ◌≡◌, ◌≤◌, refl, arith}
use kapsel.Gateway.Types.{
  G, GatewayError, OperationState, requested, authorized, not_attempted, apply_started,
  receiver_observed, finalized, state_from_sql,
}
use kapsel.Gateway.Journal.Record
use kapsel.Gateway.Journal.Record.{Record, get_text}
use kapsel.Gateway.Journal.Store.{
  World, Run, Act, find, continue, convert, ◌>>=◌, ◌>>◌, lift, return,
}

-- The rounds that an operation may still advance.
unfoldable pub rank : OperationState → ℕ
rank requested = 3
rank authorized = 2
rank apply_started = 2
rank receiver_observed = 1
rank not_attempted = 0
rank finalized = 0

-- The state that a row spells.
abbrev pub spelling : G Text → G OperationState
spelling (ok t) = state_from_sql t
spelling (err error) = err error

abbrev pub Spells : Record → OperationState → Type 0
Spells r state = spelling (get_text r Record.state) ≡ ok state

-- The row of an identity, if there is one and it spells a state, spells one of at most this rank.
abbrev pub Below : Text → ℕ → World → Type 0
Below id n w =
    (r : Record) (state : OperationState)
    → find id w.rows ≡ some r
    → Spells r state
    → rank state ≤ n

-- What holds of the value and the world where an action succeeds.
abbrev pub Ends : {E A : Type 0} → (A → World → Type 0) → Result E A × World → Type 0
Ends Q (ok value, w) = Q value w
Ends Q (err _, w) = Unit {0}

pub Ends-weaken :
    {E A : Type 0} (Q R : A → World → Type 0) (out : Result E A × World)
    → Ends Q out
    → ((value : A) (w : World) → Q value w → R value w)
    → Ends R out
Ends-weaken Q R (ok value, w) h f = f value w h
Ends-weaken Q R (err _, w) h f = tt

pub Ends-any : {E A : Type 0} (out : Result E A × World) → Ends (λ _ _. Unit {0}) out
Ends-any (ok _, w) = tt
Ends-any (err _, w) = tt

pub Ends-continue :
    {E A B : Type 0} (Q : A → World → Type 0) (R : B → World → Type 0) (out : Result E A × World)
    (f : A → Run E B)
    → Ends Q out
    → ((value : A) (w : World) → Q value w → Ends R (f value w))
    → Ends R (continue out f)
Ends-continue Q R (ok value, w) f h k = k value w h
Ends-continue Q R (err _, w) f h k = tt

module _ {E A B : Type 0} (Q : A → World → Type 0) (R : B → World → Type 0) where
  pub Ends-bind :
      (m : Run E A) (f : A → Run E B) (w : World)
      → Ends Q (m w)
      → ((value : A) (v : World) → Q value v → Ends R (f value v))
      → Ends R ((m >>= f) w)
  unfolding ◌>>=◌
  Ends-bind m f w h k = Ends-continue Q R (m w) f h k

-- A check in the middle of an action leaves the world alone.
pub Ends-check :
    {A B : Type 0} (R : B → World → Type 0) (out : G A) (f : A → Act B) (w : World)
    → ((value : A) → out ≡ ok value → Ends R (f value w))
    → Ends R ((lift out >>= f) w)
unfolding ◌>>=◌ lift
Ends-check R (ok value) f w k = k value refl
Ends-check R (err _) f w k = tt

pub Ends-guard :
    {B : Type 0} (R : B → World → Type 0) (out : G (Unit {0})) (m : Act B) (w : World)
    → (out ≡ ok tt → Ends R (m w))
    → Ends R ((lift out >> m) w)
unfolding ◌>>◌ lift
Ends-guard R (ok _) m w k = k refl
Ends-guard R (err _) m w k = tt

pub Ends-then :
    {E B : Type 0} (Q : Unit {0} → World → Type 0) (R : B → World → Type 0) (m : Run E (Unit {0}))
    (k : Run E B) (w : World)
    → Ends Q (m w)
    → ((v : World) → Q tt v → Ends R (k v))
    → Ends R ((m >> k) w)
unfolding ◌>>◌
Ends-then Q R m k w h f = Ends-continue Q R (m w) (λ _. k) h (λ _ v. f v)

pub Ends-convert :
    {E A : Type 0} (Q : A → World → Type 0) (f : GatewayError → E) (out : G A × World)
    → Ends Q out
    → Ends Q (convert f out)
Ends-convert Q f (ok _, w) h = h
Ends-convert Q f (err _, w) h = tt

pub Ends-both :
    {E A : Type 0} (Q R : A → World → Type 0) (out : Result E A × World)
    → Ends Q out
    → Ends R out
    → Ends (λ value w. Q value w × R value w) out
Ends-both Q R (ok _, w) h k = (h, k)
Ends-both Q R (err _, w) h k = tt
