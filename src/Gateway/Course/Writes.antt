-- ===== src/Gateway/Course/Writes.antt =====
-- What the conditional write of src/gateway/journal/records.rs leaves in the tables, whatever its outcome.
use kapsel.Base.{true, Option, List, Text, ok, err, ◌≡◌, ◌⊎◌, inl, inr, refl, require, Bool-cases}
use kapsel.Gateway.Types.{G, invalid_transition}
use kapsel.Gateway.Journal.Record
use kapsel.Gateway.Journal.Record.{Record, text_value, get_text, same_values}
use kapsel.Gateway.Journal.Store.{
  Env, World, Commit, committed, lost, acknowledgement_lost, find, same_retained, written_rows,
  replace, read, commit_as, commit, continue, lift, ◌>>=◌, ◌>>◌,
}
use kapsel.Gateway.Dispatch.{Holds, continue-Holds, Holds-weaken}
use kapsel.Gateway.Dispatch.Replace.{Reads, read-Holds}
use kapsel.Gateway.Dispatch.Moves.{Reads-refl}
use kapsel.Gateway.Course.{standing, standing_of, Reaches, stays, Reaches-trans, Follows}

pub Reads-Follows : (v w : World) → Reads v w → Follows v w
unfolding Follows standing
Reads-Follows v w r id = rw r.rows stays

-- The rows after a write that may have been made.
abbrev Either : World → List Record → World → Type 0
Either v rows w = (w.rows ≡ v.rows) ⊎ (w.rows ≡ rows)

Either-Follows :
    (v w : World) (rows : List Record)
    → ((id : Text) → Reaches (standing id v) (standing_of (find id rows)))
    → Either v rows w
    → Follows v w
unfolding Follows standing
Either-Follows v w rows h (inl same) id = rw same stays
Either-Follows v w rows h (inr same) id = rw same (h id)

module _ (e : Env) where
  commit-Follows :
      (rows : List Record) (v : World)
      → ((id : Text) → Reaches (standing id v) (standing_of (find id rows)))
      → Holds (Follows v) (λ _ w. Follows v w) (commit e rows v)
  unfolding commit commit_as
  commit-Follows rows v h = commit_case (e.commits v.clock)
    where
      commit_case : (c : Commit) → Holds (Follows v) (λ _ w. Follows v w) (commit_as c rows v)
      commit_case committed = Either-Follows v _ rows h (inr refl)
      commit_case lost = Either-Follows v _ rows h (inl refl)
      commit_case acknowledgement_lost = Either-Follows v _ rows h (inr refl)

  -- After the read of a write: nothing is written, or the rows that it computes are committed.
  written-Follows :
      (expected retained : Option Record) (next : Record) (id : Text) (v : World)
      → ((rows : List Record)
          → same_retained retained expected ≡ true
          → written_rows expected next id v ≡ ok rows
          → (i : Text) → Reaches (standing i v) (standing_of (find i rows)))
      → Holds
          (Follows v)
          (λ _ w. Follows v w)
          ((lift (require (same_retained retained expected) invalid_transition)
              >> ((λ w. (written_rows expected next id w, w)) >>= λ rows. commit e rows))
            v)
  unfolding ◌>>=◌ ◌>>◌ lift
  written-Follows expected retained next id v h =
      elim (Bool-cases (same_retained retained expected)) [
        | inr q ↦ rw q (Reads-Follows v v (Reads-refl v))
        | inl p ↦ rw p (rows_case p (written_rows expected next id v) refl)
      ]
    where
      rows_case :
          same_retained retained expected ≡ true
          → (out : G (List Record)) → written_rows expected next id v ≡ out
          → Holds (Follows v) (λ _ w. Follows v w) (continue (out, v) (λ rows. commit e rows))
      rows_case p (err error) k = Reads-Follows v v (Reads-refl v)
      rows_case p (ok rows) k = commit-Follows rows v (h rows p k)

  Follows-after : (u v w : World) → Reads u v → Follows v w → Follows u w
  unfolding Follows
  Follows-after u v w r f id = Reaches-trans _ _ _ (Reads-Follows u v r id) (f id)

  -- A write whose rows each lead on from the retained ones does so whatever its outcome.
  pub replace-Follows :
      (expected : Option Record) (next : Record) (id : Text) (w : World)
      → next.values Record.operation_id ≡ text_value id
      → ((v : World) (rows : List Record)
          → v.rows ≡ w.rows
          → same_retained (find id w.rows) expected ≡ true
          → written_rows expected next id v ≡ ok rows
          → (i : Text) → Reaches (standing i v) (standing_of (find i rows)))
      → Holds (Follows w) (λ _ v. Follows w v) (replace e expected next w)
  unfolding replace get_text ◌>>=◌ ◌>>◌ lift
  replace-Follows expected next id w hn h = rw hn (
      continue-Holds (Follows w) (λ found v. Reads w v × (found ≡ find id w.rows))
        (λ _ v. Follows w v) (read e id w) _
        (Holds-weaken (Reads w) (Follows w) (λ found v. Reads w v × (found ≡ find id w.rows))
          (λ found v. Reads w v × (found ≡ find id w.rows)) (read e id w) (Reads-Follows w)
          (λ _ _ k. k) (read-Holds e id w))
        (λ retained v (r, same).
          Holds-weaken (Follows v) (Follows w) (λ _ u. Follows v u) (λ _ u. Follows w u) _
            (λ u. Follows-after w v u r) (λ _ u. Follows-after w v u r)
            (written-Follows expected retained next id v
              (λ rows p. h v rows r.rows (rw same at p)))))
