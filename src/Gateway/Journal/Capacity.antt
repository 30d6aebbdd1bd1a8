-- ===== src/Gateway/Journal/Capacity.antt =====
-- The admission bound of src/gateway/journal/capacity.rs: no conditional write, whatever becomes of its
-- commit, makes the tables retain more identities than their capacity.
use kapsel.Base.{
  ℕ, Option, none, some, List, [], ◌∷◌, Text, ok, err, ◌≡◌, ◌≤◌, ◌+◌, refl, arith, length,
  Bool-cases, inl, inr, require,
}
use kapsel.Gateway.Types.{G, invalid_transition}
use kapsel.Gateway.Journal.Record
use kapsel.Gateway.Journal.Record.{Record, get_text}
use kapsel.Gateway.Journal.Store.{
  Env, World, Act, Commit, committed, lost, acknowledgement_lost, replace, read, tick, commit,
  commit_as, written_rows, insert_row, update_rows, update_changed_columns, changed_one,
  require_admission, counts, identity_capacity, continue, ◌>>=◌, ◌>>◌, lift, same_retained,
}

-- The identities that both tables retain.
abbrev pub retained : World → ℕ
retained w = length w.rows + length w.git

abbrev pub world_after : {A : Type 0} → G A × World → World
world_after (_, w) = w

-- The rows may grow up to the capacity only.
abbrev Bounded : World → World → Type 0
Bounded w v = retained w ≤ identity_capacity → retained v ≤ identity_capacity

continue-Bounded :
    {A B : Type 0} (w : World) (out : G A × World) (f : A → Act B)
    → Bounded w (world_after out)
    → ((value : A) (v : World) → out ≡ (ok value, v) → Bounded w (world_after (f value v)))
    → Bounded w (world_after (continue out f))
continue-Bounded w (ok value, v) f h k = k value v refl
continue-Bounded w (err error, v) f h k = h

length-update_rows :
    (id : Text) (previous next : Record) (rows : List Record)
    → length (update_rows id previous next rows) ≡ length rows
length-update_rows id previous next [] = refl
length-update_rows id previous next (r ∷ rows) =
    omega (arith, length-update_rows id previous next rows)

length-written_rows :
    (expected : Option Record) (next : Record) (id : Text) (w : World) (rows : List Record)
    → written_rows expected next id w ≡ ok rows
    → retained w ≤ identity_capacity
    → length rows + length w.git ≤ identity_capacity
unfolding written_rows update_changed_columns changed_one insert_row require_admission counts
length-written_rows none next id w rows h le = ground (arith)
length-written_rows (some previous) next id w rows h le =
    ground (arith, length-update_rows id previous next w.rows)

module _ (e : Env) where
  commit-Bounded :
      (rows : List Record) (w : World)
      → (retained w ≤ identity_capacity → length rows + length w.git ≤ identity_capacity)
      → Bounded w (world_after (commit e rows w))
  unfolding commit commit_as tick
  commit-Bounded rows w h = commit_case (e.commits w.clock)
    where
      commit_case : (c : Commit) → Bounded w (world_after (commit_as c rows w))
      commit_case committed = h
      commit_case lost = λ k. k
      commit_case acknowledgement_lost = h

  read-retained : (id : Text) (w : World) → retained (world_after (read e id w)) ≡ retained w
  unfolding read tick
  read-retained id w = elim (Bool-cases (e.reads w.clock)) [ inl p ↦ rw p refl | inr q ↦ rw q refl ]

  -- The part of `replace` after the row was read.
  written-Bounded :
      (expected : Option Record) (next : Record) (id : Text) (found : Option Record) (w : World)
      → Bounded w (
          world_after (
            (lift (require (same_retained found expected) invalid_transition)
                >> ((λ v. (written_rows expected next id v, v)) >>= λ rows. commit e rows))
              w))
  unfolding ◌>>=◌ ◌>>◌ lift
  written-Bounded expected next id found w = elim (Bool-cases (same_retained found expected)) [
    | inr q ↦ rw q (λ k. k)
    | inl p ↦ rw p (rows_case (written_rows expected next id w) refl)
  ]
    where
      rows_case :
          (out : G (List Record))
          → written_rows expected next id w ≡ out
          → Bounded w (world_after (continue (out, w) (λ rows. commit e rows)))
      rows_case (err error) h = λ k. k
      rows_case (ok rows) h = commit-Bounded rows w (length-written_rows expected next id w rows h)

  -- A conditional write, of a new row or of a retained one, whatever its outcome and whether or not its commit
  -- or its acknowledgement is lost, leaves no more than 504 identities retained in the two tables if there
  -- were no more before.
  pub replace-capacity :
      (expected : Option Record) (next : Record) (w : World)
      → retained w ≤ identity_capacity
      → retained (world_after (replace e expected next w)) ≤ identity_capacity
  unfolding replace ◌>>=◌ lift
  replace-capacity expected next w le = id_case (get_text next Record.operation_id)
    where
      read_case :
          (id : Text) (out : G (Option Record) × World)
          → read e id w ≡ out
          → retained (
              world_after (
                continue out (λ found.
                  lift (require (same_retained found expected) invalid_transition)
                  >> ((λ v. (written_rows expected next id v, v)) >>= λ rows. commit e rows))))
            ≤ identity_capacity
      read_case id (ok found, v) h =
          let same : retained v ≡ retained w = rw h at (read-retained id w) in
          written-Bounded expected next id found v (omega (arith, same, le))
      read_case id (err error, v) h =
          let same : retained v ≡ retained w = rw h at (read-retained id w) in
          omega (arith, same, le)

      id_case :
          (out : G Text)
          → retained (
              world_after (
                continue
                  (out, w)
                  (λ id. read e id >>= λ found.
                    lift (require (same_retained found expected) invalid_transition)
                    >> ((λ v. (written_rows expected next id v, v)) >>= λ rows. commit e rows))))
            ≤ identity_capacity
      id_case (ok id) = read_case id (read e id w) refl
      id_case (err error) = le
