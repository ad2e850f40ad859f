-- ===== src/Mutation/Reconcile/Open.antt =====
-- Which mutations `reconcile_production_run` of src/mailarchive/remote_mutation.py takes up.
use mailarchive.Base.{
  ℕ, ◌≡◌, refl, ◌⊎◌, inl, inr, Bool, true, false, List, [], ◌∷◌, ◌||◌, ==_iff, map, arith,
}
use mailarchive.Base.Lists.{filter}
use mailarchive.Db.{Db, MutationRow, Status, status_eq, started, unknown}
use mailarchive.Mutation.Reconcile.{is_open_in, open_ids}

abbrev pub IsOpen : ℕ → MutationRow → Type 0
IsOpen run_id m = (m.mutation_run_id ≡ run_id) × ((m.status ≡ started) ⊎ (m.status ≡ unknown))

-- The ids, in the order of the rows, of the mutations of a run that are started or unknown.
pub data Opens (run_id : ℕ) : List MutationRow → List ℕ → Type 0 where
  no_more : Opens run_id [] []
  takes :
      {m : MutationRow} {ms : List MutationRow} {ids : List ℕ}
      → IsOpen run_id m
      → Opens run_id ms ids
      → Opens run_id (m ∷ ms) (m.id ∷ ids)
  skips :
      {m : MutationRow} {ms : List MutationRow} {ids : List ℕ}
      → (IsOpen run_id m → ⊥)
      → Opens run_id ms ids
      → Opens run_id (m ∷ ms) ids

open_status :
    (s : Status)
    → (status_eq s started || status_eq s unknown) ≡ true
    → (s ≡ started) ⊎ (s ≡ unknown)
open_status started h = inl refl
open_status unknown h = inr refl
open_status Status.planned h = cc h
open_status Status.dry_run h = cc h
open_status Status.succeeded h = cc h
open_status Status.failed h = cc h

status_open :
    (s : Status)
    → (s ≡ started) ⊎ (s ≡ unknown)
    → (status_eq s started || status_eq s unknown) ≡ true
status_open started h = refl
status_open unknown h = refl
status_open Status.planned (inl h) = cc h
status_open Status.planned (inr h) = cc h
status_open Status.dry_run (inl h) = cc h
status_open Status.dry_run (inr h) = cc h
status_open Status.succeeded (inl h) = cc h
status_open Status.succeeded (inr h) = cc h
status_open Status.failed (inl h) = cc h
status_open Status.failed (inr h) = cc h

is_open_in-IsOpen : (run_id : ℕ) (m : MutationRow) → is_open_in run_id m ≡ true → IsOpen run_id m
unfolding is_open_in
is_open_in-IsOpen run_id m h = (ground arith, open_status m.status (ground arith))

IsOpen-is_open_in : (run_id : ℕ) (m : MutationRow) → IsOpen run_id m → is_open_in run_id m ≡ true
unfolding is_open_in
IsOpen-is_open_in run_id m (own, status) =
    ground (arith, (==_iff m.mutation_run_id run_id).1 own, status_open m.status status)

filter-Opens :
    (run_id : ℕ) (ms : List MutationRow)
    → Opens run_id ms (map (λ (m : MutationRow). m.id) (filter (is_open_in run_id) ms))
filter-Opens run_id [] = no_more
filter-Opens run_id (m ∷ ms) = by_test (is_open_in run_id m) refl (filter-Opens run_id ms)
  where
    rest : List MutationRow
    rest = filter (is_open_in run_id) ms

    by_test :
        (b : Bool)
        → is_open_in run_id m ≡ b
        → Opens run_id ms (map (λ (m : MutationRow). m.id) rest)
        → Opens run_id
            (m ∷ ms)
            (map (λ (m : MutationRow). m.id) (elim b [ true ↦ m ∷ rest | false ↦ rest ]))
    by_test true e h = takes (is_open_in-IsOpen run_id m e) h
    by_test false e h = skips (λ is. clash (IsOpen-is_open_in run_id m is) e) h
      where
        clash : {b : Bool} → b ≡ true → b ≡ false → ⊥
        clash h k = cc (h, k)

pub open_ids-Opens : (run_id : ℕ) (db : Db) → Opens run_id db.remote_mutations (open_ids run_id db)
unfolding open_ids
open_ids-Opens run_id db = filter-Opens run_id db.remote_mutations
