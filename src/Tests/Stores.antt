-- ===== src/Tests/Stores.antt =====
-- A small database, and queries of its records.
use kookaburra.Prelude.{
  ℕ, zero, suc, ltb, not, String, Bool, true, false, Option, none, some, List, [], ◌∷◌,
  if◌then◌else◌, ◌==◌, ◌≡◌, ◌≢◌, ◌⊎◌, inl, inr, refl, sym, ap, ◌∙◌, nat_eq, arith, Bool-cases,
  eq_iff, is_some, eq_refl,
}
use kookaburra.Result.{ok}
use kookaburra.Dict.{lookup, insert, lookup-insert}
use kookaburra.Runtime.Entity.{Object, Schema, Entity, null, replace_state, from_record, stamp}
use kookaburra.Runtime.Storage.{
  Answer, acknowledged, duplicate_id, refused, Collection, try_store, store,
}
use kookaburra.Runtime.Storage.Waiting.{Refuses, store_enough, store_waits}
use kookaburra.Runtime.Concurrency.{
  IsWrite, IsSame, IsDatabase, System, hold, Reach, idle, later, reads,
}
use kookaburra.Runtime.Concurrency.Safety.{commit_atomic, HasRecords, IsUntouched}
use kookaburra.Runtime.Criteria.{Node, comparison, selector, literal, atom, translate}
use kookaburra.Runtime.Criteria.Keys.{translate-forgets}
use kookaburra.Runtime.Criteria.Meaning.{Reading, greater, less}

-- A database that keeps its records in a list, and refuses no call
abbrev pub Rows : Type 0
Rows = List (String × Object ℕ)

abbrev pub find_row : Rows → String → Option (Object ℕ)
find_row rows id = lookup id rows

abbrev pub insert_row : Object ℕ → Rows → Option (Object ℕ) → Answer Bool × Rows
insert_row row rows none = (acknowledged true, insert row.id row rows)
insert_row row rows (some old) = (duplicate_id, rows)

abbrev pub replace_row : ℕ → Object ℕ → Rows → String → Option (Object ℕ) → Answer Bool × Rows
replace_row version row rows id none = (acknowledged false, rows)
replace_row version row rows id (some old) =
    if nat_eq old.version version
    then (acknowledged true, insert id row rows)
    else (acknowledged false, rows)

abbrev pub memory : Collection Rows ℕ
memory = record {
  insert_one = λ row rows. insert_row row rows (lookup row.id rows);
  replace_one = λ id version row rows. replace_row version row rows id (lookup id rows);
  pause = λ rows. rows;
}

insert-IsWrite : (row : Object ℕ) (rows : Rows) → IsWrite find_row row rows (insert row.id row rows)
insert-IsWrite row rows = (
  rw (lookup-insert row.id row.id row rows, eq_refl row.id) refl,
  λ id. elim (Bool-cases (row.id == id)) [
    | inl same ↦ inl (sym (ground (arith, eq_iff row.id id, same)))
    | inr other ↦ inr (rw (lookup-insert row.id id row rows, other) refl)
  ],
)

inserts_row :
    (row : Object ℕ) (rows : Rows) (was : Option (Object ℕ))
    → ((was ≡ none) × IsWrite find_row row rows (insert_row row rows was).1)
      ⊎ (((insert_row row rows was).0 ≢ acknowledged true)
          × IsSame find_row rows (insert_row row rows was).1)
inserts_row row rows none = inl (refl, insert-IsWrite row rows)
inserts_row row rows (some old) = inr (λ f. cc, λ id. refl)

replaces_row :
    (version : ℕ) (row : Object ℕ) (rows : Rows) (was : Option (Object ℕ))
    → ((old : Object ℕ) × (was ≡ some old)
        × (old.version ≡ version)
        × IsWrite find_row row rows (replace_row version row rows row.id was).1)
      ⊎ (((replace_row version row rows row.id was).0 ≢ acknowledged true)
          × IsSame find_row rows (replace_row version row rows row.id was).1)
replaces_row version row rows none = inr (λ f. cc, λ id. refl)
replaces_row version row rows (some old) = elim (Bool-cases (nat_eq old.version version)) [
  | inl same ↦ rw same (inl (old, refl, ground (arith, same), insert-IsWrite row rows))
  | inr other ↦ rw other (inr (λ f. cc, λ id. refl))
]

memory-IsDatabase : IsDatabase find_row memory
memory-IsDatabase = record {
  inserts = λ row rows. inserts_row row rows (lookup row.id rows);
  replaces = λ version row rows. replaces_row version row rows (lookup row.id rows);
}

abbrev pub row_of : String → ℕ → ℕ → Object ℕ
row_of id version amount = record {
  id = id;
  version = version;
  created = some 1;
  updated = none;
  deleted = null;
  trailers = some [];
  fields = ("amount", amount) ∷ [];
}

abbrev pub rows_at_start : Rows
rows_at_start = ("pot", row_of "pot" 1 5) ∷ []

abbrev pub plain : Schema ℕ
plain = record { fit = λ o. ok o; fit_optional = λ o. ok o; match = λ changes. none }

start-HasRecords : HasRecords find_row rows_at_start
unfolding lookup
start-HasRecords id found e = elim (Bool-cases ("pot" == id)) [
  | inl same ↦
      let here : row_of "pot" 1 5 ≡ found = cc (rw same at e) in
      let known : "pot" ≡ id = ground (arith, eq_iff "pot" id, same) in
      (ap (λ o. o.id) (sym here) ∙ known, omega (arith, ap (λ o. o.version) here))
  | inr other ↦ cc (rw other at e)
]

abbrev pub pot_read : Entity ℕ
pot_read = record { deleted = false; origin = some (row_of "pot" 1 5); state = row_of "pot" 1 5 }

-- Two transitions have read the pot.
abbrev pub both_read : System Rows ℕ
both_read = record {
  world = rows_at_start;
  held = hold (hold (λ client. none) 0 (some pot_read)) 1 (some pot_read);
}

both_read-Reach : Reach find_row memory plain rows_at_start both_read
unfolding lookup from_record stamp
both_read-Reach =
    later (later idle (reads 0 7 "pot" (row_of "pot" 1 5) refl))
      (reads 1 8 "pot" (row_of "pot" 1 5) refl)

commit_atomic_example :
    IsUntouched find_row rows_at_start pot_read.origin pot_read.state
    × IsWrite find_row
        (replace_state 9 pot_read (row_of "pot" 1 6)).state
        rows_at_start
        (try_store memory (replace_state 9 pot_read (row_of "pot" 1 6)).state rows_at_start).1
unfolding lookup insert try_store replace_state stamp
commit_atomic_example =
    commit_atomic find_row memory plain memory-IsDatabase rows_at_start both_read 1 9 pot_read
      (row_of "pot" 1 6) start-HasRecords both_read-Reach refl refl refl refl

-- Whether a database refuses: for as many calls as are left, and then never
abbrev pub refusing : Collection ℕ ℕ
refusing = record {
  insert_one = λ row left. refuse_or left;
  replace_one = λ id version row left. refuse_or left;
  pause = λ left. fewer left;
}
  where
    fewer : ℕ → ℕ
    fewer zero = 0
    fewer (suc left) = left

    refuse_or : ℕ → Answer Bool × ℕ
    refuse_or zero = (acknowledged true, 0)
    refuse_or (suc left) = (refused, suc left)

store_enough_example :
    (store refusing 4 0 (row_of "pot" 1 5) 3 ≡ store refusing 1 0 (row_of "pot" 1 5) 0)
    × (store refusing 4 0 (row_of "pot" 1 5) 3 ≢ none)
unfolding try_store
store_enough_example =
    store_enough refusing 3 4 (row_of "pot" 1 5) 3 (refl, (refl, (refl, tt))) (λ f. cc)
      (omega arith)

always-Refuses : (n : ℕ) → Refuses refusing n (row_of "pot" 1 5) n
unfolding try_store
always-Refuses zero = tt
always-Refuses (suc n) = (refl, always-Refuses n)

store_waits_example : store refusing 12 0 (row_of "pot" 1 5) 12 ≡ none
store_waits_example = store_waits refusing 12 (row_of "pot" 1 5) 12 (always-Refuses 12)

-- Records are their fields, numbers by name; `greater`, `less` and equality are read.
abbrev pub by_amount : Reading ℕ (List (String × ℕ))
by_amount = record {
  compare_field = λ relation row key value. elim value [
    | atom n ↦ elim (lookup key row) [
      | none ↦ false
      | some m ↦ elim relation [ greater ↦ ltb n m | less ↦ ltb m n | _ ↦ false ]
    ]
    | _ ↦ false
  ];
  equals_field = λ row key n. elim (lookup key row) [ none ↦ false | some m ↦ nat_eq n m ];
  is_null = λ row key. not (is_some (lookup key row));
}

abbrev pub wanted : Node ℕ
wanted = comparison ">" (selector "amount") (literal (atom 3))

translate-forgets_example :
    translate {A = ℕ} (some (comparison "==" (selector "id") (literal (atom 3)))) (some 7) none
    ≡ translate {A = ℕ} none (some 7) none
unfolding lookup
translate-forgets_example = translate-forgets "==" "$eq" (atom 3) 7 none refl
