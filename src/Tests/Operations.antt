-- ===== src/Tests/Operations.antt =====
-- Transitions over a storage that conflicts for a while.
use kookaburra.Prelude.{ℕ, zero, suc, Bool, true, false, none, some, [], ◌∷◌, ◌≡◌, refl, arith}
use kookaburra.Result.{Result, ok}
use kookaburra.Runtime.Eff.{give}
use kookaburra.Runtime.Entity.{Object, Entity, null, stamp, from_record, set, replace_state}
use kookaburra.Runtime.State.{Backend, object, object_of, commit, announce, event}
use kookaburra.Runtime.Operation.{
  Task, Algorithm, present, acquire, concluded, settle, settle_state, transit_once, transit,
}
use kookaburra.Runtime.Operation.Retries.{Conflicts, transit-replies}

abbrev pub counter : Object ℕ
counter = record {
  id = "counter";
  version = 1;
  created = some 1;
  updated = none;
  deleted = null;
  trailers = some [];
  fields = ("value", 5) ∷ [];
}

-- How many writes will conflict; a pause takes one away.
abbrev pub write_after : ℕ → Result Bool × ℕ
write_after zero = (ok true, 0)
write_after (suc left) = (ok false, suc left)

abbrev pub busy : Backend ℕ ℕ ℕ
busy = record {
  schema = record { fit = λ o. ok o; fit_optional = λ o. ok o; match = λ changes. none };
  associated = false;
  get = λ query. give (some counter);
  find = λ query. give [];
  store = λ o left. write_after left;
  upsert = λ query changes. give none;
  ensure = λ query properties o. give none;
  emit = λ event. give tt;
  now = λ left. 9;
  new_id = λ left. ("fresh", left);
  difference = λ a b. ok [];
  properties_of = λ o. o.fields;
  output_of = λ o. none;
}

abbrev pub increment : Algorithm ℕ ℕ
increment = record {
  on_object = λ input o.
      give (record { output = some 6; error = none }, record o { fields = ("value", 6) ∷ [] });
  on_scope = λ input scope. give (record { output = none; error = none });
  on_changes = λ input changes. give (record { output = none; error = none }, changes);
}

abbrev pub one_counter : Task ℕ ℕ
one_counter = record {
  input = none;
  query = some (record { id = some "counter"; version = none; criteria = none });
  entity = none;
}

abbrev pub wait : ℕ → ℕ
wait zero = 0
wait (suc left) = left

transit-replies_example :
    transit busy increment wait true one_counter 2
    ≡ (ok (record { output = some 6; error = none }), 0)
unfolding transit_once acquire object object_of present from_record stamp settle settle_state set
    replace_state commit announce event concluded
transit-replies_example =
    transit-replies busy increment wait one_counter 2 (record { output = some 6; error = none }) 2 0
      (omega arith)
      (
        (record { output = some 6; error = none }, refl),
        ((record { output = some 6; error = none }, refl), tt),
      )
      refl

-- So many conflicts, and seven more
abbrev pub and_seven : ℕ → ℕ
and_seven zero = 7
and_seven (suc n) = suc (and_seven n)

conflicting :
    (n : ℕ) → Conflicts wait (transit_once busy increment true one_counter) n (and_seven n)
unfolding transit_once acquire object object_of present from_record stamp settle settle_state set
    replace_state commit announce event concluded
conflicting zero = tt
conflicting (suc n) = ((record { output = some 6; error = none }, refl), conflicting n)

abbrev pub counted : Entity ℕ
counted = record { deleted = false; origin = some counter; state = counter }
