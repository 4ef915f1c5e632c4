-- ===== src/Conveyor.antt =====
-- libraries/conveyor/source/conveyor.js: units of work that arrive one by one are processed in
-- batches, each when the one before is done. A promise is its number in the order of arrival.
pub mod Batches
pub mod Stuck
use kookaburra.Prelude.{
  ℕ, zero, suc, ◌≡◌, Bool, true, false, Option, none, some, List, [], ◌∷◌, ◌++◌, length, nat_eq,
  not, ltb, if◌then◌else◌,
}

-- `list[index]`
abbrev pub get_elem? {ℓ} : {A : Type ℓ} → ℕ → List A → Option A
get_elem? i [] = none
get_elem? zero (x ∷ xs) = some x
get_elem? (suc i) (x ∷ xs) = get_elem? i xs

-- What the awaited processor comes to: an array, another value, `null` or `undefined`, or an exception
pub data Answer (R : Type 0) : Type 0 where
  several : List R → Answer R
  single : R → Answer R
  nullish : Answer R
  threw : Answer R

-- How a promise is settled: with a value, which may be `undefined`, or with a ProcessorException
pub data Outcome (R : Type 0) : Type 0 where
  resolved : Option R → Outcome R
  rejected : Outcome R

-- The fields of the conveyor, the call of the processor that is awaited with its units and promises,
-- and what the callers see: how many promises there are, and those settled, first to last.
pub record Conveyor (U R : Type 0) : Type 0 where
  pub promises : List ℕ
  pub batch : List U
  pub busy : Bool
  pub awaited : Option (List U × List ℕ)
  pub issued : ℕ
  pub settled : List (ℕ × Outcome R)

unfoldable pub new_conveyor : {U R : Type 0} → Conveyor U R
new_conveyor = record {
  promises = [];
  batch = [];
  busy = false;
  awaited = none;
  issued = 0;
  settled = [];
}

-- `result ?? results[i]`; none where there is no `results` to index
unfoldable pub value_at : {R : Type 0} → Answer R → ℕ → Option (Option R)
value_at (several results) i = some (get_elem? i results)
value_at (single result) i = some (some result)
value_at _ i = none

-- `resolve`, from the `i`-th promise on, and whether it comes to its end
unfoldable pub resolve : {R : Type 0} → Answer R → ℕ → List ℕ → List (ℕ × Outcome R) × Bool
unfolding value_at
resolve results i [] = ([], true)
resolve results i (promise ∷ promises) =
    let rest = resolve results (suc i) promises in
    elim (value_at results i) [
      | none ↦ ([], false)
      | some value ↦ ((promise, resolved value) ∷ rest.0, rest.1)
    ]

-- `reject`
unfoldable pub reject : {R : Type 0} → List ℕ → List (ℕ × Outcome R)
reject [] = []
reject (promise ∷ promises) = (promise, rejected) ∷ reject promises

-- `Array.isArray(results) && results.length !== promises.length`
unfoldable pub is_mismatch : {R : Type 0} → Answer R → List ℕ → Bool
is_mismatch (several results) promises = not (nat_eq (length results) (length promises))
is_mismatch _ promises = false

-- The settling of promises, and whether it comes to its end
unfoldable pub settle : {R : Type 0} → Answer R → List ℕ → List (ℕ × Outcome R) × Bool
unfolding resolve reject is_mismatch
settle results promises =
    if is_mismatch results promises then (reject promises, true) else resolve results 0 promises

-- `#process` up to the call of the processor
unfoldable pub begin : {U R : Type 0} → Conveyor U R → Conveyor U R
begin c = record c { batch = []; promises = []; busy = true; awaited = some (c.batch, c.promises) }

-- `#process` behind the settling of promises
unfoldable pub proceed : {U R : Type 0} → Conveyor U R → Conveyor U R
unfolding begin
proceed c =
    let free : Conveyor _ _ = record c { busy = false } in
    if ltb 0 (length c.batch) then begin free else free

-- `#process` from the call of the processor on, once that call comes to an answer
unfoldable pub continue : {U R : Type 0} → Answer R → List ℕ → Conveyor U R → Conveyor U R
unfolding settle proceed
continue threw promises c = record c { awaited = none }
continue results promises c =
    let done = settle results promises in
    let after : Conveyor _ _ = record c { awaited = none; settled = c.settled ++ done.0 } in
    if done.1 then proceed after else after

-- `process`, with `#promise`
unfoldable pub process : {U R : Type 0} → U → Conveyor U R → Conveyor U R
unfolding begin
process unit c =
    let queued : Conveyor _ _ = record c {
      promises = c.promises ++ (c.issued ∷ []);
      batch = c.batch ++ (unit ∷ []);
      issued = suc c.issued;
    } in
    if c.busy then queued else begin queued

-- What happens to a conveyor: a unit arrives, or the awaited processor comes to an answer. The units
-- that have arrived are an index.
pub data Reached {U R : Type 0} (answer : List U → Answer R → Type 0)
    : List U → Conveyor U R → Type 0 where
  starts : Reached answer [] new_conveyor
  arrives :
      {units : List U} {c : Conveyor U R}
      → Reached answer units c
      → (unit : U) → Reached answer (units ++ (unit ∷ [])) (process unit c)
  answers :
      {units : List U} {c : Conveyor U R}
      → Reached answer units c
      → (batch : List U) (promises : List ℕ) → c.awaited ≡ some (batch, promises)
      → (results : Answer R) → answer batch results
      → Reached answer units (continue results promises c)
