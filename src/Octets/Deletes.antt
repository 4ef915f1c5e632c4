-- ===== src/Octets/Deletes.antt =====
-- When a workflow stops, and when the deletion behind it is made.
use kookaburra.Prelude.{
  String, Bool, true, false, not, List, [], ◌∷◌, ◌++◌, if◌then◌else◌, any, is_some, ◌≡◌, ◌⊎◌, inl,
  inr, refl, sym, ap, ◌∙◌, arith, Bool-cases, append_assoc,
}
use kookaburra.Result.{Result, ok, err}
use kookaburra.Runtime.Eff.{give, after}
use kookaburra.Octets.Workflow.{
  Step, Context, Target, Answer, threw, Report, excepted, reports_of, interrupts, target_of, steps,
  execute, run,
}
use kookaburra.Octets.Actions.{Operations}
use kookaburra.Octets.Writes.{yielded, execute_delete}

module _ {V : Type 0} (answer : Target → Context → Answer V)
    (interleave : List (List (Report V)) → List (Report V)) (context : Context) where
  -- The reports of all units, as if nothing stopped a workflow
  abbrev pub all_reports : List (List Step) → List (Report V)
  all_reports [] = []
  all_reports (unit ∷ units) = execute answer interleave context unit ++ all_reports units

  -- No step of the units reports an error or an exception.
  abbrev pub Undisturbed : List (List Step) → Type 0
  Undisturbed [] = Unit
  Undisturbed (unit ∷ units) =
      (any interrupts (execute answer interleave context unit) ≡ false) × Undisturbed units

  abbrev pub IsStopped : List (List Step) → Type 0
  IsStopped units =
      (done : List (List Step)) × ((last : List Step) × ((rest : List (List Step)) × (units
            ≡ done ++ (last ∷ rest))
          × Undisturbed done
          × (any interrupts (execute answer interleave context last) ≡ true)
          × (run answer interleave context units
              ≡ all_reports done ++ execute answer interleave context last)))

  -- A workflow runs all its units, or up to the first one of which a step reports an error or an
  -- exception, that one included.
  pub run_stops :
      (units : List (List Step))
      → (Undisturbed units × (run answer interleave context units ≡ all_reports units))
        ⊎ IsStopped units
  unfolding run
  run_stops [] = inl (tt, refl)
  run_stops (unit ∷ units) =
      elim (Bool-cases (any interrupts (execute answer interleave context unit))) [
        | inl stops ↦ inr ([], (unit, (units, refl, tt, stops, rw (run, stops) refl)))
        | inr goes ↦ elim (run_stops units) [
          | inl (calm, same) ↦
              inl
                ((goes, calm), rw goes (ap (λ r. execute answer interleave context unit ++ r) same))
          | inr (done, (last, (rest, parts, calm, stops, same))) ↦ inr (
            unit ∷ done,
            (
              last,
              (
                rest,
                ap (◌∷◌ unit) parts,
                (goes, calm),
                stops,
                rw goes (
                    ap (λ r. execute answer interleave context unit ++ r) same
                    ∙ sym (
                        append_assoc (execute answer interleave context unit) (all_reports done)
                          (execute answer interleave context last))),
              ),
            ),
          )
        ]
      ]

after-give : {W A B : Type 0} (p : Result A × W) (b : B) → (after p (λ a. give b)).1 ≡ p.1
after-give (ok a, w) b = refl
after-give (err failure, w) b = refl

abbrev pub has_error : {V : Type 0} → Report V → Bool
has_error r = is_some r.error

module _ {W V : Type 0} (operations : Operations W) (answer : Target → Context → Answer V)
    (interleave : List (List (Report V)) → List (Report V)) (join : String → String → String) where
  yielded-has_error :
      (told : List (Report V))
      → (yielded operations answer interleave join told).1 ≡ not (any has_error told)
  unfolding yielded
  yielded-has_error [] = refl
  yielded-has_error (r ∷ rest) = ground (arith, yielded-has_error rest)

  -- An error among the reports prevents the deletion: nothing is called. Without one the entry is
  -- deleted, once.
  pub execute_delete-has_error :
      (storage url : String) (told : List (Report V)) (w : W)
      → ((any has_error told ≡ true)
          × ((execute_delete operations answer interleave join storage url told w).1 ≡ w))
        ⊎ ((any has_error told ≡ false)
            × ((execute_delete operations answer interleave join storage url told w).1
                ≡ (operations.delete storage url w).1))
  unfolding execute_delete
  execute_delete-has_error storage url told w = elim (Bool-cases (any has_error told)) [
    | inl has ↦ inl (has, rw (yielded-has_error told, has, execute_delete) refl)
    | inr none_has ↦
        inr (none_has, rw (yielded-has_error told, none_has, execute_delete) (after-give _ _))
  ]

  -- An exception does not prevent it: the entry behind a workflow of one step that threw is deleted.
  pub execute_delete-threw :
      (storage url step endpoint : String) (context : Context) (w : W)
      → ((only : List (Report V)) → interleave (only ∷ []) ≡ only)
      → answer (target_of endpoint) context ≡ threw
      → (execute_delete operations answer interleave join storage url
          (run answer interleave context (((step, endpoint) ∷ []) ∷ []))
          w).1
        ≡ (operations.delete storage url w).1
  unfolding run execute steps reports_of interrupts excepted execute_delete yielded
  execute_delete-threw storage url step endpoint context w alone throws =
      let told : run answer interleave context (((step, endpoint) ∷ []) ∷ []) ≡ excepted step ∷ [] =
        ap (λ rs. if any interrupts rs then rs else rs ++ [])
          (alone (reports_of step (answer (target_of endpoint) context))
            ∙ ap (reports_of step) throws) in
      ap (λ t. (execute_delete operations answer interleave join storage url t w).1) told
      ∙ after-give (operations.delete storage url w) (excepted step ∷ [])
