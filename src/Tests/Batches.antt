-- ===== src/Tests/Batches.antt =====
-- Concrete runs of a conveyor and of the life of connectors.
use kookaburra.Prelude.{ℕ, suc, ◌≡◌, refl, some, List, [], ◌∷◌, ◌++◌, map}
use kookaburra.Conveyor.{
  several, threw, single, Conveyor, new_conveyor, process, continue, Reached, starts, arrives,
  begin, proceed, settle, resolve, reject, is_mismatch, value_at, resolved, rejected,
}
use kookaburra.Conveyor.Batches.{Reached-replies, answered-replies, replies, answered}
use kookaburra.Conveyor.Stuck.{continue-threw, here, then_arrives}

abbrev two : Conveyor ℕ ℕ
two = process 8 (process 7 new_conveyor)

abbrev two_arrived : Reached (λ units results. results ≡ several (map suc units)) (7 ∷ 8 ∷ []) two
two_arrived = arrives (arrives starts 7) 8

-- One result for two units
mismatched : (continue (several (1 ∷ 2 ∷ [])) (0 ∷ []) two).settled ≡ (0, rejected) ∷ []
unfolding new_conveyor process begin proceed continue settle resolve reject is_mismatch value_at
mismatched = refl

-- Another value than an array is the result of each unit.
shared_result : (continue (single 5) (0 ∷ []) two).settled ≡ (0, resolved (some 5)) ∷ []
unfolding new_conveyor process begin proceed continue settle resolve reject is_mismatch value_at
shared_result = refl

Reached-replies_example :
    (done : List ℕ) × (rest : List ℕ) × ((7 ∷ 8 ∷ []) ≡ done ++ rest)
    × (two.settled ≡ replies suc 0 done)
Reached-replies_example = Reached-replies suc two_arrived

answered-replies_example : (answered suc (answered suc two)).settled ≡ replies suc 0 (7 ∷ 8 ∷ [])
answered-replies_example = answered-replies suc two_arrived

continue-threw_example : (process 9 (continue threw (0 ∷ []) two)).settled ≡ two.settled
unfolding process new_conveyor
continue-threw_example =
    continue-threw two (process 9 (continue threw (0 ∷ []) two)) (0 ∷ []) refl (then_arrives here 9)
