-- ===== src/Conveyor/Batches.antt =====
-- What the callers of a conveyor see, where the processor answers for each unit on its own.
use kookaburra.Prelude.{
  ℕ, suc, ◌+◌, ◌≡◌, refl, sym, ap, ◌∙◌, true, false, none, some, List, [], ◌∷◌, ◌++◌, length, map,
  append-nil, append_assoc, arith, length-append,
}
use kookaburra.Conveyor.{
  Answer, several, Outcome, resolved, Conveyor, new_conveyor, value_at, resolve, settle,
  is_mismatch, begin, proceed, continue, process, Reached, starts, arrives, answers, get_elem?,
}

-- Promises in the order of arrival, from number `i` on
unfoldable pub numbers : {U : Type 0} → ℕ → List U → List ℕ
numbers i [] = []
numbers i (unit ∷ units) = i ∷ numbers (suc i) units

numbers-append :
    {U : Type 0} (i n : ℕ) (us vs : List U)
    → n ≡ length us + i
    → numbers i (us ++ vs) ≡ numbers i us ++ numbers n vs
unfolding numbers
numbers-append i n [] vs e = ap (λ k. numbers k vs) (omega (arith, e))
numbers-append i n (u ∷ us) vs e = ap (◌∷◌ i) (numbers-append (suc i) n us vs (omega (arith, e)))

length-numbers : {U : Type 0} (i : ℕ) (us : List U) → length (numbers i us) ≡ length us
unfolding numbers
length-numbers i [] = refl
length-numbers i (u ∷ us) = ap suc (length-numbers (suc i) us)

module _ {U R : Type 0} (f : U → R) where
  -- Each promise with the result of its own unit
  unfoldable pub replies : ℕ → List U → List (ℕ × Outcome R)
  replies i [] = []
  replies i (unit ∷ units) = (i, resolved (some (f unit))) ∷ replies (suc i) units

  -- The processor answers for each unit.
  abbrev pub IsEach : List U → Answer R → Type 0
  IsEach units results = results ≡ several (map f units)

  replies-append :
      (i n : ℕ) (us vs : List U)
      → n ≡ length us + i
      → replies i (us ++ vs) ≡ replies i us ++ replies n vs
  unfolding replies
  replies-append i n [] vs e = ap (λ k. replies k vs) (omega (arith, e))
  replies-append i n (u ∷ us) vs e =
      ap (◌∷◌ (i, resolved (some (f u)))) (replies-append (suc i) n us vs (omega (arith, e)))

  abbrev idle : List U → Conveyor U R
  idle done = record {
    promises = [];
    batch = [];
    busy = false;
    awaited = none;
    issued = length done;
    settled = replies 0 done;
  }

  -- A batch is processed while others wait.
  abbrev stage : List U → List U → List U → List ℕ → ℕ → Conveyor U R
  stage done batch waiting promises issued = record {
    promises = promises;
    batch = waiting;
    busy = true;
    awaited = some (batch, numbers (length done) batch);
    issued = issued;
    settled = replies 0 done;
  }

  abbrev working : List U → List U → List U → Conveyor U R
  working done batch waiting =
      stage done batch waiting (numbers (length done + length batch) waiting)
        (length done + length batch + length waiting)

  process-idle : (done : List U) (u : U) → process u (idle done) ≡ working done (u ∷ []) []
  unfolding process begin numbers
  process-idle done u = ap (stage done (u ∷ []) [] []) (omega arith)

  process-working :
      (done batch waiting : List U) (u : U)
      → process u (working done batch waiting) ≡ working done batch (waiting ++ (u ∷ []))
  unfolding process numbers
  process-working done batch waiting u =
      let start : ℕ = length done + length batch in
      let next = start + length waiting in
      let more : List U = waiting ++ (u ∷ []) in
      ap (λ ps. stage done batch more ps (suc next))
        (sym (numbers-append start next waiting (u ∷ []) (omega arith)))
      ∙ ap (stage done batch more (numbers start more))
          (omega (arith, length-append waiting (u ∷ [])))

  -- Results at the promises of their units
  resolve-replies :
      (all : List R) (i j : ℕ) (us : List U)
      → ((k n : ℕ) → n ≡ k + i → get_elem? n all ≡ get_elem? k (map f us))
      → resolve (several all) i (numbers j us) ≡ (replies j us, true)
  unfolding resolve value_at numbers replies
  resolve-replies all i j [] h = refl
  resolve-replies all i j (u ∷ us) h =
      let rest : resolve (several all) (suc i) (numbers (suc j) us) ≡ (replies (suc j) us, true) =
        resolve-replies all (suc i) (suc j) us (λ k n e. h (suc k) n (omega (arith, e))) in
      cc (rest, h 0 i (omega arith))

  length-map : (us : List U) → length (map f us) ≡ length us
  length-map [] = refl
  length-map (u ∷ us) = ap suc (length-map us)

  resolve-each :
      (i : ℕ) (us : List U) → resolve (several (map f us)) 0 (numbers i us) ≡ (replies i us, true)
  resolve-each i us =
      resolve-replies (map f us) 0 i us
        (λ k n e. ap (λ m. get_elem? m (map f us)) (omega (arith, e)))

  settle-each :
      (i : ℕ) (us : List U) → settle (several (map f us)) (numbers i us) ≡ (replies i us, true)
  unfolding settle is_mismatch
  settle-each i us = ground (arith, length-numbers i us, length-map us, resolve-each i us)

  -- The state behind the settling
  abbrev done_with : List U → List U → List U → ℕ → ℕ → Conveyor U R
  done_with done batch waiting first issued = record {
    promises = numbers first waiting;
    batch = waiting;
    busy = true;
    awaited = none;
    issued = issued;
    settled = replies 0 done ++ replies (length done) batch;
  }

  continue-proceed :
      (done batch waiting : List U)
      → continue (several (map f batch)) (numbers (length done) batch) (working done batch waiting)
        ≡ proceed (
            done_with done batch waiting
              (length done + length batch)
              (length done + length batch + length waiting))
  unfolding continue numbers
  continue-proceed done batch waiting = cc (settle-each (length done) batch)

  continue-idle :
      (done batch : List U)
      → continue (several (map f batch)) (numbers (length done) batch) (working done batch [])
        ≡ idle (done ++ batch)
  unfolding proceed numbers
  continue-idle done batch =
      let counted : length (done ++ batch) ≡ length done + length batch + 0 =
        omega (arith, length-append done batch) in
      let told : replies 0 (done ++ batch) ≡ replies 0 done ++ replies (length done) batch =
        replies-append 0 (length done) done batch (omega arith) in
      continue-proceed done batch [] ∙ cc (counted, told)

  proceed-begin :
      (c : Conveyor U R) (u : U) (waiting : List U)
      → c.batch ≡ u ∷ waiting
      → proceed c ≡ begin (record c { busy = false })
  unfolding proceed
  proceed-begin c u waiting e = ground (arith, ap length e)

  continue-working :
      (done batch waiting : List U) (u : U)
      → continue
          (several (map f batch))
          (numbers (length done) batch)
          (working done batch (u ∷ waiting))
        ≡ working (done ++ batch) (u ∷ waiting) []
  unfolding proceed begin numbers
  continue-working done batch waiting u =
      let first : length (done ++ batch) ≡ length done + length batch = length-append done batch in
      let counted : length (done ++ batch) + length (u ∷ waiting) + 0
          ≡ length done + length batch + length (u ∷ waiting) =
        omega (arith, first) in
      let told : replies 0 (done ++ batch) ≡ replies 0 done ++ replies (length done) batch =
        replies-append 0 (length done) done batch (omega arith) in
      continue-proceed done batch (u ∷ waiting)
      ∙ (proceed-begin
            (done_with done batch (u ∷ waiting) (length done + length batch)
              (length done + length batch + length (u ∷ waiting)))
            u waiting refl
          ∙ cc (first, counted, told))

  -- Where a conveyor is: at rest with everything done, or at a batch with the others waiting
  data Stage (units : List U) (c : Conveyor U R) : Type 0 where
    rests : c ≡ idle units → Stage units c
    works :
        (done batch waiting : List U)
        → units ≡ done ++ (batch ++ waiting)
        → c ≡ working done batch waiting
        → Stage units c

  the_call :
      (done now waiting : List U) (c : Conveyor U R) (batch : List U) (promises : List ℕ)
      (results : Answer R)
      → c ≡ working done now waiting
      → c.awaited ≡ some (batch, promises)
      → IsEach batch results
      → continue results promises c
        ≡ continue (several (map f now)) (numbers (length done) now) (working done now waiting)
  the_call done now waiting c batch promises results e h each = cc (ap (λ s. s.awaited) e)

  Reached-Stage : {units : List U} {c : Conveyor U R} → Reached IsEach units c → Stage units c
  unfolding new_conveyor replies
  Reached-Stage starts = rests refl
  Reached-Stage (arrives {units} {c} before u) = elim (Reached-Stage before) [
    | rests e ↦ works units (u ∷ []) [] refl (ap (process u) e ∙ process-idle units u)
    | works done batch waiting s e ↦
        works done batch (waiting ++ (u ∷ []))
          (ap (λ us. us ++ (u ∷ [])) s
            ∙ cc (
              append_assoc done (batch ++ waiting) (u ∷ []),
              append_assoc batch waiting (u ∷ []),
            ))
          (ap (process u) e ∙ process-working done batch waiting u)
  ]
  Reached-Stage (answers {units} {c} before batch promises h results each) =
      elim (Reached-Stage before) [
        | rests e ↦ absurd (cc (ap (λ s. s.awaited) e, h))
        | works done now [] parts e ↦ rests (
            the_call done now [] c batch promises results e h each
            ∙ (continue-idle done now ∙ ap idle (cc (parts, append-nil now))))
        | works done now (u ∷ waiting) parts e ↦
            works (done ++ now) (u ∷ waiting) []
              (parts ∙ cc (append_assoc done now (u ∷ waiting), append-nil (u ∷ waiting)))
              (the_call done now (u ∷ waiting) c batch promises results e h each
                ∙ continue-working done now waiting u)
      ]

  -- Whatever has happened, the callers that have an answer are the first ones, and each has the
  -- result of its own unit.
  pub Reached-replies :
      {units : List U} {c : Conveyor U R}
      → Reached IsEach units c
      → (done rest : List U) × (units ≡ done ++ rest) × (c.settled ≡ replies 0 done)
  Reached-replies {units} reached = elim (Reached-Stage reached) [
    | rests e ↦ (units, [], sym (append-nil units), ap (λ s. s.settled) e)
    | works done batch waiting parts e ↦ (done, batch ++ waiting, parts, ap (λ s. s.settled) e)
  ]

  -- The processor answers, if it is awaited.
  unfoldable pub answered : Conveyor U R → Conveyor U R
  answered c = elim c.awaited [ none ↦ c | some call ↦ continue (several (map f call.0)) call.1 c ]

  answered-rests : (done batch : List U) → answered (working done batch []) ≡ idle (done ++ batch)
  unfolding answered
  answered-rests done batch = continue-idle done batch

  answered-works :
      (done batch waiting : List U) (u : U)
      → answered (working done batch (u ∷ waiting)) ≡ working (done ++ batch) (u ∷ waiting) []
  unfolding answered
  answered-works done batch waiting u = continue-working done batch waiting u

  -- Two answers of the processor are enough for every caller that has come so far: each has the
  -- result of its own unit, in the order of arrival.
  pub answered-replies :
      {units : List U} {c : Conveyor U R}
      → Reached IsEach units c
      → (answered (answered c)).settled ≡ replies 0 units
  unfolding answered
  answered-replies {units} reached = elim (Reached-Stage reached) [
    | rests e ↦ ap (λ s. (answered (answered s)).settled) e
    | works done batch [] parts e ↦
        ap (λ s. (answered (answered s)).settled) e
        ∙ (ap (λ s. (answered s).settled) (answered-rests done batch)
            ∙ cc (parts, append-nil batch))
    | works done batch (u ∷ waiting) parts e ↦
        ap (λ s. (answered (answered s)).settled) e
        ∙ (ap (λ s. (answered s).settled) (answered-works done batch waiting u)
            ∙ (ap (λ s. s.settled) (answered-rests (done ++ batch) (u ∷ waiting))
                ∙ cc (parts, append_assoc done batch (u ∷ waiting))))
  ]
