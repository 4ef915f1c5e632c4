-- ===== src/Directives/Running.antt =====
-- Running the sets: at most one of them answers.
use kookaburra.Prelude.{
  Option, none, some, List, [], ◌∷◌, ◌++◌, ◌≡◌, ◌≢◌, ◌↔◌, refl, arith, inl, inr, Option-cases,
}
use kookaburra.Result.{Result, ok, err, ◌>>=◌, Result-cases}
use kookaburra.Rtd.Node.{Params}
use kookaburra.Directives.{DirectiveSet, respond, preflight_from, preflight}

abbrev pub answers : {O : Type 0} → Option O → List O
answers none = []
answers (some out) = out ∷ []

two_answers : {O : Type 0} (out : Option O) (y x : O) (rest : List O) → y ∷ x ∷ rest ≢ answers out
two_answers none y x rest e = cc
two_answers (some z) y x rest e = cc

one_answer :
    {O : Type 0} (output out : Option O) → answers output ++ [] ≡ answers out → output ≡ out
one_answer none none e = refl
one_answer none (some z) e = cc
one_answer (some y) none e = cc
one_answer (some y) (some z) e = cc

-- The answer of a set before those of the sets behind it.
abbrev pub collect : {C O : Type 0} → Option O → Result (List O × C) → Result (List O × C)
collect out (ok (later, last)) = ok (answers out ++ later, last)
collect out (err bad) = err bad

module _ {V D C O : Type 0} where
  -- Every set in turn, with the answers of all.
  pub run_all : List (DirectiveSet V D C O) → C → Params → Result (List O × C)
  run_all [] context params = ok ([], context)
  run_all (set ∷ sets) context params = elim set.family.preflight [
    | none ↦ run_all sets context params
    | some handle ↦ do
      (out, changed) ← handle set.directives context params
      collect out (run_all sets changed params)
  ]

  -- The result of a run that starts with `output` is that of running all sets, if it is the only
  -- answer.
  abbrev Agrees : List (DirectiveSet V D C O) → C → Params → Option O → Option O → C → Type 0
  Agrees sets context params output out last =
      (later : List O) × (run_all sets context params ≡ ok (later, last))
      × (answers output ++ later ≡ answers out)

  handled :
      (r : Result (Option O × C)) (sets : List (DirectiveSet V D C O)) (last : C) (params : Params)
      (output out : Option O)
      → ((context : C) (next : Option O)
          → preflight_from sets context params next ≡ ok (out, last)
          → Agrees sets context params next out last)
      → (r >>= λ (o, changed). respond output o >>= λ next. preflight_from sets changed params next)
        ≡ ok (out, last)
      → (later : List O) × ((r >>= λ (o, changed). collect o (run_all sets changed params))
          ≡ ok (later, last))
        × (answers output ++ later ≡ answers out)
  unfolding respond
  handled (err bad) sets last params output out ih e = cc
  handled (ok (none, c)) sets last params output out ih e =
      let (later, ran, same) = ih c output e in (later, rw ran refl, same)
  handled (ok (some x, c)) sets last params none out ih e =
      let (later, ran, same) = ih c (some x) e in (x ∷ later, rw ran refl, same)
  handled (ok (some x, c)) sets last params (some y) out ih e = cc

  preflight_from-run_all :
      (sets : List (DirectiveSet V D C O)) (context last : C) (params : Params)
      (output out : Option O)
      → preflight_from sets context params output ≡ ok (out, last)
      → Agrees sets context params output out last
  unfolding preflight_from run_all
  preflight_from-run_all [] context last params output out e = ([], ground arith, ground arith)
  preflight_from-run_all (set ∷ sets) context last params output out e =
      elim (Option-cases set.family.preflight) [
        | inl lacks ↦
            rw lacks (preflight_from-run_all sets context last params output out (rw lacks at e))
        | inr (handle, has) ↦ rw has (
            handled (handle set.directives context params) sets last params output out
              (λ c next. preflight_from-run_all sets c last params next out) (rw has at e))
      ]

  responded :
      (r : Result (Option O × C)) (sets : List (DirectiveSet V D C O)) (last : C) (params : Params)
      (output out : Option O) (later : List O)
      → ((context : C) (next : Option O) (rest : List O)
          → run_all sets context params ≡ ok (rest, last)
          → answers next ++ rest ≡ answers out
          → preflight_from sets context params next ≡ ok (out, last))
      → (r >>= λ (o, changed). collect o (run_all sets changed params)) ≡ ok (later, last)
      → answers output ++ later ≡ answers out
      → (r >>= λ (o, changed). respond output o >>= λ next. preflight_from sets changed params next)
        ≡ ok (out, last)
  unfolding respond
  responded (err bad) sets last params output out later ih e s = cc
  responded (ok (o, c)) sets last params output out later ih e s =
      elim (Result-cases (run_all sets c params)) [
        | inl (found, ran) ↦ answered o output c found.0 found.1 ran (rw ran at e) s
        | inr (bad, failed) ↦ cc (rw failed at e)
      ]
    where
      answered :
          (o output : Option O) (c : C) (rest : List O) (end : C)
          → run_all sets c params ≡ ok (rest, end)
          → ◌≡◌ {A = Result (List O × C)} (ok (answers o ++ rest, end)) (ok (later, last))
          → answers output ++ later ≡ answers out
          → (respond output o >>= λ next. preflight_from sets c params next) ≡ ok (out, last)
      answered none output c rest end ran e s = ih c output rest (ground arith) (ground arith)
      answered (some x) none c rest end ran e s = ih c (some x) rest (ground arith) (ground arith)
      answered (some x) (some y) c rest end ran e s =
          absurd (two_answers out y x rest (ground arith))

  run_all-preflight_from :
      (sets : List (DirectiveSet V D C O)) (context last : C) (params : Params)
      (output out : Option O) (later : List O)
      → run_all sets context params ≡ ok (later, last)
      → answers output ++ later ≡ answers out
      → preflight_from sets context params output ≡ ok (out, last)
  unfolding preflight_from run_all
  run_all-preflight_from [] context last params output out later e s =
      ground (arith, one_answer output out)
  run_all-preflight_from (set ∷ sets) context last params output out later e s =
      elim (Option-cases set.family.preflight) [
        | inl lacks ↦
            rw lacks
              (run_all-preflight_from sets context last params output out later (rw lacks at e) s)
        | inr (handle, has) ↦ rw has (
            responded (handle set.directives context params) sets last params output out later
              (λ c next rest ran same.
                run_all-preflight_from sets c last params next out rest ran same)
              (rw has at e) s)
      ]

  -- The sets succeed with an answer, or with none, exactly when running all of them in turn
  -- succeeds, leaving the same context, and that is the only answer.
  pub preflight-run_all_iff :
      (sets : List (DirectiveSet V D C O)) (context last : C) (params : Params) (out : Option O)
      → (preflight sets context params ≡ ok (out, last))
        ↔ (run_all sets context params ≡ ok (answers out, last))
  unfolding preflight
  preflight-run_all_iff sets context last params out = (
    λ e.
        let (later, ran, same) = preflight_from-run_all sets context last params none out e in
        rw (← same) ran,
    λ e. run_all-preflight_from sets context last params none out (answers out) e refl,
  )
