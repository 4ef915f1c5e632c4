-- ===== src/Gateway/Answers.antt =====
-- Where the gateway's responses come from.
use kookaburra.Prelude.{true, none, some, ◌≡◌, refl, arith, Bool-cases, Option-cases, inl, inr}
use kookaburra.Result.{Result, ok, err, Failure, exception, Result-cases, >>=-eq-ok}
use kookaburra.Rtd.Node.{Params}
use kookaburra.Rtd.Factory.{Method}
use kookaburra.Gateway.{
  rethrow, catch_rethrow, ends_with_slash, Reads, Services, call_method, run_method,
}

-- What `rethrow` throws is thrown again unchanged by another `rethrow`.
pub rethrow_idempotent : (failure : Failure) → rethrow (rethrow failure) ≡ rethrow failure
unfolding rethrow
rethrow_idempotent (exception code message) = ground arith
rethrow_idempotent failure = refl

catch-ok : {A : Type 0} (r : Result A) (a : A) → catch_rethrow r ≡ ok a → r ≡ ok a
catch-ok (ok b) a e = e
catch-ok (err f) a e = cc

module _ {D E C O : Type 0} (reads : Reads C) (services : Services D E C O) where
  -- A response of a method is settled from an answer of its directives, or from the reply of its
  -- endpoint, which is called only if the directives pass, the path ends with a slash and the
  -- accepted type is known.
  pub data IsAnswered (method : Method D E) (context : C) (params : Params) (response : O)
      (called : C) : Type 0 where
    interrupted :
        services.preflight method.directives context params ≡ ok (some response, called)
        → IsAnswered method context params response called
    replied :
        (ready : C) (endpoint : E)
        → services.preflight method.directives context params ≡ ok (none, ready)
        → ends_with_slash (reads.pathname ready) ≡ true
        → reads.acceptable ready ≡ true
        → method.endpoint ≡ some endpoint
        → services.call endpoint ready params ≡ ok (response, called)
        → IsAnswered method context params response called

  call_method-ok :
      (method : Method D E) (ready : C) (params : Params) (response : O) (called : C)
      → call_method reads services method ready params ≡ ok (response, called)
      → (ends_with_slash (reads.pathname ready) ≡ true)
        × (reads.acceptable ready ≡ true)
        × ((endpoint : E) × (method.endpoint ≡ some endpoint)
            × (services.call endpoint ready params ≡ ok (response, called)))
  unfolding call_method
  call_method-ok method ready params response called e =
      elim (Bool-cases (ends_with_slash (reads.pathname ready))) [
        | inl slash ↦ elim (Bool-cases (reads.acceptable ready)) [
          | inl known ↦ elim (Option-cases method.endpoint) [
            | inl lacks ↦ cc (rw (slash, known, lacks, call_method) at e)
            | inr (endpoint, has) ↦ (
              slash,
              known,
              (endpoint, has, catch-ok _ _ (rw (slash, known, has, call_method) at e)),
            )
          ]
          | inr unknown ↦ cc (rw (slash, unknown, call_method) at e)
        ]
        | inr open_end ↦ cc (rw (open_end, call_method) at e)
      ]

  -- The response of a method is settled from an answer of its directives, or from the reply of
  -- its endpoint, called after the directives passed, the slash and the accepted type were checked.
  pub run_method-IsAnswered :
      (method : Method D E) (context last : C) (params : Params) (settled : O)
      → run_method reads services method context params ≡ ok (settled, last)
      → (response : O) × ((called : C) × IsAnswered method context params response called
          × (services.settle method.directives called response ≡ ok (settled, last)))
  unfolding run_method
  run_method-IsAnswered method context last params settled e =
      elim (Result-cases (services.preflight method.directives context params)) [
        | inl ((none, ready), passed) ↦
            let ((response, called), replies, e') =
              >>=-eq-ok (call_method reads services method ready params) _ (settled, last)
                (rw (passed, run_method) at e) in
            let (slash, known, (endpoint, has, called_ok)) =
              call_method-ok method ready params response called replies in
            (
              response,
              (called, replied ready endpoint passed slash known has called_ok, catch-ok _ _ e'),
            )
        | inl ((some output, ready), passed) ↦
            (output, (ready, interrupted passed, catch-ok _ _ (rw (passed, run_method) at e)))
        | inr (failure, failed) ↦ cc (rw (failed, run_method) at e)
      ]
