-- ===== src/Runtime/Calls/Contracts.antt =====
-- Which contract a call meets.
use kookaburra.Prelude.{String, none, some, List, ◌≡◌, refl}
use kookaburra.Result.{Result, ok, err}
use kookaburra.Runtime.Eff.{Eff, ◌>>=◌, give, rescue}
use kookaburra.Runtime.State.{Query}
use kookaburra.Runtime.Operation.{Reply, Request, Task, failed}
use kookaburra.Runtime.Invocation.{perform, invoke, as_exception}
use kookaburra.Runtime.Calls.{Binding, Outcome, outcome_of}

-- A binding that hands requests over to an operation, as they are
abbrev pub direct : {W V R : Type 0} → (Request V R → Eff W (Reply V)) → Binding W V R
direct operation = record {
  request = λ request. operation request >>= λ reply. give (some reply);
  task = none;
}

-- What a caller gets of what an operation's `process` gives or throws
abbrev pub settled : {W V : Type 0} → Result (Reply V) × W → Result (Outcome V) × W
settled (ok reply, w) = outcome_of reply w
settled (err failure, w) = (err (as_exception failure), w)

rescued :
    {W V : Type 0} (p : Result (Reply V) × W)
    → (reply : Reply V) × ((last : W) × (rescue p (λ failure. failed (as_exception failure))
          ≡ (ok reply, last)))
rescued (ok reply, w) = (reply, (w, refl))
rescued (err failure, w) = (failed (as_exception failure), (w, refl))

module _ {W V N R : Type 0} (check fit : Request V R → Result (Unit {0}))
    (parse : R → Result (Query N)) (fit_properties : List (String × V) → Result (Unit {0}))
    (process : Task V N → Eff W (Reply V)) where
  -- An operation's `invoke` never throws: exceptions are replies.
  pub invoke_total :
      (request : Request V R) (w : W)
      → (reply : Reply V) × ((last : W) × (invoke check parse fit_properties process request w
            ≡ (ok reply, last)))
  unfolding invoke
  invoke_total request w = rescued (perform check parse fit_properties process request w)
