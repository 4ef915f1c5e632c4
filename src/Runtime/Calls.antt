-- ===== src/Runtime/Calls.antt =====
-- runtime/core/src/{call,transmission,component}.js: a call of an operation, from the caller's
-- contract over the bindings to the operation of a component. Replies that are streams pass as
-- they are and are left out.
pub mod Bindings
pub mod Contracts
use kookaburra.Prelude.{
  ℕ, String, Bool, true, false, Option, none, some, List, [], ◌∷◌, if◌then◌else◌, or_else,
}
use kookaburra.Result.{Result, ok, err, Failure, exception, fault}
use kookaburra.Text.{◌+++◌}
use kookaburra.Dict.{lookup}
use kookaburra.Runtime.Eff.{Eff, ◌>>=◌, give, throw}
use kookaburra.Runtime.Operation.{Answer, Reply, null_reply, answer, failed, Request}

abbrev pub transmission : ℕ
transmission = 401

-- A binding to a component: `request` gives no reply where it is `false`, that is rejected, and
-- `task` may not be there.
pub record Binding (W V R : Type 0) : Type 0 where
  pub request : Request V R → Eff W (Option (Reply V))
  pub task : Option (Request V R → Eff W (Unit {0}))

-- What a call gives its caller: a value, `null` too, or an error as a value
pub data Outcome (V : Type 0) : Type 0 where
  value : Option V → Outcome V
  problem : V → Outcome V

-- What `Call.invoke` makes of a reply
unfoldable pub outcome_of : {W V : Type 0} → Reply V → Eff W (Outcome V)
outcome_of null_reply = give (value none)
outcome_of (failed failure) = throw failure
outcome_of (answer reply) = elim reply.error [
  | some e ↦ give (problem e)
  | none ↦ give (value reply.output)
]

-- The request that is sent: its input is `null` if there is none, and it is authentic.
unfoldable pub prepare : {V R : Type 0} → V → Request V R → Request V R
prepare null_input request = record request { input = some (or_else request.input null_input) }

abbrev pub authentic : {V R : Type 0} → Request V R → Request V R
authentic request = record request { authentic = true }

module _ {W V R : Type 0} where
  -- What a binding makes of a request that is a task, or is not
  unfoldable pub try_binding : Bool → Binding W V R → Request V R → Eff W (Option (Reply V))
  try_binding true binding request = elim binding.task [
    | none ↦ give none
    | some run ↦ do done ← run request; give (some null_reply)
  ]
  try_binding false binding request = binding.request request

  -- `Transmission.request`
  unfoldable pub transmit : Bool → List (Binding W V R) → Request V R → Eff W (Reply V)
  unfolding try_binding
  transmit task [] request = throw (exception transmission "All bindings rejected.")
  transmit task (binding ∷ bindings) request = try_binding task binding request >>= λ reply.
      elim reply [ none ↦ transmit task bindings request | some r ↦ give r ]

  -- `Call.invoke`, given the contract's `fit` and `null`
  unfoldable pub call :
      (Request V R → Result (Unit {0}))
      → V
      → Bool
      → List (Binding W V R)
      → Request V R
      → Eff W (Outcome V)
  unfolding prepare transmit outcome_of
  call fit null_input task bindings request =
      (λ w. (fit (prepare null_input request), w)) >>= λ valid.
      transmit task bindings (authentic (prepare null_input request)) >>= λ reply. outcome_of reply

  -- `Component.invoke`; an operation's `invoke` never throws.
  unfoldable pub invoke_endpoint :
      String
      → List (String × (Request V R → Eff W (Reply V)))
      → String
      → Request V R
      → Eff W (Reply V)
  unfolding lookup
  invoke_endpoint id operations endpoint request = elim (lookup endpoint operations) [
    | none ↦ throw (fault ("Endpoint '" +++ endpoint +++ "' is not provided by '" +++ id +++ "'"))
    | some operation ↦ operation request
  ]
