-- ===== src/Octets/Workflow.antt =====
-- extensions/exposition/source/directives/octets/workflows/{Workflow,Execution}.ts: a workflow runs its
-- units in turn, and the steps of a unit at the same time. What components answer is a function of the
-- call, and the order in which the reports of concurrent steps come is a parameter.
use Prim.Native.String.{[], ◌∷◌}
use kookaburra.Prelude.{
  ℕ, zero, suc, String, Bool, true, false, ◌||◌, Option, none, some, List, [], ◌∷◌, ◌++◌,
  if◌then◌else◌, any, is_some,
}
use kookaburra.Text.{split_on, starts_with}
use kookaburra.Dict.{assign}
use kookaburra.Storages.{Metadata}

-- `Unit`: the endpoints by their steps
abbrev pub Step : Type 0
Step = String × String

-- `Location`
pub record Location : Type 0 where
  pub authority : String
  pub bearer : Option String
  pub storage : String
  pub path : String

-- `Context` of an execution
pub record Context : Type 0 where
  pub authority : String
  pub bearer : Option String
  pub storage : String
  pub path : String
  pub entry : Metadata
  pub parameters : List (String × String)

-- What a call names
pub record Target : Type 0 where
  pub namespace : String
  pub component : Option String
  pub operation : String
  pub task : Bool

-- `text.slice(n)`
unfoldable pub slice : ℕ → String → String
slice zero text = text
slice (suc n) [] = []
slice (suc n) (c ∷ text) = slice n text

unfoldable pub reverse_onto : List String → List String → List String
reverse_onto [] done = done
reverse_onto (x ∷ xs) done = reverse_onto xs (x ∷ done)

-- `const [operation, component, namespace = 'default']`
abbrev pub named_by : Bool → List String → Target
named_by task [] = record { namespace = "default"; component = none; operation = ""; task = task }
named_by task (operation ∷ []) = record {
  namespace = "default";
  component = none;
  operation = operation;
  task = task;
}
named_by task (operation ∷ component ∷ []) = record {
  namespace = "default";
  component = some component;
  operation = operation;
  task = task;
}
named_by task (operation ∷ component ∷ namespace ∷ rest) = record {
  namespace = namespace;
  component = some component;
  operation = operation;
  task = task;
}

-- `call`, up to the invocation
unfoldable pub target_of : String → Target
unfolding slice reverse_onto
target_of endpoint =
    let task = starts_with endpoint "task:" in
    let name = if task then slice 5 endpoint else endpoint in
    named_by task (reverse_onto (split_on b'.' name) [])

-- `undefined`, a value, or an `Error` by its code
pub data Outcome (V : Type 0) : Type 0 where
  undefined : Outcome V
  value : V → Outcome V
  failure : String → Outcome V

-- What a component answers: a result, or a stream of results that ends well or not; or it throws.
pub data Answer (V : Type 0) : Type 0 where
  single : Outcome V → Answer V
  streamed : List (Outcome V) → Bool → Answer V
  threw : Answer V

pub data Status : Type 0 where
  completed exception : Status

-- `Report`
pub record Report (V : Type 0) : Type 0 where
  pub step : String
  pub status : Option Status
  pub output : Option V
  pub error : Option String

abbrev pub is_exception : Option Status → Bool
is_exception (some exception) = true
is_exception _ = false

module _ {V : Type 0} where
  -- `report`
  unfoldable pub report : String → Option Status → Outcome V → Report V
  report step status undefined = record {
    step = step;
    status = status;
    output = none;
    error = none;
  }
  report step status (value v) = record {
    step = step;
    status = status;
    output = some v;
    error = none;
  }
  report step status (failure code) = record {
    step = step;
    status = status;
    output = none;
    error = some code;
  }

  -- `exception`
  unfoldable pub excepted : String → Report V
  excepted step = record { step = step; status = some exception; output = none; error = none }

  -- `stream`
  unfoldable pub stream : String → List (Outcome V) → Bool → List (Report V)
  unfolding report excepted
  stream step [] true = report step (some completed) undefined ∷ []
  stream step [] false = excepted step ∷ []
  stream step (result ∷ results) ended = report step none result ∷ stream step results ended

  -- What a step of `execute` pushes
  unfoldable pub reports_of : String → Answer V → List (Report V)
  unfolding report stream excepted
  reports_of step (single result) = report step (some completed) result ∷ []
  reports_of step (streamed results ended) = stream step results ended
  reports_of step threw = excepted step ∷ []

  -- A report that comes with `this.interrupted = true`
  unfoldable pub interrupts : Report V → Bool
  interrupts r = is_some r.error || is_exception r.status

  module _ (answer : Target → Context → Answer V)
      (interleave : List (List (Report V)) → List (Report V)) (context : Context) where
    -- The reports of each step of a unit
    unfoldable pub steps : List Step → List (List (Report V))
    unfolding reports_of target_of
    steps [] = []
    steps ((step, endpoint) ∷ unit) =
        reports_of step (answer (target_of endpoint) context) ∷ steps unit

    -- `execute`
    unfoldable pub execute : List Step → List (Report V)
    unfolding steps
    execute unit = interleave (steps unit)

    -- `run`, with what the stream reads
    unfoldable pub run : List (List Step) → List (Report V)
    unfolding execute interrupts
    run [] = []
    run (unit ∷ units) =
        let rest = run units in
        let reports = execute unit in if any interrupts reports then reports else reports ++ rest

-- The context that `Workflow.execute` makes; `join` is posix.join.
unfoldable pub context_of :
    (String → String → String) → Location → String → Metadata → List (String × String) → Context
context_of join location id entry parameters = record {
  authority = location.authority;
  bearer = location.bearer;
  storage = location.storage;
  path = join location.path id;
  entry = entry;
  parameters = assign [] parameters;
}
