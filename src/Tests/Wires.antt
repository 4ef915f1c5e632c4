-- ===== src/Tests/Wires.antt =====
-- Calls over bindings, and a property that is set to `null`.
use kookaburra.Prelude.{ℕ, suc, String, true, false, none, some, List, [], ◌∷◌, ◌≡◌, refl}
use kookaburra.Result.{Result, ok, err, ◌>>=◌, Failure, exception}
use kookaburra.Runtime.Eff.{Eff, give, throw}
use kookaburra.Runtime.Entity.{Object, Entity, Deleted}
use kookaburra.Runtime.State.{Query, Backend, commit}
use kookaburra.Runtime.Operation.{Answer, Reply, answer, Request, Task}
use kookaburra.Runtime.Calls.{Binding}
use kookaburra.Runtime.Difference.{
  Value, null, number, nest, Members, no_members, member, property, difference,
}
use kookaburra.Runtime.Difference.Throws.{commit-throws}

abbrev pub six : Answer ℕ
six = record { output = some 6; error = none }

abbrev pub ask : Request ℕ String
ask = record { input = none; query = some "id"; entity = none; authentic = false }

-- The world counts the requests that were sent.
abbrev pub rejecting : Binding ℕ ℕ String
rejecting = record { request = λ request sent. (ok none, suc sent); task = none }

abbrev pub replying : Binding ℕ ℕ String
replying = record { request = λ request sent. (ok (some (answer six)), suc sent); task = none }

abbrev pub missing : Task ℕ ℕ → Eff ℕ (Reply ℕ)
missing task = throw (exception 302 "StateNotFoundException")

abbrev pub strict : Request ℕ String → Result (Unit {0})
strict request = err (exception 202 "")

abbrev pub lenient : Request ℕ String → Result (Unit {0})
lenient request = ok tt

abbrev pub parsed : String → Result (Query ℕ)
parsed id = ok (record { id = some id; version = none; criteria = none })

abbrev pub members_of : List (String × Value) → Members
members_of [] = no_members
members_of ((key, value) ∷ fields) = member key value (members_of fields)

abbrev pub profile : ℕ → Value → Object Value
profile version address = record {
  id = "me";
  version = version;
  created = some 1;
  updated = none;
  deleted = Deleted.null;
  trailers = some [];
  fields = ("address", address) ∷ [];
}

-- The world counts the writes.
abbrev pub profiles : Backend ℕ Value ℕ
profiles = record {
  schema = record { fit = λ o. ok o; fit_optional = λ o. ok o; match = λ changes. none };
  associated = false;
  get = λ query. give none;
  find = λ query. give [];
  store = λ o writes. (ok true, suc writes);
  upsert = λ query changes. give none;
  ensure = λ query properties o. give none;
  emit = λ event. give tt;
  now = λ writes. 9;
  new_id = λ writes. ("fresh", writes);
  difference = λ a b. difference (members_of a.fields) (members_of b.fields) >>= λ d. ok [];
  properties_of = λ o. o.fields;
  output_of = λ o. none;
}

abbrev pub moved_out : Entity Value
moved_out = record {
  deleted = false;
  origin = some (profile 1 (nest (member "zip" (number 7) no_members)));
  state = profile 2 null;
}

commit-throws_example : (f : Failure) × (commit profiles moved_out none 3 ≡ (err f, 4))
unfolding property
commit-throws_example =
    commit-throws profiles members_of moved_out
      (profile 1 (nest (member "zip" (number 7) no_members))) none "address"
      (member "zip" (number 7) no_members) 3 4 (λ f e. rw e refl) refl refl refl refl
