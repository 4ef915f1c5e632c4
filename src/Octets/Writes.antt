-- ===== src/Octets/Writes.antt =====
-- extensions/exposition/source/directives/octets/{Put,Delete,Workflow}.ts: writing, deleting and
-- processing an entry.
use kookaburra.Prelude.{
  String, Bool, true, false, Option, none, some, List, [], ◌∷◌, if◌then◌else◌, or_else, is_some,
}
use kookaburra.Result.{
  Failure, not_found, forbidden, bad_request, unsupported_media_type, exception, fault,
}
use kookaburra.Text.{◌+++◌}
use kookaburra.Runtime.Eff.{Eff, ◌>>=◌, give, throw}
use kookaburra.Scanner.{type_mismatch, not_acceptable, limit_exceeded}
use kookaburra.Storages.{Metadata, Maybe, got, refused, missing, interrupted, other}
use kookaburra.Octets.Component.{
  PutError, invalid_id, wrong_length, untrusted, unavailable, of_storage, Stored, entry, error,
}
use kookaburra.Octets.Workflow.{Step, Location, Context, Target, Answer, Report, run, context_of}
use kookaburra.Octets.Actions.{
  Input, Operations, metadata, reports, parts, generated, Output, PutOptions, plain,
}

-- `Put.throw`
unfoldable pub failure_of : PutOptions → PutError → Failure
failure_of options (of_storage (interrupted not_acceptable)) = unsupported_media_type
failure_of options (of_storage (interrupted type_mismatch)) = bad_request ""
failure_of options (of_storage (interrupted limit_exceeded)) =
    exception 413 ("Size limit is " +++ options.limit_text)
failure_of options (of_storage missing) = fault "NOT_FOUND"
failure_of options (of_storage (other failure)) = failure
failure_of options untrusted = forbidden "Location is not trusted"
failure_of options wrong_length =
    bad_request "Content-Length must be 0 when Content-Location is used"
failure_of options unavailable = not_found "Location is not available"
failure_of options invalid_id = bad_request "Invalid Content-ID"

module _ {W V : Type 0} (operations : Operations W) (answer : Target → Context → Answer V)
    (interleave : List (List (Report V)) → List (Report V)) (join : String → String → String) where
  -- `Workflow.execute`
  unfoldable pub executed :
      List (List Step) → Location → Metadata → List (String × String) → List (Report V)
  unfolding run context_of
  executed units location m parameters =
      run answer interleave (context_of join location (or_else m.id "undefined") m parameters) units

  -- `Put.reply`
  unfoldable pub reply :
      PutOptions → String → Input → List (String × String) → Metadata → Output W V
  unfolding executed
  reply options storage input parameters m = elim options.workflow [
    | none ↦ plain (metadata m)
    | some units ↦ plain (
        parts m (
          executed units
            (record {
              authority = input.authority;
              bearer = input.bearer;
              storage = storage;
              path = or_else options.location input.url;
            })
            m parameters))
  ]

  -- `Put.apply` behind the call
  unfoldable pub put_output :
      PutOptions → String → Input → List (String × String) → Stored → Eff W (Output W V)
  unfolding reply failure_of
  put_output options storage input parameters (entry m) =
      give (reply options storage input parameters m)
  put_output options storage input parameters (error e) = throw (failure_of options e)

  -- `Put.apply`
  unfoldable pub apply_put :
      PutOptions → String → Input → List (String × String) → Eff W (Output W V)
  unfolding put_output
  apply_put options storage input parameters =
      operations.put (record {
        storage = storage;
        url = input.url;
        headers = input.headers;
        body = input.body;
        location = options.location;
        accept = options.accept;
        limit = some options.limit;
        trust = options.trust;
      })
      >>= put_output options storage input parameters

  -- The loop of `Delete.execute`: what it yields, and whether it comes to its end
  unfoldable pub yielded : List (Report V) → List (Report V) × Bool
  yielded [] = ([], true)
  yielded (r ∷ rest) =
      let later = yielded rest in
      if is_some r.error then (r ∷ [], false) else (r ∷ later.0, later.1)

  -- `Delete.execute`
  unfoldable pub execute_delete : String → String → List (Report V) → Eff W (List (Report V))
  unfolding yielded
  execute_delete storage url told =
      if (yielded told).1
      then (operations.delete storage url >>= λ done. give (yielded told).0)
      else give (yielded told).0

  abbrev pub at_request : String → Input → Location
  at_request storage input = record {
    authority = input.authority;
    bearer = none;
    storage = storage;
    path = input.url;
  }

  abbrev delete_output :
      List (List Step)
      → String
      → Input
      → List (String × String)
      → Maybe Metadata
      → Eff W (Output W V)
  delete_output units storage input parameters (refused refusal) = throw (not_found "")
  delete_output units storage input parameters (got m) = give (record {
    status = some 202;
    headers = [];
    body = some (
        generated (
          execute_delete storage input.url
            (executed units (at_request storage input) m parameters)));
  })

  -- `Delete.apply`
  unfoldable pub apply_delete :
      Option (List (List Step)) → String → Input → List (String × String) → Eff W (Output W V)
  unfolding executed execute_delete
  apply_delete none storage input parameters = operations.delete storage input.url >>= λ done.
      give (record { status = none; headers = []; body = none })
  apply_delete (some units) storage input parameters =
      operations.head storage input.url >>= delete_output units storage input parameters

  abbrev workflow_output :
      List (List Step)
      → String
      → Input
      → List (String × String)
      → Maybe Metadata
      → Eff W (Output W V)
  workflow_output units storage input parameters (refused refusal) = throw (not_found "")
  workflow_output units storage input parameters (got m) = give (record {
    status = some 202;
    headers = [];
    body = some (reports (executed units (at_request storage input) m parameters));
  })

  -- `WorkflowDirective.apply`
  unfoldable pub apply_workflow :
      List (List Step) → String → Input → List (String × String) → Eff W (Output W V)
  unfolding executed
  apply_workflow units storage input parameters =
      operations.head storage input.url >>= workflow_output units storage input parameters
