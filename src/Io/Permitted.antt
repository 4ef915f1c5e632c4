-- ===== src/Io/Permitted.antt =====
-- What passes: no property that is not permitted, and nothing where no output is declared.
use kookaburra.Prelude.{
  String, true, false, none, List, [], ◌∷◌, includes, ◌≡◌, ◌↔◌, refl, sym, ◌∙◌, ◌⊎◌, inl, inr,
  Bool-cases, Option-cases, All, map,
}
use kookaburra.Result.{ok}
use kookaburra.Io.{
  Message, Body, absent, stream, scalar, object, objects, Outgoing, Output, new_output, keep,
  is_error, restrict_body, restrict, violation, first_violation, refuse, check, pass_response,
  input, append_one, denial, attach, attach_all, preflight,
}

module _ {V : Type 0} where
  -- Every property of the object is permitted.
  abbrev pub Permits : List String → Message V → Type 0
  Permits permissions message = All (λ (key, _). includes permissions key ≡ true) message

  -- No body but a stream, or objects whose properties are all permitted
  pub data PermitsBody (permissions : List String) : Body V → Type 0 where
    nothing : PermitsBody permissions absent
    streamed : PermitsBody permissions stream
    one :
        (message : Message V)
        → Permits permissions message
        → PermitsBody permissions (object message)
    many :
        (messages : List (Message V))
        → All (Permits permissions) messages
        → PermitsBody permissions (objects messages)

  keep-Permits :
      (permissions : List String) (message : Message V)
      → Permits permissions (keep permissions message)
  unfolding keep
  keep-Permits permissions [] = tt
  keep-Permits permissions ((key, v) ∷ message) = elim (Bool-cases (includes permissions key)) [
    | inl allowed ↦ rw allowed (allowed, keep-Permits permissions message)
    | inr refused ↦ rw refused (keep-Permits permissions message)
  ]

  map-keep-Permits :
      (permissions : List String) (messages : List (Message V))
      → All (Permits permissions) (map (keep permissions) messages)
  map-keep-Permits permissions [] = tt
  map-keep-Permits permissions (message ∷ messages) =
      (keep-Permits permissions message, map-keep-Permits permissions messages)

  restrict_body-PermitsBody :
      (permissions : List String) (body : Body V)
      → PermitsBody permissions (restrict_body permissions body)
  unfolding restrict_body
  restrict_body-PermitsBody permissions absent = nothing
  restrict_body-PermitsBody permissions stream = streamed
  restrict_body-PermitsBody permissions (scalar v) = nothing
  restrict_body-PermitsBody [] (object message) = nothing
  restrict_body-PermitsBody (key ∷ keys) (object message) =
      one _ (keep-Permits (key ∷ keys) message)
  restrict_body-PermitsBody [] (objects messages) = nothing
  restrict_body-PermitsBody (key ∷ keys) (objects messages) =
      many _ (map-keep-Permits (key ∷ keys) messages)

  -- A response that is no error and whose output is not switched off leaves with no other
  -- properties than the permitted ones.
  pub restrict-PermitsBody :
      (restriction : Output) (message : Outgoing V)
      → restriction.disabled ≡ false
      → is_error message.status ≡ false
      → PermitsBody restriction.permissions (restrict restriction message).body
  unfolding restrict
  restrict-PermitsBody restriction message h k =
      rw (h, k) (restrict_body-PermitsBody restriction.permissions message.body)

  violation_iff :
      (permissions : List String) (message : Message V)
      → (violation permissions message ≡ none) ↔ Permits permissions message
  unfolding violation
  violation_iff permissions [] = (λ e. tt, λ h. refl)
  violation_iff permissions ((key, v) ∷ message) =
      let (to, from) = violation_iff permissions message in
      elim (Bool-cases (includes permissions key)) [
        | inl allowed ↦ (λ e. (allowed, to (rw allowed at e)), λ (h, hs). rw allowed (from hs))
        | inr refused ↦ (λ e. cc (rw refused at e), λ (h, hs). cc)
      ]

  first_violation_iff :
      (permissions : List String) (messages : List (Message V))
      → (first_violation permissions messages ≡ none) ↔ All (Permits permissions) messages
  unfolding first_violation
  first_violation_iff permissions [] = (λ e. tt, λ h. refl)
  first_violation_iff permissions (message ∷ messages) =
      let (to, from) = first_violation_iff permissions messages in
      let (here_to, here_from) = violation_iff permissions message in
      elim (Option-cases (violation permissions message)) [
        | inl clean ↦ (
          λ e. (here_to clean, to (rw (clean, first_violation) at e)),
          λ (h, hs). rw (clean, first_violation) (from hs),
        )
        | inr (key, found) ↦
            (λ e. cc (rw (found, first_violation) at e), λ (h, hs). cc (sym found ∙ here_from h))
      ]

  -- A body of objects is accepted, as it is, exactly when all of their properties are permitted.
  pub check_iff :
      (permissions : List String) (messages : List (Message V))
      → (check permissions (objects messages) ≡ ok (objects messages))
        ↔ All (Permits permissions) messages
  unfolding check refuse
  check_iff permissions messages =
      let (to, from) = first_violation_iff permissions messages in
      elim (Option-cases (first_violation permissions messages)) [
        | inl clean ↦ (λ e. to clean, λ h. rw clean refl)
        | inr (key, found) ↦ (λ e. cc (rw found at e), λ h. cc (sym found ∙ from h))
      ]

  -- The body of a response is withheld: there is none, or it is a stream.
  abbrev pub IsWithheld : Body V → Type 0
  IsWithheld body = (body ≡ absent) ⊎ (body ≡ stream)

  denied : (body : Body V) → IsWithheld (restrict_body [] body)
  unfolding restrict_body
  denied absent = inl refl
  denied stream = inr refl
  denied (scalar v) = inl refl
  denied (object message) = inl refl
  denied (objects messages) = inl refl

  restrict-denial :
      (message : Outgoing V)
      → is_error message.status ≡ false
      → IsWithheld (restrict denial message).body
  unfolding restrict new_output
  restrict-denial message e = rw e (denied message.body)

  -- Where none of the directives is an output, a response that is no error leaves without its body.
  pub preflight-IsWithheld :
      (inputs : List (List String)) (own : List (List String)) (message : Outgoing V)
      → is_error message.status ≡ false
      → IsWithheld
          (pass_response
            (preflight (map input inputs) (record { body = own; response = [] })).response
            message).body
  unfolding preflight attach_all attach pass_response
  preflight-IsWithheld [] own message e = restrict-denial message e
  preflight-IsWithheld (permissions ∷ inputs) own message e =
      preflight-IsWithheld inputs (append_one own permissions) message e
