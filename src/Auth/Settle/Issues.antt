-- ===== src/Auth/Settle/Issues.antt =====
-- When a response carries a token.
use kookaburra.Prelude.{
  String, true, none, some, List, ◌≡◌, sym, ◌∙◌, ap, ◌⊎◌, inl, inr, Bool-cases, Option-cases,
}
use mathlib.Core.Path.{subst}
use kookaburra.Result.{ok, >>=-eq-ok, ok-injective}
use kookaburra.Text.{◌+++◌}
use kookaburra.Dict.{lookup, lookup-insert}
use kookaburra.Auth.Types.{Identity, AuthDirective, Context}
use kookaburra.Auth.Authorize.{get_roles}
use kookaburra.Auth.Family.{Response, Remotes}
use kookaburra.Auth.Settle.{Inception, settle_all, is_current, issue, settle}

module _ {F B : Type 0} (remotes : Remotes F B) (inception : Inception B) where
  -- The response carries a token that was encrypted for the identity, with its roles, and it must
  -- not be stored.
  pub record IsIssued (context : Context F) (identity : Identity) (sent : Response B) : Type 0 where
    pub roles : List String
    pub token : String
    pub known : get_roles remotes.outside identity ≡ ok roles
    pub encrypted :
        remotes.encrypt context.authority (record identity { roles = some roles }) ≡ ok token
    pub carried : lookup "authorization" sent.headers ≡ some ("Token " +++ token)
    pub unstored : lookup "cache-control" sent.headers ≡ some "no-store"

  issue-IsIssued :
      (context : Context F) (identity : Identity) (response sent : Response B)
      → issue remotes inception context identity response ≡ ok sent
      → IsIssued context identity sent
  unfolding issue
  issue-IsIssued context identity response sent e =
      let (roles, known, e1) = >>=-eq-ok (get_roles remotes.outside identity) _ sent e in
      let (token, encrypted, e2) =
        >>=-eq-ok (remotes.encrypt context.authority (record identity { roles = some roles })) _
          sent e1 in
      record {
        roles = roles;
        token = token;
        known = known;
        encrypted = encrypted;
        carried =
            ap (λ (r : Response B). lookup "authorization" r.headers) (sym (ok-injective e2))
            ∙ lookup-insert "cache-control" "authorization" "no-store" _
            ∙ lookup-insert "authorization" "authorization" _ response.headers;
        unstored =
            ap (λ (r : Response B). lookup "cache-control" r.headers) (sym (ok-injective e2))
            ∙ lookup-insert "cache-control" "cache-control" "no-store" _;
      }

  -- A settled response is as it was, where there is no identity or it holds a current token, or
  -- carries a token for the identity and must not be stored.
  pub settle-IsIssued :
      (directives : List (AuthDirective F)) (context last : Context F) (response sent : Response B)
      → settle remotes inception directives context response ≡ ok (sent, last)
      → ((sent ≡ response) × (last.identity ≡ none))
        ⊎ ((identity : Identity) × (last.identity ≡ some identity)
            × (((sent ≡ response) × (is_current identity ≡ true)) ⊎ IsIssued last identity sent))
  unfolding settle
  settle-IsIssued directives context last response sent e =
      let (settled, ran, e1) =
        >>=-eq-ok (settle_all remotes inception directives context response) _ (sent, last) e in
      elim (Option-cases settled.identity) [
        | inl absent ↦
            let e2 = ok-injective (rw (absent) at e1) in
            inl (
              sym (ap (λ t. t.0) e2),
              sym (ap (λ (t : Response B × Context F). t.1.identity) e2) ∙ absent,
            )
        | inr (identity, present) ↦ elim (Bool-cases (is_current identity)) [
          | inl current ↦
              let e2 = ok-injective (rw (present, current) at e1) in
              inr (
                identity,
                sym (ap (λ (t : Response B × Context F). t.1.identity) e2) ∙ present,
                inl (sym (ap (λ (t : Response B × Context F). t.0) e2), current),
              )
          | inr due ↦
              let (issued, made, e2) =
                >>=-eq-ok (issue remotes inception settled identity response) _ (sent, last)
                  (rw (present, due) at e1) in
              let e3 = ok-injective e2 in
              inr (
                identity,
                sym (ap (λ (t : Response B × Context F). t.1.identity) e3) ∙ present,
                inr (
                    subst (λ (t : Response B × Context F). IsIssued t.1 identity t.0) e3
                      (issue-IsIssued settled identity response issued made)),
              )
        ]
      ]
