-- ===== src/Auth/Family/Grants.antt =====
-- What a passed authorization means.
use mathlib.Core.Option.{some-injective}
use mathlib.Core.Path.{subst}
use kookaburra.Prelude.{
  String, Bool, true, false, not, Option, none, some, List, [], ◌∷◌, ◌++◌, ◌==◌, if◌then◌else◌,
  is_some, filter, ◌≡◌, refl, sym, ◌∙◌, ap, ◌⊎◌, inl, inr, Bool-cases, Option-cases, eq_iff,
}
use kookaburra.Result.{Result, ok, err, unauthorized, ◌>>=◌, Result-cases, >>=-eq-ok, ok-injective}
use kookaburra.Sort.{sort_by, kind_first, sort_by-kind}
use kookaburra.Rtd.Node.{Params}
use kookaburra.Auth.Types.{Identity, AuthDirective, Context, Provider, split, provider_of, primary}
use kookaburra.Auth.Authorize.{authorize}
use kookaburra.Auth.Family.{
  Response, Remotes, is_input, admit, resolve_scheme, resolve, permitted, reply, decide, preflight,
}

module _ {F B : Type 0} (remotes : Remotes F B) (params : Params) where
  -- Some directive authorized, after those before it did not, and the identity's permissions
  -- allowed the request then; the answer is that directive's.
  pub data Granted
      : List (AuthDirective F) → Bool → Context F → Option (Response B) → Context F → Type 0 where
    here :
        (directive : AuthDirective F) (rest : List (AuthDirective F)) (known : Bool)
        (context last : Context F) (answer : Option (Response B))
        → authorize remotes.outside directive known context params ≡ ok (true, last)
        → permitted remotes last ≡ true
        → answer ≡ reply remotes directive last
        → Granted (directive ∷ rest) known context answer last
    later :
        (directive : AuthDirective F) (rest : List (AuthDirective F)) (known : Bool)
        (context changed last : Context F) (answer : Option (Response B))
        → authorize remotes.outside directive known context params ≡ ok (false, changed)
        → Granted rest (is_some changed.identity) changed answer last
        → Granted (directive ∷ rest) known context answer last

  decided :
      (directive : AuthDirective F) (rest : List (AuthDirective F)) (known : Bool)
      (context last : Context F) (answer : Option (Response B))
      → ((changed : Context F)
          → decide remotes rest (is_some changed.identity) changed params ≡ ok (answer, last)
          → Granted rest (is_some changed.identity) changed answer last)
      → (r : Result (Bool × Context F))
      → authorize remotes.outside directive known context params ≡ r
      → decide remotes (directive ∷ rest) known context params ≡ ok (answer, last)
      → Granted (directive ∷ rest) known context answer last
  unfolding decide
  decided directive rest known context last answer ih (err failure) p e = cc (rw (p, decide) at e)
  decided directive rest known context last answer ih (ok (false, changed)) p e =
      later directive rest known context changed last answer p (ih changed (rw (p, decide) at e))
  decided directive rest known context last answer ih (ok (true, changed)) p e =
      elim (Bool-cases (permitted remotes changed)) [
        | inl allowed ↦
            let e' = ok-injective (rw (p, allowed, decide) at e) in
            here directive rest known context last answer
              (p ∙ ap (λ (c : Context F). ok (true, c)) (ap (λ t. t.1) e'))
              (subst (λ (c : Context F). permitted remotes c ≡ true) (ap (λ t. t.1) e') allowed)
              (sym (ap (λ t. t.0) e')
                ∙ ap (λ (c : Context F). reply remotes directive c) (ap (λ t. t.1) e'))
        | inr denied ↦ cc (rw (p, denied, decide) at e)
      ]

  decide-Granted :
      (directives : List (AuthDirective F)) (known : Bool) (context last : Context F)
      (answer : Option (Response B))
      → decide remotes directives known context params ≡ ok (answer, last)
      → Granted directives known context answer last
  unfolding decide
  decide-Granted [] known context last answer e = cc
  decide-Granted (directive ∷ rest) known context last answer e =
      decided directive rest known context last answer
        (λ changed e'. decide-Granted rest (is_some changed.identity) changed last answer e')
        (authorize remotes.outside directive known context params) refl e

  -- The identity comes from a known scheme whose provider authenticated the credentials, and is
  -- not banned unless it comes from a token.
  pub record IsAuthentic (authority header : String) (identity : Identity) : Type 0 where
    pub scheme : String
    pub credentials : String
    pub provider : Provider
    pub found : Identity
    pub refresh : Bool
    pub parsed : split remotes.outside.lower header ≡ ok (scheme, credentials)
    pub known : provider_of scheme ≡ some provider
    pub authentic : remotes.authenticate provider authority credentials ≡ ok (some (found, refresh))
    pub not_banned : (scheme ≡ primary) ⊎ (remotes.banned found.id ≡ ok false)
    pub same : identity ≡ record found { scheme = some scheme; refresh = refresh }

  unbanned :
      (scheme : String) (found : Identity) (refresh : Bool) (identity : Identity)
      → ((if scheme == primary then ok false else remotes.banned found.id) >>= λ out.
          if out
          then err (unauthorized "")
          else ok (some (record found { scheme = some scheme; refresh = refresh })))
        ≡ ok (some identity)
      → ((scheme ≡ primary) ⊎ (remotes.banned found.id ≡ ok false))
        × (identity ≡ record found { scheme = some scheme; refresh = refresh })
  unbanned scheme found refresh identity e = elim (Bool-cases (scheme == primary)) [
    | inl token ↦
        let e' = rw token at e in
        (inl ((eq_iff scheme primary).0 token), sym (some-injective _ _ (ok-injective e')))
    | inr other ↦ elim (Result-cases (remotes.banned found.id)) [
      | inl (true, out) ↦ cc (rw (other, out) at e)
      | inl (false, clean) ↦
          (inr clean, sym (some-injective _ _ (ok-injective (rw (other, clean) at e))))
      | inr (failure, failed) ↦ cc (rw (other, failed) at e)
    ]
  ]

  admitted-IsAuthentic :
      (authority header scheme credentials : String) (provider : Provider)
      (found : Option (Identity × Bool)) (identity : Identity)
      → split remotes.outside.lower header ≡ ok (scheme, credentials)
      → provider_of scheme ≡ some provider
      → remotes.authenticate provider authority credentials ≡ ok found
      → admit remotes scheme found ≡ ok (some identity)
      → IsAuthentic authority header identity
  unfolding admit
  admitted-IsAuthentic authority header scheme credentials provider none identity p k q e = cc
  admitted-IsAuthentic authority header scheme credentials provider (some (found, refresh)) identity
        p k q e =
      record {
        scheme = scheme;
        credentials = credentials;
        provider = provider;
        found = found;
        refresh = refresh;
        parsed = p;
        known = k;
        authentic = q;
        not_banned = (unbanned scheme found refresh identity e).0;
        same = (unbanned scheme found refresh identity e).1;
      }

  scheme-IsAuthentic :
      (authority header scheme credentials : String) (identity : Identity)
      → split remotes.outside.lower header ≡ ok (scheme, credentials)
      → resolve_scheme remotes authority scheme credentials ≡ ok (some identity)
      → IsAuthentic authority header identity
  unfolding resolve_scheme
  scheme-IsAuthentic authority header scheme credentials identity p e =
      elim (Option-cases (provider_of scheme)) [
        | inl unknown ↦ cc (rw (unknown, resolve_scheme) at e)
        | inr (provider, known) ↦
            let (found, q, e') =
              >>=-eq-ok (remotes.authenticate provider authority credentials) (admit remotes scheme)
                (some identity) (rw (known, resolve_scheme) at e) in
            admitted-IsAuthentic authority header scheme credentials provider found identity p known
              q e'
      ]

  -- An identity that a header resolves to is authentic.
  pub resolve-IsAuthentic :
      (authority header : String) (identity : Identity)
      → resolve remotes authority (some header) ≡ ok (some identity)
      → IsAuthentic authority header identity
  unfolding resolve
  resolve-IsAuthentic authority header identity e =
      let ((scheme, credentials), parsed, e1) =
        >>=-eq-ok (split remotes.outside.lower header) _ (some identity) e in
      scheme-IsAuthentic authority header scheme credentials identity parsed e1

  -- An authorization that passes was granted by one of the family's directives, those on input
  -- first and else in their order, on the identity that the request's header resolves to.
  pub preflight-Granted :
      (directives : List (AuthDirective F)) (context last : Context F)
      (answer : Option (Response B))
      → preflight remotes directives context params ≡ ok (answer, last)
      → (identity : Option Identity) × (resolve remotes context.authority context.authorization
          ≡ ok identity)
        × Granted
            (filter is_input directives ++ filter (λ d. not (is_input d)) directives)
            (is_some identity)
            (record context { identity = identity })
            answer
            last
  unfolding preflight
  preflight-Granted directives context last answer e =
      let (identity, resolved, e') =
        >>=-eq-ok (resolve remotes context.authority context.authorization) _ (answer, last) e in
      (
        identity,
        resolved,
        subst
            (λ ds.
              Granted ds (is_some identity) (record context { identity = identity }) answer last)
            (sort_by-kind is_input directives)
            (decide-Granted (sort_by (kind_first is_input) directives) (is_some identity)
              (record context { identity = identity }) last answer e'),
      )
