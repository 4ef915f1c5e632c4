-- ===== src/Tokens/Lifetimes.antt =====
-- What the tokens that an identity issues hold to, and how long they last.
use kookaburra.Prelude.{
  ℕ, ◌+◌, ◌*◌, String, true, none, some, List, or_else, ◌≡◌, ◌≢◌, refl, sym, ap, ◌∙◌, arith, All,
}
use kookaburra.Result.{ok, ok-injective}
use kookaburra.Text.{◌+++◌}
use kookaburra.Runtime.Eff.{after-eq-ok}
use kookaburra.Tokens.{
  Maybe, value, error, Payload, NamedKey, EncryptInput, Configuration, Crypto, within, payload_of,
  encrypt,
}
use kookaburra.Tokens.Issued.{encrypt-within, issued_token}
use kookaburra.Tokens.Issue.{
  IssueInput, IssueOutput, Remotes, lifetime_of, expires_of, sealing, issued, issue,
}

issued-value :
    {S W : Type 0} (crypto : Crypto S) (configuration : Configuration) (remotes : Remotes W)
    (now later : ℕ) (input : IssueInput) (key : NamedKey) (sealed : Maybe String)
    (out : IssueOutput)
    → issued crypto configuration remotes now later input key sealed ≡ value out
    → (sealed ≡ value out.token)
      × (out.kid ≡ key.id)
      × (out.exp ≡ expires_of crypto configuration remotes now later input)
unfolding issued
issued-value crypto configuration remotes now later input key (error code) out e = cc
issued-value crypto configuration remotes now later input key (value token) out e =
    let same : out ≡ record {
      kid = key.id;
      exp = expires_of crypto configuration remotes now later input;
      token = token;
    } =
      cc in
    (sym (ap (λ o. value o.token) same), ap (λ o. o.kid) same, ap (λ o. o.exp) same)

encrypt-seal :
    {S : Type 0} (crypto : Crypto S) (configuration : Configuration) (now : ℕ)
    (input : EncryptInput) (key : NamedKey) (token : String)
    → input.key ≡ some key
    → encrypt crypto configuration now input ≡ value token
    → token ≡ crypto.seal now (payload_of crypto configuration now input) key.secret key.id
unfolding encrypt
encrypt-seal crypto configuration now input key token h e =
    sym (issued_token _ _ token _ e)
    ∙ ap
        (λ k.
          crypto.seal now (payload_of crypto configuration now input)
            (or_else k configuration.latest).secret (or_else k configuration.latest).id)
        h

module _ {S W : Type 0} (crypto : Crypto S) (configuration : Configuration) (remotes : Remotes W)
    (now later : ℕ) where
  abbrev payload : IssueInput → NamedKey → List String → Payload
  payload input key roles =
      payload_of crypto configuration later
        (sealing crypto configuration remotes now later input key roles)

  -- A token sealed with a key made for its identity, for scopes that are within the identity's roles
  abbrev pub IsIssue : IssueInput → IssueOutput → W → W → Type 0
  IsIssue input out w last =
      (key : NamedKey) × ((roles : List String) × ((v : W) × (remotes.create
              (record {
                identity = input.identity;
                label = input.label;
                expires = expires_of crypto configuration remotes now later input;
              })
              w
            ≡ (ok key, v))
          × (remotes.list ("identity==" +++ input.identity) 1024 v ≡ (ok roles, last))
          × (out.kid ≡ key.id)
          × (out.exp ≡ expires_of crypto configuration remotes now later input)
          × (out.token ≡ crypto.seal later (payload input key roles) key.secret key.id)
          × ((scopes : List String)
              → input.scopes ≡ some scopes
              → All (λ scope. within roles scope ≡ true) scopes
                × ((payload input key roles).bearer.roles ≡ scopes))))

  pub issue-IsIssue :
      (input : IssueInput) (out : IssueOutput) (w last : W)
      → issue crypto configuration remotes now later input w ≡ (ok (value out), last)
      → IsIssue input out w last
  unfolding issue sealing
  issue-IsIssue input out w last e =
      let (key, (v, created, e1)) = after-eq-ok (remotes.create _ w) _ (value out) last e in
      let (roles, (u, listed, e2)) = after-eq-ok (remotes.list _ 1024 v) _ (value out) last e1 in
      (let (made, kid, exp) =
          issued-value crypto configuration remotes now later input key
            (encrypt crypto configuration later
              (sealing crypto configuration remotes now later input key roles))
            out (ok-injective (ap (λ p. p.0) e2)) in
        (
          key,
          (
            roles,
            (
              v,
              created,
              listed ∙ ap (λ x. (ok roles, x)) (ap (λ p. p.1) e2),
              kid,
              exp,
              encrypt-seal crypto configuration later
                  (sealing crypto configuration remotes now later input key roles) key out.token
                  refl made,
              λ scopes h.
                  encrypt-within crypto configuration later
                    (sealing crypto configuration remotes now later input key roles) scopes
                    out.token h made,
            ),
          ),
        ))

  -- Without a lifetime, a token lasts a thousand times as long as the configuration says, and as
  -- one that is encrypted without a lifetime.
  pub issue-thousandfold :
      (input : IssueInput) (key : NamedKey) (roles : List String)
      → input.lifetime ≡ none
      → configuration.lifetime ≢ 0
      → ((payload input key roles).exp ≡ some (later + 1000 * (configuration.lifetime * 1000)))
        × ((payload_of crypto configuration later
              (record (sealing crypto configuration remotes now later input key roles) {
                lifetime = none;
              })).exp
            ≡ some (later + configuration.lifetime * 1000))
  unfolding payload_of sealing lifetime_of
  issue-thousandfold input key roles h positive = (ground (arith, h), ground arith)
