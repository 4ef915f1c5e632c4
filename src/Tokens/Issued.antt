-- ===== src/Tokens/Issued.antt =====
-- What the tokens that are issued and accepted hold to.
use kookaburra.Prelude.{
  ℕ, String, Bool, true, false, Option, none, some, List, [], ◌∷◌, ◌==◌, if◌then◌else◌, ◌≡◌, refl,
  ap, arith, ◌⊎◌, inl, inr, Bool-cases, eq_iff, All,
}
use kookaburra.Tokens.{
  Maybe, value, error, ◌>>=◌, Bearer, EncryptInput, DecryptOutput, Configuration, Crypto, within,
  all_within, payload_of, encrypt, decrypt, is_stale, is_revoked, accept, authenticate,
}

value-injective : {A : Type 0} {a b : A} → value a ≡ value b → a ≡ b
value-injective e = cc

after_bind :
    {A B : Type 0} (m : Maybe A) (f : A → Maybe B) (b : B)
    → (m >>= f) ≡ value b
    → (a : A) × (m ≡ value a) × (f a ≡ value b)
after_bind (error code) f b e = cc
after_bind (value a) f b e = (a, refl, e)

both : {A B : Type 0} (p : A × B) (a : A) (b : B) → p.0 ≡ a → p.1 ≡ b → p ≡ (a, b)
both (x, y) a b h k = λ i. (h i, k i)

pub issued_token :
    {A : Type 0} (b : Bool) (sealed token : A) (code : String)
    → (if b then value sealed else error code) ≡ value token
    → sealed ≡ token
issued_token true sealed token code e = value-injective e
issued_token false sealed token code e = cc

all_within-All :
    (roles scopes : List String)
    → all_within roles scopes ≡ true
    → All (λ scope. within roles scope ≡ true) scopes
all_within-All roles [] e = tt
all_within-All roles (scope ∷ scopes) e = (ground arith, all_within-All roles scopes (ground arith))

module _ {S : Type 0} (crypto : Crypto S) (configuration : Configuration) (now : ℕ) where
  -- A token is issued for scopes only if each is within a role of the identity, and it carries
  -- those scopes as roles.
  pub encrypt-within :
      (input : EncryptInput) (scopes : List String) (token : String)
      → input.scopes ≡ some scopes
      → encrypt crypto configuration now input ≡ value token
      → All (λ scope. within input.bearer.roles scope ≡ true) scopes
        × ((payload_of crypto configuration now input).bearer.roles ≡ scopes)
  unfolding encrypt payload_of
  encrypt-within input scopes token h e = elim (Bool-cases (all_within input.bearer.roles scopes)) [
    | inl inside ↦ (all_within-All input.bearer.roles scopes inside, rw h refl)
    | inr outside ↦ cc (rw (h, outside, encrypt) at e)
  ]

  sealed :
      (input : EncryptInput) (token : String)
      → input.key ≡ none
      → encrypt crypto configuration now input ≡ value token
      → crypto.seal now
          (payload_of crypto configuration now input)
          configuration.latest.secret
          configuration.latest.id
        ≡ token
  unfolding encrypt payload_of
  sealed input token own e = issued_token _ _ _ _ (rw (own, encrypt) at e)

  -- Who is authenticated holds a token that opens, issued for the authority, which is not revoked
  -- if it is stale.
  pub record IsAccepted (revoked_at : String → Option ℕ) (cache after : S)
      (authority token : String) (bearer : Bearer) (refresh : Bool) : Type 0 where
    pub output : DecryptOutput
    pub opened : decrypt crypto configuration now cache token ≡ (after, value output)
    pub same : output.claims.payload.bearer ≡ bearer
    pub issued : output.claims.payload.iss ≡ authority
    pub current :
        (is_stale crypto configuration now output.claims ≡ false)
        ⊎ (is_revoked crypto configuration now revoked_at output.claims ≡ false)

  accepted :
      (revoked_at : String → Option ℕ) (authority : String) (output : DecryptOutput)
      (bearer : Bearer) (refresh : Bool)
      → accept crypto configuration now revoked_at authority output ≡ value (bearer, refresh)
      → (output.claims.payload.iss ≡ authority)
        × (((is_stale crypto configuration now output.claims ≡ false)
              ⊎ (is_revoked crypto configuration now revoked_at output.claims ≡ false))
            × (output.claims.payload.bearer ≡ bearer))
  unfolding accept
  accepted revoked_at authority output bearer refresh e =
      elim (Bool-cases (output.claims.payload.iss == authority)) [
        | inr other ↦ cc (rw (other, accept) at e)
        | inl issued ↦ elim (Bool-cases (is_stale crypto configuration now output.claims)) [
          | inr fresh ↦ (
            (eq_iff _ _).0 issued,
            (inl fresh, ap (λ t. t.0) (value-injective (rw (issued, fresh, accept) at e))),
          )
          | inl stale ↦
              elim (Bool-cases (is_revoked crypto configuration now revoked_at output.claims)) [
                | inl revoked ↦ cc (rw (issued, stale, revoked, accept) at e)
                | inr kept ↦ (
                  (eq_iff _ _).0 issued,
                  (
                    inr kept,
                    ap (λ t. t.0) (value-injective (rw (issued, stale, kept, accept) at e)),
                  ),
                )
              ]
        ]
      ]

  -- An authenticated bearer holds a token that opens, issued for the authority, and not revoked
  -- if it is stale.
  pub authenticate-IsAccepted :
      (revoked_at : String → Option ℕ) (cache after : S) (authority token : String)
      (bearer : Bearer) (refresh : Bool)
      → authenticate crypto configuration now revoked_at cache authority token
        ≡ (after, value (bearer, refresh))
      → IsAccepted revoked_at cache after authority token bearer refresh
  unfolding authenticate
  authenticate-IsAccepted revoked_at cache after authority token bearer refresh e =
      let (output, opened, passed) =
        after_bind (decrypt crypto configuration now cache token).1
          (accept crypto configuration now revoked_at authority) (bearer, refresh)
          (ap (λ t. t.1) e) in
      let (issued, (current, same)) = accepted revoked_at authority output bearer refresh passed in
      record {
        output = output;
        opened =
            both (decrypt crypto configuration now cache token) after (value output)
              (ap (λ t. t.0) e) opened;
        same = same;
        issued = issued;
        current = current;
      }
