-- ===== src/Roles.antt =====
-- extensions/exposition/components/identity.roles/source/grant.ts: the grant of a role, and what the
-- role is good for where directives/auth/Role.ts asks for one.
use kookaburra.Prelude.{
  String, Bool, true, false, not, ◌&&◌, Option, none, some, List, [], ◌∷◌, any, if◌then◌else◌, ◌≡◌,
  inl, inr, refl, arith, Bool-cases, subst,
}
use kookaburra.Auth.Role.{covers, covers_trans, matches}

-- `Entity` of lib/Entity.ts
pub record RoleEntity : Type 0 where
  pub identity : String
  pub role : String
  pub grantor : Option String

pub record Grantor : Type 0 where
  pub id : String
  pub roles : List String

pub record GrantInput : Type 0 where
  pub identity : String
  pub role : String
  pub grantor : Option Grantor

-- `within`: the role is one of the scopes, or below one.
unfoldable pub within_scopes : String → List String → Bool
unfolding covers
within_scopes role scopes = any (λ scope. covers scope role) scopes

-- `transition`; `none` is ERR_INACCESSIBLE_SCOPE.
unfoldable pub grant : GrantInput → RoleEntity → Option RoleEntity
unfolding within_scopes
grant input object = elim input.grantor [
  | none ↦ some (record object { identity = input.identity; role = input.role })
  | some grantor ↦
      if not (within_scopes "system:identity:roles" grantor.roles)
        && not (within_scopes input.role grantor.roles)
      then none
      else some (record object {
        role = input.role;
        identity = input.identity;
        grantor = some grantor.id;
      })
]

-- A role within scopes is good for nothing that the scopes are not good for.
within_scopes-matches :
    (role wanted : String) (scopes : List String)
    → within_scopes role scopes ≡ true
    → covers role wanted ≡ true
    → matches scopes (wanted ∷ []) ≡ true
unfolding within_scopes matches
within_scopes-matches role wanted [] h k = cc
within_scopes-matches role wanted (scope ∷ scopes) h k = elim (Bool-cases (covers scope role)) [
  | inl here ↦ rw (covers_trans scope role wanted here k) refl
  | inr other ↦ ground (arith, within_scopes-matches role wanted scopes (rw other at h) k)
]

granted :
    (b : Bool) (given : RoleEntity) (entity : RoleEntity)
    → (if b then none else some given) ≡ some entity
    → (b ≡ false) × (entity ≡ given)
granted true given entity e = cc
granted false given entity e = (refl, cc)

matches_one :
    (role wanted : String) → matches (role ∷ []) (wanted ∷ []) ≡ true → covers role wanted ≡ true
unfolding matches
matches_one role wanted h = ground (arith, h)

-- No grantor gives more than it has, unless its roles have `system:identity:roles`: whatever the
-- granted role matches where a role is asked for, the grantor's own roles match.
pub grant-matches :
    (input : GrantInput) (grantor : Grantor) (object entity : RoleEntity) (wanted : String)
    → input.grantor ≡ some grantor
    → within_scopes "system:identity:roles" grantor.roles ≡ false
    → grant input object ≡ some entity
    → matches (entity.role ∷ []) (wanted ∷ []) ≡ true
    → matches grantor.roles (wanted ∷ []) ≡ true
unfolding grant
grant-matches input grantor object entity wanted g plain e h =
    let given : RoleEntity = record object {
      role = input.role;
      identity = input.identity;
      grantor = some grantor.id;
    } in
    let (accessible, made) =
      granted
        (not (within_scopes "system:identity:roles" grantor.roles)
          && not (within_scopes input.role grantor.roles))
        given entity (rw g at e) in
    let inside : within_scopes input.role grantor.roles ≡ true =
      ground (arith, accessible, plain) in
    within_scopes-matches input.role wanted grantor.roles inside (
      matches_one input.role wanted
        (subst (λ (x : RoleEntity). matches (x.role ∷ []) (wanted ∷ []) ≡ true) made h))
