-- ===== src/Tests/Identities.antt =====
-- A change of basic credentials.
use kookaburra.Prelude.{ℕ, String, true, none, not, some, [], ◌∷◌, ◌≡◌, refl, nat_eq, suc}
use kookaburra.Result.{ok}
use kookaburra.Text.{starts_with, ◌+++◌}
use kookaburra.Runtime.Eff.{give}
use kookaburra.Auth.Role.{covers, matches}
use kookaburra.Roles.{RoleEntity, Grantor, GrantInput, within_scopes, grant, grant-matches}
use kookaburra.Basic.{
  Credentials, TransitInput, Mounted, invalid, begin, set_username, set_password, execute,
}
use kookaburra.Basic.Accepted.{IsNamed, IsSecured, execute-IsNamed}

-- The world counts the revocations.
abbrev pub mounted : Mounted ℕ
mounted = record {
  rounds = 10;
  pepper = "p";
  principal = some "root";
  username_rx = (λ name. starts_with name "u") ∷ [];
  password_rx = [];
  revoke = λ id revoked. (ok tt, suc revoked);
  gen_salt = λ rounds. give "salt";
  hash = λ spicy salt. give (spicy +++ salt);
}

abbrev pub known : Credentials
known = record {
  id = "1";
  version = 2;
  authority = some "app";
  username = some "user";
  password = some "old";
}

abbrev pub renamed : TransitInput
renamed = record { authority = "app"; username = some "u2"; password = some "new" }

execute-IsNamed_example :
    IsNamed mounted (not (nat_eq 2 0)) (some "u2") (some "user") (some "u2")
    × IsSecured mounted (some "new") (some "old") (some "newpsalt")
    × ◌≡◌ {A = String} "1" "1"
unfolding execute begin set_username set_password invalid starts_with
execute-IsNamed_example =
    execute-IsNamed mounted renamed known
      (record known { username = some "u2"; password = some "newpsalt" }) "1" 0 1 refl

abbrev pub staff : Grantor
staff = record { id = "2"; roles = "app:users" ∷ [] }

abbrev pub grant_input : GrantInput
grant_input = record { identity = "3"; role = "app:users:read"; grantor = some staff }

abbrev pub reader : RoleEntity
reader = record { identity = "3"; role = "app:users:read"; grantor = some "2" }

grant-matches_example : matches ("app:users" ∷ []) ("app:users:read:own" ∷ []) ≡ true
unfolding grant within_scopes matches covers starts_with
grant-matches_example =
    grant-matches grant_input staff (record { identity = ""; role = ""; grantor = none }) reader
      "app:users:read:own" refl refl refl refl
