-- ===== src/Tests/SignIns.antt =====
-- Concrete runs of signing in with a password, and of the issue of tokens.
use Prim.Native.Char.{code}
use kookaburra.Prelude.{
  ℕ, suc, ◌+◌, ◌*◌, String, Bool, true, false, Option, none, some, [], ◌∷◌, ◌≡◌, ◌≢◌, refl, sym, ap,
  ◌∙◌, ◌==◌, eq_refl, arith,
}
use kookaburra.Result.{ok, ok-injective}
use kookaburra.Text.{◌+++◌, split_on, starts_with}
use kookaburra.Runtime.Eff.{give}
use kookaburra.Tokens.{value, NamedKey, Configuration, Crypto, within, payload_of, encrypt}
use kookaburra.Tokens.Issue.{
  IssueInput, IssueOutput, Remotes, issue, issued, sealing, lifetime_of, expires_of,
}
use kookaburra.Tokens.Lifetimes.{IsIssue, issue-IsIssue, issue-thousandfold}
use kookaburra.Basic.{
  Credentials, TransitInput, Mounted, accepted, begin, set_username, set_password, invalid, execute,
}
use kookaburra.Basic.SignIn.{
  object, Local, signed_in, first_two, credentials_of, verify, authenticate,
}
use kookaburra.Basic.Passwords.{authenticate-ignores, execute-authenticate}

-- Hashes of no strength: the peppered password itself
abbrev plain_hashes : Mounted ℕ
plain_hashes = record {
  rounds = 10;
  pepper = "p";
  principal = none;
  username_rx = [];
  password_rx = [];
  revoke = λ id revoked. (ok tt, suc revoked);
  gen_salt = λ rounds. give "salt";
  hash = λ plain salt. give plain;
}

abbrev new_user : Credentials
new_user = record { id = "7"; version = 0; authority = none; username = none; password = none }

abbrev user : Credentials
user = record {
  id = "7";
  version = 0;
  authority = some "app";
  username = some "u";
  password = some "ap";
}

abbrev chosen : TransitInput
chosen = record { authority = "app"; username = some "u"; password = some "a" }

abbrev same_text : String → Option String → Bool
same_text plain none = false
same_text plain (some hashed) = plain == hashed

abbrev users : Local ℕ
users = record {
  decode64 = λ sent. sent;
  observe = λ criteria. give (object user);
  transit = λ input id. give (accepted id);
  compare = λ plain hashed. give (same_text plain hashed);
  pepper = "p";
}

accepts : execute plain_hashes chosen new_user 0 ≡ (ok (accepted "7", user), 0)
unfolding execute begin set_username set_password invalid
accepts = refl

knows :
    (plain salt hashed : String) (u v x : ℕ)
    → plain_hashes.hash plain salt u ≡ (ok hashed, v)
    → users.compare plain (some hashed) x ≡ (ok true, x)
knows plain salt hashed u v x e =
    let same : plain ≡ hashed = ok-injective (ap (λ p. p.0) e) in
    ap (λ h. (ok (plain == h), x)) (sym same) ∙ ap (λ b. (ok b, x)) (eq_refl plain)

u_lacks : code "u" ≢ b':'
u_lacks e = cc

a_lacks : code "a" ≢ b':'
a_lacks e = cc

execute-authenticate_example : authenticate users "app" "u:a" 3 ≡ (ok (signed_in "7"), 3)
execute-authenticate_example =
    execute-authenticate users plain_hashes chosen new_user user "u" "a" "7" "u:a" 0 0 3 3 knows
      refl refl refl (u_lacks, tt) (a_lacks, tt) accepts refl refl

authenticate-ignores_example : authenticate users "app" "u:a:b" 3 ≡ authenticate users "app" "u:a" 3
authenticate-ignores_example =
    authenticate-ignores users "app" "u:a" "u:a:b" "u" "a" "b" 3 (u_lacks, tt) (a_lacks, tt) refl
      refl

signs_in : authenticate users "app" "u:a" 3 ≡ (ok (signed_in "7"), 3)
unfolding authenticate verify credentials_of first_two split_on
signs_in = refl

abbrev day : Configuration
day = record {
  latest = record { id = "k1"; secret = "s1" };
  others = [];
  lifetime = 86400;
  stale_after = 600;
}

abbrev sealing_by_key : Crypto ℕ
sealing_by_key = record {
  seal = λ now payload secret kid. "v3.local.body." +++ kid;
  open_token = λ now token secret. none;
  read_footer = λ footer. none;
  get = λ cache kid. none;
  put = λ cache kid key. cache;
  observe = λ kid. none;
}

abbrev own_key : NamedKey
own_key = record { id = "k7"; secret = "s7" }

abbrev remotes : Remotes ℕ
remotes = record {
  create = λ input keys. (ok own_key, suc keys);
  list = λ criteria limit. give ("app" ∷ []);
}

abbrev forever : IssueInput
forever = record {
  authority = "nex";
  identity = "7";
  label = "ci";
  lifetime = some 0;
  scopes = some ("app:read" ∷ []);
  permissions = none;
}

abbrev by_default : IssueInput
by_default = record forever { lifetime = none }

abbrev told : IssueOutput
told = record { kid = "k7"; exp = none; token = "v3.local.body.k7" }

issues_token : issue sealing_by_key day remotes 100 101 forever 0 ≡ (ok (value told), 1)
unfolding issue issued sealing lifetime_of expires_of encrypt within starts_with
issues_token = refl

issue-IsIssue_example : IsIssue sealing_by_key day remotes 100 101 forever told 0 1
issue-IsIssue_example =
    issue-IsIssue sealing_by_key day remotes 100 101 forever told 0 1 issues_token

has_lifetime : day.lifetime ≢ 0
has_lifetime e = omega (arith, e)

issue-thousandfold_example :
    ((payload_of sealing_by_key day 101
        (sealing sealing_by_key day remotes 100 101 by_default own_key [])).exp
      ≡ some (101 + 1000 * (86400 * 1000)))
    × ((payload_of sealing_by_key day 101
          (record (sealing sealing_by_key day remotes 100 101 by_default own_key []) {
            lifetime = none;
          })).exp
        ≡ some (101 + 86400 * 1000))
issue-thousandfold_example =
    issue-thousandfold sealing_by_key day remotes 100 101 by_default own_key [] refl has_lifetime
