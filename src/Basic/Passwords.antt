-- ===== src/Basic/Passwords.antt =====
-- Who signs in with a password: the client that has set it, and what is not looked at.
use Prim.Native.Char.{Char, code}
use Prim.Native.String.{◌∷◌}
use kookaburra.Prelude.{
  String, Bool, true, false, Option, some, ◌∷◌, if◌then◌else◌, or_else, ◌≡◌, refl, sym, ap, subst,
  ◌∙◌,
}
use kookaburra.Result.{ok}
use kookaburra.Text.{◌+++◌, split_on}
use kookaburra.Text.Laws.{Lacks, split_on-append, split_on-Lacks}
use kookaburra.Runtime.Eff.{◌>>=◌, give, after, after-eq-ok}
use kookaburra.Basic.{Credentials, TransitInput, accepted, Mounted, execute}
use kookaburra.Basic.Accepted.{IsSecured, execute-IsNamed}
use kookaburra.Basic.SignIn.{
  Observed, failed, nothing, object, Local, signed_in, rejected, first_two, credentials_of, verify,
  authenticate,
}

abbrev pub colon : Char
colon = ":"

module _ {W : Type 0} (local : Local W) where
  credentials_of-two :
      (sent username password : String)
      → Lacks b':' username
      → Lacks b':' password
      → local.decode64 sent ≡ username +++ (colon ∷ password)
      → credentials_of local sent ≡ (username, some password)
  unfolding credentials_of first_two
  credentials_of-two sent username password h k e =
      ap (λ t. first_two (split_on b':' t)) e
      ∙ (ap first_two (split_on-append b':' username password colon h refl)
          ∙ ap (λ r. first_two (username ∷ r)) (split_on-Lacks b':' password k))

  credentials_of-three :
      (sent username password rest : String)
      → Lacks b':' username
      → Lacks b':' password
      → local.decode64 sent ≡ username +++ (colon ∷ (password +++ (colon ∷ rest)))
      → credentials_of local sent ≡ (username, some password)
  unfolding credentials_of first_two
  credentials_of-three sent username password rest h k e =
      ap (λ t. first_two (split_on b':' t)) e
      ∙ (ap first_two (split_on-append b':' username (password +++ (colon ∷ rest)) colon h refl)
          ∙ ap (λ r. first_two (username ∷ r)) (split_on-append b':' password rest colon k refl))

  -- What follows a colon in a password is not looked at.
  pub authenticate-ignores :
      (authority sent longer username password rest : String) (w : W)
      → Lacks b':' username
      → Lacks b':' password
      → local.decode64 sent ≡ username +++ (colon ∷ password)
      → local.decode64 longer ≡ username +++ (colon ∷ (password +++ (colon ∷ rest)))
      → authenticate local authority longer w ≡ authenticate local authority sent w
  unfolding authenticate
  authenticate-ignores authority sent longer username password rest w h k e f =
      ap
        (λ parts.
          (local.observe ("authority==" +++ authority +++ ";username=='" +++ parts.0 +++ "'")
              >>= verify local parts.1)
            w)
        (credentials_of-three longer username password rest h k f
          ∙ sym (credentials_of-two sent username password h k e))

  compared-signed_in :
      (matches : Bool) (own id : String) (v last : W)
      → give (if matches then signed_in own else rejected "PASSWORD_MISMATCH") v
        ≡ (ok (signed_in id), last)
      → (matches ≡ true) × (own ≡ id) × (v ≡ last)
  compared-signed_in true own id v last e =
      let same : own ≡ id = cc in (refl, same, ap (λ p. p.1) e)
  compared-signed_in false own id v last e = cc

  verify-signed_in :
      (password : Option String) (seen : Observed) (id : String) (w last : W)
      → verify local password seen w ≡ (ok (signed_in id), last)
      → (credentials : Credentials) × (seen ≡ object credentials)
        × (credentials.id ≡ id)
        × (local.compare (or_else password "undefined" +++ local.pepper) credentials.password w
            ≡ (ok true, last))
  unfolding verify
  verify-signed_in password (failed code) id w last e = cc
  verify-signed_in password nothing id w last e = cc
  verify-signed_in password (object credentials) id w last e =
      let (matches, (v, compared, e1)) =
        after-eq-ok
          (local.compare (or_else password "undefined" +++ local.pepper) credentials.password w) _
          (signed_in id) last e in
      let (is_true, same, at) = compared-signed_in matches credentials.id id v last e1 in
      (credentials, refl, same, compared ∙ ap (λ b. (ok b, v)) is_true ∙ ap (λ u. (ok true, u)) at)

  -- Who signs in is found by the username that was sent, and the password that was sent, peppered,
  -- compares to the hash that is kept.
  pub authenticate-IsKnown :
      (authority sent id : String) (w last : W)
      → authenticate local authority sent w ≡ (ok (signed_in id), last)
      → (credentials : Credentials) × ((v : W) × (local.observe
              ("authority=="
                +++ authority
                +++ ";username=='"
                +++ (credentials_of local sent).0
                +++ "'")
              w
            ≡ (ok (object credentials), v))
          × (credentials.id ≡ id)
          × (local.compare
                (or_else (credentials_of local sent).1 "undefined" +++ local.pepper)
                credentials.password
                v
              ≡ (ok true, last)))
  unfolding authenticate
  authenticate-IsKnown authority sent id w last e =
      let (seen, (v, observed, e1)) = after-eq-ok (local.observe _ w) _ (signed_in id) last e in
      let (credentials, is_object, same, compared) =
        verify-signed_in (credentials_of local sent).1 seen id v last e1 in
      (credentials, (v, observed ∙ ap (λ s. (ok s, v)) is_object, same, compared))

  -- A password that was accepted signs its identity in, when the credentials are found by the
  -- username: neither has a colon, and comparison knows the hashes of what it compares.
  pub execute-authenticate :
      (mounted : Mounted W) (input : TransitInput) (was new : Credentials)
      (username password id sent : String) (w last now after_observing : W)
      → ((plain salt hashed : String) (u v x : W)
          → mounted.hash plain salt u ≡ (ok hashed, v)
          → local.compare plain (some hashed) x ≡ (ok true, x))
      → mounted.pepper ≡ local.pepper
      → input.username ≡ some username
      → input.password ≡ some password
      → Lacks b':' username
      → Lacks b':' password
      → execute mounted input was w ≡ (ok (accepted id, new), last)
      → local.decode64 sent ≡ username +++ (colon ∷ password)
      → local.observe
          ("authority==" +++ input.authority +++ ";username=='" +++ username +++ "'")
          now
        ≡ (ok (object new), after_observing)
      → authenticate local input.authority sent now ≡ (ok (signed_in new.id), after_observing)
  unfolding authenticate verify
  execute-authenticate mounted input was new username password id sent w last now after_observing
        compares pepper named secret h k done e observed =
      let kept = (execute-IsNamed mounted input was new id w last done).1 in
      let (valid, (salt, (hashed, (before, (u, (v, salted, made, stored)))))) =
        subst (λ p. IsSecured mounted p was.password new.password) secret kept in
      let comparison =
        compares (password +++ mounted.pepper) salt hashed u v after_observing made in
      let compared : local.compare (password +++ local.pepper) new.password after_observing
          ≡ (ok true, after_observing) =
        ap (λ h. local.compare (password +++ local.pepper) h after_observing) stored
        ∙ (ap (λ p. local.compare (password +++ p) (some hashed) after_observing) (sym pepper)
            ∙ comparison) in
      ap
        (λ parts.
          (local.observe ("authority==" +++ input.authority +++ ";username=='" +++ parts.0 +++ "'")
              >>= verify local parts.1)
            now)
        (credentials_of-two sent username password h k e)
      ∙ (ap (λ r. after r (verify local (some password))) observed
          ∙ ap
              (λ r. after r (λ matches.
                give (if matches then signed_in new.id else rejected "PASSWORD_MISMATCH")))
              compared)
