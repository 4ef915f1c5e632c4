-- ===== src/Basic/Accepted.antt =====
-- What holds of credentials whose change is accepted.
use kookaburra.Prelude.{
  String, Bool, true, false, not, ◌&&◌, Option, none, some, ◌⊎◌, inl, inr, if◌then◌else◌, nat_eq,
  ◌≡◌, refl, sym, ap, subst, ◌∙◌,
}
use kookaburra.Result.{ok}
use kookaburra.Text.{◌+++◌}
use kookaburra.Runtime.Eff.{Eff, ◌>>=◌, give, after-eq-ok}
use kookaburra.Basic.{
  Credentials, TransitInput, TransitOutput, refused, accepted, Mounted, invalid, same_name, begin,
  set_username, set_password, execute,
}

module _ {W : Type 0} (mounted : Mounted W) where
  -- A username that is given meets the requirements and becomes the object's, and is not given for
  -- an existing principal; else it is as it was.
  abbrev pub IsNamed : Bool → Option String → Option String → Option String → Type 0
  IsNamed existent none was now = now ≡ was
  IsNamed existent (some username) was now =
      (now ≡ some username)
      × (invalid username mounted.username_rx ≡ false)
      × ((existent && same_name was mounted.principal) ≡ false)

  -- A password that is given meets the requirements, and its hash with a new salt is kept; else it is
  -- as it was.
  abbrev pub IsSecured : Option String → Option String → Option String → Type 0
  IsSecured none was now = now ≡ was
  IsSecured (some password) was now =
      (invalid password mounted.password_rx ≡ false)
      × ((salt : String) × ((hashed : String) × ((u : W) × ((v : W) × ((w : W) × (mounted.gen_salt
                      mounted.rounds u
                    ≡ (ok salt, v))
                  × (mounted.hash (password +++ mounted.pepper) salt v ≡ (ok hashed, w))
                  × (now ≡ some hashed))))))

  set_username-IsNamed :
      (existent : Bool) (name : Option String) (object named : Credentials)
      → set_username mounted existent name object ≡ inr named
      → IsNamed existent name object.username named.username
        × (named.password ≡ object.password)
        × (named.id ≡ object.id)
  unfolding set_username
  set_username-IsNamed existent none object named e =
      let same : named ≡ object = cc in
      (ap (λ o. o.username) same, ap (λ o. o.password) same, ap (λ o. o.id) same)
  set_username-IsNamed existent (some name) object named e =
      by_tests (existent && same_name object.username mounted.principal)
        (invalid name mounted.username_rx) refl refl e
    where
      by_tests :
          (locked bad : Bool)
          → (existent && same_name object.username mounted.principal) ≡ locked
          → invalid name mounted.username_rx ≡ bad
          → if◌then◌else◌ {A = String ⊎ Credentials} locked
              (inl "PRINCIPAL_LOCKED")
              (if bad then inl "INVALID_USERNAME" else inr (record object { username = some name }))
            ≡ inr named
          → IsNamed existent (some name) object.username named.username
            × (named.password ≡ object.password)
            × (named.id ≡ object.id)
      by_tests true bad l b f = cc
      by_tests false true l b f = cc
      by_tests false false l b f =
          let same : named ≡ record object { username = some name } = cc in
          ((ap (λ o. o.username) same, b, l), ap (λ o. o.password) same, ap (λ o. o.id) same)

  set_password-IsSecured :
      (password : Option String) (object new : Credentials) (id : String) (w last : W)
      → set_password mounted password object w ≡ (ok (accepted id, new), last)
      → IsSecured password object.password new.password
        × (new.username ≡ object.username)
        × (id ≡ object.id)
  unfolding set_password
  set_password-IsSecured none object new id w last e =
      let same : new ≡ object = cc in
      let own : id ≡ object.id = cc in (ap (λ o. o.password) same, ap (λ o. o.username) same, own)
  set_password-IsSecured (some password) object new id w last e =
      by_test (invalid password mounted.password_rx) refl e
    where
      by_test :
          (bad : Bool)
          → invalid password mounted.password_rx ≡ bad
          → if◌then◌else◌ {A = Eff W (TransitOutput × Credentials)} bad
              (give (refused "INVALID_PASSWORD", object))
              (◌>>=◌ {B = TransitOutput × Credentials} (mounted.gen_salt mounted.rounds) (λ salt.
                ◌>>=◌ {B = TransitOutput × Credentials}
                  (mounted.hash (password +++ mounted.pepper) salt)
                  (λ hashed. give (accepted object.id, record object { password = some hashed }))))
              w
            ≡ (ok (accepted id, new), last)
          → IsSecured (some password) object.password new.password
            × (new.username ≡ object.username)
            × (id ≡ object.id)
      by_test true b f = cc
      by_test false b f =
          let (salt, (v, salted, f1)) =
            after-eq-ok (mounted.gen_salt mounted.rounds w) _ _ last f in
          let (hashed, (u, done, f2)) =
            after-eq-ok (mounted.hash (password +++ mounted.pepper) salt v) _ _ last f1 in
          let same : new ≡ record object { password = some hashed } = cc in
          let own : id ≡ object.id = cc in
          (
            (b, (salt, (hashed, (w, (v, (u, salted, done, ap (λ o. o.password) same)))))),
            ap (λ o. o.username) same,
            own,
          )

  begin-keeps :
      (input : TransitInput) (object begun : Credentials) (w last : W)
      → begin mounted input object w ≡ (ok begun, last)
      → (begun.username ≡ object.username)
        × (begun.password ≡ object.password)
        × (begun.id ≡ object.id)
  unfolding begin
  begin-keeps input object begun w last e = by_version (nat_eq object.version 0) e
    where
      by_version :
          (fresh : Bool)
          → (if fresh
                then give (record object { authority = some input.authority })
                else (mounted.revoke object.id >>= λ done. give object))
              w
            ≡ (ok begun, last)
          → (begun.username ≡ object.username)
            × (begun.password ≡ object.password)
            × (begun.id ≡ object.id)
      by_version true f =
          let same : begun ≡ record object { authority = some input.authority } = cc in
          (ap (λ o. o.username) same, ap (λ o. o.password) same, ap (λ o. o.id) same)
      by_version false f =
          let (done, (v, revoked, f1)) = after-eq-ok (mounted.revoke object.id w) _ _ last f in
          let same : begun ≡ object = cc in
          (ap (λ o. o.username) same, ap (λ o. o.password) same, ap (λ o. o.id) same)

  by_name :
      (input : TransitInput) (object begun new : Credentials) (id : String) (v last : W)
      (result : String ⊎ Credentials)
      → set_username mounted (not (nat_eq object.version 0)) input.username begun ≡ result
      → (elim result as (λ _. Eff W (TransitOutput × Credentials)) [
        | inl code ↦ give (refused code, begun)
        | inr named ↦ set_password mounted input.password named
      ])
          v
        ≡ (ok (accepted id, new), last)
      → IsNamed (not (nat_eq object.version 0)) input.username begun.username new.username
        × IsSecured input.password begun.password new.password
        × (id ≡ begun.id)
  by_name input object begun new id v last (inl code) e f = cc
  by_name input object begun new id v last (inr named) e f =
      let (is_named, password, same_id) =
        set_username-IsNamed (not (nat_eq object.version 0)) input.username begun named e in
      let (is_secured, name, own) = set_password-IsSecured input.password named new id v last f in
      (
        subst (λ u. IsNamed (not (nat_eq object.version 0)) input.username begun.username u)
            (sym name) is_named,
        subst (λ p. IsSecured input.password p new.password) password is_secured,
        own ∙ same_id,
      )

  -- What is accepted meets the requirements: a username that is given is valid and is the object's
  -- then, and the object was no existing principal; of a password that is given the object has the
  -- hash, peppered and with a salt that was generated, and it is valid; what is not given is as it
  -- was.
  pub execute-IsNamed :
      (input : TransitInput) (object new : Credentials) (id : String) (w last : W)
      → execute mounted input object w ≡ (ok (accepted id, new), last)
      → IsNamed (not (nat_eq object.version 0)) input.username object.username new.username
        × IsSecured input.password object.password new.password
        × (id ≡ object.id)
  unfolding execute
  execute-IsNamed input object new id w last e =
      let (begun, (v, started, rest)) = after-eq-ok (begin mounted input object w) _ _ last e in
      let (name, password, own) = begin-keeps input object begun w v started in
      let (named, kept, same_id) =
        by_name input object begun new id v last
          (set_username mounted (not (nat_eq object.version 0)) input.username begun) refl rest in
      (
        subst (λ u. IsNamed (not (nat_eq object.version 0)) input.username u new.username) name
            named,
        subst (λ p. IsSecured input.password p new.password) password kept,
        same_id ∙ own,
      )
