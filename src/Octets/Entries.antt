-- ===== src/Octets/Entries.antt =====
-- What the component octets.storage does for an entry, and the parts of a gateway put together: the
-- component as the actions call it, and a storage over a provider.
use kookaburra.Prelude.{
  ℕ, String, Bool, Option, none, some, List, or_else, ◌≡◌, refl, sym, subst, ap, ◌∙◌, inr,
}
use kookaburra.Result.{ok}
use kookaburra.Dict.{lookup}
use kookaburra.Runtime.Eff.{Eff, ◌>>=◌, give, after-eq-ok}
use kookaburra.Scanner.{Interruption}
use kookaburra.Storages.{Metadata, Maybe, got, refused, Options, Provider, Stream, locate}
use kookaburra.Storages
use kookaburra.Octets.Component.{
  PutInput, PutError, invalid_id, Stored, entry, error, Storage, Services, stored_of, check_id,
  source_of, options_of, storage_at, store,
}
use kookaburra.Octets.Component
use kookaburra.Octets.Actions.{Operations}

module _ {W : Type 0} (services : Services W) (storages : String → Option (Storage W)) where
  -- The component, by its operations
  unfoldable pub component : Operations W
  component = record {
    put = Component.put services storages;
    get = Component.get services storages;
    head = Component.head services storages;
    delete = Component.delete services storages;
  }

  stored-entry :
      (result : Maybe Metadata) (m : Metadata) (v w : W)
      → give (stored_of result) v ≡ (ok (entry m), w)
      → (result ≡ got m) × (v ≡ w)
  stored-entry (got n) m v w e = let same : n ≡ m = cc in (ap got same, ap (λ p. p.1) e)
  stored-entry (refused refusal) m v w e = cc

  pub storage_at-some :
      {A : Type 0} (name : String) (storage : Storage W) (use_it : Storage W → Eff W A) (w : W)
      → storages name ≡ some storage
      → storage_at services storages name use_it w ≡ use_it storage w
  unfolding storage_at
  storage_at-some name storage use_it w h = rw (h, storage_at) refl

  store-entry :
      (input : PutInput) (storage : Storage W) (m : Metadata) (w v : W)
      → storages input.storage ≡ some storage
      → store services storages input (inr (input.body, none)) w ≡ (ok (entry m), v)
      → storage.put
          (services.resolve input.url (or_else input.location "."))
          input.body
          (options_of services input none)
          w
        ≡ (ok (got m), v)
  unfolding store storage_at
  store-entry input storage m w v h e =
      let use_it : Storage W → Eff W (Maybe Metadata) = λ s.
        s.put (services.resolve input.url (or_else input.location ".")) input.body
          (options_of services input none) in
      let (result, (u, done, e1)) =
        after-eq-ok (storage_at services storages input.storage use_it w) (λ r. give (stored_of r))
          (entry m) v e in
      let (same, at) = stored-entry result m u v e1 in
      sym (storage_at-some input.storage storage use_it w h)
      ∙ (done ∙ (ap (λ r. (ok r, u)) same ∙ ap (λ x. (ok (got m), x)) at))

  pub put-entry :
      (input : PutInput) (storage : Storage W) (m : Metadata) (w v : W)
      → storages input.storage ≡ some storage
      → lookup "content-location" input.headers ≡ none
      → Component.put services storages input w ≡ (ok (entry m), v)
      → storage.put
          (services.resolve input.url (or_else input.location "."))
          input.body
          (options_of services input none)
          w
        ≡ (ok (got m), v)
  unfolding Component.put source_of
  put-entry input storage m w v h absent e =
      by_id (check_id services (lookup "content-id" input.headers) invalid_id) (
        subst
          (λ reference.
            (elim (check_id services (lookup "content-id" input.headers) invalid_id)
                as (λ x. Eff W Stored) [
                  | some refusal ↦ give (error refusal)
                  | none ↦ source_of services input reference >>= store services storages input
                ])
              w
            ≡ (ok (entry m), v))
          absent e)
    where
      by_id :
          (checked : Option PutError)
          → (elim checked as (λ x. Eff W Stored) [
            | some refusal ↦ give (error refusal)
            | none ↦ store services storages input (inr (input.body, none))
          ])
              w
            ≡ (ok (entry m), v)
          → storage.put
              (services.resolve input.url (or_else input.location "."))
              input.body
              (options_of services input none)
              w
            ≡ (ok (got m), v)
      by_id (some refusal) f = cc
      by_id none f = store-entry input storage m w v h f

-- The methods of a storage, over a provider
unfoldable pub storage_of :
    {W : Type 0}
    → (String → String → Bool)
    → (List ℕ → String)
    → (String → String)
    → (List String → String)
    → Provider W
    → String
    → String
    → (List (List ℕ) → Option Interruption → List ℕ)
    → Storage W
storage_of acceptable digest basename join provider generated now passed = record {
  put = Storages.put acceptable digest basename join provider generated now passed;
  get = Storages.get acceptable digest basename join provider;
  head = Storages.head acceptable digest basename join provider;
  delete = Storages.delete acceptable digest basename join provider;
}
