-- ===== src/Storages/Endings.antt =====
-- How `Storage.put` ends, over any provider.
use kookaburra.Prelude.{
  ℕ, ◌≡◌, refl, ap, ◌∙◌, String, Bool, Option, none, some, List, [], ◌∷◌, arith, or_else,
}
use kookaburra.Result.{ok}
use kookaburra.Runtime.Eff.{after, after-eq-ok}
use kookaburra.Scanner.{Scanner, Interruption}
use kookaburra.Storages.{
  Metadata, Refusal, missing, Maybe, got, refused, Written, complete, returned, thrown, Pipe,
  Stream, Provider, Options, locate, scanned, entry_of, error_of, conclude, named,
}
use kookaburra.Storages

error_of-none :
    (scanner : Scanner) (written : Written)
    → error_of scanner written ≡ ok none
    → written ≡ complete
unfolding error_of
error_of-none scanner complete h = refl
error_of-none scanner (returned error) h = cc
error_of-none scanner (thrown error) h = ground arith

module _ (acceptable : String → String → Bool) (digest : List ℕ → String)
    (basename : String → String) (join : List String → String) {W : Type 0}
    (provider : Provider W) where
  abbrev pub IsPut :
      String
      → String
      → (List (List ℕ) → Option Interruption → List ℕ)
      → String
      → List (List ℕ)
      → Options
      → W
      → W
      → Metadata
      → Type 0
  IsPut generated now passed path buffers options w w' m =
      let id = or_else options.id generated in
      let location = locate join (path ∷ id ∷ []) in
      let error = (scanned acceptable digest basename join provider buffers options).raised in
      let written =
        provider.put location (record { bytes = passed buffers error; error = error }) w in
      (written.0 ≡ complete)
      × (m ≡ entry_of acceptable digest basename join provider id now buffers options)
      × (provider.commit location m written.1 ≡ (ok tt, w'))

  conclude-got :
      (location : String) (metadata : Metadata) (error : Option Refusal) (w w' : W) (m : Metadata)
      → conclude acceptable digest basename join provider location metadata error w
        ≡ (ok (got m), w')
      → (error ≡ none) × (m ≡ metadata) × (provider.commit location metadata w ≡ (ok tt, w'))
  unfolding conclude
  conclude-got location metadata (some error) w w' m h = cc
  conclude-got location metadata none w w' m h =
      let (u, (w1, e, k)) = after-eq-ok (provider.commit location metadata w) _ (got m) w' h in
      (refl, cc (k), e ∙ cc (k))

  conclude-refused :
      (location : String) (metadata : Metadata) (error : Option Refusal) (w w' : W) (e : Refusal)
      → conclude acceptable digest basename join provider location metadata error w
        ≡ (ok (refused e), w')
      → w ≡ w'
  unfolding conclude
  conclude-refused location metadata (some error) w w' e h = ap (λ p. p.1) h
  conclude-refused location metadata none w w' e h =
      let (u, (w1, k, l)) = after-eq-ok (provider.commit location metadata w) _ (refused e) w' h in
      cc l

  pub written-refused :
      (scanner : Scanner) (written : Written) (location : String) (metadata : Metadata) (w w' : W)
      (e : Refusal)
      → after
          (error_of scanner written, w)
          (conclude acceptable digest basename join provider location metadata)
        ≡ (ok (refused e), w')
      → w ≡ w'
  written-refused scanner written location metadata w w' e h =
      let (error, (w1, k, l)) =
        after-eq-ok (error_of scanner written, w)
          (conclude acceptable digest basename join provider location metadata) (refused e) w' h in
      ap (λ p. p.1) k ∙ conclude-refused location metadata error w1 w' e l

  written-got :
      (scanner : Scanner) (written : Written) (location : String) (metadata : Metadata) (w w' : W)
      (m : Metadata)
      → after
          (error_of scanner written, w)
          (conclude acceptable digest basename join provider location metadata)
        ≡ (ok (got m), w')
      → (written ≡ complete) × (m ≡ metadata) × (provider.commit location m w ≡ (ok tt, w'))
  written-got scanner written location metadata w w' m h =
      let (error, (w1, e, k)) =
        after-eq-ok (error_of scanner written, w)
          (conclude acceptable digest basename join provider location metadata) (got m) w' h in
      let (nothing, same, committed) = conclude-got location metadata error w1 w' m k in
      (error_of-none scanner written (cc (e, nothing)), same, cc (e, committed, same))

  -- An entry that `put` gives back has been written, and then its metadata.
  pub put-got :
      (generated now : String) (passed : List (List ℕ) → Option Interruption → List ℕ)
      (path : String) (buffers : List (List ℕ)) (options : Options) (w w' : W) (m : Metadata)
      → Storages.put acceptable digest basename join provider generated now passed path buffers
          options w
        ≡ (ok (got m), w')
      → IsPut generated now passed path buffers options w w' m
  unfolding Storages.put
  put-got generated now passed path buffers options w w' m h =
      written-got (scanned acceptable digest basename join provider buffers options) _ _ _ _ w' m h
