-- ===== src/Result.antt =====
-- extensions/exposition/source/HTTP/exceptions.ts and the errors that the sources throw.
-- A computation that may throw returns a `Result`.
use kookaburra.Prelude.{ℕ, String, ◌≡◌, refl, ◌⊎◌, inl, inr}

-- `http.Exception`s by their class, `exception status` for a service's numeric exception code,
-- and `fault` for an assertion or another `Error`. Bodies are texts.
pub data Failure : Type 0 where
  bad_request : String → Failure
  unauthorized : String → Failure
  forbidden : String → Failure
  not_found : String → Failure
  method_not_allowed : Failure
  not_acceptable : Failure
  conflict : Failure
  precondition_failed : Failure
  unsupported_media_type : Failure
  unprocessable_entity : String → Failure
  exception : ℕ → String → Failure
  fault : String → Failure

-- What a computation gives back, or what it throws.
pub data Result {κ} (B : Type κ) : Type κ where
  err : (thrown : Failure) → Result B
  ok : (returned : B) → Result B

-- `await`, then the rest
infixl 5 ◌>>=◌
abbrev pub ◌>>=◌ {ν κ} : {B : Type ν} {C : Type κ} → Result B → (B → Result C) → Result C
err failure >>= next = err failure
ok returned >>= next = next returned

-- Inversion of a successful bind.
pub >>=-eq-ok {ℓ κ} :
    {A : Type ℓ} {B : Type κ} (m : Result A) (f : A → Result B) (b : B)
    → (m >>= f) ≡ ok b
    → (a : A) × (m ≡ ok a) × (f a ≡ ok b)
>>=-eq-ok (ok a) f b h = (a, refl, h)
>>=-eq-ok (err e) f b h = cc

pub Result-cases {ℓ} :
    {A : Type ℓ} (r : Result A) → ((a : A) × (r ≡ ok a)) ⊎ ((e : Failure) × (r ≡ err e))
Result-cases (ok a) = inl (a, refl)
Result-cases (err e) = inr (e, refl)

pub >>=_assoc {ℓ κ ν} :
    {A : Type ℓ} {B : Type κ} {C : Type ν} (m : Result A) (f : A → Result B) (g : B → Result C)
    → ((m >>= f) >>= g) ≡ (m >>= λ a. f a >>= g)
>>=_assoc (ok a) f g = refl
>>=_assoc (err e) f g = refl

pub ok-injective {ℓ} : {A : Type ℓ} {a b : A} → ok a ≡ ok b → a ≡ b
ok-injective e = cc

-- What holds of the result of each successful run of the parts holds of the whole.
pub >>=-rule {ℓ κ ν} :
    {A : Type ℓ} {B : Type κ} (P : B → Type ν) (m : Result A) (f : A → Result B)
    → ((a : A) → m ≡ ok a → (b : B) → f a ≡ ok b → P b)
    → (b : B) → (m >>= f) ≡ ok b
    → P b
>>=-rule P (ok a) f k b e = k a refl b e
>>=-rule P (err e') f k b e = cc
