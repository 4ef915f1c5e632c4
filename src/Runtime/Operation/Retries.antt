-- ===== src/Runtime/Operation/Retries.antt =====
-- How a transition ends: after how many attempts, and with what left in the world.
use kookaburra.Prelude.{ℕ, zero, suc, ◌≤◌, Bool, true, false, ◌≡◌, refl, ◌∙◌, ap, arith}
use kookaburra.Result.{Result, ok, err, fault}
use kookaburra.Runtime.Eff.{Eff}
use kookaburra.Runtime.State.{Backend}
use kookaburra.Runtime.Operation.{Answer, Task, Algorithm, transit_once, retry, transit}

module _ {W A : Type 0} (pause : W → W) (run : Eff W (A × Bool)) where
  -- The world after a number of attempts that met a conflict, each with its pause
  abbrev pub delayed : ℕ → W → W
  delayed zero w = w
  delayed (suc n) w = delayed n (pause (run w).1)

  -- Each of the next attempts meets a conflict.
  abbrev pub Conflicts : ℕ → W → Type 0
  Conflicts zero w = Unit
  Conflicts (suc n) w =
      ((reply : A) × ((run w).0 ≡ ok (reply, true))) × Conflicts n (pause (run w).1)

  again_retries :
      (reply : A) (left : ℕ) (w : W) (p : Result (A × Bool) × W)
      → run w ≡ p
      → p.0 ≡ ok (reply, true)
      → retry pause run (suc left) w ≡ retry pause run left (pause p.1)
  unfolding retry
  again_retries reply left w (ok (r, true), w') e h = rw (e, retry) refl
  again_retries reply left w (ok (r, false), w') e h = cc
  again_retries reply left w (err failure, w') e h = cc

  answered_retry :
      (reply : A) (left : ℕ) (w w' : W)
      → run w ≡ (ok (reply, false), w')
      → retry pause run left w ≡ (ok reply, w')
  unfolding retry
  answered_retry reply zero w w' e = rw (e, retry) refl
  answered_retry reply (suc left) w w' e = rw (e, retry) refl

  last_attempt :
      (reply : A) (w : W) (p : Result (A × Bool) × W)
      → run w ≡ p
      → p.0 ≡ ok (reply, true)
      → (retry pause run zero w).0 ≡ err (fault "Retry failed")
  unfolding retry
  last_attempt reply w (ok (r, true), w') e h = rw (e, retry) refl
  last_attempt reply w (ok (r, false), w') e h = cc
  last_attempt reply w (err failure, w') e h = cc

  -- A transition that meets no more conflicts than it has retries replies, with the reply of the
  -- first attempt that meets none, and leaves the world as that attempt does.
  pub retry-replies :
      (n left : ℕ) (reply : A) (w last : W)
      → n ≤ left
      → Conflicts n w
      → run (delayed n w) ≡ (ok (reply, false), last)
      → retry pause run left w ≡ (ok reply, last)
  retry-replies zero left reply w last l h e = answered_retry reply left w last e
  retry-replies (suc n) zero reply w last l h e = absurd (omega arith)
  retry-replies (suc n) (suc left) reply w last l ((r, here), h) e =
      again_retries r left w (run w) refl here
      ∙ retry-replies n left reply (pause (run w).1) last (omega arith) h e

  -- With a conflict at every attempt it ends with an exception, after one attempt more than
  -- retries.
  pub retry-fails :
      (left : ℕ) (w : W)
      → Conflicts (suc left) w
      → (retry pause run left w).0 ≡ err (fault "Retry failed")
  retry-fails zero w ((r, here), h) = last_attempt r w (run w) refl here
  retry-fails (suc left) w ((r, here), h) =
      ap (λ p. p.0) (again_retries r left w (run w) refl here)
      ∙ retry-fails left (pause (run w).1) h

module _ {W V N : Type 0} (backend : Backend W V N) (algorithm : Algorithm W V) (pause : W → W)
    (task : Task V N) where
  -- A transition that may retry replies if any of its 33 attempts meets no conflict and replies:
  -- it ends with the reply of the first, and the world that this attempt leaves.
  pub transit-replies :
      (n : ℕ) (reply : Answer V) (w last : W)
      → n ≤ 32
      → Conflicts pause (transit_once backend algorithm true task) n w
      → transit_once backend algorithm true task
          (delayed pause (transit_once backend algorithm true task) n w)
        ≡ (ok (reply, false), last)
      → transit backend algorithm pause true task w ≡ (ok reply, last)
  unfolding transit
  transit-replies n reply w last l h e =
      retry-replies pause (transit_once backend algorithm true task) n 32 reply w last l h e

  -- A transition whose 33 attempts all meet a conflict ends with an exception.
  pub transit-fails :
      (w : W)
      → Conflicts pause (transit_once backend algorithm true task) 33 w
      → (transit backend algorithm pause true task w).0 ≡ err (fault "Retry failed")
  unfolding transit
  transit-fails w h = retry-fails pause (transit_once backend algorithm true task) 32 w h
