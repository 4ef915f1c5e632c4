-- ===== src/Runtime/Calls/Bindings.antt =====
-- Which binding answers a request.
use kookaburra.Prelude.{Bool, none, some, List, [], ◌∷◌, ◌++◌, ◌≡◌, refl}
use kookaburra.Result.{ok, err, exception}
use kookaburra.Runtime.Operation.{Reply, Request}
use kookaburra.Runtime.Calls.{Binding, transmission, try_binding, transmit}

module _ {W V R : Type 0} (task : Bool) (request : Request V R) where
  -- The bindings reject the request, each in the world that those before it leave.
  abbrev pub Reject : List (Binding W V R) → W → W → Type 0
  Reject [] w last = w ≡ last
  Reject (binding ∷ bindings) w last =
      (v : W) × (try_binding task binding request w ≡ (ok none, v)) × Reject bindings v last

  -- A request is answered by the first binding that does not reject it: the bindings after it are
  -- not tried, and the reply is its reply.
  pub transmit-replies :
      (before after : List (Binding W V R)) (binding : Binding W V R) (reply : Reply V)
      (w v last : W)
      → Reject before w v
      → try_binding task binding request v ≡ (ok (some reply), last)
      → transmit task (before ++ binding ∷ after) request w ≡ (ok reply, last)
  unfolding transmit
  transmit-replies [] after binding reply w v last same e = rw (same, e, transmit) refl
  transmit-replies (b ∷ before) after binding reply w v last (u, rejected, rest) e =
      rw (rejected, transmit) (transmit-replies before after binding reply u v last rest e)

  -- Where all bindings reject it, the caller gets a TransmissionException.
  pub transmit-fails :
      (bindings : List (Binding W V R)) (w last : W)
      → Reject bindings w last
      → transmit task bindings request w
        ≡ (err (exception transmission "All bindings rejected."), last)
  unfolding transmit
  transmit-fails [] w last same = rw same refl
  transmit-fails (b ∷ bindings) w last (u, rejected, rest) =
      rw (rejected, transmit) (transmit-fails bindings u last rest)
