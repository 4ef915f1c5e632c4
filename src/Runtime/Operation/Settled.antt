-- ===== src/Runtime/Operation/Settled.antt =====
-- What a transition leaves behind it.
use kookaburra.Prelude.{Bool, true, false, is_some, ◌≡◌}
use kookaburra.Result.{ok}
use kookaburra.Runtime.Entity.{Object, Entity, set}
use kookaburra.Runtime.State.{Backend, announce}
use kookaburra.Runtime.Operation.{Answer, Task, Algorithm}

module _ {W V N : Type 0} (backend : Backend W V N) (algorithm : Algorithm W V) where
  -- How the commit of a transition ends: its reply is an error, and nothing is written; or the
  -- object is written and then announced; or the storage refuses it, and it is to try again.
  pub data IsSettled (task : Task V N) (scope : Entity V) (reply : Answer V) (state : Object V)
      (again : Bool) (w last : W) : Type 0 where
    rejected :
        is_some reply.error ≡ true
        → again ≡ false
        → last ≡ w
        → IsSettled task scope reply state again w last
    stored :
        (changed : Entity V) (written : W)
        → again ≡ false
        → set backend.schema (backend.now w) state scope ≡ ok changed
        → backend.store changed.state w ≡ (ok true, written)
        → announce backend task.input changed written ≡ (ok tt, last)
        → IsSettled task scope reply state again w last
    conflicted :
        (changed : Entity V)
        → again ≡ true
        → set backend.schema (backend.now w) state scope ≡ ok changed
        → backend.store changed.state w ≡ (ok false, last)
        → IsSettled task scope reply state again w last
