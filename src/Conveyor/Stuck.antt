-- ===== src/Conveyor/Stuck.antt =====
-- What becomes of a conveyor whose processor throws.
use kookaburra.Prelude.{ℕ, ◌≡◌, refl, true, none, some, List, arith}
use kookaburra.Conveyor.{Answer, threw, Conveyor, begin, continue, process}

-- Nothing is awaited that would free the conveyor.
abbrev IsStuck : {U R : Type 0} → Conveyor U R → Type 0
IsStuck c = (c.busy ≡ true) × (c.awaited ≡ none)

-- The steps after a state
pub data After {U R : Type 0} (start : Conveyor U R) : Conveyor U R → Type 0 where
  here : After start start
  then_arrives : {c : Conveyor U R} → After start c → (unit : U) → After start (process unit c)
  then_answers :
      {c : Conveyor U R}
      → After start c
      → (batch : List U) (promises : List ℕ) → c.awaited ≡ some (batch, promises)
      → (results : Answer R) → After start (continue results promises c)

After-IsStuck :
    {U R : Type 0} {start c : Conveyor U R}
    → IsStuck start
    → After start c
    → IsStuck c × (c.settled ≡ start.settled)
unfolding process begin
After-IsStuck stuck here = (stuck, refl)
After-IsStuck stuck (then_arrives before unit) =
    let (h, e) = After-IsStuck stuck before in (ground (arith, h.0, h.1), ground (arith, h.0, e))
After-IsStuck stuck (then_answers before batch promises h results) =
    let (k, e) = After-IsStuck stuck before in absurd (cc (k.1, h))

-- A call of the processor that throws stops the conveyor for good: whatever comes after it,
-- no promise is settled any more.
pub continue-threw :
    {U R : Type 0} (start c : Conveyor U R) (promises : List ℕ)
    → start.busy ≡ true
    → After (continue threw promises start) c
    → c.settled ≡ start.settled
unfolding continue
continue-threw start c promises busy after = (After-IsStuck (busy, refl) after).1
