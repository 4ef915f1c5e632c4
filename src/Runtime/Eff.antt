-- ===== src/Runtime/Eff.antt =====
-- Code that changes a world and may throw: what it changed before it threw stays changed. This is
-- the shape of every asynchronous method of the runtime.
use kookaburra.Prelude.{◌≡◌, refl}
use kookaburra.Result.{Result, ok, err, Failure}

abbrev pub Eff : Type 0 → Type 0 → Type 0
Eff W A = W → Result A × W

-- `await`, then the rest; an exception goes on, in the world that it leaves.
abbrev pub after : {W A B : Type 0} → Result A × W → (A → Eff W B) → Result B × W
after (ok a, w) rest = rest a w
after (err failure, w) rest = (err failure, w)

infixl 5 ◌>>=◌
abbrev pub ◌>>=◌ : {W A B : Type 0} → Eff W A → (A → Eff W B) → Eff W B
m >>= rest = λ w. after (m w) rest

abbrev pub give : {W A : Type 0} → A → Eff W A
give a = λ w. (ok a, w)

abbrev pub throw : {W A : Type 0} → Failure → Eff W A
throw failure = λ w. (err failure, w)

-- `catch`
abbrev pub rescue : {W A : Type 0} → Result A × W → (Failure → A) → Result A × W
rescue (ok a, w) handle = (ok a, w)
rescue (err failure, w) handle = (ok (handle failure), w)

-- Inversion of a step that succeeds
pub after-eq-ok :
    {W A B : Type 0} (p : Result A × W) (rest : A → Eff W B) (b : B) (last : W)
    → after p rest ≡ (ok b, last)
    → (a : A) × ((w : W) × (p ≡ (ok a, w)) × (rest a w ≡ (ok b, last)))
after-eq-ok (ok a, w) rest b last e = (a, (w, refl, e))
after-eq-ok (err failure, w) rest b last e = cc
