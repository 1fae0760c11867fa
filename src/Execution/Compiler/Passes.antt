-- ===== src/Execution/Compiler/Passes.antt =====
-- What holds of the value that a chain of checks returns.
use multiagents.Prelude.{Bool, true, false, ◌≡◌, refl, List, String, if◌then◌else◌}
use multiagents.Exec.{Result, ok, err}
use multiagents.Execution.Compiler.{check}

-- what holds of the value, if no exception is raised
unfoldable pub Passes {κ} : {A : Type 0} → (A → Type κ) → Result String A → Type κ
Passes P (ok a) = P a
Passes P (err e) = Unit

pub check-Passes {κ} :
    {A : Type 0} (P : A → Type κ) (b : Bool) (parts : List String) (rest : Result String A)
    → (b ≡ true → Passes P rest)
    → Passes P (check b parts rest)
unfolding check Passes
check-Passes P true parts rest h = h refl
check-Passes P false parts rest h = tt

pub branch-Passes {κ} :
    {A : Type 0} (P : A → Type κ) (b : Bool) (r s : Result String A)
    → (b ≡ true → Passes P r)
    → (b ≡ false → Passes P s)
    → Passes P (if b then r else s)
branch-Passes P true r s h k = h refl
branch-Passes P false r s h k = k refl

pub Passes-imp {κ ι} :
    {A : Type 0} {P : A → Type κ} {Q : A → Type ι} (r : Result String A)
    → ((a : A) → P a → Q a)
    → Passes P r
    → Passes Q r
unfolding Passes
Passes-imp (ok a) f h = f a h
Passes-imp (err e) f h = tt

pub accepted : (r s : Result String Unit) → r ≡ s → Passes (λ _. r ≡ ok tt) s
unfolding Passes
accepted r (ok u) e = e
accepted r (err x) e = tt
