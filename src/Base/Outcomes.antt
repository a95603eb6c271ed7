-- ===== src/Base/Outcomes.antt =====
-- Results of code that may give none (a loop out of fuel), and of code that may end the program:
-- std::exit with its code, and the lines printed before.
use mathlib.Core.List.{List}
use mathlib.Core.Option.{Option, none, some}
use gapbs_bfs_experiment.Base.Int.{ℤ}
use gapbs_bfs_experiment.Base.Strings.{Text}

-- Goes on with what the step before gives.
abbrev pub and_then {ℓ κ} : {A : Type ℓ} {B : Type κ} → Option A → (A → Option B) → Option B
and_then none next = none
and_then (some a) next = next a

pub data Exit {ℓ} (A : Type ℓ) : Type ℓ where
  done : A → Exit A
  exits : ℤ → List Text → Exit A

infixl 10 ◌>>=◌
abbrev pub ◌>>=◌ {ℓ κ} : {A : Type ℓ} {B : Type κ} → Exit A → (A → Exit B) → Exit B
done a >>= k = k a
exits code printed >>= k = exits code printed
