-- ===== src/Prelude/Loop.antt =====
-- A `while` loop as a step function that runs again or finishes, on fuel, with its invariant rule.
use Prim.Native.Nat.{ℕ, zero, suc, ◌<◌}
use mathlib.Core.Path.{◌≡◌, refl}
use mathlib.Core.Option.{Option, none, some}
use native.Mathlib.Omega.{arith}

pub data Turn {ℓ κ} (S : Type ℓ) (R : Type κ) : Type (ℓ ⊔ κ) where
  again : S → Turn S R
  finished : R → Turn S R

-- `none` means that the fuel ran out.
unfoldable pub iterate {ℓ κ} : {S : Type ℓ} {R : Type κ} → ℕ → (S → Turn S R) → S → Option R
iterate zero step s = none
iterate (suc fuel) step s = elim (step s) [ again t ↦ iterate fuel step t | finished r ↦ some r ]

-- A turn keeps the invariant and lowers the measure, or ends in the postcondition.
abbrev pub Keeps {ℓ κ} :
    {S : Type ℓ} {R : Type κ} → (S → Type 0) → (R → Type 0) → (S → ℕ) → S → Turn S R → Type 0
Keeps P Q measure s (again t) = P t × (measure t < measure s)
Keeps P Q measure s (finished r) = Q r

turn_returns {ℓ κ} :
    {S : Type ℓ} {R : Type κ} (P : S → Type 0) (Q : R → Type 0) (measure : S → ℕ)
    (rest : S → Option R) (s : S) (t : Turn S R)
    → Keeps P Q measure s t
    → ((u : S) → P u → measure u < measure s → (r : R) × (rest u ≡ some r) × Q r)
    → (r : R) × ((elim t [ again u ↦ rest u | finished r ↦ some r ]) ≡ some r) × Q r
turn_returns P Q measure rest s (again u) (p, less) next = next u p less
turn_returns P Q measure rest s (finished r) q next = (r, refl, q)

-- The loop of a step that keeps an invariant returns, with its postcondition, once the fuel exceeds
-- the measure.
pub iterate_returns {ℓ κ} :
    {S : Type ℓ} {R : Type κ} (P : S → Type 0) (Q : R → Type 0) (measure : S → ℕ)
    (step : S → Turn S R)
    → ((s : S) → P s → Keeps P Q measure s (step s))
    → (fuel : ℕ) (s : S) → P s
    → measure s < fuel
    → (r : R) × (iterate fuel step s ≡ some r) × Q r
unfolding iterate
iterate_returns P Q measure step keep zero s p h = elim h [ ]
iterate_returns P Q measure step keep (suc fuel) s p h =
    turn_returns P Q measure (iterate fuel step) s (step s) (keep s p)
      λ t p' less. iterate_returns P Q measure step keep fuel t p' (omega arith)
