-- ===== src/Kernel/Floats.antt =====
-- Floating-point numbers, which the program only adds, multiplies, compares, rounds and prints.
-- `le a b` is `a <= b`; a proof that needs its laws says so.
pub mod Sorting
use mathlib.Core.List.{foldl}
use cbir_engine.Base.{Bool, List, Text, [], if◌then◌else◌, true, zero, ◌&&◌, ◌∷◌, ◌≡◌, ◌⊎◌}

pub record Floats : Type 1 where
  pub F : Type 0
  pub zero : F
  pub one : F
  pub add : F → F → F
  pub sub : F → F → F
  pub mul : F → F → F
  pub div : F → F → F
  pub sqrt : F → F
  pub le : F → F → Bool
  pub round_6 : F → F
  pub show : F → Text

-- `<=` is a total preorder: no score is NaN.
pub record Ordered (fl : Floats) : Type 0 where
  pub le_total : (a b : fl.F) → (fl.le a b ≡ true) ⊎ (fl.le b a ≡ true)
  pub le_trans : (a b c : fl.F) → fl.le a b ≡ true → fl.le b c ≡ true → fl.le a c ≡ true

module _ (fl : Floats) where
  -- a == b
  abbrev pub feq : fl.F → fl.F → Bool
  feq a b = fl.le a b && fl.le b a

  -- max(a, b) and min(a, b)
  abbrev pub fmax : fl.F → fl.F → fl.F
  fmax a b = if fl.le b a then a else b

  abbrev pub fmin : fl.F → fl.F → fl.F
  fmin a b = if fl.le a b then a else b

  abbrev products : List fl.F → List fl.F → List fl.F
  products (x ∷ xs) (y ∷ ys) = fl.mul x y ∷ products xs ys
  products _ _ = []

  -- sum(x * y for x, y in zip(a, b))
  unfoldable pub dot : List fl.F → List fl.F → fl.F
  dot a b = foldl fl.add fl.zero (products a b)

  -- math.sqrt(sum(x * x for x in a)), and np.linalg.norm
  unfoldable pub norm : List fl.F → fl.F
  unfolding dot
  norm a = fl.sqrt (dot a a)

-- A list sorted by falling scores, stably: `xs.sort(key=score, reverse=True)`.
module _ (fl : Floats) {A : Type 0} (score : A → fl.F) where
  abbrev pub place : A → List A → List A
  place x [] = x ∷ []
  place x (y ∷ ys) =
      let rest = place x ys in if fl.le (score y) (score x) then x ∷ y ∷ ys else y ∷ rest

  unfoldable pub sort_desc : List A → List A
  sort_desc [] = []
  sort_desc (x ∷ xs) = place x (sort_desc xs)
