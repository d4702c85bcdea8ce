-- ===== src/Base/Effects.antt =====
-- Python code that changes state and may raise. The state comes back beside an exception too: what
-- was written before a `raise` stays written, unless a unit of work rolls it back.
use mathlib.Core.Bool.{Bool, true, false}
use mathlib.Core.Path.{◌≡◌, ap, refl}
use mathlib.Core.Logic.{◌⊎◌, inl, inr}

pub data Result (E A : Type 0) : Type 0 where
  ok : A → Result E A
  err : E → Result E A

abbrev pub Exec : Type 0 → Type 0 → Type 0 → Type 0
Exec S E A = S → Result E A × S

module _ {S E A : Type 0} where
  abbrev pub pure : A → Exec S E A
  pure a w = (ok a, w)

  abbrev pub raise : E → Exec S E A
  raise e w = (err e, w)

  abbrev pub lift : Result E A → Exec S E A
  lift r w = (r, w)

  abbrev pub gets : (S → A) → Exec S E A
  gets f w = (ok (f w), w)

module _ {S E : Type 0} where
  abbrev pub modify : (S → S) → Exec S E (Unit {0})
  modify f w = (ok tt, f w)

  -- `if not test: raise e`
  abbrev pub require : Bool → E → Exec S E (Unit {0})
  require true e w = (ok tt, w)
  require false e w = (err e, w)

abbrev pub followed : {S E A B : Type 0} → (A → Exec S E B) → Result E A × S → Result E B × S
followed f (ok a, v) = f a v
followed f (err e, v) = (err e, v)

infixl 5 ◌>>=◌ ◌>>◌
abbrev pub ◌>>=◌ : {S E A B : Type 0} → Exec S E A → (A → Exec S E B) → Exec S E B
◌>>=◌ m f w = followed f (m w)

abbrev pub ◌>>◌ : {S E A B : Type 0} → Exec S E A → Exec S E B → Exec S E B
m >> k = m >>= λ _. k

-- What a chain comes to when its first action is known.
module _ {S E A B : Type 0} where
  pub bind_ok :
      (m : Exec S E A) (f : A → Exec S E B) (w v : S) (a : A)
      → m w ≡ (ok a, v)
      → (m >>= f) w ≡ f a v
  bind_ok m f w v a h = ap (followed f) h

  pub bind_err :
      (m : Exec S E A) (f : A → Exec S E B) (w v : S) (e : E)
      → m w ≡ (err e, v)
      → (m >>= f) w ≡ (err e, v)
  bind_err m f w v e h = ap (followed f) h

-- A property of what a chain comes to, from both results of its first action.
pub followed-cases :
    {S E A B : Type 0} (P : Result E B × S → Type 0) (f : A → Exec S E B) (p : Result E A × S)
    → ((a : A) (v : S) → p ≡ (ok a, v) → P (f a v))
    → ((e : E) (v : S) → p ≡ (err e, v) → P (err e, v))
    → P (followed f p)
followed-cases P f (ok a, v) h k = h a v refl
followed-cases P f (err e, v) h k = k e v refl

-- The same where the first action only computes a result, or tests a condition.
pub lift-cases :
    {S E A B : Type 0} (P : Result E B × S → Type 0) (f : A → Exec S E B) (r : Result E A) (w : S)
    → ((a : A) → r ≡ ok a → P (f a w))
    → ((e : E) → r ≡ err e → P (err e, w))
    → P (followed f (r, w))
lift-cases P f (ok a) w h k = h a refl
lift-cases P f (err e) w h k = k e refl

pub require-cases :
    {S E B : Type 0} (P : Result E B × S → Type 0) (f : Unit {0} → Exec S E B) (b : Bool) (e : E)
    (w : S)
    → (b ≡ true → P (f tt w))
    → (b ≡ false → P (err e, w))
    → P (followed f (require b e w))
require-cases P f true e w h k = h refl
require-cases P f false e w h k = k refl

pub Result-cases :
    {E A : Type 0} (r : Result E A) → ((a : A) × (r ≡ ok a)) ⊎ ((e : E) × (r ≡ err e))
Result-cases (ok a) = inl (a, refl)
Result-cases (err e) = inr (e, refl)
