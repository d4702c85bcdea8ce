-- ===== src/Base/Numerals.antt =====
-- Numbers printed in decimal: str(n) tells them apart, also at the end of a longer text.
use Prim.Native.Nat.{ℕ, zero, suc, ◌+◌, ◌-◌, ◌*◌, ◌/◌, ◌%◌, ◌≤◌, ◌<◌}
use native.Mathlib.Omega.{arith}
use mathlib.Core.Path.{◌≡◌, refl, sym, ap, ◌∙◌, subst}
use mathlib.Core.Logic.{inl, inr}
use mathlib.Core.List.{[], ◌∷◌, ◌++◌}
use cbir_engine.Base.Lists.{All, drop}
use cbir_engine.Base.Strings.{Lacks, Text, show_digits, show_nat}
use cbir_engine.Base.Tests.{Bool-cases, ltb}

abbrev head_or : ℕ → Text → ℕ
head_or n [] = n
head_or n (c ∷ s) = c

-- The number that a text of decimal digits shows, after a number that was read before.
abbrev decimal : ℕ → Text → ℕ
decimal n [] = n
decimal n (c ∷ s) = decimal (n * 10 + (c - 48)) s

decimal-show_digits :
    (fuel n : ℕ) (acc : Text) → n < fuel → decimal 0 (show_digits fuel n acc) ≡ decimal n acc
decimal-show_digits zero n acc h = absurd (omega arith)
decimal-show_digits (suc fuel) n acc h = elim (Bool-cases (ltb n 10)) [
  | inl e ↦ rw e (ap (λ m. decimal m acc) (omega arith))
  | inr e ↦
      let large : 10 ≤ n = ground arith in
      rw e (
        decimal-show_digits fuel (n / 10) ((48 + n % 10) ∷ acc) (omega (arith, large, h))
        ∙ ap (λ m. decimal m acc) (omega arith))
]

-- str(n) tells numbers apart.
pub show_nat-Separates : (m n : ℕ) → show_nat m ≡ show_nat n → m ≡ n
unfolding show_nat
show_nat-Separates m n h =
    sym (decimal-show_digits (suc m) m [] (omega arith))
    ∙ ap (decimal 0) h
    ∙ decimal-show_digits (suc n) n [] (omega arith)

show_digits-Lacks : (fuel n : ℕ) (acc : Text) → Lacks 58 acc → Lacks 58 (show_digits fuel n acc)
show_digits-Lacks zero n acc h = h
show_digits-Lacks (suc fuel) n acc h = elim (Bool-cases (ltb n 10)) [
  | inl e ↦ rw (e, All) (ground arith, h)
  | inr e ↦ rw (e, All) (show_digits-Lacks fuel (n / 10) ((48 + n % 10) ∷ acc) (ground arith, h))
]

pub show_nat-Lacks : (n : ℕ) → Lacks 58 (show_nat n)
unfolding show_nat
show_nat-Lacks n = show_digits-Lacks (suc n) n [] tt

lacking-middle : (sep : ℕ) (p s : Text) → ¬ Lacks sep (p ++ sep ∷ s)
lacking-middle sep [] s h = ground arith
lacking-middle sep (c ∷ p) s h = lacking-middle sep p s h.1

-- The part after the last separator is determined, and so is the part before it.
pub last_part :
    (sep : ℕ) (p q s t : Text)
    → Lacks sep s
    → Lacks sep t
    → p ++ sep ∷ s ≡ q ++ sep ∷ t
    → (p ≡ q) × (s ≡ t)
last_part sep [] [] s t h k e = (refl, ap (drop 1) e)
last_part sep [] (d ∷ q) s t h k e =
    absurd (lacking-middle sep q t (subst (Lacks sep) (ap (drop 1) e) h))
last_part sep (c ∷ p) [] s t h k e =
    absurd (lacking-middle sep p s (subst (Lacks sep) (sym (ap (drop 1) e)) k))
last_part sep (c ∷ p) (d ∷ q) s t h k e =
    let (before, after) = last_part sep p q s t h k (ap (drop 1) e) in
    let first : c ≡ d = ap (head_or c) e in (ap (λ x. x ∷ p) first ∙ ap (λ x. d ∷ x) before, after)
