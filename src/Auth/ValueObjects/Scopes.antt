-- ===== src/Auth/ValueObjects/Scopes.antt =====
-- validate_scopes: the scopes that a key is issued with.
use cbir_engine.Auth.ValueObjects.{
  AuthError, from_keys, has_member, known_scopes, unknown_scope, validate_scopes,
}
use cbir_engine.Base.{
  Bool, Bool-cases, List, Result, String, [], all, ap, arith, eq_iff, eq_refl, err, false, inl, inr,
  length, ok, or_false, refl, str_eq, sym, true, ◌++◌, ◌||◌, ◌∙◌, ◌∷◌, ◌≡◌, ◌⊎◌,
}

-- The list has no scope twice.
abbrev pub IsDistinct : List String → Type 0
IsDistinct [] = Unit
IsDistinct (s ∷ ss) = (has_member s ss ≡ false) × IsDistinct ss

has_member-append :
    (s : String) (xs ys : List String)
    → has_member s (xs ++ ys) ≡ (has_member s xs || has_member s ys)
has_member-append s [] ys = refl
has_member-append s (x ∷ xs) ys = elim (Bool-cases (str_eq x s)) [
  | inl e ↦ rw e refl
  | inr e ↦ rw e (has_member-append s xs ys)
]

str_eq-flip : (s t : String) → str_eq s t ≡ false → str_eq t s ≡ false
str_eq-flip s t h = elim (Bool-cases (str_eq t s)) [
  | inl e ↦ let same = (eq_iff t s).0 e in let own = eq_refl s in cc
  | inr e ↦ e
]

append-IsDistinct :
    (xs : List String) (s : String)
    → IsDistinct xs
    → has_member s xs ≡ false
    → IsDistinct (xs ++ (s ∷ []))
append-IsDistinct [] s h k = (refl, tt)
append-IsDistinct (x ∷ xs) s h k =
    let (apart, absent) = or_false (str_eq x s) (has_member s xs) k in
    (
      has_member-append x xs (s ∷ []) ∙ rw h.0 (rw (str_eq-flip x s apart) refl),
      append-IsDistinct xs s h.1 absent,
    )

from_keys-IsDistinct : (seen ss : List String) → IsDistinct seen → IsDistinct (from_keys seen ss)
unfolding from_keys
from_keys-IsDistinct seen [] h = h
from_keys-IsDistinct seen (s ∷ ss) h = elim (Bool-cases (has_member s seen)) [
  | inl e ↦ rw e (from_keys-IsDistinct seen ss h)
  | inr e ↦ rw e (from_keys-IsDistinct (seen ++ (s ∷ [])) ss (append-IsDistinct seen s h e))
]

or_absorbs : (a b c : Bool) → (b ≡ true → a ≡ true) → (a || c) ≡ (a || (b || c))
or_absorbs a b c h = ground (arith, h)

or_moves : (a b c : Bool) → ((a || (b || false)) || c) ≡ (a || (b || c))
or_moves a b c = ground arith

-- A scope is in the result exactly when it was seen or is still to come.
from_keys-member :
    (t : String) (seen ss : List String)
    → has_member t (from_keys seen ss) ≡ (has_member t seen || has_member t ss)
unfolding from_keys
from_keys-member t seen [] = ground arith
from_keys-member t seen (s ∷ ss) = elim (Bool-cases (has_member s seen)) [
  | inl e ↦ rw e (
      from_keys-member t seen ss
      ∙ or_absorbs (has_member t seen) (str_eq s t) (has_member t ss)
          (λ f. let same = (eq_iff s t).0 f in rw (sym same) e))
  | inr e ↦ rw e (
      from_keys-member t (seen ++ (s ∷ [])) ss
      ∙ ap (λ b. b || has_member t ss) (has_member-append t seen (s ∷ []))
      ∙ or_moves (has_member t seen) (str_eq s t) (has_member t ss))
]

-- What validate_scopes makes of a list of scopes.
abbrev pub IsScopeSet : List String → Result AuthError (List String) → Type 0
IsScopeSet ss (ok out) =
    IsDistinct out
    × ((t : String) → has_member t out ≡ has_member t ss)
    × (all (λ t. has_member t known_scopes) ss ≡ true)
IsScopeSet ss (err e) =
    (e ≡ unknown_scope) × ((length ss ≡ 0) ⊎ (all (λ t. has_member t known_scopes) ss ≡ false))

-- The scopes that are accepted are all known, and come back without repetition, the same set as
-- was given; an empty list, and one with an unknown scope, are refused.
pub validate_scopes-IsScopeSet : (ss : List String) → IsScopeSet ss (validate_scopes ss)
unfolding validate_scopes
validate_scopes-IsScopeSet [] = (refl, inl refl)
validate_scopes-IsScopeSet (s ∷ ss) =
    elim (Bool-cases (all (λ t. has_member t known_scopes) (s ∷ ss))) [
      | inl e ↦ rw e (from_keys-IsDistinct [] (s ∷ ss) tt, (λ t. from_keys-member t [] (s ∷ ss)), e)
      | inr e ↦ rw e (refl, inr e)
    ]
