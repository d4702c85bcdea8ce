-- ===== src/Base/Strings.antt =====
-- Texts that the program walks, as lists of code points. Texts that it only compares (enum values,
-- scopes, content types) are the native `String`.
use Prim.Native.Nat.{ℕ, zero, suc, ◌+◌, ◌-◌, ◌/◌, ◌%◌}
use Prim.Native.Char.{code}
use Prim.Native.String.{String}
use native.Mathlib.Decide.{ℕ_discrete}
use native.Mathlib.Omega.{arith}
use mathlib.Core.Path.{◌≡◌, refl}
use mathlib.Core.Logic.{◌↔◌, ◌≢◌, inl, inr}
use mathlib.Core.Bool.{Bool, true, false, ◌&&◌, ◌||◌}
use mathlib.Core.List.{List, [], ◌∷◌, ◌++◌, reverse, reverse-reverse}
use cbir_engine.Base.Lists.{length, All, All-reverse}
use cbir_engine.Base.Tests.{Bool-cases, leb, ltb, ◌==◌, if◌then◌else◌}

abbrev pub Text : Type 0
Text = List ℕ

-- The code points of a literal.
unfoldable pub codes : String → Text
codes String.[] = []
codes (String.◌∷◌ c s) = code c ∷ codes s

pub Text-discrete : Discrete Text
Text-discrete = hlevel ℕ_discrete

unfoldable pub text_eq : Text → Text → Bool
text_eq [] [] = true
text_eq (a ∷ s) (b ∷ t) = a == b && text_eq s t
text_eq _ _ = false

text_eq→eq : (s t : Text) → text_eq s t ≡ true → s ≡ t
unfolding text_eq
text_eq→eq [] [] h = refl
text_eq→eq [] (b ∷ t) h = cc
text_eq→eq (a ∷ s) [] h = cc
text_eq→eq (a ∷ s) (b ∷ t) h = ground (arith, text_eq→eq s t)

pub text_eq_refl : (s : Text) → text_eq s s ≡ true
unfolding text_eq
text_eq_refl [] = refl
text_eq_refl (a ∷ s) = ground (arith, text_eq_refl s)

pub text_eq_iff : (s t : Text) → (text_eq s t ≡ true) ↔ (s ≡ t)
text_eq_iff s t = (text_eq→eq s t, λ e. rw e (text_eq_refl t))

pub text_apart : (s t : Text) → s ≢ t → text_eq s t ≡ false
text_apart s t apart = elim (Bool-cases (text_eq s t)) [
  | inl e ↦ elim (apart ((text_eq_iff s t).0 e)) [ ]
  | inr e ↦ e
]

-- s.encode("ascii") succeeds.
unfoldable pub is_ascii : Text → Bool
is_ascii [] = true
is_ascii (c ∷ s) = ltb c 128 && is_ascii s

-- The white space of `str.strip` and `str.split`, in ASCII.
unfoldable pub is_space : ℕ → Bool
is_space c = c == 32 || (leb 9 c && leb c 13) || (leb 28 c && leb c 31)

abbrev pub lstrip_by : (ℕ → Bool) → Text → Text
lstrip_by p [] = []
lstrip_by p (c ∷ s) = let rest = lstrip_by p s in if p c then rest else c ∷ s

-- s.strip(chars), for the characters that pass
unfoldable pub strip_by : (ℕ → Bool) → Text → Text
strip_by p s = reverse (lstrip_by p (reverse (lstrip_by p s)))

-- s.strip()
unfoldable pub strip : Text → Text
unfolding is_space strip_by
strip s = strip_by is_space s

lstrip_by_none : (p : ℕ → Bool) (s : Text) → All (λ c. p c ≡ false) s → lstrip_by p s ≡ s
lstrip_by_none p [] h = refl
lstrip_by_none p (c ∷ s) h = rw h.0

pub strip_by_none : (p : ℕ → Bool) (s : Text) → All (λ c. p c ≡ false) s → strip_by p s ≡ s
unfolding strip_by
strip_by_none p s h =
    rw (lstrip_by_none p s h)
      (rw (lstrip_by_none p (reverse s) (All-reverse (λ c. p c ≡ false) s h)) (reverse-reverse s))

-- s.lower(), in ASCII
unfoldable pub lower : Text → Text
lower [] = []
lower (c ∷ s) = (if leb 65 c && leb c 90 then c + 32 else c) ∷ lower s

-- s.startswith(p)
unfoldable pub starts_with : Text → Text → Bool
starts_with s [] = true
starts_with [] (d ∷ p) = false
starts_with (c ∷ s) (d ∷ p) = c == d && starts_with s p

-- s.replace(word, ""), while k characters of a match remain to be dropped
abbrev drop_word : Text → ℕ → Text → Text
drop_word w k [] = []
drop_word w (suc k) (c ∷ s) = drop_word w k s
drop_word w zero (c ∷ s) =
    let skip = drop_word w (length w - 1) s in
    let keep = drop_word w 0 s in if starts_with (c ∷ s) w then skip else c ∷ keep

-- s.replace(word, "") for a word that is not empty
unfoldable pub without_word : Text → Text → Text
unfolding starts_with
without_word w s = drop_word w 0 s

-- s.replace(c, "") for a single character
unfoldable pub without : ℕ → Text → Text
without c [] = []
without c (d ∷ s) = let rest = without c s in if d == c then rest else d ∷ rest

abbrev push_head : ℕ → List Text → List Text
push_head c [] = (c ∷ []) ∷ []
push_head c (p ∷ ps) = (c ∷ p) ∷ ps

-- s.split(sep) for a single character
unfoldable pub split : ℕ → Text → List Text
split sep [] = [] ∷ []
split sep (c ∷ s) = let rest = split sep s in if c == sep then [] ∷ rest else push_head c rest

-- The text holds no character c.
abbrev pub Lacks : ℕ → Text → Type 0
Lacks c = All (λ d. (d == c) ≡ false)

pub is_ascii-append :
    (s t : Text) → is_ascii s ≡ true → is_ascii t ≡ true → is_ascii (s ++ t) ≡ true
unfolding is_ascii
is_ascii-append [] t h k = k
is_ascii-append (c ∷ s) t h k = ground (arith, is_ascii-append s t)

push_head-Ascii :
    (c : ℕ) (ps : List Text)
    → ltb c 128 ≡ true
    → All (λ p. is_ascii p ≡ true) ps
    → All (λ p. is_ascii p ≡ true) (push_head c ps)
unfolding is_ascii
push_head-Ascii c [] h k = (rw h refl, tt)
push_head-Ascii c (p ∷ ps) h k = (rw h k.0, k.1)

-- The parts of an ASCII text are ASCII.
pub split-Ascii :
    (sep : ℕ) (s : Text) → is_ascii s ≡ true → All (λ p. is_ascii p ≡ true) (split sep s)
unfolding is_ascii split
split-Ascii sep [] h = (refl, tt)
split-Ascii sep (c ∷ s) h =
    let first : ltb c 128 ≡ true = ground arith in
    let others = split-Ascii sep s (ground arith) in
    elim (Bool-cases (c == sep)) [
      | inl e ↦ rw (e, All) (refl, others)
      | inr e ↦ rw (e, All) (push_head-Ascii c (split sep s) first others)
    ]

pub without_word-Lacks : (d : ℕ) (w s : Text) → Lacks d s → without_word (d ∷ w) s ≡ s
unfolding without_word
without_word-Lacks d w [] h = refl
without_word-Lacks d w (c ∷ s) h = ground (arith, without_word-Lacks d w s h.1)

-- A part that holds no separator ends at the separator that follows it.
pub split-append : (sep : ℕ) (p s : Text) → Lacks sep p → split sep (p ++ sep ∷ s) ≡ p ∷ split sep s
unfolding split
split-append sep [] s h = ground arith
split-append sep (c ∷ p) s h = ground (arith, split-append sep p s h.1)

-- A text that holds no separator is one part.
pub split-Lacks : (sep : ℕ) (p : Text) → Lacks sep p → split sep p ≡ p ∷ []
unfolding split
split-Lacks sep [] h = refl
split-Lacks sep (c ∷ p) h = ground (arith, split-Lacks sep p h.1)

pub without-Lacks : (c : ℕ) (s : Text) → Lacks c s → without c s ≡ s
unfolding without
without-Lacks c [] h = refl
without-Lacks c (d ∷ s) h = ground (arith, without-Lacks c s h.1)

pub without-append : (c : ℕ) (s t : Text) → without c (s ++ t) ≡ without c s ++ without c t
unfolding without
without-append c [] t = refl
without-append c (d ∷ s) t = ground (arith, without-append c s t)

-- str(n), by n decimal digits of fuel at most
abbrev pub show_digits : ℕ → ℕ → Text → Text
show_digits zero n acc = acc
show_digits (suc fuel) n acc =
    let rest = show_digits fuel (n / 10) ((48 + n % 10) ∷ acc) in
    if ltb n 10 then (48 + n) ∷ acc else rest

unfoldable pub show_nat : ℕ → Text
show_nat n = show_digits (suc n) n []

-- `not s` for a text
abbrev pub is_blank : Text → Bool
is_blank [] = true
is_blank (c ∷ s) = false
