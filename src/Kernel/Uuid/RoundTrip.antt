-- ===== src/Kernel/Uuid/RoundTrip.antt =====
-- Reading a UUID back from its hexadecimal digits and from its canonical text.
use native.Mathlib.Nat.{pow-suc}
use cbir_engine.Base.{
  All, All-append, All-drop, All-map_of, All-take, Bool, Bool-cases, Text, [], ap, arith, codes,
  drop, false, inl, inr, is_ascii, length, refl, some, suc, take, take-append-drop, true, zero, ℕ,
  ◌%◌, ◌*◌, ◌++◌, ◌+◌, ◌/◌, ◌<◌, ◌==◌, ◌^◌, ◌∙◌, ◌∷◌, ◌≡◌,
}
use cbir_engine.Base.Strings.{
  Lacks, is_space, strip, strip_by_none, without, without-Lacks, without-append, without_word-Lacks,
}
use cbir_engine.Kernel.Uuid.{
  Uuid, bare, hex_digit, hex_digits, hex_value, int_16, int_digits, int_prefixed, is_brace, signed,
  uuid_hex, uuid_limit, uuid_parse, uuid_str,
}

-- A lower-case hexadecimal digit.
abbrev pub IsHex : ℕ → Type 0
IsHex c = (d : ℕ) × (d < 16) × (c ≡ hex_digit d)

digit_value : (d : ℕ) → d < 16 → hex_value (hex_digit d) ≡ some d
digit_value d h = ground arith

abbrev pub Clean : ℕ → Type 0
Clean c =
    ((c == 117) ≡ false)
    × ((c == 95) ≡ false)
    × ((c == 45) ≡ false)
    × ((c == 43) ≡ false)
    × ((c == 120) ≡ false)
    × ((c == 88) ≡ false)
    × (is_brace c ≡ false)
    × (is_space c ≡ false)

IsHex-Clean : (c : ℕ) → IsHex c → Clean c
unfolding is_space
IsHex-Clean c (d, small, e) = rw e (ground arith)

hex_digits-All : (n u : ℕ) (acc : Text) → All IsHex acc → All IsHex (hex_digits n u acc)
hex_digits-All zero u acc h = h
hex_digits-All (suc n) u acc h =
    hex_digits-All n (u / 16) (hex_digit (u % 16) ∷ acc) ((u % 16, omega arith, refl), h)

pub uuid_hex-All : (u : Uuid) → All IsHex (uuid_hex u)
unfolding uuid_hex
uuid_hex-All u = hex_digits-All 32 u [] tt

hex-Ascii : (s : Text) → All IsHex s → is_ascii s ≡ true
unfolding is_ascii
hex-Ascii [] h = refl
hex-Ascii (c ∷ s) h = let (d, small, e) = h.0 in rw (hex-Ascii s h.1) (rw e (ground arith))

pub uuid_hex-Ascii : (u : Uuid) → is_ascii (uuid_hex u) ≡ true
uuid_hex-Ascii u = hex-Ascii (uuid_hex u) (uuid_hex-All u)

length-hex_digits : (n u : ℕ) (acc : Text) → length (hex_digits n u acc) ≡ n + length acc
length-hex_digits zero u acc = omega arith
length-hex_digits (suc n) u acc =
    omega (arith, length-hex_digits n (u / 16) (hex_digit (u % 16) ∷ acc))

pub length-uuid_hex : (u : Uuid) → length (uuid_hex u) ≡ 32
unfolding uuid_hex
length-uuid_hex u = length-hex_digits 32 u []

-- Horner's rule over the digits gives the number back.
int_digits-step :
    (b : Bool) (acc d : ℕ) (s : Text)
    → d < 16
    → int_digits b acc (hex_digit d ∷ s) ≡ int_digits true (acc * 16 + d) s
int_digits-step b acc d s h = rw (digit_value d h, int_digits)

shrink : (n u : ℕ) → u < 16 ^ suc (suc n) → u / 16 < 16 ^ suc n
shrink n u h = omega (arith, pow-suc 16 (suc n))

regroup : (n u a : ℕ) → (a * 16 ^ suc n + u / 16) * 16 + u % 16 ≡ a * 16 ^ suc (suc n) + u
regroup n u a = rw (pow-suc 16 (suc n)) (omega arith)

int_digits-hex_digits :
    (n u a : ℕ) (b : Bool) (acc : Text)
    → u < 16 ^ suc n
    → int_digits b a (hex_digits (suc n) u acc) ≡ int_digits true (a * 16 ^ suc n + u) acc
int_digits-hex_digits zero u a b acc h =
    int_digits-step b a (u % 16) acc (omega arith) ∙ ap (λ k. int_digits true k acc) (omega arith)
int_digits-hex_digits (suc n) u a b acc h =
    int_digits-hex_digits n (u / 16) a b (hex_digit (u % 16) ∷ acc) (shrink n u h)
    ∙ int_digits-step true (a * 16 ^ suc n + u / 16) (u % 16) acc (omega arith)
    ∙ ap (λ k. int_digits true k acc) (regroup n u a)

Clean-Lacks_urn : (s : Text) → All Clean s → Lacks 117 s
Clean-Lacks_urn s h = All-map_of Clean (λ d. (d == 117) ≡ false) s (λ a c. c.0) h

hex-All-Clean : (s : Text) → All IsHex s → All Clean s
hex-All-Clean s h = All-map_of IsHex Clean s IsHex-Clean h

-- The cleaning of `UUID(...)` only drops dashes from a text with no brace and no `u`.
bare_plain : (s : Text) → Lacks 117 s → All (λ c. is_brace c ≡ false) s → bare s ≡ without 45 s
unfolding codes
bare_plain s u b = rw (without_word-Lacks 117 (114 ∷ 110 ∷ 58 ∷ []) s u) (
    rw (without_word-Lacks 117 (117 ∷ 105 ∷ 100 ∷ 58 ∷ []) s u)
      (ap (without 45) (strip_by_none is_brace s b)))

int_prefixed-Clean : (s : Text) → All Clean s → int_prefixed s ≡ int_digits false 0 s
int_prefixed-Clean [] h = refl
int_prefixed-Clean (c ∷ []) h = refl
int_prefixed-Clean (c ∷ x ∷ s) h = elim (Bool-cases (c == 48)) [
  | inl e ↦ rw (e, h.1.0.4, h.1.0.5) refl
  | inr e ↦ rw e refl
]

signed-Clean : (s : Text) → All Clean s → signed s ≡ int_digits false 0 s
signed-Clean [] h = refl
signed-Clean (c ∷ t) h = rw (h.0.3, h.0.2) (int_prefixed-Clean (c ∷ t) h)

-- No sign, prefix or white space stands before hexadecimal digits.
int_16-Clean : (s : Text) → All Clean s → int_16 s ≡ int_digits false 0 s
unfolding int_16 strip
int_16-Clean s h =
    ap signed
      (strip_by_none is_space s (All-map_of Clean (λ c. is_space c ≡ false) s (λ a c. c.7) h))
    ∙ signed-Clean s h

int_16-uuid_hex : (u : Uuid) → u < uuid_limit → int_16 (uuid_hex u) ≡ some u
unfolding uuid_hex
int_16-uuid_hex u h =
    int_16-Clean (uuid_hex u) (hex-All-Clean (uuid_hex u) (uuid_hex-All u))
    ∙ int_digits-hex_digits 31 u 0 false [] h
    ∙ ap some (omega arith)

-- A text that holds the digits of a UUID, with dashes anywhere, is read as that UUID.
uuid_parse_dashed :
    (u : Uuid) (s : Text)
    → u < uuid_limit
    → Lacks 117 s
    → All (λ c. is_brace c ≡ false) s
    → without 45 s ≡ uuid_hex u
    → uuid_parse s ≡ some u
unfolding uuid_parse
uuid_parse_dashed u s small no_u no_brace e =
    rw (bare_plain s no_u no_brace ∙ e) (rw (length-uuid_hex u) (int_16-uuid_hex u small))

hex-without : (s : Text) → All IsHex s → without 45 s ≡ s
hex-without s h =
    without-Lacks 45 s
      (All-map_of Clean (λ d. (d == 45) ≡ false) s (λ a c. c.2) (hex-All-Clean s h))

pub uuid_hex-Lacks : (u : Uuid) → Lacks 95 (uuid_hex u)
uuid_hex-Lacks u =
    All-map_of Clean (λ d. (d == 95) ≡ false) (uuid_hex u) (λ a c. c.1)
      (hex-All-Clean (uuid_hex u) (uuid_hex-All u))

-- UUID(u.hex) is u.
pub uuid_parse-uuid_hex : (u : Uuid) → u < uuid_limit → uuid_parse (uuid_hex u) ≡ some u
uuid_parse-uuid_hex u h =
    let clean = hex-All-Clean (uuid_hex u) (uuid_hex-All u) in
    uuid_parse_dashed u (uuid_hex u) h (Clean-Lacks_urn (uuid_hex u) clean)
      (All-map_of Clean (λ c. is_brace c ≡ false) (uuid_hex u) (λ a c. c.6) clean)
      (hex-without (uuid_hex u) (uuid_hex-All u))

abbrev Plain : ℕ → Type 0
Plain c = ((c == 117) ≡ false) × (is_brace c ≡ false)

dash_join : (p q : Text) → All IsHex p → without 45 (p ++ (45 ∷ q)) ≡ p ++ without 45 q
unfolding without
dash_join p q h = without-append 45 p (45 ∷ q) ∙ ap (λ t. t ++ without 45 q) (hex-without p h)

Plain-join : (p q : Text) → All IsHex p → All Plain q → All Plain (p ++ (45 ∷ q))
Plain-join p q h k =
    All-append Plain p (45 ∷ q) (All-map_of Clean Plain p (λ a c. (c.0, c.6)) (hex-All-Clean p h))
      ((refl, refl), k)

-- The digits of a UUID in its five groups, and the text with the dashes between them.
abbrev joined : Text → Text
joined h =
    take 8 h
    ++ (45
        ∷ (take 4 (drop 8 h)
            ++ (45
                ∷ (take 4 (drop 4 (drop 8 h))
                    ++ (45
                        ∷ (take 4 (drop 4 (drop 4 (drop 8 h)))
                            ++ (45 ∷ drop 4 (drop 4 (drop 4 (drop 8 h))))))))))

joined-Plain : (h : Text) → All IsHex h → All Plain (joined h)
joined-Plain h x =
    let x8 = All-drop IsHex 8 h x in
    let x12 = All-drop IsHex 4 (drop 8 h) x8 in
    let x16 = All-drop IsHex 4 (drop 4 (drop 8 h)) x12 in
    Plain-join (take 8 h) _ (All-take IsHex 8 h x) (
      Plain-join (take 4 (drop 8 h)) _ (All-take IsHex 4 (drop 8 h) x8) (
        Plain-join (take 4 (drop 4 (drop 8 h))) _ (All-take IsHex 4 (drop 4 (drop 8 h)) x12) (
          Plain-join (take 4 (drop 4 (drop 4 (drop 8 h)))) _
            (All-take IsHex 4 (drop 4 (drop 4 (drop 8 h))) x16)
            (All-map_of Clean Plain (drop 4 (drop 4 (drop 4 (drop 8 h)))) (λ a c. (c.0, c.6))
              (hex-All-Clean (drop 4 (drop 4 (drop 4 (drop 8 h))))
                (All-drop IsHex 4 (drop 4 (drop 4 (drop 8 h))) x16))))))

rejoin :
    (n : ℕ) (h t : Text)
    → All IsHex h
    → without 45 t ≡ drop n h
    → without 45 (take n h ++ (45 ∷ t)) ≡ h
rejoin n h t x e =
    dash_join (take n h) t (All-take IsHex n h x) ∙ ap (λ s. take n h ++ s) e ∙ take-append-drop n h

pub joined-without : (h : Text) → All IsHex h → without 45 (joined h) ≡ h
joined-without h x =
    let x8 = All-drop IsHex 8 h x in
    let x12 = All-drop IsHex 4 (drop 8 h) x8 in
    let x16 = All-drop IsHex 4 (drop 4 (drop 8 h)) x12 in
    rejoin 8 h _ x (
      rejoin 4 (drop 8 h) _ x8 (
        rejoin 4 (drop 4 (drop 8 h)) _ x12 (
          rejoin 4 (drop 4 (drop 4 (drop 8 h))) _ x16 (
            hex-without (drop 4 (drop 4 (drop 4 (drop 8 h))))
              (All-drop IsHex 4 (drop 4 (drop 4 (drop 8 h))) x16)))))

-- UUID(str(u)) is u, so an id that the program prints is read back as itself.
pub uuid_parse-uuid_str : (u : Uuid) → u < uuid_limit → uuid_parse (uuid_str u) ≡ some u
unfolding uuid_str
uuid_parse-uuid_str u h =
    let plain = joined-Plain (uuid_hex u) (uuid_hex-All u) in
    uuid_parse_dashed u (joined (uuid_hex u)) h
      (All-map_of Plain (λ d. (d == 117) ≡ false) (joined (uuid_hex u)) (λ a c. c.0) plain)
      (All-map_of Plain (λ c. is_brace c ≡ false) (joined (uuid_hex u)) (λ a c. c.1) plain)
      (joined-without (uuid_hex u) (uuid_hex-All u))
