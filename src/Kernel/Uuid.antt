-- ===== src/Kernel/Uuid.antt =====
-- Python's `uuid.UUID`, as every service uses it: a number below 2 ^ 128 with its 32 hexadecimal
-- digits (`.hex`), its canonical text (`str`), and the constructor that reads a text.
pub mod RoundTrip
use cbir_engine.Base.{
  Bool, Option, Text, [], codes, drop, false, if◌then◌else◌, leb, length, ltb, none, some, suc,
  take, true, zero, ℕ, ◌%◌, ◌&&◌, ◌*◌, ◌++◌, ◌+◌, ◌-◌, ◌/◌, ◌==◌, ◌^◌, ◌||◌, ◌∷◌,
}
use cbir_engine.Base.Strings.{strip, strip_by, without, without_word}

abbrev pub Uuid : Type 0
Uuid = ℕ

abbrev pub uuid_limit : ℕ
uuid_limit = 16 ^ 32

abbrev pub hex_digit : ℕ → ℕ
hex_digit d = if ltb d 10 then 48 + d else 87 + d

abbrev pub hex_digits : ℕ → ℕ → Text → Text
hex_digits zero u acc = acc
hex_digits (suc n) u acc = hex_digits n (u / 16) (hex_digit (u % 16) ∷ acc)

-- u.hex
unfoldable pub uuid_hex : Uuid → Text
uuid_hex u = hex_digits 32 u []

-- str(u): the groups of 8, 4, 4, 4 and 12 digits, with dashes between
unfoldable pub uuid_str : Uuid → Text
uuid_str u =
    let h = uuid_hex u in
    take 8 h
    ++ (45
        ∷ (take 4 (drop 8 h)
            ++ (45
                ∷ (take 4 (drop 4 (drop 8 h))
                    ++ (45
                        ∷ (take 4 (drop 4 (drop 4 (drop 8 h)))
                            ++ (45 ∷ drop 4 (drop 4 (drop 4 (drop 8 h))))))))))

-- The value of a hexadecimal digit of either case.
abbrev pub hex_value : ℕ → Option ℕ
hex_value c =
    if leb 48 c && leb c 57
    then some (c - 48)
    else if leb 97 c && leb c 102
    then some (c - 87)
    else if leb 65 c && leb c 70
    then some (c - 55)
    else none

-- The digits of `int(s, 16)`: one underscore may stand between two digits.
abbrev pub int_digits : Bool → ℕ → Text → Option ℕ
int_digits after acc [] = if after then some acc else none
int_digits after acc (c ∷ s) =
    let gap = int_digits false acc s in
    elim (hex_value c) [
      | some v ↦ int_digits true (acc * 16 + v) s
      | none ↦ if c == 95 && after then gap else none
    ]

abbrev after_prefix : Text → Option ℕ
after_prefix [] = none
after_prefix (c ∷ s) = if c == 95 then int_digits false 0 s else int_digits false 0 (c ∷ s)

-- An optional `0x` before the digits.
abbrev pub int_prefixed : Text → Option ℕ
int_prefixed (z ∷ x ∷ s) =
    if z == 48 && (x == 120 || x == 88) then after_prefix s else int_digits false 0 (z ∷ x ∷ s)
int_prefixed s = int_digits false 0 s

abbrev negated : Option ℕ → Option ℕ
negated none = none
negated (some n) = if n == 0 then some 0 else none

abbrev pub signed : Text → Option ℕ
signed [] = none
signed (c ∷ t) =
    if c == 43
    then int_prefixed t
    else if c == 45
    then negated (int_prefixed t)
    else int_prefixed (c ∷ t)

-- `int(s, 16)` in ASCII; `none` for a ValueError, and for a negative number, which `UUID` refuses.
unfoldable pub int_16 : Text → Option ℕ
int_16 s = signed (strip s)

abbrev pub is_brace : ℕ → Bool
is_brace c = c == 123 || c == 125

abbrev pub bare : Text → Text
bare s =
    without 45 (strip_by is_brace (without_word (codes "uuid:") (without_word (codes "urn:") s)))

-- uuid.UUID(s); `none` for a ValueError
unfoldable pub uuid_parse : Text → Option Uuid
unfolding int_16 strip strip_by without without_word codes
uuid_parse s = if length (bare s) == 32 then int_16 (bare s) else none
