-- ===== src/Kernel/Witnesses.antt =====
-- Concrete identifiers, and an instance of the floating-point interface by whole numbers.
use cbir_engine.Base.{[], arith, leb, some, true, ℕ, ◌*◌, ◌+◌, ◌-◌, ◌/◌, ◌≡◌, ◌⊎◌}
use cbir_engine.Kernel.Floats.{Floats, Ordered}
use cbir_engine.Kernel.Uuid.{uuid_parse, uuid_str}
use cbir_engine.Kernel.Uuid.RoundTrip.{uuid_parse-uuid_str}

abbrev pub counting : Floats
counting = record {
  F = ℕ;
  zero = 0;
  one = 1;
  add = λ a b. a + b;
  sub = λ a b. a - b;
  mul = λ a b. a * b;
  div = λ a b. a / b;
  sqrt = λ a. a;
  le = leb;
  round_6 = λ a. a;
  show = λ a. [];
}

pub counting-Ordered : Ordered counting
counting-Ordered = record { le_total = leb_total; le_trans = leb_trans }
  where
    leb_total : (a b : ℕ) → (leb a b ≡ true) ⊎ (leb b a ≡ true)
    leb_total a b = ground arith

    leb_trans : (a b c : ℕ) → leb a b ≡ true → leb b c ≡ true → leb a c ≡ true
    leb_trans a b c h k = ground arith

uuid_parse-uuid_str_example : uuid_parse (uuid_str 48879) ≡ some 48879
uuid_parse-uuid_str_example = uuid_parse-uuid_str 48879 (omega arith)
