-- ===== src/Ai/Hash.antt =====
-- ai_service/infrastructure/embedding/phash.py: the bits of an average hash and their text. The
-- decoding, scaling and mean of the picture are the imaging library's: `pixels > mean` is the list
-- of bits.
use cbir_engine.Base.{Bool, List, Text, [], false, true, ℕ, ◌*◌, ◌+◌, ◌/◌, ◌∷◌}
use cbir_engine.Kernel.Uuid.{hex_digits}

abbrev pub bit : Bool → ℕ
bit true = 1
bit false = 0

abbrev pub pack : ℕ → List Bool → ℕ
pack value [] = value
pack value (b ∷ bs) = pack (value * 2 + bit b) bs

-- f"{value:0{width}x}" of a value below 16 ^ width
unfoldable pub average_hash : ℕ → List Bool → Text
average_hash side bits = hex_digits (side * side / 4) (pack 0 bits) []
