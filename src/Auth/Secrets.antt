-- ===== src/Auth/Secrets.antt =====
-- auth_service/domain/domain_services: what an API key is as a text, and how it is checked. SHA-256
-- is a parameter; the values of uuid4 and token_hex are arguments.
pub mod RoundTrip
use cbir_engine.Base.{
  Bool, List, Option, Text, [], codes, if◌then◌else◌, is_ascii, is_blank, none, not, some, text_eq,
  ◌++◌, ◌||◌, ◌∷◌,
}
use cbir_engine.Base.Strings.{split}
use cbir_engine.Kernel.Uuid.{Uuid, uuid_hex, uuid_parse}

abbrev pub key_prefix : Text
key_prefix = codes "cbir"

pub record IssuedSecret : Type 0 where
  pub key_id : Uuid
  pub full_key : Text
  pub secret_hash : Text

-- `none` stands for the UnicodeEncodeError of `secret.encode("ascii")`, which is a ValueError.
unfoldable pub hash_secret : (Text → Text) → Text → Option Text
hash_secret sha256 secret = if is_ascii secret then some (sha256 secret) else none

-- The secret is a value of token_hex, which is ASCII: hash_secret takes it.
unfoldable pub issue_secret : (Text → Text) → Uuid → Text → IssuedSecret
issue_secret sha256 key_id secret = record {
  key_id = key_id;
  full_key = key_prefix ++ (95 ∷ (uuid_hex key_id ++ (95 ∷ secret)));
  secret_hash = sha256 secret;
}

abbrev pub with_id : Text → Option Uuid → Option (Uuid × Text)
with_id secret none = none
with_id secret (some u) = some (u, secret)

abbrev pub of_parts : List Text → Option (Uuid × Text)
of_parts (p ∷ q ∷ r ∷ []) =
    if not (text_eq p key_prefix) || is_blank r then none else with_id r (uuid_parse q)
of_parts _ = none

-- `none` stands for MalformedApiKeyError.
unfoldable pub parse_full_key : Text → Option (Uuid × Text)
parse_full_key full_key = of_parts (split 95 full_key)

abbrev pub compared : Text → Option Text → Option Bool
compared stored none = none
compared stored (some h) = some (text_eq h stored)

-- `none` stands for the exception of hash_secret.
unfoldable pub verify_secret : (Text → Text) → Text → Text → Option Bool
unfolding hash_secret
verify_secret sha256 presented stored = compared stored (hash_secret sha256 presented)
