-- ===== src/Auth/Secrets/RoundTrip.antt =====
-- domain_services: parsing and verifying the text of a key that was issued.
use mathlib.Core.Path.{subst}
use cbir_engine.Auth.Secrets.{
  hash_secret, issue_secret, key_prefix, of_parts, parse_full_key, verify_secret,
}
use cbir_engine.Base.{
  All, Bool-cases, List, Option, Option-cases, Text, [], ap, arith, codes, false, inl, inr,
  is_ascii, is_blank, not, or_else, refl, some, text_eq, text_eq_refl, true, ◌++◌, ◌<◌, ◌||◌, ◌∙◌,
  ◌∷◌, ◌≡◌,
}
use cbir_engine.Base.Strings.{Lacks, split, split-Ascii, split-Lacks, split-append}
use cbir_engine.Kernel.Uuid.{Uuid, uuid_hex, uuid_limit, uuid_parse}
use cbir_engine.Kernel.Uuid.RoundTrip.{uuid_hex-Lacks, uuid_parse-uuid_hex}

pub issue_secret-Parts :
    (sha256 : Text → Text) (key_id : Uuid) (secret : Text)
    → Lacks 95 secret
    → split 95 (issue_secret sha256 key_id secret).full_key
      ≡ key_prefix ∷ uuid_hex key_id ∷ secret ∷ []
unfolding issue_secret codes
issue_secret-Parts sha256 key_id secret h =
    split-append 95 key_prefix (uuid_hex key_id ++ (95 ∷ secret)) (refl, (refl, (refl, (refl, tt))))
    ∙ ap (λ ps. key_prefix ∷ ps) (split-append 95 (uuid_hex key_id) secret (uuid_hex-Lacks key_id))
    ∙ ap (λ ps. key_prefix ∷ uuid_hex key_id ∷ ps) (split-Lacks 95 secret h)

-- A key of a UUID and a secret that is not empty and holds no underscore is parsed as that UUID and
-- that secret.
pub parse_full_key-issue_secret :
    (sha256 : Text → Text) (key_id : Uuid) (secret : Text)
    → key_id < uuid_limit
    → Lacks 95 secret
    → is_blank secret ≡ false
    → parse_full_key (issue_secret sha256 key_id secret).full_key ≡ some (key_id, secret)
unfolding parse_full_key codes text_eq
parse_full_key-issue_secret sha256 key_id secret small h b =
    rw (issue_secret-Parts sha256 key_id secret h)
      (rw b (rw (uuid_parse-uuid_hex key_id small) refl))

-- The secret of a key that was just issued is verified against the hash that was stored.
pub verify_secret-issue_secret :
    (sha256 : Text → Text) (key_id : Uuid) (secret : Text)
    → is_ascii secret ≡ true
    → verify_secret sha256 secret (issue_secret sha256 key_id secret).secret_hash ≡ some true
unfolding verify_secret issue_secret hash_secret
verify_secret-issue_secret sha256 key_id secret h = rw h (ap some (text_eq_refl (sha256 secret)))

-- What makes a presented key ASCII makes its secret ASCII.
of_parts-Ascii :
    (ps : List Text) (key_id : Uuid) (secret : Text)
    → All (λ p. is_ascii p ≡ true) ps
    → of_parts ps ≡ some (key_id, secret)
    → is_ascii secret ≡ true
of_parts-Ascii [] key_id secret h e = absurd cc
of_parts-Ascii (p ∷ []) key_id secret h e = absurd cc
of_parts-Ascii (p ∷ q ∷ []) key_id secret h e = absurd cc
of_parts-Ascii (p ∷ q ∷ r ∷ x ∷ ps) key_id secret h e = absurd cc
of_parts-Ascii (p ∷ q ∷ r ∷ []) key_id secret h e =
    elim (Bool-cases (not (text_eq p key_prefix) || is_blank r)) [
      | inl bad ↦ absurd (ground arith)
      | inr good ↦ elim (Option-cases (uuid_parse q)) [
        | inl odd ↦ absurd (ground arith)
        | inr (u, named) ↦
            let same : some (u, r) ≡ some (key_id, secret) = ground arith in
            subst (λ t. is_ascii t ≡ true)
              (ap (λ (o : Option (Uuid × Text)). (or_else o (u, r)).1) same) h.1.1.0
      ]
    ]

pub parse_full_key-Ascii :
    (presented : Text) (key_id : Uuid) (secret : Text)
    → is_ascii presented ≡ true
    → parse_full_key presented ≡ some (key_id, secret)
    → is_ascii secret ≡ true
unfolding parse_full_key
parse_full_key-Ascii presented key_id secret h e =
    of_parts-Ascii (split 95 presented) key_id secret (split-Ascii 95 presented h) e
