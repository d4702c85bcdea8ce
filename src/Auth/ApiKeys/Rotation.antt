-- ===== src/Auth/ApiKeys/Rotation.antt =====
-- RotateApiKey: the replacement, and the grace period of the key that it replaces.
use cbir_engine.Auth.ApiKeys.{get_key_or_raise, present_key_metadata, rotate_api_key}
use cbir_engine.Auth.ApiKeys.Issuing.{keys_add-Fresh}
use cbir_engine.Auth.Credentials.{AuthSettings}
use cbir_engine.Auth.Entities.{ApiKey, Tenant, Time, after, second, usability_at}
use cbir_engine.Auth.Entities.Usability.{IsAhead, usability_at-IsUsable}
use cbir_engine.Auth.Gateways.{World, key_row, keys_update, merge_key, tenant_row}
use cbir_engine.Auth.Gateways.Lookup.{keys_get-row}
use cbir_engine.Auth.Ports.{Outside}
use cbir_engine.Auth.Rows.{api_key_to_row, tenant_to_row}
use cbir_engine.Auth.Secrets.{issue_secret}
use cbir_engine.Auth.ValueObjects.{ApiKeyStatus, grace}
use cbir_engine.Base.{
  Text, [], false, is_some, none, ok, refl, some, true, ◌*◌, ◌++◌, ◌<◌, ◌↔◌, ◌∷◌, ◌≡◌, ◌≤◌,
}
use cbir_engine.Base.Effects.{followed}
use cbir_engine.Kernel.Uuid.{Uuid, uuid_parse}

module _ (o : Outside) where
  abbrev pub in_grace_form : ApiKey → Time → ApiKey
  in_grace_form k deadline = record k { status = grace; grace_expires_at = some deadline }

  -- A rotated key stays usable exactly until its grace deadline, or its own expiry if that is
  -- earlier.
  rotated_usable :
      (k : ApiKey) (deadline now : Time)
      → ((usability_at (in_grace_form k deadline) now).0 ≡ true)
        ↔ ((now < deadline) × IsAhead k.expires_at now)
  rotated_usable k deadline now = usability_at-IsUsable (in_grace_form k deadline) now

  abbrev pub replacement_of : Uuid → Text → ApiKey → Time → ApiKey
  replacement_of fresh secret old now = record {
    id = fresh;
    tenant_id = old.tenant_id;
    name = old.name;
    secret_hash = o.sha256 secret;
    scopes = old.scopes;
    status = ApiKeyStatus.active;
    rate_limit = old.rate_limit;
    created_at = now;
    expires_at = old.expires_at;
    grace_expires_at = none;
    revoked_at = none;
    rotated_from_id = some old.id;
  }

  abbrev pub with_rotated : Uuid → Text → ApiKey → Time → World o.Redis → World o.Redis
  with_rotated fresh secret old deadline w = record w {
    keys =
        merge_key (api_key_to_row (in_grace_form old deadline)) w.keys
        ++ (api_key_to_row (replacement_of fresh secret old w.now) ∷ []);
  }

  rotate_api_key-Stores :
      (settings : AuthSettings) (fresh : Uuid) (secret raw : Text) (old : ApiKey) (t : Tenant)
      (deadline : Time) (w : World o.Redis)
      → uuid_parse raw ≡ some old.id
      → key_row old.id w.keys ≡ some (api_key_to_row old)
      → 1 ≤ old.rate_limit.requests_per_minute
      → old.status ≡ ApiKeyStatus.active
      → after w.now (settings.api_key_grace_seconds * second) ≡ ok deadline
      → is_some (key_row fresh (merge_key (api_key_to_row (in_grace_form old deadline)) w.keys))
        ≡ false
      → tenant_row old.tenant_id.value w.tenants ≡ some (tenant_to_row t)
      → rotate_api_key o settings fresh secret raw w ≡ (
        ok (record {
          api_key = (issue_secret o.sha256 fresh secret).full_key;
          metadata = present_key_metadata (replacement_of fresh secret old w.now);
        }),
        with_rotated fresh secret old deadline w,
      )
  unfolding rotate_api_key get_key_or_raise keys_update issue_secret
  rotate_api_key-Stores settings fresh secret raw old t deadline w named row rate live graced absent
        tenant =
      rw (named, followed)
        (rw (keys_get-row old.id old w row rate, followed)
          (rw (live, followed)
            (rw (graced, followed)
              (rw
                (
                  keys_add-Fresh o (replacement_of fresh secret old w.now) t
                      (record w {
                        keys = merge_key (api_key_to_row (in_grace_form old deadline)) w.keys;
                      })
                      absent tenant,
                  followed,
                )
                refl))))

  -- A rotation of an active key returns a new key that replaces it, with the tenant, the scopes, the
  -- limit and the expiry of the old one; the old key is stored so that it stays usable exactly until
  -- the end of the grace period, or its own expiry if that is earlier.
  pub rotate_api_key-Overlaps :
      (settings : AuthSettings) (fresh : Uuid) (secret raw : Text) (old : ApiKey) (t : Tenant)
      (deadline later_on : Time) (w : World o.Redis)
      → uuid_parse raw ≡ some old.id
      → key_row old.id w.keys ≡ some (api_key_to_row old)
      → 1 ≤ old.rate_limit.requests_per_minute
      → old.status ≡ ApiKeyStatus.active
      → after w.now (settings.api_key_grace_seconds * second) ≡ ok deadline
      → is_some (key_row fresh (merge_key (api_key_to_row (in_grace_form old deadline)) w.keys))
        ≡ false
      → tenant_row old.tenant_id.value w.tenants ≡ some (tenant_to_row t)
      → (v : World o.Redis) × (old' : ApiKey) × (new : ApiKey) × (rotate_api_key o settings fresh
            secret raw w
          ≡ (
            ok (record {
              api_key = (issue_secret o.sha256 fresh secret).full_key;
              metadata = present_key_metadata new;
            }),
            v,
          ))
        × (v.keys ≡ merge_key (api_key_to_row old') w.keys ++ (api_key_to_row new ∷ []))
        × (new.id ≡ fresh)
        × (new.rotated_from_id ≡ some old.id)
        × (new.tenant_id ≡ old.tenant_id)
        × (new.scopes ≡ old.scopes)
        × (new.rate_limit ≡ old.rate_limit)
        × (new.expires_at ≡ old.expires_at)
        × (old'.id ≡ old.id)
        × (((usability_at old' later_on).0 ≡ true)
            ↔ ((later_on < deadline) × IsAhead old.expires_at later_on))
  rotate_api_key-Overlaps settings fresh secret raw old t deadline later_on w named row rate live
        graced absent tenant =
      (
        with_rotated fresh secret old deadline w,
        in_grace_form old deadline,
        replacement_of fresh secret old w.now,
        rotate_api_key-Stores settings fresh secret raw old t deadline w named row rate live graced
            absent tenant,
        refl,
        refl,
        refl,
        refl,
        refl,
        refl,
        refl,
        refl,
        rotated_usable old deadline later_on,
      )
