-- ===== src/Settings/Binding.antt =====
-- A secret opens for the tenant that it was encrypted for, and for no other.
use feedpulse.Base.{
  ◌≡◌, ◌≢◌, refl, ap, ◌∙◌, Bool, false, Option, none, some, List, String, str_eq, ◌⊎◌, inl, inr,
  Bool-cases,
}
use text.Mathlib.TextLemmas.{append_cancel_left}
use feedpulse.Settings.Rows.{TenantEncryptedSecret}
use feedpulse.Settings.Secrets.{
  Crypto, SecretError, bad_request, decrypt_error, decrypt_failed, CachedKey, scrypt_aad,
  build_additional_authenticated_data, derive, get_derived_master_key_or_throw,
  encrypt_telegram_bot_token, opened, aad_of, is_supported_key_version, decrypt_telegram_bot_token,
}
use feedpulse.Settings.BotToken.{Resolver, tenant, no_source, resolved, resolve_detailed_for_tenant}
use feedpulse.Settings.Vault.{
  IsCrypto, IsDerived, derived_key_lem, IsEncrypted, encrypt-IsEncrypted,
}

aad-differs :
    (a b : String)
    → a ≢ b
    → build_additional_authenticated_data a ≢ build_additional_authenticated_data b
unfolding build_additional_authenticated_data
aad-differs a b n e = n (append_cancel_left "feedpulse:telegram_bot_token:" a b e)

module _ (c : Crypto) (laws : IsCrypto c) (configured : Option String)
    (iv tenant_id token : String) where
  -- What the decryption makes of the bytes that were encrypted, whatever is in its cache.
  decrypt-encrypted :
      (other : String) (before cache : List CachedKey) (secret : TenantEncryptedSecret)
      (k : IsEncrypted c laws configured iv tenant_id token before secret)
      → IsDerived c cache
      → str_eq other "" ≡ false
      → (decrypt_telegram_bot_token c configured other secret cache).1
        ≡ opened c (
            c.open_sealed
              (derive c scrypt_aad k.master_key)
              iv
              (some (build_additional_authenticated_data other))
              (c.seal
                (derive c scrypt_aad k.master_key)
                iv
                (build_additional_authenticated_data tenant_id)
                token).1
              (c.seal
                (derive c scrypt_aad k.master_key)
                iv
                (build_additional_authenticated_data tenant_id)
                token).0)
  unfolding decrypt_telegram_bot_token get_derived_master_key_or_throw is_supported_key_version
      aad_of
  decrypt-encrypted other before cache secret k good named =
      let (key, kept) = derived_key_lem c laws scrypt_aad k.master_key cache good in
      rw (k.secret_eq, named, k.configured_key, key) refl

  pub decrypt-own :
      (before cache : List CachedKey) (secret : TenantEncryptedSecret)
      → IsEncrypted c laws configured iv tenant_id token before secret
      → IsDerived c cache
      → (decrypt_telegram_bot_token c configured tenant_id secret cache).1 ≡ inr token
  decrypt-own before cache secret k good =
      decrypt-encrypted tenant_id before cache secret k good k.named
      ∙ rw
          (
            laws.opens (derive c scrypt_aad k.master_key) iv
                (build_additional_authenticated_data tenant_id) token,
            k.filled,
          )
          refl

  decrypt-other :
      (other : String) (before cache : List CachedKey) (secret : TenantEncryptedSecret)
      → tenant_id ≢ other
      → IsEncrypted c laws configured iv tenant_id token before secret
      → IsDerived c cache
      → (e : SecretError) × ((decrypt_telegram_bot_token c configured other secret cache).1 ≡ inl e)
  decrypt-other other before cache secret differs k good = elim (Bool-cases (str_eq other "")) [
    | inl a ↦ (
      bad_request "tenant_secrets_tenant_id_required",
      unfold decrypt_telegram_bot_token in rw a refl,
    )
    | inr a ↦ (
      decrypt_error decrypt_failed,
      decrypt-encrypted other before cache secret k good a
          ∙ ap (opened c) (
              laws.rejects (derive c scrypt_aad k.master_key) iv
                (build_additional_authenticated_data tenant_id)
                (build_additional_authenticated_data other) token
                (aad-differs tenant_id other differs)),
    )
  ]

module _ (has_repository : Bool) (tenant_id : String) (secret : TenantEncryptedSecret)
    (state : Resolver) where
  resolved-token :
      (d : List CachedKey × (SecretError ⊎ String)) (token : String)
      → d.1 ≡ inr token
      → (resolved has_repository tenant_id secret state d).1
        ≡ record { token = some token; source = tenant; failure_reason = none }
  unfolding resolved
  resolved-token (cache, inl e) token h = cc
  resolved-token (cache, inr text) token h = let same : text ≡ token = cc in rw same refl

  resolved-error :
      (d : List CachedKey × (SecretError ⊎ String)) (e : SecretError)
      → d.1 ≡ inl e
      → ((resolved has_repository tenant_id secret state d).1.token ≡ none)
        × ((resolved has_repository tenant_id secret state d).1.source ≡ no_source)
  unfolding resolved
  resolved-error (cache, inl e') e h = (refl, refl)
  resolved-error (cache, inr text) e h = cc

-- A secret that the service encrypted for a tenant: in the tenant's settings it gives the token that was
-- encrypted, as the tenant's own; in the settings of another tenant, whose id differs, it gives no
-- token. Both hold whatever the global token is and whatever keys the process has cached.
pub secret_bound_to_tenant :
    (c : Crypto) (laws : IsCrypto c) (configured : Option String)
    (iv tenant_id other token : String) (before after : List CachedKey)
    (secret : TenantEncryptedSecret) (global_token : Option String) (has_repository : Bool)
    (state : Resolver)
    → IsDerived c before
    → IsDerived c state.cache
    → encrypt_telegram_bot_token c configured iv tenant_id token before ≡ (after, inr secret)
    → tenant_id ≢ other
    → ((resolve_detailed_for_tenant c configured global_token has_repository tenant_id
          (some secret)
          state).1
        ≡ record { token = some token; source = tenant; failure_reason = none })
      × ((resolve_detailed_for_tenant c configured global_token has_repository other
            (some secret)
            state).1.token
          ≡ none)
      × ((resolve_detailed_for_tenant c configured global_token has_repository other
            (some secret)
            state).1.source
          ≡ no_source)
unfolding resolve_detailed_for_tenant
secret_bound_to_tenant c laws configured iv tenant_id other token before after secret global_token
      has_repository state good fresh e differs =
    let k = encrypt-IsEncrypted c laws configured iv tenant_id token before after secret good e in
    let (error, refused) =
      decrypt-other c laws configured iv tenant_id token other after state.cache secret differs k
        fresh in
    let none_left = resolved-error has_repository other secret state _ error refused in
    (
      resolved-token has_repository tenant_id secret state _ token
          (decrypt-own c laws configured iv tenant_id token after state.cache secret k fresh),
      none_left.0,
      none_left.1,
    )
