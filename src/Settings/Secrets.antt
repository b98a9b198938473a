-- ===== src/Settings/Secrets.antt =====
-- modules/settings/tenant-secrets.service.ts: the encryption of a tenant's bot token under a key that is
-- derived from the master key and kept in a cache of the process. node:crypto is an argument.
use feedpulse.Base.{
  ℕ, Bool, ◌&&◌, ◌||◌, not, Option, none, some, List, [], ◌∷◌, ◌++◌, String, str_eq, ◌==◌, leb,
  if◌then◌else◌, ◌⊎◌, inl, inr, length, find,
}
use Prim.Native.String.{◌++◌ as append}
use feedpulse.Settings.Rows.{TenantEncryptedSecret, truthy}

-- A digest and a derived key are lists of bytes, and what is stored is a text in base64. `seal` is the
-- cipher AES-256-GCM with its tag, `open_sealed` the decipher, which throws (none) where the tag does
-- not fit.
pub record Crypto : Type 0 where
  pub sha256 : String → List ℕ
  pub sha256_hex : String → String
  pub scrypt : String → List ℕ
  pub seal : List ℕ → String → String → String → String × String
  pub open_sealed : List ℕ → String → Option String → String → String → Option String

pub data TenantSecretFailureReason : Type 0 where
  master_key_missing unknown_key_version decrypt_failed : TenantSecretFailureReason

-- What the service throws: a BadRequestException with its message, a
-- TenantSecretsMasterKeyMissingError, or a TenantSecretDecryptError with its reason.
pub data SecretError : Type 0 where
  bad_request : String → SecretError
  master_key_missing_error : SecretError
  decrypt_error : TenantSecretFailureReason → SecretError

abbrev pub legacy_sha256 : ℕ
legacy_sha256 = 1

abbrev pub scrypt_aad : ℕ
scrypt_aad = 2

unfoldable pub is_supported_key_version : ℕ → Bool
is_supported_key_version version = (version == legacy_sha256) || (version == scrypt_aad)

unfoldable pub build_additional_authenticated_data : String → String
build_additional_authenticated_data tenant_id = append "feedpulse:telegram_bot_token:" tenant_id

-- An entry of `derivedKeyCache`: its key is the version and the fingerprint of the master key.
pub record CachedKey : Type 0 where
  pub version : ℕ
  pub fingerprint : String
  pub key : List ℕ

abbrev pub derived_key_cache_limit : ℕ
derived_key_cache_limit = 8

-- `cacheDerivedKey`, for a key that the cache does not hold.
unfoldable pub cache_derived_key : List CachedKey → CachedKey → List CachedKey
cache_derived_key cache entry =
    if leb derived_key_cache_limit (length cache) then entry ∷ [] else cache ++ entry ∷ []

abbrev pub is_cached_for : ℕ → String → CachedKey → Bool
is_cached_for version fingerprint e = (e.version == version) && str_eq e.fingerprint fingerprint

module _ (c : Crypto) where
  unfoldable pub fingerprint_of : String → String
  fingerprint_of master_key = c.sha256_hex master_key

  unfoldable pub derive : ℕ → String → List ℕ
  derive version master_key =
      if version == legacy_sha256 then c.sha256 master_key else c.scrypt master_key

  abbrev pub cached_or_derived :
      ℕ → String → List CachedKey → Option CachedKey → List CachedKey × List ℕ
  cached_or_derived version master_key cache (some e) = (cache, e.key)
  cached_or_derived version master_key cache none =
      let key = derive version master_key in
      (
        cache_derived_key cache
            (record { version = version; fingerprint = fingerprint_of master_key; key = key }),
        key,
      )

  unfoldable pub derived_key : ℕ → String → List CachedKey → List CachedKey × List ℕ
  derived_key version master_key cache =
      cached_or_derived version master_key cache
        (find (is_cached_for version (fingerprint_of master_key)) cache)

  abbrev pub master_key_or_throw :
      Option String → ℕ → List CachedKey → List CachedKey × (SecretError ⊎ List ℕ)
  master_key_or_throw none version cache = (cache, inl master_key_missing_error)
  master_key_or_throw (some master_key) version cache =
      let (cache', key) = derived_key version master_key cache in (cache', inr key)

  unfoldable pub get_derived_master_key_or_throw :
      Option String → ℕ → List CachedKey → List CachedKey × (SecretError ⊎ List ℕ)
  get_derived_master_key_or_throw configured version cache =
      master_key_or_throw (truthy configured) version cache

  abbrev pub sealed :
      String → String → String → SecretError ⊎ List ℕ → SecretError ⊎ TenantEncryptedSecret
  sealed iv tenant_id token (inl e) = inl e
  sealed iv tenant_id token (inr key) =
      let (ciphertext, tag) = c.seal key iv (build_additional_authenticated_data tenant_id) token in
      inr (record { ciphertext = ciphertext; iv = iv; tag = tag; key_version = scrypt_aad })

  -- `iv` is what randomBytes draws, in base64.
  unfoldable pub encrypt_telegram_bot_token :
      Option String
      → String
      → String
      → String
      → List CachedKey
      → List CachedKey × (SecretError ⊎ TenantEncryptedSecret)
  encrypt_telegram_bot_token configured iv tenant_id token cache =
      let (cache', key) = get_derived_master_key_or_throw configured scrypt_aad cache in
      if str_eq tenant_id ""
      then (cache, inl (bad_request "tenant_secrets_tenant_id_required"))
      else if str_eq token ""
      then (cache, inl (bad_request "tenant_telegram_token_empty"))
      else (cache', sealed iv tenant_id token key)

  abbrev pub opened : Option String → SecretError ⊎ String
  opened none = inl (decrypt_error decrypt_failed)
  opened (some plaintext) =
      if str_eq plaintext "" then inl (decrypt_error decrypt_failed) else inr plaintext

  unfoldable pub aad_of : ℕ → String → Option String
  aad_of version tenant_id =
      if version == scrypt_aad then some (build_additional_authenticated_data tenant_id) else none

  abbrev pub deciphered :
      String → TenantEncryptedSecret → SecretError ⊎ List ℕ → SecretError ⊎ String
  deciphered tenant_id secret (inl e) = inl e
  deciphered tenant_id secret (inr key) = opened (
      c.open_sealed key secret.iv (aad_of secret.key_version tenant_id) secret.tag
        secret.ciphertext)

  unfoldable pub decrypt_telegram_bot_token :
      Option String
      → String
      → TenantEncryptedSecret
      → List CachedKey
      → List CachedKey × (SecretError ⊎ String)
  decrypt_telegram_bot_token configured tenant_id secret cache =
      let (cache', key) = get_derived_master_key_or_throw configured secret.key_version cache in
      if str_eq tenant_id ""
      then (cache, inl (bad_request "tenant_secrets_tenant_id_required"))
      else if not (is_supported_key_version secret.key_version)
      then (cache, inl (decrypt_error unknown_key_version))
      else (cache', deciphered tenant_id secret key)

unfoldable pub needs_key_version_upgrade : TenantEncryptedSecret → Bool
needs_key_version_upgrade secret = not (secret.key_version == scrypt_aad)
