-- ===== src/Settings/BotToken.antt =====
-- modules/settings/telegram-bot-token-resolver.service.ts: which bot token a delivery for a tenant uses, and
-- the upgrade of a secret that an older version of the service encrypted.
use feedpulse.Base.{
  Bool, not, ◌||◌, Option, none, some, List, [], ◌∷◌, ◌++◌, String, str_eq, if◌then◌else◌, ◌⊎◌, inl,
  inr, any, select,
}
use feedpulse.Settings.Rows.{
  TenantEncryptedSecret, SettingsRow, truthy, upgrade_telegram_bot_token_key_version,
}
use feedpulse.Settings.Secrets.{
  Crypto, SecretError, bad_request, master_key_missing_error, decrypt_error,
  TenantSecretFailureReason, master_key_missing, decrypt_failed, CachedKey,
  encrypt_telegram_bot_token, decrypt_telegram_bot_token, needs_key_version_upgrade,
}

pub data TelegramBotTokenSource : Type 0 where
  tenant global no_source : TelegramBotTokenSource

pub record TelegramBotTokenResolution : Type 0 where
  pub token : Option String
  pub source : TelegramBotTokenSource
  pub failure_reason : Option TenantSecretFailureReason

unfoldable pub classify_failure : SecretError → TenantSecretFailureReason
classify_failure (bad_request text) = decrypt_failed
classify_failure master_key_missing_error = master_key_missing
classify_failure (decrypt_error reason) = reason

-- An upgrade that is under way: the tenant, the secret that was read, and its token.
pub record Upgrade : Type 0 where
  pub tenant_id : String
  pub previous : TenantEncryptedSecret
  pub plaintext : String

-- The state of the process: the cache of derived keys and `pendingKeyVersionUpgrades`.
pub record Resolver : Type 0 where
  pub cache : List CachedKey
  pub pending : List Upgrade

abbrev pub is_upgrade_of : String → Upgrade → Bool
is_upgrade_of tenant_id u = str_eq u.tenant_id tenant_id

-- With the repository that the resolver may have or not.
unfoldable pub schedule_key_version_upgrade : Bool → Upgrade → Resolver → Resolver
schedule_key_version_upgrade has_repository upgrade state =
    if not has_repository || any (is_upgrade_of upgrade.tenant_id) state.pending
    then state
    else record state { pending = state.pending ++ upgrade ∷ [] }

-- `source: globalToken ? 'global' : 'none'`
abbrev pub source_of_global : Option String → TelegramBotTokenSource
source_of_global none = no_source
source_of_global (some value) = global

abbrev pub global_resolution : Option String → TelegramBotTokenResolution
global_resolution global_token = record {
  token = global_token;
  source = source_of_global (truthy global_token);
  failure_reason = none;
}

-- What follows the decryption: the token and the upgrade of its secret, or no token at all.
unfoldable pub resolved :
    Bool
    → String
    → TenantEncryptedSecret
    → Resolver
    → List CachedKey × (SecretError ⊎ String)
    → Resolver × TelegramBotTokenResolution
unfolding schedule_key_version_upgrade classify_failure
resolved has_repository tenant_id secret state (cache, inl e) = (
  record state { cache = cache },
  record { token = none; source = no_source; failure_reason = some (classify_failure e) },
)
resolved has_repository tenant_id secret state (cache, inr token) = (
  (if needs_key_version_upgrade secret
      then schedule_key_version_upgrade has_repository
          (record { tenant_id = tenant_id; previous = secret; plaintext = token })
          (record state { cache = cache })
      else record state { cache = cache }),
  record { token = some token; source = tenant; failure_reason = none },
)

module _ (c : Crypto) (master_key : Option String) where
  -- The secret is `input.settings?.telegramBotTokenEncrypted`.
  unfoldable pub resolve_detailed_for_tenant :
      Option String
      → Bool
      → String
      → Option TenantEncryptedSecret
      → Resolver
      → Resolver × TelegramBotTokenResolution
  unfolding resolved
  resolve_detailed_for_tenant global_token has_repository tenant_id none state =
      (state, global_resolution global_token)
  resolve_detailed_for_tenant global_token has_repository tenant_id (some secret) state =
      resolved has_repository tenant_id secret state
        (decrypt_telegram_bot_token c master_key tenant_id secret state.cache)

  abbrev pub upgraded :
      Upgrade
      → List SettingsRow
      → List CachedKey × (SecretError ⊎ TenantEncryptedSecret)
      → List CachedKey × List SettingsRow
  upgraded u rows (cache, inl e) = (cache, rows)
  upgraded u rows (cache, inr encrypted) =
      (cache, upgrade_telegram_bot_token_key_version u.tenant_id u.previous encrypted rows)

  -- `upgradeKeyVersion`: a failure, also one of the UPDATE (`fails`), leaves the row. At the end the
  -- upgrade is no longer pending.
  unfoldable pub upgrade_key_version :
      String → Bool → Upgrade → Resolver → List SettingsRow → Resolver × List SettingsRow
  upgrade_key_version iv fails u state rows =
      let (cache, rows') =
        upgraded u rows
          (encrypt_telegram_bot_token c master_key iv u.tenant_id u.plaintext state.cache) in
      (
        record {
          cache = cache;
          pending = select (λ (p : Upgrade). not (is_upgrade_of u.tenant_id p)) state.pending;
        },
        (if fails then rows else rows'),
      )
