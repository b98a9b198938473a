-- ===== src/Settings/Rows.antt =====
-- modules/settings/settings.repository.ts: the table `tenant_settings`, whose key is the tenant.
use feedpulse.Base.{
  ℕ, Bool, false, ◌&&◌, Option, none, some, List, [], ◌∷◌, String, str_eq, ◌==◌, if◌then◌else◌,
  ◌++◌, any, update, find,
}
use mathlib.Core.Option
use feedpulse.Alerts.Notifier.{TelegramDeliveryMode}

pub record TenantEncryptedSecret : Type 0 where
  pub ciphertext : String
  pub iv : String
  pub tag : String
  pub key_version : ℕ

pub record SettingsRow : Type 0 where
  pub tenant_id : String
  pub webhook_notifier_url : Option String
  pub recipient_emails : List String
  pub telegram_chat_ids : List String
  pub telegram_delivery_mode : TelegramDeliveryMode
  pub telegram_bot_token_ciphertext : Option String
  pub telegram_bot_token_iv : Option String
  pub telegram_bot_token_tag : Option String
  pub telegram_bot_token_key_version : ℕ
  pub updated_at : ℕ

-- What a condition takes for false: null, and the empty text.
unfoldable pub truthy : Option String → Option String
truthy none = none
truthy (some value) = if str_eq value "" then none else some value

abbrev pub secret_of :
    ℕ → Option String → Option String → Option String → Option TenantEncryptedSecret
secret_of version (some ciphertext) (some iv) (some tag) =
    some (record { ciphertext = ciphertext; iv = iv; tag = tag; key_version = version })
secret_of version _ _ _ = none

unfoldable pub map_telegram_bot_token_encrypted : SettingsRow → Option TenantEncryptedSecret
unfolding truthy
map_telegram_bot_token_encrypted r =
    secret_of r.telegram_bot_token_key_version (truthy r.telegram_bot_token_ciphertext)
      (truthy r.telegram_bot_token_iv) (truthy r.telegram_bot_token_tag)

abbrev pub of_tenant : String → SettingsRow → Bool
of_tenant tenant_id r = str_eq r.tenant_id tenant_id

unfoldable pub get_by_tenant_id : String → List SettingsRow → Option SettingsRow
get_by_tenant_id tenant_id rows = find (of_tenant tenant_id) rows

pub data TenantTelegramBotTokenOperation : Type 0 where
  unchanged clear set : TenantTelegramBotTokenOperation

pub record NotifierSettingsInput : Type 0 where
  pub webhook_notifier_url : Option String
  pub recipient_emails : List String
  pub telegram_chat_ids : List String
  pub telegram_delivery_mode : TelegramDeliveryMode
  pub telegram_bot_token_operation : TenantTelegramBotTokenOperation
  pub telegram_bot_token_encrypted : Option TenantEncryptedSecret

-- `input.telegramBotTokenEncrypted?.keyVersion ?? KEY_VERSION_WHEN_NO_CIPHERTEXT`
abbrev pub version_of : Option TenantEncryptedSecret → ℕ
version_of none = 1
version_of (some secret) = secret.key_version

abbrev pub inserted_row : ℕ → String → NotifierSettingsInput → SettingsRow
inserted_row now tenant_id input = record {
  tenant_id = tenant_id;
  webhook_notifier_url = input.webhook_notifier_url;
  recipient_emails = input.recipient_emails;
  telegram_chat_ids = input.telegram_chat_ids;
  telegram_delivery_mode = input.telegram_delivery_mode;
  telegram_bot_token_ciphertext =
      Option.map (λ (s : TenantEncryptedSecret). s.ciphertext) input.telegram_bot_token_encrypted;
  telegram_bot_token_iv =
      Option.map (λ (s : TenantEncryptedSecret). s.iv) input.telegram_bot_token_encrypted;
  telegram_bot_token_tag =
      Option.map (λ (s : TenantEncryptedSecret). s.tag) input.telegram_bot_token_encrypted;
  telegram_bot_token_key_version = version_of input.telegram_bot_token_encrypted;
  updated_at = now;
}

-- The columns of the token in DO UPDATE: those of the row that the INSERT proposed, NULL, or as before.
-- A cleared token keeps its version.
abbrev pub token_columns : TenantTelegramBotTokenOperation → SettingsRow → SettingsRow → SettingsRow
token_columns unchanged before excluded = record excluded {
  telegram_bot_token_ciphertext = before.telegram_bot_token_ciphertext;
  telegram_bot_token_iv = before.telegram_bot_token_iv;
  telegram_bot_token_tag = before.telegram_bot_token_tag;
  telegram_bot_token_key_version = before.telegram_bot_token_key_version;
}
token_columns clear before excluded = record excluded {
  telegram_bot_token_ciphertext = none;
  telegram_bot_token_iv = none;
  telegram_bot_token_tag = none;
  telegram_bot_token_key_version = before.telegram_bot_token_key_version;
}
token_columns set before excluded = excluded

unfoldable pub upsert_notifier_settings :
    ℕ → String → NotifierSettingsInput → List SettingsRow → List SettingsRow
upsert_notifier_settings now tenant_id input rows =
    let excluded = inserted_row now tenant_id input in
    if any (of_tenant tenant_id) rows
    then update (of_tenant tenant_id)
        (λ r. token_columns input.telegram_bot_token_operation r excluded) rows
    else rows ++ excluded ∷ []

abbrev pub is_text : String → Option String → Bool
is_text text none = false
is_text text (some value) = str_eq value text

-- The WHERE clause of the upgrade: the row still holds the secret that was read.
unfoldable pub holds_secret : String → TenantEncryptedSecret → SettingsRow → Bool
holds_secret tenant_id expected r =
    str_eq r.tenant_id tenant_id
    && is_text expected.ciphertext r.telegram_bot_token_ciphertext
    && (r.telegram_bot_token_key_version == expected.key_version)

abbrev pub with_secret : TenantEncryptedSecret → SettingsRow → SettingsRow
with_secret encrypted r = record r {
  telegram_bot_token_ciphertext = some encrypted.ciphertext;
  telegram_bot_token_iv = some encrypted.iv;
  telegram_bot_token_tag = some encrypted.tag;
  telegram_bot_token_key_version = encrypted.key_version;
}

unfoldable pub upgrade_telegram_bot_token_key_version :
    String → TenantEncryptedSecret → TenantEncryptedSecret → List SettingsRow → List SettingsRow
upgrade_telegram_bot_token_key_version tenant_id expected encrypted rows =
    update (holds_secret tenant_id expected) (with_secret encrypted) rows
