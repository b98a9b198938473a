-- ===== src/Settings/Tests.antt =====
-- Tests of the settings, and the theorems on the settings at concrete inputs.
use feedpulse.Base.{
  ◌≡◌, ◌≢◌, refl, true, false, Option, none, some, [], ◌∷◌, String, str_eq, eq_iff, eq_refl,
  if◌then◌else◌, inl, inr, Bool-cases, find, any, update, arith,
}
use Prim.Native.String.{◌++◌ as append}
use text.Mathlib.TextLemmas.{cons-ne-nil, append_cancel_right, append-ne-nil_of_right_ne-nil}
use feedpulse.Alerts.Notifier.{instant}
use feedpulse.Settings.Rows.{
  TenantEncryptedSecret, SettingsRow, truthy, map_telegram_bot_token_encrypted, get_by_tenant_id,
  NotifierSettingsInput, clear, upsert_notifier_settings,
}
use feedpulse.Settings.Secrets.{
  Crypto, CachedKey, encrypt_telegram_bot_token, decrypt_telegram_bot_token,
  needs_key_version_upgrade, derived_key, derive, fingerprint_of, get_derived_master_key_or_throw,
  is_supported_key_version, cache_derived_key, aad_of, build_additional_authenticated_data,
  decrypt_error, unknown_key_version, master_key_missing_error,
}
use feedpulse.Settings.BotToken.{
  Resolver, tenant, global, no_source, resolve_detailed_for_tenant, upgrade_key_version,
}
use feedpulse.Settings.Vault.{IsCrypto, IsDerived}
use feedpulse.Settings.Binding.{secret_bound_to_tenant}
use feedpulse.Settings.Upgrades.{IsPrinting, upgrade_keeps_token}

-- A cipher that seals a token as itself, with its authenticated data in the tag.
abbrev toy_open : Option String → String → String → Option String
toy_open none tag text = some text
toy_open (some aad) tag text = if str_eq tag (append aad "t") then some text else none

abbrev toy : Crypto
toy = record {
  sha256 = λ text. 1 ∷ [];
  sha256_hex = λ text. text;
  scrypt = λ text. 2 ∷ [];
  seal = λ key iv aad text. (text, append aad "t");
  open_sealed = λ key iv aad tag text. toy_open aad tag text;
}

toy_rejects :
    (aad other text : String) → aad ≢ other → toy_open (some other) (append aad "t") text ≡ none
toy_rejects aad other text differs =
    elim (Bool-cases (str_eq (append aad "t") (append other "t"))) [
      | inr e ↦ rw e refl
      | inl e ↦
          elim (differs (
            append_cancel_right aad other "t"
              ((eq_iff (append aad "t") (append other "t")).0 e))) [ ]
    ]

toy-IsCrypto : IsCrypto toy
unfolding fingerprint_of
toy-IsCrypto = record {
  apart = λ a b e. e;
  opens = λ key iv aad text. rw (eq_refl (append aad "t")) refl;
  rejects = λ key iv aad other text differs. toy_rejects aad other text differs;
}

t_nonempty : Path String "t" "" → ⊥
t_nonempty e = cons-ne-nil _ "" e

toy_tag : (aad : String) → str_eq (append aad "t") "" ≡ false
toy_tag aad = elim (Bool-cases (str_eq (append aad "t") "")) [
  | inr e ↦ e
  | inl e ↦
      elim (append-ne-nil_of_right_ne-nil aad t_nonempty ((eq_iff (append aad "t") "").0 e)) [ ]
]

toy-IsPrinting : IsPrinting toy
toy-IsPrinting = record {
  sealed_text = λ key iv aad text filled. filled;
  tag_text = λ key iv aad text. toy_tag aad;
}

no_keys-IsDerived : IsDerived toy []
unfolding IsDerived
no_keys-IsDerived = (tt, omega arith)

abbrev resolver : Resolver
resolver = record { cache = []; pending = [] }

abbrev sealed_token : TenantEncryptedSecret
sealed_token = record {
  ciphertext = "123:abc";
  iv = "aXY";
  tag = append (append "feedpulse:telegram_bot_token:" "acme") "t";
  key_version = 2;
}

abbrev key_2 : CachedKey
key_2 = record { version = 2; fingerprint = "key"; key = 2 ∷ [] }

encrypt_test :
    encrypt_telegram_bot_token toy (some "key") "aXY" "acme" "123:abc" []
    ≡ (key_2 ∷ [], inr sealed_token)
unfolding encrypt_telegram_bot_token get_derived_master_key_or_throw is_supported_key_version truthy
    derived_key derive fingerprint_of cache_derived_key aad_of build_additional_authenticated_data
    find
encrypt_test = refl

tenants_differ : Path String "acme" "umbrella" → ⊥
tenants_differ e = cc ((eq_iff "acme" "umbrella").1 e)

secret_bound_to_tenant_example :
    ((resolve_detailed_for_tenant toy
        (some "key")
        (some "global")
        true
        "acme"
        (some sealed_token)
        resolver).1
      ≡ record { token = some "123:abc"; source = tenant; failure_reason = none })
    × ((resolve_detailed_for_tenant toy
          (some "key")
          (some "global")
          true
          "umbrella"
          (some sealed_token)
          resolver).1.token
        ≡ none)
    × ((resolve_detailed_for_tenant toy
          (some "key")
          (some "global")
          true
          "umbrella"
          (some sealed_token)
          resolver).1.source
        ≡ no_source)
secret_bound_to_tenant_example =
    secret_bound_to_tenant toy toy-IsCrypto (some "key") "aXY" "acme" "umbrella" "123:abc" []
      (key_2 ∷ []) sealed_token (some "global") true resolver no_keys-IsDerived no_keys-IsDerived
      encrypt_test tenants_differ

-- A secret of the first version, without a tag of its tenant.
abbrev legacy : TenantEncryptedSecret
legacy = record { ciphertext = "123:abc"; iv = "aXY"; tag = "old"; key_version = 1 }

abbrev legacy_row : SettingsRow
legacy_row = record {
  tenant_id = "acme";
  webhook_notifier_url = none;
  recipient_emails = [];
  telegram_chat_ids = "7" ∷ [];
  telegram_delivery_mode = instant;
  telegram_bot_token_ciphertext = some "123:abc";
  telegram_bot_token_iv = some "aXY";
  telegram_bot_token_tag = some "old";
  telegram_bot_token_key_version = 1;
  updated_at = 5;
}

found_test : get_by_tenant_id "acme" (legacy_row ∷ []) ≡ some legacy_row
unfolding get_by_tenant_id find
found_test = refl

held_test : map_telegram_bot_token_encrypted legacy_row ≡ some legacy
unfolding map_telegram_bot_token_encrypted truthy
held_test = refl

legacy_test : (decrypt_telegram_bot_token toy (some "key") "acme" legacy []).1 ≡ inr "123:abc"
unfolding decrypt_telegram_bot_token get_derived_master_key_or_throw is_supported_key_version truthy
    derived_key derive fingerprint_of cache_derived_key aad_of build_additional_authenticated_data
    find
legacy_test = refl

upgrade_keeps_token_example :
    (r' : SettingsRow) × (s : TenantEncryptedSecret) × (get_by_tenant_id "acme"
        (upgrade_key_version toy
          (some "key")
          "aXY"
          false
          (record { tenant_id = "acme"; previous = legacy; plaintext = "123:abc" })
          resolver
          (legacy_row ∷ [])).1
      ≡ some r')
    × (map_telegram_bot_token_encrypted r' ≡ some s)
    × (needs_key_version_upgrade s ≡ false)
    × ((decrypt_telegram_bot_token toy (some "key") "acme" s []).1 ≡ inr "123:abc")
    × (r'.updated_at ≡ 5)
upgrade_keeps_token_example =
    upgrade_keeps_token toy toy-IsCrypto toy-IsPrinting (some "key") "aXY" "acme" "123:abc"
      (legacy_row ∷ []) legacy_row legacy [] [] resolver refl no_keys-IsDerived no_keys-IsDerived
      found_test held_test legacy_test

-- An unknown version, and a master key that is not configured or empty.
unknown_version_test :
    (decrypt_telegram_bot_token toy (some "key") "acme" (record legacy { key_version = 3 }) []).1
    ≡ inl (decrypt_error unknown_key_version)
unfolding decrypt_telegram_bot_token get_derived_master_key_or_throw is_supported_key_version truthy
    derived_key derive fingerprint_of cache_derived_key aad_of build_additional_authenticated_data
    find
unknown_version_test = refl

no_master_key_test :
    (decrypt_telegram_bot_token toy (some "") "acme" legacy []).1 ≡ inl master_key_missing_error
unfolding decrypt_telegram_bot_token get_derived_master_key_or_throw is_supported_key_version truthy
    derived_key derive fingerprint_of cache_derived_key aad_of build_additional_authenticated_data
    find
no_master_key_test = refl

-- Without a secret of its own a tenant uses the global token.
global_test :
    (resolve_detailed_for_tenant toy none (some "global") true "acme" none resolver).1.source
    ≡ global
unfolding resolve_detailed_for_tenant truthy
global_test = refl

abbrev clear_input : NotifierSettingsInput
clear_input = record {
  webhook_notifier_url = none;
  recipient_emails = [];
  telegram_chat_ids = [];
  telegram_delivery_mode = instant;
  telegram_bot_token_operation = clear;
  telegram_bot_token_encrypted = none;
}

-- A cleared token keeps the version column.
clear_test :
    upsert_notifier_settings 9 "acme" clear_input (legacy_row ∷ [])
    ≡ record legacy_row {
      telegram_chat_ids = [];
      telegram_bot_token_ciphertext = none;
      telegram_bot_token_iv = none;
      telegram_bot_token_tag = none;
      updated_at = 9;
    }
      ∷ []
unfolding upsert_notifier_settings any update
clear_test = refl
