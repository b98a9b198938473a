-- ===== src/Settings/Upgrades.antt =====
-- The upgrade of a secret that an older version of the service encrypted, on the table.
use feedpulse.Base.{
  ℕ, ◌≡◌, refl, ap, ◌∙◌, subst, true, false, Option, none, some, List, String, str_eq, eq_refl,
  ==_iff, inl, inr, Bool-cases, find-mem,
}
use mathlib.Core.Option
use feedpulse.Opml.Marks.{find-update}
use feedpulse.Settings.Rows.{
  TenantEncryptedSecret, SettingsRow, truthy, secret_of, map_telegram_bot_token_encrypted,
  of_tenant, get_by_tenant_id, holds_secret, with_secret, upgrade_telegram_bot_token_key_version,
}
use feedpulse.Settings.Secrets.{
  Crypto, CachedKey, scrypt_aad, build_additional_authenticated_data, derive,
  encrypt_telegram_bot_token, decrypt_telegram_bot_token, opened, deciphered, derived_key, aad_of,
  get_derived_master_key_or_throw, master_key_or_throw, is_supported_key_version,
  needs_key_version_upgrade,
}
use feedpulse.Settings.BotToken.{Resolver, upgrade_key_version}
use feedpulse.Settings.Vault.{IsCrypto, IsDerived, IsEncrypted, encrypt-IsEncrypted}
use feedpulse.Settings.Binding.{decrypt-own}

-- A sealed token and its tag are printed in base64 as texts that are not empty.
pub record IsPrinting (c : Crypto) : Type 0 where
  pub sealed_text :
      (key : List ℕ) (iv aad text : String)
      → str_eq text "" ≡ false
      → str_eq (c.seal key iv aad text).0 "" ≡ false
  pub tag_text :
      (key : List ℕ) (iv aad text : String) → str_eq (c.seal key iv aad text).1 "" ≡ false

truthy-some :
    (o : Option String) (text : String)
    → truthy o ≡ some text
    → (o ≡ some text) × (str_eq text "" ≡ false)
unfolding truthy
truthy-some none text e = cc
truthy-some (some value) text e = elim (Bool-cases (str_eq value "")) [
  | inl k ↦ cc (rw k at e)
  | inr k ↦
      let same : value ≡ text = cc (rw k at e) in
      (ap some same, subst (λ x. str_eq x "" ≡ false) same k)
]

secret_of-some :
    (version : ℕ) (a b d : Option String) (secret : TenantEncryptedSecret)
    → secret_of version a b d ≡ some secret
    → (a ≡ some secret.ciphertext) × (version ≡ secret.key_version)
secret_of-some version none b d secret e = cc
secret_of-some version (some a) none d secret e = cc
secret_of-some version (some a) (some b) none secret e = cc
secret_of-some version (some a) (some b) (some d) secret e =
    (ap (λ o. Option.map (λ (s : TenantEncryptedSecret). s.ciphertext) o) e, cc)

-- The row that was read still holds the secret.
read-holds :
    (tenant_id : String) (r : SettingsRow) (secret : TenantEncryptedSecret)
    → of_tenant tenant_id r ≡ true
    → map_telegram_bot_token_encrypted r ≡ some secret
    → holds_secret tenant_id secret r ≡ true
unfolding map_telegram_bot_token_encrypted holds_secret
read-holds tenant_id r secret own e =
    let (text, version) = secret_of-some r.telegram_bot_token_key_version _ _ _ secret e in
    rw
      (
        own,
        (truthy-some r.telegram_bot_token_ciphertext secret.ciphertext text).0,
        eq_refl secret.ciphertext,
        (==_iff r.telegram_bot_token_key_version secret.key_version).1 version,
      )
      refl

module _ (c : Crypto) (configured : Option String) (tenant_id : String) where
  pub record WasRead (token : String) : Type 0 where
    pub named : str_eq tenant_id "" ≡ false
    pub filled : str_eq token "" ≡ false
    pub master_key : String
    pub configured_key : truthy configured ≡ some master_key

  opened-filled :
      (o : Option String) (token : String) → opened c o ≡ inr token → str_eq token "" ≡ false
  opened-filled none token e = cc
  opened-filled (some text) token e = elim (Bool-cases (str_eq text "")) [
    | inl k ↦ cc (rw k at e)
    | inr k ↦ let same : text ≡ token = cc (rw k at e) in subst (λ x. str_eq x "" ≡ false) same k
  ]

  deciphered-read :
      (o : Option String) (cache : List CachedKey) (secret : TenantEncryptedSecret) (token : String)
      → truthy configured ≡ o
      → str_eq tenant_id "" ≡ false
      → deciphered c tenant_id secret (master_key_or_throw c o secret.key_version cache).1
        ≡ inr token
      → WasRead token
  deciphered-read none cache secret token k named e = cc
  deciphered-read (some master_key) cache secret token k named e = record {
    named = named;
    filled =
        opened-filled
          (c.open_sealed (derived_key c secret.key_version master_key cache).1 secret.iv
            (aad_of c secret.key_version tenant_id) secret.tag secret.ciphertext)
          token e;
    master_key = master_key;
    configured_key = k;
  }

  decrypt-WasRead :
      (cache : List CachedKey) (secret : TenantEncryptedSecret) (token : String)
      → (decrypt_telegram_bot_token c configured tenant_id secret cache).1 ≡ inr token
      → WasRead token
  unfolding decrypt_telegram_bot_token get_derived_master_key_or_throw
  decrypt-WasRead cache secret token e = elim (Bool-cases (str_eq tenant_id "")) [
    | inl k ↦ cc (rw k at e)
    | inr k ↦ elim (Bool-cases (is_supported_key_version secret.key_version)) [
      | inr h ↦ cc (rw (k, h) at e)
      | inl h ↦ deciphered-read (truthy configured) cache secret token refl k (rw (k, h) at e)
    ]
  ]

  -- What was read can be encrypted again.
  encrypt-again :
      (iv : String) (cache : List CachedKey) (token : String)
      → WasRead token
      → (s : TenantEncryptedSecret) × (after : List CachedKey) × (encrypt_telegram_bot_token c
            configured iv tenant_id token cache
          ≡ (after, inr s))
  unfolding encrypt_telegram_bot_token get_derived_master_key_or_throw
  encrypt-again iv cache token k = rw (k.named, k.filled, k.configured_key) (_, _, refl)

module _ (c : Crypto) (laws : IsCrypto c) (prints : IsPrinting c) (configured : Option String)
    (iv : String) (drawn : str_eq iv "" ≡ false) (tenant_id token : String) where
  upgraded_row_secret :
      (r : SettingsRow) (secret : TenantEncryptedSecret) (cache : List CachedKey)
      → IsEncrypted c laws configured iv tenant_id token cache secret
      → map_telegram_bot_token_encrypted (with_secret secret r) ≡ some secret
  unfolding map_telegram_bot_token_encrypted truthy
  upgraded_row_secret r secret cache k =
      let key = derive c scrypt_aad k.master_key in
      let aad = build_additional_authenticated_data tenant_id in
      rw
        (
          k.secret_eq,
          prints.sealed_text key iv aad token k.filled,
          drawn,
          prints.tag_text key iv aad token,
        )
        refl

-- A secret in a tenant's settings that opens to a token: after its upgrade the settings of the tenant hold
-- a secret of the current version, which opens to the same token whatever keys the process has
-- cached, and the row's time of change is as before.
pub upgrade_keeps_token :
    (c : Crypto) (laws : IsCrypto c) (prints : IsPrinting c) (configured : Option String)
    (iv tenant_id token : String) (rows : List SettingsRow) (r : SettingsRow)
    (secret : TenantEncryptedSecret) (read later : List CachedKey) (state : Resolver)
    → str_eq iv "" ≡ false
    → IsDerived c later
    → IsDerived c state.cache
    → get_by_tenant_id tenant_id rows ≡ some r
    → map_telegram_bot_token_encrypted r ≡ some secret
    → (decrypt_telegram_bot_token c configured tenant_id secret read).1 ≡ inr token
    → (r' : SettingsRow) × (s : TenantEncryptedSecret) × (get_by_tenant_id tenant_id
          (upgrade_key_version c configured iv false
            (record { tenant_id = tenant_id; previous = secret; plaintext = token })
            state
            rows).1
        ≡ some r')
      × (map_telegram_bot_token_encrypted r' ≡ some s)
      × (needs_key_version_upgrade s ≡ false)
      × ((decrypt_telegram_bot_token c configured tenant_id s later).1 ≡ inr token)
      × (r'.updated_at ≡ r.updated_at)
unfolding get_by_tenant_id upgrade_key_version upgrade_telegram_bot_token_key_version
upgrade_keeps_token c laws prints configured iv tenant_id token rows r secret read later state drawn
      fresh good found held opens =
    let was_read = decrypt-WasRead c configured tenant_id read secret token opens in
    let (s, after, e) = encrypt-again c configured tenant_id iv state.cache token was_read in
    let k = encrypt-IsEncrypted c laws configured iv tenant_id token state.cache after s good e in
    let own = (find-mem (of_tenant tenant_id) rows found).1 in
    (
      with_secret s r,
      s,
      rw e (
          find-update (of_tenant tenant_id) (holds_secret tenant_id secret) (with_secret s) rows
            (λ x. refl)
          ∙ rw (found, read-holds tenant_id r secret own held) refl),
      upgraded_row_secret c laws prints configured iv drawn tenant_id token r s after k,
      rw k.secret_eq (unfold needs_key_version_upgrade in refl),
      decrypt-own c laws configured iv tenant_id token after later s k fresh,
      refl,
    )
