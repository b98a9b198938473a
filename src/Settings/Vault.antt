-- ===== src/Settings/Vault.antt =====
-- What the encryption of a tenant's secret gives back, and to whom.
use feedpulse.Base.{
  ℕ, ◌≤◌, ◌≡◌, ◌≢◌, refl, sym, ap, ◌∙◌, subst, false, Option, none, some, List, [], ◌∷◌, String,
  str_eq, eq_iff, ◌==◌, ==_iff, leb, inl, inr, length, length-append, find, find-mem, All, All-mem,
  All-append, Bool-cases, &&-eq-true, arith,
}
use feedpulse.Settings.Rows.{TenantEncryptedSecret, truthy}
use feedpulse.Settings.Secrets.{
  Crypto, CachedKey, scrypt_aad, build_additional_authenticated_data, cache_derived_key,
  is_cached_for, fingerprint_of, derive, derived_key, cached_or_derived,
  get_derived_master_key_or_throw, master_key_or_throw, sealed, encrypt_telegram_bot_token,
}

-- What the service relies on: two master keys with the same SHA-256 are the same; AES-256-GCM gives
-- back what was put in; and its tag does not fit other authenticated data.
pub record IsCrypto (c : Crypto) : Type 0 where
  pub apart : (a b : String) → fingerprint_of c a ≡ fingerprint_of c b → a ≡ b
  pub opens :
      (key : List ℕ) (iv aad text : String)
      → c.open_sealed key iv (some aad) (c.seal key iv aad text).1 (c.seal key iv aad text).0
        ≡ some text
  pub rejects :
      (key : List ℕ) (iv aad other text : String)
      → aad ≢ other
      → c.open_sealed key iv (some other) (c.seal key iv aad text).1 (c.seal key iv aad text).0
        ≡ none

module _ (c : Crypto) where
  -- An entry of the cache holds the key of every master key that has its fingerprint.
  abbrev pub IsDerivedKey : CachedKey → Type 0
  IsDerivedKey e =
      (master_key : String)
      → fingerprint_of c master_key ≡ e.fingerprint
      → e.key ≡ derive c e.version master_key

  unfoldable pub IsDerived : List CachedKey → Type 0
  IsDerived cache = All IsDerivedKey cache × (length cache ≤ 8)

module _ (c : Crypto) (laws : IsCrypto c) (version : ℕ) (master_key : String)
    (cache : List CachedKey) (good : IsDerived c cache) where
  abbrev new_entry : CachedKey
  new_entry = record {
    version = version;
    fingerprint = fingerprint_of c master_key;
    key = derive c version master_key;
  }

  new-IsDerivedKey : IsDerivedKey c new_entry
  new-IsDerivedKey other e = ap (derive c version) (laws.apart master_key other (sym e))

  cached-IsDerived : IsDerived c (cache_derived_key cache new_entry)
  unfolding cache_derived_key IsDerived
  cached-IsDerived = elim (Bool-cases (leb 8 (length cache))) [
    | inl full ↦ rw full ((new-IsDerivedKey, tt), omega arith)
    | inr room ↦ rw room (
      All-append (IsDerivedKey c) cache (new_entry ∷ []) good.0 (new-IsDerivedKey, tt),
      ground (arith, length-append cache (new_entry ∷ [])),
    )
  ]

  -- A found entry has the derived key, and a key that is derived is put into the cache.
  found-lem :
      (o : Option CachedKey)
      → find (is_cached_for version (fingerprint_of c master_key)) cache ≡ o
      → ((cached_or_derived c version master_key cache o).1 ≡ derive c version master_key)
        × IsDerived c (cached_or_derived c version master_key cache o).0
  found-lem none e = (refl, cached-IsDerived)
  found-lem (some entry) e =
      let (m, test) = find-mem (is_cached_for version (fingerprint_of c master_key)) cache e in
      let (v, f) = &&-eq-true (entry.version == version) _ test in
      (
        All-mem (IsDerivedKey c) cache (unfold IsDerived in good.0) m master_key
              (sym ((eq_iff entry.fingerprint (fingerprint_of c master_key)).0 f))
            ∙ ap (λ w. derive c w master_key) ((==_iff entry.version version).0 v),
        good,
      )

  -- Whatever keys the process has used before: the key that it uses is the one that the version of the
  -- secret derives from the master key, and the cache of derived keys has at most eight entries,
  -- each the key of its version and master key.
  pub derived_key_lem :
      ((derived_key c version master_key cache).1 ≡ derive c version master_key)
      × IsDerived c (derived_key c version master_key cache).0
  unfolding derived_key
  derived_key_lem = found-lem _ refl

-- A secret that the service encrypts for a tenant.
module _ (c : Crypto) (laws : IsCrypto c) (configured : Option String)
    (iv tenant_id token : String) where
  abbrev pub secret_of_key : List ℕ → TenantEncryptedSecret
  secret_of_key key = record {
    ciphertext = (c.seal key iv (build_additional_authenticated_data tenant_id) token).0;
    iv = iv;
    tag = (c.seal key iv (build_additional_authenticated_data tenant_id) token).1;
    key_version = scrypt_aad;
  }

  pub record IsEncrypted (cache : List CachedKey) (secret : TenantEncryptedSecret) : Type 0 where
    pub master_key : String
    pub configured_key : truthy configured ≡ some master_key
    pub named : str_eq tenant_id "" ≡ false
    pub filled : str_eq token "" ≡ false
    pub secret_eq : secret ≡ secret_of_key (derive c scrypt_aad master_key)
    pub derived : IsDerived c cache

  sealed-IsEncrypted :
      (o : Option String) (cache cache' : List CachedKey) (secret : TenantEncryptedSecret)
      → truthy configured ≡ o
      → IsDerived c cache
      → str_eq tenant_id "" ≡ false
      → str_eq token "" ≡ false
      → (master_key_or_throw c o scrypt_aad cache).0 ≡ cache'
      → sealed c iv tenant_id token (master_key_or_throw c o scrypt_aad cache).1 ≡ inr secret
      → IsEncrypted cache' secret
  sealed-IsEncrypted none cache cache' secret k good a b e f = cc
  sealed-IsEncrypted (some master_key) cache cache' secret k good a b e f =
      let (key, kept) = derived_key_lem c laws scrypt_aad master_key cache good in
      let body : secret ≡ secret_of_key (derived_key c scrypt_aad master_key cache).1 = cc in
      record {
        master_key = master_key;
        configured_key = k;
        named = a;
        filled = b;
        secret_eq = body ∙ ap secret_of_key key;
        derived = subst (IsDerived c) e kept;
      }

  pub encrypt-IsEncrypted :
      (cache cache' : List CachedKey) (secret : TenantEncryptedSecret)
      → IsDerived c cache
      → encrypt_telegram_bot_token c configured iv tenant_id token cache ≡ (cache', inr secret)
      → IsEncrypted cache' secret
  unfolding encrypt_telegram_bot_token get_derived_master_key_or_throw
  encrypt-IsEncrypted cache cache' secret good e = elim (Bool-cases (str_eq tenant_id "")) [
    | inl a ↦ cc (rw a at e)
    | inr a ↦ elim (Bool-cases (str_eq token "")) [
      | inl b ↦ cc (rw (a, b) at e)
      | inr b ↦
          let e' = rw (a, b) at e in
          sealed-IsEncrypted (truthy configured) cache cache' secret refl good a b
            (ap (λ p. p.0) e') (ap (λ p. p.1) e')
    ]
  ]
