-- ===== src/Memory/Auth/Vault.antt =====
-- internal/storage/memory/auth_store.go: sealAuthValue and openAuthValue.
use ferventio_backend.Base.{String, Option, none, some, ◌≡◌, subst, Result, ok, err}
use ferventio_backend.Domain.Auth.{AuthError, auth_crypto, EncryptedValue}

-- The cipher of the store, which is never nil, and unpadded base64: what is sealed opens under its
-- own nonce and additional data, and what is encoded decodes.
pub record Vault : Type 0 where
  pub aead_seal : (nonce plaintext aad : String) → String
  pub aead_open : (nonce ciphertext aad : String) → Option String
  pub encode : String → String
  pub decode : String → Option String
  pub open-seal :
      (nonce plaintext aad : String)
      → aead_open nonce (aead_seal nonce plaintext aad) aad ≡ some plaintext
  pub decode-encode : (bytes : String) → decode (encode bytes) ≡ some bytes

module _ (v : Vault) where
  -- The nonce is what `rand.Read` gives, none for its error.
  unfoldable pub seal_auth_value : Option String → String → String → Result AuthError EncryptedValue
  seal_auth_value none aad plaintext = err auth_crypto
  seal_auth_value (some nonce) aad plaintext =
      ok
        (record { nonce = v.encode nonce; ciphertext = v.encode (v.aead_seal nonce plaintext aad) })

  unfoldable pub open_auth_value : String → EncryptedValue → Result AuthError String
  open_auth_value aad value = elim (v.decode value.nonce) [
    | none ↦ err auth_crypto
    | some nonce ↦ elim (v.decode value.ciphertext) [
      | none ↦ err auth_crypto
      | some ciphertext ↦ elim (v.aead_open nonce ciphertext aad) [
        | none ↦ err auth_crypto
        | some plaintext ↦ ok plaintext
      ]
    ]
  ]

  abbrev pub sealed : String → String → String → EncryptedValue
  sealed nonce aad plaintext = record {
    nonce = v.encode nonce;
    ciphertext = v.encode (v.aead_seal nonce plaintext aad);
  }

  pub opened :
      (nonce aad plaintext : String)
      → open_auth_value aad (sealed nonce aad plaintext) ≡ ok plaintext
  unfolding open_auth_value
  opened nonce aad plaintext = rw (
    open_auth_value,
    v.decode-encode nonce,
    v.decode-encode (v.aead_seal nonce plaintext aad),
    v.open-seal nonce plaintext aad,
  )

  -- What is sealed opens, under the same additional data.
  pub open_auth_value-seal_auth_value :
      (nonce : Option String) (aad plaintext : String) (value : EncryptedValue)
      → seal_auth_value nonce aad plaintext ≡ ok value
      → open_auth_value aad value ≡ ok plaintext
  unfolding seal_auth_value
  open_auth_value-seal_auth_value none aad plaintext value e = cc e
  open_auth_value-seal_auth_value (some nonce) aad plaintext value e =
      let same : sealed nonce aad plaintext ≡ value = cc e in
      subst (λ x. open_auth_value aad x ≡ ok plaintext) same (opened nonce aad plaintext)
