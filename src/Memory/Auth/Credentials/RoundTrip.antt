-- ===== src/Memory/Auth/Credentials/RoundTrip.antt =====
-- internal/storage/memory/auth_store.go: a stored credential comes back with its tokens.
use Prim.Native.String.{◌++◌}
use ferventio_backend.Base.{String, some, ◌≡◌, refl, ok}
use ferventio_backend.Base.GoMap.{get-put_self}
use ferventio_backend.Domain.Auth.{AuthCredential}
use ferventio_backend.Memory.Auth.{AuthStore}
use ferventio_backend.Memory.Auth.Vault.{Vault, seal_auth_value, sealed, opened}
use ferventio_backend.Memory.Auth.Credentials.{
  credential_record, put_credential, sealed_credential, open_credential, get_credential,
}

module _ (v : Vault) where
  sealed_credential_lem :
      (a b : String) (c : AuthCredential)
      → sealed_credential v (record { access = some a; refresh = some b }) c
        ≡ ok (
            credential_record c
              (sealed v a (c.id ++ ":access") c.access_token)
              (sealed v b (c.id ++ ":refresh") c.refresh_token))
  unfolding sealed_credential seal_auth_value
  sealed_credential_lem a b c = refl

  -- A credential that is stored with random nonces is read back as it was, tokens included.
  pub put_get_credential :
      (a b : String) (c : AuthCredential) (s : AuthStore)
      → let (s', reply) = put_credential v (record { access = some a; refresh = some b }) c s in
        (reply ≡ ok tt) × (get_credential v c.id s' ≡ ok c)
  unfolding put_credential get_credential open_credential
  put_get_credential a b c s =
      rw (put_credential, sealed_credential_lem a b c)
        (
          refl,
          rw (
            get_credential,
            get-put_self,
            open_credential,
            opened v a (c.id ++ ":access") c.access_token,
            opened v b (c.id ++ ":refresh") c.refresh_token,
          ),
        )
