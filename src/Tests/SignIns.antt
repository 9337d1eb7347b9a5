-- ===== src/Tests/SignIns.antt =====
-- internal/storage/memory/auth_store.go
use ferventio_backend.Base.{
  List, ◌*◌, ◌≤◌, ◌≡◌, refl, Bool, true, false, none, some, [], ◌∷◌, ok, err, ne_of_eq_false,
}
use ferventio_backend.Base.GoMap.{get, put, delete, retain, size, has, any, Each, Unique}
use ferventio_backend.Base.Text.{trim_space, trim_left, trim_right, is_space, byte_length}
use ferventio_backend.Domain.Clock.{second}
use ferventio_backend.Domain.Auth.{AuthError, auth_not_found, auth_expired, AuthSessionRecord}
use ferventio_backend.Memory.Secrets.{secure_hash_equal}
use ferventio_backend.Memory.Auth.{
  AuthStore, open_auth_store, credential_in_use, cleanup_expired, delete_unused,
}
use ferventio_backend.Memory.Auth.Pending.{consume_pending}
use ferventio_backend.Memory.Auth.Pending.Once.{consume_pending_once}
use ferventio_backend.Memory.Auth.Handoffs.{consume_handoff}
use ferventio_backend.Memory.Auth.Handoffs.Guards.{IsFor, consumed_handoff_guarded}
use ferventio_backend.Memory.Auth.Credentials.{put_credential, get_credential}
use ferventio_backend.Memory.Auth.Credentials.RoundTrip.{put_get_credential}
use ferventio_backend.Memory.Auth.Sessions.{create_session, resolve_session}
use ferventio_backend.Memory.Auth.Sessions.Binding.{
  IsOwn, resolved_session_guarded, created_session_alone,
}
use ferventio_backend.Memory.Auth.Revocation.{credential_ids, revoke_account}
use ferventio_backend.Memory.Auth.Revocation.Account.{IsRevoked, revoke_account-IsRevoked}
use ferventio_backend.Memory.Auth.Bounds.{IsBounded}
use ferventio_backend.Memory.Auth.Bounds.Run.{
  AuthCall, put_pending_call, consume_pending_call, revoke_account_call, auth_calls,
  auth_calls-IsBounded,
}
use ferventio_backend.Tests.Samples.{
  toy_hash, toy_vault, attempt, handoff, session, credential, signed_in,
}

put_get_credential_example :
    ((put_credential toy_vault
        (record { access = some "n"; refresh = some "m" })
        credential
        signed_in).1
      ≡ ok tt)
    × (get_credential toy_vault "c1"
          (put_credential toy_vault
            (record { access = some "n"; refresh = some "m" })
            credential
            signed_in).0
        ≡ ok credential)
put_get_credential_example = put_get_credential toy_vault "n" "m" credential signed_in

consume_pending_once_example :
    (consume_pending toy_hash "p" second (consume_pending toy_hash "p" second signed_in).0).1
    ≡ err auth_not_found
consume_pending_once_example = consume_pending_once toy_hash "p" second second signed_in

abbrev without_handoff : AuthStore
without_handoff = record signed_in { handoffs = [] }

handed_over :
    consume_handoff toy_hash "code" "phone" "s" "state" second signed_in
    ≡ (without_handoff, ok handoff)
unfolding consume_handoff get delete secure_hash_equal byte_length
handed_over = refl

consumed_handoff_guarded_example :
    (get (toy_hash.hash_secret "code") signed_in.handoffs ≡ some handoff)
    × IsFor toy_hash "phone" "s" "state" second handoff
    × (get (toy_hash.hash_secret "code") without_handoff.handoffs ≡ none)
consumed_handoff_guarded_example =
    consumed_handoff_guarded toy_hash "code" "phone" "s" "state" second signed_in without_handoff
      handoff handed_over

abbrev is_expiry : AuthError → Bool
is_expiry auth_expired = true
is_expiry _ = false

resolved : resolve_session toy_hash "t" "phone" "s" 0 second signed_in ≡ (signed_in, ok session)
unfolding resolve_session get secure_hash_equal byte_length
resolved = refl

resolved_session_guarded_example :
    (y : AuthSessionRecord) × (get (toy_hash.hash_secret "t") signed_in.sessions ≡ some y)
    × IsOwn toy_hash "phone" "s" y
    × (second ≤ y.expires_at)
    × ((second ≤ session.expires_at) × (session ≡ record y { expires_at = session.expires_at }))
resolved_session_guarded_example =
    resolved_session_guarded toy_hash "t" "phone" "s" 0 second signed_in signed_in session resolved

abbrev renewed : AuthSessionRecord
renewed = record session { created_at = 2 * second; expires_at = 5 * second }

abbrev signed_in_again : AuthStore
signed_in_again = record signed_in { sessions = ("hnew", renewed) ∷ [] }

made :
    create_session toy_hash "c1" "phone" "s" (3 * second) (some "new") (2 * second) signed_in
    ≡ (signed_in_again, ok ("new", 5 * second))
unfolding create_session has any secure_hash_equal byte_length size retain cleanup_expired
    delete_unused credential_in_use put
made = refl

created_session_alone_example :
    Each
      (λ k x. x.installation_id ≡ "phone" → k ≡ toy_hash.hash_secret "new")
      signed_in_again.sessions
created_session_alone_example =
    created_session_alone toy_hash "c1" "phone" "s" (3 * second) (some "new") (2 * second) signed_in
      signed_in_again "new" (5 * second) made

credentials-Unique : Unique signed_in.credentials
unfolding get
credentials-Unique = (refl, tt)

user_named : trim_space "u" ≡ "u"
unfolding trim_space trim_left trim_right is_space
user_named = refl

revoke_account-IsRevoked_example :
    IsRevoked
      (trim_space "u")
      (credential_ids (trim_space "u") signed_in)
      (revoke_account "u" [] signed_in).0
revoke_account-IsRevoked_example =
    revoke_account-IsRevoked "u" [] signed_in credentials-Unique
      (rw user_named (ne_of_eq_false "u" "" refl))

abbrev sign_in : List AuthCall
sign_in =
    put_pending_call "p" attempt second
    ∷ consume_pending_call "p" second
    ∷ revoke_account_call "u" []
    ∷ []

auth_calls-IsBounded_example : IsBounded (auth_calls toy_hash toy_vault sign_in open_auth_store)
auth_calls-IsBounded_example = auth_calls-IsBounded toy_hash toy_vault sign_in
