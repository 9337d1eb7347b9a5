-- ===== src/Memory/Secrets.antt =====
-- internal/storage/memory/auth_store.go and aliases.go: hashes of secrets and their comparison.
use ferventio_backend.Base.{
  String, Bool, true, false, not, ◌&&◌, ◌≡◌, ◌≢◌, eqb, ◌==◌, eq_iff, eq_refl, if◌then◌else◌, arith,
  eq_false_of_ne,
}
use ferventio_backend.Base.Text.{byte_length}

-- hashSecret: SHA-256 in unpadded base64. The model knows of it that it gives 43 characters, so
-- never the empty text.
pub record Hashing : Type 0 where
  pub hash_secret : String → String
  pub filled : (secret : String) → hash_secret secret ≢ ""

-- `subtle.ConstantTimeCompare` of texts of one length is 1 for equal ones.
unfoldable pub secure_hash_equal : String → String → Bool
secure_hash_equal left right =
    if not (eqb (byte_length left) (byte_length right))
    then false
    else if left == ""
    then false
    else left == right

unfoldable pub secure_equal : Hashing → String → String → Bool
secure_equal h left right =
    eqb (byte_length left) (byte_length right)
    && not (left == "")
    && secure_hash_equal (h.hash_secret left) (h.hash_secret right)

pub secure_hash_equal_sound :
    (left right : String) → secure_hash_equal left right ≡ true → left ≡ right
unfolding secure_hash_equal
secure_hash_equal_sound left right e = ground (arith, eq_iff left right)

pub secure_hash_equal_self :
    (h : Hashing) (s : String) → secure_hash_equal (h.hash_secret s) (h.hash_secret s) ≡ true
unfolding secure_hash_equal
secure_hash_equal_self h s =
    ground (arith, eq_refl (h.hash_secret s), eq_false_of_ne (h.hash_secret s) "" (h.filled s))
