-- ===== src/Crypto.antt =====
-- Tokens that prove the possession of a key: packages/core/src/crypto/token.rs and nonce.rs. Hashes,
-- signatures and Base64 are those of the crates sha2, ed25519-dalek, rsa and base64, and come as
-- an interface. Texts are their bytes.
pub mod Token
pub mod Timestamp
pub mod Sample
mod Tests
use aika.Common.{
  ℕ, ◌+◌, ◌-◌, ◌*◌, ◌^◌, ◌%◌, ◌/◌, ◌≡◌, ◌≢◌, Bool, true, false, not, ◌&&◌, Option, none, some, List,
  [], ◌∷◌, ◌++◌, length, get_elem?, All, ltb, leb, nat_eq, split, text_eq, if◌then◌else◌, String,
}
use Prim.Native.Char.{code}
use aika.Save.{Bytes}

-- The bytes of an ASCII text.
abbrev pub ascii : String → Bytes
ascii String.[] = []
ascii (String.◌∷◌ c s) = code c ∷ ascii s

abbrev pub dot : ℕ
dot = b'.'

-- What the crates offer, with what they document: a signature made with a key passes under its
-- public key, which has an encoding; what is encoded in Base64 is decoded, and holds no dot.
pub record Primitives : Type 1 where
  pub SigningKey : Type 0
  pub Ed25519Key : Type 0
  pub RsaPssKey : Type 0
  pub verifying_key : SigningKey → Ed25519Key
  pub sign : SigningKey → Bytes → Bytes
  pub ed25519_verify : Ed25519Key → Bytes → Bytes → Bool
  pub rsa_pss_verify : RsaPssKey → Bytes → Bytes → Bool
  pub ed25519_der : Ed25519Key → Option Bytes
  pub rsa_pss_der : RsaPssKey → Option Bytes
  pub sha256 : Bytes → Bytes
  pub encode : Bytes → Bytes
  pub decode : Bytes → Option Bytes
  pub verify-sign :
      (k : SigningKey) (m : Bytes) → ed25519_verify (verifying_key k) m (sign k m) ≡ true
  pub has_der : (k : SigningKey) → (der : Bytes) × (ed25519_der (verifying_key k) ≡ some der)
  pub decode-encode : (b : Bytes) → decode (encode b) ≡ some b
  pub no_dot : (b : Bytes) → All (λ c. c ≢ dot) (encode b)

-- `validate_nonce`.
unfoldable pub validate_nonce : Bytes → Bool
validate_nonce nonce = leb 16 (length nonce) && leb (length nonce) 128

-- The outcome of a check; `panicked` is that of an index out of range.
pub data Check : Type 0 where
  valid invalid panicked : Check

-- The 8 bytes of a `u64`, the lowest first.
unfoldable pub to_le : ℕ → ℕ → Bytes
to_le Prim.Native.Nat.zero n = []
to_le (Prim.Native.Nat.suc k) n = n % 256 ∷ to_le k (n / 256)

unfoldable pub from_le : Bytes → ℕ
from_le [] = 0
from_le (b ∷ bytes) = b + 256 * from_le bytes

-- At most an hour old; the subtraction is that of a `u64`, which wraps.
unfoldable pub is_recent : ℕ → Bytes → Bool
unfolding from_le
is_recent now salt =
    nat_eq (length salt) 8 && leb ((now + 2 ^ 64 - from_le salt) % 2 ^ 64) (60 * 60)

abbrev pub checked : Bool → Check
checked true = valid
checked false = invalid

module _ (p : Primitives) where
  -- The trait `VerifyingTokenKey` and its two implementations.
  pub data VerifyingTokenKey : Type 0 where
    ed25519 : p.Ed25519Key → VerifyingTokenKey
    rsa_pss : p.RsaPssKey → VerifyingTokenKey

  unfoldable pub verify : VerifyingTokenKey → Bytes → Bytes → Bool
  verify (ed25519 k) msg signature = p.ed25519_verify k msg signature
  verify (rsa_pss k) msg signature = p.rsa_pss_verify k msg signature

  unfoldable pub to_der : VerifyingTokenKey → Option Bytes
  to_der (ed25519 k) = p.ed25519_der k
  to_der (rsa_pss k) = p.rsa_pss_der k

  unfoldable pub signature_method : VerifyingTokenKey → Bytes
  signature_method (ed25519 k) = ascii "ed25519"
  signature_method (rsa_pss k) = ascii "rsa-pss"

  unfoldable pub to_verifying_key : p.SigningKey → VerifyingTokenKey
  to_verifying_key key = ed25519 (p.verifying_key key)

  -- The text of a token, from the digest and the rest.
  abbrev pub token_text : Bytes → Bytes → Bytes → Bytes
  token_text digest salt signature =
      ascii "sha256"
      ++ dot
        ∷ (p.encode digest
            ++ dot ∷ (p.encode salt ++ dot ∷ (ascii "ed25519" ++ dot ∷ p.encode signature)))

  unfoldable pub token_of : p.SigningKey → Bytes → Option Bytes → Option Bytes
  token_of key salt none = none
  token_of key salt (some der) =
      let digest = p.sha256 (der ++ salt) in some (token_text digest salt (p.sign key digest))

  unfoldable pub generate_token_nonce : p.SigningKey → Bytes → Option Bytes
  unfolding token_of
  generate_token_nonce key salt = token_of key salt (p.ed25519_der (p.verifying_key key))

  -- `now` is the time in seconds.
  unfoldable pub generate_token_timestamp : p.SigningKey → ℕ → Option Bytes
  unfolding generate_token_nonce to_le
  generate_token_timestamp key now = generate_token_nonce key (to_le 8 now)

  unfoldable pub extract_signature_identifier : Bytes → Option Bytes
  unfolding split
  extract_signature_identifier token = get_elem? (split dot token) 3

  unfoldable pub check_signature : VerifyingTokenKey → Bytes → Option Bytes → Check
  unfolding verify
  check_signature key digest none = invalid
  check_signature key digest (some signature) = checked (verify key digest signature)

  unfoldable pub check_digest :
      VerifyingTokenKey → (hash_base64 salt signature_base64 : Bytes) → Option Bytes → Check
  unfolding check_signature
  check_digest key hash_base64 salt signature_base64 none = invalid
  check_digest key hash_base64 salt signature_base64 (some der) =
      let digest = p.sha256 (der ++ salt) in
      if text_eq (p.encode digest) hash_base64
      then check_signature key digest (p.decode signature_base64)
      else invalid

  unfoldable pub check_salt :
      VerifyingTokenKey
      → (verify_salt : Bytes → Bool) → (hash_base64 signature_base64 : Bytes) → Option Bytes
      → Check
  unfolding check_digest to_der
  check_salt key verify_salt hash_base64 signature_base64 none = invalid
  check_salt key verify_salt hash_base64 signature_base64 (some salt) =
      if verify_salt salt
      then check_digest key hash_base64 salt signature_base64 (to_der key)
      else invalid

  unfoldable pub check_parts : VerifyingTokenKey → (verify_salt : Bytes → Bool) → List Bytes → Check
  unfolding check_salt signature_method
  check_parts key verify_salt
        (hash_method ∷ hash_base64 ∷ salt_base64 ∷ sign_method ∷ signature_base64 ∷ _) =
      if not (text_eq hash_method (ascii "sha256"))
      then invalid
      else if not (text_eq sign_method (signature_method key))
      then invalid
      else check_salt key verify_salt hash_base64 signature_base64 (p.decode salt_base64)
  check_parts key verify_salt _ = panicked

  -- `verify_token_with_result`. Its first index, `parts[0..5]`, panics on fewer than five parts.
  unfoldable pub verify_token_with_result :
      VerifyingTokenKey → Bytes → (verify_salt : Bytes → Bool) → Check
  unfolding check_parts split
  verify_token_with_result key token verify_salt = check_parts key verify_salt (split dot token)

  unfoldable pub verify_token_timestamp : VerifyingTokenKey → Bytes → ℕ → Check
  unfolding verify_token_with_result is_recent
  verify_token_timestamp key token now = verify_token_with_result key token (is_recent now)

  unfoldable pub verify_token_nonce : VerifyingTokenKey → Bytes → Bytes → Check
  unfolding verify_token_with_result
  verify_token_nonce key token nonce =
      verify_token_with_result key token (λ salt. text_eq salt nonce)
