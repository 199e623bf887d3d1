-- ===== src/Crypto/Tests.antt =====
-- Runs of packages/core/src/crypto/token.rs.
use aika.Common.{◌+◌, ◌*◌, ◌≤◌, ◌<◌, ◌≡◌, ◌↔◌, true, some, [], ◌∷◌, arith}
use aika.Common.{count}
use aika.Save.{Bytes}
use aika.Crypto.{
  valid, panicked, ascii, dot, to_verifying_key, generate_token_nonce, generate_token_timestamp,
  verify_token_nonce, verify_token_timestamp, verify_token_with_result,
}
use aika.Crypto.Sample.{plain}
use aika.Crypto.Token.{token_accepted, panics_iff}
use aika.Crypto.Timestamp.{timestamp_accepted_iff}

accepted_token :
    (token : Bytes) × (generate_token_nonce plain 5 (1 ∷ 2 ∷ []) ≡ some token)
    × (verify_token_nonce plain (to_verifying_key plain 5) token (1 ∷ 2 ∷ []) ≡ valid)
accepted_token = token_accepted plain 5 (1 ∷ 2 ∷ [])

panics_iff_example :
    (verify_token_with_result plain (to_verifying_key plain 5) (ascii "sha256") (λ salt. true)
      ≡ panicked)
    ↔ (count dot (ascii "sha256") < 4)
panics_iff_example = panics_iff plain (to_verifying_key plain 5) (ascii "sha256") (λ salt. true)

timestamp_accepted_iff_example :
    (token : Bytes) × (generate_token_timestamp plain 5 1792074620 ≡ some token)
    × ((verify_token_timestamp plain (to_verifying_key plain 5) token 1792078220 ≡ valid)
        ↔ ((1792074620 ≤ 1792078220) × (1792078220 ≤ 1792074620 + 60 * 60)))
timestamp_accepted_iff_example =
    timestamp_accepted_iff plain 5 1792074620 1792078220 (omega arith) (omega arith)
