-- ===== src/Crypto/Sample.antt =====
-- Plain functions in place of the crates of packages/core/src/crypto, for examples: a signature is
-- the key before the message, nothing is hashed, and Base64 moves each byte.
use aika.Common.{ℕ, ◌+◌, ◌-◌, ◌≡◌, ◌≢◌, refl, false, some, [], ◌∷◌, All, arith}
use aika.Save.{Bytes}
use aika.Common.{text_eq, text_eq_refl}
use aika.Crypto.{Primitives, dot}

abbrev pub move : Bytes → Bytes
move [] = []
move (b ∷ bytes) = (b + 100) ∷ move bytes

abbrev pub move_back : Bytes → Bytes
move_back [] = []
move_back (b ∷ bytes) = (b - 100) ∷ move_back bytes

pub move_back-move : (b : Bytes) → some (move_back (move b)) ≡ some b
move_back-move [] = refl
move_back-move (b ∷ bytes) = ground (arith, move_back-move bytes)

pub move-no_dot : (b : Bytes) → All (λ c. c ≢ dot) (move b)
move-no_dot [] = tt
move-no_dot (b ∷ bytes) = (λ e. omega (arith, e), move-no_dot bytes)

abbrev pub plain : Primitives
plain = record {
  SigningKey = ℕ;
  Ed25519Key = ℕ;
  RsaPssKey = ℕ;
  verifying_key = λ k. k;
  sign = λ k m. k ∷ m;
  ed25519_verify = λ k m s. text_eq s (k ∷ m);
  rsa_pss_verify = λ k m s. false;
  ed25519_der = λ k. some (k ∷ []);
  rsa_pss_der = λ k. some (k ∷ []);
  sha256 = λ b. b;
  encode = move;
  decode = λ b. some (move_back b);
  verify-sign = λ k m. text_eq_refl (k ∷ m);
  has_der = λ k. (k ∷ [], refl);
  decode-encode = move_back-move;
  no_dot = move-no_dot;
}
