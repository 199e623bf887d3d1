-- ===== src/Crypto/Token.antt =====
-- What a token proves: packages/core/src/crypto/token.rs.
use aika.Common.{
  ◌<◌, ◌≡◌, ◌↔◌, refl, sym, ap, subst, ◌∙◌, inl, inr, Bool, true, Option, none, some, List, [], ◌∷◌,
  ◌++◌, length, arith, Bool-cases,
}
use aika.Common.{
  split, split-end, split-part, length-split, count, text_eq, text_eq_iff, text_eq_refl,
}
use aika.Save.{Bytes}
use aika.Crypto.{
  dot, ascii, Primitives, valid, panicked, VerifyingTokenKey, verify, to_der, signature_method,
  to_verifying_key, token_text, token_of, generate_token_nonce, checked, check_signature,
  check_digest, check_salt, check_parts, verify_token_with_result, verify_token_nonce,
}

module _ (p : Primitives) where
  split-token_text :
      (digest salt signature : Bytes)
      → split dot (token_text p digest salt signature)
        ≡ ascii "sha256"
          ∷ p.encode digest
          ∷ p.encode salt
          ∷ ascii "ed25519"
          ∷ p.encode signature
          ∷ []
  split-token_text digest salt signature =
      split-part dot (ascii "sha256") _ (omega arith)
      ∙ ap (λ r. ascii "sha256" ∷ r)
          (split-part dot (p.encode digest) _ (p.no_dot digest)
            ∙ ap (λ r. p.encode digest ∷ r)
                (split-part dot (p.encode salt) _ (p.no_dot salt)
                  ∙ ap (λ r. p.encode salt ∷ r)
                      (split-part dot (ascii "ed25519") _ (omega arith)
                        ∙ ap (λ r. ascii "ed25519" ∷ r)
                            (split-end dot (p.encode signature) (p.no_dot signature)))))

  -- A token of a key, for the salt and the digest that it names, up to the check of the salt.
  pub verify-token_text :
      (key : p.SigningKey) (salt : Bytes) (verify_salt : Bytes → Bool)
      → let der = (p.has_der key).0 in
        let digest = p.sha256 (der ++ salt) in
        verify_token_with_result p
          (to_verifying_key p key)
          (token_text p digest salt (p.sign key digest))
          verify_salt
        ≡ checked (verify_salt salt)
  unfolding verify_token_with_result check_parts check_salt check_digest check_signature
      signature_method to_der verify to_verifying_key
  verify-token_text key salt verify_salt =
      let der = (p.has_der key).0 in
      let digest = p.sha256 (der ++ salt) in
      let signature = p.sign key digest in
      rw (split-token_text digest salt signature, p.decode-encode salt)
        (elim (Bool-cases (verify_salt salt)) [
          | inr bad ↦ rw bad
          | inl good ↦ rw good (
              rw (
                (p.has_der key).1,
                text_eq_refl (p.encode digest),
                p.decode-encode signature,
                p.verify-sign key digest,
              ))
        ])

  pub generate-token_text :
      (key : p.SigningKey) (salt : Bytes)
      → let digest = p.sha256 ((p.has_der key).0 ++ salt) in
        generate_token_nonce p key salt ≡ some (token_text p digest salt (p.sign key digest))
  unfolding generate_token_nonce token_of
  generate-token_text key salt = rw (p.has_der key).1

  -- Every key makes a token for a nonce, and the token passes for that nonce under the key.
  pub token_accepted :
      (key : p.SigningKey) (nonce : Bytes)
      → (token : Bytes) × (generate_token_nonce p key nonce ≡ some token)
        × (verify_token_nonce p (to_verifying_key p key) token nonce ≡ valid)
  unfolding verify_token_nonce
  token_accepted key nonce = (
    _,
    generate-token_text key nonce,
    rw (verify-token_text key nonce (λ salt. text_eq salt nonce), text_eq_refl nonce),
  )

  -- A token of five parts or more between dots that proves its nonce: the method of the hash, the
  -- hash of the encoded key and the nonce, the nonce, the method of the key, and a signature of
  -- the hash under the key. The hash, the nonce and the signature are encoded.
  pub record Holds (key : VerifyingTokenKey p) (parts : List Bytes) (nonce : Bytes) : Type 0 where
    pub der : Bytes
    pub salt_part : Bytes
    pub signature_part : Bytes
    pub signature : Bytes
    pub more : List Bytes
    pub of_key : to_der p key ≡ some der
    pub as_parts :
        parts
        ≡ ascii "sha256"
          ∷ p.encode (p.sha256 (der ++ nonce))
          ∷ salt_part
          ∷ signature_method p key
          ∷ signature_part
          ∷ more
    pub salt_decoded : p.decode salt_part ≡ some nonce
    pub signature_decoded : p.decode signature_part ≡ some signature
    pub verified : verify p key (p.sha256 (der ++ nonce)) signature ≡ true

  check_signature-valid :
      (key : VerifyingTokenKey p) (digest : Bytes) (decoded : Option Bytes)
      → check_signature p key digest decoded ≡ valid
      → (signature : Bytes) × (decoded ≡ some signature) × (verify p key digest signature ≡ true)
  unfolding check_signature
  check_signature-valid key digest none h = absurd (ground (arith, h))
  check_signature-valid key digest (some signature) h = (
    signature,
    refl,
    elim (Bool-cases (verify p key digest signature)) [
      | inl good ↦ good
      | inr bad ↦ absurd (ground (arith, h, bad))
    ],
  )

  check_digest-valid :
      (key : VerifyingTokenKey p) (hash_base64 salt signature_base64 : Bytes) (der : Option Bytes)
      → check_digest p key hash_base64 salt signature_base64 der ≡ valid
      → (d : Bytes) × (signature : Bytes) × (der ≡ some d)
        × (hash_base64 ≡ p.encode (p.sha256 (d ++ salt)))
        × (p.decode signature_base64 ≡ some signature)
        × (verify p key (p.sha256 (d ++ salt)) signature ≡ true)
  unfolding check_digest
  check_digest-valid key hash_base64 salt signature_base64 none h = absurd (ground (arith, h))
  check_digest-valid key hash_base64 salt signature_base64 (some d) h =
      let expected = p.encode (p.sha256 (d ++ salt)) in
      elim (Bool-cases (text_eq expected hash_base64)) [
        | inr other ↦ absurd (ground (arith, h, other))
        | inl same ↦
            let s =
              check_signature-valid key (p.sha256 (d ++ salt)) (p.decode signature_base64)
                (sym (rw same refl) ∙ h) in
            (d, s.0, refl, sym ((text_eq_iff expected hash_base64).0 same), s.1, s.2)
      ]

  check_salt-valid :
      (key : VerifyingTokenKey p) (nonce hash_base64 signature_base64 salt_part : Bytes)
      (more : List Bytes) (decoded : Option Bytes)
      → p.decode salt_part ≡ decoded
      → check_salt p key (λ salt. text_eq salt nonce) hash_base64 signature_base64 decoded ≡ valid
      → Holds key
          (ascii "sha256"
            ∷ hash_base64
            ∷ salt_part
            ∷ signature_method p key
            ∷ signature_base64
            ∷ more)
          nonce
  unfolding check_salt
  check_salt-valid key nonce hash_base64 signature_base64 salt_part more none known h =
      absurd (ground (arith, h))
  check_salt-valid key nonce hash_base64 signature_base64 salt_part more (some salt) known h =
      elim (Bool-cases (text_eq salt nonce)) [
        | inr bad ↦ absurd (ground (arith, h, bad))
        | inl good ↦
            let same : salt ≡ nonce = (text_eq_iff salt nonce).0 good in
            let (der, signature, of_key, hash, decoded, verified) =
              check_digest-valid key hash_base64 salt signature_base64 (to_der p key)
                (sym (rw good refl) ∙ h) in
            record {
              der = der;
              salt_part = salt_part;
              signature_part = signature_base64;
              signature = signature;
              more = more;
              of_key = of_key;
              as_parts =
                  ap
                    (λ x.
                      ascii "sha256"
                      ∷ x
                      ∷ salt_part
                      ∷ signature_method p key
                      ∷ signature_base64
                      ∷ more)
                    (hash ∙ ap (λ n. p.encode (p.sha256 (der ++ n))) same);
              salt_decoded = known ∙ ap some same;
              signature_decoded = decoded;
              verified =
                  subst (λ n. verify p key (p.sha256 (der ++ n)) signature ≡ true) same verified;
            }
      ]

  check_parts-valid :
      (key : VerifyingTokenKey p) (nonce : Bytes) (parts : List Bytes)
      → check_parts p key (λ salt. text_eq salt nonce) parts ≡ valid
      → Holds key parts nonce
  unfolding check_parts
  check_parts-valid key nonce [] h = absurd (ground (arith, h))
  check_parts-valid key nonce (a ∷ []) h = absurd (ground (arith, h))
  check_parts-valid key nonce (a ∷ b ∷ []) h = absurd (ground (arith, h))
  check_parts-valid key nonce (a ∷ b ∷ c ∷ []) h = absurd (ground (arith, h))
  check_parts-valid key nonce (a ∷ b ∷ c ∷ d ∷ []) h = absurd (ground (arith, h))
  check_parts-valid key nonce (a ∷ b ∷ c ∷ d ∷ e ∷ rest) h =
      elim (Bool-cases (text_eq a (ascii "sha256"))) [
        | inr other ↦ absurd (ground (arith, h, other))
        | inl sha256 ↦ elim (Bool-cases (text_eq d (signature_method p key))) [
          | inr other ↦ absurd (ground (arith, h, sha256, other))
          | inl method ↦
              let by_sha256 = sym ((text_eq_iff a (ascii "sha256")).0 sha256) in
              let by_key = sym ((text_eq_iff d (signature_method p key)).0 method) in
              subst (λ x. Holds key (x ∷ b ∷ c ∷ d ∷ e ∷ rest) nonce) by_sha256
                (subst (λ y. Holds key (ascii "sha256" ∷ b ∷ c ∷ y ∷ e ∷ rest) nonce) by_key
                  (check_salt-valid key nonce b e c rest (p.decode c) refl
                    (sym (rw (sha256, method) refl) ∙ h)))
        ]
      ]

  -- A token passes for a nonce only if its parts hold this nonce, the hash of the encoded key and
  -- the nonce, and a signature of that hash under the key.
  pub token_sound :
      (key : VerifyingTokenKey p) (token nonce : Bytes)
      → verify_token_nonce p key token nonce ≡ valid
      → Holds key (split dot token) nonce
  unfolding verify_token_nonce verify_token_with_result
  token_sound key token nonce h = check_parts-valid key nonce (split dot token) h

  check_parts-panicked :
      (key : VerifyingTokenKey p) (verify_salt : Bytes → Bool) (parts : List Bytes)
      → (check_parts p key verify_salt parts ≡ panicked) ↔ (length parts < 5)
  unfolding check_parts check_salt check_digest check_signature
  check_parts-panicked key verify_salt [] = (λ h. omega arith, λ h. refl)
  check_parts-panicked key verify_salt (a ∷ []) = (λ h. omega arith, λ h. refl)
  check_parts-panicked key verify_salt (a ∷ b ∷ []) = (λ h. omega arith, λ h. refl)
  check_parts-panicked key verify_salt (a ∷ b ∷ c ∷ []) = (λ h. omega arith, λ h. refl)
  check_parts-panicked key verify_salt (a ∷ b ∷ c ∷ d ∷ []) = (λ h. omega arith, λ h. refl)
  check_parts-panicked key verify_salt (a ∷ b ∷ c ∷ d ∷ e ∷ rest) =
      (λ h. absurd (ground (arith, h)), λ h. absurd (omega arith))

  -- The check of a token, whatever it asks of the salt, panics exactly when the token has fewer
  -- than four dots.
  pub panics_iff :
      (key : VerifyingTokenKey p) (token : Bytes) (verify_salt : Bytes → Bool)
      → (verify_token_with_result p key token verify_salt ≡ panicked) ↔ (count dot token < 4)
  unfolding verify_token_with_result
  panics_iff key token verify_salt =
      ground (arith, check_parts-panicked key verify_salt (split dot token), length-split dot token)
