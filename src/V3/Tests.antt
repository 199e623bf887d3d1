-- ===== src/V3/Tests.antt =====
-- A run of the exchange of nonces: packages/core/src/http/server/v3.rs.
use aika.Common.{
  ◌≢◌, ℕ, zero, suc, ◌≡◌, refl, ◌⊎◌, inl, true, false, String, none, some, [], ◌∷◌, arith,
  string_Eq, ==_refl, ne→==_false,
}
use aika.Common.HashMap.{HashMap, get, insert, get-insert}
use aika.Http.{ok, err, bad_request}
use aika.Save.{Bytes}
use aika.Crypto.{validate_nonce}
use aika.Crypto.Sample.{plain}
use aika.V3.{NonceCache, NonceMaps, nonce_exchange}
use aika.V3.Agreement.{Holds, exchange, exchange_agrees}

peek-put :
    (key : String) (nonce : Bytes) (c : HashMap String Bytes)
    → get key (insert key nonce c) ≡ some nonce
peek-put key nonce c = ground (arith, get-insert key key nonce c, ==_refl key)

peek-put_other :
    (key other : String) (nonce : Bytes) (c : HashMap String Bytes)
    → key ≢ other
    → get other (insert key nonce c) ≡ get other c
peek-put_other key other nonce c h =
    ground (arith, get-insert key other nonce c, ne→==_false key other h)

-- Maps that evict nothing.
instance abbrev nonces : NonceCache (HashMap String Bytes)
nonces = record {
  peek = λ key c. get key c;
  put = λ key nonce c. insert key nonce c;
  peek-put = peek-put;
  peek-put_other = λ key other nonce c h. inl (peek-put_other key other nonce c h);
}

abbrev nonce_of : ℕ → Bytes
nonce_of zero = []
nonce_of (suc n) = 7 ∷ nonce_of n

abbrev no_nonces : NonceMaps (HashMap String Bytes)
no_nonces = record { received_nonce_map = []; generated_nonce_map = [] }

exchange_agrees_example :
    let (result, saved, served) =
      exchange plain "10.0.0.7" "10.0.0.8" (nonce_of 32) (nonce_of 33) no_nonces no_nonces in
    ((validate_nonce (nonce_of 32) ≡ true)
      × (result ≡ some (plain.encode (nonce_of 33)))
      × Holds plain "10.0.0.8" (nonce_of 33) (nonce_of 32) saved
      × Holds plain "10.0.0.7" (nonce_of 32) (nonce_of 33) served)
    ⊎ ((validate_nonce (nonce_of 32) ≡ false)
        × (result ≡ none)
        × (saved ≡ no_nonces)
        × (served ≡ no_nonces))
exchange_agrees_example =
    exchange_agrees plain "10.0.0.7" "10.0.0.8" (nonce_of 32) (nonce_of 33) no_nonces no_nonces

-- A short nonce is refused.
short_nonce :
    (nonce_exchange plain "10.0.0.7" (nonce_of 32) (ok (plain.encode (nonce_of 15))) no_nonces).0
    ≡ err (bad_request "Invalid nonce")
unfolding nonce_exchange
short_nonce = refl
