-- ===== src/V3/Agreement.antt =====
-- What an exchange of nonces leaves on both sides: packages/core/src/http/server/v3.rs and
-- packages/core/src/http/client/v3.rs.
use aika.Common.{
  ◌≡◌, ◌⊎◌, refl, sym, ap, ◌∙◌, inl, inr, String, true, false, Option, none, some, arith,
  Bool-cases, ◌==◌, string_Eq, ==→≡, ==_false→ne,
}
use aika.Http.{Result, ok, err}
use aika.Save.{Bytes}
use aika.Crypto.{Primitives, validate_nonce}
use aika.V3.{NonceCache, NonceMaps, save_nonces, answer_nonce, nonce_exchange, receive_answer}

module _ (p : Primitives) {Cache : Type 0} ⦃lru : NonceCache Cache⦄ where
  -- The nonces that a side holds for the other one.
  pub record Holds (key : String) (received generated : Bytes) (maps : NonceMaps Cache)
      : Type 0 where
    pub received_nonce : lru.peek key maps.received_nonce_map ≡ some received
    pub generated_nonce : lru.peek key maps.generated_nonce_map ≡ some generated

  save_nonces-Holds :
      (key : String) (received generated : Bytes) (maps : NonceMaps Cache)
      → Holds key received generated (save_nonces p key received generated maps)
  save_nonces-Holds key received generated maps = record {
    received_nonce = lru.peek-put key received maps.received_nonce_map;
    generated_nonce = lru.peek-put key generated maps.generated_nonce_map;
  }

  -- The request of a client, the answer, and what both sides have after it.
  abbrev pub exchange :
      (client_key server_key : String) (client_nonce server_nonce : Bytes)
      → NonceMaps Cache
      → NonceMaps Cache
      → Option Bytes × NonceMaps Cache × NonceMaps Cache
  exchange client_key server_key client_nonce server_nonce client server =
      let (answer, served) =
        nonce_exchange p client_key server_nonce (ok (p.encode client_nonce)) server in
      let (result, saved) = receive_answer p client_nonce (some server_key) answer client in
      (result, saved, served)

  -- If the client's nonce has a valid length, an exchange succeeds and each side then holds for
  -- the other, under the other's identifier, the nonce that it made and the one that the other
  -- made. If not, the client gets an error, and neither side's maps change. The requests reach the
  -- other side.
  pub exchange_agrees :
      (client_key server_key : String) (client_nonce server_nonce : Bytes)
      (client server : NonceMaps Cache)
      → let (result, saved, served) =
          exchange client_key server_key client_nonce server_nonce client server in
        ((validate_nonce client_nonce ≡ true)
          × (result ≡ some (p.encode server_nonce))
          × Holds server_key server_nonce client_nonce saved
          × Holds client_key client_nonce server_nonce served)
        ⊎ ((validate_nonce client_nonce ≡ false)
            × (result ≡ none)
            × (saved ≡ client)
            × (served ≡ server))
  unfolding nonce_exchange receive_answer
  exchange_agrees client_key server_key client_nonce server_nonce client server =
      elim (Bool-cases (validate_nonce client_nonce)) [
        | inl accepted ↦
            rw (p.decode-encode client_nonce, accepted, p.decode-encode server_nonce)
              (inl (
                refl,
                refl,
                save_nonces-Holds server_key server_nonce client_nonce client,
                save_nonces-Holds client_key client_nonce server_nonce server,
              ))
        | inr refused ↦ rw (p.decode-encode client_nonce, refused) (inr (refl, refl, refl, refl))
      ]

  -- Every nonce that a side has received has a valid length.
  abbrev pub IsValid : NonceMaps Cache → Type 0
  IsValid maps =
      (key : String) (nonce : Bytes)
      → lru.peek key maps.received_nonce_map ≡ some nonce
      → validate_nonce nonce ≡ true

  save_nonces-IsValid :
      (key : String) (received generated : Bytes) (maps : NonceMaps Cache)
      → validate_nonce received ≡ true
      → IsValid maps
      → IsValid (save_nonces p key received generated maps)
  save_nonces-IsValid key received generated maps fits valid other nonce held =
      elim (Bool-cases (key == other)) [
        | inl same ↦
            let now : lru.peek other (lru.put key received maps.received_nonce_map)
                ≡ some received =
              ap (λ k. lru.peek k (lru.put key received maps.received_nonce_map))
                (sym (==→≡ key other same))
              ∙ lru.peek-put key received maps.received_nonce_map in
            let itself : nonce ≡ received = ap (λ o. nonce_or nonce o) (sym held ∙ now) in
            ap validate_nonce itself ∙ fits
        | inr differs ↦
            elim (lru.peek-put_other key other received maps.received_nonce_map
              (==_false→ne key other differs)) [
                | inl kept ↦ valid other nonce (sym kept ∙ held)
                | inr evicted ↦
                    let nothing : none ≡ some nonce = sym evicted ∙ held in
                    absurd (ground (arith, nothing))
              ]
      ]
    where
      nonce_or : Bytes → Option Bytes → Bytes
      nonce_or n none = n
      nonce_or n (some m) = m

  answer_nonce-IsValid :
      (key : String) (new_nonce : Bytes) (decoded : Option Bytes) (maps : NonceMaps Cache)
      → IsValid maps
      → IsValid (answer_nonce p key new_nonce decoded maps).1
  answer_nonce-IsValid key new_nonce none maps valid = valid
  answer_nonce-IsValid key new_nonce (some nonce) maps valid =
      elim (Bool-cases (validate_nonce nonce)) [
        | inl fits ↦ rw fits (save_nonces-IsValid key nonce new_nonce maps fits valid)
        | inr refused ↦ rw refused valid
      ]

  -- Whatever a client sends, the server holds only nonces of a valid length.
  nonce_exchange-IsValid :
      (key : String) (new_nonce : Bytes) (payload : Result Bytes) (maps : NonceMaps Cache)
      → IsValid maps
      → IsValid (nonce_exchange p key new_nonce payload maps).1
  unfolding nonce_exchange
  nonce_exchange-IsValid key new_nonce (err e) maps valid = valid
  nonce_exchange-IsValid key new_nonce (ok nonce) maps valid =
      answer_nonce-IsValid key new_nonce (p.decode nonce) maps valid

  -- The client keeps what a server answers, of whatever length.
  receive_answer_any :
      (remote_key : String) (client_nonce server_nonce : Bytes) (maps : NonceMaps Cache)
      → Holds remote_key server_nonce client_nonce
          (receive_answer p client_nonce (some remote_key) (ok (p.encode server_nonce)) maps).1
  unfolding receive_answer
  receive_answer_any remote_key client_nonce server_nonce maps =
      rw (p.decode-encode server_nonce)
        (save_nonces-Holds remote_key server_nonce client_nonce maps)
