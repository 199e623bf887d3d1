-- ===== src/V3.antt =====
-- The exchange of nonces between the v3 client and server: packages/core/src/http/server/v3.rs,
-- `LsHttpClientV3::nonce` of packages/core/src/http/client/v3.rs, and the identifiers of
-- packages/core/src/http/server/mod.rs. The new nonces, the parsed bodies and what the crates say of
-- certificates are arguments. Texts of nonces are their bytes.
pub mod Agreement
mod Tests
use aika.Common.{◌≡◌, ◌≢◌, ◌⊎◌, String, Bool, Option, none, some, if◌then◌else◌}
use mathlib.Core.Option
use aika.Model.{IpAddr}
use aika.Http.{AppError, bad_request, Result, ok, err}
use aika.Save.{Bytes}
use aika.Crypto.{Primitives, validate_nonce}
use aika.V2.Endpoint.{RequestClientInfo}

-- `lru::LruCache<String, Vec<u8>>`: what its documentation says of `put`. A new entry may evict
-- another one.
pub record NonceCache (Cache : Type 0) : Type 0 where
  pub peek : String → Cache → Option Bytes
  pub put : String → Bytes → Cache → Cache
  pub peek-put :
      (key : String) (nonce : Bytes) (c : Cache) → peek key (put key nonce c) ≡ some nonce
  pub peek-put_other :
      (key other : String) (nonce : Bytes) (c : Cache)
      → key ≢ other
      → (peek other (put key nonce c) ≡ peek other c) ⊎ (peek other (put key nonce c) ≡ none)

-- The two maps that the server's and the client's state hold.
pub record NonceMaps (Cache : Type 0) : Type 0 where
  pub received_nonce_map : Cache
  pub generated_nonce_map : Cache

abbrev pub or_ip : Option String → String → String
or_ip none ip = ip
or_ip (some public_key) ip = public_key

-- `RequestClientInfo::identifier`, where `public_key` reads a certificate.
abbrev pub identifier : (Bytes → Option String) → (IpAddr → String) → RequestClientInfo → String
identifier public_key to_string client =
    or_ip (Option.bind client.cert public_key) (to_string client.ip)

module _ (p : Primitives) {Cache : Type 0} ⦃lru : NonceCache Cache⦄ where
  abbrev pub save_nonces : String → Bytes → Bytes → NonceMaps Cache → NonceMaps Cache
  save_nonces key received generated maps = record {
    received_nonce_map = lru.put key received maps.received_nonce_map;
    generated_nonce_map = lru.put key generated maps.generated_nonce_map;
  }

  abbrev pub answer_nonce :
      String → Bytes → Option Bytes → NonceMaps Cache → Result Bytes × NonceMaps Cache
  answer_nonce remote_key new_nonce none maps = (err (bad_request "Invalid nonce format"), maps)
  answer_nonce remote_key new_nonce (some nonce) maps =
      if validate_nonce nonce
      then (ok (p.encode new_nonce), save_nonces remote_key nonce new_nonce maps)
      else (err (bad_request "Invalid nonce"), maps)

  -- The server's handler.
  unfoldable pub nonce_exchange :
      String → Bytes → Result Bytes → NonceMaps Cache → Result Bytes × NonceMaps Cache
  unfolding validate_nonce
  nonce_exchange remote_key new_nonce (err e) maps = (err e, maps)
  nonce_exchange remote_key new_nonce (ok nonce) maps =
      answer_nonce remote_key new_nonce (p.decode nonce) maps

  abbrev pub save_answer :
      String → Bytes → Bytes → Option Bytes → NonceMaps Cache → Option Bytes × NonceMaps Cache
  save_answer remote_key generated answer none maps = (none, maps)
  save_answer remote_key generated answer (some nonce) maps =
      (some answer, save_nonces remote_key nonce generated maps)

  -- The client's method behind its request: `remote_key` is none where `to_identifier` fails, and
  -- `answer` an error where the request does, or has another status or another body.
  unfoldable pub receive_answer :
      Bytes → Option String → Result Bytes → NonceMaps Cache → Option Bytes × NonceMaps Cache
  receive_answer generated remote_key (err e) maps = (none, maps)
  receive_answer generated none (ok answer) maps = (none, maps)
  receive_answer generated (some remote_key) (ok answer) maps =
      save_answer remote_key generated answer (p.decode answer) maps
