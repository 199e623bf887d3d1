-- ===== src/Webrtc/Tests/Formats.antt =====
-- A format of messages, in place of serde_json, for runs of packages/core/src/webrtc/webrtc.rs.
use Prim.Native.Char.{Char, char, code, IsLt, IsScalar, nul}
use Prim.Native.Nat.{compare, Ordering}
use text.Mathlib.TextEquality.{Char-path}
use aika.Common.{
  ℕ, zero, suc, ◌<◌, ◌≡◌, refl, ap, ◌∙◌, String, Option, none, some, [], ◌∷◌, ◌++◌, length, take,
  drop, take-append, take_all, drop-append, drop_all, arith,
}
use aika.Save.{Bytes}
use aika.Webrtc.{Serde, RtcSendFileHeaderRequest}
use aika.Webrtc.Pin.{RtcPinMessage}
use aika.Webrtc.Handshake.{
  RtcNonceMessage, RtcTokenRequest, RtcTokenResponse, ok, pin_required, invalid_signature, Formats,
}

abbrev pub codes : String → Bytes
codes String.[] = []
codes (String.◌∷◌ c s) = code c ∷ codes s

abbrev pub Both : Ordering → Ordering → Type 0
Both Ordering.lt o = IsLt o
Both Ordering.eq _ = ⊥
Both Ordering.gt _ = ⊥

abbrev pub Scalar : Ordering → Ordering → Ordering → Type 0
Scalar Ordering.lt _ _ = Unit
Scalar Ordering.eq o p = Both o p
Scalar Ordering.gt o p = Both o p

abbrev pub is_lt : (o : Ordering) → Dec (IsLt o)
is_lt Ordering.lt = yes tt
is_lt Ordering.eq = no (λ h. h)
is_lt Ordering.gt = no (λ h. h)

abbrev pub are_both : (o p : Ordering) → Dec (Both o p)
are_both Ordering.lt p = is_lt p
are_both Ordering.eq _ = no (λ h. h)
are_both Ordering.gt _ = no (λ h. h)

abbrev pub is_scalar : (o p q : Ordering) → Dec (Scalar o p q)
is_scalar Ordering.lt _ _ = yes tt
is_scalar Ordering.eq p q = are_both p q
is_scalar Ordering.gt p q = are_both p q

abbrev pub to_char : (n : ℕ) → Dec (IsScalar n) → Char
to_char n (yes h) = char n h
to_char n (no _) = nul

abbrev pub char_of : ℕ → Char
char_of n = to_char n (is_scalar (compare n 55296) (compare 57343 n) (compare n 1114112))

to_char-code : (c : Char) (d : Dec (IsScalar (code c))) → to_char (code c) d ≡ c
to_char-code c (yes h) = Char-path _ c refl
to_char-code (char n h) (no not_one) = absurd (not_one h)

char_of-code : (c : Char) → char_of (code c) ≡ c
char_of-code c = to_char-code c _

abbrev pub text_of : Bytes → String
text_of [] = String.[]
text_of (n ∷ bytes) = String.◌∷◌ (char_of n) (text_of bytes)

text_of-codes : (s : String) → text_of (codes s) ≡ s
text_of-codes String.[] = refl
text_of-codes (String.◌∷◌ c s) =
    ap (λ d. String.◌∷◌ d (text_of (codes s))) (char_of-code c)
    ∙ ap (λ r. String.◌∷◌ c r) (text_of-codes s)

abbrev pub header_to_string : RtcSendFileHeaderRequest → Bytes
header_to_string h = b'{' ∷ length (codes h.id) ∷ (codes h.id ++ codes h.token)

abbrev pub header_from_slice : Bytes → Option RtcSendFileHeaderRequest
header_from_slice [] = none
header_from_slice (b ∷ []) = none
header_from_slice (b ∷ n ∷ rest) =
    some (record { id = text_of (take n rest); token = text_of (drop n rest) })

pub header_from-to :
    (h : RtcSendFileHeaderRequest) → header_from_slice (header_to_string h) ≡ some h
header_from-to h =
    let n = length (codes h.id) in
    let front = take-append n (codes h.id) (codes h.token) (omega arith) in
    let back = drop-append n (codes h.id) (codes h.token) (omega arith) in
    rw (
      front,
      back,
      take_all n (codes h.id) (omega arith),
      drop_all n (codes h.id) (omega arith),
      text_of-codes h.id,
      text_of-codes h.token,
    )

abbrev pub header_format : Serde RtcSendFileHeaderRequest
header_format = record {
  to_string = header_to_string;
  from_slice = header_from_slice;
  from-to = header_from-to;
  has_braces = λ h. omega arith;
  not_zero = refl;
}

abbrev pub pin_from_slice : Bytes → Option RtcPinMessage
pin_from_slice [] = none
pin_from_slice (b ∷ []) = none
pin_from_slice (b ∷ c ∷ rest) = some (record { pin = text_of rest })

pub pin_from-to : (m : RtcPinMessage) → pin_from_slice (b'{' ∷ b'}' ∷ codes m.pin) ≡ some m
pin_from-to m = rw (text_of-codes m.pin)

abbrev pub pin_format : Serde RtcPinMessage
pin_format = record {
  to_string = λ m. b'{' ∷ b'}' ∷ codes m.pin;
  from_slice = pin_from_slice;
  from-to = pin_from-to;
  has_braces = λ m. omega arith;
  not_zero = refl;
}

-- The messages of the handshake, whose texts are bytes already.
abbrev pub nonce_from_slice : Bytes → Option RtcNonceMessage
nonce_from_slice [] = none
nonce_from_slice (b ∷ []) = none
nonce_from_slice (b ∷ c ∷ rest) = some (record { nonce = rest })

abbrev pub request_from_slice : Bytes → Option RtcTokenRequest
request_from_slice [] = none
request_from_slice (b ∷ []) = none
request_from_slice (b ∷ c ∷ rest) = some (record { token = rest })

abbrev pub response_to_string : RtcTokenResponse → Bytes
response_to_string (ok token) = 0 ∷ b'}' ∷ token
response_to_string (pin_required token) = 1 ∷ b'}' ∷ token
response_to_string invalid_signature = 2 ∷ b'}' ∷ []

abbrev pub response_from_slice : Bytes → Option RtcTokenResponse
response_from_slice [] = none
response_from_slice (b ∷ []) = none
response_from_slice (zero ∷ c ∷ rest) = some (ok rest)
response_from_slice (suc zero ∷ c ∷ rest) = some (pin_required rest)
response_from_slice (suc (suc n) ∷ c ∷ rest) = some invalid_signature

pub response_from-to : (r : RtcTokenResponse) → response_from_slice (response_to_string r) ≡ some r
response_from-to (ok token) = refl
response_from-to (pin_required token) = refl
response_from-to invalid_signature = refl

pub response_has_braces : (r : RtcTokenResponse) → 1 < length (response_to_string r)
response_has_braces (ok token) = omega arith
response_has_braces (pin_required token) = omega arith
response_has_braces invalid_signature = omega arith

abbrev pub handshake_formats : Formats
handshake_formats = record {
  nonces = record {
    to_string = λ m. b'{' ∷ b'}' ∷ m.nonce;
    from_slice = nonce_from_slice;
    from-to = λ m. refl;
    has_braces = λ m. omega arith;
    not_zero = refl;
  };
  requests = record {
    to_string = λ m. b'{' ∷ b'}' ∷ m.token;
    from_slice = request_from_slice;
    from-to = λ m. refl;
    has_braces = λ m. omega arith;
    not_zero = refl;
  };
  responses = record {
    to_string = response_to_string;
    from_slice = response_from_slice;
    from-to = response_from-to;
    has_braces = response_has_braces;
    not_zero = refl;
  };
}
