-- ===== src/Model.antt =====
-- The data that the endpoints exchange: packages/core/src/model/transfer.rs and discovery.rs,
-- packages/core/src/http/dto_v2.rs and state.rs. An IP address is its 32 or 128 bits.
use aika.Common.{ℕ, ◌≡◌, refl, ◌↔◌, String, Bool, true, false, Option, arith, nat_eq, nat_eq_iff}
use aika.Common.{PartialEq}
use aika.Common.HashMap.{HashMap}

pub data IpAddr : Type 0 where
  v4 : ℕ → IpAddr
  v6 : ℕ → IpAddr

abbrev pub ip_eq : IpAddr → IpAddr → Bool
ip_eq (v4 a) (v4 b) = nat_eq a b
ip_eq (v6 a) (v6 b) = nat_eq a b
ip_eq _ _ = false

pub ip_eq_iff : (a b : IpAddr) → (ip_eq a b ≡ true) ↔ (a ≡ b)
ip_eq_iff (v4 a) (v4 b) = ground (arith, nat_eq_iff a b)
ip_eq_iff (v4 a) (v6 b) = ground arith
ip_eq_iff (v6 a) (v4 b) = ground arith
ip_eq_iff (v6 a) (v6 b) = ground (arith, nat_eq_iff a b)

instance abbrev pub ip_Eq : PartialEq IpAddr
ip_Eq = record {
  eq = ip_eq;
  reflexive = λ a. (ip_eq_iff a a).1 refl;
  sound = λ a b. (ip_eq_iff a b).0;
}

pub data DeviceType : Type 0 where
  mobile desktop web headless server : DeviceType

pub record FileMetadata : Type 0 where
  pub modified : Option String
  pub accessed : Option String

pub record FileDto : Type 0 where
  pub id : String
  pub file_name : String
  pub size : ℕ
  pub file_type : String
  pub sha256 : Option String
  pub preview : Option String
  pub metadata : Option FileMetadata

pub data ProtocolTypeV2 : Type 0 where
  http https : ProtocolTypeV2

pub record RegisterDtoV2 : Type 0 where
  pub alias : String
  pub version : String
  pub device_model : Option String
  pub device_type : Option DeviceType
  pub fingerprint : String
  pub port : ℕ
  pub protocol : ProtocolTypeV2
  pub download : Bool
  pub app_build : Option ℕ

pub record PrepareUploadResponseDtoV2 : Type 0 where
  pub session_id : String
  pub files : HashMap String String
  pub app_build : Option ℕ
