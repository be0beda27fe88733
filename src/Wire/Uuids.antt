-- ===== src/Wire/Uuids.antt =====
-- protocols/rttx-proto/src/lib.rs: `uuid_to_bytes` and `bytes_to_uuid`. The `uuid` crate is a parameter.
use rttx.Common.{ℕ, ◌≡◌, Uuid, List, length, ◌==◌, if◌then◌else◌, arith, Result, ok, err}
use rttx.Common.Text.{Text}

-- `Uuid::as_bytes`, `Uuid::from_bytes` and `Uuid::to_string`: the sixteen bytes of a UUID determine it.
pub record UuidLib : Type 0 where
  pub as_bytes : Uuid → List ℕ
  pub from_bytes : List ℕ → Uuid
  pub to_string : Uuid → Text
  pub length-as_bytes : (id : Uuid) → length (as_bytes id) ≡ 16
  pub from_bytes-as_bytes : (id : Uuid) → from_bytes (as_bytes id) ≡ id

pub data FrameError : Type 0 where
  too_large : ℕ → FrameError
  incomplete : FrameError
  decode_error : FrameError
  invalid_uuid : ℕ → FrameError

module _ (lib : UuidLib) where
  unfoldable pub uuid_to_bytes : Uuid → List ℕ
  uuid_to_bytes id = lib.as_bytes id

  unfoldable pub bytes_to_uuid : List ℕ → Result Uuid FrameError
  bytes_to_uuid bytes =
      if length bytes == 16 then ok (lib.from_bytes bytes) else err (invalid_uuid (length bytes))

  -- A UUID comes back from its bytes.
  pub bytes_to_uuid-uuid_to_bytes : (id : Uuid) → bytes_to_uuid (uuid_to_bytes id) ≡ ok id
  unfolding uuid_to_bytes bytes_to_uuid
  bytes_to_uuid-uuid_to_bytes id =
      ground (arith, lib.length-as_bytes id, lib.from_bytes-as_bytes id)
