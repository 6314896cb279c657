-- ===== src/Util/Status.antt =====
-- src/util/status.h: `StatusCode`, `Status` and `StatusWith<T>`. A `Status` is its code.
use graph_store.Prelude.{Bool, true, false}

pub data StatusCode : Type 0 where
  success error no_action does_not_exist invalid no_space wrong_partition partition_fail :
      StatusCode

-- `Status::operator bool`
abbrev pub is_success : StatusCode → Bool
is_success StatusCode.success = true
is_success _ = false

-- A result, or the code that stands in its place.
pub data StatusWith {ℓ} (T : Type ℓ) : Type ℓ where
  with_result : T → StatusWith T
  without_result : StatusCode → StatusWith T

-- `StatusWith<T>::getCode`
abbrev pub get_code {ℓ} : {T : Type ℓ} → StatusWith T → StatusCode
get_code (with_result r) = StatusCode.success
get_code (without_result c) = c
