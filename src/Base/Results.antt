-- ===== src/Base/Results.antt =====
-- The `NTSTATUS` values that the components return.
use mathlib.Core.Bool.{Bool, true, false}

pub data Status : Type 0 where
  success : Status
  pending : Status
  insufficient_resources : Status
  invalid_parameter : Status
  invalid_parameter_2 : Status
  invalid_parameter_3 : Status
  delete_pending : Status
  more_processing_required : Status

-- `NT_SUCCESS`.
abbrev pub nt_success : Status → Bool
nt_success success = true
nt_success pending = true
nt_success _ = false
