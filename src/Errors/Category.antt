-- ===== src/Errors/Category.antt =====
-- The error category of include/shared_state_errors.hh. The text of an error of another category is
-- a parameter.
use shared_state_async.Prelude.{ℕ, ◌==◌, if◌then◌else◌}
use shared_state_async.Prelude.Bytes.{Bytes, bytes}

-- `SharedStateErrors::UNKOWN_DATA_TYPE`, the only one.
abbrev pub unkown_data_type_value : ℕ
unkown_data_type_value = 2000

abbrev pub name : Bytes
name = bytes "SharedState"

-- An error condition: its value and the name of its category.
pub record ErrorCondition : Type 0 where
  pub value : ℕ
  pub category : Bytes

unfoldable pub message : (ℕ → Bytes → Bytes) → ℕ → Bytes
message rs_error_not_in_category ev =
    if ev == unkown_data_type_value
    then bytes "Unknown data type"
    else rs_error_not_in_category ev name

unfoldable pub make_error_condition : ℕ → ErrorCondition
make_error_condition e = record { value = e; category = name }
