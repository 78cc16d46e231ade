-- ===== src/Errors.antt =====
-- Errors: include/shared_state_errors.hh, the `std::errc` values that the code raises, and `errno`.
-- `fail e` stands for the call `rs_error_bubble_or_exit(e, errbub)` followed by the return of the
-- failure value; whether the process goes on after it is decided by that macro, which is not
-- part of this repository. `throw` is a C++ exception that leaves the function, and `crash` an
-- undefined behaviour, here a division by zero.
pub mod Category
use shared_state_async.Prelude.{◌≡◌, refl, ◌⊎◌, inl, inr}

pub data Error : Type 0 where
  unkown_data_type : Error
  invalid_argument bad_message message_size protocol_error : Error
  bad_address io_error no_such_file_or_directory state_not_recoverable : Error
  errno : Error

pub data Result {ℓ} (A : Type ℓ) : Type ℓ where
  ok : A → Result A
  fail : Error → Result A
  throw crash : Result A

infixl 10 ◌>>=◌
abbrev pub ◌>>=◌ {ℓ κ} : {A : Type ℓ} {B : Type κ} → Result A → (A → Result B) → Result B
ok a >>= f = f a
fail e >>= f = fail e
throw >>= f = throw
crash >>= f = crash

pub Result-cases {ℓ} :
    {A : Type ℓ} (r : Result A)
    → ((a : A) × (r ≡ ok a)) ⊎ (((e : Error) × (r ≡ fail e)) ⊎ ((r ≡ throw) ⊎ (r ≡ crash)))
Result-cases (ok a) = inl (a, refl)
Result-cases (fail e) = inr (inl (e, refl))
Result-cases throw = inr (inr (inl refl))
Result-cases crash = inr (inr (inr refl))
