-- ===== src/Wire/Message/Bandwidth.antt =====
-- The estimations of the bandwidth that `receiveNetworkMessage` and `sendNetworkMessage` of
-- src/sharedstate.cc make with `MbitPerSec`.
use native.Mathlib.Nat.{div-le_self}
use shared_state_async.Prelude.{
  ℕ, zero, suc, ◌-◌, ◌*◌, ◌/◌, ◌%◌, ◌^◌, ◌≤◌, ◌<◌, ltb, leb, if◌then◌else◌, ◌≡◌, true, false, refl,
  arith, Bool-cases, inl, inr, ap,
}
use shared_state_async.Errors.{ok, crash}
use shared_state_async.Wire.Message.{mbit_per_sec, bandwidth}

-- Bits over microseconds, 1 where that is 0.
abbrev pub rate : ℕ → ℕ → ℕ
rate byte_count us = if ltb 1 (byte_count * 8 / us) then byte_count * 8 / us else 1

at_least_one : (q : ℕ) → 1 ≤ (if ltb 1 q then q else 1)
at_least_one q = ground arith

no_wrap :
    (q bits : ℕ)
    → q ≤ bits
    → bits < 2 ^ 32
    → (if ltb 1 q then q else 1) % 2 ^ 32 ≡ (if ltb 1 q then q else 1)
no_wrap q bits h k = ground arith

mbit_per_sec-rate :
    (byte_count us : ℕ) → 1 ≤ us → mbit_per_sec byte_count us ≡ ok (rate byte_count us)
unfolding mbit_per_sec
mbit_per_sec-rate byte_count zero h = absurd (omega arith)
mbit_per_sec-rate byte_count (suc m) h = refl

-- The estimation, for less than 2 ^ 29 bytes. Where the clock has not moved on the old value is
-- kept. Where it has moved by a microsecond at least, the new value is the number of bits over the
-- number of whole microseconds, or 1 where that is 0: it does not wrap and is not 0. Where it has
-- moved by less, the number of microseconds is 0 and the division by it is undefined.
pub bandwidth_lem :
    (byte_count begin_tp end_tp old : ℕ)
    → byte_count < 2 ^ 29
    → let us = (end_tp - begin_tp) / 1000 in
      (bandwidth byte_count begin_tp end_tp old ≡ (
        if leb end_tp begin_tp
        then ok old
        else if ltb (end_tp - begin_tp) 1000
        then crash
        else ok (rate byte_count us)))
      × (1 ≤ rate byte_count us)
unfolding bandwidth mbit_per_sec
bandwidth_lem n b e old h =
    let us = (e - b) / 1000 in
    (
      elim (Bool-cases (ltb b e)) [
        | inr still ↦ let t : leb e b ≡ true = ground arith in rw (still, t) refl
        | inl moved ↦
            let t : leb e b ≡ false = ground arith in
            elim (Bool-cases (ltb (e - b) 1000)) [
              | inl less ↦ let no_us : us ≡ 0 = ground arith in rw (moved, t, less, no_us) refl
              | inr more ↦
                  let some_us : 1 ≤ us = ground arith in
                  rw (moved, t, more, mbit_per_sec-rate n us some_us)
                    (ap ok (no_wrap (n * 8 / us) (n * 8) (div-le_self (n * 8) us) (omega arith)))
            ]
      ],
      at_least_one (n * 8 / us),
    )
