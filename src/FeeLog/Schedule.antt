-- ===== src/FeeLog/Schedule.antt =====
-- models/vesting.go: ComputeVestingShouldReleased.
use crynux_relay_wallet.Base.{
  ℕ, suc, ◌-◌, ◌*◌, ◌/◌, ◌^◌, ◌≤◌, ◌<◌, ◌||◌, arith, leb, ◌==◌, if◌then◌else◌,
}
use crynux_relay_wallet.Int.{ℤ, pos, negsuc, pos_part, ◌-ℤ◌, ◌≤ℤ◌, ltb_ℤ, leb_ℤ}
use native.Mathlib.Nat.{div-lt_iff_lt-mul, le-div_iff_mul-le, div-mul-le_self, mul-le-mul_left}

-- The UTC day of a time in seconds.
abbrev pub day_of : ℤ → ℤ
day_of (pos n) = pos (n / 86400)
day_of (negsuc n) = negsuc (n / 86400)

-- A `time.Duration` counts nanoseconds in 63 bits: `Sub` stops at that many whole days.
abbrev pub max_duration_days : ℕ
max_duration_days = (2 ^ 63 - 1) / (86400 * 1000000000)

abbrev pub at_most : ℕ → ℕ → ℕ
at_most bound n = if leb n bound then n else bound

-- `uint(nowDay.Sub(startDay) / (24 * time.Hour))`, for a start that is not later.
unfoldable pub elapsed_days : ℤ → ℤ → ℕ
elapsed_days start_time now = at_most max_duration_days (pos_part (day_of now -ℤ day_of start_time))

unfoldable pub compute_vesting_should_released : ℤ → ℤ → ℕ → ℤ → ℤ
unfolding elapsed_days
compute_vesting_should_released total_amount start_time duration_days now =
    if leb_ℤ total_amount (pos 0) || duration_days == 0
    then pos 0
    else if ltb_ℤ now start_time
    then pos 0
    else if leb duration_days (elapsed_days start_time now)
    then total_amount
    else pos (pos_part total_amount * elapsed_days start_time now / duration_days)

part_le : (t e d : ℕ) → e < d → t * e / d ≤ t
part_le t e d h =
    let whole : t * e ≤ t * d = mul-le-mul_left t (omega arith) in
    let below : t * e < suc t * d = omega arith in
    let quotient = (div-lt_iff_lt-mul {k = d} {x = t * e} {y = suc t} (omega arith)).1 below in
    omega arith

part_mono : (t e e' d : ℕ) → e ≤ e' → 0 < d → t * e / d ≤ t * e' / d
part_mono t e e' d h positive =
    let more : t * e ≤ t * e' = mul-le-mul_left t h in
    let back = div-mul-le_self (t * e) d in
    (le-div_iff_mul-le {k = d} {x = t * e / d} {y = t * e'} positive).1 (omega arith)

day_of_mono : (a b : ℤ) → a ≤ℤ b → day_of a ≤ℤ day_of b
day_of_mono a b h = ground arith

pos_part-sub_mono : (a b c : ℤ) → a ≤ℤ b → pos_part (a -ℤ c) ≤ pos_part (b -ℤ c)
unfolding ◌-ℤ◌
pos_part-sub_mono a b c h = ground arith

elapsed_days_mono :
    (start now later : ℤ) → now ≤ℤ later → elapsed_days start now ≤ elapsed_days start later
unfolding elapsed_days
elapsed_days_mono start now later h =
    let days = day_of_mono now later h in
    ground (arith, pos_part-sub_mono (day_of now) (day_of later) (day_of start) days)

-- For a total that is not negative, what should be released is between nothing and the total.
pub compute_vesting_should_released-bounds :
    (total start : ℤ) (days : ℕ) (now : ℤ)
    → pos 0 ≤ℤ total
    → (pos 0 ≤ℤ compute_vesting_should_released total start days now)
      × (compute_vesting_should_released total start days now ≤ℤ total)
unfolding compute_vesting_should_released
compute_vesting_should_released-bounds total start days now h =
    ground (arith, part_le (pos_part total) (elapsed_days start now) days)

-- What should be released at a later time is not less.
pub compute_vesting_should_released_mono :
    (total start : ℤ) (days : ℕ) (now later : ℤ)
    → now ≤ℤ later
    → compute_vesting_should_released total start days now
      ≤ℤ compute_vesting_should_released total start days later
unfolding compute_vesting_should_released
compute_vesting_should_released_mono total start days now later h = ground (
  arith,
  elapsed_days_mono start now later h,
  part_le (pos_part total) (elapsed_days start now) days,
  part_mono (pos_part total) (elapsed_days start now) (elapsed_days start later) days,
)
