-- ===== src/FeeLog/Released.antt =====
-- Lemmas on applyVestingReleaseLog of tasks/sync_task_fee_logs.go: the record that it changes.
use crynux_relay_wallet.Base.{
  ℕ, ◌+◌, ◌≤◌, ◌≡◌, refl, sym, ap, inl, inr, true, Option, none, some, [], ◌∷◌, arith, ◌==◌,
  Bool-cases, Option-cases, if◌then◌else◌,
}
use crynux_relay_wallet.Int.{ℤ, eqb_ℤ, pos, ◌+ℤ◌, ◌≤ℤ◌, ◌<ℤ◌}
use crynux_relay_wallet.World.{Db, World, ok, db_call}
use crynux_relay_wallet.Models.Records.{VestingStatus, VestingRecord}
use crynux_relay_wallet.FeeLog.Releases.{
  Vestings, vesting_at, set_vestings, update_vesting, release_amount, is_active,
  is_releasable_vesting, set_released_amount, write_release, apply_vesting_release_log,
}
use crynux_relay_wallet.World.{Result-cases, call_with}
use mathlib.Core.Path.{subst}
use crynux_relay_wallet.World.Inversion.{bind-ok, db_call-db}
use crynux_relay_wallet.Text.{parse_int, equal_fold}
use crynux_relay_wallet.FeeLog.Types.{TaskFeeLog}
use crynux_relay_wallet.FeeLog.Schedule.{compute_vesting_should_released}

vesting_at-update :
    (id other : ℕ) (f : VestingRecord → VestingRecord) (rows : Vestings) {r : VestingRecord}
    → ((x : VestingRecord) → (f x).relay_vesting_id ≡ x.relay_vesting_id)
    → vesting_at id rows ≡ some r
    → vesting_at other (update_vesting id f rows)
      ≡ (if other == id then some (f r) else vesting_at other rows)
vesting_at-update id other f [] same found = cc
vesting_at-update id other f (x ∷ rows) {r} same found =
    elim (Bool-cases (x.relay_vesting_id == id)) [
      | inl here ↦
          let first : x ≡ r = ground arith in
          let there : some (f x) ≡ some (f r) = ap (λ y. some (f y)) first in
          ground (arith, here, there, same x)
      | inr away ↦
          let ih = vesting_at-update id other f rows {r = r} same (rw away at found) in
          ground (arith, away, ih)
    ]

is_active-active : (s : VestingStatus) → is_active s ≡ true → s ≡ VestingStatus.active
is_active-active VestingStatus.active h = refl
is_active-active VestingStatus.completed h = cc
is_active-active VestingStatus.deprecated h = cc

release_amount-ok :
    (log : TaskFeeLog) (clock : ℕ) {n : ℤ}
    → release_amount log clock ≡ ok n
    → (pos 0 <ℤ n) × (parse_int log.amount ≡ some n) × (log.created_at ≤ clock + 3600)
release_amount-ok log clock {n} h = elim (Option-cases (parse_int log.amount)) [
  | inl junk ↦ absurd (ground arith)
  | inr (m, parsed) ↦ ground arith
]

-- A release of n within the schedule of the record r.
pub record IsRelease (log : TaskFeeLog) (id clock : ℕ) (before after : Db) (r : VestingRecord)
    (n : ℤ) : Type 0 where
  pub of_amount : parse_int log.amount ≡ some n
  pub positive : pos 0 <ℤ n
  pub found : vesting_at id before.vestings ≡ some r
  pub was_active : r.status ≡ VestingStatus.active
  pub of_address : equal_fold r.address log.address ≡ true
  pub due : log.created_at ≤ clock + 3600
  pub released : VestingRecord
  pub added : released.released_amount ≡ r.released_amount +ℤ n
  pub completed : released.status ≡ (
      if eqb_ℤ (r.released_amount +ℤ n) r.total_amount
      then VestingStatus.completed
      else VestingStatus.active)
  pub otherwise_same :
      released ≡ record r { released_amount = released.released_amount; status = released.status }
  pub records :
      (other : ℕ)
      → vesting_at other after.vestings
        ≡ (if other == id then some released else vesting_at other before.vestings)
  pub in_total : r.released_amount +ℤ n ≤ℤ r.total_amount
  pub in_schedule :
      r.released_amount +ℤ n
      ≤ℤ compute_vesting_should_released r.total_amount r.start_time r.duration_days
          (pos log.created_at)
  pub only_vestings : after ≡ record before { vestings = after.vestings }

write_release-ok :
    (log : TaskFeeLog) (id clock : ℕ) (n : ℤ) (o : Option VestingRecord) (w : World)
    → parse_int log.amount ≡ some n
    → pos 0 <ℤ n
    → log.created_at ≤ clock + 3600
    → vesting_at id w.db.vestings ≡ o
    → (write_release log id n o w).0 ≡ ok tt
    → (r : VestingRecord) × IsRelease log id clock w.db (write_release log id n o w).1.db r n
unfolding write_release is_releasable_vesting set_released_amount db_call call_with
write_release-ok log id clock n none w parsed positive due found h = absurd (ground arith)
write_release-ok log id clock n (some r) w parsed positive due found h =
    let releasable : is_releasable_vesting log n r ≡ true = ground arith in
    let written : (write_release log id n (some r) w).1.db
        ≡ set_vestings (update_vesting id (set_released_amount n)) w.db =
      ground arith in
    (
      r,
      record {
        of_amount = parsed;
        positive = positive;
        found = found;
        was_active = is_active-active r.status (ground arith);
        of_address = ground arith;
        due = due;
        released = set_released_amount n r;
        added = refl;
        completed = refl;
        otherwise_same = refl;
        records = λ other. rw written (
            vesting_at-update id other (set_released_amount n) w.db.vestings {r = r} (λ x. refl)
              found);
        in_total = ground arith;
        in_schedule = ground arith;
        only_vestings = rw written refl;
      },
    )

-- When a vesting release is applied without an error, its amount is positive, the vesting record that it
-- names is of the address of the log and was active, and the amount is added to what that record has
-- released, which completes it where it reaches the total; the new total released is at most the total
-- and what the schedule of the record allows at the time of the log, which is at most an hour ahead of the
-- clock. No other vesting record changes, and no other table.
pub apply_vesting_release_log-IsRelease :
    (log : TaskFeeLog) (id : ℕ) (w : World)
    → (apply_vesting_release_log log id w).0 ≡ ok tt
    → (r : VestingRecord) × (n : ℤ) × IsRelease log id w.clock w.db
        (apply_vesting_release_log log id w).1.db
        r
        n
unfolding apply_vesting_release_log
apply_vesting_release_log-IsRelease log id w h = elim (Result-cases (release_amount log w.clock)) [
  | inr (e, refused) ↦ absurd (ground arith)
  | inl (n, accepted) ↦
      let (positive, parsed, due) = release_amount-ok log w.clock {n = n} accepted in
      let (u, called, rest, q) = bind-ok db_call _ w {b = tt} (rw accepted at h) in
      let w₁ : World = (db_call w).1 in
      let (r, release) =
        write_release-ok log id w.clock n (vesting_at id w₁.db.vestings) w₁ parsed positive due refl
          rest in
      let after : Db = (write_release log id n (vesting_at id w₁.db.vestings) w₁).1.db in
      (
        r,
        n,
        rw accepted (
            subst (λ p. IsRelease log id w.clock w.db p.1.db r n) (sym q)
              (subst (λ d. IsRelease log id w.clock d after r n) (db_call-db w) release)),
      )
]
