-- ===== src/FeeLog/Vested.antt =====
-- Lemmas on applyVestingLogs of tasks/sync_task_fee_logs.go: what the vesting records hold.
use crynux_relay_wallet.Base.{
  ℕ, String, ◌≡◌, refl, inl, inr, Bool, true, false, not, ◌&&◌, Option, none, some, List, [], ◌∷◌,
  ◌++◌, arith, ◌==◌, Bool-cases, Option-cases, All, any,
}
use crynux_relay_wallet.Int.{ℤ, pos, ◌+ℤ◌, ◌≤ℤ◌, ◌<ℤ◌, leb_ℤ, +ℤ_parts}
use crynux_relay_wallet.World.{
  call_with, Db, World, Result, ok, err, Action, ◌>>=◌, ◌>>◌, continue, db_call,
}
use crynux_relay_wallet.Models.Records.{VestingRecord}
use crynux_relay_wallet.FeeLog.Vesting.{
  VestingPayload, VestingCodec, parse_vesting_payload, parse_vesting_release_payload,
  recover_vesting_signer,
}
use crynux_relay_wallet.FeeLog.Releases.{
  Vestings, vesting_at, update_vesting, require, status_of_released, new_vesting_record,
  write_vesting, vesting_amounts, upsert_vesting_create_log, release_amount, is_active,
  is_releasable_vesting, set_released_amount, write_release, apply_vesting_release_log,
  apply_vesting_log, apply_each, is_vesting, apply_vesting_logs,
}
use crynux_relay_wallet.World.Keeps.{
  Keeps, Keeps-pure, Keeps-raise, Keeps-gets, Keeps-modify, Keeps-bind, Keeps-then, Keeps-if,
  Keeps-db_call,
}
use crynux_relay_wallet.World.{Result-cases}
use crynux_relay_wallet.World.Inversion.{db_call-db}
use crynux_relay_wallet.Errors.{
  Error, task_fee_vesting_payload_invalid, task_fee_vesting_signer_mismatch,
}
use crynux_relay_wallet.Text.{parse_int, equal_fold, is_blank}
use crynux_relay_wallet.FeeLog.Types.{TaskFeeLogType, TaskFeeLog}
use crynux_relay_wallet.FeeLog.Accounts.{lift}

-- Between nothing and the total is released; an active schedule still has something to release.
abbrev pub IsSound : VestingRecord → Type 0
IsSound r =
    (pos 0 ≤ℤ r.released_amount)
    × (r.released_amount ≤ℤ r.total_amount)
    × ((is_active r.status && leb_ℤ r.total_amount r.released_amount) ≡ false)

abbrev pub AreSound : Db → Type 0
AreSound db = All IsSound db.vestings

status_of_released-strict :
    (a b : ℤ) → a ≤ℤ b → (is_active (status_of_released a b) && leb_ℤ b a) ≡ false
status_of_released-strict a b h = ground arith

set_released_amount-IsSound :
    (log : TaskFeeLog) (n : ℤ) (r : VestingRecord)
    → pos 0 <ℤ n
    → is_releasable_vesting log n r ≡ true
    → IsSound r
    → IsSound (set_released_amount n r)
unfolding is_releasable_vesting set_released_amount
set_released_amount-IsSound log n r positive releasable sound =
    let within : r.released_amount +ℤ n ≤ℤ r.total_amount = ground arith in
    (
      ground (arith, +ℤ_parts r.released_amount n),
      within,
      status_of_released-strict (r.released_amount +ℤ n) r.total_amount within,
    )

update_vesting-AreSound :
    (id : ℕ) (f : VestingRecord → VestingRecord) (rows : Vestings)
    → ((r : VestingRecord) → vesting_at id rows ≡ some r → IsSound r → IsSound (f r))
    → All IsSound rows
    → All IsSound (update_vesting id f rows)
update_vesting-AreSound id f [] keep h = tt
update_vesting-AreSound id f (x ∷ rows) keep h = elim (Bool-cases (x.relay_vesting_id == id)) [
  | inl same ↦ rw same (keep x (rw same refl) h.0, h.1)
  | inr other ↦
      let rest = update_vesting-AreSound id f rows (λ r found. keep r (rw other found)) h.1 in
      rw other (h.0, rest)
]

append-AreSound :
    (rows : Vestings) (r : VestingRecord)
    → All IsSound rows
    → IsSound r
    → All IsSound (rows ++ r ∷ [])
append-AreSound [] r h s = (s, tt)
append-AreSound (x ∷ rows) r h s = (h.0, append-AreSound rows r h.1 s)

new_vesting_record-IsSound :
    (log : TaskFeeLog) (payload : VestingPayload) {amounts : ℤ × ℤ}
    → vesting_amounts log payload ≡ ok amounts
    → IsSound (new_vesting_record payload amounts.0 amounts.1)
unfolding vesting_amounts new_vesting_record
new_vesting_record-IsSound log payload {amounts} h =
    elim (Option-cases (parse_int payload.total_amount)) [
      | inl junk ↦ absurd (ground arith)
      | inr (t, total) ↦ elim (Option-cases (parse_int payload.released_amount)) [
        | inl junk ↦ absurd (ground arith)
        | inr (r, released) ↦ ground arith
      ]
    ]

-- What follows a result that is computed without the database.
pub Keeps-lift :
    {A B : Type 0} {P : Db → Type 0} (r : Result A) (f : A → Action B)
    → ((a : A) → r ≡ ok a → Keeps P (f a))
    → Keeps P (lift r >>= f)
Keeps-lift (ok a) f k = record { at = λ w h. (k a refl).at w h; quiet = λ w. (k a refl).quiet w }
Keeps-lift (err e) f k = record { at = λ w h. h; quiet = λ w. refl }

pub Keeps-require :
    {B : Type 0} {P : Db → Type 0} (b : Bool) (e : Error) {k : Action B}
    → Keeps P k
    → Keeps P (lift (require b e) >> k)
Keeps-require true e k = record { at = λ w h. k.at w h; quiet = λ w. k.quiet w }
Keeps-require false e k = record { at = λ w h. h; quiet = λ w. refl }

continue-keeps :
    {A B : Type 0} (P : Db → Type 0) (p : Result A × World) (f : A → Action B)
    → P p.1.db
    → ((a : A) → P (f a p.1).1.db)
    → P (continue p f).1.db
continue-keeps P (ok a, w) f h k = k a
continue-keeps P (err e, w) f h k = h

same_found : {x r : VestingRecord} (o : Option VestingRecord) → o ≡ some x → o ≡ some r → x ≡ r
same_found o a b = cc

write_release-AreSound :
    (log : TaskFeeLog) (id : ℕ) (n : ℤ) (found : Option VestingRecord) (w : World)
    → pos 0 <ℤ n
    → vesting_at id w.db.vestings ≡ found
    → AreSound w.db
    → AreSound (write_release log id n found w).1.db
unfolding write_release
write_release-AreSound log id n none w positive here h = h
write_release-AreSound log id n (some r) w positive here h =
    elim (Bool-cases (is_releasable_vesting log n r)) [
      | inr refused ↦ rw refused h
      | inl releasable ↦ rw releasable (
          continue-keeps AreSound (db_call w) _ (rw (db_call-db w) h) (λ _.
            update_vesting-AreSound id (set_released_amount n) (db_call w).1.db.vestings
              (λ x there sound.
                set_released_amount-IsSound log n x positive
                  (rw (same_found _ (rw (db_call-db w) at there) here) releasable) sound)
              (rw (db_call-db w) h)))
    ]

release_amount-positive :
    (log : TaskFeeLog) (clock : ℕ) {n : ℤ} → release_amount log clock ≡ ok n → pos 0 <ℤ n
release_amount-positive log clock {n} h = elim (Option-cases (parse_int log.amount)) [
  | inl junk ↦ absurd (ground arith)
  | inr (m, parsed) ↦ ground arith
]

release_quiet :
    (log : TaskFeeLog) (id : ℕ) (w : World) → (apply_vesting_release_log log id w).1.sent ≡ w.sent
unfolding apply_vesting_release_log write_release db_call call_with
release_quiet log id w = ground arith

apply_vesting_release_log-AreSound :
    (log : TaskFeeLog) (id : ℕ) → Keeps AreSound (apply_vesting_release_log log id)
unfolding apply_vesting_release_log
apply_vesting_release_log-AreSound log id = record {
  at = λ w h. elim (Result-cases (release_amount log w.clock)) [
    | inr (e, refused) ↦ rw refused h
    | inl (n, amount) ↦ rw amount (
        continue-keeps AreSound (db_call w) _ (rw (db_call-db w) h) (λ _.
          write_release-AreSound log id n (vesting_at id (db_call w).1.db.vestings) (db_call w).1
            (release_amount-positive log w.clock {n = n} amount) refl (rw (db_call-db w) h)))
  ];
  quiet = release_quiet log id;
}

write_vesting-AreSound :
    (log : TaskFeeLog) (payload : VestingPayload) (amounts : ℤ × ℤ) (o : Option VestingRecord)
    → vesting_amounts log payload ≡ ok amounts
    → Keeps AreSound (write_vesting payload amounts.0 amounts.1 o)
unfolding write_vesting
write_vesting-AreSound log payload amounts none h = Keeps-then Keeps-db_call (
    Keeps-modify _ λ db sound.
      append-AreSound db.vestings _ sound
        (new_vesting_record-IsSound log payload {amounts = amounts} h))
write_vesting-AreSound log payload amounts (some r) h = record {
  at = λ w sound. sound;
  quiet = λ w. refl;
}

module _ (codec : VestingCodec) (signer_address : String) where
  upsert_vesting_create_log-AreSound :
      (log : TaskFeeLog) (payload : VestingPayload)
      → Keeps AreSound (upsert_vesting_create_log codec signer_address log payload)
  unfolding upsert_vesting_create_log
  upsert_vesting_create_log-AreSound log payload =
      Keeps-lift (vesting_amounts log payload) _ λ amounts accepted.
        Keeps-lift (recover_vesting_signer codec payload) _ λ signer recovered.
          Keeps-require (equal_fold signer signer_address) task_fee_vesting_signer_mismatch (
            Keeps-then Keeps-db_call (
              Keeps-bind (Keeps-gets (λ w. vesting_at payload.vesting_id w.db.vestings))
                λ o. write_vesting-AreSound log payload amounts o accepted))

  apply_vesting_log-AreSound :
      (type : TaskFeeLogType) (log : TaskFeeLog)
      → Keeps AreSound (apply_vesting_log codec signer_address type log)
  unfolding apply_vesting_log
  apply_vesting_log-AreSound TaskFeeLogType.vesting_created log =
      Keeps-lift (parse_vesting_payload codec log) _ λ payload parsed.
        Keeps-require (equal_fold payload.address log.address) task_fee_vesting_payload_invalid
          (upsert_vesting_create_log-AreSound log payload)
  apply_vesting_log-AreSound TaskFeeLogType.vesting_release log =
      Keeps-lift (parse_vesting_release_payload codec log) _
        λ id parsed. apply_vesting_release_log-AreSound log id
  apply_vesting_log-AreSound _ log = Keeps-pure tt

  apply_each-AreSound :
      (logs : List TaskFeeLog) → Keeps AreSound (apply_each codec signer_address logs)
  unfolding apply_each
  apply_each-AreSound [] = Keeps-pure tt
  apply_each-AreSound (log ∷ logs) =
      Keeps-then (apply_vesting_log-AreSound log.type log) (apply_each-AreSound logs)

  -- Whatever the vesting logs of a batch are, and whether or not one is refused: if every vesting record
  -- has released between nothing and its total, and less than its total while it is active, then this
  -- holds after the batch too.
  pub apply_vesting_logs-AreSound :
      (logs : List TaskFeeLog) (w : World)
      → AreSound w.db
      → AreSound (apply_vesting_logs codec signer_address logs w).1.db
  unfolding apply_vesting_logs
  apply_vesting_logs-AreSound logs w h =
      (Keeps-if (not (any is_vesting logs)) (Keeps-pure tt) (
          Keeps-if (is_blank signer_address) (Keeps-raise task_fee_vesting_signer_mismatch)
            (apply_each-AreSound logs))).at
        w h
