-- ===== src/FeeLog/DepositKeys.antt =====
-- Lemmas on saveDepositRecords of tasks/sync_task_fee_logs.go: the keys of the recorded deposits.
use crynux_relay_wallet.Base.{
  ℕ, suc, ◌≤◌, String, ◌≡◌, refl, sym, ap, ◌∙◌, inl, inr, Bool, false, ◌||◌, List, [], ◌∷◌, ◌++◌,
  arith, eq_iff, Bool-cases, All, length, any, count,
}
use crynux_relay_wallet.World.{Db, World, ok, db_call, call_with, Result-cases}
use crynux_relay_wallet.Models.Records.{DepositRecord}
use mathlib.Core.List.{append-nil, append_assoc}
use crynux_relay_wallet.FeeLog.Types.{TaskFeeLog}
use crynux_relay_wallet.FeeLog.Recorded.{AreDepositsOf, build_deposit_records-AreDepositsOf}
use crynux_relay_wallet.FeeLog.Deposits.{
  DepositCodec, same_deposit, insert_deposits, write_deposits, build_deposit_records,
  save_deposit_records,
}

abbrev Deposits : Type 0
Deposits = List DepositRecord

-- No two of the records have the same network and hash.
abbrev pub AreDistinct : Deposits → Type 0
AreDistinct [] = Unit
AreDistinct (d ∷ ds) = (any (same_deposit d) ds ≡ false) × AreDistinct ds

same_deposit_comm : (a b : DepositRecord) → same_deposit a b ≡ same_deposit b a
same_deposit_comm a b = ground (
  arith,
  eq_iff a.network b.network,
  eq_iff b.network a.network,
  eq_iff a.tx_hash b.tx_hash,
  eq_iff b.tx_hash a.tx_hash,
)

any-append :
    (p : DepositRecord → Bool) (xs ys : Deposits) → any p (xs ++ ys) ≡ (any p xs || any p ys)
any-append p [] ys = refl
any-append p (x ∷ xs) ys = ground (arith, any-append p xs ys)

AreDistinct-append :
    (table : Deposits) (d : DepositRecord)
    → AreDistinct table
    → any (same_deposit d) table ≡ false
    → AreDistinct (table ++ d ∷ [])
AreDistinct-append [] d h n = (refl, tt)
AreDistinct-append (x ∷ table) d h n = (
  ground (arith, any-append (same_deposit x) table (d ∷ []), same_deposit_comm x d),
  AreDistinct-append table d h.1 (ground arith),
)

insert_deposits-AreDistinct :
    (ds table : Deposits) → AreDistinct table → AreDistinct (insert_deposits ds table).0
unfolding insert_deposits
insert_deposits-AreDistinct [] table h = h
insert_deposits-AreDistinct (d ∷ ds) table h = elim (Bool-cases (any (same_deposit d) table)) [
  | inl known ↦ rw known (insert_deposits-AreDistinct ds table h)
  | inr fresh ↦
      rw fresh
        (insert_deposits-AreDistinct ds (table ++ d ∷ []) (AreDistinct-append table d h fresh))
]

-- Never more rows than records.
insert_deposits-le : (ds table : Deposits) → (insert_deposits ds table).1 ≤ length ds
unfolding insert_deposits
insert_deposits-le [] table = omega arith
insert_deposits-le (d ∷ ds) table =
    ground (arith, insert_deposits-le ds table, insert_deposits-le ds (table ++ d ∷ []))

-- Records that are unknown to a longer table are unknown to its front.
All-front :
    (ds table more : Deposits)
    → All (λ x. any (same_deposit x) (table ++ more) ≡ false) ds
    → All (λ x. any (same_deposit x) table ≡ false) ds
All-front [] table more h = tt
All-front (d ∷ ds) table more h =
    (ground (arith, any-append (same_deposit d) table more), All-front ds table more h.1)

suc_injective : {a b : ℕ} → suc a ≡ suc b → a ≡ b
suc_injective h = omega arith

-- As many rows as records, only if none of the records was known: then all of them are appended.
insert_deposits-All :
    (ds table : Deposits)
    → (insert_deposits ds table).1 ≡ length ds
    → ((insert_deposits ds table).0 ≡ table ++ ds)
      × All (λ d. any (same_deposit d) table ≡ false) ds
unfolding insert_deposits
insert_deposits-All [] table h = (sym (append-nil table), tt)
insert_deposits-All (d ∷ ds) table h = elim (Bool-cases (any (same_deposit d) table)) [
  | inl known ↦ absurd (ground (arith, insert_deposits-le ds table))
  | inr fresh ↦
      let (rows, unknown) =
        insert_deposits-All ds (table ++ d ∷ []) (suc_injective (rw fresh at h)) in
      (
        rw fresh (rows ∙ append_assoc table (d ∷ []) ds),
        (fresh, All-front ds table (d ∷ []) unknown),
      )
]

abbrev pub with_deposits : Db → Deposits → Db
with_deposits db rows = record db { deposits = rows }

all_inserted :
    (d : DepositRecord) (ds : Deposits) (w : World)
    → (write_deposits (d ∷ ds) w).0 ≡ ok tt
    → ((insert_deposits (d ∷ ds) w.db.deposits).1 ≡ length (d ∷ ds))
      × ((write_deposits (d ∷ ds) w).1.db
          ≡ with_deposits w.db (insert_deposits (d ∷ ds) w.db.deposits).0)
unfolding write_deposits db_call call_with
all_inserted d ds w h = ground arith

write_deposits-ok :
    (ds : Deposits) (w : World)
    → (write_deposits ds w).0 ≡ ok tt
    → ((write_deposits ds w).1.db ≡ with_deposits w.db (w.db.deposits ++ ds))
      × (All (λ d. any (same_deposit d) w.db.deposits ≡ false) ds
          × (AreDistinct w.db.deposits → AreDistinct (w.db.deposits ++ ds)))
unfolding write_deposits
write_deposits-ok [] w h = (
  ap (with_deposits w.db) (sym (append-nil w.db.deposits)),
  (tt, λ distinct. rw (append-nil w.db.deposits) distinct),
)
write_deposits-ok (d ∷ ds) w h =
    let (count, written) = all_inserted d ds w h in
    let (rows, unknown) = insert_deposits-All (d ∷ ds) w.db.deposits count in
    (
      written ∙ ap (with_deposits w.db) rows,
      (
        unknown,
        λ distinct. rw (sym rows) (insert_deposits-AreDistinct (d ∷ ds) w.db.deposits distinct),
      ),
    )

pub save_deposit_records-ok :
    (codec : DepositCodec) (deposit_address : String) (logs : List TaskFeeLog) (w : World)
    → (save_deposit_records codec deposit_address logs w).0 ≡ ok tt
    → (ds : Deposits) × AreDepositsOf codec deposit_address logs ds
      × ((save_deposit_records codec deposit_address logs w).1.db
          ≡ with_deposits w.db (w.db.deposits ++ ds))
      × (All (λ d. any (same_deposit d) w.db.deposits ≡ false) ds
          × (AreDistinct w.db.deposits → AreDistinct (w.db.deposits ++ ds)))
unfolding save_deposit_records
save_deposit_records-ok codec deposit_address logs w h =
    elim (Result-cases (build_deposit_records codec deposit_address logs)) [
      | inr (e, broken) ↦ absurd (ground arith)
      | inl (ds, built) ↦
          let (saved, fresh) = write_deposits-ok ds w (rw built at h) in
          (
            ds,
            build_deposit_records-AreDepositsOf codec deposit_address logs {ds = ds} built,
            rw built saved,
            fresh,
          )
    ]

-- When the deposits of a batch of logs are saved without an error, every deposit log of the batch gave one
-- record with its amount, its sender and the network and hash of its payload, and no other log gave one; exactly these records were appended to the table, no other table changed, and none of them
-- has the network and hash of a deposit that was recorded before. If the recorded deposits had distinct
-- networks and hashes, the table with the new ones has too, so that no two logs of the batch name the
-- same deposit.
pub save_deposit_records-fresh :
    (codec : DepositCodec) (deposit_address : String) (logs : List TaskFeeLog) (w : World)
    → AreDistinct w.db.deposits
    → (save_deposit_records codec deposit_address logs w).0 ≡ ok tt
    → (ds : Deposits) × AreDepositsOf codec deposit_address logs ds
      × ((save_deposit_records codec deposit_address logs w).1.db
          ≡ with_deposits w.db (w.db.deposits ++ ds))
      × All (λ d. any (same_deposit d) w.db.deposits ≡ false) ds
      × AreDistinct (w.db.deposits ++ ds)
save_deposit_records-fresh codec deposit_address logs w distinct h =
    let (ds, built, saved, fresh) = save_deposit_records-ok codec deposit_address logs w h in
    (ds, built, saved, fresh.0, fresh.1 distinct)
