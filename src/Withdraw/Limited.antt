-- ===== src/Withdraw/Limited.antt =====
-- What checkWithdrawalDailyLimit says when it passes.
use crynux_relay_wallet.Base.{
  ◌+◌, ◌≤◌, ◌≡◌, ap, ◌∙◌, inl, inr, true, List, [], ◌∷◌, arith, leb, Bool-cases, filter, any, count,
}
use crynux_relay_wallet.World.{World, ok, db_call}
use crynux_relay_wallet.Models.Records.{WithdrawRecord}
use crynux_relay_wallet.Config.{AppConfig}
use crynux_relay_wallet.Withdraw.Authorization.{WithdrawalRequest, demand}
use crynux_relay_wallet.Withdraw.Limits.{
  each, WithdrawalDailyLimitKey, key_eq, KeyCounts, limit_of, count_requests, count_records,
  check_withdrawal_daily_limit_counts,
}
use crynux_relay_wallet.World.{call_with}
use crynux_relay_wallet.World.Inversion.{bind-ok}
use crynux_relay_wallet.FeeLog.Paid.{then_ok-ok}
use crynux_relay_wallet.Withdraw.Authorized.{demand-ok}
use crynux_relay_wallet.Errors.{withdrawal_request_daily_limit_exceeded}
use crynux_relay_wallet.FeeLog.Accounts.{lift}
use crynux_relay_wallet.Withdraw.Limits.{
  day_start, counts_today, check_network, requester_of, destination_of, record_requester_of,
  record_destination_of, check_withdrawal_daily_limit,
}
use mathlib.Core.Path.{subst}
use crynux_relay_wallet.Withdraw.Counted.{
  count_in, has_key, key_eq-same, count_in-count_requests, has_key-count_requests,
  count_in-count_records, has_key-count_records,
}

-- The checks of the counts, read under a key that is there.
within :
    (app : AppConfig) (key : WithdrawalDailyLimitKey) (counts : KeyCounts) {u : Unit {0}}
    → check_withdrawal_daily_limit_counts app counts ≡ ok u
    → has_key key counts ≡ true
    → count_in key counts ≤ limit_of app key.0
unfolding check_withdrawal_daily_limit_counts each count_in has_key
within app key [] h there = cc
within app key ((k, n) ∷ m) h there =
    let (_, here, rest) =
      then_ok-ok (demand (leb n (limit_of app k.0)) withdrawal_request_daily_limit_exceeded) _ h in
    let fits = demand-ok _ _ here in
    elim (Bool-cases (key_eq k key)) [
      | inl e ↦
          (let same = ap (λ x. limit_of app x.0) (key_eq-same k key e) in
            ground (arith, e, fits, same))
      | inr e ↦
          (let known : has_key key m ≡ true = ground (arith, there, e) in
            let ih = within app key m rest known in ground (arith, e, ih))
    ]

module _ (app : AppConfig) (requests : List WithdrawalRequest) where
  within_all :
      (key_of : WithdrawalRequest → WithdrawalDailyLimitKey)
      (record_key_of : WithdrawRecord → WithdrawalDailyLimitKey) (stored : List WithdrawRecord)
      (key : WithdrawalDailyLimitKey) {u : Unit {0}}
      → check_withdrawal_daily_limit_counts app
          (count_records record_key_of stored (count_requests key_of requests []))
        ≡ ok u
      → any (λ r. key_eq (key_of r) key) requests ≡ true
      → count (λ r. key_eq (key_of r) key) requests
          + count (λ r. key_eq (record_key_of r) key) stored
        ≤ limit_of app key.0
  unfolding count_in has_key
  within_all key_of record_key_of stored key h asked =
      let counts = count_requests key_of requests [] in
      let known = has_key-count_requests key_of key requests [] in
      let there : has_key key counts ≡ true = ground (arith, known, asked) in
      let fits =
        within app key (count_records record_key_of stored counts) h
          (has_key-count_records record_key_of key stored counts ∙ there) in
      let total = count_in-count_records record_key_of key stored counts there in
      let batch = count_in-count_requests key_of key requests [] in
      ground (arith, fits, total, batch)

same_state : (w : World) → ((db_call w).1.clock ≡ w.clock) × ((db_call w).1.db ≡ w.db)
unfolding db_call call_with
same_state w = ground arith

-- The records that count at a state.
abbrev pub stored_at : List WithdrawalRequest → World → List WithdrawRecord
stored_at requests w = filter (counts_today requests (day_start w.clock)) w.db.withdraw_records

stored_same :
    (requests : List WithdrawalRequest) (v w : World)
    → v.clock ≡ w.clock
    → v.db ≡ w.db
    → stored_at requests v ≡ stored_at requests w
stored_same requests v w c d =
    ap (λ x. filter (counts_today requests (day_start x)) v.db.withdraw_records) c
    ∙ ap (λ x. filter (counts_today requests (day_start w.clock)) x.withdraw_records) d

module _ (app : AppConfig) where
  -- For a requester of the batch and a destination of the batch, each of one network, a passed check says
  -- that the batch and the counted records of the day together hold no more withdrawals of the requester,
  -- and no more to the destination, than the limit of the network.
  pub check_withdrawal_daily_limit-Within :
      (requests : List WithdrawalRequest) (w : World)
      (requester destination : WithdrawalDailyLimitKey)
      → (check_withdrawal_daily_limit app requests w).0 ≡ ok tt
      → any (λ r. key_eq (requester_of r) requester) requests ≡ true
      → any (λ r. key_eq (destination_of r) destination) requests ≡ true
      → (count (λ r. key_eq (requester_of r) requester) requests
            + count (λ r. key_eq (record_requester_of r) requester) (stored_at requests w)
          ≤ limit_of app requester.0)
        × (count (λ r. key_eq (destination_of r) destination) requests
              + count (λ r. key_eq (record_destination_of r) destination) (stored_at requests w)
            ≤ limit_of app destination.0)
  unfolding check_withdrawal_daily_limit
  check_withdrawal_daily_limit-Within [] w requester destination h asks sends = cc
  check_withdrawal_daily_limit-Within (r ∷ rest) w requester destination h asks sends =
      let requests = r ∷ rest in
      let (_, _, h1, _) = bind-ok (lift (each (check_network app) requests)) _ w h in
      let (_, _, h2, _) = bind-ok db_call _ w h1 in
      let (clock, db) = same_state w in
      let stored_q : stored_at requests (db_call w).1 ≡ stored_at requests w =
        stored_same requests (db_call w).1 w clock db in
      let (_, by_requester, h3, _) =
        bind-ok
          (lift (
            check_withdrawal_daily_limit_counts app (
              count_records record_requester_of (stored_at requests (db_call w).1)
                (count_requests requester_of requests []))))
          _ (db_call w).1 h2 in
      subst
        (λ stored.
          (count (λ r. key_eq (requester_of r) requester) requests
              + count (λ r. key_eq (record_requester_of r) requester) stored
            ≤ limit_of app requester.0)
          × (count (λ r. key_eq (destination_of r) destination) requests
                + count (λ r. key_eq (record_destination_of r) destination) stored
              ≤ limit_of app destination.0))
        stored_q
        (
          within_all app requests requester_of record_requester_of _ requester by_requester asks,
          within_all app requests destination_of record_destination_of _ destination h3 sends,
        )
