-- ===== src/Withdraw/AuthorizationTests.antt =====
-- The theorems on the authorization, the intake and the limits of withdrawals, for one of 5 of 0xalice.
use crynux_relay_wallet.Withdraw.Authorization.{
  AuthorizationCodec, validate_withdrawal_authorization, build_withdrawal_authorization_message,
}
use crynux_relay_wallet.Withdraw.Authorized.{
  IsAuthorized, validate_withdrawal_authorization-IsAuthorized,
}
use crynux_relay_wallet.Base.{
  false, ℕ, zero, suc, List, [], ◌∷◌, some, none, refl, String, if◌then◌else◌, str_eq,
}
use crynux_relay_wallet.Int.{pos}
use crynux_relay_wallet.World.{db_call}
use crynux_relay_wallet.Text.{is_blank, equal_fold, parse_int}
use crynux_relay_wallet.Withdraw.Authorization.{WithdrawalRequest, withdrawal_request_authorization}
use crynux_relay_wallet.Withdraw.Amounts.{parse_withdrawal_amount}
use crynux_relay_wallet.Withdraw.Intake.{record_of, read_requests}
use crynux_relay_wallet.Withdraw.Taken.{AreRead, read_requests-AreRead}
use crynux_relay_wallet.Models.Records.{WithdrawStatus, WithdrawRecord}
use crynux_relay_wallet.Fixture.{world_of, db_with}
use crynux_relay_wallet.Withdraw.Limits.{check_withdrawal_daily_limit}
use crynux_relay_wallet.Withdraw.Limited.{check_withdrawal_daily_limit-Within}
use crynux_relay_wallet.Fixture.{settings}
use crynux_relay_wallet.Withdraw.Authorization.{demand}
use crynux_relay_wallet.Config.{blockchain_of}
use crynux_relay_wallet.Base.{◌+◌, ◌≤◌}
use crynux_relay_wallet.Withdraw.Authorization.{
  record_after_fingerprint, withdrawal_record_authorization, has_fingerprint,
  ensure_withdrawal_authorization_fingerprint,
}
use crynux_relay_wallet.Withdraw.Replayed.{ensure_withdrawal_authorization_fingerprint-authorized}
use crynux_relay_wallet.World.{World}
use crynux_relay_wallet.World.{ok}
use crynux_relay_wallet.Base.{any, true, ◌⊎◌, ◌≡◌, ◌↔◌}

abbrev zeros : ℕ → List ℕ
zeros zero = []
zeros (suc n) = 0 ∷ zeros n

-- Each signature is taken to be of 0xAlice.
abbrev codec : AuthorizationCodec
codec = record {
  decode = λ text. if str_eq text "0xab" then some (zeros 65) else none;
  signer_of = λ text bytes. some "0xAlice";
  fingerprint = λ text. text;
}

abbrev message : String
message = build_withdrawal_authorization_message "0xalice" "5" "0xbob" "eth" (pos 9)

validate_withdrawal_authorization-IsAuthorized_example :
    (validate_withdrawal_authorization codec "0xalice" "5" "0xbob" "eth"
        (some (pos 9))
        (some "0xab")
      ≡ ok message)
    ↔ IsAuthorized codec "0xalice" "5" "0xbob" "eth" (some (pos 9)) (some "0xab") message
validate_withdrawal_authorization-IsAuthorized_example =
    validate_withdrawal_authorization-IsAuthorized codec "0xalice" "5" "0xbob" "eth" (some (pos 9))
      (some "0xab") message

-- It is accepted.
accepted_once :
    validate_withdrawal_authorization codec "0xalice" "5" "0xbob" "eth" (some (pos 9)) (some "0xab")
    ≡ ok message
unfolding validate_withdrawal_authorization is_blank equal_fold
accepted_once = refl

abbrev request : WithdrawalRequest
request = record {
  id = 4;
  created_at = 9;
  address = "0xalice";
  benefit_address = "0xbob";
  amount = "5";
  withdrawal_fee = "1";
  network = "eth";
  status = pos 0;
  relay_account_event_id = 3;
  timestamp = pos 9;
  signature = "0xab";
}

-- The same signature again.
abbrev replay : WithdrawalRequest
replay = record request { id = 5; relay_account_event_id = 8 }

abbrev taken : List WithdrawRecord
taken =
    (record (record_of request (pos 5) (pos 1)) { authorization_fingerprint = some message }
      ∷ record (record_of replay (pos 5) (pos 1)) { status = WithdrawStatus.failed }
      ∷ [])

read_requests-AreRead_example :
    AreRead codec (db_with [] 1) [] (request ∷ replay ∷ []) taken (request ∷ [])
unfolding read_requests parse_withdrawal_amount parse_int withdrawal_request_authorization is_blank
    equal_fold db_call
read_requests-AreRead_example =
    read_requests-AreRead codec (request ∷ replay ∷ []) [] (world_of (db_with [] 1))
      {i = (taken, request ∷ [])} refl

-- The two are all that a day allows.
check_withdrawal_daily_limit-Within_example : (2 + 0 ≤ 2) × (2 + 0 ≤ 2)
unfolding check_withdrawal_daily_limit demand blockchain_of db_call
check_withdrawal_daily_limit-Within_example =
    check_withdrawal_daily_limit-Within settings (request ∷ replay ∷ []) (world_of (db_with [] 1))
      ("eth", "0xalice") ("eth", "0xbob") refl refl refl

-- The record of the request, without its fingerprint.
abbrev unmarked : WithdrawRecord
unmarked = record (record_of request (pos 5) (pos 1)) { id = 1 }

abbrev other_marked : WithdrawRecord
other_marked = record unmarked { id = 2; authorization_fingerprint = some message }

abbrev alone : World
alone = world_of (record (db_with [] 1) { withdraw_records = unmarked ∷ [] })

abbrev beside : World
beside = world_of (record (db_with [] 1) { withdraw_records = unmarked ∷ other_marked ∷ [] })

ensure_withdrawal_authorization_fingerprint-authorized_example :
    (fingerprint : String) × (withdrawal_record_authorization codec unmarked ≡ ok fingerprint)
    × (some message ≡ some fingerprint)
    × ((none ≡ some fingerprint)
        ⊎ (any (has_fingerprint codec 1 fingerprint) (unmarked ∷ []) ≡ false))
unfolding ensure_withdrawal_authorization_fingerprint is_blank equal_fold db_call
ensure_withdrawal_authorization_fingerprint-authorized_example =
    ensure_withdrawal_authorization_fingerprint-authorized codec unmarked alone
      {kept = record unmarked { authorization_fingerprint = some message }} refl

-- The UPDATE of the fingerprint fails: the table is as it was, but the copy of the record has the fingerprint.
abbrev update_fails : World
update_fails = record alone { faults = false ∷ true ∷ [] }

marked_copy_only :
    ((ensure_withdrawal_authorization_fingerprint codec unmarked update_fails).1.db ≡ alone.db)
    × (record_after_fingerprint codec unmarked update_fails
        ≡ record unmarked { authorization_fingerprint = some message })
unfolding ensure_withdrawal_authorization_fingerprint record_after_fingerprint is_blank equal_fold
    db_call
marked_copy_only = (refl, refl)
