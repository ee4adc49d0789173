-- ===== src/Withdraw/Amounts.antt =====
-- tasks/process_withdrawal_requests.go: parseWithdrawalAmount and withdrawalTotalAmount.
use crynux_relay_wallet.Base.{String, Option, none, some, if◌then◌else◌}
use crynux_relay_wallet.Int.{ℤ, pos, ◌+ℤ◌, ltb_ℤ}
use crynux_relay_wallet.World.{Result, ok, err}
use crynux_relay_wallet.Errors.{withdrawal_request_amount_invalid}
use crynux_relay_wallet.Text.{parse_int}

abbrev pub not_negative : Option ℤ → Result ℤ
not_negative none = err withdrawal_request_amount_invalid
not_negative (some n) = if ltb_ℤ n (pos 0) then err withdrawal_request_amount_invalid else ok n

unfoldable pub parse_withdrawal_amount : String → Result ℤ
parse_withdrawal_amount text = not_negative (parse_int text)

unfoldable pub withdrawal_total_amount : ℤ → ℤ → ℤ
withdrawal_total_amount amount withdrawal_fee = amount +ℤ withdrawal_fee
