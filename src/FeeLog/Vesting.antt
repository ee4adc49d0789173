-- ===== src/FeeLog/Vesting.antt =====
-- tasks/sync_task_fee_logs.go: the vesting logs. parseVestingPayload, parseVestingReleasePayload,
-- recoverVestingSigner, upsertVestingCreateLog, applyVestingReleaseLog and applyVestingLogs; and
-- BuildVestingSignMessage of models/vesting.go.
use crynux_relay_wallet.Base.{
  ℕ, ◌-◌, String, Bool, not, ◌||◌, Option, none, some, List, [], ◌∷◌, str_eq, ◌==◌, if◌then◌else◌,
  length,
}
use crynux_relay_wallet.Int.{ℤ, pos, leb_ℤ}
use crynux_relay_wallet.World.{Result, ok, err}
use Prim.Native.String.{◌++◌ as append_str, len, slice}
use text.Mathlib.Text.{starts_with}
use crynux_relay_wallet.Errors.{
  task_fee_vesting_payload_invalid, task_fee_vesting_signature_invalid,
}
use crynux_relay_wallet.Text.{byte_length, is_blank}
use crynux_relay_wallet.FeeLog.Types.{TaskFeeLog}
use crynux_relay_wallet.FeeLog.Deposits.{◌then_ok◌}

pub record VestingPayload : Type 0 where
  pub vesting_id : ℕ
  pub address : String
  pub total_amount : String
  pub released_amount : String
  pub start_time : ℤ
  pub duration_days : ℕ
  pub type : String
  pub admin_signature : String

-- What the vesting logs use of encoding/json, fmt and go-ethereum: `json.Unmarshal` into the two
-- payloads, `common.IsHexAddress`, `%d` of a number, `hexutil.Decode`, and the address of the key that
-- `crypto.SigToPub` recovers from the Keccak hash of a text and a signature.
pub record VestingCodec : Type 0 where
  pub unmarshal_vesting : String → Option VestingPayload
  pub unmarshal_release : String → Option ℕ
  pub is_hex_address : String → Bool
  pub decimal : ℤ → String
  pub decode : String → Option (List ℕ)
  pub signer_of : String → List ℕ → Option String

unfoldable pub is_valid_vesting_type : String → Bool
is_valid_vesting_type t = str_eq t "node" || str_eq t "delegation" || str_eq t "other"

-- The recovery byte, as `SigToPub` wants it.
abbrev recovery_byte : ℕ → ℕ
recovery_byte v = if v == 27 || v == 28 then v - 27 else v

abbrev pub set_recovery_byte : List ℕ → List ℕ
set_recovery_byte [] = []
set_recovery_byte (v ∷ []) = recovery_byte v ∷ []
set_recovery_byte (b ∷ bs) = b ∷ set_recovery_byte bs

-- `strings.TrimPrefix(s, "0x")`.
abbrev pub trim_prefix : String → String
trim_prefix s = if starts_with s "0x" then slice s 2 (len s) else s

abbrev pub concat : List String → String
concat [] = ""
concat (s ∷ ss) = append_str s (concat ss)

module _ (codec : VestingCodec) where
  check_vesting_payload : Option VestingPayload → Result VestingPayload
  unfolding is_valid_vesting_type
  check_vesting_payload none = err task_fee_vesting_payload_invalid
  check_vesting_payload (some payload) =
      if payload.vesting_id == 0
        || str_eq payload.address ""
        || str_eq payload.total_amount ""
        || str_eq payload.released_amount ""
        || leb_ℤ payload.start_time (pos 0)
        || payload.duration_days == 0
        || str_eq payload.type ""
        || str_eq payload.admin_signature ""
        || not (codec.is_hex_address payload.address)
        || not (is_valid_vesting_type payload.type)
      then err task_fee_vesting_payload_invalid
      else ok payload

  unfoldable pub parse_vesting_payload : TaskFeeLog → Result VestingPayload
  unfolding check_vesting_payload
  parse_vesting_payload log =
      if is_blank log.payload
      then err task_fee_vesting_payload_invalid
      else check_vesting_payload (codec.unmarshal_vesting log.payload)

  check_release_payload : Option ℕ → Result ℕ
  check_release_payload none = err task_fee_vesting_payload_invalid
  check_release_payload (some vesting_id) =
      if vesting_id == 0 then err task_fee_vesting_payload_invalid else ok vesting_id

  unfoldable pub parse_vesting_release_payload : TaskFeeLog → Result ℕ
  unfolding check_release_payload
  parse_vesting_release_payload log =
      if is_blank log.payload
      then err task_fee_vesting_payload_invalid
      else check_release_payload (codec.unmarshal_release log.payload)

  unfoldable pub build_vesting_sign_message : VestingPayload → String
  build_vesting_sign_message payload = concat (
      "Crynux Relay Vesting\nAddress: "
      ∷ payload.address
      ∷ "\nTotalAmount: "
      ∷ payload.total_amount
      ∷ "\nStartTime: "
      ∷ codec.decimal payload.start_time
      ∷ "\nDurationDays: "
      ∷ codec.decimal (pos payload.duration_days)
      ∷ "\nType: "
      ∷ payload.type
      ∷ [])

  abbrev signature_result : {A : Type 0} → Option A → Result A
  signature_result none = err task_fee_vesting_signature_invalid
  signature_result (some a) = ok a

  unfoldable pub recover_vesting_signer : VestingPayload → Result String
  unfolding build_vesting_sign_message byte_length
  recover_vesting_signer payload =
      signature_result (codec.decode (append_str "0x" (trim_prefix payload.admin_signature)))
      then_ok λ signature.
          if not (length signature == 65)
          then err task_fee_vesting_signature_invalid
          else (let message = build_vesting_sign_message payload in
              let prefix =
                append_str "\u{19}Ethereum Signed Message:\n"
                  (codec.decimal (pos (byte_length message))) in
              signature_result
                (codec.signer_of (append_str prefix message) (set_recovery_byte signature)))
