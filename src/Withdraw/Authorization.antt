-- ===== src/Withdraw/Authorization.antt =====
-- tasks/process_withdrawal_requests.go: the authorization of a withdrawal by the signature of its address,
-- with WithdrawalRequest of relay_api/withdrawal_request.go.
use crynux_relay_wallet.Base.{
  ℕ, String, Bool, false, not, ◌&&◌, Option, none, some, List, [], ◌∷◌, map, str_eq, ◌==◌,
  if◌then◌else◌, length, any,
}
use crynux_relay_wallet.World.{
  World, Db, Result, ok, err, Action, pure, raise, gets, ◌>>=◌, ◌>>◌, done, modify, db_call,
}
use crynux_relay_wallet.Int.{ℤ, pos, eqb_ℤ}
use crynux_relay_wallet.Models.Records.{WithdrawRecord}
use crynux_relay_wallet.FeeLog.Deposits.{◌then_ok◌}
use crynux_relay_wallet.FeeLog.Vesting.{concat, set_recovery_byte, trim_prefix}
use crynux_relay_wallet.Text.{byte_length, is_blank, equal_fold}
use crynux_relay_wallet.Text.Print.{print_int}
use crynux_relay_wallet.Errors.{
  Error, withdrawal_authorization_missing, withdrawal_authorization_invalid,
  withdrawal_authorization_address_mismatch, withdrawal_authorization_replayed,
}
use Prim.Native.String.{◌++◌ as append_str}

-- The relay's status, a number of which 0 is pending.
pub record WithdrawalRequest : Type 0 where
  pub id : ℕ
  pub created_at : ℕ
  pub address : String
  pub benefit_address : String
  pub amount : String
  pub withdrawal_fee : String
  pub network : String
  pub status : ℤ
  pub relay_account_event_id : ℕ
  pub timestamp : ℤ
  pub signature : String

-- What the authorization uses of go-ethereum and crypto/sha256: `hexutil.Decode`, the address of the key
-- that `SigToPub` recovers from the Keccak hash of a text and a signature, and the hash of a text as hex.
pub record AuthorizationCodec : Type 0 where
  pub decode : String → Option (List ℕ)
  pub signer_of : String → List ℕ → Option String
  pub fingerprint : String → String

unfoldable pub build_withdrawal_authorization_message :
    String → String → String → String → ℤ → String
unfolding print_int
build_withdrawal_authorization_message address amount benefit_address network timestamp = concat (
    "Crynux Relay\nAction: Withdraw "
    ∷ amount
    ∷ " from "
    ∷ address
    ∷ " to "
    ∷ benefit_address
    ∷ " on "
    ∷ network
    ∷ "\nAddress: "
    ∷ address
    ∷ "\nTimestamp: "
    ∷ print_int timestamp
    ∷ [])

-- `personal_sign`: the text with its prefix.
unfoldable pub signed_text : String → String
unfolding print_int byte_length
signed_text message =
    append_str
      (append_str "\u{19}Ethereum Signed Message:\n" (print_int (pos (byte_length message))))
      message

unfoldable pub or_invalid : {A : Type 0} → Option A → Result A
or_invalid none = err withdrawal_authorization_invalid
or_invalid (some a) = ok a

unfoldable pub or_missing : {A : Type 0} → Option A → Result A
or_missing none = err withdrawal_authorization_missing
or_missing (some a) = ok a

unfoldable pub demand : Bool → Error → Result (Unit {0})
demand holds e = if holds then ok tt else err e

-- A zero timestamp and an empty signature are null.
abbrev pub time_of : ℤ → Option ℤ
time_of t = if eqb_ℤ t (pos 0) then none else some t

abbrev pub signature_of : String → Option String
signature_of s = if str_eq s "" then none else some s

module _ (codec : AuthorizationCodec) where
  unfoldable pub validate_withdrawal_authorization :
      String → String → String → String → Option ℤ → Option String → Result String
  unfolding build_withdrawal_authorization_message signed_text or_invalid or_missing demand
  validate_withdrawal_authorization address amount benefit_address network timestamp signature =
      or_missing timestamp then_ok λ time. or_missing signature then_ok λ text.
      demand (not (is_blank text)) withdrawal_authorization_missing then_ok λ _.
      or_invalid (codec.decode (append_str "0x" (trim_prefix text))) then_ok λ bytes.
      demand (length bytes == 65) withdrawal_authorization_invalid then_ok λ _.
      or_invalid (
        codec.signer_of
          (signed_text
            (build_withdrawal_authorization_message address amount benefit_address network time))
          (set_recovery_byte bytes))
      then_ok λ signer.
          demand (equal_fold signer address) withdrawal_authorization_address_mismatch then_ok λ _.
          ok (
            codec.fingerprint
              (build_withdrawal_authorization_message address amount benefit_address network time))

  unfoldable pub withdrawal_request_authorization : WithdrawalRequest → ℤ → Result String
  unfolding validate_withdrawal_authorization print_int
  withdrawal_request_authorization request amount =
      validate_withdrawal_authorization request.address (print_int amount) request.benefit_address
        request.network (time_of request.timestamp) (signature_of request.signature)

  unfoldable pub withdrawal_record_authorization : WithdrawRecord → Result String
  unfolding validate_withdrawal_authorization print_int
  withdrawal_record_authorization r =
      validate_withdrawal_authorization r.address (print_int r.amount) r.benefit_address r.network
        r.timestamp r.signature

  -- Another record has the fingerprint.
  abbrev pub has_fingerprint : ℕ → String → WithdrawRecord → Bool
  has_fingerprint id fingerprint r =
      ((elim r.authorization_fingerprint [ none ↦ false | some f ↦ str_eq f fingerprint ])
        && not (r.id == id))

  abbrev set_fingerprint : ℕ → String → WithdrawRecord → WithdrawRecord
  set_fingerprint id fingerprint r =
      if r.id == id then record r { authorization_fingerprint = some fingerprint } else r

  abbrev update_fingerprint : ℕ → String → Db → Db
  update_fingerprint id fingerprint db = record db {
    withdraw_records = map (set_fingerprint id fingerprint) db.withdraw_records;
  }

  -- No other record has the fingerprint.
  unfoldable pub check_fingerprint : ℕ → String → Action (Unit {0})
  check_fingerprint id fingerprint = do
    db_call
    existing ← gets (λ w. any (has_fingerprint id fingerprint) w.db.withdraw_records)
    if existing then raise withdrawal_authorization_replayed else done

  -- The record has a fingerprint, or gets one that no other has. The result is the caller's copy; after an
  -- error it is that of record_after_fingerprint.
  unfoldable pub ensure_withdrawal_authorization_fingerprint :
      WithdrawRecord → Action WithdrawRecord
  unfolding withdrawal_record_authorization check_fingerprint
  ensure_withdrawal_authorization_fingerprint r = do
    fingerprint ← (λ w. (withdrawal_record_authorization r, w))
    elim r.authorization_fingerprint [
      | some known ↦
          (if str_eq known fingerprint then pure r else raise withdrawal_authorization_invalid)
      | none ↦ (do
        check_fingerprint r.id fingerprint
        db_call
        modify (update_fingerprint r.id fingerprint)
        pure (record r { authorization_fingerprint = some fingerprint }))
    ]

  abbrev marked_copy : Result (Unit {0}) → String → WithdrawRecord → WithdrawRecord
  marked_copy (ok u) fingerprint r = record r { authorization_fingerprint = some fingerprint }
  marked_copy (err e) fingerprint r = r

  -- The caller's copy of the record, whatever the result: it has the fingerprint before the UPDATE runs, and
  -- keeps it where that fails.
  unfoldable pub record_after_fingerprint : WithdrawRecord → World → WithdrawRecord
  unfolding withdrawal_record_authorization check_fingerprint
  record_after_fingerprint r w = elim (withdrawal_record_authorization r) [
    | err e ↦ r
    | ok fingerprint ↦ (elim r.authorization_fingerprint [
      | some known ↦ r
      | none ↦ marked_copy (check_fingerprint r.id fingerprint w).0 fingerprint r
    ])
  ]
