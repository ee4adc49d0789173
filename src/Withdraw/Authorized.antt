-- ===== src/Withdraw/Authorized.antt =====
-- What an accepted authorization of a withdrawal says.
use crynux_relay_wallet.Text.Print.{print_int}
use crynux_relay_wallet.Base.{
  ◌↔◌, false, ℕ, String, ◌≡◌, refl, Bool, true, false, not, Option, none, some, List, ◌==◌, ==_iff,
  length,
}
use crynux_relay_wallet.World.{ok}
use crynux_relay_wallet.Int.{ℤ, pos}
use crynux_relay_wallet.Errors.{
  Error, withdrawal_authorization_missing, withdrawal_authorization_invalid,
  withdrawal_authorization_address_mismatch,
}
use crynux_relay_wallet.Text.{byte_length, equal_fold, is_blank}
use crynux_relay_wallet.FeeLog.Vesting.{set_recovery_byte, trim_prefix}
use crynux_relay_wallet.Withdraw.Authorization.{
  AuthorizationCodec, build_withdrawal_authorization_message, signed_text, or_invalid, or_missing,
  demand, validate_withdrawal_authorization,
}
use crynux_relay_wallet.FeeLog.Paid.{then_ok-ok}
use Prim.Native.String.{String, ◌++◌ as append_str}

or_invalid-ok : {A : Type 0} (o : Option A) {a : A} → or_invalid o ≡ ok a → o ≡ some a
unfolding or_invalid
or_invalid-ok none h = cc
or_invalid-ok (some a) h = cc

or_missing-ok : {A : Type 0} (o : Option A) {a : A} → or_missing o ≡ ok a → o ≡ some a
unfolding or_missing
or_missing-ok none h = cc
or_missing-ok (some a) h = cc

ok_injective : {A : Type 0} {a b : A} → ok a ≡ ok b → a ≡ b
ok_injective h = cc

pub demand-ok : (b : Bool) (e : Error) {u : Unit {0}} → demand b e ≡ ok u → b ≡ true
unfolding demand
demand-ok true e h = refl
demand-ok false e h = cc

-- The text that is to be signed for a withdrawal.
abbrev pub text_to_sign : String → String → String → String → ℤ → String
text_to_sign address amount benefit_address network time =
    append_str "Crynux Relay\nAction: Withdraw " (
      append_str amount (
        append_str " from " (
          append_str address (
            append_str " to " (
              append_str benefit_address (
                append_str " on " (
                  append_str network (
                    append_str "\nAddress: " (
                      append_str address
                        (append_str "\nTimestamp: " (append_str (print_int time) "")))))))))))

-- A text as a wallet signs it.
abbrev pub personal_text : String → String
personal_text text =
    append_str (append_str "\u{19}Ethereum Signed Message:\n" (print_int (pos (byte_length text))))
      text

not-true : (b : Bool) → not b ≡ true → b ≡ false
not-true true h = cc
not-true false h = refl

module _ (codec : AuthorizationCodec) where
  -- The signature, of 65 bytes, is of the address, over a message that names exactly these fields.
  pub record IsAuthorized (address amount benefit_address network : String) (timestamp : Option ℤ)
      (signature : Option String) (fingerprint : String) : Type 0 where
    pub time : ℤ
    pub text : String
    pub bytes : List ℕ
    pub signer : String
    pub of_time : timestamp ≡ some time
    pub of_signature : signature ≡ some text
    pub not_blank : is_blank text ≡ false
    pub decoded : codec.decode (append_str "0x" (trim_prefix text)) ≡ some bytes
    pub of_length : length bytes ≡ 65
    pub signed_by :
        codec.signer_of
          (personal_text (text_to_sign address amount benefit_address network time))
          (set_recovery_byte bytes)
        ≡ some signer
    pub of_address : equal_fold signer address ≡ true
    pub of_message :
        codec.fingerprint (text_to_sign address amount benefit_address network time) ≡ fingerprint

  module _ (address amount benefit_address network : String) (timestamp : Option ℤ)
      (signature : Option String) (fingerprint : String) where
    accepted-IsAuthorized :
        validate_withdrawal_authorization codec address amount benefit_address network timestamp
            signature
          ≡ ok fingerprint
        → IsAuthorized address amount benefit_address network timestamp signature fingerprint
    unfolding validate_withdrawal_authorization build_withdrawal_authorization_message signed_text
    accepted-IsAuthorized h =
        let (time, is_time, h1) = then_ok-ok (or_missing timestamp) _ h in
        let (text, is_text, h2) = then_ok-ok (or_missing signature) _ h1 in
        let (_, not_blank, h3) =
          then_ok-ok (demand (not (is_blank text)) withdrawal_authorization_missing) _ h2 in
        let (bytes, is_bytes, h4) =
          then_ok-ok (or_invalid (codec.decode (append_str "0x" (trim_prefix text)))) _ h3 in
        let (_, long, h5) =
          then_ok-ok (demand (length bytes == 65) withdrawal_authorization_invalid) _ h4 in
        let (signer, is_signer, h6) =
          then_ok-ok
            (or_invalid (
              codec.signer_of
                (signed_text (
                  build_withdrawal_authorization_message address amount benefit_address network
                    time))
                (set_recovery_byte bytes)))
            _ h5 in
        let (_, equal, h7) =
          then_ok-ok (demand (equal_fold signer address) withdrawal_authorization_address_mismatch)
            _ h6 in
        record {
          time = time;
          text = text;
          bytes = bytes;
          signer = signer;
          of_time = or_missing-ok _ is_time;
          of_signature = or_missing-ok _ is_text;
          not_blank = not-true (is_blank text) (demand-ok _ _ not_blank);
          decoded = or_invalid-ok _ is_bytes;
          of_length = (==_iff _ _).0 (demand-ok _ _ long);
          signed_by = or_invalid-ok _ is_signer;
          of_address = demand-ok _ _ equal;
          of_message = ok_injective h7;
        }

    IsAuthorized-accepted :
        IsAuthorized address amount benefit_address network timestamp signature fingerprint
        → validate_withdrawal_authorization codec address amount benefit_address network timestamp
            signature
          ≡ ok fingerprint
    unfolding validate_withdrawal_authorization build_withdrawal_authorization_message signed_text
        or_missing or_invalid demand
    IsAuthorized-accepted a =
        rw
          (
            a.of_time, a.of_signature, a.not_blank, a.decoded, a.of_length, a.signed_by,
            a.of_address, a.of_message,
          )
          refl

    -- A withdrawal is accepted with a fingerprint exactly when its signature has 65 bytes, the signer that is
    -- recovered from it over the text with its address, amount, benefit address, network and timestamp is its
    -- address, and the fingerprint is that of the text.
    pub validate_withdrawal_authorization-IsAuthorized :
        (validate_withdrawal_authorization codec address amount benefit_address network timestamp
            signature
          ≡ ok fingerprint)
        ↔ IsAuthorized address amount benefit_address network timestamp signature fingerprint
    validate_withdrawal_authorization-IsAuthorized = (accepted-IsAuthorized, IsAuthorized-accepted)
