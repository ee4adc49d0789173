-- ===== src/Withdraw/Replayed.antt =====
-- What ensureWithdrawalAuthorizationFingerprint says when it passes.
use crynux_relay_wallet.Base.{
  String, ◌≡◌, ap, ◌∙◌, ◌⊎◌, inl, inr, false, some, arith, eq_iff, Option-cases, any,
}
use crynux_relay_wallet.World.{World, ok, call_with, db_call}
use crynux_relay_wallet.Models.Records.{WithdrawRecord}
use crynux_relay_wallet.Withdraw.Authorization.{
  check_fingerprint, has_fingerprint, AuthorizationCodec, withdrawal_record_authorization,
  ensure_withdrawal_authorization_fingerprint,
}
use crynux_relay_wallet.World.Inversion.{bind-ok}

module _ (codec : AuthorizationCodec) (r : WithdrawRecord) (w : World) where
  -- A record that passes is authorized, and has the fingerprint of its authorization: either it had
  -- the fingerprint before, or no other record of the table has it.
  pub ensure_withdrawal_authorization_fingerprint-authorized :
      {kept : WithdrawRecord}
      → (ensure_withdrawal_authorization_fingerprint codec r w).0 ≡ ok kept
      → (fingerprint : String) × (withdrawal_record_authorization codec r ≡ ok fingerprint)
        × (kept.authorization_fingerprint ≡ some fingerprint)
        × ((r.authorization_fingerprint ≡ some fingerprint)
            ⊎ (any (has_fingerprint codec r.id fingerprint) w.db.withdraw_records ≡ false))
  unfolding ensure_withdrawal_authorization_fingerprint check_fingerprint db_call call_with
  ensure_withdrawal_authorization_fingerprint-authorized h =
      let (f, is_f, h', _) = bind-ok (λ w'. (withdrawal_record_authorization codec r, w')) _ w h in
      elim (Option-cases r.authorization_fingerprint) [
        | inr (known, q) ↦
            (let same : known ≡ f = ground (arith, h', q, eq_iff known f) in
              let kept_known = q ∙ ap some same in (f, is_f, ground (arith, h', q), inl kept_known))
        | inl q ↦
            (let fresh : any (has_fingerprint codec r.id f) w.db.withdraw_records ≡ false =
                ground (arith, h', q) in
              (f, is_f, ground (arith, h', q), inr fresh))
      ]
