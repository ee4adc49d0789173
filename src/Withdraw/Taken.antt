-- ===== src/Withdraw/Taken.antt =====
-- Lemmas on the intake of withdrawals: which records are made of the requests.
use crynux_relay_wallet.Base.{
  ℕ, String, ◌≡◌, refl, sym, ap, ◌∙◌, inl, inr, Bool, true, false, not, ◌&&◌, Option, none, some,
  List, [], ◌∷◌, arith, str_eq, ◌==◌, any, Bool-cases, Option-cases,
}
use crynux_relay_wallet.World.{Db, Action, Result, ok, err, db_call, World, call_with, Result-cases}
use crynux_relay_wallet.World.Inversion.{bind-ok}
use crynux_relay_wallet.Int.{ℤ}
use crynux_relay_wallet.Models.Records.{WithdrawStatus, WithdrawRecord}
use crynux_relay_wallet.Errors.{Error, withdrawal_authorization_replayed}
use crynux_relay_wallet.FeeLog.Accounts.{lift}
use crynux_relay_wallet.Text.{parse_int}
use crynux_relay_wallet.Withdraw.Amounts.{parse_withdrawal_amount}
use crynux_relay_wallet.Withdraw.Authorization.{
  WithdrawalRequest, AuthorizationCodec, withdrawal_request_authorization,
  withdrawal_record_authorization,
}
use crynux_relay_wallet.Withdraw.Intake.{Intake, record_of, authorize, read_as, read_requests}
use mathlib.Core.Path.{subst}

-- Another record of the tables has the fingerprint.
abbrev pub is_known : String → ℕ → Db → Bool
is_known fingerprint remote_id db =
    any
      (λ r.
        (elim r.authorization_fingerprint [ none ↦ false | some f ↦ str_eq f fingerprint ])
        && not (r.remote_id == remote_id))
      db.withdraw_records

-- The record of a request: what the request says, with its amounts read as numbers.
pub record IsCopy (request : WithdrawalRequest) (r : WithdrawRecord) : Type 0 where
  pub same_id : r.remote_id ≡ request.id
  pub same_address : r.address ≡ request.address
  pub same_benefit_address : r.benefit_address ≡ request.benefit_address
  pub same_network : r.network ≡ request.network
  pub same_amount : parse_int request.amount ≡ some r.amount
  pub same_fee : parse_int request.withdrawal_fee ≡ some r.withdrawal_fee

module _ (codec : AuthorizationCodec) (db : Db) where
  -- Why a record is failed: it is not authorized by its signature, or its fingerprint is of a request that
  -- was accepted before it, or of another record of the tables.
  pub data IsRefused (seen : List String) (r : WithdrawRecord) : Type 0 where
    unauthorized : (e : Error) → withdrawal_record_authorization codec r ≡ err e → IsRefused seen r
    repeated :
        (fingerprint : String)
        → withdrawal_record_authorization codec r ≡ ok fingerprint
        → any (λ f. str_eq f fingerprint) seen ≡ true
        → IsRefused seen r
    replayed :
        (fingerprint : String)
        → withdrawal_record_authorization codec r ≡ ok fingerprint
        → is_known fingerprint r.remote_id db ≡ true
        → IsRefused seen r

  -- The records of requests: one each, in order. A record is failed for a reason, or it is pending, its own
  -- fields are authorized by its signature, and its fingerprint is of no request accepted before it and of
  -- no other record of the tables.
  pub data AreRead
      : List String
        → List WithdrawalRequest
        → List WithdrawRecord
        → List WithdrawalRequest
        → Type 0 where
    all_read : {seen : List String} → AreRead seen [] [] []
    refused :
        {seen : List String} {rest : List WithdrawalRequest} {records : List WithdrawRecord}
        {valid : List WithdrawalRequest} (request : WithdrawalRequest) (r : WithdrawRecord)
        → IsCopy request r
        → r.status ≡ WithdrawStatus.failed
        → r.authorization_fingerprint ≡ none
        → IsRefused seen r
        → AreRead seen rest records valid
        → AreRead seen (request ∷ rest) (r ∷ records) valid
    accepted :
        {seen : List String} {rest : List WithdrawalRequest} {records : List WithdrawRecord}
        {valid : List WithdrawalRequest} (request : WithdrawalRequest) (r : WithdrawRecord)
        (fingerprint : String)
        → IsCopy request r
        → r.status ≡ WithdrawStatus.pending
        → r.authorization_fingerprint ≡ some fingerprint
        → withdrawal_record_authorization codec r ≡ ok fingerprint
        → any (λ f. str_eq f fingerprint) seen ≡ false
        → is_known fingerprint r.remote_id db ≡ false
        → AreRead (fingerprint ∷ seen) rest records valid
        → AreRead seen (request ∷ rest) (r ∷ records) (request ∷ valid)

  ok_injective : {A : Type 0} {a b : A} → ok a ≡ ok b → a ≡ b
  ok_injective h = cc

  -- What the verdict on a request says of a record with its fields.
  pub data IsVerdict (seen : List String) (request : WithdrawalRequest) (amount : ℤ)
      : Result String → Type 0 where
    passes :
        (f : String)
        → withdrawal_request_authorization codec request amount ≡ ok f
        → any (λ g. str_eq g f) seen ≡ false
        → is_known f request.id db ≡ false
        → IsVerdict seen request amount (ok f)
    no_authorization :
        (e e' : Error)
        → withdrawal_request_authorization codec request amount ≡ err e'
        → IsVerdict seen request amount (err e)
    seen_before :
        (e : Error) (f : String)
        → withdrawal_request_authorization codec request amount ≡ ok f
        → any (λ g. str_eq g f) seen ≡ true
        → IsVerdict seen request amount (err e)
    known_before :
        (e : Error) (f : String)
        → withdrawal_request_authorization codec request amount ≡ ok f
        → is_known f request.id db ≡ true
        → IsVerdict seen request amount (err e)

  authorize-IsVerdict :
      (seen : List String) (request : WithdrawalRequest) (amount : ℤ) (w : World)
      {v : Result String}
      → w.db ≡ db
      → (authorize codec seen request amount w).0 ≡ ok v
      → IsVerdict seen request amount v
  unfolding authorize db_call call_with
  authorize-IsVerdict seen request amount w {v} same h =
      elim (Result-cases (withdrawal_request_authorization codec request amount)) [
        | inr (e, unsigned) ↦
            let is_v : err e ≡ v = ground (arith, h, unsigned) in
            subst (IsVerdict seen request amount) is_v (no_authorization e e unsigned)
        | inl (f, signed) ↦ elim (Bool-cases (any (λ g. str_eq g f) seen)) [
          | inl before ↦
              let is_v : err withdrawal_authorization_replayed ≡ v =
                ground (arith, h, signed, before) in
              subst (IsVerdict seen request amount) is_v
                (seen_before withdrawal_authorization_replayed f signed before)
          | inr fresh ↦ elim (Bool-cases (is_known f request.id w.db)) [
            | inl old ↦
                let is_v : err withdrawal_authorization_replayed ≡ v =
                  ground (arith, h, signed, fresh, old) in
                subst (IsVerdict seen request amount) is_v (
                  known_before withdrawal_authorization_replayed f signed
                    (ap (is_known f request.id) (sym same) ∙ old))
            | inr new ↦
                let is_v : ok f ≡ v = ground (arith, h, signed, fresh, new) in
                subst (IsVerdict seen request amount) is_v
                  (passes f signed fresh (ap (is_known f request.id) (sym same) ∙ new))
          ]
        ]
      ]

  authorize-db :
      (seen : List String) (request : WithdrawalRequest) (amount : ℤ) (w : World)
      → (authorize codec seen request amount w).1.db ≡ w.db
  unfolding authorize db_call call_with
  authorize-db seen request amount w = ground arith

  as_read :
      (seen : List String) (requests : List WithdrawalRequest) {p q : Intake}
      → ok p ≡ ok q
      → AreRead seen requests p.0 p.1
      → AreRead seen requests q.0 q.1
  as_read seen requests h reading =
      subst (λ i. AreRead seen requests i.0 i.1) (ok_injective h) reading

  module _ (request : WithdrawalRequest) (rest : List WithdrawalRequest) (seen : List String)
      (amount fee : ℤ) (k : List String → Action Intake)
      (reads : (known : List String) (w : World) (i : Intake)
        → w.db ≡ db
        → (k known w).0 ≡ ok i
        → AreRead known rest i.0 i.1)
      (copied : (status : WithdrawStatus) (fingerprint : Option String)
        → IsCopy request (record (record_of request amount fee) {
          status = status;
          authorization_fingerprint = fingerprint;
        })) where
    refusal :
        {e : Error}
        → IsVerdict seen request amount (err e)
        → IsRefused seen (record (record_of request amount fee) { status = WithdrawStatus.failed })
    unfolding withdrawal_request_authorization withdrawal_record_authorization
    refusal (no_authorization e e' unsigned) = unauthorized e' unsigned
    refusal (seen_before e f signed before) = repeated f signed before
    refusal (known_before e f signed old) = replayed f signed old

    acceptance :
        {f : String} {records : List WithdrawRecord} {valid : List WithdrawalRequest}
        → IsVerdict seen request amount (ok f)
        → AreRead (f ∷ seen) rest records valid
        → AreRead seen
            (request ∷ rest)
            (record (record_of request amount fee) { authorization_fingerprint = some f } ∷ records)
            (request ∷ valid)
    unfolding withdrawal_request_authorization withdrawal_record_authorization
    acceptance (passes f signed fresh new) others =
        accepted request _ f (copied WithdrawStatus.pending (some f)) refl refl signed fresh new
          others

    read_as-AreRead :
        (verdict : Result String) (w : World) {i : Intake}
        → w.db ≡ db
        → IsVerdict seen request amount verdict
        → (read_as request amount fee seen k verdict w).0 ≡ ok i
        → AreRead seen (request ∷ rest) i.0 i.1
    unfolding read_as
    read_as-AreRead (err e) w {i} same valid h =
        let (p, ran, made, _) = bind-ok (k seen) _ w h in
        as_read seen (request ∷ rest) made (
          refused request _ (copied WithdrawStatus.failed none) refl refl (refusal {e = e} valid)
            (reads seen w p same ran))
    read_as-AreRead (ok f) w {i} same valid h =
        let (p, ran, made, _) = bind-ok (k (f ∷ seen)) _ w h in
        as_read seen (request ∷ rest) made
          (acceptance {f = f} valid (reads (f ∷ seen) w p same ran))

parsed : (text : String) {n : ℤ} → parse_withdrawal_amount text ≡ ok n → parse_int text ≡ some n
unfolding parse_withdrawal_amount
parsed text {n} h = elim (Option-cases (parse_int text)) [
  | inl junk ↦ absurd (ground (arith, junk))
  | inr (m, q) ↦ q ∙ ap some (ground (arith, q))
]

module _ (codec : AuthorizationCodec) where
  read_from :
      (db : Db) (requests : List WithdrawalRequest) (seen : List String) (w : World) {i : Intake}
      → w.db ≡ db
      → (read_requests codec requests seen w).0 ≡ ok i
      → AreRead codec db seen requests i.0 i.1
  unfolding read_requests
  read_from db [] seen w {i} same h = as_read codec db seen [] h all_read
  read_from db (request ∷ rest) seen w {i} same h =
      let (amount, is_amount, h1, _) =
        bind-ok (lift (parse_withdrawal_amount request.amount)) _ w h in
      let (fee, is_fee, h2, _) =
        bind-ok (lift (parse_withdrawal_amount request.withdrawal_fee)) _ w h1 in
      let (verdict, is_verdict, h3, _) = bind-ok (authorize codec seen request amount) _ w h2 in
      read_as-AreRead codec db request rest seen amount fee (read_requests codec rest)
        (λ known w' i' same'. read_from db rest known w' {i = i'} same')
        (λ status fingerprint. record {
          same_id = refl;
          same_address = refl;
          same_benefit_address = refl;
          same_network = refl;
          same_amount = parsed request.amount is_amount;
          same_fee = parsed request.withdrawal_fee is_fee;
        })
        verdict _ {i = i} (authorize-db codec db seen request amount w ∙ same)
        (authorize-IsVerdict codec db seen request amount w same is_verdict) h3

  -- Of the requests that are read, one record each is made, in order, with the address, the benefit address,
  -- the network and the amounts of the request. A record is failed, without a fingerprint, if its fields are not
  -- authorized by its own signature, or if its fingerprint is of a request accepted before it or of another
  -- record of the tables; and otherwise it is pending with its fingerprint. The latter are the requests that are checked
  -- further.
  pub read_requests-AreRead :
      (requests : List WithdrawalRequest) (seen : List String) (w : World) {i : Intake}
      → (read_requests codec requests seen w).0 ≡ ok i
      → AreRead codec w.db seen requests i.0 i.1
  read_requests-AreRead requests seen w {i} h = read_from w.db requests seen w {i = i} refl h
