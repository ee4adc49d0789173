-- ===== src/Blockchain/Signed.antt =====
-- Lemmas on blockchain/transaction_sender.go: what is signed.
use crynux_relay_wallet.Base.{
  ℕ, ◌≤◌, String, ◌≡◌, refl, sym, ap, ◌⊎◌, ◌&&◌, Option, none, some, List, arith, str_eq, eq_iff,
  ltb, if◌then◌else◌,
}
use crynux_relay_wallet.Models.Transaction.{BlockchainTransaction}
use crynux_relay_wallet.World.{World, ok, pure, raise, done}
use crynux_relay_wallet.Int.{ℤ, ◌+ℤ◌, ◌≤ℤ◌}
use mathlib.Core.Path.{subst}
use crynux_relay_wallet.World.Inversion.{bind-ok}
use crynux_relay_wallet.Blockchain.Node.{Node, Codec, ask, DynamicFeeTx, SignedTransaction}
use crynux_relay_wallet.Blockchain.Client.{
  BlockchainClient, parse_transaction_data, build_call_msg_from_transaction,
}
use crynux_relay_wallet.Blockchain.Gas.{
  add_gas_limit_buffer, validate_dynamic_fee_caps, over_error, estimate_transaction_gas_limit,
  base_fee_of, suggest_dynamic_fee_caps, validate_hot_wallet_gas_balance,
  validate_hot_wallet_payout_balance, build_dynamic_fee_transaction, build_signed_transaction,
}
use crynux_relay_wallet.FeeLog.Accounts.{lift}
use crynux_relay_wallet.FeeLog.Paid.{then_ok-ok}
use crynux_relay_wallet.Config.{AppConfig}
use crynux_relay_wallet.Blockchain.Client.{number_of_value, require_ok}
use crynux_relay_wallet.Errors.{
  Error, gas_limit_over_cap, max_fee_over_cap, priority_fee_over_cap, from_address_mismatch,
  to_address_invalid,
}
use crynux_relay_wallet.Text.{parse_int}

-- A number within a cap, if there is one.
abbrev pub Within : Option ℤ → ℤ → Type 0
Within none n = Unit
Within (some cap) n = n ≤ℤ cap

-- What was signed for the row: its value, payee and data, with the nonce, within the limits.
pub record IsSigned (node : Node) (codec : Codec) (client : BlockchainClient)
    (tx : BlockchainTransaction) (nonce : ℕ) (signed : SignedTransaction) : Type 0 where
  pub raw : DynamicFeeTx
  pub signs : codec.sign client.network raw ≡ ok signed
  pub from_client : tx.from_address ≡ client.address
  pub same_nonce : raw.nonce ≡ nonce
  pub same_chain : raw.chain_id ≡ client.chain_id
  pub same_value : parse_int tx.value ≡ some raw.value
  pub same_payee : raw.to ≡ codec.address_hex tx.to_address
  pub same_data : parse_transaction_data node codec tx.call_data ≡ ok raw.call_data
  pub gas_capped : (client.gas_limit ≡ 0) ⊎ (raw.gas ≤ client.gas_limit)
  pub fee_capped : Within client.max_fee_per_gas raw.gas_fee_cap
  pub tip_capped : Within client.max_priority_fee_per_gas raw.gas_tip_cap

ok_eq : {A : Type 0} {a b : A} → ok a ≡ ok b → a ≡ b
ok_eq h = cc

same_address :
    (a b : String) (e : Error) (w : World) {u : Unit {0}}
    → ((if str_eq a b then done else raise e) w).0 ≡ ok u
    → a ≡ b
same_address a b e w h = ground (arith, eq_iff a b)

module _ (node : Node) (codec : Codec) (app : AppConfig) (client : BlockchainClient)
    (tx : BlockchainTransaction) where
  gas_capped_by :
      (w : World) {g : ℕ}
      → (estimate_transaction_gas_limit node codec app client tx w).0 ≡ ok g
      → (client.gas_limit ≡ 0) ⊎ (g ≤ client.gas_limit)
  unfolding estimate_transaction_gas_limit
  gas_capped_by w {g} h =
      let (msg, _, h₁, _) =
        bind-ok (lift (build_call_msg_from_transaction node codec tx)) _ w {b = g} h in
      let (u, _, h₂, _) = bind-ok (ask node (λ w. node.wait w client.network)) _ _ {b = g} h₁ in
      let (estimated, _, h₃, _) =
        bind-ok (ask node (λ w. node.estimate_gas w client.network msg)) _ _ {b = g} h₂ in
      let (limit, _, h₄, _) =
        bind-ok (lift (add_gas_limit_buffer estimated client.gas_limit_buffer_percent)) _ _ {b = g}
          h₃ in
      last limit _ h₄
    where
      last :
          (limit : ℕ) (v : World)
          → ((if ltb 0 client.gas_limit && ltb client.gas_limit limit
                then raise (gas_limit_over_cap limit client.gas_limit)
                else pure limit)
              v).0
            ≡ ok g
          → (client.gas_limit ≡ 0) ⊎ (g ≤ client.gas_limit)
      last limit v e = ground arith

  over_error-Within :
      (e : ℤ → ℤ → Error) (cap : Option ℤ) (n : ℤ) → over_error e cap n ≡ ok tt → Within cap n
  over_error-Within e none n h = tt
  over_error-Within e (some cap) n h = ground arith

  caps-Within :
      (caps : ℤ × ℤ) (w : World)
      → (suggest_dynamic_fee_caps node codec app client w).0 ≡ ok caps
      → Within client.max_fee_per_gas caps.0 × Within client.max_priority_fee_per_gas caps.1
  unfolding suggest_dynamic_fee_caps validate_dynamic_fee_caps
  caps-Within caps w h =
      let (_, _, h₁, _) = bind-ok (ask node (λ w. node.wait w client.network)) _ w {b = caps} h in
      let (header, _, h₂, _) =
        bind-ok (ask node (λ w. node.latest_header w client.network)) _ _ {b = caps} h₁ in
      let (base, _, h₃, _) =
        bind-ok (lift (base_fee_of node codec app header.base_fee)) _ _ {b = caps} h₂ in
      let (_, _, h₄, _) = bind-ok (ask node (λ w. node.wait w client.network)) _ _ {b = caps} h₃ in
      let (tip, _, h₅, _) =
        bind-ok (ask node (λ w. node.suggest_gas_tip_cap w client.network)) _ _ {b = caps} h₄ in
      let (_, valid, h₆, _) =
        bind-ok
          (lift (
            validate_dynamic_fee_caps (base +ℤ base +ℤ tip) tip client.max_fee_per_gas
              client.max_priority_fee_per_gas))
          _ _ {b = caps} h₅ in
      let same : (base +ℤ base +ℤ tip, tip) ≡ caps = ok_eq h₆ in
      let (_, fee_ok, tip_ok) =
        then_ok-ok (over_error max_fee_over_cap client.max_fee_per_gas (base +ℤ base +ℤ tip))
          (λ _. over_error priority_fee_over_cap client.max_priority_fee_per_gas tip) valid in
      subst (λ c. Within client.max_fee_per_gas c.0 × Within client.max_priority_fee_per_gas c.1)
        same
        (
          over_error-Within max_fee_over_cap client.max_fee_per_gas (base +ℤ base +ℤ tip) fee_ok,
          over_error-Within priority_fee_over_cap client.max_priority_fee_per_gas tip tip_ok,
        )

  number_of_value-ok : (o : Option ℤ) {n : ℤ} → number_of_value node codec o ≡ ok n → o ≡ some n
  number_of_value-ok none h = cc
  number_of_value-ok (some m) h = cc

  built :
      (nonce gas : ℕ) (fee tip : ℤ) (raw : DynamicFeeTx)
      → build_dynamic_fee_transaction node codec app tx nonce gas fee tip client.chain_id ≡ ok raw
      → (parse_int tx.value ≡ some raw.value)
        × (parse_transaction_data node codec tx.call_data ≡ ok raw.call_data)
        × (raw ≡ record {
          chain_id = client.chain_id;
          nonce = nonce;
          gas_tip_cap = tip;
          gas_fee_cap = fee;
          gas = gas;
          to = codec.address_hex tx.to_address;
          value = raw.value;
          call_data = raw.call_data;
        })
  unfolding build_dynamic_fee_transaction
  built nonce gas fee tip raw h =
      let (value, v, h₁) =
        then_ok-ok (number_of_value node codec (parse_int tx.value)) _ {b = raw} h in
      let (_, _, h₂) =
        then_ok-ok (require_ok node codec (codec.is_hex_address tx.to_address) to_address_invalid) _
          {b = raw} h₁ in
      let (bytes, d, h₃) =
        then_ok-ok (parse_transaction_data node codec tx.call_data) _ {b = raw} h₂ in
      let valued = number_of_value-ok (parse_int tx.value) v in
      whole value bytes valued d (ok_eq h₃)
    where
      made : ℤ → List ℕ → DynamicFeeTx
      made value bytes = record {
        chain_id = client.chain_id;
        nonce = nonce;
        gas_tip_cap = tip;
        gas_fee_cap = fee;
        gas = gas;
        to = codec.address_hex tx.to_address;
        value = value;
        call_data = bytes;
      }

      whole :
          (value : ℤ) (bytes : List ℕ)
          → parse_int tx.value ≡ some value
          → parse_transaction_data node codec tx.call_data ≡ ok bytes
          → made value bytes ≡ raw
          → (parse_int tx.value ≡ some raw.value)
            × (parse_transaction_data node codec tx.call_data ≡ ok raw.call_data)
            × (raw ≡ made raw.value raw.call_data)
      whole value bytes v d e =
          subst
            (λ r.
              (parse_int tx.value ≡ some r.value)
              × (parse_transaction_data node codec tx.call_data ≡ ok r.call_data)
              × (r ≡ made r.value r.call_data))
            e (v, d, refl)

  -- What is signed is the payout of the row: it comes from the client's address, has the row's value, data
  -- and payee and the given nonce, and its gas limit and fee caps are within those configured.
  pub build_signed_transaction-IsSigned :
      (nonce : ℕ) (w : World) {signed : SignedTransaction}
      → (build_signed_transaction node codec app client tx nonce w).0 ≡ ok signed
      → IsSigned node codec client tx nonce signed
  unfolding build_signed_transaction
  build_signed_transaction-IsSigned nonce w {signed} h =
      let (_, same, h₁, _) =
        bind-ok
          (if str_eq tx.from_address client.address then done else raise from_address_mismatch) _ w
          {b = signed} h in
      let (_, _, h₂, _) =
        bind-ok (validate_hot_wallet_payout_balance node codec app client tx) _ _ {b = signed} h₁ in
      let (gas, limited, h₃, _) =
        bind-ok (estimate_transaction_gas_limit node codec app client tx) _ _ {b = signed} h₂ in
      let (caps, capped, h₄, _) =
        bind-ok (suggest_dynamic_fee_caps node codec app client) _ _ {b = signed} h₃ in
      let (_, _, h₅, _) =
        bind-ok (validate_hot_wallet_gas_balance node codec app client tx gas caps.0) _ _
          {b = signed} h₄ in
      let (raw, made, h₆, _) =
        bind-ok
          (lift (
            build_dynamic_fee_transaction node codec app tx nonce gas caps.0 caps.1
              client.chain_id))
          _ _ {b = signed} h₅ in
      let (value, bytes, whole) = built nonce gas caps.0 caps.1 raw made in
      let (fee, tip) = caps-Within caps _ capped in
      record {
        raw = raw;
        signs = h₆;
        from_client = same_address tx.from_address client.address from_address_mismatch w same;
        same_nonce = ap (λ r. r.nonce) whole;
        same_chain = ap (λ r. r.chain_id) whole;
        same_value = value;
        same_payee = ap (λ r. r.to) whole;
        same_data = bytes;
        gas_capped =
            subst (λ g. (client.gas_limit ≡ 0) ⊎ (g ≤ client.gas_limit))
              (sym (ap (λ r. r.gas) whole)) (gas_capped_by _ limited);
        fee_capped =
            subst (Within client.max_fee_per_gas) (sym (ap (λ r. r.gas_fee_cap) whole)) fee;
        tip_capped =
            subst (Within client.max_priority_fee_per_gas) (sym (ap (λ r. r.gas_tip_cap) whole))
              tip;
      }
