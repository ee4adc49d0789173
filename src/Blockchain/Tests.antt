-- ===== src/Blockchain/Tests.antt =====
-- Examples for blockchain/transaction_sender.go and blockchain/transaction_confirmer.go.
use crynux_relay_wallet.Base.{
  ◌≡◌, refl, ◌≢◌, true, false, none, some, List, [], ◌∷◌, ◌++◌, map, arith, str_eq, if◌then◌else◌,
  All,
}
use crynux_relay_wallet.Models.Transaction.{TransactionStatus, BlockchainTransaction}
use crynux_relay_wallet.World.{
  restore, call_with, broadcast, Db, World, ok, err, db_call, atomic, Message,
}
use crynux_relay_wallet.Transactions.Rows.{
  is_sendable, set_sent, is_claimable, set_sending, is_preparable, set_broadcasting, is_failable,
  set_failed,
}
use crynux_relay_wallet.Transactions.Queries.{
  sync, get_sent_transaction_count_by_network, get_broadcasting_transaction_count_by_network,
}
use crynux_relay_wallet.Transactions.Updates.{
  update, now, mark_sent, check_retry, claim_for_sending, unique_hash, write_broadcast,
  prepare_broadcast, mark_failed_from_sent, recover_legacy_sending_transactions, insert_transaction,
}
use crynux_relay_wallet.Int.{pos, negsuc, ◌+ℤ◌}
use crynux_relay_wallet.Fixture.{
  payout, failed_payout, retry_payout, sending_payout, db_with, world_of, settings,
}
use crynux_relay_wallet.Transactions.Runs.{run, Call}
use crynux_relay_wallet.Transactions.Table.{IsTable, GrownFrom}
use crynux_relay_wallet.Blockchain.Node.{
  ask, Node, Codec, DynamicFeeTx, SignedTransaction, TransactionReceipt,
}
use crynux_relay_wallet.Blockchain.Client.{
  submit, send_signed_raw_transaction, encode_signed_raw_transaction,
  get_error_message_from_transaction, without_nonce, nonce_at, get_nonce, get_blockchain_client,
  BlockchainClient, Clients,
}
use crynux_relay_wallet.Blockchain.Gas.{
  validate_dynamic_fee_caps, add_gas_limit_buffer, build_signed_transaction,
}
use crynux_relay_wallet.Blockchain.Confirmer.{confirm_transaction}
use crynux_relay_wallet.Blockchain.Confirmed.{Confirmation, confirm_transaction-Confirmation}
use crynux_relay_wallet.Blockchain.Sender.{
  mark_broadcast_acknowledged, acknowledge_broadcast, sign_and_broadcast, claim_and_send,
  send_transaction,
}
use crynux_relay_wallet.Blockchain.Backed.{Backed}
use crynux_relay_wallet.Blockchain.Broadcasts.{send_transaction-Backed}
use crynux_relay_wallet.Blockchain.Signed.{IsSigned, build_signed_transaction-IsSigned}
use crynux_relay_wallet.Blockchain.Queue.{collect_transactions, enqueue_transactions}
use crynux_relay_wallet.Blockchain.Collected.{
  collect_transactions-all, enqueue_transactions-Distinct, push_ids, Distinct,
}
use crynux_relay_wallet.Transactions.Queries.{get_page}
use crynux_relay_wallet.Config.{blockchain_of}
use crynux_relay_wallet.Blockchain.Client.{advance_nonce_past, advanced}
use crynux_relay_wallet.Text.{parse_int}
use crynux_relay_wallet.Blockchain.Payouts.{new_send_eth_transaction}
use crynux_relay_wallet.Blockchain.Exact.{new_send_eth_transaction-exact}
use crynux_relay_wallet.Blockchain.Start.{start}
use crynux_relay_wallet.Blockchain.Recovered.{AreRecovered, start-none_sending}
use crynux_relay_wallet.Text.Print.{scan, value, print_int, Column, scan-value}
use crynux_relay_wallet.Errors.{ethereum_not_found}

abbrev receipt : TransactionReceipt
receipt = record {
  is_successful = false;
  block_number = some 7;
  gas_used = 21000;
  effective_gas_price = "3";
}

-- A node at block 9 that knows the receipt of "0xaa", and to which the wallet's balance is 10000000. While
-- it answers, some time passes.
abbrev node : Node
node = record {
  receipt_of = λ w network hash. if str_eq hash "0xaa" then ok receipt else err ethereum_not_found;
  raw_transfer_of = λ w network hash. ok none;
  latest_header = λ w network. ok (record { number = some 9; base_fee = some (pos 20) });
  chain_id_of = λ w network. ok 1;
  pending_nonce_at = λ w network address. ok 3;
  submit = λ w network signed. ok tt;
  balance_at = λ w network address. ok (pos 10000000);
  call_contract = λ w network msg block. ok [];
  estimate_gas = λ w network msg. ok 21000;
  suggest_gas_tip_cap = λ w network. ok (pos 2);
  wait = λ w network. ok tt;
  meanwhile = λ w. Call.wait 1 ∷ [];
}

abbrev codec : Codec
codec = record {
  error_text = λ e. "error";
  hash_hex = λ s. s;
  is_hex_address = λ s. true;
  address_hex = λ s. s;
  decode_hex = λ s. ok (1 ∷ []);
  encode_hex = λ bytes. "0x01";
  decode_big = λ s. ok (pos 0);
  marshal = λ signed. ok (1 ∷ []);
  unmarshal = λ bytes. ok signed;
  sign = λ network tx. ok (record { tx = tx; signature = network });
  hash_of = λ signed. "0xbb";
  transfer_id = 1 ∷ [];
  pack_transfer = λ to amount. ok [];
  unpack_transfer = λ bytes. ok [];
  pack_balance_of = λ address. ok [];
  unpack_balance_of = λ bytes. ok [];
  unpack_string = λ bytes. ok "";
}
  where
    signed : SignedTransaction
    signed = record {
      tx = record {
        chain_id = 1;
        nonce = 3;
        gas_tip_cap = pos 2;
        gas_fee_cap = pos 42;
        gas = 25200;
        to = "0xalice";
        value = pos 5;
        call_data = [];
      };
      signature = "eth";
    }

abbrev client : BlockchainClient
client = record {
  network = "eth";
  chain_id = 1;
  gas_limit = 100000;
  gas_limit_buffer_percent = 20;
  max_fee_per_gas = some (pos 100);
  max_priority_fee_per_gas = some (pos 10);
  address = "0xhot";
  sent_transaction_count_limit = 4;
}

abbrev clients : Clients
clients = ("eth", client) ∷ []

-- A payout that is sent, and waits for its receipt.
abbrev sent_payout : BlockchainTransaction
sent_payout = record payout {
  status = TransactionStatus.sent;
  tx_hash = some "0xaa";
  signed_raw_tx = some "0x01";
  nonce = some (pos 3);
  sent_at = some 40;
}

abbrev waiting : World
waiting = world_of (db_with (sent_payout ∷ []) 2)

waiting-IsTable : IsTable waiting.db
waiting-IsTable = ground arith

abbrev confirmed_world : World
confirmed_world = (confirm_transaction node codec clients settings sent_payout waiting).1

-- It has failed, and gets a retry.
waiting_fails :
    map (λ r. r.status) confirmed_world.db.transactions
    ≡ TransactionStatus.failed ∷ TransactionStatus.pending ∷ []
unfolding confirm_transaction run blockchain_of get_blockchain_client ask atomic
    mark_failed_from_sent update get_error_message_from_transaction parse_int is_failable set_failed
    insert_transaction
waiting_fails = refl

confirm_transaction-Confirmation_example :
    (db : Db) × GrownFrom waiting.db.transactions db
    × Confirmation node codec settings sent_payout db.transactions db.next_transaction_id
        confirmed_world.db.transactions
confirm_transaction-Confirmation_example =
    confirm_transaction-Confirmation node codec clients settings sent_payout waiting waiting-IsTable

-- A pending payout.
abbrev queued : World
queued = world_of (db_with (payout ∷ []) 2)

queued-IsTable : IsTable queued.db
queued-IsTable = ground arith

abbrev sent_world : World
sent_world = (send_transaction node codec clients settings payout queued).1

-- Its payload is broadcast, and the nonce moves past the node's.
queued_is_sent :
    (sent_world.nonces ≡ ("eth", 4) ∷ []) × (sent_world.sent ≡ broadcast "eth" "0x01" ∷ [])
unfolding send_transaction run ask sync get_broadcasting_transaction_count_by_network now
    get_sent_transaction_count_by_network claim_for_sending claim_and_send get_blockchain_client
    sign_and_broadcast get_nonce nonce_at without_nonce update check_retry atomic
    build_signed_transaction blockchain_of parse_int add_gas_limit_buffer validate_dynamic_fee_caps
    encode_signed_raw_transaction prepare_broadcast write_broadcast unique_hash is_preparable
    set_broadcasting is_claimable set_sending acknowledge_broadcast send_signed_raw_transaction
    submit mark_broadcast_acknowledged mark_sent is_sendable set_sent advance_nonce_past advanced
    db_call call_with restore ◌+ℤ◌
queued_is_sent = (refl, refl)

send_transaction-Backed_example :
    GrownFrom queued.db.transactions sent_world.db
    × (more : List Message) × (sent_world.sent ≡ queued.sent ++ more)
    × All (Backed sent_world.db.transactions) more
send_transaction-Backed_example =
    send_transaction-Backed node codec clients settings payout queued queued-IsTable

abbrev signed_payout : SignedTransaction
signed_payout = record {
  tx = record {
    chain_id = 1;
    nonce = 3;
    gas_tip_cap = pos 2;
    gas_fee_cap = pos 42;
    gas = 25200;
    to = "0xalice";
    value = pos 5;
    call_data = [];
  };
  signature = "eth";
}

build_signed_transaction-IsSigned_example : IsSigned node codec client payout 3 signed_payout
unfolding build_signed_transaction run ask blockchain_of parse_int add_gas_limit_buffer
    validate_dynamic_fee_caps ◌+ℤ◌
build_signed_transaction-IsSigned_example =
    build_signed_transaction-IsSigned node codec settings client payout 3 queued
      {signed = signed_payout} refl

collect_transactions-all_example :
    collect_transactions 2 (get_page TransactionStatus.pending) 1 0 queued
    ≡ (ok (payout ∷ []), queued)
collect_transactions-all_example =
    collect_transactions-all TransactionStatus.pending 1 2 queued (omega arith) refl (omega arith)

enqueue_transactions-Distinct_example :
    ((enqueue_transactions 5 (7 ∷ []) (payout ∷ payout ∷ retry_payout ∷ [])).0
      ≡ push_ids (enqueue_transactions 5 (7 ∷ []) (payout ∷ payout ∷ retry_payout ∷ [])).1 (7 ∷ []))
    × Distinct (enqueue_transactions 5 (7 ∷ []) (payout ∷ payout ∷ retry_payout ∷ [])).0
enqueue_transactions-Distinct_example =
    enqueue_transactions-Distinct 5 (7 ∷ []) (payout ∷ payout ∷ retry_payout ∷ []) (refl, tt)

-- The row of that payout, before it is saved.
abbrev new_row : BlockchainTransaction
new_row = record payout { id = 0 }

new_send_eth_transaction-exact_example :
    (raw : DynamicFeeTx) × (codec.sign client.network raw ≡ ok signed_payout)
    × (raw.value ≡ pos 5)
    × (raw.to ≡ codec.address_hex "0xalice")
    × (raw.nonce ≡ 3)
unfolding new_send_eth_transaction build_signed_transaction run ask blockchain_of parse_int
    add_gas_limit_buffer validate_dynamic_fee_caps ◌+ℤ◌
new_send_eth_transaction-exact_example =
    new_send_eth_transaction-exact node codec settings client "0xalice" (pos 5) "eth" 3 queued
      {tx = new_row} {signed = signed_payout} refl refl

-- A row that a crash has left sending.
abbrev crashed : World
crashed = world_of (db_with (failed_payout ∷ sending_payout ∷ []) 3)

crashed-IsTable : IsTable crashed.db
crashed-IsTable = ground arith

start-none_sending_example :
    All (λ r. r.status ≢ TransactionStatus.sending) (start false crashed).1.db.transactions
    × AreRecovered crashed.db.transactions (start false crashed).1.db.transactions
unfolding start recover_legacy_sending_transactions atomic update
start-none_sending_example = start-none_sending crashed {b = true} crashed-IsTable refl

scan-value_example :
    (scan (pos 7) (value (negsuc 119)) ≡ some (negsuc 119))
    × (scan (pos 7) (Column.bytes (print_int (negsuc 119))) ≡ some (negsuc 119))
scan-value_example = scan-value (pos 7) (negsuc 119)
