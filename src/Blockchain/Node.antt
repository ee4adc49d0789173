-- ===== src/Blockchain/Node.antt =====
-- blockchain/: what it asks the nodes of the networks, and what it uses of go-ethereum. Both are
-- parameters of the model. An answer may depend on the state of the world; an address or a hash is a
-- text, and bytes are a list of numbers.
use crynux_relay_wallet.Base.{
  true, false, ◌%◌, ◌^◌, ◌-◌, suc, if◌then◌else◌, ltb, suc, ◌-◌, ◌^◌, false, ltb, ◌%◌,
  if◌then◌else◌, true, ℕ, String, Bool, Option, List,
}
use crynux_relay_wallet.Int.{negsuc, pos, ℤ}
use crynux_relay_wallet.World.{World, Result, Action}
use crynux_relay_wallet.Transactions.Runs.{Call, run}
use crynux_relay_wallet.Errors.{Error, ethereum_not_found}

pub record TransactionReceipt : Type 0 where
  pub is_successful : Bool
  pub block_number : Option ℕ
  pub gas_used : ℕ
  pub effective_gas_price : String

pub record Header : Type 0 where
  pub number : Option ℕ
  pub base_fee : Option ℤ

pub record RawTransactionTransfer : Type 0 where
  pub hash : String
  pub from : String
  pub to : String
  pub value : String
  pub input : String
  pub call_data : String

pub record TransactionTransfer : Type 0 where
  pub hash : String
  pub from : String
  pub to : Option String
  pub value : ℤ
  pub input : List ℕ

pub record CallMsg : Type 0 where
  pub from : Option String
  pub to : String
  pub value : ℤ
  pub call_data : List ℕ

pub record DynamicFeeTx : Type 0 where
  pub chain_id : ℕ
  pub nonce : ℕ
  pub gas_tip_cap : ℤ
  pub gas_fee_cap : ℤ
  pub gas : ℕ
  pub to : String
  pub value : ℤ
  pub call_data : List ℕ

-- What was signed, and the signature.
pub record SignedTransaction : Type 0 where
  pub tx : DynamicFeeTx
  pub signature : String

pub data AbiValue : Type 0 where
  address_value other_value : String → AbiValue
  big_int_value : ℤ → AbiValue

-- The answers of the node of a network. `wait` is the rate limiter. While a node answers, the other
-- tasks go on: `meanwhile` says which calls of the methods of the table they make.
pub record Node : Type 0 where
  pub receipt_of : World → String → String → Result TransactionReceipt
  pub raw_transfer_of : World → String → String → Result (Option RawTransactionTransfer)
  pub latest_header : World → String → Result Header
  pub chain_id_of : World → String → Result ℕ
  pub pending_nonce_at : World → String → String → Result ℕ
  pub submit : World → String → SignedTransaction → Result (Unit {0})
  pub balance_at : World → String → String → Result ℤ
  pub call_contract : World → String → CallMsg → Option ℤ → Result (List ℕ)
  pub estimate_gas : World → String → CallMsg → Result ℕ
  pub suggest_gas_tip_cap : World → String → Result ℤ
  pub wait : World → String → Result (Unit {0})
  pub meanwhile : World → List Call

-- fmt and go-ethereum: the text of an error, hashes and addresses, hexadecimal texts, the binary
-- form of a signed transaction, signing with the key of a network, and the ABI.
pub record Codec : Type 0 where
  pub error_text : Error → String
  pub hash_hex : String → String
  pub is_hex_address : String → Bool
  pub address_hex : String → String
  pub decode_hex : String → Result (List ℕ)
  pub encode_hex : List ℕ → String
  pub decode_big : String → Result ℤ
  pub marshal : SignedTransaction → Result (List ℕ)
  pub unmarshal : List ℕ → Result SignedTransaction
  pub sign : String → DynamicFeeTx → Result SignedTransaction
  pub hash_of : SignedTransaction → String
  pub transfer_id : List ℕ
  pub pack_transfer : String → ℤ → Result (List ℕ)
  pub unpack_transfer : List ℕ → Result (List AbiValue)
  pub pack_balance_of : String → Result (List ℕ)
  pub unpack_balance_of : List ℕ → Result (List AbiValue)
  pub unpack_string : List ℕ → Result String

-- A request to a node: its answer, and what the other tasks do until it comes.
unfoldable pub ask : {A : Type 0} → Node → (World → Result A) → Action A
ask node answer w = (answer w, run (node.meanwhile w) w)

-- `errors.Is(err, ethereum.NotFound)`.
abbrev pub is_not_found : Error → Bool
is_not_found ethereum_not_found = true
is_not_found _ = false

-- `Uint64()` and `Int64()` of a `big.Int` that is not negative, and `uint64` of an `int64`.
abbrev pub uint64_of : ℕ → ℕ
uint64_of n = n % 2 ^ 64

abbrev pub int64_of : ℕ → ℤ
int64_of n =
    if ltb (n % 2 ^ 64) (2 ^ 63) then pos (n % 2 ^ 64) else negsuc (2 ^ 64 - n % 2 ^ 64 - 1)

abbrev pub unsigned_of : ℤ → ℕ
unsigned_of (pos n) = n % 2 ^ 64
unsigned_of (negsuc n) = (2 ^ 64 - suc n % 2 ^ 64) % 2 ^ 64
