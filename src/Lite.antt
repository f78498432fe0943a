-- ===== src/Lite.antt =====
-- internal/adapters/outbound/ton/liteclient/client.go: the client of the lite servers, over what
-- tonutils-go answers.
pub mod Transactions
pub mod Contracts
pub mod States
pub mod Reads
use mytonprovider_agent.Common.{ℕ, ◌*◌, Text, List, [], Bool, Option, none, some}
use mytonprovider_agent.World.{Error, Result}

pub record Transaction : Type 0 where
  pub hash : Text
  pub lt : ℕ  -- uint64
  pub op : ℕ  -- uint64
  pub from : Text
  pub to : Text
  pub message : Text
  pub created_at : ℕ

pub record LiteContract : Type 0 where
  pub address : Text
  pub bag_id : Text
  pub owner_addr : Text
  pub size : ℕ  -- uint64
  pub chunk_size : ℕ  -- uint64

pub record LiteProvider : Type 0 where
  pub key : List ℕ
  pub last_proof_time : ℕ
  pub rate_per_mb_day : ℕ  -- uint64
  pub max_span : ℕ  -- uint32

pub record LiteState : Type 0 where
  pub address : Text
  pub balance : ℕ  -- uint64
  pub providers : List LiteProvider
  pub lite_server_error : Bool

-- The payload of a message: what `LoadStringSnake` and `LoadUInt(32)` make of it, the zero values
-- where they fail.
pub record Payload : Type 0 where
  pub comment : Text
  pub op : ℕ

-- `tlb.InternalMessage`, as far as the code reads it
pub record InternalMessage : Type 0 where
  pub src_addr : Text
  pub dst_addr : Text
  pub created_at : ℕ  -- seconds
  pub payload : Option Payload

-- `tx.IO.In`: an internal message, one whose type and content disagree, or another message
pub data Incoming : Type 0 where
  internal : InternalMessage → Incoming
  mistyped other : Incoming

-- `tlb.Transaction`, as far as the code reads it
pub record RawTransaction : Type 0 where
  pub hash : Text
  pub lt : ℕ
  pub prev_lt : ℕ
  pub prev_hash : Text
  pub incoming : Incoming

-- The errors of `ListTransactions` that the code tells apart. `lookup_failed` is an `LSError` with
-- the code -400.
pub data ListError : Type 0 where
  none_found deadline lookup_failed : ListError
  list_failed : Error → ListError

-- What a page request gives: transactions, from the oldest on, or an error.
pub data Page : Type 0 where
  found : List RawTransaction → Page
  refused : ListError → Page

-- `pContract.StorageDataV1` and `pContract.ProviderDataV1`, as far as the code reads them
pub record StorageInfo : Type 0 where
  pub torrent_hash : List ℕ
  pub owner_addr : Text
  pub size : ℕ
  pub chunk_size : ℕ

pub record ProviderInfo : Type 0 where
  pub key : List ℕ
  pub last_proof_at : ℕ
  pub rate_per_mb : ℕ  -- nanoTON, a big integer
  pub max_span : ℕ

-- The API of tonutils-go. Each call is answered as of its tick; a block is its sequence number.
pub record Api : Type 0 where
  pub parse_addr : Text → Bool
  pub masterchain_info : ℕ → Result ℕ
  -- the LT and the hash of the account's last transaction
  pub account : ℕ → Text → ℕ → Result (ℕ × Text)
  pub list_transactions : Text → ℕ → Text → ℕ → Page
  -- a nil answer is `none`
  pub storage_info : ℕ → Text → ℕ → Result (Option StorageInfo)
  -- the providers and the balance in nanoTON
  pub providers_info : ℕ → Text → ℕ → Result (List ProviderInfo × ℕ)
  -- the choices of the Go scheduler, and the order in which goroutines get the semaphore
  pub schedule : ℕ → Option ℕ
  pub turn_order : ℕ → List ℕ
