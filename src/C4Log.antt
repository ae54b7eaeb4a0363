-- ===== src/C4Log.antt =====
-- c4_log.h and c4_log.c: the replicated log and the journal of its transactions. Every operation runs
-- under the mutex of the log. Pointers are passed by value; a payload is the list of its bytes, so
-- `payload_size` is its length. The outcomes of system calls that write, and of the allocations whose
-- failure leaves something behind, are arguments.
pub mod Codec
pub mod Append
pub mod Journal
pub mod Open
pub mod Examples
use trabalho_distribuidos.Prelude.{
  ℕ, zero, suc, ◌+◌, ◌*◌, ◌%◌, ◌^◌, ◌≡◌, refl, Bool, true, false, not, ◌&&◌, ◌||◌, Option, none,
  some, List, [], ◌∷◌, ◌++◌, arith, length, take, bytes_eq, ◌==◌, if◌then◌else◌, Result, ok, err,
  Errno,
}

-- C4LogEntry
pub record Entry : Type 0 where
  pub index : ℕ
  pub version : ℕ
  pub transaction_id : List ℕ
  pub payload : List ℕ
  pub checksum : ℕ

-- C4TransactionState
pub data State : Type 0 where
  unknown prepared committed aborted : State

pub record Transaction : Type 0 where
  pub entry : Entry
  pub state : State

-- struct C4Log, with the contents of its two files.
pub record C4Log : Type 0 where
  pub entries : List Entry
  pub transactions : List Transaction
  pub file : List ℕ
  pub journal : List ℕ

-- A log on empty files.
abbrev pub empty : C4Log
empty = record { entries = []; transactions = []; file = []; journal = [] }

-- How a record reaches its file: write_all, fsync, and on an error ftruncate to the old size, whose
-- own failure is not looked at.
pub data Write : Type 0 where
  stored : Write
  torn : (written : ℕ) (truncated : Bool) (error : Errno) → Write

-- The file after the attempt, and its outcome.
unfoldable pub write_record : Write → List ℕ → List ℕ → Result (Unit {0}) × List ℕ
write_record stored file bytes = (ok tt, file ++ bytes)
write_record (torn written truncated error) file bytes =
    (err error, if truncated then file else file ++ take written bytes)

abbrev pub state_eq : State → State → Bool
state_eq unknown unknown = true
state_eq prepared prepared = true
state_eq committed committed = true
state_eq aborted aborted = true
state_eq _ _ = false

-- same_entry
unfoldable pub same_entry : Entry → Entry → Bool
same_entry left right =
    left.index == right.index
    && (left.version == right.version
        && (left.checksum == right.checksum
            && (bytes_eq left.transaction_id right.transaction_id
                && bytes_eq left.payload right.payload)))

-- The first entry of a transaction: the loop of append_locked and of c4_log_get_transaction.
unfoldable pub find_entry : List Entry → List ℕ → Option Entry
find_entry [] id = none
find_entry (entry ∷ entries) id =
    if bytes_eq entry.transaction_id id then some entry else find_entry entries id

-- find_transaction
unfoldable pub find_transaction : List Transaction → List ℕ → Option Transaction
find_transaction [] id = none
find_transaction (t ∷ ts) id =
    if bytes_eq t.entry.transaction_id id then some t else find_transaction ts id

-- `transaction->state = state`, through the pointer that find_transaction returned.
unfoldable pub set_state : List Transaction → List ℕ → State → List Transaction
set_state [] id state = []
set_state (t ∷ ts) id state =
    let rest = set_state ts id state in
    if bytes_eq t.entry.transaction_id id then record t { state = state } ∷ ts else t ∷ rest

-- The version of the last entry, and 0 of none: c4_log_last_version.
unfoldable pub last_version : List Entry → ℕ
last_version [] = 0
last_version (entry ∷ []) = entry.version
last_version (entry ∷ next ∷ entries) = last_version (next ∷ entries)

-- (uint64_t)log->count + 1U
unfoldable pub next_index : List Entry → ℕ
next_index entries = (length entries + 1) % 2 ^ 64

-- log->count == 0U ? 1U : log->entries[log->count - 1U].entry.version + 1U
unfoldable pub next_version : List Entry → ℕ
unfolding last_version
next_version [] = 1
next_version (entry ∷ entries) = (last_version (entry ∷ entries) + 1) % 2 ^ 64

-- c4_log_last_index
unfoldable pub last_index : List Entry → ℕ
last_index entries = length entries % 2 ^ 64
