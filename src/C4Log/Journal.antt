-- ===== src/C4Log/Journal.antt =====
-- c4_log.c: the transaction journal, and the calls that prepare, commit and abort a transaction.
pub mod Fresh
use trabalho_distribuidos.Prelude.{
  ℕ, zero, suc, ◌+◌, ◌-◌, ◌*◌, ◌%◌, ◌^◌, ◌≡◌, refl, Bool, true, false, not, ◌&&◌, ◌||◌, Option,
  none, some, List, [], ◌∷◌, ◌++◌, arith, length, bytes_eq, ◌==◌, ltb, leb, if◌then◌else◌,
  replicate, Result, ok, err, einval, eexist, erange, enoent, enomem, emsgsize, ealready, ◌>>=◌,
  ◌>>◌, require,
}
use trabalho_distribuidos.Wire.{put_u32}
use trabalho_distribuidos.Protocol.{max_payload_size}
use trabalho_distribuidos.Protocol.Crc.{calculate_crc32}
use trabalho_distribuidos.C4Log.{
  Entry, State, Transaction, C4Log, Write, write_record, state_eq, same_entry, find_transaction,
  set_state, next_index, next_version, unknown, prepared, committed, aborted,
}
use trabalho_distribuidos.C4Log.Codec.{entry_checksum, encode, decode}
use trabalho_distribuidos.C4Log.Append.{append_locked}

-- C4_TXN_MAGIC, C4_TXN_HEADER_SIZE and the record types
abbrev pub txn_magic : List ℕ
txn_magic = b'C' ∷ b'5' ∷ b'T' ∷ b'J' ∷ []

abbrev pub txn_header_size : ℕ
txn_header_size = 16

abbrev pub txn_prepare : ℕ
txn_prepare = 1

abbrev pub txn_commit : ℕ
txn_commit = 2

abbrev pub txn_abort : ℕ
txn_abort = 3

-- The entry of a transaction that was never prepared: zeroed, but for its identifier.
abbrev pub blank_entry : List ℕ → Entry
blank_entry id = record { index = 0; version = 0; transaction_id = id; payload = []; checksum = 0 }

-- What the next entry must carry: first the numbers after the log, then the loop over the
-- transactions moves them behind each prepared entry that is at or after them.
pub record Expected : Type 0 where
  pub index : ℕ
  pub version : ℕ

unfoldable pub after_pending : Expected → List Transaction → Expected
after_pending expected [] = expected
after_pending expected (t ∷ ts) =
    after_pending
      (if state_eq t.state prepared && leb expected.index t.entry.index
        then record {
          index = (t.entry.index + 1) % 2 ^ 64;
          version = (t.entry.version + 1) % 2 ^ 64;
        }
        else expected)
      ts

unfoldable pub expected_next : C4Log → Expected
unfolding after_pending
expected_next log =
    after_pending (record { index = next_index log.entries; version = next_version log.entries })
      log.transactions

module _ (crc : ℕ → List ℕ → ℕ) where
  -- The checksum of a record, over its type, the size of its payload and the payload.
  unfoldable pub record_checksum : ℕ → List ℕ → ℕ
  record_checksum type payload = calculate_crc32 crc (type ∷ (put_u32 (length payload) ++ payload))

  -- The bytes of a record.
  unfoldable pub record_bytes : ℕ → List ℕ → List ℕ
  unfolding record_checksum
  record_bytes type payload =
      txn_magic
      ++ (type
          ∷ 0
          ∷ 0
          ∷ 0
          ∷ (put_u32 (length payload) ++ (put_u32 (record_checksum type payload) ++ payload)))

  -- journal_record
  unfoldable pub journal_record : Write → C4Log → ℕ → List ℕ → Result (Unit {0}) × C4Log
  unfolding record_bytes
  journal_record write log type payload =
      if ltb max_payload_size (length payload)
      then (err emsgsize, log)
      else let (result, journal) = write_record write log.journal (record_bytes type payload) in
        (result, record log { journal = journal })

  -- The end of c4_log_prepare, once the record is in the journal or not: the entry is read back from
  -- its encoding; `allocated` is false if that copy cannot be allocated.
  unfoldable pub enlist : Bool → List ℕ → Result (Unit {0}) × C4Log → Result (Unit {0}) × C4Log
  enlist allocated encoded (err error, log) = (err error, log)
  enlist false encoded (ok done, log) = (err enomem, log)
  enlist true encoded (ok done, log) = elim (decode crc encoded) [
    | ok decoded ↦ (
      ok tt,
      record log {
        transactions = log.transactions ++ record { entry = decoded; state = prepared } ∷ [];
      },
    )
    | err error ↦ (err error, log)
  ]

  -- c4_log_prepare for a transaction that the journal does not know; `reserved` is false if the table
  -- cannot grow.
  unfoldable pub prepare_new : Write → Bool → Bool → C4Log → Entry → Result (Unit {0}) × C4Log
  unfolding expected_next journal_record enlist
  prepare_new write reserved allocated log entry =
      if not
        (entry.index == (expected_next log).index && entry.version == (expected_next log).version)
      then (err erange, log)
      else elim (encode crc entry) [
        | err error ↦ (err error, log)
        | ok encoded ↦
            if reserved
            then enlist allocated encoded (journal_record write log txn_prepare encoded)
            else (err enomem, log)
      ]

  -- c4_log_prepare
  unfoldable pub prepare : Write → Bool → Bool → C4Log → Entry → Result (Unit {0}) × C4Log
  unfolding prepare_new
  prepare write reserved allocated log entry =
      if not (
        not (entry.index == 0)
        && (not (entry.version == 0) && entry.checksum == entry_checksum crc entry))
      then (err einval, log)
      else elim (find_transaction log.transactions entry.transaction_id) [
        | some existing ↦
            if same_entry existing.entry entry && not (state_eq existing.state aborted)
            then (ok tt, log)
            else (err eexist, log)
        | none ↦ prepare_new write reserved allocated log entry
      ]

  -- The end of c4_log_commit: the entry goes to the log, and a copy of it to the caller.
  unfoldable pub apply_commit : Write → Bool → C4Log → Entry → Result Entry × C4Log
  apply_commit write allocated log entry =
      let (result, log') = append_locked crc write allocated true log entry in
      (do result; ok entry, log')

  -- What c4_log_commit does once the record is in the journal or not.
  unfoldable pub apply_recorded :
      Write → Bool → List Transaction → Entry → Result (Unit {0}) × C4Log → Result Entry × C4Log
  unfolding apply_commit
  apply_recorded write allocated marked entry (err error, log) = (err error, log)
  apply_recorded write allocated marked entry (ok done, log) =
      apply_commit write allocated (record log { transactions = marked }) entry

  -- c4_log_commit of a transaction that is known: only a prepared one writes the journal. `first` is
  -- the outcome of that write, `second` of the one to the log.
  unfoldable pub commit_known :
      Write → Write → Bool → C4Log → List ℕ → Entry → State → Result Entry × C4Log
  unfolding journal_record apply_recorded
  commit_known first second allocated log id entry unknown = apply_commit second allocated log entry
  commit_known first second allocated log id entry prepared =
      apply_recorded second allocated (set_state log.transactions id committed) entry
        (journal_record first log txn_commit id)
  commit_known first second allocated log id entry committed =
      apply_commit second allocated log entry
  commit_known first second allocated log id entry aborted = (err enoent, log)

  -- c4_log_commit
  unfoldable pub commit : Write → Write → Bool → C4Log → List ℕ → Result Entry × C4Log
  unfolding commit_known
  commit first second allocated log id = elim (find_transaction log.transactions id) [
    | none ↦ (err enoent, log)
    | some t ↦ commit_known first second allocated log id t.entry t.state
  ]

  -- What c4_log_abort does once the record is in the journal or not.
  unfoldable pub mark_recorded :
      List Transaction → Result (Unit {0}) × C4Log → Result (Unit {0}) × C4Log
  mark_recorded marked (err error, log) = (err error, log)
  mark_recorded marked (ok done, log) = (ok tt, record log { transactions = marked })

  -- The record of an abort, and what it does to the table.
  unfoldable pub record_abort :
      Write → C4Log → List ℕ → List Transaction → Result (Unit {0}) × C4Log
  unfolding journal_record mark_recorded
  record_abort write log id marked = mark_recorded marked (journal_record write log txn_abort id)

  -- c4_log_abort
  unfoldable pub abort : Write → Bool → C4Log → List ℕ → Result (Unit {0}) × C4Log
  unfolding record_abort
  abort write reserved log id = elim (find_transaction log.transactions id) [
    | none ↦
        if reserved
        then record_abort write log id
            (log.transactions ++ record { entry = blank_entry id; state = aborted } ∷ [])
        else (err enomem, log)
    | some t ↦
        if state_eq t.state aborted
        then (ok tt, log)
        else if not (state_eq t.state prepared)
        then (err ealready, log)
        else record_abort write log id (set_state log.transactions id aborted)
  ]

-- c4_log_transaction_state
unfoldable pub transaction_state : C4Log → List ℕ → State
transaction_state log id = elim (find_transaction log.transactions id) [
  | some t ↦ t.state
  | none ↦ unknown
]

-- c4_log_get_prepared
unfoldable pub get_prepared : C4Log → List ℕ → Result Entry
get_prepared log id = elim (find_transaction log.transactions id) [
  | none ↦ err enoent
  | some t ↦ if state_eq t.state prepared then ok t.entry else err enoent
]
