-- ===== src/C4Log/Open.antt =====
-- c4_log.c: opening a log, which rebuilds the table of entries from the file and the transactions from
-- the journal. A read may end early, at the end of the file; other failures of reading, of ftruncate
-- and of allocation while a log is opened are not modelled. Offsets are dropped bytes.
pub mod Entries
pub mod Table
pub mod Recovery
pub mod Records
pub mod Replay
pub mod Decision
pub mod Reuse
use trabalho_distribuidos.Prelude.{
  ℕ, zero, suc, ◌+◌, ◌-◌, ◌*◌, ◌%◌, ◌^◌, ◌≡◌, refl, Bool, true, false, not, ◌&&◌, ◌||◌, Option,
  none, some, List, [], ◌∷◌, ◌++◌, arith, length, bytes_eq, ◌==◌, ltb, leb, if◌then◌else◌, take,
  drop, Result, ok, err, ebadmsg, ◌>>=◌, ◌>>◌, require, get_or,
}
use trabalho_distribuidos.Wire.{put_u32, get_u32}
use trabalho_distribuidos.Protocol.{max_payload_size}
use trabalho_distribuidos.Protocol.Crc.{calculate_crc32}
use trabalho_distribuidos.C4Log.{
  Entry, State, Transaction, C4Log, Write, empty, state_eq, same_entry, find_entry,
  find_transaction, set_state, unknown, prepared, committed, aborted,
}
use trabalho_distribuidos.C4Log.Codec.{log_magic, header_size, parse_entry, decode}
use trabalho_distribuidos.C4Log.Append.{append_locked}
use trabalho_distribuidos.C4Log.Journal.{
  txn_magic, txn_header_size, txn_prepare, txn_commit, txn_abort, blank_entry, record_checksum,
  expected_next,
}

-- What the loop over the file makes of the rest of it: the file may end in the middle of a record.
pub data Head : Type 0 where
  cut : Head
  corrupt : Head
  whole : (entry : Entry) (rest : List ℕ) → Head

-- One round of that loop, up to append_locked.
unfoldable pub read_entry : List ℕ → Head
read_entry bytes =
    let head = take header_size bytes in
    let payload_size = get_u32 (drop 36 head) in
    let payload = take payload_size (drop header_size bytes) in
    if ltb (length bytes) header_size
    then cut
    else if not (bytes_eq (take 4 head) log_magic)
    then corrupt
    else if ltb max_payload_size payload_size
    then corrupt
    else if ltb (length payload) payload_size
    then cut
    else whole (parse_entry head payload) (drop payload_size (drop header_size bytes))

-- `if (append_locked(...) < 0) return -1;`
unfoldable pub keep_log : Result (Unit {0}) × C4Log → Result C4Log
keep_log (ok done, log) = ok log
keep_log (err error, log) = err error

-- One record of the journal.
pub data JournalHead : Type 0 where
  broken : JournalHead
  intact : (type : ℕ) (payload : List ℕ) (rest : List ℕ) → JournalHead

module _ (crc : ℕ → List ℕ → ℕ) where
  -- The loop of c4_log_open over the file, with what is left of it. Each round takes at least a header,
  -- so as much fuel as there are bytes is enough. A record that the file ends in is cut off.
  unfoldable pub load_entries : ℕ → List ℕ → C4Log → Result C4Log
  unfolding read_entry
  load_entries zero bytes log = ok log
  load_entries (suc fuel) [] log = ok log
  load_entries (suc fuel) (b ∷ bytes) log = elim (read_entry (b ∷ bytes)) [
    | cut ↦ ok (record log { file = take (length log.file - length (b ∷ bytes)) log.file })
    | corrupt ↦ err ebadmsg
    | whole entry rest ↦
        let (result, log') = append_locked crc Write.stored true false log entry in
        let others = load_entries fuel rest log' in do result; others
  ]

  -- The checks of one round of load_journal, up to the type of the record.
  unfoldable pub read_record : List ℕ → JournalHead
  unfolding record_checksum
  read_record bytes =
      let head = take txn_header_size bytes in
      let type = get_or head 4 0 in
      let payload_size = get_u32 (drop 8 head) in
      let payload = take payload_size (drop txn_header_size bytes) in
      if ltb (length bytes) txn_header_size || not (bytes_eq (take 4 head) txn_magic)
      then broken
      else if ltb max_payload_size payload_size
          || ltb (length bytes) (txn_header_size + payload_size)
      then broken
      else if not (record_checksum crc type payload == get_u32 (drop 12 head))
      then broken
      else intact type payload (drop payload_size (drop txn_header_size bytes))

  -- A prepare in the journal: the entry is pending, unless the log holds it already.
  unfoldable pub replay_prepare : C4Log → Entry → Result C4Log
  unfolding expected_next
  replay_prepare log entry =
      let pending = record log {
        transactions = log.transactions ++ record { entry = entry; state = prepared } ∷ [];
      } in
      elim (find_transaction log.transactions entry.transaction_id) [
        | some t ↦ err ebadmsg
        | none ↦ elim (find_entry log.entries entry.transaction_id) [
          | some old ↦ if same_entry old entry then ok pending else err ebadmsg
          | none ↦
              if entry.index == (expected_next log).index
                && entry.version == (expected_next log).version
              then ok pending
              else err ebadmsg
        ]
      ]

  -- A commit in the journal is carried out again; the log may hold its entry already.
  unfoldable pub replay_commit : Write → C4Log → List ℕ → Result C4Log
  unfolding append_locked
  replay_commit write log id = elim (find_transaction log.transactions id) [
    | none ↦ err ebadmsg
    | some t ↦
        if not (state_eq t.state prepared)
        then err ebadmsg
        else keep_log (
            append_locked crc write true true
              (record log { transactions = set_state log.transactions id committed }) t.entry)
  ]

  -- An abort in the journal, of a transaction that was prepared, aborted or never seen.
  unfoldable pub replay_abort : C4Log → List ℕ → Result C4Log
  replay_abort log id = elim (find_transaction log.transactions id) [
    | none ↦ ok (record log {
      transactions = log.transactions ++ record { entry = blank_entry id; state = aborted } ∷ [];
    })
    | some t ↦
        if state_eq t.state prepared
        then ok (record log { transactions = set_state log.transactions id aborted })
        else if state_eq t.state aborted
        then ok log
        else err ebadmsg
  ]

  -- The end of one round of load_journal.
  unfoldable pub replay_record : Write → C4Log → ℕ → List ℕ → Result C4Log
  unfolding replay_prepare replay_commit replay_abort
  replay_record write log type payload =
      if type == txn_prepare
      then elim (decode crc payload) [
        | ok entry ↦ replay_prepare log entry
        | err error ↦ err ebadmsg
      ]
      else if type == txn_commit && length payload == 16
      then replay_commit write log payload
      else if type == txn_abort && length payload == 16
      then replay_abort log payload
      else err ebadmsg

  -- The loop of load_journal, with what is left of the journal. A record that is cut off is corrupt.
  unfoldable pub load_journal : ℕ → Write → List ℕ → C4Log → Result C4Log
  unfolding read_record replay_record
  load_journal zero write bytes log = ok log
  load_journal (suc fuel) write [] log = ok log
  load_journal (suc fuel) write (b ∷ bytes) log = elim (read_record (b ∷ bytes)) [
    | broken ↦ err ebadmsg
    | intact type payload rest ↦ do
      log' ← replay_record write log type payload
      load_journal fuel write rest log'
  ]

  -- c4_log_open on the contents of the two files; `write` is the outcome of what load_journal appends.
  unfoldable pub reopen : Write → List ℕ → List ℕ → Result C4Log
  unfolding load_entries load_journal
  reopen write file journal = do
    log ← load_entries (length file) file (record empty { file = file; journal = journal })
    load_journal (length journal) write journal log
