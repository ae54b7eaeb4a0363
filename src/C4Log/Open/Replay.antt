-- ===== src/C4Log/Open/Replay.antt =====
-- Opening a log whose journal holds one transaction.
use trabalho_distribuidos.Prelude.{
  ℕ, zero, suc, ◌+◌, ◌-◌, ◌^◌, ◌<◌, ◌≤◌, ◌≡◌, refl, true, false, none, some, List, [], ◌∷◌, ◌++◌,
  arith, length, bytes_eq_refl, ◌==◌, ==_iff, ok, err, ebadmsg, Errno, ◌>>=◌, ap, ◌∙◌, sym,
  length-append,
}
use mathlib.Core.List.{append-nil}
use trabalho_distribuidos.Protocol.{max_payload_size}
use trabalho_distribuidos.C4Log.{
  Entry, C4Log, Write, find_entry, find_transaction, set_state, next_index, next_version, prepared,
  committed,
}
use trabalho_distribuidos.C4Log.Codec.{entry_bytes}
use trabalho_distribuidos.C4Log.Append.{append_locked}
use trabalho_distribuidos.C4Log.Append.Invariant.{IsGood, Numbered, next-Inv}
use trabalho_distribuidos.C4Log.Journal.{
  txn_prepare, txn_commit, expected_next, after_pending, record_bytes,
}
use trabalho_distribuidos.C4Log.Journal.Fresh.{idle, busy, decode-good, same_entry_refl}
use trabalho_distribuidos.C4Log.Open.{
  intact, read_record, replay_prepare, replay_commit, keep_log, replay_record, load_journal,
}
use trabalho_distribuidos.C4Log.Open.Records.{read_record-record_bytes}

module _ (crc : ℕ → List ℕ → ℕ) where
  load_journal-step :
      (fuel : ℕ) (write : Write) (bytes payload rest : List ℕ) (type : ℕ) (log : C4Log)
      → 0 < fuel
      → 0 < length bytes
      → read_record crc bytes ≡ intact type payload rest
      → load_journal crc fuel write bytes log ≡ do
        log' ← replay_record crc write log type payload
        load_journal crc (fuel - 1) write rest log'
  unfolding load_journal
  load_journal-step zero write bytes payload rest type log f h read = absurd (omega arith)
  load_journal-step (suc fuel) write [] payload rest type log f h read = absurd (omega arith)
  load_journal-step (suc fuel) write (b ∷ bytes) payload rest type log f h read =
      let less : suc fuel - 1 ≡ fuel = omega arith in rw (read, less, load_journal) refl

  pub length-record_bytes :
      (type : ℕ) (payload : List ℕ) → length (record_bytes crc type payload) ≡ 16 + length payload
  unfolding record_bytes trabalho_distribuidos.Wire.put_u32
  length-record_bytes type payload = omega arith

  load_journal-record :
      (fuel : ℕ) (write : Write) (type : ℕ) (payload rest : List ℕ) (log : C4Log)
      → 0 < fuel
      → length payload ≤ max_payload_size
      → load_journal crc fuel write (record_bytes crc type payload ++ rest) log ≡ do
        log' ← replay_record crc write log type payload
        load_journal crc (fuel - 1) write rest log'
  load_journal-record fuel write type payload rest log f room =
      load_journal-step fuel write (record_bytes crc type payload ++ rest) payload rest type log f
        (omega (
          arith,
          length-append (record_bytes crc type payload) rest,
          length-record_bytes type payload,
        ))
        (read_record-record_bytes crc type payload rest room)

  load_journal-end :
      (fuel : ℕ) (write : Write) (log : C4Log) → load_journal crc fuel write [] log ≡ ok log
  unfolding load_journal
  load_journal-end zero write log = refl
  load_journal-end (suc fuel) write log = refl

  -- The record in front is read, and others or none follow.
  module _ (fuel : ℕ) (write : Write) (type : ℕ) (payload : List ℕ) (log : C4Log)
      (some_fuel : 0 < fuel) (room : length payload ≤ max_payload_size) where
    pub load_journal-next :
        (rest : List ℕ) (log' : C4Log)
        → replay_record crc write log type payload ≡ ok log'
        → load_journal crc fuel write (record_bytes crc type payload ++ rest) log
          ≡ load_journal crc (fuel - 1) write rest log'
    load_journal-next rest log' h =
        rw (load_journal-record fuel write type payload rest log some_fuel room) (rw h refl)

    pub load_journal-refused :
        (rest : List ℕ) (error : Errno)
        → replay_record crc write log type payload ≡ err error
        → load_journal crc fuel write (record_bytes crc type payload ++ rest) log ≡ err error
    load_journal-refused rest error h =
        rw (load_journal-record fuel write type payload rest log some_fuel room) (rw h refl)

    pub load_journal-last :
        (log' : C4Log)
        → replay_record crc write log type payload ≡ ok log'
        → load_journal crc fuel write (record_bytes crc type payload) log ≡ ok log'
    load_journal-last log' h =
        rw⁻¹ (append-nil (record_bytes crc type payload))
          (load_journal-next [] log' h ∙ load_journal-end (fuel - 1) write log')

  module _ (write : Write) (es : List Entry) (file journal : List ℕ) (e : Entry)
      (numbered : Numbered 1 es) (few : length es < 2 ^ 64 - 1) (good : IsGood crc e) where
    pub replay_record-next :
        find_entry es e.transaction_id ≡ none
        → e.index ≡ length es + 1
        → e.version ≡ length es + 1
        → replay_record crc write (idle es file journal) txn_prepare (entry_bytes e)
          ≡ ok (busy es file journal e prepared)
    unfolding replay_record replay_prepare find_transaction expected_next after_pending
    replay_record-next new index version =
        let (i, v) = next-Inv es numbered few in
        let i' : (e.index == next_index es) ≡ true = (==_iff _ _).1 (index ∙ sym i) in
        let v' : (e.version == next_version es) ≡ true = (==_iff _ _).1 (version ∙ sym v) in
        rw (decode-good crc e good) (rw (new, replay_prepare) (rw (i', v') refl))

    pub replay_record-held :
        find_entry es e.transaction_id ≡ some e
        → replay_record crc write (idle es file journal) txn_prepare (entry_bytes e)
          ≡ ok (busy es file journal e prepared)
    unfolding replay_record replay_prepare find_transaction
    replay_record-held held =
        rw (decode-good crc e good) (rw (held, replay_prepare) (rw (same_entry_refl e) refl))

    pub replay_record-late :
        find_entry es e.transaction_id ≡ none
        → e.index ≡ length es
        → replay_record crc write (idle es file journal) txn_prepare (entry_bytes e) ≡ err ebadmsg
    unfolding replay_record replay_prepare find_transaction expected_next after_pending
    replay_record-late new index =
        let (i, v) = next-Inv es numbered few in
        let i' : (e.index == next_index es) ≡ false = ground (arith, index, i) in
        rw (decode-good crc e good) (rw (new, replay_prepare) (rw i' refl))

    set_state-first :
        set_state (busy es file journal e prepared).transactions e.transaction_id committed
        ≡ (busy es file journal e committed).transactions
    unfolding set_state
    set_state-first = rw (bytes_eq_refl e.transaction_id) refl

    -- The entry goes to append_locked.
    replay_record-append :
        replay_record crc write (busy es file journal e prepared) txn_commit e.transaction_id
        ≡ keep_log (
            append_locked crc write true true
              (record (busy es file journal e prepared) {
                transactions =
                    set_state
                      (busy es file journal e prepared).transactions
                      e.transaction_id
                      committed;
              })
              e)
    unfolding replay_record replay_commit find_transaction
    replay_record-append =
        let sixteen : (length e.transaction_id == 16) ≡ true = (==_iff _ _).1 good.fits.id in
        rw (sixteen, bytes_eq_refl e.transaction_id, replay_commit) refl

    pub replay_record-commit :
        (log' : C4Log)
        → append_locked crc write true true (busy es file journal e committed) e ≡ (ok tt, log')
        → replay_record crc write (busy es file journal e prepared) txn_commit e.transaction_id
          ≡ ok log'
    unfolding keep_log
    replay_record-commit log' append =
        replay_record-append
        ∙ ap
            (λ ts. keep_log (
              append_locked crc write true true
                (record (busy es file journal e prepared) { transactions = ts }) e))
            set_state-first
        ∙ ap keep_log append
