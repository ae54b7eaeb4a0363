-- ===== src/C4Log/Open/Decision.antt =====
-- What a node finds when it opens its log after a decision: a commit that a crash interrupted, and an
-- abort after which the index of the transaction was used again.
use trabalho_distribuidos.Prelude.{
  ℕ, ◌+◌, ◌-◌, ◌^◌, ◌<◌, ◌≤◌, ◌≡◌, inl, inr, refl, true, false, none, some, List, [], ◌∷◌, ◌++◌,
  arith, length, take, ltb, Bool-cases, ok, Errno, ◌∙◌, length-append,
}
use trabalho_distribuidos.Protocol.{max_payload_size}
use trabalho_distribuidos.C4Log.{Entry, C4Log, Write, stored, torn, find_entry, prepared, committed}
use trabalho_distribuidos.C4Log.Codec.{header_size, entry_bytes}
use trabalho_distribuidos.C4Log.Append.{append_locked}
use trabalho_distribuidos.C4Log.Append.Invariant.{
  IsGood, Inv, Numbered, table_bytes, table_bytes-snoc,
}
use trabalho_distribuidos.C4Log.Append.Outcome.{
  with_entry-Inv, append_locked-stored, append_locked-torn,
}
use trabalho_distribuidos.C4Log.Journal.{
  txn_prepare, txn_commit, record_bytes, prepare, apply_commit, commit,
}
use trabalho_distribuidos.C4Log.Journal.Fresh.{
  idle, busy, same_entry_refl, find_entry-snoc, length-entry, prepare-first, commit-first,
}
use trabalho_distribuidos.C4Log.Open.{load_journal, replay_record, reopen}
use trabalho_distribuidos.C4Log.Open.Recovery.{on_disk, survivors, load_entries-crash}
use trabalho_distribuidos.C4Log.Open.Replay.{
  load_journal-next, load_journal-last, length-record_bytes, replay_record-next, replay_record-held,
  replay_record-commit,
}

append_locked-known :
    (crc : ℕ → List ℕ → ℕ) (write : Write) (log : C4Log) (e : Entry)
    → IsGood crc e
    → find_entry log.entries e.transaction_id ≡ some e
    → append_locked crc write true true log e ≡ (ok tt, log)
unfolding append_locked
append_locked-known crc write log e good held =
    rw (good.formed, held, append_locked) (rw (same_entry_refl e) refl)

module _ (crc : ℕ → List ℕ → ℕ) (es : List Entry) (e : Entry) (n : ℕ) (v : Inv crc (on_disk es []))
    (good : IsGood crc e) (small : length e.payload ≤ max_payload_size - header_size)
    (few : length es < 2 ^ 64 - 2) (new : find_entry es e.transaction_id ≡ none)
    (index : e.index ≡ length es + 1) (version : e.version ≡ length es + 1) where
  -- The journal of a transaction that is prepared and committed.
  decided : List ℕ
  decided =
      record_bytes crc txn_prepare (entry_bytes e) ++ record_bytes crc txn_commit e.transaction_id

  commit-torn :
      (error : Errno)
      → (commit crc stored
          (torn n false error)
          true
          (prepare crc stored true true (on_disk es []) e).1
          e.transaction_id).1
        ≡ busy es (table_bytes es ++ take n (entry_bytes e)) decided e committed
  unfolding apply_commit decided
  commit-torn error =
      rw (prepare-first crc es (table_bytes es) [] e v.numbered v.few good small index version) (
        rw
          (commit-first crc es (table_bytes es) (record_bytes crc txn_prepare (entry_bytes e)) e
            v.numbered v.few good small index version (torn n false error))
          (rw
            (append_locked-torn crc (busy es (table_bytes es) decided e committed) e v.numbered
              v.few good.formed new index version n error)
            refl))

  room : length (entry_bytes e) ≤ max_payload_size
  room = length-entry crc es (table_bytes es) [] e v.numbered v.few good small index version

  length-decided : 1 < length decided
  unfolding decided
  length-decided = omega (
    arith,
    length-append (record_bytes crc txn_prepare (entry_bytes e))
        (record_bytes crc txn_commit e.transaction_id),
    length-record_bytes crc txn_prepare (entry_bytes e),
  )

  -- Both records, once the prepare is accepted and the entry is appended or found.
  load_journal-decided :
      (write : Write) (fs : List Entry) (file : List ℕ) (log : C4Log)
      → Numbered 1 fs
      → length fs < 2 ^ 64 - 1
      → replay_record crc write (idle fs file decided) txn_prepare (entry_bytes e)
        ≡ ok (busy fs file decided e prepared)
      → append_locked crc write true true (busy fs file decided e committed) e ≡ (ok tt, log)
      → load_journal crc (length decided) write decided (idle fs file decided) ≡ ok log
  unfolding decided
  load_journal-decided write fs file log numbered few' first append =
      load_journal-next crc (length decided) write txn_prepare (entry_bytes e)
        (idle fs file decided) (omega (arith, length-decided)) room
        (record_bytes crc txn_commit e.transaction_id) (busy fs file decided e prepared) first
      ∙ load_journal-last crc (length decided - 1) write txn_commit e.transaction_id
          (busy fs file decided e prepared) (omega (arith, length-decided))
          (omega (arith, good.fits.id)) log
          (replay_record-commit crc write fs file decided e numbered few' good log append)

  -- The log that the commit was to reach.
  reached : C4Log
  reached = busy (es ++ e ∷ []) (table_bytes (es ++ e ∷ [])) decided e committed

  load_journal-survivors :
      load_journal crc (length decided) stored decided (on_disk (survivors es e n) decided)
      ≡ ok reached
  unfolding reached
  load_journal-survivors = elim (Bool-cases (ltb n (length (entry_bytes e)))) [
    | inl less ↦
        rw (less, table_bytes-snoc es e)
          (load_journal-decided stored es (table_bytes es)
            (busy (es ++ e ∷ []) (table_bytes es ++ entry_bytes e) decided e committed) v.numbered
            v.few
            (replay_record-next crc stored es (table_bytes es) decided e v.numbered v.few good new
              index version)
            (append_locked-stored crc (busy es (table_bytes es) decided e committed) e v.numbered
              v.few good.formed new index version))
    | inr more ↦
        let v' = with_entry-Inv crc (on_disk es []) e v good few new index version in
        let held = find_entry-snoc es e new in
        rw more (
          load_journal-decided stored (es ++ e ∷ []) (table_bytes (es ++ e ∷ []))
            (busy (es ++ e ∷ []) (table_bytes (es ++ e ∷ [])) decided e committed) v'.numbered
            v'.few
            (replay_record-held crc stored (es ++ e ∷ []) (table_bytes (es ++ e ∷ [])) decided e
              v'.numbered v'.few good held)
            (append_locked-known crc stored
              (busy (es ++ e ∷ []) (table_bytes (es ++ e ∷ [])) decided e committed) e good held))
  ]

  -- A decision to commit survives a crash. The first transaction of a log on disk, which obeys the
  -- invariant, is prepared and committed, and the node stops after any number of bytes of the entry
  -- reached the file, with the record of the commit in the journal. c4_log_open on the two files, if
  -- what it writes is stored, then gives the log with the entry in memory and, once, in the file, and
  -- the transaction committed. The entry is well formed, small enough for a prepare, of a new
  -- transaction and numbered after the last.
  pub commit-durable :
      (error : Errno)
      → let log : C4Log =
          (commit crc stored
            (torn n false error)
            true
            (prepare crc stored true true (on_disk es []) e).1
            e.transaction_id).1 in
        reopen crc stored log.file log.journal
        ≡ ok (record log {
          entries = es ++ e ∷ [];
          file = table_bytes (es ++ e ∷ []);
          transactions = record { entry = e; state = committed } ∷ [];
        })
  unfolding reopen reached
  commit-durable error = rw (commit-torn error) (
      rw (load_entries-crash crc (on_disk es []) e n v good few new index version decided)
        load_journal-survivors)
