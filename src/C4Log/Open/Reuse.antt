-- ===== src/C4Log/Open/Reuse.antt =====
-- An abort after which the index of the transaction was used again, and the log opened.
use trabalho_distribuidos.Prelude.{
  ℕ, ◌+◌, ◌-◌, ◌^◌, ◌<◌, ◌≤◌, ◌≡◌, refl, true, false, none, List, [], ◌∷◌, ◌++◌, arith, length,
  bytes_eq, ok, err, ebadmsg, ap, ◌∙◌, sym, subst, inl, length-append, All-append,
}
use mathlib.Core.List.{append-nil}
use trabalho_distribuidos.Protocol.{max_payload_size}
use trabalho_distribuidos.C4Log.{Entry, C4Log, empty, Write, stored, find_entry, aborted}
use trabalho_distribuidos.C4Log.Codec.{header_size, entry_bytes}
use trabalho_distribuidos.C4Log.Append.{append_locked, append_entry}
use trabalho_distribuidos.C4Log.Append.Invariant.{
  IsGood, Inv, Fresh-find_entry, find_entry-Fresh, table_bytes,
}
use trabalho_distribuidos.C4Log.Append.Outcome.{with_entry, with_entry-Inv, append_locked-stored}
use trabalho_distribuidos.C4Log.Journal.{txn_prepare, txn_abort, record_bytes, prepare, abort}
use trabalho_distribuidos.C4Log.Journal.Fresh.{idle, busy, length-entry, prepare-first, abort-first}
use trabalho_distribuidos.C4Log.Open.{load_entries, load_journal, reopen}
use trabalho_distribuidos.C4Log.Open.Recovery.{on_disk, load_entries-tail_of}
use trabalho_distribuidos.C4Log.Open.Replay.{
  load_journal-refused, length-record_bytes, replay_record-late,
}

module _ (crc : ℕ → List ℕ → ℕ) (es : List Entry) (t u : Entry) (v : Inv crc (on_disk es []))
    (good_t : IsGood crc t) (good_u : IsGood crc u)
    (small : length t.payload ≤ max_payload_size - header_size) (few : length es < 2 ^ 64 - 2)
    (new_t : find_entry es t.transaction_id ≡ none) (new_u : find_entry es u.transaction_id ≡ none)
    (other : bytes_eq u.transaction_id t.transaction_id ≡ false) (index_t : t.index ≡ length es + 1)
    (version_t : t.version ≡ length es + 1) (index_u : u.index ≡ length es + 1)
    (version_u : u.version ≡ length es + 1) where
  refused : List ℕ
  refused =
      record_bytes crc txn_prepare (entry_bytes t) ++ record_bytes crc txn_abort t.transaction_id

  -- The log after the three calls.
  after : C4Log
  after = busy (es ++ u ∷ []) (table_bytes es ++ entry_bytes u) refused t aborted

  aborted_log :
      (abort crc stored true (prepare crc stored true true (on_disk es []) t).1 t.transaction_id).1
      ≡ busy es (table_bytes es) refused t aborted
  unfolding refused
  aborted_log =
      rw
        (prepare-first crc es (table_bytes es) [] t v.numbered v.few good_t small index_t version_t)
        (rw
          (abort-first crc es (table_bytes es) (record_bytes crc txn_prepare (entry_bytes t)) t
            v.numbered v.few good_t small index_t version_t)
          refl)

  appended_log :
      append_entry crc stored true
        (abort crc stored true
          (prepare crc stored true true (on_disk es []) t).1
          t.transaction_id).1
        u
      ≡ (ok tt, after)
  unfolding append_entry after
  appended_log =
      ap (λ (log : C4Log). append_locked crc stored true true log u) aborted_log
      ∙ append_locked-stored crc (busy es (table_bytes es) refused t aborted) u v.numbered v.few
          good_u.formed new_u index_u version_u

  unknown_t : find_entry (es ++ u ∷ []) t.transaction_id ≡ none
  unknown_t = Fresh-find_entry (es ++ u ∷ []) t.transaction_id (
      All-append (λ (y : Entry). bytes_eq y.transaction_id t.transaction_id ≡ false) es (u ∷ [])
        (find_entry-Fresh es t.transaction_id new_t) (other, tt))

  journal-refused :
      (write : Write) (file : List ℕ)
      → load_journal crc (length refused) write refused (idle (es ++ u ∷ []) file refused)
        ≡ err ebadmsg
  unfolding refused
  journal-refused write file =
      let v' = with_entry-Inv crc (on_disk es []) u v good_u few new_u index_u version_u in
      load_journal-refused crc (length refused) write txn_prepare (entry_bytes t)
        (idle (es ++ u ∷ []) file refused)
        (omega (
          arith,
          length-append (record_bytes crc txn_prepare (entry_bytes t))
              (record_bytes crc txn_abort t.transaction_id),
          length-record_bytes crc txn_prepare (entry_bytes t),
        ))
        (length-entry crc es (table_bytes es) [] t v.numbered v.few good_t small index_t version_t)
        (record_bytes crc txn_abort t.transaction_id) ebadmsg
        (replay_record-late crc write (es ++ u ∷ []) file refused t v'.numbered v'.few good_t
          unknown_t (omega (arith, index_t, length-append es (u ∷ []))))

  after-unopened : (write : Write) → reopen crc write after.file after.journal ≡ err ebadmsg
  unfolding reopen after
  after-unopened write =
      let v' = with_entry-Inv crc (on_disk es []) u v good_u few new_u index_u version_u in
      let loaded : load_entries crc (length after.file) after.file
            (record empty { file = after.file; journal = refused })
          ≡ ok (on_disk (es ++ u ∷ []) refused) =
        subst
          (λ (b : List ℕ).
            load_entries crc (length b) b (record empty { file = b; journal = refused })
            ≡ ok (on_disk (es ++ u ∷ []) refused))
          (append-nil (table_bytes (es ++ u ∷ [])) ∙ sym v'.synced)
          (load_entries-tail_of crc (with_entry (on_disk es []) u) [] refused v' (inl refl)) in
      rw loaded (journal-refused write (table_bytes (es ++ u ∷ [])))

  -- An abort can make the log unreadable. A transaction is prepared on a log on disk, which obeys the
  -- invariant and has an empty journal, and aborted, then c4_log_append_entry adds the entry of
  -- another transaction at the same index. The append succeeds, and so the log holds the entry; but
  -- c4_log_open on the two files then fails with EBADMSG, since it checks the prepare in the journal
  -- against the number of entries at the end. Both entries are well formed, of new and different
  -- transactions and numbered after the last.
  pub abort-reuse :
      (write : Write)
      → let end =
          append_entry crc stored true
            (abort crc stored true
              (prepare crc stored true true (on_disk es []) t).1
              t.transaction_id).1
            u in
        (end.0 ≡ ok tt)
        × (end.1.entries ≡ es ++ u ∷ [])
        × (reopen crc write end.1.file end.1.journal ≡ err ebadmsg)
  unfolding after
  abort-reuse write = rw appended_log (refl, refl, after-unopened write)
