-- ===== src/C4Log/Open/Recovery.antt =====
-- Opening the file that a crash during an append left behind.
use trabalho_distribuidos.Prelude.{
  ℕ, ◌+◌, ◌-◌, ◌^◌, ◌<◌, ◌≡◌, inl, inr, refl, List, [], ◌∷◌, ◌++◌, arith, length, take, ok,
  length-append, ◌∙◌, sym, subst, take-append, take_ge, ltb, if◌then◌else◌, Bool-cases, none,
}
use mathlib.Core.List.{append-nil}
use trabalho_distribuidos.C4Log.{Entry, C4Log, Write, find_entry, empty}
use trabalho_distribuidos.C4Log.Codec.{entry_bytes}
use trabalho_distribuidos.C4Log.Append.Invariant.{IsGood, Inv, table_bytes}
use trabalho_distribuidos.C4Log.Append.Outcome.{with_entry, with_entry-Inv}
use trabalho_distribuidos.C4Log.Open.{load_entries, load_journal, reopen}
use trabalho_distribuidos.C4Log.Open.Table.{IsTail, load_entries-table}
use trabalho_distribuidos.C4Log.Open.Entries.{read_entry-torn}

-- A log without transactions whose file holds just its entries.
abbrev pub on_disk : List Entry → List ℕ → C4Log
on_disk es journal = record {
  entries = es;
  transactions = [];
  file = table_bytes es;
  journal = journal;
}

-- The entries of which the whole record is in a file that ends after `n` bytes of the last one.
abbrev pub survivors : List Entry → Entry → ℕ → List Entry
survivors es entry n = if ltb n (length (entry_bytes entry)) then es else es ++ entry ∷ []

module _ (crc : ℕ → List ℕ → ℕ) where
  pub load_entries-tail_of :
      (log : C4Log) (tail journal : List ℕ)
      → Inv crc log
      → IsTail crc tail
      → load_entries crc
          (length (table_bytes log.entries ++ tail))
          (table_bytes log.entries ++ tail)
          (record empty { file = table_bytes log.entries ++ tail; journal = journal })
        ≡ ok (on_disk log.entries journal)
  load_entries-tail_of log tail journal v t =
      let table : List ℕ = table_bytes log.entries in
      let bytes : List ℕ = table ++ tail in
      let kept : take (length bytes - length tail) bytes ≡ table =
        take-append (length bytes - length tail) table tail
          (omega (arith, length-append table tail)) in
      let load =
        load_entries-table crc (length bytes) log.entries tail
          (record empty { file = bytes; journal = journal }) tt v.numbered v.distinct v.good
          (omega (arith, v.few)) t (omega arith) in
      rw load (rw kept refl)

  module _ (log : C4Log) (entry : Entry) (n : ℕ) (v : Inv crc log) (good : IsGood crc entry)
      (few : length log.entries < 2 ^ 64 - 2)
      (new : find_entry log.entries entry.transaction_id ≡ none)
      (index : entry.index ≡ length log.entries + 1)
      (version : entry.version ≡ length log.entries + 1) where
    pub load_entries-crash :
        (journal : List ℕ)
        → load_entries crc
            (length (log.file ++ take n (entry_bytes entry)))
            (log.file ++ take n (entry_bytes entry))
            (record empty { file = log.file ++ take n (entry_bytes entry); journal = journal })
          ≡ ok (on_disk (survivors log.entries entry n) journal)
    load_entries-crash journal = elim (Bool-cases (ltb n (length (entry_bytes entry)))) [
      | inl less ↦
          rw (less, v.synced)
            (load_entries-tail_of log (take n (entry_bytes entry)) journal v
              (inr (read_entry-torn entry n good.fits (ground arith))))
      | inr whole ↦
          let v' = with_entry-Inv crc log entry v good few new index version in
          let all : take n (entry_bytes entry) ≡ entry_bytes entry =
            take_ge n (entry_bytes entry) (ground arith) in
          rw (whole, all)
            (subst
              (λ (b : List ℕ).
                load_entries crc (length b) b (record empty { file = b; journal = journal })
                ≡ ok (on_disk (log.entries ++ entry ∷ []) journal))
              (append-nil (table_bytes (log.entries ++ entry ∷ [])) ∙ sym v'.synced)
              (load_entries-tail_of (with_entry log entry) [] journal v' (inl refl)))
    ]

    -- However much of the record of a new entry reached the file before a crash, c4_log_open on that
    -- file and an empty journal succeeds: it gives the log without the entry if the record is not
    -- complete, and then cuts off the part that is there, and the log with the entry if it is complete.
    -- The log obeys the invariant, and the entry is one that append_locked accepts.
    pub reopen-crash :
        (write : Write)
        → reopen crc write (log.file ++ take n (entry_bytes entry)) []
          ≡ ok (on_disk (survivors log.entries entry n) [])
    unfolding reopen load_journal
    reopen-crash write = rw (load_entries-crash []) refl
