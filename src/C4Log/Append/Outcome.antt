-- ===== src/C4Log/Append/Outcome.antt =====
-- What append_locked does on each of its branches, and that it keeps the invariant.
use trabalho_distribuidos.Prelude.{
  ℕ, ◌+◌, ◌-◌, ◌^◌, ◌<◌, ◌≡◌, inl, inr, refl, true, false, not, ◌&&◌, none, some, List, [], ◌∷◌,
  ◌++◌, arith, length, take, ◌==◌, ==_iff, Result, ok, err, Errno, length-append, ap, ◌∙◌, sym,
  All-append, Bool-cases, Option-cases, ebadmsg, eexist, erange, &&-true,
}
use trabalho_distribuidos.C4Log.{
  Entry, C4Log, Write, stored, torn, write_record, same_entry, find_entry, next_index, next_version,
}
use trabalho_distribuidos.C4Log.Codec.{entry_bytes}
use trabalho_distribuidos.C4Log.Codec.RoundTrip.{Fits}
use trabalho_distribuidos.C4Log.Append.{finish, is_well_formed, append_new, append_locked}
use trabalho_distribuidos.C4Log.Append.Invariant.{
  IsGood, Inv, table_bytes-snoc, Numbered, Numbered-snoc, Distinct-snoc, find_entry-Fresh, next-Inv,
}

-- The log with one more entry, in memory and in the file.
abbrev pub with_entry : C4Log → Entry → C4Log
with_entry log entry = record log {
  entries = log.entries ++ entry ∷ [];
  file = log.file ++ entry_bytes entry;
}

module _ (crc : ℕ → List ℕ → ℕ) where
  pub with_entry-Inv :
      (log : C4Log) (entry : Entry)
      → Inv crc log
      → IsGood crc entry
      → length log.entries < 2 ^ 64 - 2
      → find_entry log.entries entry.transaction_id ≡ none
      → entry.index ≡ length log.entries + 1
      → entry.version ≡ length log.entries + 1
      → Inv crc (with_entry log entry)
  with_entry-Inv log entry v good few new index version = record {
    numbered =
        Numbered-snoc 1 log.entries entry v.numbered (omega (arith, index))
          (omega (arith, version));
    distinct =
        Distinct-snoc log.entries entry v.distinct
          (find_entry-Fresh log.entries entry.transaction_id new);
    good = All-append (IsGood crc) log.entries (entry ∷ []) v.good (good, tt);
    few = omega (arith, length-append log.entries (entry ∷ []));
    synced = ap (λ b. b ++ entry_bytes entry) v.synced ∙ sym (table_bytes-snoc log.entries entry);
  }

  -- A new entry with the right numbers.
  module _ (log : C4Log) (entry : Entry) (numbered : Numbered 1 log.entries)
      (few : length log.entries < 2 ^ 64 - 1) (good : is_well_formed crc entry ≡ true)
      (new : find_entry log.entries entry.transaction_id ≡ none)
      (index : entry.index ≡ length log.entries + 1)
      (version : entry.version ≡ length log.entries + 1) where
    right_numbers :
        not (entry.index == next_index log.entries && entry.version == next_version log.entries)
        ≡ false
    right_numbers =
        let (i, w) = next-Inv log.entries numbered few in
        let i' : (entry.index == next_index log.entries) ≡ true = (==_iff _ _).1 (index ∙ sym i) in
        let w' : (entry.version == next_version log.entries) ≡ true =
          (==_iff _ _).1 (version ∙ sym w) in
        rw (i', w')

    pub append_locked-stored :
        append_locked crc stored true true log entry ≡ (ok tt, with_entry log entry)
    unfolding append_locked append_new write_record
    append_locked-stored = rw (good, new, append_locked) (rw right_numbers)

    pub append_locked-torn :
        (n : ℕ) (error : Errno)
        → append_locked crc (torn n false error) true true log entry
          ≡ (err error, record log { file = log.file ++ take n (entry_bytes entry) })
    unfolding append_locked append_new write_record
    append_locked-torn n error = rw (good, new, append_locked) (rw right_numbers)

    pub append_locked-load :
        append_locked crc stored true false log entry
        ≡ (ok tt, record log { entries = log.entries ++ entry ∷ [] })
    unfolding append_locked append_new
    append_locked-load = rw (good, new, append_locked) (rw right_numbers)

-- A write that is complete, or is undone by ftruncate.
abbrev pub Settled : Write → Type 0
Settled stored = Unit {0}
Settled (torn written true error) = Unit {0}
Settled (torn written false error) = ⊥

-- The three ways in which append_locked may end: the log holds the same entry already, the entry is new
-- and in sequence and was added, or there is an error and nothing has changed.
pub data Outcome (crc : ℕ → List ℕ → ℕ) (log : C4Log) (entry : Entry)
    (end : Result (Unit {0}) × C4Log) : Type 0 where
  known :
      (old : Entry)
      → find_entry log.entries entry.transaction_id ≡ some old
      → same_entry old entry ≡ true
      → end ≡ (ok tt, log)
      → Outcome crc log entry end
  added :
      is_well_formed crc entry ≡ true
      → find_entry log.entries entry.transaction_id ≡ none
      → entry.index ≡ length log.entries + 1
      → entry.version ≡ length log.entries + 1
      → end ≡ (ok tt, with_entry log entry)
      → Outcome crc log entry end
  refused : (error : Errno) → end ≡ (err error, log) → Outcome crc log entry end

module _ (crc : ℕ → List ℕ → ℕ) (log : C4Log) (entry : Entry) (v : Inv crc log) where
  append_new-Outcome :
      (write : Write)
      → Settled write
      → is_well_formed crc entry ≡ true
      → find_entry log.entries entry.transaction_id ≡ none
      → Outcome crc log entry (append_new crc write true true log entry)
  unfolding append_new write_record
  append_new-Outcome write s good new =
      elim (Bool-cases
        (entry.index == next_index log.entries && entry.version == next_version log.entries)) [
          | inr wrong ↦ rw wrong (refused erange refl)
          | inl right ↦
              let (i, w) = next-Inv log.entries v.numbered v.few in
              let (j, k) = &&-true _ _ right in
              rw right (settle write s ((==_iff _ _).0 j ∙ i) ((==_iff _ _).0 k ∙ w))
        ]
    where
      settle :
          (w : Write)
          → Settled w
          → entry.index ≡ length log.entries + 1
          → entry.version ≡ length log.entries + 1
          → Outcome crc log entry
              (finish true log entry (write_record w log.file (entry_bytes entry)))
      settle stored q i j = added good new i j refl
      settle (torn n true e) q i j = refused e refl
      settle (torn n false e) q i j = absurd q

  append_locked-Outcome :
      (write : Write)
      → Settled write
      → Outcome crc log entry (append_locked crc write true true log entry)
  unfolding append_locked
  append_locked-Outcome write s = elim (Bool-cases (is_well_formed crc entry)) [
    | inr bad ↦ rw bad (refused ebadmsg refl)
    | inl good ↦ rw good (elim (Option-cases (find_entry log.entries entry.transaction_id)) [
      | inl new ↦ rw (new, append_locked) (append_new-Outcome write s good new)
      | inr (old, e) ↦ elim (Bool-cases (same_entry old entry)) [
        | inl same ↦ rw (e, append_locked) (rw same (known old e same refl))
        | inr other ↦ rw (e, append_locked) (rw other (refused eexist refl))
      ]
    ])
  ]

  -- With allocations that succeed and a write that completes or is undone, append_locked keeps the
  -- invariant of the log, and is atomic: it succeeds because the log holds the same entry already, and
  -- changes nothing; or it succeeds and the entry, which is of a new transaction and numbered after the
  -- last, is appended in memory and in the file; or it fails, and log and file are unchanged.
  pub append_locked-atomic :
      (write : Write)
      → Settled write
      → Fits entry
      → length log.entries < 2 ^ 64 - 2
      → Inv crc (append_locked crc write true true log entry).1
        × Outcome crc log entry (append_locked crc write true true log entry)
  append_locked-atomic write s fits few = let o = append_locked-Outcome write s in (keeps o, o)
    where
      keeps :
          Outcome crc log entry (append_locked crc write true true log entry)
          → Inv crc (append_locked crc write true true log entry).1
      keeps (known old f same e) = rw e v
      keeps (refused error e) = rw e v
      keeps (added good new i j e) =
          rw e (with_entry-Inv crc log entry v (record { fits = fits; formed = good }) few new i j)
