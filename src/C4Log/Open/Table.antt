-- ===== src/C4Log/Open/Table.antt =====
-- The loop of c4_log_open over the file rebuilds the table of entries.
use trabalho_distribuidos.Prelude.{
  ℕ, zero, suc, ◌+◌, ◌-◌, ◌^◌, ◌<◌, ◌≤◌, ◌≡◌, ◌≢◌, ◌⊎◌, inl, inr, refl, true, false, List, [], ◌∷◌,
  ◌++◌, arith, length, take, ok, length-append, ap, ◌∙◌, sym, subst, All, take-length, bytes_eq,
  none,
}
use mathlib.Core.List.{append_assoc, append-nil}
use trabalho_distribuidos.C4Log.{Entry, C4Log, stored, find_entry}
use trabalho_distribuidos.C4Log.Codec.{entry_bytes, header}
use trabalho_distribuidos.C4Log.Codec.RoundTrip.{Fits, length-header}
use trabalho_distribuidos.C4Log.Append.{append_locked}
use trabalho_distribuidos.C4Log.Append.Invariant.{
  IsGood, table_bytes, Numbered, Distinct, Fresh, Fresh-find_entry, Numbered-snoc, bytes_eq_comm,
}
use trabalho_distribuidos.C4Log.Append.Outcome.{append_locked-load}
use trabalho_distribuidos.C4Log.Open.{cut, whole, read_entry, load_entries}
use trabalho_distribuidos.C4Log.Open.Entries.{read_entry-entry_bytes}

length-entry_bytes : (entry : Entry) → Fits entry → 0 < length (entry_bytes entry)
unfolding entry_bytes
length-entry_bytes entry fits =
    omega (
      arith,
      length-append (header entry entry.checksum) entry.payload,
      length-header entry [] fits,
    )

All-middle : (P : Entry → Type 0) (xs ys : List Entry) (e : Entry) → All P (xs ++ e ∷ ys) → P e
All-middle P [] ys e h = h.0
All-middle P (x ∷ xs) ys e h = All-middle P xs ys e h.1

nonempty : (e : Entry) (rest : List ℕ) → Fits e → entry_bytes e ++ rest ≢ []
nonempty e rest fits none_left =
    omega
      (arith, ap length none_left, length-append (entry_bytes e) rest, length-entry_bytes e fits)

snoc-length : (es : List Entry) (e : Entry) → length (es ++ e ∷ []) ≡ length es + 1
snoc-length es e = length-append es (e ∷ [])

take-whole : (xs : List ℕ) → take (length xs - 0) xs ≡ xs
take-whole xs = let e : length xs - 0 ≡ length xs = omega arith in rw e (take-length xs)

-- An entry in the list is of another transaction than those before it.
Distinct-middle :
    (xs ys : List Entry) (e : Entry)
    → Distinct (xs ++ e ∷ ys)
    → find_entry xs e.transaction_id ≡ none
Distinct-middle xs ys e h = Fresh-find_entry xs e.transaction_id (go xs h)
  where
    go : (zs : List Entry) → Distinct (zs ++ e ∷ ys) → Fresh e.transaction_id zs
    go [] d = tt
    go (z ∷ zs) d = (
      bytes_eq_comm e.transaction_id z.transaction_id (
          All-middle (λ (y : Entry). bytes_eq y.transaction_id z.transaction_id ≡ false) zs ys e
            d.0),
      go zs d.1,
    )

module _ (crc : ℕ → List ℕ → ℕ) where
  load_entries-step :
      (fuel : ℕ) (bytes rest : List ℕ) (log log' : C4Log) (entry : Entry)
      → bytes ≢ []
      → read_entry bytes ≡ whole entry rest
      → append_locked crc stored true false log entry ≡ (ok tt, log')
      → load_entries crc (suc fuel) bytes log ≡ load_entries crc fuel rest log'
  unfolding load_entries
  load_entries-step fuel [] rest log log' entry some_left read append = absurd (some_left refl)
  load_entries-step fuel (b ∷ bytes) rest log log' entry some_left read append =
      rw (read, load_entries) (rw append)

  -- What is left behind the last complete record: nothing, or a part of one.
  abbrev pub IsTail : List ℕ → Type 0
  IsTail tail = (tail ≡ []) ⊎ (read_entry tail ≡ cut)

  no_bytes : {b : ℕ} {bytes : List ℕ} → b ∷ bytes ≡ [] → ⊥
  no_bytes e = cc

  load_entries-tail :
      (fuel : ℕ) (tail : List ℕ) (log : C4Log)
      → length tail ≤ fuel
      → IsTail tail
      → load_entries crc fuel tail log
        ≡ ok (record log { file = take (length log.file - length tail) log.file })
  unfolding load_entries
  load_entries-tail zero [] log h t = rw (take-whole log.file)
  load_entries-tail zero (b ∷ tail) log h t = absurd (omega arith)
  load_entries-tail (suc fuel) [] log h t = rw (take-whole log.file)
  load_entries-tail (suc fuel) (b ∷ tail) log h (inl e) = absurd (no_bytes e)
  load_entries-tail (suc fuel) (b ∷ tail) log h (inr e) = rw (e, load_entries)

  size :
      (e : Entry) (rest : List Entry) (tail : List ℕ)
      → length (table_bytes (e ∷ rest) ++ tail)
        ≡ length (entry_bytes e) + length (table_bytes rest ++ tail)
  unfolding table_bytes
  size e rest tail =
      rw (append_assoc (entry_bytes e) (table_bytes rest) tail)
        (length-append (entry_bytes e) (table_bytes rest ++ tail))

  pub load_entries-table :
      (fuel : ℕ) (rest : List Entry) (tail : List ℕ) (log : C4Log)
      → Numbered 1 log.entries
      → Numbered (length log.entries + 1) rest
      → Distinct (log.entries ++ rest)
      → All (IsGood crc) rest
      → length log.entries + length rest < 2 ^ 64 - 1
      → IsTail tail
      → length (table_bytes rest ++ tail) ≤ fuel
      → load_entries crc fuel (table_bytes rest ++ tail) log
        ≡ ok (record log {
          entries = log.entries ++ rest;
          file = take (length log.file - length tail) log.file;
        })
  unfolding table_bytes
  load_entries-table fuel [] tail log before after distinct good few t enough =
      load_entries-tail fuel tail log enough t
      ∙ ap
          (λ (es : List Entry).
            ok (record log { entries = es; file = take (length log.file - length tail) log.file }))
          (sym (append-nil log.entries))
  load_entries-table zero (e ∷ rest) tail log before after distinct good few t enough =
      absurd (omega (arith, size e rest tail, length-entry_bytes e good.0.fits))
  load_entries-table (suc fuel) (e ∷ rest) tail log before after distinct good few t enough =
      let log' : C4Log = record log { entries = log.entries ++ e ∷ [] } in
      let grown = length-append log.entries (e ∷ []) in
      let append : append_locked crc stored true false log e ≡ (ok tt, log') =
        append_locked-load crc log e before (omega arith) good.0.formed
          (Distinct-middle log.entries rest e distinct) (omega (arith, after.0))
          (omega (arith, after.1)) in
      let regroup : (log.entries ++ e ∷ []) ++ rest ≡ log.entries ++ e ∷ rest =
        append_assoc log.entries (e ∷ []) rest in
      rw (append_assoc (entry_bytes e) (table_bytes rest) tail) (
        load_entries-step fuel (entry_bytes e ++ (table_bytes rest ++ tail))
          (table_bytes rest ++ tail) log log' e (nonempty e (table_bytes rest ++ tail) good.0.fits)
          (read_entry-entry_bytes e (table_bytes rest ++ tail) good.0.fits) append
        ∙ load_entries-table fuel rest tail log'
            (Numbered-snoc 1 log.entries e before (omega (arith, after.0)) (omega (arith, after.1)))
            (subst (λ n. Numbered n rest) (ap (λ n. n + 1) (sym (snoc-length log.entries e)))
              after.2)
            (rw regroup distinct) good.1 (omega arith) t
            (omega (arith, size e rest tail, length-entry_bytes e good.0.fits))
        ∙ ap
            (λ (es : List Entry).
              ok
                (record log { entries = es; file = take (length log.file - length tail) log.file }))
            regroup)
