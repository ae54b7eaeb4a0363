-- ===== src/C4Log/Journal/Fresh.antt =====
-- The first transaction of a log: what c4_log_prepare, c4_log_commit and c4_log_abort do for it.
use trabalho_distribuidos.Prelude.{
  ℕ, ◌+◌, ◌-◌, ◌^◌, ◌<◌, ◌≤◌, ◌≡◌, refl, true, false, not, none, some, List, [], ◌∷◌, ◌++◌, arith,
  length, bytes_eq_refl, ◌==◌, ==_iff, ltb, leb, ok, ◌∙◌, sym, &&-true, length-append,
}
use trabalho_distribuidos.Protocol.{max_payload_size}
use trabalho_distribuidos.C4Log.{
  Entry, State, C4Log, Write, stored, write_record, same_entry, find_entry, find_transaction,
  set_state, next_index, next_version, prepared, committed, aborted,
}
use trabalho_distribuidos.C4Log.Codec.{
  header_size, header, entry_bytes, entry_checksum, encode, decode,
}
use trabalho_distribuidos.C4Log.Codec.RoundTrip.{length-header, decode-entry_bytes}
use trabalho_distribuidos.C4Log.Append.{is_well_formed}
use trabalho_distribuidos.C4Log.Append.Invariant.{
  IsGood, Numbered, Fresh, find_entry-Fresh, next-Inv,
}
use trabalho_distribuidos.C4Log.Journal.{
  txn_prepare, txn_commit, txn_abort, expected_next, after_pending, record_bytes, journal_record,
  enlist, prepare_new, prepare, commit_known, apply_commit, commit, record_abort, abort,
  apply_recorded, mark_recorded,
}

pub same_entry_refl : (e : Entry) → same_entry e e ≡ true
unfolding same_entry
same_entry_refl e =
    rw
      (
        (==_iff e.index e.index).1 refl,
        (==_iff e.version e.version).1 refl,
        (==_iff e.checksum e.checksum).1 refl,
        bytes_eq_refl e.transaction_id,
        bytes_eq_refl e.payload,
      )
      refl

find_entry-Fresh_snoc :
    (es : List Entry) (e : Entry)
    → Fresh e.transaction_id es
    → find_entry (es ++ e ∷ []) e.transaction_id ≡ some e
unfolding find_entry
find_entry-Fresh_snoc [] e h = rw (bytes_eq_refl e.transaction_id) refl
find_entry-Fresh_snoc (x ∷ es) e h = rw h.0 (find_entry-Fresh_snoc es e h.1)

pub find_entry-snoc :
    (es : List Entry) (e : Entry)
    → find_entry es e.transaction_id ≡ none
    → find_entry (es ++ e ∷ []) e.transaction_id ≡ some e
find_entry-snoc es e h = find_entry-Fresh_snoc es e (find_entry-Fresh es e.transaction_id h)

-- The checks that an entry passes, one by one.
pub record Passes (crc : ℕ → List ℕ → ℕ) (e : Entry) : Type 0 where
  pub index : (e.index == 0) ≡ false
  pub version : (e.version == 0) ≡ false
  pub checksum : e.checksum ≡ entry_checksum crc e

pub formed-Passes : (crc : ℕ → List ℕ → ℕ) (e : Entry) → is_well_formed crc e ≡ true → Passes crc e
unfolding is_well_formed
formed-Passes crc e h =
    let (i, r) = &&-true (not (e.index == 0)) _ h in
    let (v, t) = &&-true (not (e.version == 0)) _ r in
    let (_, c) = &&-true (leb (length e.payload) max_payload_size) _ t in
    record { index = ground (arith, i); version = ground (arith, v); checksum = (==_iff _ _).0 c }

module _ (crc : ℕ → List ℕ → ℕ) (e : Entry) (good : IsGood crc e) where
  pub encode-good :
      length e.payload ≤ max_payload_size - header_size → encode crc e ≡ ok (entry_bytes e)
  unfolding encode
  encode-good small =
      let sum : (e.checksum == entry_checksum crc e) ≡ true =
        (==_iff _ _).1 (formed-Passes crc e good.formed).checksum in
      let room : leb (length e.payload) (max_payload_size - header_size) ≡ true = ground arith in
      rw sum (rw room refl)

  pub decode-good : decode crc (entry_bytes e) ≡ ok e
  decode-good =
      let p = formed-Passes crc e good.formed in
      decode-entry_bytes crc e good.fits (ground (arith, p.index)) (ground (arith, p.version))
        ((==_iff _ _).1 p.checksum)

pub journal_record-stored :
    (crc : ℕ → List ℕ → ℕ) (type : ℕ) (payload : List ℕ) (log : C4Log)
    → length payload ≤ max_payload_size
    → journal_record crc stored log type payload
      ≡ (ok tt, record log { journal = log.journal ++ record_bytes crc type payload })
unfolding journal_record write_record
journal_record-stored crc type payload log h =
    let fits : ltb max_payload_size (length payload) ≡ false = ground arith in rw fits refl

-- A log without transactions, and with one.
abbrev pub idle : List Entry → List ℕ → List ℕ → C4Log
idle es file journal = record { entries = es; transactions = []; file = file; journal = journal }

abbrev pub busy : List Entry → List ℕ → List ℕ → Entry → State → C4Log
busy es file journal e state = record (idle es file journal) {
  transactions = record { entry = e; state = state } ∷ [];
}

module _ (crc : ℕ → List ℕ → ℕ) (es : List Entry) (file journal : List ℕ) (e : Entry)
    (numbered : Numbered 1 es) (few : length es < 2 ^ 64 - 1) (good : IsGood crc e)
    (small : length e.payload ≤ max_payload_size - header_size) (index : e.index ≡ length es + 1)
    (version : e.version ≡ length es + 1) where
  pub length-entry : length (entry_bytes e) ≤ max_payload_size
  unfolding entry_bytes
  length-entry =
      omega
        (arith, small, length-append (header e e.checksum) e.payload, length-header e [] good.fits)

  prepare_new-first :
      prepare_new crc stored true true (idle es file journal) e
      ≡ (ok tt, busy es file (journal ++ record_bytes crc txn_prepare (entry_bytes e)) e prepared)
  unfolding prepare_new expected_next after_pending enlist
  prepare_new-first =
      let (i, v) = next-Inv es numbered few in
      let i' : (e.index == next_index es) ≡ true = (==_iff _ _).1 (index ∙ sym i) in
      let v' : (e.version == next_version es) ≡ true = (==_iff _ _).1 (version ∙ sym v) in
      rw (i', v')
        (rw (encode-good crc e good small) (
          rw
            (journal_record-stored crc txn_prepare (entry_bytes e) (idle es file journal)
              length-entry)
            (rw (decode-good crc e good, enlist) refl)))

  pub prepare-first :
      prepare crc stored true true (idle es file journal) e
      ≡ (ok tt, busy es file (journal ++ record_bytes crc txn_prepare (entry_bytes e)) e prepared)
  unfolding prepare find_transaction
  prepare-first =
      let p = formed-Passes crc e good.formed in
      let sum : (e.checksum == entry_checksum crc e) ≡ true = (==_iff _ _).1 p.checksum in
      rw (p.index, p.version, sum) prepare_new-first

  id_fits : length e.transaction_id ≤ max_payload_size
  id_fits = omega (arith, good.fits.id)

  pub abort-first :
      abort crc stored true (busy es file journal e prepared) e.transaction_id
      ≡ (ok tt, busy es file (journal ++ record_bytes crc txn_abort e.transaction_id) e aborted)
  unfolding abort record_abort find_transaction set_state mark_recorded
  abort-first =
      rw (bytes_eq_refl e.transaction_id, abort)
        (rw
          (
            record_abort,
            journal_record-stored crc txn_abort e.transaction_id (busy es file journal e prepared)
                id_fits,
            bytes_eq_refl e.transaction_id,
          )
          refl)

  pub commit-first :
      (second : Write)
      → commit crc stored second true (busy es file journal e prepared) e.transaction_id
        ≡ apply_commit crc second true
            (busy es file (journal ++ record_bytes crc txn_commit e.transaction_id) e committed)
            e
  unfolding commit commit_known find_transaction set_state apply_recorded
  commit-first second =
      rw (bytes_eq_refl e.transaction_id, commit)
        (rw
          (
            commit_known,
            journal_record-stored crc txn_commit e.transaction_id (busy es file journal e prepared)
                id_fits,
            bytes_eq_refl e.transaction_id,
          )
          refl)
