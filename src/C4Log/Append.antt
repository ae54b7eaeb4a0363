-- ===== src/C4Log/Append.antt =====
-- c4_log.c: appending to the log, and reading it.
pub mod Invariant
pub mod Outcome
use trabalho_distribuidos.Prelude.{
  ℕ, zero, suc, ◌+◌, ◌-◌, ◌*◌, ◌%◌, ◌^◌, ◌≡◌, refl, Bool, true, false, not, ◌&&◌, ◌||◌, Option,
  none, some, List, [], ◌∷◌, ◌++◌, arith, length, get_elem?, bytes_eq, ◌==◌, ltb, leb,
  if◌then◌else◌, Result, ok, err, einval, ebadmsg, eexist, erange, enoent, enomem, ◌>>=◌, ◌>>◌,
  require,
}
use trabalho_distribuidos.Protocol.{max_payload_size}
use trabalho_distribuidos.C4Log.{
  Entry, C4Log, Write, write_record, same_entry, find_entry, next_index, next_version,
}
use trabalho_distribuidos.C4Log.Codec.{entry_bytes, entry_checksum}

-- append_memory; `allocated` is false if the table or the copy of the payload cannot be allocated.
unfoldable pub append_memory : Bool → C4Log → Entry → Result (Unit {0}) × C4Log
append_memory true log entry = (ok tt, record log { entries = log.entries ++ entry ∷ [] })
append_memory false log entry = (err enomem, log)

-- The end of append_locked, once the record is in the file or not.
finish : Bool → C4Log → Entry → Result (Unit {0}) × List ℕ → Result (Unit {0}) × C4Log
unfolding append_memory
finish allocated log entry (ok done, file) =
    append_memory allocated (record log { file = file }) entry
finish allocated log entry (err error, file) = (err error, record log { file = file })

module _ (crc : ℕ → List ℕ → ℕ) where
  -- The checks with which append_locked begins.
  unfoldable pub is_well_formed : Entry → Bool
  is_well_formed entry =
      not (entry.index == 0)
      && (not (entry.version == 0)
          && (leb (length entry.payload) max_payload_size
              && entry.checksum == entry_checksum crc entry))

  -- append_locked for an entry of a transaction that the log does not hold.
  unfoldable pub append_new : Write → Bool → Bool → C4Log → Entry → Result (Unit {0}) × C4Log
  unfolding finish
  append_new write allocated persist log entry =
      if not (entry.index == next_index log.entries && entry.version == next_version log.entries)
      then (err erange, log)
      else if persist
      then finish allocated log entry (write_record write log.file (entry_bytes entry))
      else append_memory allocated log entry

  -- append_locked
  unfoldable pub append_locked : Write → Bool → Bool → C4Log → Entry → Result (Unit {0}) × C4Log
  unfolding is_well_formed append_new
  append_locked write allocated persist log entry =
      if not (is_well_formed entry)
      then (err ebadmsg, log)
      else elim (find_entry log.entries entry.transaction_id) [
        | some old ↦ if same_entry old entry then (ok tt, log) else (err eexist, log)
        | none ↦ append_new write allocated persist log entry
      ]

  -- c4_log_append_entry
  unfoldable pub append_entry : Write → Bool → C4Log → Entry → Result (Unit {0}) × C4Log
  append_entry write allocated log entry = append_locked write allocated true log entry

  -- The entry that c4_log_append makes for the next index.
  unfoldable pub next_entry : C4Log → List ℕ → ℕ → List ℕ → Entry
  next_entry log id version payload =
      let draft : Entry = record {
        index = next_index log.entries;
        version = version;
        transaction_id = id;
        payload = payload;
        checksum = 0;
      } in
      record draft { checksum = entry_checksum crc draft }

  -- c4_log_append
  unfoldable pub append : Write → Bool → C4Log → List ℕ → ℕ → List ℕ → Result (Unit {0}) × C4Log
  unfolding append_locked next_entry
  append write allocated log id version payload =
      if ltb max_payload_size (length payload)
      then (err einval, log)
      else elim (find_entry log.entries id) [
        | some old ↦
            if old.version == version && bytes_eq old.payload payload
            then (ok tt, log)
            else (err eexist, log)
        | none ↦ append_locked write allocated true log (next_entry log id version payload)
      ]

-- c4_log_get
unfoldable pub get : C4Log → ℕ → Result Entry
get log index =
    if index == 0
    then err einval
    else elim (get_elem? log.entries (index - 1)) [ some entry ↦ ok entry | none ↦ err enoent ]

-- c4_log_get_transaction
unfoldable pub get_transaction : C4Log → List ℕ → Result Entry
get_transaction log id = elim (find_entry log.entries id) [
  | some entry ↦ ok entry
  | none ↦ err enoent
]
