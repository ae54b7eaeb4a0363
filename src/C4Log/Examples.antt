-- ===== src/C4Log/Examples.antt =====
-- Runs of the log on small entries, with a sum in the place of the checksum of zlib.
use trabalho_distribuidos.Prelude.{
  ℕ, ◌≡◌, refl, true, false, [], ◌∷◌, ◌++◌, replicate, arith, take, eio, ok, err, ebadmsg, Result,
  none,
}
use trabalho_distribuidos.Protocol.Crc.{crc32_update, calculate_crc32}
use trabalho_distribuidos.Protocol.Examples.{sum_of}
use trabalho_distribuidos.Wire.{put_u32, put_u64}
use trabalho_distribuidos.C4Log.{Entry, C4Log, stored, torn, find_entry, committed}
use trabalho_distribuidos.C4Log.Codec.{header, entry_bytes, entry_checksum, encode, decode}
use trabalho_distribuidos.C4Log.Codec.RoundTrip.{Fits, decode-encode}
use trabalho_distribuidos.C4Log.Append.{is_well_formed, append_locked, append_entry}
use trabalho_distribuidos.C4Log.Append.Invariant.{IsGood, Inv, table_bytes}
use trabalho_distribuidos.C4Log.Append.Outcome.{Outcome, append_locked-atomic}
use trabalho_distribuidos.C4Log.Journal.{prepare, commit, abort}
use trabalho_distribuidos.C4Log.Open.{reopen}
use trabalho_distribuidos.C4Log.Open.Recovery.{on_disk, survivors, reopen-crash}
use trabalho_distribuidos.C4Log.Open.Decision.{commit-durable}
use trabalho_distribuidos.C4Log.Open.Reuse.{abort-reuse}

-- The first entry of a log, of the transaction whose identifier repeats `n`, with the given checksum.
abbrev first : ℕ → ℕ → Entry
first n sum = record {
  index = 1;
  version = 1;
  transaction_id = replicate 16 n;
  payload = b'o' ∷ b'i' ∷ [];
  checksum = sum;
}

abbrev one : Entry
one = first 1 502

abbrev two : Entry
two = first 2 518

one-Fits : Fits one
one-Fits = record {
  index = omega arith;
  version = omega arith;
  id = refl;
  payload = omega arith;
  checksum = omega arith;
}

two-Fits : Fits two
two-Fits = record {
  index = omega arith;
  version = omega arith;
  id = refl;
  payload = omega arith;
  checksum = omega arith;
}

one-IsGood : IsGood sum_of one
unfolding is_well_formed entry_checksum calculate_crc32 crc32_update header put_u64 put_u32
one-IsGood = record { fits = one-Fits; formed = refl }

two-IsGood : IsGood sum_of two
unfolding is_well_formed entry_checksum calculate_crc32 crc32_update header put_u64 put_u32
two-IsGood = record { fits = two-Fits; formed = refl }

empty_Inv : Inv sum_of (on_disk [] [])
unfolding table_bytes
empty_Inv = record { numbered = tt; distinct = tt; good = tt; few = omega arith; synced = refl }

one_new : find_entry [] one.transaction_id ≡ none
unfolding find_entry
one_new = refl

two_new : find_entry [] two.transaction_id ≡ none
unfolding find_entry
two_new = refl

one_encoded : encode sum_of one ≡ ok (entry_bytes one)
unfolding encode entry_checksum calculate_crc32 crc32_update header put_u64 put_u32
one_encoded = refl

decode-encode_example : decode sum_of (entry_bytes one) ≡ ok one
decode-encode_example =
    decode-encode sum_of one (entry_bytes one) one-Fits (omega arith) (omega arith) one_encoded

append_locked-atomic_example :
    Inv sum_of (append_locked sum_of stored true true (on_disk [] []) one).1
    × Outcome sum_of (on_disk [] []) one (append_locked sum_of stored true true (on_disk [] []) one)
append_locked-atomic_example =
    append_locked-atomic sum_of (on_disk [] []) one empty_Inv stored tt one-Fits (omega arith)

reopen-crash_example :
    reopen sum_of stored ((on_disk [] []).file ++ take 20 (entry_bytes one)) []
    ≡ ok (on_disk (survivors [] one 20) [])
reopen-crash_example =
    reopen-crash sum_of (on_disk [] []) one 20 empty_Inv one-IsGood (omega arith) one_new refl refl
      stored

-- The log that a crash left after 20 bytes of the entry.
abbrev crashed : C4Log
crashed =
    (commit sum_of stored (torn 20 false eio) true
      (prepare sum_of stored true true (on_disk [] []) one).1 one.transaction_id).1

commit-durable_example :
    reopen sum_of stored crashed.file crashed.journal
    ≡ ok (record crashed {
      entries = one ∷ [];
      file = table_bytes (one ∷ []);
      transactions = record { entry = one; state = committed } ∷ [];
    })
commit-durable_example =
    commit-durable sum_of [] one 20 empty_Inv one-IsGood (omega arith) (omega arith) one_new refl
      refl eio

-- What is left when the second entry takes the index of the first, which was aborted.
abbrev reused : Result (Unit {0}) × C4Log
reused =
    append_entry sum_of stored true
      (abort sum_of stored true (prepare sum_of stored true true (on_disk [] []) one).1
        one.transaction_id).1
      two

abort-reuse_example :
    (reused.0 ≡ ok tt)
    × (reused.1.entries ≡ two ∷ [])
    × (reopen sum_of stored reused.1.file reused.1.journal ≡ err ebadmsg)
abort-reuse_example =
    abort-reuse sum_of [] one two empty_Inv one-IsGood two-IsGood (omega arith) (omega arith)
      one_new two_new refl refl refl refl refl stored
