-- ===== src/C4Log/Open/Records.antt =====
-- The records of the journal are read back as they were written.
use trabalho_distribuidos.Prelude.{
  ℕ, ◌+◌, ◌^◌, ◌<◌, ◌≤◌, ◌≡◌, refl, true, false, List, [], ◌∷◌, ◌++◌, arith, length, take, drop,
  get_or, ◌==◌, ==_iff, ltb, length-append, take-append, drop-append,
}
use trabalho_distribuidos.Wire.{put_u32, get_u32}
use trabalho_distribuidos.Wire.RoundTrip.{get_u32-put_u32}
use trabalho_distribuidos.Protocol.{max_payload_size}
use trabalho_distribuidos.Protocol.Crc.{calculate_crc32-lt}
use trabalho_distribuidos.C4Log.Journal.{txn_magic, txn_header_size, record_checksum, record_bytes}
use trabalho_distribuidos.C4Log.Open.{intact, read_record}

module _ (crc : ℕ → List ℕ → ℕ) where
  record_checksum-lt : (type : ℕ) (payload : List ℕ) → record_checksum crc type payload < 2 ^ 32
  unfolding record_checksum
  record_checksum-lt type payload =
      calculate_crc32-lt crc (type ∷ (put_u32 (length payload) ++ payload))

  -- The header of a record.
  txn_header : ℕ → List ℕ → List ℕ
  txn_header type payload =
      txn_magic
      ++ (type
          ∷ 0
          ∷ 0
          ∷ 0
          ∷ (put_u32 (length payload) ++ put_u32 (record_checksum crc type payload)))

  record_bytes-split :
      (type : ℕ) (payload rest : List ℕ)
      → record_bytes crc type payload ++ rest ≡ txn_header type payload ++ (payload ++ rest)
  unfolding record_bytes txn_header put_u32
  record_bytes-split type payload rest = refl

  read_record-of_parts :
      (head payload rest : List ℕ) (type : ℕ)
      → length head ≡ txn_header_size
      → take 4 head ≡ txn_magic
      → get_or head 4 0 ≡ type
      → get_u32 (drop 8 head) ≡ length payload
      → get_u32 (drop 12 head) ≡ record_checksum crc type payload
      → length payload ≤ max_payload_size
      → read_record crc (head ++ (payload ++ rest)) ≡ intact type payload rest
  unfolding read_record
  read_record-of_parts head payload rest type size magic typed sized summed room =
      let total : length (head ++ (payload ++ rest))
          ≡ txn_header_size + length payload + length rest =
        omega (arith, length-append head (payload ++ rest), length-append payload rest) in
      let long : ltb (length (head ++ (payload ++ rest))) txn_header_size ≡ false = ground arith in
      let fits : ltb max_payload_size (length payload) ≡ false = ground arith in
      let there : ltb (length (head ++ (payload ++ rest))) (txn_header_size + length payload)
          ≡ false =
        ground arith in
      let right : (record_checksum crc type payload == record_checksum crc type payload) ≡ true =
        (==_iff _ _).1 refl in
      rw
        (
          long,
          take-append txn_header_size head (payload ++ rest) size,
          drop-append txn_header_size head (payload ++ rest) size,
        )
        (rw (magic, typed, sized, summed)
          (rw
            (
              fits,
              there,
              take-append (length payload) payload rest refl,
              drop-append (length payload) payload rest refl,
            )
            (rw right refl)))

  module _ (type : ℕ) (payload : List ℕ) where
    header-size : length (txn_header type payload) ≡ txn_header_size
    unfolding txn_header put_u32
    header-size = refl

    header-magic : take 4 (txn_header type payload) ≡ txn_magic
    unfolding txn_header put_u32
    header-magic = refl

    header-type : get_or (txn_header type payload) 4 0 ≡ type
    unfolding txn_header put_u32
    header-type = refl

    header-length :
        length payload ≤ max_payload_size
        → get_u32 (drop 8 (txn_header type payload)) ≡ length payload
    unfolding txn_header
    header-length room =
        get_u32-put_u32 (length payload) (put_u32 (record_checksum crc type payload))
          (omega (arith, room))

    header-checksum : get_u32 (drop 12 (txn_header type payload)) ≡ record_checksum crc type payload
    unfolding txn_header put_u32
    header-checksum =
        get_u32-put_u32 (record_checksum crc type payload) [] (record_checksum-lt type payload)

    pub read_record-record_bytes :
        (rest : List ℕ)
        → length payload ≤ max_payload_size
        → read_record crc (record_bytes crc type payload ++ rest) ≡ intact type payload rest
    read_record-record_bytes rest room = rw (record_bytes-split type payload rest) (
        read_record-of_parts (txn_header type payload) payload rest type header-size header-magic
          header-type (header-length room) header-checksum room)
