-- ===== src/C4Log/Codec/RoundTrip.antt =====
-- An entry survives its encoding, in a message and at the front of the file.
use trabalho_distribuidos.Prelude.{
  ℕ, ◌+◌, ◌-◌, ◌^◌, ◌<◌, ◌≤◌, ◌≡◌, ◌≢◌, refl, true, false, List, ◌++◌, arith, length, take, drop,
  ◌==◌, leb, ok, einval, emsgsize, ◌>>◌, require, require-ok, ok-injective, length-append,
  take-append, drop-append, drop-past, take-length, sym,
}
use mathlib.Core.List.{append_assoc}
use trabalho_distribuidos.Wire.{put_u32, put_u64, get_u32, get_u64}
use trabalho_distribuidos.Wire.RoundTrip.{get_u32-put_u32, get_u64-put_u64, length-put_u32}
use trabalho_distribuidos.Protocol.{max_payload_size}
use trabalho_distribuidos.C4Log.{Entry}
use trabalho_distribuidos.C4Log.Codec.{
  header_size, log_magic, header, entry_bytes, parse_entry, entry_checksum, encode, decode,
}

-- The fields fit their types: uint64_t, 16 bytes, MAX_PAYLOAD_SIZE and uint32_t.
pub record Fits (entry : Entry) : Type 0 where
  pub index : entry.index < 2 ^ 64
  pub version : entry.version < 2 ^ 64
  pub id : length entry.transaction_id ≡ 16
  pub payload : length entry.payload ≤ max_payload_size
  pub checksum : entry.checksum < 2 ^ 32

module _ (entry : Entry) (rest : List ℕ) (fits : Fits entry) where
  tail_of_id : List ℕ
  tail_of_id = put_u32 (length entry.payload) ++ (put_u32 entry.checksum ++ rest)

  header-split :
      header entry entry.checksum ++ rest
      ≡ log_magic
        ++ (put_u64 entry.index ++ (put_u64 entry.version ++ (entry.transaction_id ++ tail_of_id)))
  unfolding header put_u64 tail_of_id
  header-split = simp append_assoc

  pub length-header : length (header entry entry.checksum) ≡ header_size
  unfolding header put_u64
  length-header = omega (
    arith,
    length-append entry.transaction_id (put_u32 (length entry.payload) ++ put_u32 entry.checksum),
    length-append (put_u32 (length entry.payload)) (put_u32 entry.checksum),
    length-put_u32 (length entry.payload),
    length-put_u32 entry.checksum,
    fits.id,
  )

  -- The fields of a header, whatever stands behind it.
  abbrev written : List ℕ
  written = header entry entry.checksum ++ rest

  drop-index : get_u64 (drop 4 written) ≡ entry.index
  unfolding put_u64
  drop-index = rw header-split (get_u64-put_u64 entry.index _ fits.index)

  drop-version : get_u64 (drop 12 written) ≡ entry.version
  unfolding put_u64
  drop-version = rw header-split (get_u64-put_u64 entry.version _ fits.version)

  drop-id : take 16 (drop 20 written) ≡ entry.transaction_id
  unfolding put_u64
  drop-id = rw header-split (take-append 16 entry.transaction_id tail_of_id fits.id)

  pub drop-size : get_u32 (drop 36 written) ≡ length entry.payload
  unfolding put_u64 tail_of_id
  drop-size = rw header-split (
      rw (drop-append 16 entry.transaction_id tail_of_id fits.id)
        (get_u32-put_u32 (length entry.payload) _ (omega (arith, fits.payload))))

  drop-checksum : get_u32 (drop 40 written) ≡ entry.checksum
  unfolding put_u64 tail_of_id
  drop-checksum = rw header-split (
      rw
        (
          drop-past entry.transaction_id tail_of_id 20 4 (omega (arith, fits.id)),
          drop-past (put_u32 (length entry.payload)) (put_u32 entry.checksum ++ rest) 4 0
              (omega (arith, length-put_u32 (length entry.payload))),
        )
        (get_u32-put_u32 entry.checksum rest fits.checksum))

  pub take-magic : take 4 written ≡ log_magic
  unfolding put_u64
  take-magic = rw header-split refl

  pub parse_entry-written : parse_entry written entry.payload ≡ entry
  unfolding parse_entry
  parse_entry-written = rw (drop-index, drop-version, drop-id, drop-checksum)

-- What an encoding stands for: the entry passed the two checks of c4_log_entry_encode.
encode-ok :
    (crc : ℕ → List ℕ → ℕ) (entry : Entry) (bytes : List ℕ)
    → encode crc entry ≡ ok bytes
    → ((entry.checksum == entry_checksum crc entry) ≡ true)
      × (leb (length entry.payload) (max_payload_size - header_size) ≡ true)
      × (bytes ≡ entry_bytes entry)
unfolding encode
encode-ok crc entry bytes h =
    let (sum, g) =
      require-ok (entry.checksum == entry_checksum crc entry) einval
        (do
          require (leb (length entry.payload) (max_payload_size - header_size)) emsgsize
          ok (entry_bytes entry))
        h in
    let (small, e) =
      require-ok (leb (length entry.payload) (max_payload_size - header_size)) emsgsize
        (ok (entry_bytes entry)) g in
    (sum, small, sym (ok-injective e))

-- c4_log_entry_decode by what it reads in the bytes.
pub decode-of_parts :
    (crc : ℕ → List ℕ → ℕ) (entry : Entry) (bytes payload : List ℕ) (n : ℕ)
    → length bytes ≡ header_size + n
    → n ≤ max_payload_size
    → take 4 bytes ≡ log_magic
    → get_u32 (drop 36 bytes) ≡ n
    → take n (drop header_size bytes) ≡ payload
    → parse_entry bytes payload ≡ entry
    → entry.index ≢ 0
    → entry.version ≢ 0
    → (entry.checksum == entry_checksum crc entry) ≡ true
    → decode crc bytes ≡ ok entry
unfolding decode
decode-of_parts crc entry bytes payload n total room magic size body parsed index version sum =
    let long : leb header_size (length bytes) ≡ true = ground arith in
    let fits : leb n max_payload_size ≡ true = ground arith in
    let exact : (length bytes == header_size + n) ≡ true = ground arith in
    let i : (entry.index == 0) ≡ false = ground arith in
    let v : (entry.version == 0) ≡ false = ground arith in
    rw (long, magic) (rw size (rw (fits, exact) (rw body (rw parsed (rw (i, v, sum))))))

pub decode-entry_bytes :
    (crc : ℕ → List ℕ → ℕ) (entry : Entry)
    → Fits entry
    → entry.index ≢ 0
    → entry.version ≢ 0
    → (entry.checksum == entry_checksum crc entry) ≡ true
    → decode crc (entry_bytes entry) ≡ ok entry
unfolding entry_bytes
decode-entry_bytes crc entry fits index version sum =
    decode-of_parts crc entry (header entry entry.checksum ++ entry.payload) entry.payload
      (length entry.payload)
      (omega (
        arith,
        length-append (header entry entry.checksum) entry.payload,
        length-header entry entry.payload fits,
      ))
      fits.payload (take-magic entry entry.payload fits) (drop-size entry entry.payload fits)
      (rw
        (drop-append header_size (header entry entry.checksum) entry.payload
          (length-header entry entry.payload fits))
        (take-length entry.payload))
      (parse_entry-written entry entry.payload fits) index version sum

-- c4_log_entry_decode gives back every entry with non-zero index and version, whose fields fit their
-- types, from what c4_log_entry_encode made of it.
pub decode-encode :
    (crc : ℕ → List ℕ → ℕ) (entry : Entry) (bytes : List ℕ)
    → Fits entry
    → entry.index ≢ 0
    → entry.version ≢ 0
    → encode crc entry ≡ ok bytes
    → decode crc bytes ≡ ok entry
decode-encode crc entry bytes fits index version h =
    let (sum, small, same) = encode-ok crc entry bytes h in
    rw same (decode-entry_bytes crc entry fits index version sum)
