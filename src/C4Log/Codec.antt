-- ===== src/C4Log/Codec.antt =====
-- c4_log.c: an entry as bytes, in the file of the log and in messages.
pub mod RoundTrip
use trabalho_distribuidos.Prelude.{
  ℕ, zero, suc, ◌+◌, ◌-◌, ◌*◌, ◌%◌, ◌^◌, ◌≡◌, refl, Bool, true, false, not, ◌&&◌, ◌||◌, Option,
  none, some, List, [], ◌∷◌, ◌++◌, arith, length, take, drop, bytes_eq, ◌==◌, ltb, leb,
  if◌then◌else◌, Result, ok, err, einval, emsgsize, ebadmsg, ◌>>=◌, ◌>>◌, require,
}
use trabalho_distribuidos.Wire.{put_u32, put_u64, get_u32, get_u64}
use trabalho_distribuidos.Protocol.{max_payload_size}
use trabalho_distribuidos.Protocol.Crc.{calculate_crc32}
use trabalho_distribuidos.C4Log.{Entry}

-- C4_LOG_HEADER_SIZE
abbrev pub header_size : ℕ
header_size = 44

-- C4_LOG_MAGIC
abbrev pub log_magic : List ℕ
log_magic = b'C' ∷ b'4' ∷ b'L' ∷ b'G' ∷ []

-- The header of an entry, with the given checksum.
unfoldable pub header : Entry → ℕ → List ℕ
header entry checksum =
    log_magic
    ++ (put_u64 entry.index
        ++ (put_u64 entry.version
            ++ (entry.transaction_id ++ (put_u32 (length entry.payload) ++ put_u32 checksum))))

-- The bytes that append_locked writes.
unfoldable pub entry_bytes : Entry → List ℕ
entry_bytes entry = header entry entry.checksum ++ entry.payload

-- The fields of a header and the payload behind it.
unfoldable pub parse_entry : List ℕ → List ℕ → Entry
parse_entry head payload = record {
  index = get_u64 (drop 4 head);
  version = get_u64 (drop 12 head);
  transaction_id = take 16 (drop 20 head);
  payload = payload;
  checksum = get_u32 (drop 40 head);
}

module _ (crc : ℕ → List ℕ → ℕ) where
  -- c4_log_entry_checksum: the checksum field counts as 0.
  unfoldable pub entry_checksum : Entry → ℕ
  entry_checksum entry =
      if ltb max_payload_size (length entry.payload)
      then 0
      else calculate_crc32 crc (header entry 0 ++ entry.payload)

  -- c4_log_entry_encode
  unfoldable pub encode : Entry → Result (List ℕ)
  encode entry = do
    require (entry.checksum == entry_checksum entry) einval
    require (leb (length entry.payload) (max_payload_size - header_size)) emsgsize
    ok (entry_bytes entry)

  -- c4_log_entry_decode
  unfoldable pub decode : List ℕ → Result Entry
  decode bytes = do
    require (leb header_size (length bytes) && bytes_eq (take 4 bytes) log_magic) einval
    let payload_size = get_u32 (drop 36 bytes)
    require (leb payload_size max_payload_size && length bytes == header_size + payload_size)
        emsgsize
    let entry = parse_entry bytes (take payload_size (drop header_size bytes))
    require
        (not (entry.index == 0)
          && (not (entry.version == 0) && entry.checksum == entry_checksum entry))
        ebadmsg
    ok entry
