-- ===== src/Protocol/Message/RoundTrip.antt =====
-- A message that is sent is received.
use trabalho_distribuidos.Prelude.{
  ℕ, ◌+◌, ◌^◌, ◌<◌, ◌≡◌, refl, false, some, List, [], ◌++◌, length, take, drop, get_or, ltb, arith,
  ap, ◌∙◌, length-append, take-append, drop-append, drop-past,
}
use trabalho_distribuidos.Wire.{put_u32, put_u64, get_u32, get_u64}
use trabalho_distribuidos.Wire.RoundTrip.{get_u32-put_u32, get_u64-put_u64}
use trabalho_distribuidos.Protocol.Message.{
  Header, header_wire_size, header_bytes, deserialize_header,
}

-- The fields fit their types.
pub record FitsHeader (h : Header) : Type 0 where
  pub source : length h.source_node ≡ 32
  pub destination : length h.destination_node ≡ 32
  pub transaction : length h.transaction_id ≡ 16
  pub timestamp : h.timestamp < 2 ^ 64
  pub payload_size : h.payload_size < 2 ^ 32
  pub checksum : h.checksum < 2 ^ 32

module _ (h : Header) (fits : FitsHeader h) where
  pub length-header_bytes : length (header_bytes h) ≡ header_wire_size
  unfolding header_bytes put_u64 put_u32
  length-header_bytes = omega (
    arith,
    length-append h.source_node (
        h.destination_node
        ++ (h.transaction_id
            ++ (put_u64 h.timestamp ++ (put_u32 h.payload_size ++ put_u32 h.checksum)))),
    length-append h.destination_node (
        h.transaction_id
        ++ (put_u64 h.timestamp ++ (put_u32 h.payload_size ++ put_u32 h.checksum))),
    length-append h.transaction_id
        (put_u64 h.timestamp ++ (put_u32 h.payload_size ++ put_u32 h.checksum)),
    fits.source,
    fits.destination,
    fits.transaction,
  )

  -- What stands behind the transaction, and behind each field before it.
  abbrev numbers : List ℕ
  numbers = put_u64 h.timestamp ++ (put_u32 h.payload_size ++ put_u32 h.checksum)

  past :
      (k m : ℕ)
      → k ≡ 80 + m
      → drop k (h.source_node ++ (h.destination_node ++ (h.transaction_id ++ numbers)))
        ≡ drop m numbers
  past k m e =
      drop-past h.source_node (h.destination_node ++ (h.transaction_id ++ numbers)) k (48 + m)
        (omega (arith, e, fits.source))
      ∙ drop-past h.destination_node (h.transaction_id ++ numbers) (48 + m) (16 + m)
          (omega (arith, fits.destination))
      ∙ drop-past h.transaction_id numbers (16 + m) m (omega (arith, fits.transaction))

  source-read : take 32 (drop 2 (header_bytes h)) ≡ h.source_node
  unfolding header_bytes
  source-read =
      take-append 32 h.source_node (h.destination_node ++ (h.transaction_id ++ numbers)) fits.source

  destination-read : take 32 (drop 34 (header_bytes h)) ≡ h.destination_node
  unfolding header_bytes
  destination-read =
      ap (take 32) (
        drop-append 32 h.source_node (h.destination_node ++ (h.transaction_id ++ numbers))
          fits.source)
      ∙ take-append 32 h.destination_node (h.transaction_id ++ numbers) fits.destination

  transaction-read : take 16 (drop 66 (header_bytes h)) ≡ h.transaction_id
  unfolding header_bytes
  transaction-read =
      ap (take 16) (
        drop-past h.source_node (h.destination_node ++ (h.transaction_id ++ numbers)) 64 32
          (omega (arith, fits.source))
        ∙ drop-append 32 h.destination_node (h.transaction_id ++ numbers) fits.destination)
      ∙ take-append 16 h.transaction_id numbers fits.transaction

  timestamp-read : get_u64 (drop 82 (header_bytes h)) ≡ h.timestamp
  unfolding header_bytes
  timestamp-read = ap get_u64 (past 80 0 refl) ∙ get_u64-put_u64 h.timestamp _ fits.timestamp

  payload_size-read : get_u32 (drop 90 (header_bytes h)) ≡ h.payload_size
  unfolding header_bytes put_u64
  payload_size-read =
      ap get_u32 (past 88 8 refl) ∙ get_u32-put_u32 h.payload_size _ fits.payload_size

  checksum-read : get_u32 (drop 94 (header_bytes h)) ≡ h.checksum
  unfolding header_bytes put_u64 put_u32
  checksum-read = ap get_u32 (past 92 12 refl) ∙ get_u32-put_u32 h.checksum [] fits.checksum

  first-read :
      (get_or (header_bytes h) 0 0 ≡ h.protocol_version)
      × (get_or (header_bytes h) 1 0 ≡ h.message_type)
  unfolding header_bytes
  first-read = (refl, refl)

  pub deserialize_header-header_bytes : deserialize_header (header_bytes h) ≡ some h
  unfolding deserialize_header
  deserialize_header-header_bytes =
      let long : ltb (length (header_bytes h)) header_wire_size ≡ false =
        ground (arith, length-header_bytes) in
      rw long (
        rw
          (
            first-read.0, first-read.1, source-read, destination-read, transaction-read,
            timestamp-read, payload_size-read, checksum-read,
          )
          refl)
