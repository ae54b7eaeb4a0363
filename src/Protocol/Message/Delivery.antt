-- ===== src/Protocol/Message/Delivery.antt =====
-- What protocol_send_message puts on a connection, protocol_receive_message takes off it.
use trabalho_distribuidos.Prelude.{
  ℕ, ◌^◌, ◌<◌, ◌≡◌, inl, inr, refl, true, false, ◌&&◌, Option, none, some, List, [], ◌++◌, length,
  take, drop, ltb, ◌==◌, ==_iff, arith, ap, ◌∙◌, sym, Bool-cases, length-append, take-append,
  drop-append, take_ge,
}
use mathlib.Core.List.{append_assoc}
use trabalho_distribuidos.Protocol.Crc.{crc32_update}
use trabalho_distribuidos.Protocol.Stream.{Stream, contents}
use trabalho_distribuidos.Protocol.Stream.Exact.{recv_exact-contents}
use trabalho_distribuidos.Protocol.Message.{
  Header, Message, header_wire_size, payload_bytes, is_null, validate_header, header_bytes,
  serialize_header, crc32_of, message_crc32, send_message, Received, received, accept,
  accept_payload, accept_read, receive_payload, receive_header, receive_message,
}
use trabalho_distribuidos.Protocol.Message.RoundTrip.{
  FitsHeader, length-header_bytes, deserialize_header-header_bytes,
}

-- A payload pointer that goes with the size in the header.
abbrev pub IsBody : ℕ → Option (List ℕ) → Type 0
IsBody size none = size ≡ 0
IsBody size (some bytes) = (0 < size) × (length bytes ≡ size)

module _ (crc : ℕ → List ℕ → ℕ) where
  -- The header as it is sent.
  abbrev pub stamped : Message → Header
  stamped m = record m.header {
    checksum = message_crc32 crc (record m.header { checksum = 0 }) m.payload;
  }

  crc32_of-lt :
      (bytes : Option (List ℕ)) (size : ℕ) (p : Option (List ℕ))
      → crc32_of crc bytes size p < 2 ^ 32
  unfolding crc32_of crc32_update
  crc32_of-lt none size p = omega arith
  crc32_of-lt (some bytes) size p = elim (Bool-cases (ltb 0 size)) [
    | inl more ↦ rw more (omega arith)
    | inr done ↦ rw done (omega arith)
  ]

  message_crc32-lt : (h : Header) (p : Option (List ℕ)) → message_crc32 crc h p < 2 ^ 32
  unfolding message_crc32
  message_crc32-lt h p = crc32_of-lt (serialize_header (record h { checksum = 0 })) h.payload_size p

  -- The checksum does not depend on the one in the header.
  message_crc32-stamped :
      (m : Message) → message_crc32 crc (stamped m) m.payload ≡ (stamped m).checksum
  unfolding message_crc32
  message_crc32-stamped m = refl

  -- The bytes of a message.
  abbrev pub wire_of : Message → List ℕ
  wire_of m = header_bytes (stamped m) ++ payload_bytes m.payload

  receive_header-whole :
      (h : Header) (stream : Stream)
      → FitsHeader h
      → receive_header crc (some (header_bytes h), stream) ≡ receive_payload crc (some h) stream
  unfolding receive_header
  receive_header-whole h stream fits =
      let size = length-header_bytes h fits in
      let some_bytes : (length (header_bytes h) == 0) ≡ false = ground (arith, size) in
      let all : (length (header_bytes h) == header_wire_size) ≡ true = ground (arith, size) in
      rw (some_bytes, all) (rw (deserialize_header-header_bytes h fits) refl)

  -- Reading the payload behind a valid header.
  receive_payload-of :
      (h : Header) (p : Option (List ℕ)) (stream : Stream) (later : List ℕ) (r : Received)
      → IsBody h.payload_size p
      → validate_header h ≡ true
      → accept crc h p ≡ r
      → contents stream ≡ payload_bytes p ++ later
      → (rest : Stream) × (receive_payload crc (some h) stream ≡ (r, rest))
        × (contents rest ≡ later)
  unfolding receive_payload accept_read accept_payload
  receive_payload-of h none stream later r body good end bytes =
      let no_bytes : ltb 0 h.payload_size ≡ false = ground (arith, body) in
      (stream, rw good (rw no_bytes (ap (λ (t : Received). (t, stream)) end)), bytes)
  receive_payload-of h (some bs) stream later r body good end bytes =
      let more : ltb 0 h.payload_size ≡ true = ground (arith, body.0) in
      let (rest, read, left) =
        recv_exact-contents stream h.payload_size
          (omega (arith, ap length bytes, length-append bs later, body.1)) in
      let front : take h.payload_size (contents stream) ≡ bs =
        ap (take h.payload_size) bytes ∙ take-append h.payload_size bs later body.1 in
      let all : (length bs == h.payload_size) ≡ true = (==_iff _ _).1 body.1 in
      (
        rest,
        rw good (
            rw (more, read)
              (rw front (rw (all, accept_payload) (ap (λ (t : Received). (t, rest)) end)))),
        left ∙ ap (drop h.payload_size) bytes ∙ drop-append h.payload_size bs later body.1,
      )

  module _ (m : Message) (fits : FitsHeader m.header)
      (body : IsBody m.header.payload_size m.payload) where
    stamped-fits : FitsHeader (stamped m)
    stamped-fits = record {
      source = fits.source;
      destination = fits.destination;
      transaction = fits.transaction;
      timestamp = fits.timestamp;
      payload_size = fits.payload_size;
      checksum = message_crc32-lt (record m.header { checksum = 0 }) m.payload;
    }

    accept-stamped :
        accept crc (stamped m) m.payload
        ≡ received (record { header = stamped m; payload = m.payload })
    unfolding accept
    accept-stamped =
        let same : ((stamped m).checksum == message_crc32 crc (stamped m) m.payload) ≡ true =
          (==_iff _ _).1 (sym (message_crc32-stamped m)) in
        rw same refl

    payload-whole : take m.header.payload_size (payload_bytes m.payload) ≡ payload_bytes m.payload
    payload-whole = whole m.header.payload_size m.payload body
      where
        whole :
            (n : ℕ) (p : Option (List ℕ)) → IsBody n p → take n (payload_bytes p) ≡ payload_bytes p
        whole n none e = take_ge n [] (omega arith)
        whole n (some bytes) e = take_ge n bytes (omega (arith, e.1))

    pointer-there : (ltb 0 m.header.payload_size && is_null m.payload) ≡ false
    pointer-there = there m.header.payload_size m.payload body
      where
        there : (n : ℕ) (p : Option (List ℕ)) → IsBody n p → (ltb 0 n && is_null p) ≡ false
        there n none e = ground (arith, e)
        there n (some bytes) e = ground arith

    module _ (good : validate_header m.header ≡ true) where
      send_message-ok :
          send_message crc m ≡ some (header_bytes (stamped m) ++ payload_bytes m.payload)
      unfolding send_message serialize_header validate_header
      send_message-ok = rw (good, pointer-there, validate_header) (rw payload-whole refl)

      -- However TCP cuts the stream, a message is received as it was sent: protocol_send_message writes the bytes of `wire_of`, and when these
      -- are the next to arrive, protocol_receive_message returns the header with the checksum set and
      -- the payload, and leaves the bytes behind them. The header is valid and its fields fit their
      -- types; the payload has the size in the header, and is NULL where that is 0.
      pub receive_message-send_message :
          (stream : Stream) (later : List ℕ)
          → contents stream ≡ wire_of m ++ later
          → (send_message crc m ≡ some (wire_of m))
            × ((rest : Stream) × (receive_message crc stream
                  ≡ (received (record { header = stamped m; payload = m.payload }), rest))
                × (contents rest ≡ later))
      unfolding receive_message receive_header validate_header
      receive_message-send_message stream later bytes =
          let split : contents stream
              ≡ header_bytes (stamped m) ++ (payload_bytes m.payload ++ later) =
            bytes ∙ append_assoc (header_bytes (stamped m)) (payload_bytes m.payload) later in
          let size = length-header_bytes (stamped m) stamped-fits in
          let (behind, read, left) = recv_exact-contents stream header_wire_size (
            omega (
              arith,
              ap length split,
              length-append (header_bytes (stamped m)) (payload_bytes m.payload ++ later),
              size,
            )) in
          let front : take header_wire_size (contents stream) ≡ header_bytes (stamped m) =
            ap (take header_wire_size) split
            ∙ take-append header_wire_size (header_bytes (stamped m))
                (payload_bytes m.payload ++ later) size in
          let back : contents behind ≡ payload_bytes m.payload ++ later =
            left
            ∙ ap (drop header_wire_size) split
            ∙ drop-append header_wire_size (header_bytes (stamped m))
                (payload_bytes m.payload ++ later) size in
          let (rest, result, tail) =
            receive_payload-of (stamped m) m.payload behind later
              (received (record { header = stamped m; payload = m.payload })) body good
              accept-stamped back in
          (
            send_message-ok,
            (
              rest,
              ap (receive_header crc) (read ∙ ap (λ (t : List ℕ). (some t, behind)) front)
                  ∙ receive_header-whole (stamped m) behind stamped-fits
                  ∙ result,
              tail,
            ),
          )
