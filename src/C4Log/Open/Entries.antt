-- ===== src/C4Log/Open/Entries.antt =====
-- Reading the file back: c4_log_open rebuilds the table, and cuts off a record that a crash left torn.
use trabalho_distribuidos.Prelude.{
  ℕ, ◌-◌, ◌<◌, ◌≤◌, ◌≡◌, inl, inr, refl, true, false, List, [], ◌++◌, arith, length, take, drop,
  ltb, length-append, Bool-cases, take-append, drop-append, take-past, length-take, length-take_le,
}
use mathlib.Core.List.{append_assoc, append-nil}
use trabalho_distribuidos.Wire.{get_u32}
use trabalho_distribuidos.Protocol.{max_payload_size}
use trabalho_distribuidos.C4Log.{Entry}
use trabalho_distribuidos.C4Log.Codec.{entry_bytes, header, header_size, log_magic, parse_entry}
use trabalho_distribuidos.C4Log.Codec.RoundTrip.{
  Fits, length-header, drop-size, take-magic, parse_entry-written,
}
use trabalho_distribuidos.C4Log.Open.{cut, whole, read_entry}

-- read_entry by the header and what stands behind it.
read_entry-of_parts :
    (head body payload rest : List ℕ) (entry : Entry) (n : ℕ)
    → length head ≡ header_size
    → take 4 head ≡ log_magic
    → get_u32 (drop 36 head) ≡ n
    → n ≤ max_payload_size
    → length payload ≡ n
    → body ≡ payload ++ rest
    → parse_entry head payload ≡ entry
    → read_entry (head ++ body) ≡ whole entry rest
unfolding read_entry
read_entry-of_parts head body payload rest entry n size magic sized room full same parsed =
    let long : ltb (length (head ++ body)) header_size ≡ false =
      ground (arith, length-append head body) in
    let fits : ltb max_payload_size n ≡ false = ground arith in
    let enough : ltb (length payload) n ≡ false = ground arith in
    rw (long, take-append header_size head body size, drop-append header_size head body size)
      (rw (magic, sized, fits, same)
        (rw (take-append n payload rest full, drop-append n payload rest full)
          (rw (enough, parsed))))

pub read_entry-entry_bytes :
    (entry : Entry) (rest : List ℕ)
    → Fits entry
    → read_entry (entry_bytes entry ++ rest) ≡ whole entry rest
unfolding entry_bytes
read_entry-entry_bytes entry rest fits =
    rw (append_assoc (header entry entry.checksum) entry.payload rest) (
      read_entry-of_parts (header entry entry.checksum) (entry.payload ++ rest) entry.payload rest
        entry (length entry.payload) (length-header entry [] fits)
        (rw (append-nil (header entry entry.checksum)) at (take-magic entry [] fits))
        (rw (append-nil (header entry entry.checksum)) at (drop-size entry [] fits)) fits.payload
        refl refl
        (rw (append-nil (header entry entry.checksum)) at (parse_entry-written entry [] fits)))

-- A record of which only the header and a part of the payload are there.
read_entry-short :
    (head body : List ℕ) (n : ℕ)
    → length head ≡ header_size
    → take 4 head ≡ log_magic
    → get_u32 (drop 36 head) ≡ n
    → n ≤ max_payload_size
    → length body < n
    → read_entry (head ++ body) ≡ cut
unfolding read_entry
read_entry-short head body n size magic sized room short =
    let long : ltb (length (head ++ body)) header_size ≡ false =
      ground (arith, length-append head body) in
    let fits : ltb max_payload_size n ≡ false = ground arith in
    let missing : ltb (length (take n body)) n ≡ true = ground (arith, length-take_le n body) in
    rw (long, take-append header_size head body size, drop-append header_size head body size)
      (rw (magic, sized, fits) (rw missing))

pub read_entry-torn :
    (entry : Entry) (n : ℕ)
    → Fits entry
    → n < length (entry_bytes entry)
    → read_entry (take n (entry_bytes entry)) ≡ cut
unfolding entry_bytes
read_entry-torn entry n fits h = elim (Bool-cases (ltb n header_size)) [
  | inl early ↦
      unfold read_entry in
      let short : ltb (length (take n whole_record)) header_size ≡ true =
        ground (arith, length-take n whole_record) in
      rw short
  | inr late ↦
      rw
        (take-past (header entry entry.checksum) entry.payload n (n - header_size)
          (ground (arith, size)))
        (read_entry-short (header entry entry.checksum) (take (n - header_size) entry.payload)
          (length entry.payload) size
          (rw (append-nil (header entry entry.checksum)) at (take-magic entry [] fits))
          (rw (append-nil (header entry entry.checksum)) at (drop-size entry [] fits)) fits.payload
          (ground (
            arith,
            size,
            length-append (header entry entry.checksum) entry.payload,
            length-take (n - header_size) entry.payload,
          )))
]
  where
    whole_record : List ℕ
    whole_record = header entry entry.checksum ++ entry.payload

    size : length (header entry entry.checksum) ≡ header_size
    size = length-header entry [] fits
