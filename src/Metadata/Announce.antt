-- ===== src/Metadata/Announce.antt =====
-- metadata_announce and metadata_chunk_descriptor: files published with the hashes of their chunks.
-- `chunks` is the array of chunk_count elements that the caller passes. The allocations succeed; where
-- one fails the code gives the candidate up and leaves the store as it was.
use trabalho_distribuidos.Prelude.{
  ℕ, suc, ◌-◌, ◌*◌, Bool, true, false, not, ◌&&◌, ◌||◌, Option, none, some, List, [], ◌∷◌, map,
  ◌==◌, ltb, get_elem?, if◌then◌else◌, Result, ok, err, einval, enoent, eexist, bytes_eq,
}
use trabalho_distribuidos.Node.{NodeId}
use trabalho_distribuidos.Metadata.{
  ObjectId, FileMetadata, MetadataChunk, Availability, Entry, MetadataStore, find_entry, put_entry,
  chunks_of, is_bad_name, metadata_chunk_size,
}

-- document->chunk_hashes[i], where the array is not NULL, against the hash of the chunk.
abbrev pub hash_agrees : Option (List (Option (List ℕ))) → ℕ → List ℕ → Bool
hash_agrees none i hash = true
hash_agrees (some hashes) i hash = elim (get_elem? hashes i) [
  | none ↦ false
  | some none ↦ false
  | some (some expected) ↦ bytes_eq expected hash
]

-- A round of the loop over the chunks; i < chunk_count, so that size - offset does not wrap.
unfoldable pub is_chunk : FileMetadata → ℕ → MetadataChunk → Bool
is_chunk document i chunk =
    let offset = i * metadata_chunk_size in
    let remaining = document.size - offset in
    (chunk.index == i && chunk.offset == offset)
    && (chunk.raw_size
          == (if ltb metadata_chunk_size remaining then metadata_chunk_size else remaining)
        && (not (chunk.compressed_size == 0) && hash_agrees document.chunk_hashes i chunk.hash))

unfoldable pub are_chunks : FileMetadata → ℕ → List MetadataChunk → Bool
unfolding is_chunk
are_chunks document i [] = true
are_chunks document i (chunk ∷ chunks) =
    is_chunk document i chunk && are_chunks document (suc i) chunks

-- What the loop leaves in candidate->available, each item in front of the last.
unfoldable pub own_items : NodeId → ℕ → List MetadataChunk → List Availability → List Availability
own_items owner i [] items = items
own_items owner i (chunk ∷ chunks) items =
    own_items owner (suc i) chunks (record { index = i; peer = owner } ∷ items)

-- The loop that compares the chunks of the old entry.
unfoldable pub same_chunks : List MetadataChunk → List MetadataChunk → Bool
same_chunks (old ∷ olds) (chunk ∷ chunks) =
    (old.raw_size == chunk.raw_size && bytes_eq old.hash chunk.hash) && same_chunks olds chunks
same_chunks [] chunks = true
same_chunks (old ∷ olds) [] = true

-- The loop that copies the items of other peers.
unfoldable pub carry_items : NodeId → List Availability → List Availability → List Availability
carry_items owner [] items = items
carry_items owner (old ∷ olds) items =
    if bytes_eq old.peer owner
    then carry_items owner olds items
    else carry_items owner olds (old ∷ items)

abbrev pub candidate_hashes : List MetadataChunk → Option (List (Option (List ℕ)))
candidate_hashes chunks = some (map (λ (c : MetadataChunk). some c.hash) chunks)

abbrev pub is_bad_document : FileMetadata → Bool
is_bad_document document =
    document.chunk_count == 0
    || (not (document.chunk_count == chunks_of document.size) || is_bad_name document.filename)

-- The candidate before it is merged with an old entry.
abbrev pub candidate : FileMetadata → List MetadataChunk → NodeId → Entry
candidate document chunks owner = record {
  document = record document { chunk_hashes = candidate_hashes chunks; version = 1 };
  available = own_items owner 0 chunks [];
  chunks = some chunks;
}

abbrev pub old_chunks_agree : Option (List MetadataChunk) → List MetadataChunk → Bool
old_chunks_agree none chunks = true
old_chunks_agree (some olds) chunks = same_chunks olds chunks

abbrev pub merged_document : Entry → FileMetadata → FileMetadata
merged_document old document = elim old.chunks [
  | some chunks ↦ record old.document { chunk_hashes = document.chunk_hashes }
  | none ↦ record document { filename = old.document.filename }
]

-- The candidate with what it takes from the old entry.
unfoldable pub merge_old : Entry → NodeId → Entry → Entry
unfolding carry_items
merge_old old owner new = record new {
  document = merged_document old new.document;
  available = carry_items owner old.available new.available;
}

unfoldable pub announce :
    MetadataStore → FileMetadata → List MetadataChunk → NodeId → Result MetadataStore
unfolding are_chunks own_items same_chunks merge_old find_entry put_entry
announce store document chunks owner =
    let new = candidate document chunks owner in
    let id = document.object_id in
    if is_bad_document document || not (are_chunks document 0 chunks)
    then err einval
    else elim (find_entry store id) [
      | none ↦ ok (put_entry store id new)
      | some old ↦
          if (old.document.size == document.size
              && old.document.chunk_count == document.chunk_count)
            && old_chunks_agree old.chunks chunks
          then ok (put_entry store id (merge_old old owner new))
          else err eexist
    ]

-- metadata_chunk_descriptor
unfoldable pub chunk_descriptor : MetadataStore → ObjectId → ℕ → Result MetadataChunk
unfolding find_entry
chunk_descriptor store id index = elim (find_entry store id) [
  | none ↦ err enoent
  | some entry ↦ elim entry.chunks [
    | none ↦ err enoent
    | some chunks ↦
        if ltb index entry.document.chunk_count
        then (elim (get_elem? chunks index) [ none ↦ err enoent | some chunk ↦ ok chunk ])
        else err enoent
  ]
]
