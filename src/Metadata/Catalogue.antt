-- ===== src/Metadata/Catalogue.antt =====
-- What the store of metadata.c promises: a map from identifiers to files, each with a set of the pairs
-- of a chunk and a peer that has it. The order of entries and of items is forgotten.
use mathlib.Core.Option as Option
use trabalho_distribuidos.Prelude.{
  ℕ, ◌-◌, ◌^◌, ◌≡◌, Bool, false, not, ◌&&◌, ◌||◌, Option, none, some, List, length, ◌==◌, leb, ltb,
  if◌then◌else◌, Result, ok, err, einval, enoent, enomem, eexist, eoverflow, bytes_eq,
}
use trabalho_distribuidos.Node.{NodeId}
use trabalho_distribuidos.Metadata.{
  ObjectId, FileMetadata, MetadataChunk, Entry, MetadataStore, find_entry, chunks_of, is_bad_name,
  registered, register_document, remove_document,
}
use trabalho_distribuidos.Metadata.Peers.{has_item, change_chunk, remove_peer}
use trabalho_distribuidos.Metadata.Announce.{
  are_chunks, candidate_hashes, is_bad_document, old_chunks_agree, announce,
}

pub record File : Type 0 where
  pub document : FileMetadata
  pub holds : ℕ → NodeId → Bool
  pub chunks : Option (List MetadataChunk)

abbrev pub Catalogue : Type 0
Catalogue = ObjectId → Option File

abbrev pub file : Entry → File
file entry = record {
  document = entry.document;
  holds = has_item entry.available;
  chunks = entry.chunks;
}

-- What a store stands for.
abbrev pub catalogue : MetadataStore → Catalogue
catalogue store id = Option.map file (find_entry store id)

abbrev pub insert : ObjectId → File → Catalogue → Catalogue
insert id new files q = if bytes_eq id q then some new else files q

abbrev pub delete : ObjectId → Catalogue → Catalogue
delete id files q = if bytes_eq id q then none else files q

-- A call of metadata.c that changes the store.
pub data Call : Type 0 where
  registers : ObjectId → List ℕ → ℕ → Call
  removes : ObjectId → Call
  changes : ObjectId → ℕ → NodeId → Bool → Call
  drops : NodeId → Call
  announces : FileMetadata → List MetadataChunk → NodeId → Call

-- The code.
unfoldable pub run : Bool → Call → MetadataStore → Result MetadataStore
unfolding register_document remove_document change_chunk remove_peer announce
run allocated (registers id name file_size) store =
    register_document allocated store id name file_size
run allocated (removes id) store = remove_document store id
run allocated (changes id index peer remove) store =
    change_chunk allocated store id index peer remove
run allocated (drops peer) store = ok (remove_peer store peer)
run allocated (announces document chunks owner) store = announce store document chunks owner

abbrev pub with_holds : File → (ℕ → NodeId → Bool) → File
with_holds f holds = record f { holds = holds }

-- The set with one pair more, and with one pair less.
abbrev pub plus : ℕ → NodeId → (ℕ → NodeId → Bool) → ℕ → NodeId → Bool
plus index peer holds i p = holds i p || (index == i && bytes_eq peer p)

abbrev pub minus : ℕ → NodeId → (ℕ → NodeId → Bool) → ℕ → NodeId → Bool
minus index peer holds i p = holds i p && not (index == i && bytes_eq peer p)

abbrev pub without : NodeId → (ℕ → NodeId → Bool) → ℕ → NodeId → Bool
without peer holds i p = holds i p && not (bytes_eq peer p)

-- The set in which the owner has every chunk, and other peers have what they had.
abbrev pub publish : NodeId → ℕ → (ℕ → NodeId → Bool) → ℕ → NodeId → Bool
publish owner count holds i p = without owner holds i p || (ltb i count && bytes_eq owner p)

abbrev pub nobody : ℕ → NodeId → Bool
nobody i p = false

abbrev pub changed_file : Bool → ℕ → NodeId → Bool → File → Result File
changed_file allocated index peer remove f =
    if leb f.document.chunk_count index
    then err einval
    else if remove
    then (if f.holds index peer then ok (with_holds f (minus index peer f.holds)) else err enoent)
    else if f.holds index peer || allocated
    then ok (with_holds f (plus index peer f.holds))
    else err enomem

-- The file that an announcement makes of a known one. The known metadata stays where the known file has
-- its chunks, and its name in any case.
abbrev pub republished : File → FileMetadata → List MetadataChunk → NodeId → File
republished old document chunks owner =
    let hashes = candidate_hashes chunks in
    record {
      document = elim old.chunks [
        | some known ↦ record old.document { chunk_hashes = hashes }
        | none ↦ record document {
          chunk_hashes = hashes;
          version = 1;
          filename = old.document.filename;
        }
      ];
      holds = publish owner document.chunk_count old.holds;
      chunks = some chunks;
    }

abbrev pub published : FileMetadata → List MetadataChunk → NodeId → File
published document chunks owner = record {
  document = record document { chunk_hashes = candidate_hashes chunks; version = 1 };
  holds = publish owner document.chunk_count nobody;
  chunks = some chunks;
}

-- What the code promises.
abbrev pub promise : Bool → Call → Catalogue → Result Catalogue
promise allocated (registers id name file_size) files =
    if is_bad_name name
    then err einval
    else if ltb (2 ^ 32 - 1) (chunks_of file_size)
    then err eoverflow
    else elim (files id) [
      | some f ↦ if f.document.size == file_size then ok files else err eexist
      | none ↦
          if allocated
          then ok (insert id (file (registered id name file_size)) files)
          else err enomem
    ]
promise allocated (removes id) files = elim (files id) [
  | none ↦ err enoent
  | some f ↦ ok (delete id files)
]
promise allocated (changes id index peer remove) files = elim (files id) [
  | none ↦ err enoent
  | some f ↦ elim (changed_file allocated index peer remove f) [
    | err error ↦ err error
    | ok changed ↦ ok (insert id changed files)
  ]
]
promise allocated (drops peer) files =
    ok (λ q. Option.map (λ (f : File). with_holds f (without peer f.holds)) (files q))
promise allocated (announces document chunks owner) files =
    if is_bad_document document || not (are_chunks document 0 chunks)
    then err einval
    else elim (files document.object_id) [
      | none ↦ ok (insert document.object_id (published document chunks owner) files)
      | some old ↦
          if (old.document.size == document.size
              && old.document.chunk_count == document.chunk_count)
            && old_chunks_agree old.chunks chunks
          then ok (insert document.object_id (republished old document chunks owner) files)
          else err eexist
    ]

-- The array that an announcement passes has chunk_count elements.
abbrev pub IsCall : Call → Type 0
IsCall (announces document chunks owner) = length chunks ≡ document.chunk_count
IsCall (registers id name file_size) = Unit {0}
IsCall (removes id) = Unit {0}
IsCall (changes id index peer remove) = Unit {0}
IsCall (drops peer) = Unit {0}

abbrev pub seen : Result MetadataStore → Result Catalogue
seen (ok store) = ok (catalogue store)
seen (err error) = err error
