-- ===== src/Metadata.antt =====
-- metadata.c and metadata.h: the store of the files that a superpeer knows, a hash table of 257 chains.
-- Every operation runs under the mutex of the store. An identifier or a hash is a list of 32 bytes; a
-- name is the bytes before its NUL, or all 256 where there is none. The arrays that hold copies for the
-- caller are returned as lists.
pub mod Peers
pub mod Announce
pub mod Buckets
pub mod Chains
pub mod Items
pub mod Catalogue
pub mod Refine
pub mod Publish
pub mod Promise
mod Examples
use trabalho_distribuidos.Prelude.{
  ℕ, zero, suc, ◌+◌, ◌*◌, ◌/◌, ◌%◌, ◌^◌, ◌-◌, ◌≡◌, Bool, true, false, not, ◌&&◌, ◌||◌, Option, none,
  some, List, [], ◌∷◌, ◌++◌, map, length, replicate, set, get_or, ◌==◌, ltb, leb, if◌then◌else◌,
  Result, ok, err, einval, enoent, enomem, eexist, eoverflow, enotuniq, bytes_eq,
}
use trabalho_distribuidos.Node.{NodeId}

abbrev pub ObjectId : Type 0
ObjectId = List ℕ

abbrev pub metadata_name_size : ℕ
metadata_name_size = 256

abbrev pub metadata_chunk_size : ℕ
metadata_chunk_size = 4194304

abbrev pub bucket_count : ℕ
bucket_count = 257

-- FileMetadata; `chunk_hashes` is an array of pointers, or NULL.
pub record FileMetadata : Type 0 where
  pub object_id : ObjectId
  pub filename : List ℕ
  pub size : ℕ
  pub chunk_count : ℕ
  pub chunk_hashes : Option (List (Option (List ℕ)))
  pub version : ℕ
  pub owner : ℕ

pub record MetadataChunk : Type 0 where
  pub index : ℕ
  pub offset : ℕ
  pub raw_size : ℕ
  pub compressed_size : ℕ
  pub hash : List ℕ

pub record Availability : Type 0 where
  pub index : ℕ
  pub peer : NodeId

pub record Entry : Type 0 where
  pub document : FileMetadata
  pub available : List Availability
  pub chunks : Option (List MetadataChunk)

-- struct MetadataStore
pub record MetadataStore : Type 0 where
  pub buckets : List (List Entry)

-- The loop of bucket, with the value so far.
unfoldable pub bucket_loop : ℕ → List ℕ → ℕ
bucket_loop value [] = value
bucket_loop value (byte ∷ bytes) = bucket_loop ((value * 33 + byte) % bucket_count) bytes

unfoldable pub bucket : ObjectId → ℕ
unfolding bucket_loop
bucket id = bucket_loop 0 id

-- The chain that find_entry walks.
abbrev pub chain : MetadataStore → ObjectId → List Entry
chain store id = get_or store.buckets (bucket id) []

abbrev pub has_id : ObjectId → Entry → Bool
has_id id entry = bytes_eq entry.document.object_id id

unfoldable pub find_in : List Entry → ObjectId → Option Entry
find_in [] id = none
find_in (entry ∷ entries) id = if has_id id entry then some entry else find_in entries id

-- find_entry, read.
unfoldable pub find_entry : MetadataStore → ObjectId → Option Entry
unfolding find_in
find_entry store id = find_in (chain store id) id

-- A write to the place that find_entry gives: the entry found, or the end of the chain.
unfoldable pub put_in : List Entry → ObjectId → Entry → List Entry
put_in [] id new = new ∷ []
put_in (entry ∷ entries) id new =
    let rest = put_in entries id new in if has_id id entry then new ∷ entries else entry ∷ rest

-- The entry found is unlinked.
unfoldable pub erase_in : List Entry → ObjectId → List Entry
erase_in [] id = []
erase_in (entry ∷ entries) id =
    let rest = erase_in entries id in if has_id id entry then entries else entry ∷ rest

abbrev pub with_chain : MetadataStore → ObjectId → List Entry → MetadataStore
with_chain store id entries = record { buckets = set store.buckets (bucket id) entries }

unfoldable pub put_entry : MetadataStore → ObjectId → Entry → MetadataStore
put_entry store id new = with_chain store id (put_in (chain store id) id new)

unfoldable pub erase_entry : MetadataStore → ObjectId → MetadataStore
erase_entry store id = with_chain store id (erase_in (chain store id) id)

-- metadata_create
unfoldable pub create : MetadataStore
create = record { buckets = replicate bucket_count [] }

-- size / 4 MiB, rounded up
abbrev pub chunks_of : ℕ → ℕ
chunks_of size = size / metadata_chunk_size + (if size % metadata_chunk_size == 0 then 0 else 1)

abbrev pub is_bad_name : List ℕ → Bool
is_bad_name name = length name == 0 || leb metadata_name_size (length name)

-- The entry of a file that is only registered.
abbrev pub registered : ObjectId → List ℕ → ℕ → Entry
registered id name file_size = record {
  document = record {
    object_id = id;
    filename = name;
    size = file_size;
    chunk_count = chunks_of file_size;
    chunk_hashes = none;
    version = 1;
    owner = 0;
  };
  available = [];
  chunks = none;
}

-- metadata_register_document; `allocated` is false if calloc fails.
unfoldable pub register_document :
    Bool → MetadataStore → ObjectId → List ℕ → ℕ → Result MetadataStore
unfolding find_entry put_entry
register_document allocated store id name file_size =
    if is_bad_name name
    then err einval
    else if ltb (2 ^ 32 - 1) (chunks_of file_size)
    then err eoverflow
    else elim (find_entry store id) [
      | some entry ↦ if entry.document.size == file_size then ok store else err eexist
      | none ↦
          if allocated then ok (put_entry store id (registered id name file_size)) else err enomem
    ]

-- metadata_find_document. The overflow test cannot be met, since chunk_count has 32 bits.
unfoldable pub find_document : Bool → MetadataStore → ObjectId → Result FileMetadata
unfolding find_entry
find_document allocated store id = elim (find_entry store id) [
  | none ↦ err enoent
  | some entry ↦ elim entry.document.chunk_hashes [
    | none ↦ ok entry.document
    | some hashes ↦ if allocated then ok entry.document else err enomem
  ]
]

-- metadata_remove_document
unfoldable pub remove_document : MetadataStore → ObjectId → Result MetadataStore
unfolding find_entry erase_entry
remove_document store id = elim (find_entry store id) [
  | none ↦ err enoent
  | some entry ↦ ok (erase_entry store id)
]
