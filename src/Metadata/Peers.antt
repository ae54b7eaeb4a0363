-- ===== src/Metadata/Peers.antt =====
-- metadata.c: which peers have a chunk of a file.
use trabalho_distribuidos.Prelude.{
  ℕ, Bool, true, false, ◌&&◌, Option, none, some, List, [], ◌∷◌, ◌++◌, map, ◌==◌, leb,
  if◌then◌else◌, Result, ok, err, einval, enoent, enomem, enotuniq, bytes_eq,
}
use trabalho_distribuidos.Node.{NodeId}
use trabalho_distribuidos.Metadata.{
  ObjectId, Availability, Entry, MetadataStore, find_entry, put_entry,
}

-- The item that the search of change_chunk stops at.
abbrev pub is_item : ℕ → NodeId → Availability → Bool
is_item index peer item = item.index == index && bytes_eq item.peer peer

unfoldable pub has_item : List Availability → ℕ → NodeId → Bool
has_item [] index peer = false
has_item (item ∷ items) index peer =
    if is_item index peer item then true else has_item items index peer

-- The item found is unlinked.
unfoldable pub unlink : List Availability → ℕ → NodeId → List Availability
unlink [] index peer = []
unlink (item ∷ items) index peer =
    let rest = unlink items index peer in if is_item index peer item then items else item ∷ rest

abbrev pub with_available : Entry → List Availability → Entry
with_available entry available = record entry { available = available }

-- What change_chunk does to the entry; `allocated` is false if calloc fails.
unfoldable pub change_items : Bool → Bool → ℕ → NodeId → Entry → Result Entry
unfolding has_item unlink
change_items allocated remove index peer entry =
    if leb entry.document.chunk_count index
    then err einval
    else if remove
    then (if has_item entry.available index peer
        then ok (with_available entry (unlink entry.available index peer))
        else err enoent)
    else if has_item entry.available index peer
    then ok entry
    else if allocated
    then ok (with_available entry (entry.available ++ record { index = index; peer = peer } ∷ []))
    else err enomem

-- change_chunk
unfoldable pub change_chunk :
    Bool → MetadataStore → ObjectId → ℕ → NodeId → Bool → Result MetadataStore
unfolding change_items find_entry put_entry
change_chunk allocated store id index peer remove = elim (find_entry store id) [
  | none ↦ err enoent
  | some entry ↦ elim (change_items allocated remove index peer entry) [
    | err error ↦ err error
    | ok changed ↦ ok (put_entry store id changed)
  ]
]

-- metadata_register_chunk, metadata_unregister_chunk
unfoldable pub register_chunk : Bool → MetadataStore → ObjectId → ℕ → NodeId → Result MetadataStore
unfolding change_chunk
register_chunk allocated store id index peer = change_chunk allocated store id index peer false

unfoldable pub unregister_chunk : MetadataStore → ObjectId → ℕ → NodeId → Result MetadataStore
unfolding change_chunk
unregister_chunk store id index peer = change_chunk true store id index peer true

-- The second loop of metadata_chunk_peers.
unfoldable pub peers_of : List Availability → ℕ → List NodeId
peers_of [] index = []
peers_of (item ∷ items) index =
    let rest = peers_of items index in if item.index == index then item.peer ∷ rest else rest

-- metadata_chunk_peers, when its allocation succeeds.
unfoldable pub chunk_peers : MetadataStore → ObjectId → ℕ → Result (List NodeId)
unfolding peers_of find_entry
chunk_peers store id index = elim (find_entry store id) [
  | none ↦ err enoent
  | some entry ↦
      if leb entry.document.chunk_count index
      then err einval
      else ok (peers_of entry.available index)
]

-- The inner loop of metadata_remove_peer.
unfoldable pub drop_peer : List Availability → NodeId → List Availability
drop_peer [] peer = []
drop_peer (item ∷ items) peer =
    let rest = drop_peer items peer in if bytes_eq item.peer peer then rest else item ∷ rest

abbrev pub without_peer : NodeId → Entry → Entry
without_peer peer entry = with_available entry (drop_peer entry.available peer)

-- metadata_remove_peer
unfoldable pub remove_peer : MetadataStore → NodeId → MetadataStore
unfolding drop_peer
remove_peer store peer = record { buckets = map (map (without_peer peer)) store.buckets }

-- The loops of metadata_find_name over one chain and over the chains; `found` is the one match so far.
unfoldable pub find_name_in : List ℕ → List Entry → Option ObjectId → Result (Option ObjectId)
find_name_in name [] found = ok found
find_name_in name (entry ∷ entries) found = elim found [
  | none ↦
      if bytes_eq entry.document.filename name
      then find_name_in name entries (some entry.document.object_id)
      else find_name_in name entries none
  | some id ↦
      if bytes_eq entry.document.filename name
      then err enotuniq
      else find_name_in name entries (some id)
]

unfoldable pub find_name_loop :
    List ℕ → List (List Entry) → Option ObjectId → Result (Option ObjectId)
unfolding find_name_in
find_name_loop name [] found = ok found
find_name_loop name (entries ∷ chains) found = elim (find_name_in name entries found) [
  | err error ↦ err error
  | ok later ↦ find_name_loop name chains later
]

-- metadata_find_name
unfoldable pub find_name : MetadataStore → List ℕ → Result ObjectId
unfolding find_name_loop
find_name store name = elim (find_name_loop name store.buckets none) [
  | err error ↦ err error
  | ok none ↦ err enoent
  | ok (some id) ↦ ok id
]
