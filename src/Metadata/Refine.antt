-- ===== src/Metadata/Refine.antt =====
-- metadata.c: registering and removing files and peers does what the catalogue says.
use mathlib.Core.Option as Option
use mathlib.Core.Path.{fun_ext}
use trabalho_distribuidos.Prelude.{
  ℕ, ◌-◌, ◌^◌, ◌≡◌, inl, inr, refl, Bool, true, ◌&&◌, ◌||◌, Option, none, some, List, [], ◌∷◌, ◌++◌,
  arith, Bool-cases, Option-cases, ◌==◌, leb, ltb, ap, ◌∙◌, sym, Result, ok, err, einval, enoent,
  enomem, eexist, eoverflow, Errno, subst, bytes_eq, bytes_eq_iff, ok-injective,
}
use trabalho_distribuidos.Node.{NodeId}
use trabalho_distribuidos.Metadata.{
  ObjectId, Availability, Entry, MetadataStore, find_entry, chunks_of, is_bad_name, registered,
  register_document, remove_document, put_entry, erase_entry,
}
use trabalho_distribuidos.Metadata.Peers.{
  has_item, unlink, change_items, change_chunk, remove_peer, without_peer, with_available,
}
use trabalho_distribuidos.Metadata.Items.{
  Distinct, has_item-append, has_item-unlink, has_item-drop_peer, Distinct-append, Distinct-unlink,
}
use trabalho_distribuidos.Metadata.Chains.{
  IsStore, put_entry-IsStore, erase_entry-IsStore, find_entry-put_entry, find_entry-erase_entry,
  find_entry-id, find_entry-Distinct, remove_peer-IsStore, find_entry-remove_peer,
}
use trabalho_distribuidos.Metadata.Catalogue.{
  File, Catalogue, file, catalogue, insert, delete, registers, removes, changes, drops, with_holds,
  plus, minus, without, promise, seen,
}

-- A store that keeps the invariant and stands for a catalogue, or an error.
pub record Meets (r : Result MetadataStore) (promised : Result Catalogue) : Type 0 where
  pub same : seen r ≡ promised
  pub kept : (store : MetadataStore) → r ≡ ok store → IsStore store

pub fails :
    {r : Result MetadataStore} {promised : Result Catalogue} (e : Errno)
    → r ≡ err e
    → promised ≡ err e
    → Meets r promised
fails e h k = record { same = ap seen h ∙ sym k; kept = λ store g. cc (h, g) }

pub gives :
    {r : Result MetadataStore} {promised : Result Catalogue} (store : MetadataStore)
    (files : Catalogue)
    → r ≡ ok store
    → promised ≡ ok files
    → IsStore store
    → catalogue store ≡ files
    → Meets r promised
gives store files h k v e = record {
  same = ap seen h ∙ ap ok e ∙ sym k;
  kept = λ other g. subst IsStore (ok-injective (sym h ∙ g)) v;
}

catalogue-put_entry :
    (store : MetadataStore) (id : ObjectId) (new : Entry)
    → IsStore store
    → new.document.object_id ≡ id
    → catalogue (put_entry store id new) ≡ insert id (file new) (catalogue store)
catalogue-put_entry store id new v e = fun_ext (λ q.
    ap (Option.map file) (find_entry-put_entry store id q new v e)
    ∙ elim (Bool-cases (bytes_eq id q)) [ inl hit ↦ rw hit refl | inr miss ↦ rw miss refl ])

-- A write of an entry, seen as a file.
pub stores :
    {r : Result MetadataStore} {promised : Result Catalogue} (store : MetadataStore) (id : ObjectId)
    (new : Entry) (f : File)
    → IsStore store
    → r ≡ ok (put_entry store id new)
    → promised ≡ ok (insert id f (catalogue store))
    → new.document.object_id ≡ id
    → Distinct new.available
    → file new ≡ f
    → Meets r promised
stores store id new f v h k e d same =
    gives (put_entry store id new) (insert id f (catalogue store)) h k
      (put_entry-IsStore store id new v e d)
      (catalogue-put_entry store id new v e ∙ ap (λ (g : File). insert id g (catalogue store)) same)

pub register-Meets :
    (allocated : Bool) (store : MetadataStore) (id : ObjectId) (name : List ℕ) (file_size : ℕ)
    → IsStore store
    → Meets
        (register_document allocated store id name file_size)
        (promise allocated (registers id name file_size) (catalogue store))
unfolding register_document
register-Meets allocated store id name file_size v = elim (Bool-cases (is_bad_name name)) [
  | inl bad ↦ fails einval (rw (bad, register_document) refl) (rw bad refl)
  | inr good ↦ elim (Bool-cases (ltb (2 ^ 32 - 1) (chunks_of file_size))) [
    | inl big ↦ fails eoverflow (rw (good, big, register_document) refl) (rw (good, big) refl)
    | inr small ↦ elim (Option-cases (find_entry store id)) [
      | inl missing ↦ elim (Bool-cases allocated) [
        | inl yes' ↦
            stores store id (registered id name file_size) (file (registered id name file_size)) v
              (rw (good, small, missing, yes', register_document) refl)
              (rw (good, small, missing, yes') refl) refl tt refl
        | inr no' ↦
            fails enomem (rw (good, small, missing, no', register_document) refl)
              (rw (good, small, missing, no') refl)
      ]
      | inr (entry, found) ↦ elim (Bool-cases (entry.document.size == file_size)) [
        | inl same ↦
            gives store (catalogue store) (rw (good, small, found, same, register_document) refl)
              (rw (good, small, found, same) refl) v refl
        | inr other ↦
            fails eexist (rw (good, small, found, other, register_document) refl)
              (rw (good, small, found, other) refl)
      ]
    ]
  ]
]

pub remove-Meets :
    (allocated : Bool) (store : MetadataStore) (id : ObjectId)
    → IsStore store
    → Meets (remove_document store id) (promise allocated (removes id) (catalogue store))
unfolding remove_document
remove-Meets allocated store id v = elim (Option-cases (find_entry store id)) [
  | inl missing ↦ fails enoent (rw (missing, remove_document) refl) (rw (missing, promise) refl)
  | inr (entry, found) ↦
      gives (erase_entry store id) (delete id (catalogue store)) (rw (found, remove_document) refl)
        (rw (found, promise) refl) (erase_entry-IsStore store id v)
        (fun_ext (λ q.
          ap (Option.map file) (find_entry-erase_entry store id q v)
          ∙ elim (Bool-cases (bytes_eq id q)) [ inl hit ↦ rw hit refl | inr miss ↦ rw miss refl ]))
]

pub drops-Meets :
    (allocated : Bool) (store : MetadataStore) (peer : NodeId)
    → IsStore store
    → Meets (ok (remove_peer store peer)) (promise allocated (drops peer) (catalogue store))
drops-Meets allocated store peer v =
    gives (remove_peer store peer)
      (λ q. Option.map (λ (f : File). with_holds f (without peer f.holds)) (catalogue store q)) refl
      refl (remove_peer-IsStore store peer v)
      (fun_ext (λ q.
        ap (Option.map file) (find_entry-remove_peer store peer q)
        ∙ seen-without (find_entry store q)))
  where
    seen-without :
        (o : Option Entry)
        → Option.map file (Option.map (without_peer peer) o)
          ≡ Option.map (λ (f : File). with_holds f (without peer f.holds)) (Option.map file o)
    seen-without none = refl
    seen-without (some e) =
        ap (λ (h : ℕ → NodeId → Bool). some (with_holds (file e) h))
          (fun_ext (λ i. fun_ext (λ p. has_item-drop_peer e.available i peer p)))

-- What change_chunk does to an entry, seen as a file.
record Changes (entry changed : Entry) (f : File) : Type 0 where
  id : changed.document.object_id ≡ entry.document.object_id
  items : Distinct changed.available
  same : file changed ≡ f

holds_path :
    (e : Entry) (items : List Availability) (holds : ℕ → NodeId → Bool)
    → ((i : ℕ) (p : NodeId) → has_item items i p ≡ holds i p)
    → file (with_available e items) ≡ with_holds (file e) holds
holds_path e items holds h =
    ap (λ (g : ℕ → NodeId → Bool). with_holds (file e) g) (fun_ext (λ i. fun_ext (λ p. h i p)))

already :
    (h : ℕ → NodeId → Bool) (index i : ℕ) (peer p : NodeId)
    → h index peer ≡ true
    → h i p ≡ (h i p || (index == i && bytes_eq peer p))
already h index i peer p there = elim (Bool-cases (index == i && bytes_eq peer p)) [
  | inr off ↦ rw off (ground arith)
  | inl on ↦
      let e : index ≡ i = ground arith in
      let f : peer ≡ p = (bytes_eq_iff peer p).0 (ground arith) in
      let k : h i p ≡ true = sym (λ j. h (e j) (f j)) ∙ there in rw (on, k) refl
]

pub changes-Meets :
    (allocated : Bool) (store : MetadataStore) (id : ObjectId) (index : ℕ) (peer : NodeId)
    (remove : Bool)
    → IsStore store
    → Meets
        (change_chunk allocated store id index peer remove)
        (promise allocated (changes id index peer remove) (catalogue store))
unfolding change_chunk change_items
changes-Meets allocated store id index peer remove v = elim (Option-cases (find_entry store id)) [
  | inl missing ↦ fails enoent (rw (missing, change_chunk) refl) (rw (missing, promise) refl)
  | inr (entry, found) ↦
      let own : entry.document.object_id ≡ id = find_entry-id store id entry found in
      let d = find_entry-Distinct store id entry v found in
      let more = entry.available ++ record { index = index; peer = peer } ∷ [] in
      elim (Bool-cases (leb entry.document.chunk_count index)) [
        | inl out ↦
            fails einval (rw (found, change_chunk, out) refl) (rw (found, promise, out) refl)
        | inr within ↦ elim (Bool-cases remove) [
          | inl taken ↦ elim (Bool-cases (has_item entry.available index peer)) [
            | inr absent ↦
                fails enoent (rw (found, change_chunk, within, taken, absent) refl)
                  (rw (found, promise, within, taken, absent) refl)
            | inl there ↦
                stores store id (with_available entry (unlink entry.available index peer))
                  (with_holds (file entry) (minus index peer (has_item entry.available))) v
                  (rw (found, change_chunk, within, taken, there) refl)
                  (rw (found, promise, within, taken, there) refl) own
                  (Distinct-unlink entry.available index peer d)
                  (holds_path entry (unlink entry.available index peer)
                    (minus index peer (has_item entry.available))
                    (λ i p. has_item-unlink entry.available index i peer p d))
          ]
          | inr added ↦ elim (Bool-cases (has_item entry.available index peer)) [
            | inl there ↦
                stores store id entry
                  (with_holds (file entry) (plus index peer (has_item entry.available))) v
                  (rw (found, change_chunk, within, added, there) refl)
                  (rw (found, promise, within, added, there) refl) own d
                  (holds_path entry entry.available (plus index peer (has_item entry.available))
                    (λ i p. already (has_item entry.available) index i peer p there))
            | inr absent ↦ elim (Bool-cases allocated) [
              | inr no' ↦
                  fails enomem (rw (found, change_chunk, within, added, absent, no') refl)
                    (rw (found, promise, within, added, absent, no') refl)
              | inl yes' ↦
                  stores store id (with_available entry more)
                    (with_holds (file entry) (plus index peer (has_item entry.available))) v
                    (rw (found, change_chunk, within, added, absent, yes') refl)
                    (rw (found, promise, within, added, absent, yes') refl) own
                    (Distinct-append entry.available index peer d absent)
                    (holds_path entry more (plus index peer (has_item entry.available))
                      (λ i p. has_item-append entry.available index i peer p))
            ]
          ]
        ]
      ]
]
