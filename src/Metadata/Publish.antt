-- ===== src/Metadata/Publish.antt =====
-- metadata_announce: publishing a file does what the catalogue says.
use mathlib.Core.Path.{fun_ext}
use trabalho_distribuidos.Prelude.{
  ℕ, ◌≡◌, inl, inr, refl, Bool, not, ◌&&◌, ◌||◌, List, [], arith, length, Bool-cases, Option-cases,
  ◌==◌, ltb, ap, ◌∙◌, einval, eexist, bytes_eq,
}
use trabalho_distribuidos.Node.{NodeId}
use trabalho_distribuidos.Metadata.{
  FileMetadata, MetadataChunk, Availability, Entry, MetadataStore, find_entry,
}
use trabalho_distribuidos.Metadata.Peers.{has_item}
use trabalho_distribuidos.Metadata.Announce.{
  are_chunks, candidate, is_bad_document, old_chunks_agree, announce, own_items, carry_items,
  merge_old,
}
use trabalho_distribuidos.Metadata.Items.{
  Distinct, has_item-own_items, has_item-carry_items, Distinct-own_items, Distinct-carry_items,
}
use trabalho_distribuidos.Metadata.Chains.{IsStore, find_entry-id, find_entry-Distinct}
use trabalho_distribuidos.Metadata.Catalogue.{
  file, catalogue, announces, with_holds, publish, republished, published, promise,
}
use trabalho_distribuidos.Metadata.Announce.{merged_document}
use trabalho_distribuidos.Metadata.Refine.{Meets, fails, stores}

merged_document-id :
    (old : Entry) (document : FileMetadata)
    → old.document.object_id ≡ document.object_id
    → (merged_document old document).object_id ≡ document.object_id
merged_document-id old document e = elim (Option-cases old.chunks) [
  | inl none' ↦ rw none' refl
  | inr (known, some') ↦ rw some' e
]

-- The items of the owner are those of all chunks.
own-holds :
    (owner : NodeId) (count : ℕ) (chunks : List MetadataChunk) (j : ℕ) (p : NodeId)
    → length chunks ≡ count
    → has_item (own_items owner 0 chunks []) j p ≡ (ltb j count && bytes_eq owner p)
unfolding has_item
own-holds owner count chunks j p e = has_item-own_items owner 0 j chunks [] p ∙ ground arith

merged-holds :
    (owner : NodeId) (count : ℕ) (chunks : List MetadataChunk) (olds : List Availability) (j : ℕ)
    (p : NodeId)
    → length chunks ≡ count
    → has_item (carry_items owner olds (own_items owner 0 chunks [])) j p
      ≡ publish owner count (has_item olds) j p
merged-holds owner count chunks olds j p e =
    has_item-carry_items owner olds (own_items owner 0 chunks []) j p
    ∙ ap (λ (b : Bool). (has_item olds j p && not (bytes_eq owner p)) || b)
        (own-holds owner count chunks j p e)

own-Distinct :
    (owner : NodeId) (chunks : List MetadataChunk) → Distinct (own_items owner 0 chunks [])
unfolding has_item
own-Distinct owner chunks = Distinct-own_items owner 0 chunks [] tt (λ j p less. refl)

merged-Distinct :
    (owner : NodeId) (chunks : List MetadataChunk) (olds : List Availability)
    → Distinct olds
    → Distinct (carry_items owner olds (own_items owner 0 chunks []))
merged-Distinct owner chunks olds d =
    Distinct-carry_items owner olds (own_items owner 0 chunks []) d (own-Distinct owner chunks)
      (λ j p off at'. own-holds owner (length chunks) chunks j p refl ∙ rw off (ground arith))

module _ (allocated : Bool) (store : MetadataStore) (document : FileMetadata)
    (chunks : List MetadataChunk) (owner : NodeId) where
  pub announce-Meets :
      IsStore store
      → length chunks ≡ document.chunk_count
      → Meets
          (announce store document chunks owner)
          (promise allocated (announces document chunks owner) (catalogue store))
  unfolding announce merge_old
  announce-Meets v count =
      elim (Bool-cases (is_bad_document document || not (are_chunks document 0 chunks))) [
        | inl bad ↦ fails einval (rw (bad, announce) refl) (rw (bad, promise) refl)
        | inr good ↦ elim (Option-cases (find_entry store document.object_id)) [
          | inl missing ↦
              stores store document.object_id new (published document chunks owner) v
                (rw (good, missing, announce) refl) (rw (good, missing, promise) refl) refl
                (own-Distinct owner chunks)
                (ap (λ (h : ℕ → NodeId → Bool). with_holds (file new) h)
                  (fun_ext
                    (λ i. fun_ext (λ p. own-holds owner document.chunk_count chunks i p count))))
          | inr (old, found) ↦
              elim (Bool-cases (
                (old.document.size == document.size
                  && old.document.chunk_count == document.chunk_count)
                && old_chunks_agree old.chunks chunks)) [
                  | inr differs ↦
                      fails eexist (rw (good, found, announce, differs) refl)
                        (rw (good, found, promise, differs) refl)
                  | inl agrees ↦
                      stores store document.object_id (merge_old old owner new)
                        (republished (file old) document chunks owner) v
                        (rw (good, found, announce, agrees) refl)
                        (rw (good, found, promise, agrees) refl)
                        (merged_document-id old new.document
                          (find_entry-id store document.object_id old found))
                        (merged-Distinct owner chunks old.available
                          (find_entry-Distinct store document.object_id old v found))
                        (ap
                          (λ (h : ℕ → NodeId → Bool).
                            with_holds (republished (file old) document chunks owner) h)
                          (fun_ext (λ i. fun_ext (λ p.
                            merged-holds owner document.chunk_count chunks old.available i p
                              count))))
                ]
        ]
      ]
    where
      new : Entry
      new = candidate document chunks owner
