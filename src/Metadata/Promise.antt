-- ===== src/Metadata/Promise.antt =====
-- metadata.c: every sequence of calls keeps the promise of the catalogue.
use trabalho_distribuidos.Prelude.{◌≡◌, Bool, ok}
use trabalho_distribuidos.Metadata.{MetadataStore, create}
use trabalho_distribuidos.Metadata.Chains.{IsStore, create-IsStore}
use trabalho_distribuidos.Metadata.Catalogue.{
  catalogue, Call, registers, removes, changes, drops, announces, run, promise, IsCall, seen,
}
use trabalho_distribuidos.Metadata.Refine.{
  Meets, register-Meets, remove-Meets, drops-Meets, changes-Meets,
}
use trabalho_distribuidos.Metadata.Publish.{announce-Meets}

run-Meets :
    (allocated : Bool) (call : Call) (store : MetadataStore)
    → IsCall call
    → IsStore store
    → Meets (run allocated call store) (promise allocated call (catalogue store))
unfolding run
run-Meets allocated (registers id name file_size) store c v =
    register-Meets allocated store id name file_size v
run-Meets allocated (removes id) store c v = remove-Meets allocated store id v
run-Meets allocated (changes id index peer remove) store c v =
    changes-Meets allocated store id index peer remove v
run-Meets allocated (drops peer) store c v = drops-Meets allocated store peer v
run-Meets allocated (announces document chunks owner) store c v =
    announce-Meets allocated store document chunks owner v c

-- The stores that metadata_create and any calls give; a call that fails leaves its store.
pub data Made : MetadataStore → Type 0 where
  made : {store : MetadataStore} → store ≡ create → Made store
  called :
      {before after : MetadataStore} (allocated : Bool) (call : Call)
      → Made before
      → IsCall call
      → run allocated call before ≡ ok after
      → Made after

-- A store made by metadata_create and any calls of metadata_register_document,
-- metadata_remove_document, metadata_register_chunk, metadata_unregister_chunk, metadata_remove_peer
-- and metadata_announce, each with as many chunks as it says, has 257 chains with every entry in the
-- bucket of its identifier, no identifier twice, and no peer twice for a chunk of a file.
pub Made-IsStore : (store : MetadataStore) → Made store → IsStore store
Made-IsStore store (made e) = rw e create-IsStore
Made-IsStore store (called {before} allocated call m c h) =
    (run-Meets allocated call before c (Made-IsStore before m)).kept store h

-- For every store that calls have made, each of these calls gives the result and the errors of the
-- abstract catalogue, and the store it leaves stands for the catalogue that the abstract call leaves:
-- a map from identifiers to files, where the peers of a chunk are a set.
pub run-promise :
    (allocated : Bool) (call : Call) (store : MetadataStore)
    → Made store
    → IsCall call
    → seen (run allocated call store) ≡ promise allocated call (catalogue store)
run-promise allocated call store m c =
    (run-Meets allocated call store c (Made-IsStore store m)).same
