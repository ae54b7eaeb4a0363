-- ===== src/Metadata/Examples.antt =====
-- A store with one file, and calls on it.
use trabalho_distribuidos.Prelude.{ℕ, ◌≡◌, refl, true, none, List, [], ◌∷◌, ok}
use trabalho_distribuidos.Node.Examples.{id_of}
use trabalho_distribuidos.Metadata.{
  FileMetadata, MetadataChunk, MetadataStore, create, registered, register_document, find_entry,
  find_in, put_entry, bucket, bucket_loop,
}
use trabalho_distribuidos.Metadata.Chains.{IsStore}
use trabalho_distribuidos.Metadata.Catalogue.{catalogue, registers, announces, run, promise, seen}
use trabalho_distribuidos.Metadata.Promise.{Made, made, called, Made-IsStore, run-promise}

abbrev name : List ℕ
name = b'a' ∷ b'.' ∷ b'p' ∷ b'd' ∷ b'f' ∷ []

abbrev one_file : MetadataStore
one_file = put_entry create (id_of 5) (registered (id_of 5) name 10)

registered_once : run true (registers (id_of 5) name 10) create ≡ ok one_file
unfolding run register_document find_entry find_in bucket bucket_loop create
registered_once = refl

one_file-Made : Made one_file
one_file-Made = called true (registers (id_of 5) name 10) (made refl) tt registered_once

Made-IsStore_example : IsStore one_file
Made-IsStore_example = Made-IsStore one_file one_file-Made

-- The file in one chunk, as its owner announces it.
abbrev document : FileMetadata
document = record {
  object_id = id_of 5;
  filename = name;
  size = 10;
  chunk_count = 1;
  chunk_hashes = none;
  version = 7;
  owner = 0;
}

abbrev only_chunk : MetadataChunk
only_chunk = record { index = 0; offset = 0; raw_size = 10; compressed_size = 12; hash = id_of 9 }

run-promise_example :
    seen (run true (announces document (only_chunk ∷ []) (id_of 20)) one_file)
    ≡ promise true (announces document (only_chunk ∷ []) (id_of 20)) (catalogue one_file)
run-promise_example =
    run-promise true (announces document (only_chunk ∷ []) (id_of 20)) one_file one_file-Made refl
