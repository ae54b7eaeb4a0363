-- ===== src/Metadata/Chains.antt =====
-- The chains of the store as one map from identifiers to entries.
use mathlib.Core.Option as Option
use trabalho_distribuidos.Prelude.{
  ℕ, zero, suc, ◌+◌, ◌*◌, ◌%◌, ◌<◌, ◌≡◌, inl, inr, refl, true, false, none, some, List, [], ◌∷◌,
  arith, length, set, get_or, replicate, map, Bool-cases, if◌then◌else◌, ap, ◌∙◌, sym, bytes_eq,
  bytes_eq_iff, length-set, length-replicate, ◌==◌, ==_iff, subst,
}
use trabalho_distribuidos.Metadata.Items.{Distinct, Distinct-drop_peer}
use trabalho_distribuidos.Metadata.Peers.{without_peer, remove_peer}
use trabalho_distribuidos.Node.{NodeId}
use trabalho_distribuidos.Metadata.{
  ObjectId, Entry, MetadataStore, bucket_count, bucket_loop, bucket, chain, has_id, find_in,
  find_entry, put_in, erase_in, with_chain, put_entry, erase_entry, create,
}
use trabalho_distribuidos.Metadata.Buckets.{
  Chain, Fresh, find_in-put_in, find_in-erase_in, find_in-id, Chain-put_in, Chain-erase_in,
}

abbrev pub Chains : ℕ → List (List Entry) → Type 0
Chains b [] = Unit {0}
Chains b (entries ∷ chains) = Chain b entries × Chains (suc b) chains

-- 257 chains, every entry in the bucket of its identifier, no identifier twice, and no peer twice for a
-- chunk of a file.
pub record IsStore (store : MetadataStore) : Type 0 where
  pub width : length store.buckets ≡ bucket_count
  pub chains : Chains 0 store.buckets

bucket_loop-lt :
    (value : ℕ) (bytes : List ℕ) → value < bucket_count → bucket_loop value bytes < bucket_count
unfolding bucket_loop
bucket_loop-lt value [] h = h
bucket_loop-lt value (byte ∷ bytes) h =
    bucket_loop-lt ((value * 33 + byte) % bucket_count) bytes (omega arith)

pub bucket-lt : (id : ObjectId) → bucket id < bucket_count
unfolding bucket
bucket-lt id = bucket_loop-lt 0 id (omega arith)

pub get_or-set :
    {A : Type 0} (xs : List A) (i j : ℕ) (v d : A)
    → i < length xs
    → get_or (set xs i v) j d ≡ (if i == j then v else get_or xs j d)
get_or-set [] i j v d h = absurd (omega arith)
get_or-set (x ∷ xs) zero zero v d h = refl
get_or-set (x ∷ xs) zero (suc j) v d h = ground arith
get_or-set (x ∷ xs) (suc i) zero v d h = ground arith
get_or-set (x ∷ xs) (suc i) (suc j) v d h = ground (arith, get_or-set xs i j v d (omega arith))

Chain-get :
    (b i : ℕ) (chains : List (List Entry)) → Chains b chains → Chain (b + i) (get_or chains i [])
Chain-get b i [] h = tt
Chain-get b zero (c ∷ chains) (here, later) = subst (λ (k : ℕ). Chain k c) (omega arith) here
Chain-get b (suc i) (c ∷ chains) (here, later) =
    subst (λ (k : ℕ). Chain k (get_or chains i [])) (omega arith) (Chain-get (suc b) i chains later)

Chains-set :
    (b i : ℕ) (chains : List (List Entry)) (entries : List Entry)
    → Chains b chains
    → Chain (b + i) entries
    → Chains b (set chains i entries)
Chains-set b i [] entries h c = tt
Chains-set b zero (x ∷ chains) entries (here, later) c =
    (subst (λ (k : ℕ). Chain k entries) (omega arith) c, later)
Chains-set b (suc i) (x ∷ chains) entries (here, later) c = (
  here,
  Chains-set (suc b) i chains entries later (subst (λ (k : ℕ). Chain k entries) (omega arith) c),
)

pub own_chain :
    (store : MetadataStore) (id : ObjectId) → IsStore store → Chain (bucket id) (chain store id)
own_chain store id v =
    subst (λ (k : ℕ). Chain k (chain store id)) (omega arith)
      (Chain-get 0 (bucket id) store.buckets v.chains)

with_chain-IsStore :
    (store : MetadataStore) (id : ObjectId) (entries : List Entry)
    → IsStore store
    → Chain (bucket id) entries
    → IsStore (with_chain store id entries)
with_chain-IsStore store id entries v c = record {
  width = length-set store.buckets (bucket id) entries ∙ v.width;
  chains =
      Chains-set 0 (bucket id) store.buckets entries v.chains
        (subst (λ (k : ℕ). Chain k entries) (omega arith) c);
}

pub put_entry-IsStore :
    (store : MetadataStore) (id : ObjectId) (new : Entry)
    → IsStore store
    → new.document.object_id ≡ id
    → Distinct new.available
    → IsStore (put_entry store id new)
unfolding put_entry
put_entry-IsStore store id new v e d =
    with_chain-IsStore store id (put_in (chain store id) id new) v
      (Chain-put_in (bucket id) (chain store id) id new (own_chain store id v) (ap bucket e) e d)

pub erase_entry-IsStore :
    (store : MetadataStore) (id : ObjectId) → IsStore store → IsStore (erase_entry store id)
unfolding erase_entry
erase_entry-IsStore store id v =
    with_chain-IsStore store id (erase_in (chain store id) id) v
      (Chain-erase_in (bucket id) (chain store id) id (own_chain store id v))

find_entry-with_chain :
    (store : MetadataStore) (id q : ObjectId) (entries : List Entry)
    → IsStore store
    → find_in (chain (with_chain store id entries) q) q
      ≡ (if bucket id == bucket q then find_in entries q else find_in (chain store q) q)
find_entry-with_chain store id q entries v =
    let small : bucket id < length store.buckets = omega (arith, bucket-lt id, v.width) in
    ap (λ (c : List Entry). find_in c q)
      (get_or-set store.buckets (bucket id) (bucket q) entries [] small)
    ∙ ground arith

chain-bucket :
    (store : MetadataStore) (id q : ObjectId)
    → (bucket id == bucket q) ≡ true
    → chain store id ≡ chain store q
chain-bucket store id q h =
    ap (λ (b : ℕ). get_or store.buckets b []) ((==_iff (bucket id) (bucket q)).0 h)

bucket-apart : (id q : ObjectId) → (bucket id == bucket q) ≡ false → bytes_eq id q ≡ false
bucket-apart id q h = elim (Bool-cases (bytes_eq id q)) [
  | inr e ↦ e
  | inl e ↦ cc (h, (==_iff (bucket id) (bucket q)).1 (ap bucket ((bytes_eq_iff id q).0 e)))
]

-- A write is read back under its identifier and changes no other.
pub find_entry-put_entry :
    (store : MetadataStore) (id q : ObjectId) (new : Entry)
    → IsStore store
    → new.document.object_id ≡ id
    → find_entry (put_entry store id new) q
      ≡ (if bytes_eq id q then some new else find_entry store q)
unfolding find_entry put_entry
find_entry-put_entry store id q new v e =
    find_entry-with_chain store id q (put_in (chain store id) id new) v
    ∙ elim (Bool-cases (bucket id == bucket q)) [
      | inl here ↦
          let same : chain store id ≡ chain store q = chain-bucket store id q here in
          rw here (
            find_in-put_in (chain store id) id q new e
            ∙ (λ k. if bytes_eq id q then some new else find_in (same k) q))
      | inr away ↦ rw (away, bucket-apart id q away) refl
    ]

pub find_entry-erase_entry :
    (store : MetadataStore) (id q : ObjectId)
    → IsStore store
    → find_entry (erase_entry store id) q ≡ (if bytes_eq id q then none else find_entry store q)
unfolding find_entry erase_entry
find_entry-erase_entry store id q v =
    find_entry-with_chain store id q (erase_in (chain store id) id) v
    ∙ elim (Bool-cases (bucket id == bucket q)) [
      | inl here ↦
          let same : chain store id ≡ chain store q = chain-bucket store id q here in
          rw here (
            find_in-erase_in (bucket id) (chain store id) id q (own_chain store id v)
            ∙ (λ k. if bytes_eq id q then none else find_in (same k) q))
      | inr away ↦ rw (away, bucket-apart id q away) refl
    ]

pub find_entry-id :
    (store : MetadataStore) (id : ObjectId) (entry : Entry)
    → find_entry store id ≡ some entry
    → entry.document.object_id ≡ id
unfolding find_entry
find_entry-id store id entry h = find_in-id (chain store id) id entry h

find_in-Distinct :
    (b : ℕ) (entries : List Entry) (id : ObjectId) (entry : Entry)
    → Chain b entries
    → find_in entries id ≡ some entry
    → Distinct entry.available
unfolding find_in
find_in-Distinct b [] id entry c h = cc
find_in-Distinct b (x ∷ entries) id entry (at', items, apart, c) h =
    elim (Bool-cases (has_id id x)) [
      | inl hit ↦
          let k : some x ≡ some entry = rw hit at h in
          let e : x ≡ entry = (cc (k)) in subst (λ (y : Entry). Distinct y.available) e items
      | inr miss ↦ find_in-Distinct b entries id entry c (rw miss at h)
    ]

pub find_entry-Distinct :
    (store : MetadataStore) (id : ObjectId) (entry : Entry)
    → IsStore store
    → find_entry store id ≡ some entry
    → Distinct entry.available
unfolding find_entry
find_entry-Distinct store id entry v h =
    find_in-Distinct (bucket id) (chain store id) id entry (own_chain store id v) h

find_in-without_peer :
    (entries : List Entry) (peer : NodeId) (q : ObjectId)
    → find_in (map (without_peer peer) entries) q
      ≡ Option.map (without_peer peer) (find_in entries q)
unfolding find_in
find_in-without_peer [] peer q = refl
find_in-without_peer (x ∷ entries) peer q = elim (Bool-cases (has_id q x)) [
  | inl hit ↦ rw hit refl
  | inr miss ↦ rw miss (find_in-without_peer entries peer q)
]

get_or-map :
    (f : List Entry → List Entry) (chains : List (List Entry)) (i : ℕ)
    → f [] ≡ []
    → get_or (map f chains) i [] ≡ f (get_or chains i [])
get_or-map f [] i e = sym e
get_or-map f (c ∷ chains) zero e = refl
get_or-map f (c ∷ chains) (suc i) e = get_or-map f chains i e

pub find_entry-remove_peer :
    (store : MetadataStore) (peer : NodeId) (q : ObjectId)
    → find_entry (remove_peer store peer) q ≡ Option.map (without_peer peer) (find_entry store q)
unfolding find_entry remove_peer
find_entry-remove_peer store peer q =
    ap (λ (c : List Entry). find_in c q)
      (get_or-map (map (without_peer peer)) store.buckets (bucket q) refl)
    ∙ find_in-without_peer (chain store q) peer q

Fresh-without_peer :
    (id : ObjectId) (entries : List Entry) (peer : NodeId)
    → Fresh id entries
    → Fresh id (map (without_peer peer) entries)
Fresh-without_peer id [] peer h = tt
Fresh-without_peer id (x ∷ entries) peer (apart, h) = (apart, Fresh-without_peer id entries peer h)

Chain-without_peer :
    (b : ℕ) (entries : List Entry) (peer : NodeId)
    → Chain b entries
    → Chain b (map (without_peer peer) entries)
Chain-without_peer b [] peer h = tt
Chain-without_peer b (x ∷ entries) peer (at', items, apart, h) = (
  at',
  Distinct-drop_peer x.available peer items,
  Fresh-without_peer x.document.object_id entries peer apart,
  Chain-without_peer b entries peer h,
)

Chains-without_peer :
    (b : ℕ) (chains : List (List Entry)) (peer : NodeId)
    → Chains b chains
    → Chains b (map (map (without_peer peer)) chains)
Chains-without_peer b [] peer h = tt
Chains-without_peer b (c ∷ chains) peer (here, later) =
    (Chain-without_peer b c peer here, Chains-without_peer (suc b) chains peer later)

length-chains :
    (f : List Entry → List Entry) (chains : List (List Entry))
    → length (map f chains) ≡ length chains
length-chains f [] = refl
length-chains f (c ∷ chains) = ap suc (length-chains f chains)

pub remove_peer-IsStore :
    (store : MetadataStore) (peer : NodeId) → IsStore store → IsStore (remove_peer store peer)
unfolding remove_peer
remove_peer-IsStore store peer v = record {
  width = length-chains (map (without_peer peer)) store.buckets ∙ v.width;
  chains = Chains-without_peer 0 store.buckets peer v.chains;
}

Chains-empty : (b n : ℕ) → Chains b (replicate n [])
Chains-empty b zero = tt
Chains-empty b (suc n) = (tt, Chains-empty (suc b) n)

pub create-IsStore : IsStore create
unfolding create
create-IsStore = record {
  width = length-replicate {A = List Entry} bucket_count [];
  chains = Chains-empty 0 bucket_count;
}
