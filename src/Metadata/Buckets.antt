-- ===== src/Metadata/Buckets.antt =====
-- One chain of the store as a map from identifiers to entries.
use trabalho_distribuidos.Prelude.{
  ℕ, ◌≡◌, inl, inr, refl, false, none, some, List, [], ◌∷◌, arith, All, Bool-cases, if◌then◌else◌,
  ap, ◌∙◌, sym, bytes_eq, bytes_eq_iff, subst,
}
use trabalho_distribuidos.Metadata.Items.{Distinct}
use trabalho_distribuidos.Metadata.{ObjectId, Entry, bucket, has_id, find_in, put_in, erase_in}

-- The identifiers of a chain differ, each is in its own bucket, and the items of an entry differ.
abbrev pub Fresh : ObjectId → List Entry → Type 0
Fresh id = All (λ (e : Entry). bytes_eq e.document.object_id id ≡ false)

abbrev pub Chain : ℕ → List Entry → Type 0
Chain b [] = Unit {0}
Chain b (entry ∷ entries) =
    (bucket entry.document.object_id ≡ b)
    × Distinct entry.available
    × Fresh entry.document.object_id entries
    × Chain b entries

pub eq_comm : (a b : List ℕ) → bytes_eq a b ≡ false → bytes_eq b a ≡ false
eq_comm a b h = elim (Bool-cases (bytes_eq b a)) [
  | inl e ↦ cc ((bytes_eq_iff a b).1 (sym ((bytes_eq_iff b a).0 e)))
  | inr e ↦ e
]

-- A chain after a write.
pub find_in-put_in :
    (entries : List Entry) (id q : ObjectId) (new : Entry)
    → new.document.object_id ≡ id
    → find_in (put_in entries id new) q ≡ (if bytes_eq id q then some new else find_in entries q)
unfolding find_in put_in
find_in-put_in [] id q new e = rw e refl
find_in-put_in (x ∷ entries) id q new e = elim (Bool-cases (has_id id x)) [
  | inl hit ↦
      let same : x.document.object_id ≡ id = (bytes_eq_iff x.document.object_id id).0 hit in
      ground (arith, same, hit, e)
  | inr miss ↦ elim (Bool-cases (bytes_eq x.document.object_id q)) [
    | inr off ↦ ground (arith, miss, off, find_in-put_in entries id q new e)
    | inl at' ↦
        let same : x.document.object_id ≡ q = (bytes_eq_iff x.document.object_id q).0 at' in
        let apart : bytes_eq id q ≡ false = eq_comm q id (rw same at miss) in
        ground (arith, miss, at', apart)
  ]
]

find_in-Fresh :
    (entries : List Entry) (id : ObjectId) → Fresh id entries → find_in entries id ≡ none
unfolding find_in
find_in-Fresh [] id h = refl
find_in-Fresh (x ∷ entries) id (apart, h) = rw apart (find_in-Fresh entries id h)

pub find_in-id :
    (entries : List Entry) (id : ObjectId) (entry : Entry)
    → find_in entries id ≡ some entry
    → entry.document.object_id ≡ id
unfolding find_in
find_in-id [] id entry h = cc
find_in-id (x ∷ entries) id entry h = elim (Bool-cases (has_id id x)) [
  | inl hit ↦
      let k : some x ≡ some entry = rw hit at h in
      let e : x ≡ entry = (cc (k)) in
      ap (λ (y : Entry). y.document.object_id) (sym e)
      ∙ (bytes_eq_iff x.document.object_id id).0 hit
  | inr miss ↦ find_in-id entries id entry (rw miss at h)
]

-- A chain after an entry has been unlinked.
pub find_in-erase_in :
    (b : ℕ) (entries : List Entry) (id q : ObjectId)
    → Chain b entries
    → find_in (erase_in entries id) q ≡ (if bytes_eq id q then none else find_in entries q)
unfolding find_in erase_in
find_in-erase_in b [] id q h = ground arith
find_in-erase_in b (x ∷ entries) id q (place, items, apart, h) = elim (Bool-cases (has_id id x)) [
  | inl hit ↦
      let same : x.document.object_id ≡ id = (bytes_eq_iff x.document.object_id id).0 hit in
      elim (Bool-cases (bytes_eq id q)) [
        | inl at' ↦
            let e : id ≡ q = (bytes_eq_iff id q).0 at' in
            let gone : find_in entries q ≡ none =
              find_in-Fresh entries q
                (subst (λ (i : ObjectId). Fresh i entries) (same ∙ e) apart) in
            ground (arith, hit, at', gone)
        | inr off ↦ ground (arith, hit, off, same)
      ]
  | inr miss ↦ elim (Bool-cases (bytes_eq x.document.object_id q)) [
    | inr off ↦ ground (arith, miss, off, find_in-erase_in b entries id q h)
    | inl at' ↦
        let same : x.document.object_id ≡ q = (bytes_eq_iff x.document.object_id q).0 at' in
        let off : bytes_eq id q ≡ false = eq_comm q id (rw same at miss) in
        ground (arith, miss, at', off)
  ]
]

pub Fresh-put_in :
    (entries : List Entry) (id other : ObjectId) (new : Entry)
    → Fresh other entries
    → bytes_eq new.document.object_id other ≡ false
    → Fresh other (put_in entries id new)
unfolding put_in
Fresh-put_in [] id other new h off = (off, tt)
Fresh-put_in (x ∷ entries) id other new (apart, h) off = elim (Bool-cases (has_id id x)) [
  | inl hit ↦ rw hit (off, h)
  | inr miss ↦ rw miss (apart, Fresh-put_in entries id other new h off)
]

pub Chain-put_in :
    (b : ℕ) (entries : List Entry) (id : ObjectId) (new : Entry)
    → Chain b entries
    → bucket new.document.object_id ≡ b
    → new.document.object_id ≡ id
    → Distinct new.available
    → Chain b (put_in entries id new)
unfolding put_in
Chain-put_in b [] id new h place e d = (place, d, tt, tt)
Chain-put_in b (x ∷ entries) id new (at', items, apart, h) place e d =
    elim (Bool-cases (has_id id x)) [
      | inl hit ↦
          let same : x.document.object_id ≡ new.document.object_id =
            (bytes_eq_iff x.document.object_id id).0 hit ∙ sym e in
          rw hit (place, d, subst (λ (i : ObjectId). Fresh i entries) same apart, h)
      | inr miss ↦
          let off : bytes_eq new.document.object_id x.document.object_id ≡ false =
            ap (λ (i : ObjectId). bytes_eq i x.document.object_id) e
            ∙ eq_comm x.document.object_id id miss in
          rw miss (
            at',
            items,
            Fresh-put_in entries id x.document.object_id new apart off,
            Chain-put_in b entries id new h place e d,
          )
    ]

Fresh-erase_in :
    (entries : List Entry) (id other : ObjectId)
    → Fresh other entries
    → Fresh other (erase_in entries id)
unfolding erase_in
Fresh-erase_in [] id other h = tt
Fresh-erase_in (x ∷ entries) id other (apart, h) = elim (Bool-cases (has_id id x)) [
  | inl hit ↦ rw hit h
  | inr miss ↦ rw miss (apart, Fresh-erase_in entries id other h)
]

pub Chain-erase_in :
    (b : ℕ) (entries : List Entry) (id : ObjectId) → Chain b entries → Chain b (erase_in entries id)
unfolding erase_in
Chain-erase_in b [] id h = tt
Chain-erase_in b (x ∷ entries) id (at', items, apart, h) = elim (Bool-cases (has_id id x)) [
  | inl hit ↦ rw hit h
  | inr miss ↦ rw miss (
    at',
    items,
    Fresh-erase_in entries id x.document.object_id apart,
    Chain-erase_in b entries id h,
  )
]
