-- ===== src/Node/Uuid.antt =====
-- node.c: node_generate_uuid, which reads /dev/urandom, and node_config_init.
use trabalho_distribuidos.Prelude.{
  ℕ, ◌+◌, ◌-◌, ◌%◌, ◌/◌, ◌≤◌, drop, length-take, length-set, take-split, length-take_min,
  get_or-set_same, get_or-set_other, take-set, drop-set, ◌≡◌, ◌∙◌, sym, ap, inl, inr, refl, true,
  Option, none, some, List, [], ◌∷◌, ◌++◌, arith, length, length-append, take, get_or, set, ◌==◌,
  leb, if◌then◌else◌, Bool-cases, All, Result, ok, err, Errno, einval, eio, ◌>>=◌, ◌>>◌,
}
use mathlib.Core.List.{append_assoc, append-nil}
use trabalho_distribuidos.Node.{NodeConfig, Platform, node_uuid_size, config_init_with_uuid}

-- What a read gives: at least one byte, EINTR, the end of the file, or another error.
pub data Read : Type 0 where
  got : ℕ → List ℕ → Read
  interrupted : Read
  exhausted : Read
  broken : Errno → Read

-- The loop of node_generate_uuid, with what its reads give one after another and the bytes so far. A read
-- stores at most the bytes that are missing. `none`: the loop is not over after these reads.
unfoldable pub fill : List Read → List ℕ → Option (Result (List ℕ))
fill [] uuid = if leb node_uuid_size (length uuid) then some (ok uuid) else none
fill (got byte bytes ∷ reads) uuid =
    let rest = fill reads (uuid ++ take (node_uuid_size - length uuid) (byte ∷ bytes)) in
    if leb node_uuid_size (length uuid) then some (ok uuid) else rest
fill (interrupted ∷ reads) uuid =
    let rest = fill reads uuid in if leb node_uuid_size (length uuid) then some (ok uuid) else rest
fill (exhausted ∷ reads) uuid =
    if leb node_uuid_size (length uuid) then some (ok uuid) else some (err eio)
fill (broken e ∷ reads) uuid =
    if leb node_uuid_size (length uuid) then some (ok uuid) else some (err e)

-- The bits of version 4 and of the variant.
unfoldable pub with_version : List ℕ → List ℕ
with_version uuid =
    let versioned = set uuid 6 (get_or uuid 6 0 % 16 + 64) in
    set versioned 8 (get_or versioned 8 0 % 64 + 128)

-- node_generate_uuid, with the results of open, of the reads and of close.
unfoldable pub generate_uuid :
    Result (Unit {0}) → List Read → Result (Unit {0}) → Option (Result (List ℕ))
unfolding fill with_version
generate_uuid (err e) reads closed = some (err e)
generate_uuid (ok opened) reads closed = elim (fill reads []) [
  | none ↦ none
  | some result ↦ some (result >>= λ uuid. closed >> ok (with_version uuid))
]

-- node_config_init
unfoldable pub config_init :
    Platform
    → List ℕ
    → ℕ
    → Result (Unit {0})
    → List Read
    → Result (Unit {0})
    → Option (Result NodeConfig)
unfolding generate_uuid
config_init platform ip port opened reads closed =
    if port == 0 then some (err einval) else elim (generate_uuid opened reads closed) [
      | none ↦ none
      | some result ↦ some (result >>= config_init_with_uuid platform ip port)
    ]

-- The bytes that reads give, and reads without an end or an error.
abbrev pub delivered : List Read → List ℕ
delivered [] = []
delivered (got byte bytes ∷ reads) = (byte ∷ bytes) ++ delivered reads
delivered (_ ∷ reads) = delivered reads

abbrev pub IsFlow : Read → Type 0
IsFlow (got byte bytes) = Unit {0}
IsFlow interrupted = Unit {0}
IsFlow _ = ⊥

-- A buffer that is full takes no more.
filled :
    (uuid rest : List ℕ)
    → node_uuid_size ≤ length uuid
    → uuid ≡ uuid ++ take (node_uuid_size - length uuid) rest
filled uuid rest full =
    let none_left : 0 ≡ node_uuid_size - length uuid = omega arith in
    sym (append-nil uuid) ∙ (λ i. uuid ++ take (none_left i) rest)

fill-delivered :
    (reads : List Read) (uuid : List ℕ)
    → All IsFlow reads
    → length uuid ≤ node_uuid_size
    → node_uuid_size ≤ length uuid + length (delivered reads)
    → fill reads uuid ≡ some (ok (uuid ++ take (node_uuid_size - length uuid) (delivered reads)))
unfolding fill
fill-delivered [] uuid flow small enough =
    let full : leb node_uuid_size (length uuid) ≡ true = ground arith in
    rw (full, fill) (ap (λ (bs : List ℕ). some (ok bs)) (filled uuid [] (omega arith)))
fill-delivered (got byte bytes ∷ reads) uuid (here, flow) small enough =
    elim (Bool-cases (leb node_uuid_size (length uuid))) [
      | inl full ↦
          rw (full, fill) (ap (λ (bs : List ℕ). some (ok bs)) (filled uuid _ (ground arith)))
      | inr short ↦
          let chunk = byte ∷ bytes in
          let missing = node_uuid_size - length uuid in
          let stored = take missing chunk in
          let size = length-append uuid stored in
          let all = length-append chunk (delivered reads) in
          let most = length-take_min missing chunk in
          let same : node_uuid_size - length (uuid ++ stored) ≡ missing - length stored =
            omega (arith, size) in
          rw (short, fill)
            (fill-delivered reads (uuid ++ stored) flow (ground (arith, size, most))
                (ground (arith, size, all, most))
              ∙ ap (λ (bs : List ℕ). some (ok bs))
                  ((λ i. (uuid ++ stored) ++ take (same i) (delivered reads))
                    ∙ append_assoc uuid stored (take (missing - length stored) (delivered reads))
                    ∙ ap (λ (bs : List ℕ). uuid ++ bs)
                        (sym (take-split missing chunk (delivered reads)))))
    ]
fill-delivered (interrupted ∷ reads) uuid (here, flow) small enough =
    elim (Bool-cases (leb node_uuid_size (length uuid))) [
      | inl full ↦
          rw (full, fill) (ap (λ (bs : List ℕ). some (ok bs)) (filled uuid _ (ground arith)))
      | inr short ↦ rw (short, fill) (fill-delivered reads uuid flow small enough)
    ]
fill-delivered (exhausted ∷ reads) uuid (here, flow) small enough = elim here [ ]
fill-delivered (broken e ∷ reads) uuid (here, flow) small enough = elim here [ ]

-- A UUID made of 16 bytes: version 4 in the high half of byte 6, the variant in the two high bits of byte
-- 8, and everything else as in these bytes.
pub record IsUuid (bytes uuid : List ℕ) : Type 0 where
  pub size : length uuid ≡ 16
  pub front : take 6 uuid ≡ take 6 bytes
  pub version : get_or uuid 6 0 / 16 ≡ 4
  pub low_bits : get_or uuid 6 0 % 16 ≡ get_or bytes 6 0 % 16
  pub middle : get_or uuid 7 0 ≡ get_or bytes 7 0
  pub variant : get_or uuid 8 0 / 64 ≡ 2
  pub other_bits : get_or uuid 8 0 % 64 ≡ get_or bytes 8 0 % 64
  pub back : drop 9 uuid ≡ drop 9 bytes

with_version-IsUuid : (bytes : List ℕ) → length bytes ≡ 16 → IsUuid bytes (with_version bytes)
unfolding with_version
with_version-IsUuid bytes size = record {
  size = length-set versioned 8 last ∙ long;
  front = take-set 6 versioned 8 last (omega arith) ∙ take-set 6 bytes 6 sixth (omega arith);
  version = omega (arith, at_six);
  low_bits = omega (arith, at_six);
  middle =
      get_or-set_other last 0 versioned 8 7 (omega arith)
      ∙ get_or-set_other sixth 0 bytes 6 7 (omega arith);
  variant = omega (arith, at_eight, kept);
  other_bits = omega (arith, at_eight, kept);
  back = drop-set 9 versioned 8 last (omega arith) ∙ drop-set 9 bytes 6 sixth (omega arith);
}
  where
    sixth : ℕ
    sixth = get_or bytes 6 0 % 16 + 64

    versioned : List ℕ
    versioned = set bytes 6 sixth

    last : ℕ
    last = get_or versioned 8 0 % 64 + 128

    long : length versioned ≡ 16
    long = length-set bytes 6 sixth ∙ size

    kept : get_or versioned 8 0 ≡ get_or bytes 8 0
    kept = get_or-set_other sixth 0 bytes 6 8 (omega arith)

    at_six : get_or (set versioned 8 last) 6 0 ≡ sixth
    at_six =
        get_or-set_other last 0 versioned 8 6 (omega arith)
        ∙ get_or-set_same sixth 0 bytes 6 (omega (arith, size))

    at_eight : get_or (set versioned 8 last) 8 0 ≡ last
    at_eight = get_or-set_same last 0 versioned 8 (omega (arith, long))

-- If /dev/urandom opens and closes, and the reads are interrupted finitely often, do not fail and give at
-- least 16 bytes in all, cut in whatever way, then node_generate_uuid returns a UUID of 16 bytes: the
-- first 16 bytes that were read, but for the high half of byte 6, which is 4, and the two high bits of
-- byte 8, which are 10.
pub generate_uuid-delivered :
    (reads : List Read)
    → All IsFlow reads
    → node_uuid_size ≤ length (delivered reads)
    → (uuid : List ℕ) × (generate_uuid (ok tt) reads (ok tt) ≡ some (ok uuid))
      × IsUuid (take node_uuid_size (delivered reads)) uuid
unfolding generate_uuid
generate_uuid-delivered reads flow enough =
    let bytes = take node_uuid_size (delivered reads) in
    (
      with_version bytes,
      rw (fill-delivered reads [] flow (omega arith) (omega (arith, enough)), generate_uuid) refl,
      with_version-IsUuid bytes (length-take node_uuid_size (delivered reads) enough),
    )
