-- ===== src/Transfer/Lookup/Request.antt =====
-- A request for a file, by identifier or by name, survives its encoding.
use trabalho_distribuidos.Prelude.{
  ℕ, zero, suc, ◌+◌, ◌*◌, ◌^◌, ◌<◌, ◌≡◌, refl, true, false, not, ◌||◌, Option, none, some, List, [],
  ◌∷◌, ◌++◌, arith, length, take, replicate, ◌==◌, ==_iff, ltb, leb, if◌then◌else◌, Result, ok, err,
  ebadmsg, ◌>>=◌, ap, ◌∙◌, sym, length-append, take_ge, Bool-cases, Option-cases, inl, inr, ◌⊎◌,
  All, IsDigit, Spells, Spells-digits, Reads, evaluate-Reads,
}
use trabalho_distribuidos.Wire.{put_u16}
use trabalho_distribuidos.Wire.RoundTrip.{get_u16-put_u16, length-put_u16}
use trabalho_distribuidos.Metadata.{ObjectId, metadata_name_size}
use trabalho_distribuidos.Transfer.{object_id_size, selector_object_id, selector_name, has_byte}
use trabalho_distribuidos.Transfer.Lookup.{
  digit, pair_of, pairs, object_id_from_hex, encode_lookup_request, Selector, accept_selector,
  decode_lookup_request,
}

pair_of-length :
    (high low : Option ℕ) (rest : Option (List ℕ)) (id : List ℕ) (n : ℕ)
    → ((bytes : List ℕ) → rest ≡ some bytes → length bytes ≡ n)
    → pair_of high low rest ≡ some id
    → length id ≡ suc n
pair_of-length none low rest id n ih h = cc
pair_of-length (some high) none rest id n ih h = cc
pair_of-length (some high) (some low) none id n ih h = cc
pair_of-length (some high) (some low) (some bytes) id n ih h =
    let k : (high * 16 + low) ∷ bytes ≡ id = cc in ap length (sym k) ∙ ap suc (ih bytes refl)

pairs-length :
    (text : List ℕ) (n : ℕ) (id : List ℕ)
    → length text ≡ n * 2
    → pairs text ≡ some id
    → length id ≡ n
unfolding pairs
pairs-length [] zero id e h = let k : [] ≡ id = cc in ap length (sym k)
pairs-length [] (suc n) id e h = absurd (omega arith)
pairs-length (a ∷ []) n id e h = absurd (omega arith)
pairs-length (a ∷ b ∷ text) zero id e h = absurd (omega arith)
pairs-length (a ∷ b ∷ text) (suc n) id e h =
    pair_of-length (digit a) (digit b) (pairs text) id n
      (λ bytes k. pairs-length text n bytes (omega arith) k) h

object_id_from_hex-length :
    (text : List ℕ) (id : ObjectId) → object_id_from_hex text ≡ some id → length id ≡ object_id_size
unfolding object_id_from_hex
object_id_from_hex-length text id h = elim (Bool-cases (length text == object_id_size * 2)) [
  | inl fits ↦
      pairs-length text object_id_size id ((==_iff (length text) (object_id_size * 2)).0 fits)
        (rw fits at h)
  | inr other ↦ cc (rw other at h)
]

digit-Reads : Reads digit
unfolding digit
digit-Reads = evaluate-Reads digit refl refl (λ c v e. ground arith)

pair_of-some :
    (high low : Option ℕ) (rest : Option (List ℕ)) (id : List ℕ)
    → pair_of high low rest ≡ some id
    → (h l : ℕ) × (bytes : List ℕ) × (high ≡ some h)
      × (low ≡ some l)
      × (rest ≡ some bytes)
      × (id ≡ (h * 16 + l) ∷ bytes)
pair_of-some none low rest id e = cc
pair_of-some (some h) none rest id e = cc
pair_of-some (some h) (some l) none id e = cc
pair_of-some (some h) (some l) (some bytes) id e = (h, l, bytes, refl, refl, refl, cc)

pairs-Spells :
    (n : ℕ) (text id : List ℕ) → length text ≡ n * 2 → pairs text ≡ some id → Spells text id
unfolding pairs
pairs-Spells zero [] id e h = let k : [] ≡ id = cc in rw⁻¹ k tt
pairs-Spells zero (c ∷ text) id e h = absurd (omega arith)
pairs-Spells (suc n) [] id e h = absurd (omega arith)
pairs-Spells (suc n) (c ∷ []) id e h = absurd (omega arith)
pairs-Spells (suc n) (c ∷ d ∷ text) id e h =
    let (u, l, bytes, high, low, rest, same) = pair_of-some _ _ _ id h in
    rw same (
      (u, l, digit-Reads.0 c u high, digit-Reads.0 d l low, refl),
      pairs-Spells n text bytes (omega arith) rest,
    )

pairs_total :
    (n : ℕ) (text : List ℕ)
    → length text ≡ n * 2
    → All IsDigit text
    → (id : List ℕ) × (pairs text ≡ some id)
unfolding pairs
pairs_total zero [] e h = ([], refl)
pairs_total zero (c ∷ text) e h = absurd (omega arith)
pairs_total (suc n) [] e h = absurd (omega arith)
pairs_total (suc n) (c ∷ []) e h = absurd (omega arith)
pairs_total (suc n) (c ∷ d ∷ text) e ((u, first), ((l, second), digits)) =
    let high = digit-Reads.1 c u first in
    let low = digit-Reads.1 d l second in
    let (bytes, rest) = pairs_total n text (omega arith) digits in
    ((u * 16 + l) ∷ bytes, rw (high, low, rest))

-- The text of an identifier: 64 hexadecimal digits.
abbrev pub IsHexText : List ℕ → Type 0
IsHexText text = (length text ≡ 64) × All IsDigit text

-- What a request asks for: the identifier that the selector spells, if it is the text of one, and
-- otherwise the selector as a name.
abbrev pub IsAsked : List ℕ → Selector → Type 0
IsAsked selector asked =
    (IsHexText selector
      × (asked.kind ≡ selector_object_id)
      × Spells selector asked.id
      × (asked.name ≡ []))
    ⊎ ((¬ IsHexText selector)
        × (asked.kind ≡ selector_name)
        × (asked.id ≡ replicate object_id_size 0)
        × (asked.name ≡ selector))

spelt-Spells :
    (text : List ℕ) (id : ObjectId)
    → object_id_from_hex text ≡ some id
    → (length text ≡ 64) × Spells text id
unfolding object_id_from_hex
spelt-Spells text id h = elim (Bool-cases (length text == object_id_size * 2)) [
  | inl fits ↦
      let size = (==_iff (length text) (object_id_size * 2)).0 fits in
      (size, pairs-Spells object_id_size text id size (rw fits at h))
  | inr other ↦ cc (rw other at h)
]

not_spelt : (text : List ℕ) → object_id_from_hex text ≡ none → ¬ IsHexText text
unfolding object_id_from_hex
not_spelt text h (size, digits) =
    let (id, e) = pairs_total object_id_size text size digits in
    let fits = (==_iff (length text) (object_id_size * 2)).1 size in
    absurd (let k = rw (fits, object_id_from_hex, e) at h in cc)

decodes :
    (kind size : ℕ) (text : List ℕ)
    → (kind == selector_object_id || kind == selector_name) ≡ true
    → length text ≡ size
    → size < 2 ^ 16
    → decode_lookup_request (kind ∷ (put_u16 size ++ text)) ≡ accept_selector kind size text
unfolding decode_lookup_request put_u16
decodes kind size text known e small =
    let n = get_u16-put_u16 size text small in
    let long : ltb (length (kind ∷ (put_u16 size ++ text))) 3 ≡ false =
      ground (arith, length-append (put_u16 size) text, length-put_u16 size) in
    let good : (not (kind == selector_object_id || kind == selector_name)
          || not (3 + size == length (kind ∷ (put_u16 size ++ text))))
        ≡ false =
      ground (arith, length-append (put_u16 size) text, length-put_u16 size) in
    rw long (
      ap
        (λ (m : ℕ).
          if not (kind == selector_object_id || kind == selector_name)
            || not (3 + m == length (kind ∷ (put_u16 size ++ text)))
          then err ebadmsg
          else accept_selector kind m text)
        n
      ∙ rw good refl)

-- For a selector of 1 to 255 bytes without NUL and slash, transfer_decode_lookup_request accepts the bytes
-- of transfer_encode_lookup_request. What it gives is the identifier that the selector spells, two digits
-- of either case for each byte, if the selector has 64 characters that are all hexadecimal digits, and the
-- selector as a name, with an identifier of zeros, if not.
pub decode_lookup_request-encode_lookup_request :
    (selector : List ℕ)
    → 0 < length selector
    → length selector < metadata_name_size
    → has_byte 0 selector ≡ false
    → has_byte b'/' selector ≡ false
    → (asked : Selector) × ((encode_lookup_request selector >>= decode_lookup_request) ≡ ok asked)
      × IsAsked selector asked
unfolding encode_lookup_request accept_selector
decode_lookup_request-encode_lookup_request selector some' short no_nul no_slash =
    elim (Option-cases (object_id_from_hex selector)) [
      | inr (id, spelt) ↦
          let size = object_id_from_hex-length selector id spelt in
          let sent : encode_lookup_request selector
              ≡ ok (selector_object_id ∷ (put_u16 object_id_size ++ id)) =
            rw (spelt, encode_lookup_request) refl in
          let (fits, spells) = spelt-Spells selector id spelt in
          let asked : Selector = record { kind = selector_object_id; id = id; name = [] } in
          let received : (encode_lookup_request selector >>= decode_lookup_request) ≡ ok asked =
            ap (λ (r : Result (List ℕ)). r >>= decode_lookup_request) sent
            ∙ decodes selector_object_id object_id_size id refl size (omega arith)
            ∙ ap (λ (i : ObjectId). ok (record { kind = selector_object_id; id = i; name = [] }))
                (take_ge object_id_size id (omega (arith, size))) in
          (asked, received, inl ((fits, Spells-digits selector id spells), refl, spells, refl))
      | inl other ↦
          let whole : take (length selector) selector ≡ selector =
            take_ge (length selector) selector (omega arith) in
          let fits : (length selector == 0 || leb metadata_name_size (length selector)) ≡ false =
            ground arith in
          let good : (length selector == 0
                || (leb metadata_name_size (length selector)
                    || (has_byte 0 selector || has_byte b'/' selector)))
              ≡ false =
            ground (arith, no_nul, no_slash) in
          let sent : encode_lookup_request selector
              ≡ ok (selector_name ∷ (put_u16 (length selector) ++ selector)) =
            rw (other, encode_lookup_request, fits) refl in
          let asked : Selector = record {
            kind = selector_name;
            id = replicate object_id_size 0;
            name = selector;
          } in
          let received : (encode_lookup_request selector >>= decode_lookup_request) ≡ ok asked =
            ap (λ (r : Result (List ℕ)). r >>= decode_lookup_request) sent
            ∙ decodes selector_name (length selector) selector refl refl (omega arith)
            ∙ ap
                (λ (name : List ℕ).
                  if length selector == 0
                    || (leb metadata_name_size (length selector)
                        || (has_byte 0 name || has_byte b'/' name))
                  then err ebadmsg
                  else ok (record {
                    kind = selector_name;
                    id = replicate object_id_size 0;
                    name = name;
                  }))
                whole
            ∙ rw good refl in
          (asked, received, inr (not_spelt selector other, refl, refl, refl))
    ]
