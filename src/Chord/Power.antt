-- ===== src/Chord/Power.antt =====
-- chord.c: chord_id_add_power, the start of a finger, is addition of 2 ^ bit around the ring.
use trabalho_distribuidos.Prelude.{
  ℕ, zero, suc, ◌+◌, ◌-◌, ◌*◌, ◌/◌, ◌%◌, ◌^◌, ◌<◌, ◌≤◌, ◌≡◌, refl, Option, none, some, List, [],
  ◌∷◌, arith, length, All, IsByte, leb, ◌==◌, if◌then◌else◌, get_or, set, drop, length-set, ap,
  Bool-cases, all_below_sound, ==_iff, length-drop, inl, inr, ◌∙◌, sym,
}
use native.Mathlib.Nat.{mod-eq_of_lt, add-mul-mod_self_right}
use trabalho_distribuidos.Prelude.Positional.{value, weight, weight-eq-pow, weight-length}
use trabalho_distribuidos.Node.{NodeId}
use trabalho_distribuidos.Node.Order.{IsNodeId}
use trabalho_distribuidos.Chord.Interval.{value-lt}

-- chord_id_add_power: CHORD_FINGER_COUNT
abbrev pub finger_count : ℕ
finger_count = 256

-- The loop: add `carry` to the byte at `byte_index`, and hand what overflows to the byte before it.
pub add_carry : ℕ → ℕ → List ℕ → List ℕ
add_carry zero carry bytes = set bytes 0 ((get_or bytes 0 0 + carry) % 256)
add_carry (suc byte_index) carry bytes =
    let sum = get_or bytes (suc byte_index) 0 + carry in
    let stored = set bytes (suc byte_index) (sum % 256) in
    let rest = add_carry byte_index (sum / 256) stored in if sum / 256 == 0 then stored else rest

-- `none` leaves the result of the caller as it was.
pub add_power : NodeId → ℕ → Option NodeId
unfolding add_carry
add_power base bit =
    if leb finger_count bit then none else some (add_carry (31 - bit / 8) (2 ^ (bit % 8)) base)

value-set :
    (xs : List ℕ) (i v : ℕ)
    → i < length xs
    → value (set xs i v) + get_or xs i 0 * weight (drop (suc i) xs)
      ≡ value xs + v * weight (drop (suc i) xs)
value-set [] i v h = absurd (omega arith)
value-set (x ∷ xs) zero v h = omega arith
value-set (x ∷ xs) (suc i) v h = omega (
  arith,
  value-set xs i v (omega arith),
  ap (λ (w : ℕ). x * w) (weight-length (set xs i v) xs (length-set xs i v)),
)

weight-drop :
    (xs : List ℕ) (i : ℕ) → i < length xs → weight (drop i xs) ≡ 256 * weight (drop (suc i) xs)
weight-drop [] i h = absurd (omega arith)
weight-drop (x ∷ xs) zero h = refl
weight-drop (x ∷ xs) (suc i) h = weight-drop xs i (omega arith)

drop-set : (xs : List ℕ) (i j v : ℕ) → i < j → drop j (set xs i v) ≡ drop j xs
drop-set xs i zero v h = absurd (omega arith)
drop-set [] i (suc j) v h = refl
drop-set (x ∷ xs) zero (suc j) v h = refl
drop-set (x ∷ xs) (suc i) (suc j) v h = drop-set xs i j v (omega arith)

weight-drop-set : (xs : List ℕ) (i j v : ℕ) → weight (drop j (set xs i v)) ≡ weight (drop j xs)
weight-drop-set xs i j v =
    weight-length _ _
      (omega (arith, length-drop j (set xs i v), length-drop j xs, length-set xs i v))

set-IsByte : (xs : List ℕ) (i v : ℕ) → v < 256 → All IsByte xs → All IsByte (set xs i v)
set-IsByte [] i v h a = tt
set-IsByte (x ∷ xs) zero v h a = (h, a.1)
set-IsByte (x ∷ xs) (suc i) v h a = (a.0, set-IsByte xs i v h a.1)

add_carry-keeps :
    (i c : ℕ) (xs : List ℕ)
    → All IsByte xs
    → All IsByte (add_carry i c xs) × (length (add_carry i c xs) ≡ length xs)
unfolding add_carry
add_carry-keeps zero c xs h = (set-IsByte xs 0 _ (omega arith) h, length-set xs 0 _)
add_carry-keeps (suc i) c xs h =
    let s = get_or xs (suc i) 0 + c in
    let stored = set-IsByte xs (suc i) (s % 256) (omega arith) h in
    let rest = add_carry-keeps i (s / 256) (set xs (suc i) (s % 256)) stored in
    elim (Bool-cases (s / 256 == 0)) [
      | inl done ↦ rw done (stored, length-set xs (suc i) _)
      | inr more ↦ rw more (rest.0, rest.1 ∙ length-set xs (suc i) _)
    ]

-- One byte: what does not fit it is carried with the weight of the byte in front.
carry_step :
    (s b c w outer old new : ℕ)
    → s ≡ b + c
    → outer ≡ 256 * w
    → new + b * w ≡ old + s % 256 * w
    → new + s / 256 * outer ≡ old + c * w
carry_step s b c w outer old new e o h =
    let split : s / 256 * 256 + s % 256 ≡ b + c = omega arith in
    omega (arith, ap (λ (t : ℕ). t * w) split, ap (λ (t : ℕ). s / 256 * t) o)

-- What is lost beyond the front byte is a multiple of the weight of the whole.
add_carry-value :
    (i c : ℕ) (xs : List ℕ)
    → i < length xs
    → (lost : ℕ) × (value (add_carry i c xs) + lost * weight xs
        ≡ value xs + c * weight (drop (suc i) xs))
unfolding add_carry
add_carry-value zero c xs h =
    let s = get_or xs 0 0 + c in
    (
      s / 256,
      carry_step s (get_or xs 0 0) c (weight (drop 1 xs)) (weight xs) (value xs) _ refl
          (weight-drop xs 0 h) (value-set xs 0 (s % 256) h),
    )
add_carry-value (suc i) c xs h =
    let s = get_or xs (suc i) 0 + c in
    let stored = set xs (suc i) (s % 256) in
    let (lost, rest) =
      add_carry-value i (s / 256) stored (omega (arith, length-set xs (suc i) (s % 256))) in
    let step : value stored + s / 256 * weight (drop (suc i) xs)
        ≡ value xs + c * weight (drop (suc (suc i)) xs) =
      carry_step s (get_or xs (suc i) 0) c (weight (drop (suc (suc i)) xs))
        (weight (drop (suc i) xs)) (value xs) (value stored) refl (weight-drop xs (suc i) h)
        (value-set xs (suc i) (s % 256) h) in
    elim (Bool-cases (s / 256 == 0)) [
      | inl done ↦ (
        0,
        rw done (
            omega
              (arith, step, ap (λ (t : ℕ). t * weight (drop (suc i) xs)) ((==_iff _ _).0 done))),
      )
      | inr more ↦ (
        lost,
        rw more (
            omega (
              arith,
              step,
              rest,
              ap (λ (t : ℕ). lost * t) (weight-length stored xs (length-set xs (suc i) _)),
              ap (λ (t : ℕ). s / 256 * t) (weight-drop-set xs (suc i) (suc i) (s % 256)),
            )),
      )
    ]

-- The byte and the bit within it, for every finger.
bit_weight : (bit : ℕ) → bit < 256 → 2 ^ (bit % 8) * 256 ^ (bit / 8) ≡ 2 ^ bit
bit_weight bit h =
    (==_iff _ _).0 (all_below_sound 256 (λ b. 2 ^ (b % 8) * 256 ^ (b / 8) == 2 ^ b) bit refl h)

mod_of_lost : (v lost w total : ℕ) → v < w → v + lost * w ≡ total → v ≡ total % w
mod_of_lost v lost w total h e = rw (← e, add-mul-mod_self_right v lost w) (sym (mod-eq_of_lt h))

-- For every finger, chord_id_add_power writes an identifier whose number is the base plus 2 ^ bit,
-- modulo 2 ^ 256; for any other bit it leaves the result alone.
pub add_power-value :
    (base : NodeId) (bit : ℕ)
    → IsNodeId base
    → (bit < 256
        → (id : NodeId) × (add_power base bit ≡ some id)
          × IsNodeId id
          × (value id ≡ (value base + 2 ^ bit) % 2 ^ 256))
      × (256 ≤ bit → add_power base bit ≡ none)
unfolding add_power
add_power-value base bit v = (
  λ h.
      let id = add_carry (31 - bit / 8) (2 ^ (bit % 8)) base in
      let (bytes, size) = add_carry-keeps (31 - bit / 8) (2 ^ (bit % 8)) base v.bytes in
      let vid : IsNodeId id = record { size = size ∙ v.size; bytes = bytes } in
      let (lost, total) =
        add_carry-value (31 - bit / 8) (2 ^ (bit % 8)) base (omega (arith, v.size)) in
      let back : length (drop (suc (31 - bit / 8)) base) ≡ bit / 8 =
        omega (arith, length-drop (suc (31 - bit / 8)) base, v.size) in
      let unit : 2 ^ (bit % 8) * weight (drop (suc (31 - bit / 8)) base) ≡ 2 ^ bit =
        rw (weight-eq-pow (drop (suc (31 - bit / 8)) base), back) (bit_weight bit h) in
      let whole : weight base ≡ 2 ^ 256 = weight-eq-pow base ∙ ap (λ (n : ℕ). 256 ^ n) v.size in
      (
        id,
        ground arith,
        vid,
        mod_of_lost (value id) lost (2 ^ 256) (value base + 2 ^ bit) (value-lt id vid)
            (rw (← whole) (total ∙ ap (λ (t : ℕ). value base + t) unit)),
      ),
  λ h. ground arith,
)
