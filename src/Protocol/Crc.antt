-- ===== src/Protocol/Crc.antt =====
-- protocol.c: the checksum, computed by zlib in pieces that fit its length type.
use trabalho_distribuidos.Prelude.{
  ℕ, zero, suc, ◌-◌, ◌%◌, ◌^◌, ◌<◌, ◌≤◌, ◌≡◌, List, [], ◌∷◌, ◌++◌, arith, length, take, drop,
  length-drop, take-append-drop, ltb, if◌then◌else◌, ap, ◌∙◌, sym,
}

-- UINT_MAX
abbrev pub uint_max : ℕ
uint_max = 2 ^ 32 - 1

-- `crc` stands for the function crc32 of zlib: the checksum so far, and the bytes to add.
module _ (crc : ℕ → List ℕ → ℕ) where
  -- The loop of crc32_update, on rounds of fuel; each round takes at least one byte.
  crc32_loop : ℕ → ℕ → List ℕ → ℕ
  crc32_loop zero result bytes = result
  crc32_loop (suc fuel) result [] = result
  crc32_loop (suc fuel) result (b ∷ bytes) =
      let size = length (b ∷ bytes) in
      let chunk = if ltb uint_max size then uint_max else size in
      crc32_loop fuel (crc result (take chunk (b ∷ bytes))) (drop chunk (b ∷ bytes))

  -- crc32_update
  unfoldable pub crc32_update : ℕ → List ℕ → ℕ
  unfolding crc32_loop
  crc32_update start bytes = crc32_loop (length bytes) start bytes % 2 ^ 32

  -- protocol_calculate_crc32
  unfoldable pub calculate_crc32 : List ℕ → ℕ
  unfolding crc32_update
  calculate_crc32 bytes = crc32_update 0 bytes

  pub calculate_crc32-lt : (bytes : List ℕ) → calculate_crc32 bytes < 2 ^ 32
  unfolding calculate_crc32 crc32_update
  calculate_crc32-lt bytes = omega arith

  module _
      (crc-append : (start : ℕ) (xs ys : List ℕ) → crc (crc start xs) ys ≡ crc start (xs ++ ys))
      (crc-nil : (start : ℕ) → crc start [] ≡ start) where
    crc32_loop-eq :
        (fuel start : ℕ) (bytes : List ℕ)
        → length bytes ≤ fuel
        → crc32_loop fuel start bytes ≡ crc start bytes
    unfolding crc32_loop
    crc32_loop-eq zero start [] h = sym (crc-nil start)
    crc32_loop-eq zero start (b ∷ bytes) h = absurd (omega arith)
    crc32_loop-eq (suc fuel) start [] h = sym (crc-nil start)
    crc32_loop-eq (suc fuel) start (b ∷ bytes) h =
        let all : List ℕ = b ∷ bytes in
        let chunk : ℕ = if ltb uint_max (length all) then uint_max else length all in
        let some_taken : 0 < chunk = ground arith in
        crc32_loop-eq fuel (crc start (take chunk all)) (drop chunk all)
          (omega (arith, length-drop chunk all))
        ∙ crc-append start (take chunk all) (drop chunk all)
        ∙ ap (crc start) (take-append-drop chunk all)

    -- Cutting the data at UINT_MAX does not show: where zlib continues a checksum over a second piece as
    -- it would over both, and leaves it for no bytes, crc32_update is one call of it on the whole data.
    pub crc32_update-eq :
        (start : ℕ) (bytes : List ℕ) → crc32_update start bytes ≡ crc start bytes % 2 ^ 32
    unfolding crc32_update
    crc32_update-eq start bytes =
        ap (λ (t : ℕ). t % 2 ^ 32) (crc32_loop-eq (length bytes) start bytes (omega arith))
