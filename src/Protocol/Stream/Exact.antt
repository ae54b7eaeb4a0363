-- ===== src/Protocol/Stream/Exact.antt =====
-- network_recv_exact reads the same bytes however they were cut on the way.
use trabalho_distribuidos.Prelude.{
  ℕ, zero, suc, ◌+◌, ◌-◌, ◌≤◌, ◌≡◌, refl, some, List, [], ◌∷◌, ◌++◌, length, take, drop, leb, arith,
  ap, ◌∙◌, sym, Bool-cases, inl, inr, length-append, take-past, drop-past,
}
use trabalho_distribuidos.Protocol.Stream.{
  Stream, ended, failed, chunk, before, recv_exact, contents,
}

take-inside : (n : ℕ) (xs ys : List ℕ) → n ≤ length xs → take n (xs ++ ys) ≡ take n xs
take-inside zero xs ys h = refl
take-inside (suc n) [] ys h = absurd (omega arith)
take-inside (suc n) (x ∷ xs) ys h = ap (◌∷◌ x) (take-inside n xs ys (omega arith))

drop-inside : (n : ℕ) (xs ys : List ℕ) → n ≤ length xs → drop n (xs ++ ys) ≡ drop n xs ++ ys
drop-inside zero xs ys h = refl
drop-inside (suc n) [] ys h = absurd (omega arith)
drop-inside (suc n) (x ∷ xs) ys h = drop-inside n xs ys (omega arith)

contents-before : (xs : List ℕ) (s : Stream) → contents (before xs s) ≡ xs ++ contents s
unfolding contents
contents-before [] s = refl
contents-before (x ∷ xs) s = refl

-- With enough bytes on their way, the call succeeds, reads the first ones and leaves the others.
pub recv_exact-contents :
    (stream : Stream) (size : ℕ)
    → size ≤ length (contents stream)
    → (rest : Stream) × (recv_exact stream size ≡ (some (take size (contents stream)), rest))
      × (contents rest ≡ drop size (contents stream))
unfolding recv_exact contents
recv_exact-contents stream zero h = (stream, refl, refl)
recv_exact-contents ended (suc m) h = absurd (omega arith)
recv_exact-contents failed (suc m) h = absurd (omega arith)
recv_exact-contents (chunk b bs later) (suc m) h = elim (Bool-cases (leb (length bs) m)) [
  | inl over ↦
      let (rest, read, left) =
        recv_exact-contents later (m - length bs)
          (ground (arith, length-append (b ∷ bs) (contents later))) in
      let right : length (b ∷ bs) + (m - length bs) ≡ suc m = ground arith in
      let first = take-past (b ∷ bs) (contents later) (suc m) (m - length bs) right in
      let second = drop-past (b ∷ bs) (contents later) (suc m) (m - length bs) right in
      (rest, rw (over, read) (ap (λ (t : List ℕ). (some t, rest)) (sym first)), left ∙ sym second)
  | inr inside ↦
      let short : suc m ≤ length (b ∷ bs) = ground arith in
      let rest : Stream = before (drop (suc m) (b ∷ bs)) later in
      (
        rest,
        rw inside (
            ap (λ (t : List ℕ). (some t, rest))
              (sym (take-inside (suc m) (b ∷ bs) (contents later) short))),
        contents-before (drop (suc m) (b ∷ bs)) later
            ∙ sym (drop-inside (suc m) (b ∷ bs) (contents later) short),
      )
]
