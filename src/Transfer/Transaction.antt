-- ===== src/Transfer/Transaction.antt =====
-- transfer_protocol.c: the identifiers of transactions, from a clock that the threads of a process share.
use trabalho_distribuidos.Prelude.{
  ℕ, ◌+◌, ◌-◌, ◌%◌, ◌^◌, ◌<◌, ◌≤◌, ◌≡◌, ◌≢◌, Option, none, some, List, [], ◌∷◌, ◌++◌, arith, take,
  replicate, leb, if◌then◌else◌, All, All-map, ap,
}
use trabalho_distribuidos.Wire.{put_u32, put_u64, get_u64}
use trabalho_distribuidos.Wire.RoundTrip.{get_u64-put_u64}
use trabalho_distribuidos.Node.{NodeId}

-- The two atomic counters.
pub record Counters : Type 0 where
  pub clock : ℕ
  pub sequence : ℕ

-- `if (timestamp <= previous) timestamp = previous + 1`
unfoldable pub after_clock : ℕ → ℕ → ℕ
after_clock timestamp previous =
    if leb timestamp previous then (previous + 1) % 2 ^ 64 else timestamp

-- The rounds of the loop whose exchange fails. An exchange that fails loads the clock that it found; the
-- list holds these, the first being the one that was loaded before the loop.
unfoldable pub failed_rounds : ℕ → List ℕ → ℕ
unfolding after_clock
failed_rounds timestamp [] = timestamp
failed_rounds timestamp (previous ∷ found) = failed_rounds (after_clock timestamp previous) found

-- The bytes of the identifier.
unfoldable pub transaction_id : ℕ → Option NodeId → ℕ → List ℕ
transaction_id timestamp source sequence =
    put_u64 timestamp
    ++ ((elim source [ none ↦ replicate 4 0 | some node ↦ take 4 node ]) ++ put_u32 sequence)

-- transfer_fill_transaction_id, where `now` is the time in nanoseconds, `found` the clocks of the rounds
-- that failed, and the last round finds the clock of the state. The two counters change in two steps;
-- the sequence that the call gets is the argument `sequence`, which other calls may have moved on.
unfoldable pub fill_clock : ℕ → List ℕ → Counters → ℕ
unfolding after_clock failed_rounds
fill_clock now found counters = after_clock (failed_rounds (now % 2 ^ 64) found) counters.clock

unfoldable pub fill_transaction_id : ℕ → List ℕ → ℕ → Option NodeId → Counters → List ℕ × Counters
unfolding fill_clock transaction_id
fill_transaction_id now found sequence source counters =
    let timestamp = fill_clock now found counters in
    (
      transaction_id timestamp source ((sequence + 1) % 2 ^ 32),
      record { clock = timestamp; sequence = (counters.sequence + 1) % 2 ^ 32 },
    )

-- The identifiers of one call after another, in the order in which their exchanges succeed, with the clocks
-- between them.
pub data Calls (c : Counters) : List (List ℕ) → Counters → Type 0 where
  start : {ids : List (List ℕ)} {after : Counters} → ids ≡ [] → after ≡ c → Calls c ids after
  next :
      {mid after : Counters} {ids all : List (List ℕ)} (now : ℕ) (found : List ℕ) (sequence : ℕ)
      (source : Option NodeId)
      → Calls c ids mid
      → mid.clock < 2 ^ 64 - 1
      → after ≡ (fill_transaction_id now found sequence source mid).1
      → all ≡ (fill_transaction_id now found sequence source mid).0 ∷ ids
      → Calls c all after

-- Every identifier of the list differs from the given one.
abbrev pub Differs : List ℕ → List (List ℕ) → Type 0
Differs id = All (λ (other : List ℕ). other ≢ id)

abbrev pub AllDiffer : List (List ℕ) → Type 0
AllDiffer [] = Unit {0}
AllDiffer (id ∷ ids) = Differs id ids × AllDiffer ids

-- The clock in front of an identifier.
abbrev Older : ℕ → List (List ℕ) → Type 0
Older clock = All (λ (id : List ℕ). get_u64 id ≤ clock)

failed_rounds-lt :
    (timestamp : ℕ) (found : List ℕ) → timestamp < 2 ^ 64 → failed_rounds timestamp found < 2 ^ 64
unfolding failed_rounds after_clock
failed_rounds-lt timestamp [] h = h
failed_rounds-lt timestamp (previous ∷ found) h =
    failed_rounds-lt (after_clock timestamp previous) found (ground arith)

-- The exchange that succeeds moves the clock on.
fill_clock-bounds :
    (now : ℕ) (found : List ℕ) (c : Counters)
    → c.clock < 2 ^ 64 - 1
    → (c.clock < fill_clock now found c) × (fill_clock now found c < 2 ^ 64)
unfolding fill_clock after_clock
fill_clock-bounds now found c h =
    let small = failed_rounds-lt (now % 2 ^ 64) found (omega arith) in (ground arith, ground arith)

stamp :
    (timestamp : ℕ) (source : Option NodeId) (sequence : ℕ)
    → timestamp < 2 ^ 64
    → get_u64 (transaction_id timestamp source sequence) ≡ timestamp
unfolding transaction_id
stamp timestamp source sequence h = get_u64-put_u64 timestamp _ h

Older-weaken : (low high : ℕ) (ids : List (List ℕ)) → low ≤ high → Older low ids → Older high ids
Older-weaken low high ids less h =
    All-map (λ (id : List ℕ). get_u64 id ≤ low) (λ (id : List ℕ). get_u64 id ≤ high)
      (λ id b. omega arith) ids h

Older-Differs :
    (clock : ℕ) (id : List ℕ) (ids : List (List ℕ))
    → clock < get_u64 id
    → Older clock ids
    → Differs id ids
Older-Differs clock id ids less h =
    All-map (λ (other : List ℕ). get_u64 other ≤ clock) (λ (other : List ℕ). other ≢ id)
      (λ other old e. omega (arith, ap get_u64 e)) ids h

Calls-facts :
    (c : Counters) (ids : List (List ℕ)) (after : Counters)
    → Calls c ids after
    → AllDiffer ids × Older after.clock ids
unfolding fill_transaction_id
Calls-facts c ids after (start e h) = rw e (tt, tt)
Calls-facts c all after (next {mid} {ids = ids} now found sequence source calls small e h) =
    let (differ, old) = Calls-facts c ids mid calls in
    let (up, below) = fill_clock-bounds now found mid small in
    let timestamp = fill_clock now found mid in
    let number = (sequence + 1) % 2 ^ 32 in
    let mark = stamp timestamp source number below in
    rw (e, h)
      (
        (
          Older-Differs mid.clock (transaction_id timestamp source number) ids (omega (arith, mark))
              old,
          differ,
        ),
        (omega (arith, mark), Older-weaken mid.clock timestamp ids (omega arith) old),
      )

-- All identifiers that the threads of a process get from transfer_fill_transaction_id differ, whatever
-- the time says, however many exchanges fail and whatever these find, as long as the clock has not
-- reached its last value.
pub Calls-AllDiffer :
    (c : Counters) (ids : List (List ℕ)) (after : Counters) → Calls c ids after → AllDiffer ids
Calls-AllDiffer c ids after calls = (Calls-facts c ids after calls).0
