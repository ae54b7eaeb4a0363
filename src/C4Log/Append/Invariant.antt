-- ===== src/C4Log/Append/Invariant.antt =====
-- The invariant of the log: entries numbered from 1, one for each transaction, all in the file.
use trabalho_distribuidos.Prelude.{
  ℕ, ◌+◌, ◌-◌, ◌^◌, ◌<◌, ◌≡◌, inl, inr, refl, true, false, none, List, [], ◌∷◌, ◌++◌, arith, length,
  bytes_eq, bytes_eq_iff, ap, ◌∙◌, sym, All, All-append, Bool-cases,
}
use mathlib.Core.List.{append_assoc, append-nil}
use trabalho_distribuidos.C4Log.{Entry, C4Log, find_entry, last_version, next_index, next_version}
use trabalho_distribuidos.C4Log.Codec.{entry_bytes}
use trabalho_distribuidos.C4Log.Codec.RoundTrip.{Fits}
use trabalho_distribuidos.C4Log.Append.{is_well_formed}

-- The bytes of a table of entries.
unfoldable pub table_bytes : List Entry → List ℕ
table_bytes [] = []
table_bytes (entry ∷ entries) = entry_bytes entry ++ table_bytes entries

-- Index and version count up from `n`.
abbrev pub Numbered : ℕ → List Entry → Type 0
Numbered n [] = Unit {0}
Numbered n (entry ∷ entries) = (entry.index ≡ n) × (entry.version ≡ n) × Numbered (n + 1) entries

-- No entry of the list is of the transaction.
abbrev pub Fresh : List ℕ → List Entry → Type 0
Fresh id = All (λ (entry : Entry). bytes_eq entry.transaction_id id ≡ false)

abbrev pub Distinct : List Entry → Type 0
Distinct [] = Unit {0}
Distinct (entry ∷ entries) = Fresh entry.transaction_id entries × Distinct entries

pub record IsGood (crc : ℕ → List ℕ → ℕ) (entry : Entry) : Type 0 where
  pub fits : Fits entry
  pub formed : is_well_formed crc entry ≡ true

pub record Inv (crc : ℕ → List ℕ → ℕ) (log : C4Log) : Type 0 where
  pub numbered : Numbered 1 log.entries
  pub distinct : Distinct log.entries
  pub good : All (IsGood crc) log.entries
  pub few : length log.entries < 2 ^ 64 - 1
  pub synced : log.file ≡ table_bytes log.entries

pub table_bytes-append :
    (xs ys : List Entry) → table_bytes (xs ++ ys) ≡ table_bytes xs ++ table_bytes ys
unfolding table_bytes
table_bytes-append [] ys = refl
table_bytes-append (x ∷ xs) ys =
    rw (table_bytes-append xs ys)
      (sym (append_assoc (entry_bytes x) (table_bytes xs) (table_bytes ys)))

pub table_bytes-snoc :
    (xs : List Entry) (e : Entry) → table_bytes (xs ++ e ∷ []) ≡ table_bytes xs ++ entry_bytes e
table_bytes-snoc xs e =
    table_bytes-append xs (e ∷ [])
    ∙ ap (◌++◌ (table_bytes xs)) (unfold table_bytes in append-nil (entry_bytes e))

pub Numbered-snoc :
    (n : ℕ) (xs : List Entry) (e : Entry)
    → Numbered n xs
    → e.index ≡ n + length xs
    → e.version ≡ n + length xs
    → Numbered n (xs ++ e ∷ [])
Numbered-snoc n [] e h i v = (omega arith, omega arith, tt)
Numbered-snoc n (x ∷ xs) e h i v =
    (h.0, h.1, Numbered-snoc (n + 1) xs e h.2 (omega arith) (omega arith))

pub bytes_eq_comm : (xs ys : List ℕ) → bytes_eq xs ys ≡ false → bytes_eq ys xs ≡ false
bytes_eq_comm xs ys h = elim (Bool-cases (bytes_eq ys xs)) [
  | inl e ↦ cc ((bytes_eq_iff xs ys).1 (sym ((bytes_eq_iff ys xs).0 e)))
  | inr e ↦ e
]

pub Distinct-snoc :
    (xs : List Entry) (e : Entry)
    → Distinct xs
    → Fresh e.transaction_id xs
    → Distinct (xs ++ e ∷ [])
Distinct-snoc [] e h f = (tt, tt)
Distinct-snoc (x ∷ xs) e h f = (
  All-append (λ (y : Entry). bytes_eq y.transaction_id x.transaction_id ≡ false) xs (e ∷ []) h.0
      (bytes_eq_comm x.transaction_id e.transaction_id f.0, tt),
  Distinct-snoc xs e h.1 f.1,
)

pub find_entry-Fresh : (xs : List Entry) (id : List ℕ) → find_entry xs id ≡ none → Fresh id xs
unfolding find_entry
find_entry-Fresh [] id h = tt
find_entry-Fresh (x ∷ xs) id h = elim (Bool-cases (bytes_eq x.transaction_id id)) [
  | inl hit ↦ cc (h, hit)
  | inr miss ↦ (miss, find_entry-Fresh xs id (rw miss at h))
]

pub Fresh-find_entry : (xs : List Entry) (id : List ℕ) → Fresh id xs → find_entry xs id ≡ none
unfolding find_entry
Fresh-find_entry [] id h = refl
Fresh-find_entry (x ∷ xs) id h = rw h.0 (Fresh-find_entry xs id h.1)

pub last_version-Numbered :
    (n : ℕ) (x : Entry) (xs : List Entry)
    → Numbered n (x ∷ xs)
    → last_version (x ∷ xs) ≡ n + length xs
unfolding last_version
last_version-Numbered n x [] h = omega arith
last_version-Numbered n x (y ∷ ys) h = omega (arith, last_version-Numbered (n + 1) y ys h.2)

-- What the next entry must carry, in a log that keeps its invariant.
pub next-Inv :
    (xs : List Entry)
    → Numbered 1 xs
    → length xs < 2 ^ 64 - 1
    → (next_index xs ≡ length xs + 1) × (next_version xs ≡ length xs + 1)
unfolding next_index next_version
next-Inv [] h f = (refl, refl)
next-Inv (x ∷ xs) h f = (omega arith, omega (arith, last_version-Numbered 1 x xs h))
