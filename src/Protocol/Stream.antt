-- ===== src/Protocol/Stream.antt =====
-- network.c: reading an exact number of bytes from a connection.
pub mod Exact
use trabalho_distribuidos.Prelude.{
  ℕ, zero, suc, ◌+◌, ◌-◌, ◌≤◌, ◌<◌, ◌≡◌, refl, Bool, true, false, Option, none, some, List, [], ◌∷◌,
  ◌++◌, length, take, drop, leb, if◌then◌else◌, arith, ap, ◌∙◌, sym, Bool-cases, inl, inr,
  length-append, length-drop, take-past, take-append-drop,
}

-- What the calls of recv will find: bytes that arrive together, then the end of the stream, or an
-- error or a deadline. A call that was interrupted, or that waits for bytes, leaves no trace.
pub data Stream : Type 0 where
  ended : Stream
  failed : Stream
  chunk : (byte : ℕ) (bytes : List ℕ) (rest : Stream) → Stream

-- Bytes in front of what comes later.
abbrev pub before : List ℕ → Stream → Stream
before [] stream = stream
before (byte ∷ bytes) stream = chunk byte bytes stream

abbrev pub prepend : List ℕ → Option (List ℕ) × Stream → Option (List ℕ) × Stream
prepend got (none, stream) = (none, stream)
prepend got (some bytes, stream) = (some (got ++ bytes), stream)

-- The loop of network_recv_exact with the bytes that are missing: `none` for -1, else what was read.
unfoldable pub recv_exact : Stream → ℕ → Option (List ℕ) × Stream
recv_exact stream zero = (some [], stream)
recv_exact ended (suc missing) = (some [], ended)
recv_exact failed (suc missing) = (none, failed)
recv_exact (chunk byte bytes rest) (suc missing) =
    let later = prepend (byte ∷ bytes) (recv_exact rest (missing - length bytes)) in
    if leb (length bytes) missing
    then later
    else (some (take (suc missing) (byte ∷ bytes)), before (drop (suc missing) (byte ∷ bytes)) rest)

-- All bytes before the end or the error.
unfoldable pub contents : Stream → List ℕ
contents ended = []
contents failed = []
contents (chunk byte bytes rest) = (byte ∷ bytes) ++ contents rest
