-- ===== src/Transport/Base64/Bounds.antt =====
-- Nothing is written behind the end of a buffer.
use vnano_msg.Common.{ℕ, ◌+◌, ◌^◌, ◌≤◌, ◌<◌, ◌≡◌, List, Reply, ok, err, enobufs, length, All}
use vnano_msg.Transport.Base64.{Written}

-- Each write is within a buffer of `n`.
abbrev pub AreWithin : ℕ → List (ℕ × ℕ) → Type 0
AreWithin n ws = All (λ (w : ℕ × ℕ). w.0 < n) ws

-- A count that is returned is that of characters in the buffer, and a call fails with ENOBUFS only,
-- when `k` writes have filled what the index `io` leaves.
abbrev pub EndsWithin : ℕ → ℕ → ℕ → Reply ℕ → Type 0
EndsWithin io n k (ok count) = count ≤ n
EndsWithin io n k (err e) = (e ≡ enobufs) × (io + k ≡ n) × (n < 2 ^ 32)

abbrev Fits : ℕ → ℕ → Written → Type 0
Fits io n r = AreWithin n r.writes × EndsWithin io n (length r.writes) r.rc

-- What a call does with a buffer of `n`: it writes within it, and comes back with a count of at most
-- `n`, or with ENOBUFS once `n` characters were written.
abbrev pub RespectsRoom : ℕ → Written → Type 0
RespectsRoom n r = AreWithin n r.writes × EndsWithin 0 n (length r.writes) r.rc
