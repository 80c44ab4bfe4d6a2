-- ===== src/Core/Sock/Kept.antt =====
-- The options of a socket stay in their bounds.
use vnano_msg.Common.{
  ℕ, ◌≡◌, refl, ◌⊎◌, inl, inr, Bool, true, false, ◌&&◌, ◌||◌, ok, leb, ◌==◌, arith, Bool-cases,
}
use vnano_msg.Protocol.Pipeline.{valid_priority}
use vnano_msg.Core.Sock.{
  ℤ, pos, negsuc, is_pos, from_minus_one, Options, init, Name, store, set, setopt, name_of, get,
}

-- The options that a call of the application may set, from the defaults on.
pub data Reach : Options → Type 0 where
  start : Reach init
  next : {o : Options} (option size : ℕ) (v : ℤ) → Reach o → Reach ((setopt option size v o).1)

pub record IsInRange (o : Options) : Type 0 where
  pub sndprio : (p : ℕ) × (o.sndprio ≡ pos p) × (valid_priority p ≡ true)
  pub rcvprio : (p : ℕ) × (o.rcvprio ≡ pos p) × (valid_priority p ≡ true)
  pub maxttl : (t : ℕ) × (o.maxttl ≡ pos t) × (leb 1 t && leb t 255 ≡ true)

store-IsInRange :
    (b : Bool) (changed o : Options)
    → (b ≡ true → IsInRange changed)
    → IsInRange o
    → IsInRange ((store b changed o).1)
store-IsInRange true changed o h k = h refl
store-IsInRange false changed o h k = k

is_pos-true : (f : ℕ → Bool) (v : ℤ) → is_pos f v ≡ true → (n : ℕ) × (v ≡ pos n) × (f n ≡ true)
is_pos-true f (pos n) h = (n, refl, h)
is_pos-true f (negsuc n) h = absurd (ground arith)

set-IsInRange : (n : Name) (v : ℤ) (o : Options) → IsInRange o → IsInRange ((set n v o).1)
unfolding set
set-IsInRange Name.linger v o k = k
set-IsInRange (Name.other n) v o k = k
set-IsInRange Name.sndtimeo v o k = record {
  sndprio = k.sndprio;
  rcvprio = k.rcvprio;
  maxttl = k.maxttl;
}
set-IsInRange Name.rcvtimeo v o k = record {
  sndprio = k.sndprio;
  rcvprio = k.rcvprio;
  maxttl = k.maxttl;
}
set-IsInRange Name.sndbuf v o k =
    store-IsInRange (is_pos (leb 1) v) (record o { sndbuf = v }) o
      (λ h. record { sndprio = k.sndprio; rcvprio = k.rcvprio; maxttl = k.maxttl }) k
set-IsInRange Name.rcvbuf v o k =
    store-IsInRange (is_pos (leb 1) v) (record o { rcvbuf = v }) o
      (λ h. record { sndprio = k.sndprio; rcvprio = k.rcvprio; maxttl = k.maxttl }) k
set-IsInRange Name.reconnect_ivl v o k =
    store-IsInRange (is_pos (λ n. true) v) (record o { reconnect_ivl = v }) o
      (λ h. record { sndprio = k.sndprio; rcvprio = k.rcvprio; maxttl = k.maxttl }) k
set-IsInRange Name.reconnect_ivl_max v o k =
    store-IsInRange (is_pos (λ n. true) v) (record o { reconnect_ivl_max = v }) o
      (λ h. record { sndprio = k.sndprio; rcvprio = k.rcvprio; maxttl = k.maxttl }) k
set-IsInRange Name.ipv4only v o k =
    store-IsInRange (is_pos (λ n. n == 0 || n == 1) v) (record o { ipv4only = v }) o
      (λ h. record { sndprio = k.sndprio; rcvprio = k.rcvprio; maxttl = k.maxttl }) k
set-IsInRange Name.rcvmaxsize v o k =
    store-IsInRange (from_minus_one v) (record o { rcvmaxsize = v }) o
      (λ h. record { sndprio = k.sndprio; rcvprio = k.rcvprio; maxttl = k.maxttl }) k
set-IsInRange Name.sndprio v o k =
    store-IsInRange (is_pos (λ n. leb 1 n && leb n 16) v) (record o { sndprio = v }) o
      (λ h. record { sndprio = is_pos-true _ v h; rcvprio = k.rcvprio; maxttl = k.maxttl }) k
set-IsInRange Name.rcvprio v o k =
    store-IsInRange (is_pos (λ n. leb 1 n && leb n 16) v) (record o { rcvprio = v }) o
      (λ h. record { sndprio = k.sndprio; rcvprio = is_pos-true _ v h; maxttl = k.maxttl }) k
set-IsInRange Name.maxttl v o k =
    store-IsInRange (is_pos (λ n. leb 1 n && leb n 255) v) (record o { maxttl = v }) o
      (λ h. record { sndprio = k.sndprio; rcvprio = k.rcvprio; maxttl = is_pos-true _ v h }) k

-- Whatever options the application sets, to whatever values: the priorities of a socket stay from 1
-- to 16, so that the assertions of the socket types on the priorities of a pipe hold, and the number
-- of hops that a request may take stays from 1 to 255.
pub options-IsInRange : (o : Options) → Reach o → IsInRange o
unfolding init setopt
options-IsInRange o start = record {
  sndprio = (8, refl, refl);
  rcvprio = (8, refl, refl);
  maxttl = (8, refl, refl);
}
options-IsInRange o (next {o = q} option size v r) = elim (Bool-cases (size == 4)) [
  | inl int ↦ rw int (set-IsInRange (name_of option) v q (options-IsInRange q r))
  | inr short ↦ rw short (options-IsInRange q r)
]

stored :
    (b : Bool) (changed o : Options) (n : Name) (v : ℤ)
    → (store b changed o).0 ≡ ok tt
    → get n changed ≡ ok v
    → get n ((store b changed o).1) ≡ ok v
stored true changed o n v h e = e
stored false changed o n v h e = absurd (ground (arith, h))

-- An option that is set without an error is read back, unless it is NN_LINGER, which is ignored.
pub get-set :
    (n : Name) (v : ℤ) (o : Options)
    → (set n v o).0 ≡ ok tt
    → (n ≡ Name.linger) ⊎ (get n ((set n v o).1) ≡ ok v)
unfolding set get
get-set Name.linger v o h = inl refl
get-set (Name.other n) v o h = absurd (ground (arith, h))
get-set Name.sndtimeo v o h = inr refl
get-set Name.rcvtimeo v o h = inr refl
get-set Name.sndbuf v o h =
    inr (stored (is_pos (leb 1) v) (record o { sndbuf = v }) o Name.sndbuf v h refl)
get-set Name.rcvbuf v o h =
    inr (stored (is_pos (leb 1) v) (record o { rcvbuf = v }) o Name.rcvbuf v h refl)
get-set Name.reconnect_ivl v o h =
    inr
      (stored (is_pos (λ n. true) v) (record o { reconnect_ivl = v }) o Name.reconnect_ivl v h refl)
get-set Name.reconnect_ivl_max v o h = inr (
    stored (is_pos (λ n. true) v) (record o { reconnect_ivl_max = v }) o Name.reconnect_ivl_max v h
      refl)
get-set Name.sndprio v o h = inr (
    stored (is_pos (λ n. leb 1 n && leb n 16) v) (record o { sndprio = v }) o Name.sndprio v h refl)
get-set Name.rcvprio v o h = inr (
    stored (is_pos (λ n. leb 1 n && leb n 16) v) (record o { rcvprio = v }) o Name.rcvprio v h refl)
get-set Name.ipv4only v o h =
    inr (
      stored (is_pos (λ n. n == 0 || n == 1) v) (record o { ipv4only = v }) o Name.ipv4only v h
        refl)
get-set Name.rcvmaxsize v o h =
    inr (stored (from_minus_one v) (record o { rcvmaxsize = v }) o Name.rcvmaxsize v h refl)
get-set Name.maxttl v o h =
    inr (
      stored (is_pos (λ n. leb 1 n && leb n 255) v) (record o { maxttl = v }) o Name.maxttl v h
        refl)
