-- ===== src/Core/Sock.antt =====
-- core/sock.c: the options of a socket at the level NN_SOL_SOCKET. The options of the protocols and
-- of the transports are functions of their own.
pub mod Kept
use vnano_msg.Common.{
  ℕ, zero, suc, ◌*◌, ◌+◌, Bool, true, false, not, ◌&&◌, ◌||◌, Option, none, some, List, [], Reply,
  ok, err, einval, enoprotoopt, leb, ltb, ◌==◌, if◌then◌else◌,
}

-- An `int`
pub data ℤ : Type 0 where
  pos : ℕ → ℤ
  negsuc : ℕ → ℤ

-- A test on a number that is not negative; a negative one fails it.
abbrev pub is_pos : (ℕ → Bool) → ℤ → Bool
is_pos f (pos n) = f n
is_pos f (negsuc n) = false

-- `val >= -1`
abbrev pub from_minus_one : ℤ → Bool
from_minus_one (pos n) = true
from_minus_one (negsuc n) = n == 0

-- The fields of `struct nn_sock` that hold options.
pub record Options : Type 0 where
  pub sndbuf : ℤ
  pub rcvbuf : ℤ
  pub rcvmaxsize : ℤ
  pub sndtimeo : ℤ
  pub rcvtimeo : ℤ
  pub reconnect_ivl : ℤ
  pub reconnect_ivl_max : ℤ
  pub sndprio : ℤ
  pub rcvprio : ℤ
  pub ipv4only : ℤ
  pub maxttl : ℤ

-- The defaults of `nn_sock_init`.
unfoldable pub init : Options
init = record {
  sndbuf = pos 131072;
  rcvbuf = pos 131072;
  rcvmaxsize = pos 1048576;
  sndtimeo = negsuc 0;
  rcvtimeo = negsuc 0;
  reconnect_ivl = pos 100;
  reconnect_ivl_max = pos 0;
  sndprio = pos 8;
  rcvprio = pos 8;
  ipv4only = pos 1;
  maxttl = pos 8;
}

-- The options of type `int` that are kept, and the others.
pub data Name : Type 0 where
  linger sndbuf rcvbuf sndtimeo rcvtimeo reconnect_ivl reconnect_ivl_max sndprio rcvprio ipv4only
        rcvmaxsize maxttl :
      Name
  other : ℕ → Name

-- NN_LINGER and the rest
unfoldable pub name_of : ℕ → Name
name_of n =
    if n == 1
    then linger
    else if n == 2
    then sndbuf
    else if n == 3
    then rcvbuf
    else if n == 4
    then sndtimeo
    else if n == 5
    then rcvtimeo
    else if n == 6
    then reconnect_ivl
    else if n == 7
    then reconnect_ivl_max
    else if n == 8
    then sndprio
    else if n == 9
    then rcvprio
    else if n == 14
    then ipv4only
    else if n == 16
    then rcvmaxsize
    else if n == 17
    then maxttl
    else other n

-- A value that passes its test is stored, another one refused.
abbrev pub store : Bool → Options → Options → Reply (Unit {0}) × Options
store passes changed o = if passes then (ok tt, changed) else (err einval, o)

-- The cases of `nn_sock_setopt_inner`.
unfoldable pub set : Name → ℤ → Options → Reply (Unit {0}) × Options
set linger v o = (ok tt, o)
set sndbuf v o = store (is_pos (leb 1) v) (record o { sndbuf = v }) o
set rcvbuf v o = store (is_pos (leb 1) v) (record o { rcvbuf = v }) o
set sndtimeo v o = (ok tt, record o { sndtimeo = v })
set rcvtimeo v o = (ok tt, record o { rcvtimeo = v })
set reconnect_ivl v o = store (is_pos (λ n. true) v) (record o { reconnect_ivl = v }) o
set reconnect_ivl_max v o = store (is_pos (λ n. true) v) (record o { reconnect_ivl_max = v }) o
set sndprio v o = store (is_pos (λ n. leb 1 n && leb n 16) v) (record o { sndprio = v }) o
set rcvprio v o = store (is_pos (λ n. leb 1 n && leb n 16) v) (record o { rcvprio = v }) o
set ipv4only v o = store (is_pos (λ n. n == 0 || n == 1) v) (record o { ipv4only = v }) o
set rcvmaxsize v o = store (from_minus_one v) (record o { rcvmaxsize = v }) o
set maxttl v o = store (is_pos (λ n. leb 1 n && leb n 255) v) (record o { maxttl = v }) o
set (other n) v o = (err enoprotoopt, o)

-- At the level NN_SOL_SOCKET, but for NN_SOCKET_NAME. The value is its size and the number that
-- it holds.
unfoldable pub setopt : ℕ → ℕ → ℤ → Options → Reply (Unit {0}) × Options
setopt option size v o = if size == 4 then set (name_of option) v o else (err einval, o)

-- The cases of `nn_sock_getopt_inner` for these options.
unfoldable pub get : Name → Options → Reply ℤ
get linger o = ok (pos 0)
get sndbuf o = ok o.sndbuf
get rcvbuf o = ok o.rcvbuf
get sndtimeo o = ok o.sndtimeo
get rcvtimeo o = ok o.rcvtimeo
get reconnect_ivl o = ok o.reconnect_ivl
get reconnect_ivl_max o = ok o.reconnect_ivl_max
get sndprio o = ok o.sndprio
get rcvprio o = ok o.rcvprio
get ipv4only o = ok o.ipv4only
get rcvmaxsize o = ok o.rcvmaxsize
get maxttl o = ok o.maxttl
get (other n) o = err enoprotoopt
