-- ===== src/Aio/Timerset.antt =====
-- aio/timerset.c: the timeouts that wait, in the order in which they are due. What `nn_clock_ms`
-- tells is an argument, and a handle in the list is named by a number. A time has 64 bits, an `int`
-- has 32; a duration that is asked for is not negative.
pub mod Due
pub mod Wait
use vnano_msg.Common.{
  ℕ, zero, suc, ◌+◌, ◌-◌, ◌%◌, ◌^◌, Bool, true, false, not, ◌&&◌, ◌||◌, Option, none, some, List,
  [], ◌∷◌, Outcome, done, abort, ◌>>=◌, ◌>>◌, assert, Reply, ok, err, Errno, eagain, ltb, leb,
  is_empty, ◌==◌, if◌then◌else◌,
}

-- `struct nn_timerset_hndl`
pub record Hndl : Type 0 where
  pub id : ℕ
  pub timeout : ℕ

abbrev pub Timerset : Type 0
Timerset = List Hndl

abbrev pub init : Timerset
init = []

unfoldable pub term : Timerset → Outcome (Unit {0})
term l = assert (is_empty l)

-- `nn_timerset_hndl_isactive`
unfoldable pub hndl_isactive : Timerset → ℕ → Bool
hndl_isactive [] i = false
hndl_isactive (h ∷ l) i = (h.id == i) || hndl_isactive l i

-- The loop for the place of a new handle, and its insertion there.
unfoldable pub insert : Timerset → Hndl → Timerset
insert [] h = h ∷ []
insert (x ∷ l) h = if ltb h.timeout x.timeout then h ∷ x ∷ l else x ∷ insert l h

-- Whether the loop ended where it began.
unfoldable pub goes_first : Timerset → Hndl → Bool
goes_first [] h = true
goes_first (x ∷ l) h = ltb h.timeout x.timeout

-- `nn_list_insert` asserts that the handle is in no list.
unfoldable pub add : ℕ → Timerset → ℕ → ℕ → Outcome (Bool × Timerset)
add now l timeout i =
    let h : Hndl = record { id = i; timeout = (now + timeout) % 2 ^ 64 } in
    do assert (not (hndl_isactive l i)); done (goes_first l h, insert l h)

unfoldable pub erase : Timerset → ℕ → Timerset
erase [] i = []
erase (h ∷ l) i = if h.id == i then l else h ∷ erase l i

unfoldable pub is_first : Timerset → ℕ → Bool
is_first [] i = false
is_first (h ∷ l) i = h.id == i

unfoldable pub rm : Timerset → ℕ → Bool × Timerset
rm l i = if hndl_isactive l i then (is_first l i, erase l i) else (false, l)

-- An `int` made of 64 bits: `none` if it is negative.
abbrev pub int_of : ℕ → Option ℕ
int_of n = if ltb (n % 2 ^ 32) (2 ^ 31) then some (n % 2 ^ 32) else none

abbrev pub or_zero : Option ℕ → Option ℕ
or_zero none = some 0
or_zero (some n) = some n

-- `nn_timerset_timeout`; `none` is -1.
unfoldable pub next_timeout : ℕ → Timerset → Option ℕ
next_timeout now [] = none
next_timeout now (h ∷ l) = or_zero (int_of ((h.timeout + 2 ^ 64 - now) % 2 ^ 64))

unfoldable pub event : ℕ → Timerset → Reply ℕ × Timerset
event now [] = (err eagain, [])
event now (h ∷ l) = if ltb now h.timeout then (err eagain, h ∷ l) else (ok h.id, l)
