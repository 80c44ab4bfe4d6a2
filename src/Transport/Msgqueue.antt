-- ===== src/Transport/Msgqueue.antt =====
-- transports/inproc/msgqueue.c: a one-way queue of messages in chunks of 126. A chunk is named by a
-- number; what `nn_alloc` returns is the next number that was never used, holding any content.
pub mod Chunks
pub mod Fifo
pub mod Refine
use vnano_msg.Common.{
  ℕ, zero, suc, ◌+◌, ◌-◌, ◌%◌, ◌^◌, Bool, true, false, ◌&&◌, Option, none, some, List, Outcome,
  done, abort, ◌>>=◌, ◌>>◌, assert, Reply, ok, err, Errno, eagain, length, ltb, leb, ◌==◌,
  if◌then◌else◌, update,
}
use vnano_msg.Core.Pipes.{Msg}

-- NN_MSGQUEUE_GRANULARITY
abbrev pub granularity : ℕ
granularity = 126

-- `struct nn_msgqueue` with the memory of its chunks: `msgs` and `next` of each, and the name that
-- the next new chunk gets. A `size_t` has 64 bits.
pub record Msgqueue : Type 0 where
  pub out_chunk : ℕ
  pub out_pos : ℕ
  pub in_chunk : ℕ
  pub in_pos : ℕ
  pub count : ℕ
  pub mem : ℕ
  pub maxmem : ℕ
  pub cache : Option ℕ
  pub msgs : ℕ → ℕ → Msg
  pub next : ℕ → Option ℕ
  pub fresh : ℕ

abbrev pub size_of : Msg → ℕ
size_of m = length m.sphdr + length m.body

unfoldable pub init : ℕ → (ℕ → ℕ → Msg) → (ℕ → Option ℕ) → Msgqueue
init maxmem msgs next = record {
  out_chunk = 0;
  out_pos = 0;
  in_chunk = 0;
  in_pos = 0;
  count = 0;
  mem = 0;
  maxmem = maxmem;
  cache = none;
  msgs = msgs;
  next = update next 0 none;
  fresh = 1;
}

-- `nn_msgqueue_empty`
unfoldable pub empty : Msgqueue → Bool
empty q = q.count == 0

-- The chunk behind the full one, which was cached or is new.
unfoldable pub link : Msgqueue → ℕ → Msgqueue
link q c = record q {
  next = update q.next q.out_chunk (some c);
  out_chunk = c;
  cache = none;
  out_pos = 0;
}

unfoldable pub add_chunk : Msgqueue → Msgqueue
add_chunk q = elim q.cache [
  | some c ↦ link q c
  | none ↦ link (record q { next = update q.next q.fresh none; fresh = suc q.fresh }) q.fresh
]

unfoldable pub write : Msgqueue → Msg → Msgqueue
write q m = record q {
  count = (q.count + 1) % 2 ^ 64;
  mem = (q.mem + size_of m) % 2 ^ 64;
  msgs = update q.msgs q.out_chunk (update (q.msgs q.out_chunk) q.out_pos m);
  out_pos = q.out_pos + 1;
}

unfoldable pub is_full : Msgqueue → Msg → Bool
is_full q m = ltb 0 q.count && leb q.maxmem ((q.mem + size_of m) % 2 ^ 64)

unfoldable pub send : Msgqueue → Msg → Reply (Unit {0}) × Msgqueue
send q m =
    if is_full q m
    then (err eagain, q)
    else (ok tt, if q.out_pos + 1 == granularity then add_chunk (write q m) else write q m)

-- A NULL `next` would be used by the call after this one. The chunk is cached, or given back.
unfoldable pub next_chunk : Msgqueue → Outcome Msgqueue
next_chunk q = elim (q.next q.in_chunk) [
  | none ↦ abort
  | some c ↦ done (record q {
    in_chunk = c;
    in_pos = 0;
    cache = elim q.cache [ none ↦ some q.in_chunk | some d ↦ some d ];
  })
]

unfoldable pub read : Msgqueue → Msg → Msgqueue
read q m = record q { count = q.count - 1; mem = (q.mem + 2 ^ 64 - size_of m) % 2 ^ 64 }

unfoldable pub recv : Msgqueue → Outcome (Reply Msg × Msgqueue)
recv q =
    let m = q.msgs q.in_chunk q.in_pos in
    if q.count == 0
    then done (err eagain, q)
    else (if q.in_pos + 1 == granularity
        then (do q' ← next_chunk q; done (ok m, read q' m))
        else done (ok m, read (record q { in_pos = q.in_pos + 1 }) m))

-- The loop of `nn_msgqueue_term`: a round for each message, and one to find the queue empty.
unfoldable pub drain : ℕ → Msgqueue → Outcome Msgqueue
drain zero q = abort
drain (suc fuel) q = do
  (rc, q') ← recv q
  elim rc [ ok m ↦ drain fuel q' | err e ↦ elim e [ eagain ↦ done q' | _ ↦ abort ] ]

unfoldable pub term : Msgqueue → Outcome (Unit {0})
term q = do q' ← drain (suc q.count) q; assert (q'.in_chunk == q'.out_chunk)
