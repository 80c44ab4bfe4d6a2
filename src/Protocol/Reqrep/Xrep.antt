-- ===== src/Protocol/Reqrep/Xrep.antt =====
-- protocols/reqrep/xrep.c: the raw REP socket.
pub mod Registry
pub mod Runs
use vnano_msg.Common.{
  ℕ, ◌+◌, ◌%◌, ◌^◌, Bool, true, false, none, some, List, ◌++◌, Outcome, done, ◌>>=◌, ◌>>◌, ◌==◌,
  assert, Reply, ok, err, drop, update, if◌then◌else◌,
}
use vnano_msg.Core.Pipes.{Msg, Flags, Pipes, Events}
use vnano_msg.Utils.Hash
use vnano_msg.Utils.Hash.{Hash, Item}
use vnano_msg.Utils.Wire.{getl, putl}
use vnano_msg.Protocol.Priolist.{Data}
use vnano_msg.Protocol.Fq
use vnano_msg.Protocol.Fq.{Fq}
use vnano_msg.Protocol.Pipeline.{valid_priority}
use vnano_msg.Protocol.Reqrep.{req_type}
use vnano_msg.Protocol.Reqrep.Backtrace.{split_header}

-- `struct nn_xrep_data` of a pipe: the key of its item in the table, its entry for the queue, and
-- NN_XREP_OUT.
pub record XrepData : Type 0 where
  pub key : ℕ
  pub initem : Data
  pub out : Bool

-- `struct nn_xrep` without its base class, with the data of each pipe. An item of the table stands
-- in the data of the pipe that it names.
pub record Xrep : Type 0 where
  pub next_key : ℕ
  pub outpipes : Hash
  pub inpipes : Fq
  pub datas : ℕ → XrepData

-- `next_key` is what `nn_random_generate` made, and the data of a pipe are undefined at first.
unfoldable pub init : ℕ → (ℕ → XrepData) → Xrep
init next_key datas = record {
  next_key = next_key;
  outpipes = Hash.init;
  inpipes = Fq.init;
  datas = datas;
}

unfoldable pub term : Xrep → Outcome (Unit {0})
term x = do Fq.term x.inpipes; Hash.term x.outpipes

-- `rcvprio` is the priority that the pipe tells; `& 0x7fffffff` keeps the lower 31 bits.
unfoldable pub add : Xrep → ℕ → ℕ → Outcome Xrep
add x p rcvprio = do
  assert (valid_priority rcvprio)
  let key = x.next_key % 2 ^ 31
  outpipes ← Hash.insert (Hash.item_init x.outpipes p) key p
  done (record x {
    next_key = (x.next_key + 1) % 2 ^ 32;
    outpipes = outpipes;
    datas = update x.datas p (record { key = key; initem = Fq.add p rcvprio; out = false });
  })

unfoldable pub rm : Xrep → ℕ → Outcome Xrep
rm x p = do
  let inpipes = Fq.rm x.inpipes (x.datas p).initem
  outpipes ← Hash.erase x.outpipes (record { key = (x.datas p).key; owner = p })
  Hash.item_term outpipes p
  done (record x { inpipes = inpipes; outpipes = outpipes })

unfoldable pub activate_in : Xrep → ℕ → Outcome Xrep
activate_in x p = do fq ← Fq.activate x.inpipes (x.datas p).initem; done (record x { inpipes = fq })

-- The flag NN_XREP_OUT of a pipe.
unfoldable pub set_out : Xrep → ℕ → Bool → Xrep
set_out x p b = record x { datas = update x.datas p (record (x.datas p) { out = b }) }

unfoldable pub activate_out : Xrep → ℕ → Xrep
activate_out x p = set_out x p true

unfoldable pub events : Xrep → Events
events x = record { readable = Fq.can_recv x.inpipes; writable = true }

unfoldable pub is_peer : ℕ → Bool
is_peer socktype = socktype == req_type

-- The header with the key of a pipe in front.
unfoldable pub prepend : ℕ → Msg → Msg
prepend key m = record m { sphdr = putl key ++ m.sphdr }

module _ (ps : Pipes) where
  open ps use {World}

  -- The write to the pipe that an item of the table names.
  unfoldable pub send_to : Xrep → ℕ → Msg → World → Outcome (Xrep × World)
  send_to x p m w = do
    (rc, w') ← ps.send p m w
    done (if rc.release then set_out x p false else x, w')

  -- The return code is 0 on every path. `getl` fails on a header of less than four bytes.
  unfoldable pub send : Xrep → Msg → World → Outcome (Xrep × World)
  send x m w = elim (getl m.sphdr) [
    | none ↦ done (x, w)
    | some key ↦ elim (Hash.get x.outpipes key) [
      | none ↦ done (x, w)
      | some it ↦
          if (x.datas it.owner).out
          then send_to x it.owner (record m { sphdr = drop 4 m.sphdr }) w
          else done (x, w)
    ]
  ]

  -- `maxttl` is the option NN_MAXTTL of the socket.
  unfoldable pub recv : ℕ → Xrep → World → Outcome (Reply Msg × Xrep × World)
  recv maxttl x w = do
    (rc, fq, w') ← Fq.recv ps x.inpipes w
    let x' : Xrep = record x { inpipes = fq }
    elim rc [
      | err e ↦ done (err e, x', w')
      | ok (flags, m, p) ↦ do
        split ← if flags.parsed then done (ok m) else split_header maxttl m
        elim split [
          | err e ↦ done (err e, x', w')
          | ok m' ↦ done (ok (prepend (x.datas p).key m'), x', w')
        ]
    ]
