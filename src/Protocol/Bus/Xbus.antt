-- ===== src/Protocol/Bus/Xbus.antt =====
-- protocols/bus/xbus.c: the raw BUS socket.
use vnano_msg.Common.{
  ℕ, zero, suc, Bool, true, false, Option, none, some, List, [], ◌∷◌, Outcome, done, ◌>>=◌, ◌>>◌,
  ◌==◌, assert, Reply, ok, err, einval, is_empty, if◌then◌else◌,
}
use vnano_msg.Core.Pipes.{Msg, Pipes, Events}
use vnano_msg.Utils.Wire.{byte, getll}
use vnano_msg.Protocol.Priolist.{Data}
use vnano_msg.Protocol.Fq
use vnano_msg.Protocol.Fq.{Fq}
use vnano_msg.Protocol.Dist
use vnano_msg.Protocol.Dist.{Dist}
use vnano_msg.Protocol.Pipeline.{valid_priority}
use vnano_msg.Protocol.Bus.{bus_type}

-- `struct nn_xbus` without its base class. Of `struct nn_xbus_data` the entry for the queue is
-- left, since the one for the distributor is the pipe.
pub record Xbus : Type 0 where
  pub outpipes : Dist
  pub inpipes : Fq

unfoldable pub init : Xbus
init = record { outpipes = Dist.init; inpipes = Fq.init }

unfoldable pub term : Xbus → Outcome (Unit {0})
term x = do Fq.term x.inpipes; Dist.term x.outpipes

unfoldable pub add : ℕ → ℕ → Outcome Data
add p rcvprio = do assert (valid_priority rcvprio); done (Fq.add p rcvprio)

unfoldable pub rm : Xbus → Data → Xbus
rm x d = record { outpipes = Dist.rm x.outpipes d.pipe; inpipes = Fq.rm x.inpipes d }

unfoldable pub activate_in : Xbus → Data → Outcome Xbus
activate_in x d = do fq ← Fq.activate x.inpipes d; done (record x { inpipes = fq })

unfoldable pub activate_out : Xbus → Data → Outcome Xbus
activate_out x d = do dist ← Dist.activate x.outpipes d.pipe; done (record x { outpipes = dist })

unfoldable pub events : Xbus → Events
events x = record { readable = Fq.can_recv x.inpipes; writable = true }

unfoldable pub is_peer : ℕ → Bool
is_peer socktype = socktype == bus_type

-- The bytes of an address in memory, the lowest first.
unfoldable pub pipe_id : ℕ → List ℕ
pipe_id p =
    byte p 0 ∷ byte p 8 ∷ byte p 16 ∷ byte p 24 ∷ byte p 32 ∷ byte p 40 ∷ byte p 48 ∷ byte p 56 ∷ []

-- The pipe that a header of eight bytes names; `none` for one of another size.
unfoldable pub excluded_by : List ℕ → Option ℕ
excluded_by (a ∷ b ∷ c ∷ d ∷ e ∷ f ∷ g ∷ h ∷ []) = getll (h ∷ g ∷ f ∷ e ∷ d ∷ c ∷ b ∷ a ∷ [])
excluded_by _ = none

module _ (ps : Pipes) where
  open ps use {World}

  unfoldable pub distribute :
      Xbus → Msg → Option ℕ → World → Outcome (Reply (Unit {0}) × Xbus × World)
  distribute x m exclude w = do
    (dist, w') ← Dist.send ps x.outpipes m exclude w
    done (ok tt, record x { outpipes = dist }, w')

  unfoldable pub send : Xbus → Msg → World → Outcome (Reply (Unit {0}) × Xbus × World)
  send x m w =
      let named : Outcome (Reply (Unit {0}) × Xbus × World) = elim (excluded_by m.sphdr) [
        | none ↦ done (err einval, x, w)
        | some p ↦ distribute x (record m { sphdr = [] }) (some p) w
      ] in
      if is_empty m.sphdr then distribute x m none w else named

  -- The loop of `nn_xbus_recv`, for as many rounds as `fuel` says; `none` after them. A message
  -- with a header is dropped, and the next one read.
  unfoldable pub recv_loop : ℕ → Xbus → World → Outcome (Option (Reply Msg) × Xbus × World)
  recv_loop zero x w = done (none, x, w)
  recv_loop (suc fuel) x w = do
    (rc, fq, w') ← Fq.recv ps x.inpipes w
    let x' : Xbus = record x { inpipes = fq }
    elim rc [
      | err e ↦ done (some (err e), x', w')
      | ok (flags, m, p) ↦ elim (is_empty m.sphdr) [
        | false ↦ recv_loop fuel x' w'
        | true ↦ done (some (ok (record m { sphdr = pipe_id p })), x', w')
      ]
    ]
