-- ===== src/Protocol/Reqrep/Rep.antt =====
-- protocols/reqrep/rep.c: the REP socket, which answers one request at a time.
pub mod Answer
use vnano_msg.Common.{
  ℕ, Bool, true, false, List, [], ◌&&◌, ◌>>=◌, ◌>>◌, Outcome, done, assert, Reply, ok, err, efsm,
  is_empty, if◌then◌else◌,
}
use vnano_msg.Core.Pipes.{Msg, Pipes, Events}
use vnano_msg.Protocol.Reqrep.Xrep
use vnano_msg.Protocol.Reqrep.Xrep.{Xrep, XrepData}

-- `struct nn_rep`, with NN_REP_INPROGRESS; the backtrace has a meaning while that is set.
pub record Rep : Type 0 where
  pub xrep : Xrep
  pub backtrace : List ℕ
  pub inprogress : Bool

unfoldable pub init : ℕ → (ℕ → XrepData) → Rep
init next_key datas = record { xrep = Xrep.init next_key datas; backtrace = []; inprogress = false }

unfoldable pub term : Rep → Outcome (Unit {0})
term r = Xrep.term r.xrep

unfoldable pub events : Rep → Events
events r = let e = Xrep.events r.xrep in record e { writable = e.writable && r.inprogress }

module _ (ps : Pipes) where
  open ps use {World}

  unfoldable pub send : Rep → Msg → World → Outcome (Reply (Unit {0}) × Rep × World)
  send r m w =
      let replied : Outcome (Reply (Unit {0}) × Rep × World) = do
        assert (is_empty m.sphdr)
        (x, w') ← Xrep.send ps r.xrep (record m { sphdr = r.backtrace }) w
        done (ok tt, record { xrep = x; backtrace = []; inprogress = false }, w')
      in if r.inprogress then replied else done (err efsm, r, w)

  -- A request that is being processed is given up first.
  unfoldable pub recv : ℕ → Rep → World → Outcome (Reply Msg × Rep × World)
  recv maxttl r w = do
    (rc, x, w') ← Xrep.recv ps maxttl r.xrep w
    elim rc [
      | err e ↦ done (err e, record { xrep = x; backtrace = []; inprogress = false }, w')
      | ok m ↦ done (
        ok (record m { sphdr = [] }),
        record { xrep = x; backtrace = m.sphdr; inprogress = true },
        w',
      )
    ]
