-- ===== src/Protocol/ReqrepTests.antt =====
-- The theorems about the REQ and REP sockets at concrete inputs.
use vnano_msg.Common.{
  ℕ, ◌+◌, ◌≡◌, refl, true, false, some, [], ◌∷◌, Outcome, done, abort, ok, mem, arith,
}
use vnano_msg.Core.Pipes.{Msg, Flags, Pipes}
use vnano_msg.Utils.Hash
use vnano_msg.Utils.Hash.{Item}
use vnano_msg.Protocol.Priolist
use vnano_msg.Protocol.Priolist.{Priolist, Data, put}
use vnano_msg.Protocol.Fq
use vnano_msg.Protocol.Reqrep.Xrep
use vnano_msg.Protocol.Reqrep.Xrep.{Xrep, XrepData}
use vnano_msg.Protocol.Reqrep.Xrep.Registry.{IsRegistered}
use vnano_msg.Protocol.Reqrep.Xrep.Runs.{
  Reach, start, added, signalled_in, signalled_out, registry_kept,
}
use vnano_msg.Protocol.Reqrep.Rep
use vnano_msg.Protocol.Reqrep.Rep.{Rep}
use vnano_msg.Protocol.Reqrep.Rep.Answer.{request, reply_returns}

-- Pipes on which one request always waits, two hops away.
abbrev asked : Msg
asked = request (5 ∷ []) 77 [] (104 ∷ 105 ∷ [])

abbrev ready : Flags
ready = record { release = false; parsed = false }

abbrev asking : Pipes
asking = record {
  World = ℕ;
  send = λ p m w. done (ready, w + 1);
  recv = λ p w. done (ready, asked, w + 1);
}

abbrev no_data : XrepData
no_data = record { key = 0; initem = record { pipe = 0; priority = 0 }; out = false }

-- The last key of 32 bits, of which the table gets 31.
abbrev fresh : Xrep
fresh = Xrep.init 0xffffffff (λ p. no_data)

abbrev or_fresh : Outcome Xrep → Xrep
or_fresh (done x) = x
or_fresh abort = fresh

-- Pipe 7 comes, and is ready for reading and for writing.
abbrev joined : Xrep
joined = or_fresh (Xrep.add fresh 7 1)

joined_done : Xrep.add fresh 7 1 ≡ done joined
unfolding Xrep.init Xrep.add Hash.init Hash.insert Hash.is_absent Hash.item_init Hash.list_insert
joined_done = refl

abbrev heard : Xrep
heard = or_fresh (Xrep.activate_in joined 7)

heard_done : Xrep.activate_in joined 7 ≡ done heard
unfolding Xrep.init Xrep.add Hash.init Hash.insert Hash.is_absent Hash.item_init Hash.list_insert
    Xrep.activate_in Priolist.init Priolist.add Priolist.activate
heard_done = refl

abbrev ready_both : Xrep
ready_both = Xrep.activate_out heard 7

ready_both-Reach : Reach asking ready_both (7 ∷ [])
ready_both-Reach =
    signalled_out 7
      (signalled_in 7 (added 7 1 (start 0xffffffff (λ p. no_data)) refl joined_done) heard_done)

registry_kept_example :
    ((p : ℕ) → mem p (7 ∷ []) ≡ true → IsRegistered ready_both p)
    × ((p q : ℕ)
        → mem p (7 ∷ []) ≡ true
        → mem q (7 ∷ []) ≡ true
        → (ready_both.datas p).key ≡ (ready_both.datas q).key
        → p ≡ q)
    × ((p : ℕ) → mem p (7 ∷ []) ≡ true → (y : Xrep) × (Xrep.rm ready_both p ≡ done y))
    × ((k : ℕ) (it : Item)
        → Hash.get ready_both.outpipes k ≡ some it
        → (mem it.owner (7 ∷ []) ≡ true) × ((ready_both.datas it.owner).key ≡ k))
registry_kept_example = registry_kept asking ready_both (7 ∷ []) ready_both-Reach

abbrev idle_rep : Rep
idle_rep = record { xrep = ready_both; backtrace = []; inprogress = false }

-- After one read, the turn came round to pipe 7 again.
abbrev turned : Priolist
turned = record {
  slots = put heard.inpipes.slots 0 (Priolist.pass_turn (heard.inpipes.slots 0) 7 false);
  current = some 1;
}

abbrev answer : Msg
answer = record { sphdr = []; hdrs = []; body = 111 ∷ 107 ∷ [] }

reply_returns_example :
    (s : Rep) × (Rep.recv asking 8 idle_rep 0
      ≡ done (ok (record { sphdr = []; hdrs = []; body = 104 ∷ 105 ∷ [] }), s, 1))
    × (t : Rep) × (Rep.send asking s answer 1 ≡ done (ok tt, t, 2))
    × (t.inprogress ≡ false)
unfolding Xrep.init Xrep.add Hash.init Hash.insert Hash.is_absent Hash.item_init Hash.list_insert
    Xrep.activate_in Xrep.activate_out Xrep.set_out Priolist.init Priolist.add Priolist.activate
    Fq.recv Priolist.getpipe Priolist.advance Priolist.settle
reply_returns_example =
    reply_returns asking idle_rep (7 ∷ []) 7 8 (5 ∷ []) 77 [] (104 ∷ 105 ∷ []) false turned 0 1
      answer ready 1 2 ready_both-Reach refl refl (omega arith) (omega arith) (omega arith) refl
      refl refl
