-- ===== src/Protocol/SocketTests.antt =====
-- The theorems about the socket types at concrete inputs.
use vnano_msg.Common.{ℕ, ◌+◌, ◌≡◌, refl, Bool, true, false, none, some, List, [], ◌∷◌, done, arith}
use vnano_msg.Core.Pipes.{Msg, Flags, Pipes}
use vnano_msg.Protocol.Priolist
use vnano_msg.Protocol.Priolist.{Priolist, Data, put, activate}
use vnano_msg.Protocol.Priolist.Invariant.{Inv}
use vnano_msg.Protocol.Priolist.Turns
use vnano_msg.Protocol.Priolist.Turns.{Reach-Inv}
use vnano_msg.Protocol.Trie.{Tree, node, sparse, no_kid, trie_match, match_loop, check_prefix}
use vnano_msg.Protocol.Pair
use vnano_msg.Protocol.Pair.{Xpair}
use vnano_msg.Protocol.Pair.Contract.{Agrees, events_true}
use vnano_msg.Protocol.Pubsub.Sub.Delivery.{Ends, recv_first}

abbrev hi : Msg
hi = record { sphdr = []; hdrs = []; body = 104 ∷ 105 ∷ [] }

abbrev ready : Flags
ready = record { release = false; parsed = false }

-- Pipes that count the calls and always have a message.
abbrev talking : Pipes
talking = record {
  World = ℕ;
  send = λ p m w. done (ready, w + 1);
  recv = λ p w. done (ready, hi, w + 1);
}

-- Ready for writing only.
abbrev writable : Xpair
writable = record { excl = record { pipe = some 7; inpipe = none; outpipe = some 7 } }

events_true_example :
    Agrees (Pair.events writable).writable writable 0 (Pair.send talking writable hi 0)
    × Agrees (Pair.events writable).readable writable 0 (Pair.recv talking writable 0)
events_true_example =
    events_true talking writable hi 0 (λ p m v. ((ready, v + 1), refl))
      (λ p v. ((ready, hi, v + 1), refl))

-- Pipe 7 at priority 2.
abbrev seven : Priolist
seven = record {
  slots = put Priolist.init.slots 1 (record { pipes = 7 ∷ []; current = some 7 });
  current = some 2;
}

seven-Inv : Inv seven
unfolding Priolist.init activate
seven-Inv = Reach-Inv (
    Turns.step Turns.start
      (Turns.activated (record { pipe = 7; priority = 2 }) {p' = seven} (omega arith) refl))

-- Subscribed to everything.
abbrev all : Tree
all = node 1 [] (sparse no_kid)

all_matches : (d : List ℕ) → (b : Bool) × (trie_match all d ≡ done b)
unfolding trie_match match_loop check_prefix
all_matches d = (true, refl)

recv_first_example : Ends talking all 5 seven 0
recv_first_example =
    recv_first talking all (λ p v. ((ready, hi, v + 1), refl)) all_matches 5 seven 0 seven-Inv
