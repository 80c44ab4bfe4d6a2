-- ===== src/Protocol/Pubsub/Sub.antt =====
-- protocols/pubsub/xsub.c
pub mod Delivery
use vnano_msg.Common.{
  ℕ, zero, suc, Bool, Option, none, some, true, false, List, Outcome, done, abort, ◌>>=◌, ◌>>◌,
  ◌==◌, ◌&&◌, leb, assert, Reply, ok, err, Errno, eagain, einval, enoprotoopt, if◌then◌else◌,
}
use vnano_msg.Core.Pipes.{Msg, Pipes, Events}
use vnano_msg.Protocol.Priolist.{Data}
use vnano_msg.Protocol.Fq
use vnano_msg.Protocol.Fq.{Fq}
use vnano_msg.Protocol.Trie.{Tree, trie_init, trie_match}
use vnano_msg.Protocol.Trie.Subscribe.{subscribe}
use vnano_msg.Protocol.Trie.Unsubscribe.{Removal, kept, removed, missing, unsubscribe}
use vnano_msg.Protocol.Pubsub.{pub_type, sub_type}

-- `struct nn_xsub` without its base class.
pub record Xsub : Type 0 where
  pub fq : Fq
  pub trie : Tree

unfoldable pub init : Xsub
init = record { fq = Fq.init; trie = trie_init }

-- `nn_trie_term` releases memory and nothing else.
unfoldable pub term : Xsub → Outcome (Unit {0})
term x = Fq.term x.fq

unfoldable pub add : ℕ → ℕ → Outcome Data
add p rcvprio = do assert (leb 1 rcvprio && leb rcvprio 16); done (Fq.add p rcvprio)

unfoldable pub rm : Xsub → Data → Xsub
rm x d = record x { fq = Fq.rm x.fq d }

-- `nn_xsub_in`; `nn_xsub_out` does nothing.
unfoldable pub activate_in : Xsub → Data → Outcome Xsub
activate_in x d = do fq ← Fq.activate x.fq d; done (record x { fq = fq })

unfoldable pub events : Xsub → Events
events x = record { readable = Fq.can_recv x.fq; writable = false }

unfoldable pub is_peer : ℕ → Bool
is_peer socktype = socktype == pub_type

-- NN_SUB_SUBSCRIBE and NN_SUB_UNSUBSCRIBE
abbrev pub subscribe_option : ℕ
subscribe_option = 1

abbrev pub unsubscribe_option : ℕ
unsubscribe_option = 2

abbrev pub removal_reply : Removal → Reply (Unit {0})
removal_reply kept = ok tt
removal_reply removed = ok tt
removal_reply missing = err einval

unfoldable pub setopt : Xsub → ℕ → ℕ → List ℕ → Outcome (Reply (Unit {0}) × Xsub)
setopt x level option value =
    if level == sub_type
    then (if option == subscribe_option
        then done (ok tt, record x { trie = (subscribe x.trie value).0 })
        else if option == unsubscribe_option
        then (do (rc, t) ← unsubscribe x.trie value; done (removal_reply rc, record x { trie = t }))
        else done (err enoprotoopt, x))
    else done (err enoprotoopt, x)

module _ (ps : Pipes) where
  open ps use {World}

  -- The loop of `nn_xsub_recv`, for as many rounds as `fuel` says; `none` after them.
  unfoldable pub recv_loop : ℕ → Xsub → World → Outcome (Option (Reply Msg) × Xsub × World)
  recv_loop zero x w = done (none, x, w)
  recv_loop (suc fuel) x w = do
    (rc, fq, w') ← Fq.recv ps x.fq w
    elim rc [
      | err e ↦ elim e [ eagain ↦ done (some (err eagain), record x { fq = fq }, w') | _ ↦ abort ]
      | ok a ↦ do
        matches ← trie_match x.trie (a.1).body
        elim matches [
          | false ↦ recv_loop fuel (record x { fq = fq }) w'
          | true ↦ done (some (ok (a.1)), record x { fq = fq }, w')
        ]
    ]
