-- ===== src/Core/Tests.antt =====
-- The theorems about the core at concrete inputs.
use vnano_msg.Common.{ℕ, ◌+◌, ◌≡◌, refl, true, false, done, [], ◌∷◌, sym}
use vnano_msg.Core.Pipes.{Msg, Flags}
use vnano_msg.Core.Sock.{ℤ, pos, Options, setopt, name_of, set}
use vnano_msg.Core.Sock
use vnano_msg.Core.Sock.Kept
use vnano_msg.Core.Sock.Kept.{IsInRange, options-IsInRange}
use vnano_msg.Core.Pipebase.{Transport, init, start, sent, send, complete, settle_side, side_after}
use vnano_msg.Core.Pipebase.Ready.{Reach, started, gone, writes, pipe_of, Reach-pipe_of}

abbrev ping : Msg
ping = record { sphdr = []; hdrs = []; body = 1 ∷ [] }

abbrev no_flags : Flags
no_flags = record { release = false; parsed = false }

-- A transport that writes in the background and reads at once.
abbrev slow : Transport
slow = record {
  World = ℕ;
  send = λ m w. done (no_flags, false, w + 1);
  recv = λ w. done (no_flags, true, ping, w);
}

abbrev quiet : (rc : Flags) → no_flags ≡ rc → rc.release ≡ false
quiet rc e = rw (sym e) refl

-- One message on its way.
writing : Reach slow (pipe_of false false) false false
unfolding start init send side_after settle_side
writing = writes ping 0 1 (record no_flags { release = true }) (started refl) refl

Reach-pipe_of_example : pipe_of false true ≡ pipe_of false true
unfolding sent complete
Reach-pipe_of_example =
    Reach-pipe_of slow (λ m w w' rc called e. quiet rc cc) (λ m w w' rc called e. quiet rc cc)
      (gone writing refl)

-- NN_SNDPRIO is set to 16, and then to 17, which is refused.
abbrev twice_set : Options
twice_set = (setopt 8 4 (pos 17) ((setopt 8 4 (pos 16) Sock.init).1)).1

options-IsInRange_example : IsInRange twice_set
options-IsInRange_example =
    options-IsInRange twice_set (Kept.next 8 4 (pos 17) (Kept.next 8 4 (pos 16) Kept.start))
