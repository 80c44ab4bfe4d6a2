-- ===== src/Transport/Inproc/Sinproc/Way.antt =====
-- The messages that go one way between two connected ends: those in the queue of the receiver, and
-- one that the sender exposes.
use vnano_msg.Common.{Bool, true, false, not, ◌≡◌, refl, arith, List, [], ◌∷◌, ◌++◌, map, is_empty}
use vnano_msg.Core.Pipes.{Msg}
use vnano_msg.Core.Pipebase.Ready.{side_of}
use vnano_msg.Aio.Fsm
use vnano_msg.Transport.Msgqueue
use vnano_msg.Transport.Msgqueue.{Msgqueue, size_of}
use vnano_msg.Transport.Msgqueue.Fifo.{Holds}
use vnano_msg.Transport.Inproc.Sinproc.{State, Sinproc, flat}
use vnano_msg.Transport.Inproc.Sinproc.Steps.{
  exposed, acknowledged, holding, taken, relieved, drawn,
}

-- The message that the sender exposes: none; one whose event is in the queue of the receiver; one
-- that did not fit into the message queue; one that was taken, whose event is in the queue of the
-- sender.
pub data Stage : Type 0 where
  quiet flying held answered : Stage

abbrev pub is_quiet : Stage → Bool
is_quiet quiet = true
is_quiet _ = false

abbrev pub is_flying : Stage → Bool
is_flying flying = true
is_flying _ = false

abbrev pub is_held : Stage → Bool
is_held held = true
is_held _ = false

abbrev pub was_answered : Stage → Bool
was_answered answered = true
was_answered _ = false

abbrev pub pending : Stage → Msg → List Msg
pending flying m = m ∷ []
pending held m = m ∷ []
pending _ m = []

-- A message is held only behind another one.
abbrev pub IsBehind : Stage → List Msg → Type 0
IsBehind held l = is_empty l ≡ false
IsBehind _ l = Unit {0}

pub record Way (x y : Sinproc) (k : Stage) (l : List Msg) : Type 0 where
  pub state : x.state ≡ State.active
  pub running : x.fsm.phase ≡ Fsm.active
  pub sending : x.sending ≡ not (is_quiet k)
  pub out : x.pipebase.outstate ≡ side_of (is_quiet k)
  pub receipt : x.event_received ≡ was_answered k
  pub notice : y.event_sent ≡ is_flying k
  pub receiving : y.receiving ≡ is_held k
  pub queue : Holds y.queue l
  pub inn : y.pipebase.instate ≡ side_of (not (is_empty l))
  pub behind : IsBehind k l

-- What the receiver got, what its queue holds and what the sender exposes.
abbrev pub Kept : Sinproc → Stage → List Msg → List Msg → List Msg → Type 0
Kept x k l sent got = map flat sent ≡ got ++ l ++ pending k x.msg

-- The other way is not touched.
pub exposed-other :
    (m : Msg) (s p : Sinproc) (k : Stage) (l : List Msg)
    → Way p s k l
    → Way (record p { event_sent = true }) (exposed m s) k l
exposed-other m s p k l v = ground arith

pub exposed-Way :
    (m : Msg) (s p : Sinproc) (l : List Msg)
    → Way s p quiet l
    → Way (exposed m s) (record p { event_sent = true }) flying l
exposed-Way m s p l v = ground arith

pub acknowledged-other :
    (s p : Sinproc) (k : Stage) (l : List Msg) → Way p s k l → Way p (acknowledged s) k l
acknowledged-other s p k l v = ground arith

pub acknowledged-Way :
    (s p : Sinproc) (l : List Msg) → Way s p answered l → Way (acknowledged s) p quiet l
acknowledged-Way s p l v = ground arith

pub holding-other : (s p : Sinproc) (k : Stage) (l : List Msg) → Way s p k l → Way (holding s) p k l
holding-other s p k l v = ground arith

pub holding-Way :
    (s p : Sinproc) (l : List Msg)
    → Way p s flying l
    → is_empty l ≡ false
    → Way p (holding s) held l
holding-Way s p l v h = ground arith

pub empty-is_empty : (q : Msgqueue) (l : List Msg) → Holds q l → Msgqueue.empty q ≡ is_empty l
unfolding Msgqueue.empty
empty-is_empty q [] (rest, v, p) = ground (arith, v.count)
empty-is_empty q (m ∷ l) (rest, v, p) = ground (arith, v.count)

is_empty-snoc : (l : List Msg) (m : Msg) → is_empty (l ++ m ∷ []) ≡ false
is_empty-snoc [] m = refl
is_empty-snoc (n ∷ l) m = refl

pub taken-other :
    (m : Msg) (s p : Sinproc) (k : Stage) (l : List Msg)
    → Way s p k l
    → Way (taken s m) (relieved p) k l
taken-other m s p k l v = ground arith

pub taken-Way :
    (s p : Sinproc) (l : List Msg)
    → Way p s flying l
    → Holds (Msgqueue.send s.queue p.msg).1 (l ++ p.msg ∷ [])
    → Way (relieved p) (taken s p.msg) answered (l ++ p.msg ∷ [])
taken-Way s p l v h = record {
  state = v.state;
  running = v.running;
  sending = v.sending;
  out = v.out;
  receipt = refl;
  notice = refl;
  receiving = v.receiving;
  queue = h;
  inn = rw (is_empty-snoc l p.msg);
  behind = tt;
}

pub drawn-other :
    (q : Msgqueue) (s p : Sinproc) (k : Stage) (l : List Msg) → Way s p k l → Way (drawn s q) p k l
drawn-other q s p k l v = ground arith

pub drawn-Way :
    (q : Msgqueue) (s p : Sinproc) (k : Stage) (m : Msg) (l : List Msg)
    → Way p s k (m ∷ l)
    → Holds q l
    → IsBehind k l
    → Way p (drawn s q) k l
drawn-Way q s p k m l v h b = record {
  state = v.state;
  running = v.running;
  sending = v.sending;
  out = v.out;
  receipt = v.receipt;
  notice = v.notice;
  receiving = v.receiving;
  queue = h;
  inn = rw (empty-is_empty q l h);
  behind = b;
}

-- The receiver's end when it took the message that was held.
abbrev pub refilled : Sinproc → Msgqueue → Sinproc
refilled s q = record (drawn s q) { receiving = false }

pub refilled-other :
    (q : Msgqueue) (s p : Sinproc) (k : Stage) (l : List Msg)
    → Way s p k l
    → Way (refilled s q) (relieved p) k l
refilled-other q s p k l v = ground arith

pub refilled-Way :
    (q : Msgqueue) (s p : Sinproc) (m : Msg) (l : List Msg)
    → Way p s held (m ∷ l)
    → Holds q (l ++ p.msg ∷ [])
    → Way (relieved p) (refilled s q) answered (l ++ p.msg ∷ [])
refilled-Way q s p m l v h = record {
  state = v.state;
  running = v.running;
  sending = v.sending;
  out = v.out;
  receipt = refl;
  notice = v.notice;
  receiving = refl;
  queue = h;
  inn = rw (empty-is_empty q (l ++ p.msg ∷ []) h);
  behind = tt;
}
