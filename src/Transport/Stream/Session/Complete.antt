-- ===== src/Transport/Stream/Session/Complete.antt =====
-- Which calls and events come back on a session that is active.
use vnano_msg.Common.{
  ℕ, ◌≡◌, sym, ap, ◌∙◌, arith, none, some, List, [], ◌∷◌, ◌++◌, length, length-append, All, done,
  Bool, true, false, Option, Bool-cases, inl, inr, Completes, Comes, Comes-done, Comes-abort, ◌==◌,
}
use vnano_msg.Core.Pipes.{Msg}
use vnano_msg.Core.Pipebase
use vnano_msg.Core.Pipebase.{Side}
use vnano_msg.Aio.Fsm
use vnano_msg.Transport.Stream.Usock
use vnano_msg.Transport.Stream.Session.{
  Kind, Session, Sock, deliver, feed, handle, pipe_recv, pipe_send, send, is_active, is_some,
  hdr_size, header, reads, too_large, nothing,
}
use vnano_msg.Transport.Stream.Session.Frames.{
  Fits, frames, payload, length-header, size_of, cut_same,
}
use vnano_msg.Transport.Stream.Session.Inward.{
  Place, IsAt, Holds, front, lost, inside, behind, under_way, header_large, header_empty,
  header_more, body_came, deliver-refused, pipe_recv_lem, pipe_recv_refused,
}
use vnano_msg.Transport.Stream.Session.Outward.{Outward, filled, drained}
use vnano_msg.Transport.Stream.Session.Arrive.{hdr_size_pos}
use vnano_msg.Transport.Stream.Session.Runs.{Run, Run-End}

send-Comes :
    (k : Kind) (m : Msg) (s : Session) (busy : Bool)
    → Outward s busy
    → is_active s.state ≡ true
    → Comes (Pipebase.is_ready s.pipebase.outstate) (pipe_send k m s)
unfolding pipe_send Pipebase.send send Usock.send Pipebase.settle_side Pipebase.side_after
send-Comes k m s true o act =
    Comes-abort _ _ (ap Pipebase.is_ready o.out) (let a = o.out in ground arith)
send-Comes k m s false o act =
    let e : pipe_send k m s ≡ done (record nothing { release = true }, filled k m s) =
      let a = o.out in let b = o.outstate in ground arith in
    Comes-done _ _ (ap Pipebase.is_ready o.out) (_, e)

sent-Comes :
    (k : Kind) (e : Sock) (s : Session) (busy : Bool)
    → s.fsm.phase ≡ Fsm.active
    → Outward s busy
    → is_active s.state ≡ true
    → Comes (is_some s.usock.writing) (deliver Usock.Told.sent k e s)
unfolding deliver feed Fsm.feed handle Pipebase.sent Pipebase.complete
sent-Comes k e s false run o act = Comes-abort _ _ o.writing (let a = o.writing in ground arith)
sent-Comes k e s true run o act =
    let g : deliver Usock.Told.sent k e s ≡ done (drained s, none) =
      let a = o.writing in let b = o.out in let c = o.outstate in ground arith in
    Comes-done _ _ o.writing (_, g)

recv-Comes :
    (k : Kind) (s : Session) (p : Place)
    → IsAt k s p
    → is_active s.state ≡ true
    → Comes (Pipebase.is_ready s.pipebase.instate) (pipe_recv k s)
recv-Comes k s front i act = Comes-abort _ _ (ap Pipebase.is_ready i.3) (pipe_recv_refused k s i.3)
recv-Comes k s (inside m) i act =
    Comes-abort _ _ (ap Pipebase.is_ready i.3) (pipe_recv_refused k s i.3)
recv-Comes k s (behind m) i act =
    Comes-done _ _ (ap Pipebase.is_ready i.3) (_, pipe_recv_lem k m s i)
recv-Comes k s lost i act = absurd (ground arith)

reads_same : (n m : ℕ) (o : Option ℕ) → o ≡ some n → reads m o ≡ true → m ≡ n
reads_same n m none q h = absurd (ground arith)
reads_same n m (some a) q h = ground arith

module _ (k : Kind) (e : Sock) (s : Session) (run : s.fsm.phase ≡ Fsm.active) where
  header-Completes :
      (m : Msg)
      → IsAt k s front
      → Fits m
      → Completes (deliver (Usock.Told.received (header k m)) k e s)
  header-Completes m p f = elim (Bool-cases (too_large e.rcvmaxsize (size_of m))) [
    | inl large ↦ (_, header_large k e m s run p f large)
    | inr small ↦ elim (Bool-cases (size_of m == 0)) [
      | inl zero_size ↦ (_, header_empty k e m s run p f small zero_size)
      | inr some_size ↦ (_, header_more k e m s run p f small some_size)
    ]
  ]

  asked-Completes :
      (p : Place) (bytes v : List ℕ) (rest : List Msg)
      → IsAt k s p
      → Holds k (bytes ++ v) p rest
      → All Fits (under_way p ++ rest)
      → is_active s.state ≡ true
      → reads (length bytes) s.usock.reading ≡ true
      → Completes (deliver (Usock.Told.received bytes) k e s)
  asked-Completes front bytes v [] i t f act h =
      let l = reads_same (hdr_size k) (length bytes) s.usock.reading i.2 h in
      let n = ap length t in absurd (omega (arith, length-append bytes v, hdr_size_pos k))
  asked-Completes front bytes v (m ∷ rest) i t f act h =
      let l = reads_same (hdr_size k) (length bytes) s.usock.reading i.2 h in
      let (a, b) =
        cut_same bytes v (header k m) (payload m ++ frames k rest) t
          (l ∙ sym (length-header k m)) in
      rw a (header-Completes m i f.0)
  asked-Completes (inside m) bytes v rest i t f act h =
      let l = reads_same (size_of m) (length bytes) s.usock.reading i.2 h in
      let (a, b) =
        cut_same bytes v (payload m) (frames k rest) t (l ∙ sym (length-append m.sphdr m.body)) in
      rw a (_, body_came k e m s run i)
  asked-Completes (behind m) bytes v rest i t f act h = let r = rw i.2 at h in cc
  asked-Completes lost bytes v rest i t f act h = absurd (ground arith)

  received-Comes :
      (p : Place) (bytes v : List ℕ) (rest : List Msg)
      → IsAt k s p
      → Holds k (bytes ++ v) p rest
      → All Fits (under_way p ++ rest)
      → is_active s.state ≡ true
      → Comes (reads (length bytes) s.usock.reading) (deliver (Usock.Told.received bytes) k e s)
  received-Comes p bytes v rest i t f act =
      elim (Bool-cases (reads (length bytes) s.usock.reading)) [
        | inl asked ↦ Comes-done _ _ asked (asked-Completes p bytes v rest i t f act asked)
        | inr not_asked ↦ Comes-abort _ _ not_asked (deliver-refused k e s bytes not_asked)
      ]

-- In such a run, on a session that is active: a write and a read of the socket come back exactly
-- if the pipe is ready for them; the end of a write exactly if one was asked for; and the first
-- bytes on their way exactly if they are as many as were asked for. Otherwise an assertion
-- fails. Each message that is sent has less than 2 ^ 64 bytes.
pub session_calls_complete :
    {k : Kind} {x y : Sock} {s p : Session} {w : List ℕ} (v : List ℕ) {a b c d : List Msg} (m : Msg)
    (bytes : List ℕ)
    → Run k x y s p w (bytes ++ v) a b c d
    → All Fits a
    → All Fits c
    → is_active s.state ≡ true
    → Comes (Pipebase.is_ready s.pipebase.outstate) (pipe_send k m s)
      × Comes (Pipebase.is_ready s.pipebase.instate) (pipe_recv k s)
      × Comes (is_some s.usock.writing) (deliver Usock.Told.sent k x s)
      × Comes (reads (length bytes) s.usock.reading) (deliver (Usock.Told.received bytes) k x s)
session_calls_complete {k = k} {x = x} {s = s} v m bytes r f g act =
    let e = (Run-End k r f g).0 in
    let i = e.inward in
    (
      send-Comes k m s e.busy e.outward act,
      recv-Comes k s i.place i.here act,
      sent-Comes k x s e.busy e.running e.outward act,
      received-Comes k x s e.running i.place bytes v i.rest i.here i.stream i.fit act,
    )
