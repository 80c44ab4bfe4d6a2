-- ===== src/Transport/Inproc/Sinproc/Complete.antt =====
-- Which calls and events come back.
use vnano_msg.Common.{
  Completes, Comes, Comes-done, Comes-abort, ◌+◌, true, not, ◌≡◌, sym, ap, ◌∙◌, arith, Bool-cases,
  inl, inr, ◌⊎◌, List, [], ◌∷◌, ◌++◌, Reply, ok, err, eagain, ltb, leb, ◌&&◌, length,
}
use vnano_msg.Core.Pipes.{Msg}
use vnano_msg.Core.Pipebase
use vnano_msg.Core.Pipebase.{Pipebase, Side}
use vnano_msg.Core.Pipebase.Ready.{side_of}
use vnano_msg.Transport.Msgqueue
use vnano_msg.Transport.Msgqueue.{Msgqueue, size_of}
use vnano_msg.Transport.Msgqueue.Chunks.{total}
use vnano_msg.Transport.Msgqueue.Refine.{send_offers, recv_polls}
use vnano_msg.Transport.Inproc.Sinproc.{Sinproc, pipe_send, pipe_recv, deliver, sent, received}
use vnano_msg.Transport.Inproc.Sinproc.Steps.{
  pipe_send_lem, pipe_send_refused, pipe_recv_refused, deliver-sent_refused,
  deliver-received_refused, deliver-received, deliver-sent_full, deliver-sent_room, pipe_recv_plain,
  pipe_recv_full, pipe_recv_room,
}
use vnano_msg.Transport.Inproc.Sinproc.Fifo.{Run, Run-Both}
use vnano_msg.Transport.Inproc.Sinproc.Keeps.{IsSmall, kept_read, room_for}
use vnano_msg.Transport.Inproc.Sinproc.Way.{
  Stage, quiet, flying, held, answered, Way, Kept, empty-is_empty,
}

module _ {s p : Sinproc} (c d : List Msg) where
  pub recv-Completes :
      (k : Stage) (l : List Msg) (k' : Stage) (m : Msg) (l' : List Msg)
      → Way s p k l
      → Way p s k' (m ∷ l')
      → Kept p k' (m ∷ l') c d
      → IsSmall c
      → Completes (pipe_recv (s, p))
  recv-Completes k l held m l' v v' e' n =
      let (q, g, w) = recv_polls s.queue (m ∷ l') v'.queue in
      let e1 = kept_read m l' (p.msg ∷ []) c d e' in
      let (n0, n1) = room_for p.msg l' c (d ++ m ∷ []) e1 n in
      let (o, q1) = send_offers q l' p.msg w n0 n1 in
      elim (Bool-cases (ltb 0 (length l') && leb q.maxmem (total l' + size_of p.msg))) [
        | inl full ↦
            let f : (Msgqueue.send q p.msg).0 ≡ err eagain = o ∙ ground arith in
            (_, pipe_recv_full s p q m v.state v'.receiving v'.inn g f)
        | inr room ↦
            let f0 : (Msgqueue.send q p.msg).0 ≡ ok tt = o ∙ ground arith in
            let q2 = (Msgqueue.send q p.msg).1 in
            let f : Msgqueue.send q p.msg ≡ (ok tt, q2) = λ i. (f0 i, q2) in
            (_, pipe_recv_room s p q q2 m v.state v'.receiving v'.inn v'.receipt g f)
      ]
  recv-Completes k l quiet m l' v v' e' n =
      let (q, g, w) = recv_polls s.queue (m ∷ l') v'.queue in
      (_, pipe_recv_plain s p q m v.state v'.receiving v'.inn g)
  recv-Completes k l flying m l' v v' e' n =
      let (q, g, w) = recv_polls s.queue (m ∷ l') v'.queue in
      (_, pipe_recv_plain s p q m v.state v'.receiving v'.inn g)
  recv-Completes k l answered m l' v v' e' n =
      let (q, g, w) = recv_polls s.queue (m ∷ l') v'.queue in
      (_, pipe_recv_plain s p q m v.state v'.receiving v'.inn g)

  sent-Completes :
      (added : Reply (Unit {0})) (k : Stage) (l : List Msg) (l' : List Msg)
      → Way s p k l
      → Way p s flying l'
      → Kept p flying l' c d
      → IsSmall c
      → Completes (deliver sent added (s, p))
  sent-Completes added k l l' v v' e' n =
      let (n0, n1) = room_for p.msg l' c d e' n in
      let (o, q) = send_offers s.queue l' p.msg v'.queue n0 n1 in
      elim (Bool-cases (ltb 0 (length l') && leb s.queue.maxmem (total l' + size_of p.msg))) [
        | inl full ↦
            let f : (Msgqueue.send s.queue p.msg).0 ≡ err eagain = o ∙ ground arith in
            (_, deliver-sent_full added s p v.state v.running v'.notice f)
        | inr room ↦
            let f : (Msgqueue.send s.queue p.msg).0 ≡ ok tt = o ∙ ground arith in
            let i = v'.inn ∙ ap (λ e. side_of (not e)) (sym (empty-is_empty s.queue l' v'.queue)) in
            (_, deliver-sent_room added s p v.state v.running v'.notice v'.receipt i f)
      ]

module _ {s p : Sinproc} where
  send-Comes :
      (m : Msg) (k : Stage) (l : List Msg)
      → Way s p k l
      → Comes (Pipebase.is_ready s.pipebase.outstate) (pipe_send m (s, p))
  send-Comes m quiet l v =
      Comes-done _ _ (ap Pipebase.is_ready v.out)
        (_, pipe_send_lem m s p v.state v.sending v.notice v.out)
  send-Comes m flying l v =
      Comes-abort _ _ (ap Pipebase.is_ready v.out) (pipe_send_refused m (s, p) v.out)
  send-Comes m held l v =
      Comes-abort _ _ (ap Pipebase.is_ready v.out) (pipe_send_refused m (s, p) v.out)
  send-Comes m answered l v =
      Comes-abort _ _ (ap Pipebase.is_ready v.out) (pipe_send_refused m (s, p) v.out)

  received-Comes :
      (added : Reply (Unit {0})) (k : Stage) (l : List Msg)
      → Way s p k l
      → Comes s.event_received (deliver received added (s, p))
  received-Comes added answered l v =
      Comes-done _ _ v.receipt
        (_, deliver-received added s p v.state v.running v.receipt v.sending v.out)
  received-Comes added quiet l v =
      Comes-abort _ _ v.receipt (deliver-received_refused added (s, p) v.receipt)
  received-Comes added flying l v =
      Comes-abort _ _ v.receipt (deliver-received_refused added (s, p) v.receipt)
  received-Comes added held l v =
      Comes-abort _ _ v.receipt (deliver-received_refused added (s, p) v.receipt)

module _ {s p : Sinproc} (c d : List Msg) where
  recv-Comes :
      (k : Stage) (l : List Msg) (k' : Stage) (l' : List Msg)
      → Way s p k l
      → Way p s k' l'
      → Kept p k' l' c d
      → IsSmall c
      → Comes (Pipebase.is_ready s.pipebase.instate) (pipe_recv (s, p))
  recv-Comes k l k' [] v v' e' n =
      Comes-abort _ _ (ap Pipebase.is_ready v'.inn) (pipe_recv_refused (s, p) v'.inn)
  recv-Comes k l k' (m ∷ l') v v' e' n =
      Comes-done _ _ (ap Pipebase.is_ready v'.inn) (recv-Completes c d k l k' m l' v v' e' n)

  sent-Comes :
      (added : Reply (Unit {0})) (k : Stage) (l : List Msg) (k' : Stage) (l' : List Msg)
      → Way s p k l
      → Way p s k' l'
      → Kept p k' l' c d
      → IsSmall c
      → Comes s.event_sent (deliver sent added (s, p))
  sent-Comes added k l flying l' v v' e' n =
      Comes-done _ _ v'.notice (sent-Completes c d added k l l' v v' e' n)
  sent-Comes added k l quiet l' v v' e' n =
      Comes-abort _ _ v'.notice (deliver-sent_refused added (s, p) v'.notice)
  sent-Comes added k l held l' v v' e' n =
      Comes-abort _ _ v'.notice (deliver-sent_refused added (s, p) v'.notice)
  sent-Comes added k l answered l' v v' e' n =
      Comes-abort _ _ v'.notice (deliver-sent_refused added (s, p) v'.notice)

-- An end can write, or a step is due that brings it nearer to that.
abbrev pub GoesOn : Sinproc → Sinproc → Type 0
GoesOn s p =
    (s.pipebase.outstate ≡ Side.ready)
    ⊎ ((p.event_sent ≡ true) ⊎ ((s.event_received ≡ true) ⊎ (p.pipebase.instate ≡ Side.ready)))

Way-GoesOn : {s p : Sinproc} (k : Stage) (l : List Msg) → Way s p k l → GoesOn s p
Way-GoesOn quiet l v = inl v.out
Way-GoesOn flying l v = inr (inl v.notice)
Way-GoesOn answered l v = inr (inr (inl v.receipt))
Way-GoesOn held [] v = absurd (ground (arith, v.behind))
Way-GoesOn held (m ∷ l) v = inr (inr (inr v.inn))

-- After a handshake of two ends and any calls of their sockets and events between them, in any
-- order: a write and a read on a pipe come back exactly if the pipe is ready for them, and fail
-- an assertion otherwise; an event SENT or RECEIVED is handled exactly if it is in a queue; and
-- a pipe is ready for writing, or the event SENT is in the queue of the peer, or RECEIVED in
-- that of the end, or the pipe of the peer is ready for reading. The sizes of the messages that
-- a socket sent add up to less than 2 ^ 64, and so does their number.
pub calls_complete :
    {s p : Sinproc} {a b c d : List Msg} (m : Msg) (added : Reply (Unit {0}))
    → Run s p a b c d
    → IsSmall a
    → IsSmall c
    → Comes (Pipebase.is_ready s.pipebase.outstate) (pipe_send m (s, p))
      × Comes (Pipebase.is_ready s.pipebase.instate) (pipe_recv (s, p))
      × Comes s.event_sent (deliver sent added (s, p))
      × Comes s.event_received (deliver received added (s, p))
      × GoesOn s p
calls_complete {c = c} {d = d} m added r i j =
    let v = Run-Both r i j in
    (
      send-Comes m v.stage v.queued v.way,
      recv-Comes c d v.stage v.queued v.stage' v.queued' v.way v.way' v.kept' j,
      sent-Comes c d added v.stage v.queued v.stage' v.queued' v.way v.way' v.kept' j,
      received-Comes added v.stage v.queued v.way,
      Way-GoesOn v.stage v.queued v.way,
    )
