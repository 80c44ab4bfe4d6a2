-- ===== src/Transport/Inproc/Sinproc/Reads.antt =====
-- What a read keeps.
use vnano_msg.Common.{
  ◌+◌, false, ◌≡◌, sym, ◌∙◌, arith, Bool-cases, inl, inr, List, [], ◌∷◌, ◌++◌, done, ok, err,
  eagain, ltb, leb, ◌&&◌, length,
}
use vnano_msg.Core.Pipes.{Msg, Flags}
use vnano_msg.Transport.Msgqueue
use vnano_msg.Transport.Msgqueue.{Msgqueue, size_of}
use vnano_msg.Transport.Msgqueue.Chunks.{total}
use vnano_msg.Transport.Msgqueue.Fifo.{Holds}
use vnano_msg.Transport.Msgqueue.Refine.{send_offers, recv_polls}
use vnano_msg.Transport.Inproc.Sinproc.{Sinproc, pipe_recv}
use vnano_msg.Transport.Inproc.Sinproc.Steps.{
  relieved, drawn, pipe_recv_refused, pipe_recv_plain, pipe_recv_full, pipe_recv_room,
}
use vnano_msg.Transport.Inproc.Sinproc.Keeps.{
  IsSmall, Both, kept_read, kept_taken, room_for, full_behind,
}
use vnano_msg.Transport.Inproc.Sinproc.Way.{
  pending, Stage, quiet, flying, held, answered, Way, Kept, IsBehind, drawn-other, drawn-Way,
  refilled, refilled-other, refilled-Way,
}

module _ {s p : Sinproc} (a b c d : List Msg) where
  -- A read, where the message that is held, if there is one, still does not fit.
  drawn_from :
      (k : Stage) (l : List Msg) (k' : Stage) (m : Msg) (l' : List Msg) (q : Msgqueue)
      → Way s p k l
      → Kept s k l a b
      → Way p s k' (m ∷ l')
      → Kept p k' (m ∷ l') c d
      → Holds q l'
      → IsBehind k' l'
      → Both (drawn s q) p a b c (d ++ m ∷ [])
  drawn_from k l k' m l' q v e v' e' w i = record {
    stage = k;
    queued = l;
    way = drawn-other q s p k l v;
    kept = e;
    stage' = k';
    queued' = l';
    way' = drawn-Way q s p k' m l' v' w i;
    kept' = kept_read m l' (pending k' p.msg) c d e';
  }

module _ {s p s' p' : Sinproc} (a b c d : List Msg) where
  reads_plain :
      (k : Stage) (l : List Msg) (k' : Stage) (m : Msg) (l' : List Msg) {m' : Msg} {rc : Flags}
      → Way s p k l
      → Kept s k l a b
      → Way p s k' (m ∷ l')
      → Kept p k' (m ∷ l') c d
      → s.receiving ≡ false
      → IsBehind k' l'
      → pipe_recv (s, p) ≡ done (rc, m', (s', p'))
      → Both s' p' a b c (d ++ m' ∷ [])
  reads_plain k l k' m l' {m'} v e v' e' i j h =
      let (q, g, w) = recv_polls s.queue (m ∷ l') v'.queue in
      let r = sym h ∙ pipe_recv_plain s p q m v.state i v'.inn g in
      let em : m' ≡ m = cc in
      let es : s' ≡ drawn s q = cc in
      let ep : p' ≡ p = cc in rw (em, es, ep) (drawn_from a b c d k l k' m l' q v e v' e' w j)

  reads_held :
      (k : Stage) (l : List Msg) (m : Msg) (l' : List Msg) {m' : Msg} {rc : Flags}
      → Way s p k l
      → Kept s k l a b
      → Way p s held (m ∷ l')
      → Kept p held (m ∷ l') c d
      → IsSmall c
      → pipe_recv (s, p) ≡ done (rc, m', (s', p'))
      → Both s' p' a b c (d ++ m' ∷ [])
  reads_held k l m l' {m'} v e v' e' n h =
      let (q, g, w) = recv_polls s.queue (m ∷ l') v'.queue in
      let e1 = kept_read m l' (p.msg ∷ []) c d e' in
      let (n0, n1) = room_for p.msg l' c (d ++ m ∷ []) e1 n in
      let (o, q1) = send_offers q l' p.msg w n0 n1 in
      elim (Bool-cases (ltb 0 (length l') && leb q.maxmem (total l' + size_of p.msg))) [
        | inl full ↦
            let f : (Msgqueue.send q p.msg).0 ≡ err eagain = o ∙ ground arith in
            let r = sym h ∙ pipe_recv_full s p q m v.state v'.receiving v'.inn g f in
            let em : m' ≡ m = cc in
            let es : s' ≡ drawn s q = cc in
            let ep : p' ≡ p = cc in
            rw (em, es, ep) (drawn_from a b c d k l held m l' q v e v' e' w (full_behind l' _ full))
        | inr room ↦
            let q2 = (Msgqueue.send q p.msg).1 in
            let f0 : (Msgqueue.send q p.msg).0 ≡ ok tt = o ∙ ground arith in
            let f : Msgqueue.send q p.msg ≡ (ok tt, q2) = λ i. (f0 i, q2) in
            let there : Holds q2 (l' ++ p.msg ∷ []) = rw room at q1 in
            let r = sym h ∙ pipe_recv_room s p q q2 m v.state v'.receiving v'.inn v'.receipt g f in
            let em : m' ≡ m = cc in
            let es : s' ≡ refilled s q2 = cc in
            let ep : p' ≡ relieved p = cc in
            rw (em, es, ep)
              (record {
                stage = k;
                queued = l;
                way = refilled-other q2 s p k l v;
                kept = e;
                stage' = answered;
                queued' = l' ++ p.msg ∷ [];
                way' = refilled-Way q2 s p m l' v' there;
                kept' = kept_taken p.msg l' c (d ++ m ∷ []) e1;
              })
      ]

  pub reads_from :
      (k : Stage) (l : List Msg) (k' : Stage) (l' : List Msg) {m : Msg} {rc : Flags}
      → Way s p k l
      → Kept s k l a b
      → Way p s k' l'
      → Kept p k' l' c d
      → IsSmall c
      → pipe_recv (s, p) ≡ done (rc, m, (s', p'))
      → Both s' p' a b c (d ++ m ∷ [])
  reads_from k l k' [] v e v' e' n h =
      let r = sym h ∙ pipe_recv_refused (s, p) v'.inn in absurd (ground arith)
  reads_from k l quiet (m ∷ l') v e v' e' n h =
      reads_plain k l quiet m l' v e v' e' v'.receiving tt h
  reads_from k l flying (m ∷ l') v e v' e' n h =
      reads_plain k l flying m l' v e v' e' v'.receiving tt h
  reads_from k l answered (m ∷ l') v e v' e' n h =
      reads_plain k l answered m l' v e v' e' v'.receiving tt h
  reads_from k l held (m ∷ l') v e v' e' n h = reads_held k l m l' v e v' e' n h
