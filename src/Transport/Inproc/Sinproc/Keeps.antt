-- ===== src/Transport/Inproc/Sinproc/Keeps.antt =====
-- What a call of either end keeps.
use mathlib.Core.List.{map-append, append_assoc, append-nil}
use vnano_msg.Common.{
  ◌+◌, ◌^◌, ◌<◌, Bool, true, false, not, ◌≡◌, refl, sym, ap, ◌∙◌, arith, Bool-cases, inl, inr, List,
  [], ◌∷◌, ◌++◌, map, done, Reply, ok, err, eagain, is_empty, ltb, leb, ◌&&◌, length, length-append,
}
use vnano_msg.Core.Pipes.{Msg, Flags}
use vnano_msg.Core.Pipebase.Ready.{side_of}
use vnano_msg.Transport.Msgqueue
use vnano_msg.Transport.Msgqueue.{Msgqueue, size_of}
use vnano_msg.Transport.Msgqueue.Chunks.{total, total-append}
use vnano_msg.Transport.Msgqueue.Fifo.{Holds}
use vnano_msg.Transport.Msgqueue.Refine.{send_offers}
use vnano_msg.Transport.Inproc.Sinproc.{Sinproc, flat, pipe_send, deliver, sent, received}
use vnano_msg.Transport.Inproc.Sinproc.Steps.{
  exposed, acknowledged, holding, taken, relieved, pipe_send_lem, pipe_send_refused,
  deliver-sent_refused, deliver-received_refused, deliver-received, deliver-sent_full,
  deliver-sent_room,
}
use vnano_msg.Transport.Inproc.Sinproc.Way.{
  Stage, quiet, flying, held, answered, Way, Kept, exposed-other, exposed-Way, acknowledged-other,
  acknowledged-Way, holding-other, holding-Way, taken-other, taken-Way, empty-is_empty,
}

abbrev pub IsSmall : List Msg → Type 0
IsSmall l = (length l < 2 ^ 64) × (total l < 2 ^ 64)

pub record Both (s p : Sinproc) (a b c d : List Msg) : Type 0 where
  pub stage : Stage
  pub queued : List Msg
  pub way : Way s p stage queued
  pub kept : Kept s stage queued a b
  pub stage' : Stage
  pub queued' : List Msg
  pub way' : Way p s stage' queued'
  pub kept' : Kept p stage' queued' c d

kept_exposed :
    (m : Msg) (l a b : List Msg)
    → map flat a ≡ b ++ l ++ []
    → map flat (a ++ m ∷ []) ≡ b ++ l ++ flat m ∷ []
kept_exposed m l a b h =
    map-append flat a (m ∷ []) ∙ ap (λ (k : List Msg). k ++ flat m ∷ []) (h ∙ append-nil (b ++ l))

length-map : (l : List Msg) → length (map flat l) ≡ length l
length-map [] = refl
length-map (m ∷ l) = omega (arith, length-map l)

total-map : (l : List Msg) → total (map flat l) ≡ total l
unfolding flat
total-map [] = refl
total-map (m ∷ l) = omega (arith, total-map l, length-append m.sphdr m.body)

-- A message that is exposed, with those in the queue.
pub room_for :
    (m : Msg) (l a b : List Msg)
    → map flat a ≡ b ++ l ++ m ∷ []
    → IsSmall a
    → (length l + 1 < 2 ^ 64) × (total l + size_of m < 2 ^ 64)
room_for m l a b h (n, t) = (
  omega (arith, ap length h, length-map a, length-append (b ++ l) (m ∷ []), length-append b l),
  omega (arith, ap total h, total-map a, total-append (b ++ l) (m ∷ []), total-append b l),
)

pub kept_read :
    (m : Msg) (l r a b : List Msg)
    → map flat a ≡ b ++ (m ∷ l) ++ r
    → map flat a ≡ (b ++ m ∷ []) ++ l ++ r
kept_read m l r a b h = h ∙ ap (λ (k : List Msg). k ++ r) (sym (append_assoc b (m ∷ []) l))

pub kept_taken :
    (m : Msg) (l a b : List Msg)
    → map flat a ≡ b ++ l ++ m ∷ []
    → map flat a ≡ b ++ (l ++ m ∷ []) ++ []
kept_taken m l a b h = h ∙ append_assoc b l (m ∷ []) ∙ sym (append-nil (b ++ (l ++ m ∷ [])))

pub full_behind : (l : List Msg) (x : Bool) → (ltb 0 (length l) && x) ≡ true → is_empty l ≡ false
full_behind [] x h = absurd (ground arith)
full_behind (m ∷ l) x h = refl

module _ {s p s' p' : Sinproc} (a b c d : List Msg) where
  pub writes_from :
      (m : Msg) (rc : Flags) (k : Stage) (l : List Msg) (k' : Stage) (l' : List Msg)
      → Way s p k l
      → Kept s k l a b
      → Way p s k' l'
      → Kept p k' l' c d
      → pipe_send m (s, p) ≡ done (rc, (s', p'))
      → Both s' p' (a ++ m ∷ []) b c d
  writes_from m rc quiet l k' l' v e v' e' h =
      let r = sym h ∙ pipe_send_lem m s p v.state v.sending v.notice v.out in
      let es : s' ≡ exposed m s = cc in
      let ep : p' ≡ record p { event_sent = true } = cc in
      rw (es, ep)
        (record {
          stage = flying;
          queued = l;
          way = exposed-Way m s p l v;
          kept = kept_exposed m l a b e;
          stage' = k';
          queued' = l';
          way' = exposed-other m s p k' l' v';
          kept' = e';
        })
  writes_from m rc flying l k' l' v e v' e' h =
      let r = sym h ∙ pipe_send_refused m (s, p) v.out in absurd (ground arith)
  writes_from m rc held l k' l' v e v' e' h =
      let r = sym h ∙ pipe_send_refused m (s, p) v.out in absurd (ground arith)
  writes_from m rc answered l k' l' v e v' e' h =
      let r = sym h ∙ pipe_send_refused m (s, p) v.out in absurd (ground arith)

  pub returns_from :
      (added : Reply (Unit {0})) (k : Stage) (l : List Msg) (k' : Stage) (l' : List Msg)
      → Way s p k l
      → Kept s k l a b
      → Way p s k' l'
      → Kept p k' l' c d
      → deliver received added (s, p) ≡ done (s', p')
      → Both s' p' a b c d
  returns_from added answered l k' l' v e v' e' h =
      let r = sym h ∙ deliver-received added s p v.state v.running v.receipt v.sending v.out in
      let es : s' ≡ acknowledged s = cc in
      let ep : p' ≡ p = cc in
      rw (es, ep)
        (record {
          stage = quiet;
          queued = l;
          way = acknowledged-Way s p l v;
          kept = e;
          stage' = k';
          queued' = l';
          way' = acknowledged-other s p k' l' v';
          kept' = e';
        })
  returns_from added quiet l k' l' v e v' e' h =
      let r = sym h ∙ deliver-received_refused added (s, p) v.receipt in absurd (ground arith)
  returns_from added flying l k' l' v e v' e' h =
      let r = sym h ∙ deliver-received_refused added (s, p) v.receipt in absurd (ground arith)
  returns_from added held l k' l' v e v' e' h =
      let r = sym h ∙ deliver-received_refused added (s, p) v.receipt in absurd (ground arith)

  pub comes_from :
      (added : Reply (Unit {0})) (k : Stage) (l : List Msg) (k' : Stage) (l' : List Msg)
      → Way s p k l
      → Kept s k l a b
      → Way p s k' l'
      → Kept p k' l' c d
      → IsSmall c
      → deliver sent added (s, p) ≡ done (s', p')
      → Both s' p' a b c d
  comes_from added k l flying l' v e v' e' n h =
      let (n0, n1) = room_for p.msg l' c d e' n in
      let (o, q) = send_offers s.queue l' p.msg v'.queue n0 n1 in
      elim (Bool-cases (ltb 0 (length l') && leb s.queue.maxmem (total l' + size_of p.msg))) [
        | inl full ↦
            let f : (Msgqueue.send s.queue p.msg).0 ≡ err eagain = o ∙ ground arith in
            let r = sym h ∙ deliver-sent_full added s p v.state v.running v'.notice f in
            let es : s' ≡ holding s = cc in
            let ep : p' ≡ p = cc in
            let behind = full_behind l' _ full in
            rw (es, ep)
              (record {
                stage = k;
                queued = l;
                way = holding-other s p k l v;
                kept = e;
                stage' = held;
                queued' = l';
                way' = holding-Way s p l' v' behind;
                kept' = e';
              })
        | inr room ↦
            let f : (Msgqueue.send s.queue p.msg).0 ≡ ok tt = o ∙ ground arith in
            let there : Holds (Msgqueue.send s.queue p.msg).1 (l' ++ p.msg ∷ []) = rw room at q in
            let i = v'.inn ∙ ap (λ e. side_of (not e)) (sym (empty-is_empty s.queue l' v'.queue)) in
            let r =
              sym h ∙ deliver-sent_room added s p v.state v.running v'.notice v'.receipt i f in
            let es : s' ≡ taken s p.msg = cc in
            let ep : p' ≡ relieved p = cc in
            rw (es, ep)
              (record {
                stage = k;
                queued = l;
                way = taken-other p.msg s p k l v;
                kept = e;
                stage' = answered;
                queued' = l' ++ p.msg ∷ [];
                way' = taken-Way s p l' v' there;
                kept' = kept_taken p.msg l' c d e';
              })
      ]
  comes_from added k l quiet l' v e v' e' n h =
      let r = sym h ∙ deliver-sent_refused added (s, p) v'.notice in absurd (ground arith)
  comes_from added k l held l' v e v' e' n h =
      let r = sym h ∙ deliver-sent_refused added (s, p) v'.notice in absurd (ground arith)
  comes_from added k l answered l' v e v' e' n h =
      let r = sym h ∙ deliver-sent_refused added (s, p) v'.notice in absurd (ground arith)
