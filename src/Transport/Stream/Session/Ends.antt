-- ===== src/Transport/Stream/Session/Ends.antt =====
-- What each call and each event leaves at a session and of the bytes that come to it.
use vnano_msg.Common.{
  ◌≡◌, refl, ◌∙◌, arith, none, some, List, [], ◌∷◌, ◌++◌, done, Bool, true, false, Option, ℕ,
}
use vnano_msg.Core.Pipes.{Msg, Flags}
use vnano_msg.Core.Pipebase
use vnano_msg.Core.Sock.{ℤ}
use vnano_msg.Core.Pipebase.{Side}
use vnano_msg.Aio.Fsm
use vnano_msg.Transport.Stream.Usock
use vnano_msg.Transport.Stream.Session.{
  Kind, Session, Sock, deliver, pipe_recv, pipe_send, Raised, is_active, start_pipe, fail, header,
}
use vnano_msg.Transport.Stream.Session.Frames.{Fits, payload}
use vnano_msg.Transport.Stream.Session.Inward.{
  Place, IsAt, front, lost, inside, behind, under_way, Inward,
}
use vnano_msg.Transport.Stream.Session.Arrive.{more, arrives-Inward, reads-Inward}
use vnano_msg.Transport.Stream.Session.Outward.{
  IsBreak, Outward, filled, pipe_send_lem, drained, deliver-sent, deliver-sent_idle, filled-Outward,
  drained-Outward, received-SameOut, breaks-SameOut, reads-SameOut, Outward-SameOut,
}

-- A session whose header exchange is over.
abbrev pub IsFresh : Session → Type 0
IsFresh s = (s.fsm.phase ≡ Fsm.active) × (s.usock.writing ≡ none)

module _ (k : Kind) where
  -- One direction, and the other half of the receiving session.
  pub record End (x : Sock) (s : Session) (v : List ℕ) (c d : List Msg) : Type 0 where
    pub running : s.fsm.phase ≡ Fsm.active
    pub busy : Bool
    pub outward : Outward s busy
    pub inward : Inward k x.rcvmaxsize s v c d

  start_pipe-IsAt :
      (x : Sock) (s0 s : Session)
      → IsFresh s0
      → start_pipe k x s0 ≡ done (s, none)
      → (s.fsm.phase ≡ Fsm.active) × IsAt k s front × Outward s false
  unfolding start_pipe fail Pipebase.start Usock.recv
  start_pipe-IsAt x s0 s f h = ground arith

  pub fresh-End :
      (x : Sock) (s0 s : Session)
      → IsFresh s0
      → start_pipe k x s0 ≡ done (s, none)
      → End x s [] [] []
  fresh-End x s0 s f h =
      let (run, i, o) = start_pipe-IsAt x s0 s f h in
      record {
        running = run;
        busy = false;
        outward = o;
        inward = record {
          place = front;
          rest = [];
          here = i;
          stream = refl;
          kept = refl;
          fit = tt;
          next = tt;
          within = tt;
        };
      }

  -- The inbound part goes by these fields alone.
  filled-Inward :
      (opt : ℤ) (m : Msg) (s : Session) (v : List ℕ) (c d : List Msg)
      → Inward k opt s v c d
      → Inward k opt (filled k m s) v c d
  filled-Inward opt m s v c d i = record {
    place = i.place;
    rest = i.rest;
    here = same i.place i.here;
    stream = i.stream;
    kept = i.kept;
    fit = i.fit;
    next = i.next;
    within = i.within;
  }
    where
      same : (p : Place) → IsAt k s p → IsAt k (filled k m s) p
      same front h = h
      same (inside n) h = h
      same (behind n) h = h
      same lost h = h

  drained-Inward :
      (opt : ℤ) (s : Session) (v : List ℕ) (c d : List Msg)
      → Inward k opt s v c d
      → Inward k opt (drained s) v c d
  drained-Inward opt s v c d i = record {
    place = i.place;
    rest = i.rest;
    here = same i.place i.here;
    stream = i.stream;
    kept = i.kept;
    fit = i.fit;
    next = i.next;
    within = i.within;
  }
    where
      same : (p : Place) → IsAt k s p → IsAt k (drained s) p
      same front h = h
      same (inside n) h = h
      same (behind n) h = h
      same lost h = h

  lost-Inward :
      (opt : ℤ) (s s' : Session) (v : List ℕ) (c d : List Msg)
      → Inward k opt s v c d
      → is_active s'.state ≡ false
      → Inward k opt s' v c d
  lost-Inward opt s s' v c d i h = record {
    place = lost;
    rest = under_way i.place ++ i.rest;
    here = h;
    stream = tt;
    kept = i.kept;
    fit = i.fit;
    next = tt;
    within = i.within;
  }

  module _ {x : Sock} {s s' : Session} (v : List ℕ) (c d : List Msg) where
    pub writes-End :
        {y : Sock} {p : Session} (w : List ℕ) (a b : List Msg) (m : Msg) (rc : Flags)
        (bytes : List ℕ)
        → End x s v c d
        → End y p w a b
        → Fits m
        → pipe_send k m s ≡ done (rc, s')
        → s'.usock.writing ≡ some bytes
        → End x s' v c d × End y p (w ++ bytes) (a ++ m ∷ []) b
    writes-End {y} {p} w a b m rc bytes e f fits h g =
        let (es, act) = pipe_send_lem k m s s' rc h in
        let eb : bytes ≡ header k m ++ payload m = ground arith in
        rw (es, eb)
          (
            record {
              running = e.running;
              busy = true;
              outward = filled-Outward k m s;
              inward = filled-Inward x.rcvmaxsize m s v c d e.inward;
            },
            record {
              running = f.running;
              busy = f.busy;
              outward = f.outward;
              inward = more k y.rcvmaxsize p w a b m f.inward fits;
            },
          )

    pub written-End :
        (r : Option Raised)
        → End x s v c d
        → deliver Usock.Told.sent k x s ≡ done (s', r)
        → End x s' v c d
    written-End r e h = written_from e.busy e.outward
      where
        written_from : (busy : Bool) → Outward s busy → End x s' v c d
        written_from true o =
            let es = deliver-sent k x s s' r e.running o.out h in
            rw es (record {
              running = e.running;
              busy = false;
              outward = drained-Outward s;
              inward = drained-Inward x.rcvmaxsize s v c d e.inward;
            })
        written_from false o = absurd (deliver-sent_idle k x s s' r o.writing h)

    pub arrives-End :
        (bytes : List ℕ) (r : Option Raised)
        → End x s (bytes ++ v) c d
        → deliver (Usock.Told.received bytes) k x s ≡ done (s', r)
        → End x s' v c d
    arrives-End bytes r e h =
        let o = received-SameOut k x bytes s s' r e.running h in
        record {
          running = o.phase ∙ e.running;
          busy = e.busy;
          outward = Outward-SameOut s s' e.busy o e.outward;
          inward = arrives-Inward k x s s' r bytes v c d e.running e.inward h;
        }

    pub breaks-End :
        (t : Usock.Told) (r : Option Raised)
        → IsBreak t
        → End x s v c d
        → deliver t k x s ≡ done (s', r)
        → End x s' v c d
    breaks-End t r br e h =
        let (o, off) = breaks-SameOut k x t s s' r br e.running h in
        record {
          running = o.phase ∙ e.running;
          busy = e.busy;
          outward = Outward-SameOut s s' e.busy o e.outward;
          inward = lost-Inward x.rcvmaxsize s s' v c d e.inward off;
        }

    pub reads-End :
        (m : Msg) (rc : Flags)
        → End x s v c d
        → pipe_recv k s ≡ done (rc, m, s')
        → End x s' v c (d ++ m ∷ [])
    reads-End m rc e h =
        let o = reads-SameOut k s s' m rc h in
        record {
          running = o.phase ∙ e.running;
          busy = e.busy;
          outward = Outward-SameOut s s' e.busy o e.outward;
          inward = reads-Inward k x.rcvmaxsize s s' v c d m rc e.inward h;
        }
