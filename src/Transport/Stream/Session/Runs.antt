-- ===== src/Transport/Stream/Session/Runs.antt =====
-- Runs of two sessions that are connected by a stream in each direction.
use mathlib.Core.List.{append-nil}
use vnano_msg.Common.{
  ◌≡◌, ap, ◌∙◌, arith, none, some, List, [], ◌∷◌, ◌++◌, All, done, true, false, map, Option, ℕ,
  length, length-append,
}
use vnano_msg.Core.Pipes.{Msg, Flags}
use vnano_msg.Core.Pipebase
use vnano_msg.Core.Pipebase.{Side}
use vnano_msg.Transport.Stream.Usock
use vnano_msg.Transport.Stream.Session.{
  Kind, Session, Sock, deliver, pipe_recv, pipe_send, Raised, is_active, start_pipe, header,
}
use vnano_msg.Transport.Stream.Session.Frames.{Fits, joined, frames, payload, length-header}
use vnano_msg.Transport.Stream.Session.Inward.{
  Place, IsAt, front, lost, inside, behind, under_way, Holds, Allowed,
}
use vnano_msg.Transport.Stream.Session.Ends.{
  IsFresh, End, fresh-End, writes-End, written-End, arrives-End, reads-End, breaks-End,
}
use vnano_msg.Transport.Stream.Session.Arrive.{hdr_size_pos, All-front, All-last}
use vnano_msg.Transport.Stream.Session.Outward.{IsBreak}

-- The two sessions after any calls of their sockets and any work of the streams, with the bytes that
-- are on their way from the first to the second and back, the messages that the first socket sent
-- and the second got, and those that the second sent and the first got. `x` and `y` are the sockets.
module _ (k : Kind) where
  pub data Run
      : Sock
        → Sock
        → Session
        → Session
        → List ℕ
        → List ℕ
        → List Msg
        → List Msg
        → List Msg
        → List Msg
        → Type 0 where
    opened :
        {x y : Sock} {s p : Session} (s0 p0 : Session)
        → IsFresh s0
        → IsFresh p0
        → start_pipe k x s0 ≡ done (s, none)
        → start_pipe k y p0 ≡ done (p, none)
        → Run x y s p [] [] [] [] [] []
    turns :
        {x y : Sock} {s p : Session} {w v : List ℕ} {a b c d : List Msg}
        → Run x y s p w v a b c d
        → Run y x p s v w c d a b
    writes :
        {x y : Sock} {s p s' : Session} {w v bytes : List ℕ} {a b c d : List Msg} (m : Msg)
        {rc : Flags}
        → Run x y s p w v a b c d
        → pipe_send k m s ≡ done (rc, s')
        → s'.usock.writing ≡ some bytes
        → Run x y s' p (w ++ bytes) v (a ++ m ∷ []) b c d
    written :
        {x y : Sock} {s p s' : Session} {w v : List ℕ} {a b c d : List Msg} {r : Option Raised}
        → Run x y s p w v a b c d
        → deliver Usock.Told.sent k x s ≡ done (s', r)
        → Run x y s' p w v a b c d
    arrives :
        {x y : Sock} {s p s' : Session} {w v : List ℕ} {a b c d : List Msg} {r : Option Raised}
        (bytes : List ℕ)
        → Run x y s p w (bytes ++ v) a b c d
        → deliver (Usock.Told.received bytes) k x s ≡ done (s', r)
        → Run x y s' p w v a b c d
    reads :
        {x y : Sock} {s p s' : Session} {w v : List ℕ} {a b c d : List Msg} {m : Msg} {rc : Flags}
        → Run x y s p w v a b c d
        → pipe_recv k s ≡ done (rc, m, s')
        → Run x y s' p w v a b c (d ++ m ∷ [])
    breaks :
        {x y : Sock} {s p s' : Session} {w v : List ℕ} {a b c d : List Msg} {r : Option Raised}
        (t : Usock.Told)
        → IsBreak t
        → Run x y s p w v a b c d
        → deliver t k x s ≡ done (s', r)
        → Run x y s' p w v a b c d

  pub Run-End :
      {x y : Sock} {s p : Session} {w v : List ℕ} {a b c d : List Msg}
      → Run x y s p w v a b c d
      → All Fits a
      → All Fits c
      → End k x s v c d × End k y p w a b
  Run-End {x = x} {y = y} (opened {s = s} {p = p} s0 p0 f g h i) m n =
      (fresh-End k x s0 s f h, fresh-End k y p0 p g i)
  Run-End (turns r) m n = let (e, f) = Run-End r n m in (f, e)
  Run-End (writes {w = w} {v = v} {bytes = bytes} {a = a} {b = b} {c = c} {d = d} l r h g) m n =
      let (e, f) = Run-End r (All-front Fits a l m) n in
      writes-End k v c d w a b l _ bytes e f (All-last Fits a l m) h g
  Run-End (written {v = v} {c = c} {d = d} {r = r} q h) m n =
      let (e, f) = Run-End q m n in (written-End k v c d r e h, f)
  Run-End (arrives {v = v} {c = c} {d = d} {r = r} bytes q h) m n =
      let (e, f) = Run-End q m n in (arrives-End k v c d bytes r e h, f)
  Run-End (reads {v = v} {c = c} {d = d} {m = l} {rc = rc} q h) m n =
      let (e, f) = Run-End q m n in (reads-End k v c d l rc e h, f)
  Run-End (breaks {v = v} {c = c} {d = d} {r = r} t b q h) m n =
      let (e, f) = Run-End q m n in (breaks-End k v c d t r b e h, f)

  -- Two sessions, both of tcp or both of ipc, are connected by a stream in each direction.
  -- After any writes and reads of their sockets, any work of the streams, which hand over as
  -- many bytes as a session asked for, and any close or error of a stream: what a socket got
  -- is, in order and each message in one piece, the beginning of what the other sent, and no
  -- message of it is larger than NN_RCVMAXSIZE, if that is not negative. Each message that is
  -- sent has less than 2 ^ 64 bytes.
  pub got_in_order :
      {x y : Sock} {s p : Session} {w v : List ℕ} {a b c d : List Msg}
      → Run x y s p w v a b c d
      → All Fits a
      → All Fits c
      → ((e : List Msg) × (map joined c ≡ d ++ e)) × All (Allowed x.rcvmaxsize) d
  got_in_order r m n = let i = (Run-End r m n).0.inward in ((_, i.kept), i.within)

  all_read_at :
      (s : Session) (c d : List Msg) (p : Place) (rest : List Msg)
      → IsAt k s p
      → Holds k [] p rest
      → map joined c ≡ d ++ map joined (under_way p ++ rest)
      → is_active s.state ≡ true
      → Pipebase.is_ready s.pipebase.instate ≡ false
      → map joined c ≡ d
  all_read_at s c d front [] i t q a b = q ∙ append-nil _
  all_read_at s c d front (m ∷ rest) i t q a b =
      let n = ap length t in
      absurd (
        omega (
          arith,
          length-append (header k m) (payload m ++ frames k rest),
          length-header k m,
          hdr_size_pos k,
        ))
  all_read_at s c d (inside m) rest i t q a b =
      let n = ap length t in
      absurd (
        ground
          (arith, i.4, length-append (payload m) (frames k rest), length-append m.sphdr m.body))
  all_read_at s c d (behind m) rest i t q a b = absurd (ground (arith, i.3))
  all_read_at s c d lost rest i t q a b = absurd (ground (arith, i))

  -- In such a run, once no bytes are on their way to a session that is active and whose pipe
  -- is not ready for reading, its socket got all messages that the other sent, in order and
  -- each in one piece. Each message that is sent has less than 2 ^ 64 bytes.
  pub all_read :
      {x y : Sock} {s p : Session} {w : List ℕ} {a b c d : List Msg}
      → Run x y s p w [] a b c d
      → All Fits a
      → All Fits c
      → is_active s.state ≡ true
      → Pipebase.is_ready s.pipebase.instate ≡ false
      → map joined c ≡ d
  all_read {s = s} {c = c} {d = d} r m n act idle =
      let i = (Run-End r m n).0.inward in
      all_read_at s c d i.place i.rest i.here i.stream i.kept act idle
