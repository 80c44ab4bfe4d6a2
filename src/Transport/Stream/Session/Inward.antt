-- ===== src/Transport/Stream/Session/Inward.antt =====
-- The inbound part of a session, by where the next bytes of the stream stand in a message.
use vnano_msg.Common.{
  ℕ, ◌≡◌, arith, none, some, List, [], ◌∷◌, ◌++◌, length, length-append, All, done, abort, true,
  false, ◌==◌, map, Option,
}
use vnano_msg.Core.Pipes.{Msg}
use vnano_msg.Core.Pipebase
use vnano_msg.Core.Pipebase.{Side}
use vnano_msg.Core.Sock.{ℤ}
use vnano_msg.Aio.Fsm
use vnano_msg.Transport.Stream.Usock
use vnano_msg.Transport.Stream.Session.{
  Kind, active, hdr, body, hasmsg, Session, Sock, hdr_size, header, too_large, deliver, feed,
  handle, came, got_header, accept_size, fail, has_message, pipe_recv, recv, Raised, error,
  is_active, finished, nothing, no_msg, reads,
}
use vnano_msg.Transport.Stream.Session.Frames.{
  size_of, Fits, payload, joined, frames, length-header, size_in-header,
}

-- In front of a header, in front of the bytes of a message, or behind a message that the socket did
-- not get yet; `lost` is a session that reads no more.
pub data Place : Type 0 where
  front lost : Place
  inside behind : Msg → Place

abbrev pub under_way : Place → List Msg
under_way (inside m) = m ∷ []
under_way (behind m) = m ∷ []
under_way _ = []

abbrev pub IsAt : Kind → Session → Place → Type 0
IsAt k s front =
    (s.state ≡ active)
    × (s.instate ≡ hdr)
    × (s.usock.reading ≡ some (hdr_size k))
    × (s.pipebase.instate ≡ Side.async)
IsAt k s (inside m) =
    (s.state ≡ active)
    × (s.instate ≡ body)
    × (s.usock.reading ≡ some (size_of m))
    × (s.pipebase.instate ≡ Side.async)
    × ((size_of m == 0) ≡ false)
IsAt k s (behind m) =
    (s.state ≡ active)
    × (s.instate ≡ hasmsg)
    × (s.usock.reading ≡ none)
    × (s.pipebase.instate ≡ Side.ready)
    × (s.inmsg ≡ joined m)
IsAt k s lost = is_active s.state ≡ false

abbrev pub Holds : Kind → List ℕ → Place → List Msg → Type 0
Holds k v front rest = v ≡ frames k rest
Holds k v (inside m) rest = v ≡ payload m ++ frames k rest
Holds k v (behind m) rest = v ≡ frames k rest
Holds k v lost rest = Unit {0}

-- What the limit of the socket lets through.
abbrev pub Allowed : ℤ → Msg → Type 0
Allowed opt m = too_large opt (size_of m) ≡ false

-- `v` is on its way to the session, the other socket sent `c`, and this one got `d`.
pub record Inward (k : Kind) (opt : ℤ) (s : Session) (v : List ℕ) (c d : List Msg) : Type 0 where
  pub place : Place
  pub rest : List Msg
  pub here : IsAt k s place
  pub stream : Holds k v place rest
  pub kept : map joined c ≡ d ++ map joined (under_way place ++ rest)
  pub fit : All Fits (under_way place ++ rest)
  pub next : All (Allowed opt) (map joined (under_way place))
  pub within : All (Allowed opt) d

-- The session when bytes come: nothing is asked for, until it asks again.
abbrev pub told : Session → Session
told s = record s { usock = record s.usock { reading = none } }

abbrev pub asks_body : List ℕ → ℕ → Session → Session
asks_body bytes n s = record s {
  inhdr = bytes;
  inmsg = no_msg;
  instate = body;
  usock = record s.usock { reading = some n };
}

abbrev pub with_message : Msg → Session → Session
with_message m s = record (told s) {
  inmsg = m;
  instate = hasmsg;
  pipebase = record s.pipebase { instate = Side.ready };
}

module _ (k : Kind) (e : Sock) (m : Msg) (s : Session) (p : s.fsm.phase ≡ Fsm.active) where
  pub header_large :
      IsAt k s front
      → Fits m
      → too_large e.rcvmaxsize (size_of m) ≡ true
      → deliver (Usock.Told.received (header k m)) k e s
        ≡ done (record (told s) { inhdr = header k m; state = finished }, some error)
  unfolding deliver feed Fsm.feed handle came got_header accept_size fail
  header_large (a, b, c, d) f i =
      let g = size_in-header k m f in let n = length-header k m in ground arith

  pub header_empty :
      IsAt k s front
      → Fits m
      → too_large e.rcvmaxsize (size_of m) ≡ false
      → (size_of m == 0) ≡ true
      → deliver (Usock.Told.received (header k m)) k e s
        ≡ done (with_message no_msg (record s { inhdr = header k m }), none)
  unfolding deliver feed Fsm.feed handle came got_header accept_size has_message Pipebase.received
      Pipebase.complete
  header_empty (a, b, c, d) f i j =
      let g = size_in-header k m f in let n = length-header k m in ground arith

  pub header_more :
      IsAt k s front
      → Fits m
      → too_large e.rcvmaxsize (size_of m) ≡ false
      → (size_of m == 0) ≡ false
      → deliver (Usock.Told.received (header k m)) k e s
        ≡ done (asks_body (header k m) (size_of m) s, none)
  unfolding deliver feed Fsm.feed handle came got_header accept_size Usock.recv
  header_more (a, b, c, d) f i j =
      let g = size_in-header k m f in let n = length-header k m in ground arith

  pub body_came :
      IsAt k s (inside m)
      → deliver (Usock.Told.received (payload m)) k e s ≡ done (with_message (joined m) s, none)
  unfolding deliver feed Fsm.feed handle came has_message Pipebase.received Pipebase.complete
  body_came (a, b, c, d, z) = let n = length-append m.sphdr m.body in ground arith

-- Bytes come only as many as were asked for.
pub deliver-refused :
    (k : Kind) (e : Sock) (s : Session) (bytes : List ℕ)
    → reads (length bytes) s.usock.reading ≡ false
    → deliver (Usock.Told.received bytes) k e s ≡ abort
unfolding deliver
deliver-refused k e s bytes h = ground arith

pub received_lost :
    (k : Kind) (e : Sock) (s : Session) (bytes : List ℕ) (r : Session) (x : Option Raised)
    → s.fsm.phase ≡ Fsm.active
    → is_active s.state ≡ false
    → deliver (Usock.Told.received bytes) k e s ≡ done (r, x)
    → ⊥
unfolding deliver feed Fsm.feed handle
received_lost k e s bytes r x p h d = ground arith

-- What a read leaves.
abbrev pub emptied : Kind → Session → Session
emptied k s = record s {
  inmsg = no_msg;
  instate = hdr;
  usock = record s.usock { reading = some (hdr_size k) };
  pipebase = record s.pipebase { instate = Side.async };
}

pub pipe_recv_lem :
    (k : Kind) (m : Msg) (s : Session)
    → IsAt k s (behind m)
    → pipe_recv k s ≡ done (record nothing { release = true }, joined m, emptied k s)
unfolding pipe_recv Pipebase.recv recv Usock.recv Pipebase.settle_side Pipebase.side_after
pipe_recv_lem k m s (a, b, c, d, f) = ground arith

pub pipe_recv_refused :
    (k : Kind) (s : Session) → s.pipebase.instate ≡ Side.async → pipe_recv k s ≡ abort
unfolding pipe_recv Pipebase.recv
pipe_recv_refused k s h = ground arith

pub pipe_recv_lost : (k : Kind) (s : Session) → is_active s.state ≡ false → pipe_recv k s ≡ abort
unfolding pipe_recv Pipebase.recv recv
pipe_recv_lost k s h = ground arith
