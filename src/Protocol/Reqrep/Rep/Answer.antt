-- ===== src/Protocol/Reqrep/Rep/Answer.antt =====
-- A request that comes with its way back, and the reply to it.
use vnano_msg.Common.{
  ℕ, ◌^◌, ◌<◌, ◌≡◌, refl, ap, ◌∙◌, Bool, true, false, some, List, [], ◌∷◌, ◌++◌, All, done, arith,
  if◌then◌else◌, length, drop, mem, ok,
}
use vnano_msg.Core.Pipes.{Msg, Flags, Pipes}
use vnano_msg.Utils.Wire.{getl, putl}
use vnano_msg.Utils.Wire.RoundTrip.{get-put}
use vnano_msg.Protocol.Fq
use vnano_msg.Protocol.Fq.{Fq}
use vnano_msg.Protocol.Reqrep.Backtrace.{frames}
use vnano_msg.Protocol.Reqrep.Backtrace.Frames.{IsHop, split_header-frames}
use vnano_msg.Protocol.Reqrep.Xrep
use vnano_msg.Protocol.Reqrep.Xrep.{Xrep, XrepData}
use vnano_msg.Protocol.Reqrep.Xrep.Registry.{IsRegistered}
use vnano_msg.Protocol.Reqrep.Xrep.Runs.{Reach, Reach-IsRegistry}
use vnano_msg.Protocol.Reqrep.Rep
use vnano_msg.Protocol.Reqrep.Rep.{Rep}

-- A message as the transport hands it over, with the backtrace in front of its body.
abbrev pub request : List ℕ → ℕ → List ℕ → List ℕ → Msg
request hops id hdrs body = record { sphdr = []; hdrs = hdrs; body = frames hops id ++ body }

frames_cons : (h : ℕ) (hops : List ℕ) (id : ℕ) → frames (h ∷ hops) id ≡ putl h ++ frames hops id
unfolding frames
frames_cons h hops id = refl

-- The raw socket, of which the pipe is registered.
module _ (ps : Pipes) (x : Xrep) (p : ℕ) (reg : IsRegistered x p)
    (small : (x.datas p).key < 2 ^ 31) where
  send-routes :
      (m : Msg) (back : List ℕ) (w : ps.World)
      → (x.datas p).out ≡ true
      → m.sphdr ≡ putl (x.datas p).key ++ back
      → Xrep.send ps x m w ≡ Xrep.send_to ps x p (record m { sphdr = back }) w
  unfolding Xrep.send putl
  send-routes m back w out e =
      let key = (x.datas p).key in
      let g : getl m.sphdr ≡ some key =
        ap getl e ∙ (get-put 0 key 0 back (omega arith) (omega arith) (omega arith)).1 in
      let d : drop 4 m.sphdr ≡ back = ap (λ (t : List ℕ). drop 4 t) e in
      rw (Xrep.send, g, reg, out, d) refl

  recv-frames :
      (maxttl : ℕ) (hops : List ℕ) (id : ℕ) (hdrs body : List ℕ) (release : Bool) (fq : Fq)
      (w w' : ps.World)
      → All IsHop hops
      → IsHop id
      → length hops < maxttl
      → Fq.recv ps x.inpipes w
        ≡ done (
          ok (record { release = release; parsed = false }, request hops id hdrs body, p),
          fq,
          w',
        )
      → Xrep.recv ps maxttl x w
        ≡ done (
          ok (record { sphdr = frames ((x.datas p).key ∷ hops) id; hdrs = hdrs; body = body }),
          record x { inpipes = fq },
          w',
        )
  unfolding Xrep.recv Xrep.prepend frames
  recv-frames maxttl hops id hdrs body release fq w w' a h few e =
      rw (Xrep.recv, e, split_header-frames maxttl hops id hdrs body a h few) refl

-- The REP socket with a request in progress.
abbrev pub busy : Xrep → List ℕ → Rep
busy x back = record { xrep = x; backtrace = back; inprogress = true }

-- In any state that the calls of the raw socket lead to, a request that the fair queue reads from a
-- pipe that may be written to, and that begins with a backtrace no longer than NN_MAXTTL allows, is
-- handed over by nn_rep_recv as what is behind the backtrace. nn_rep_send then writes the reply of
-- the application to that pipe and to no other, with the same backtrace as its header, if the pipe
-- answers the write; no request is in progress after it.
pub reply_returns :
    (ps : Pipes) (r : Rep) (pipes : List ℕ) (p maxttl : ℕ) (hops : List ℕ) (id : ℕ)
    (hdrs body : List ℕ) (release : Bool) (fq : Fq) (w w' : ps.World) (reply : Msg) (rc : Flags)
    (v v' : ps.World)
    → Reach ps r.xrep pipes
    → mem p pipes ≡ true
    → (r.xrep.datas p).out ≡ true
    → All IsHop hops
    → IsHop id
    → length hops < maxttl
    → Fq.recv ps r.xrep.inpipes w
      ≡ done
          (ok (record { release = release; parsed = false }, request hops id hdrs body, p), fq, w')
    → reply.sphdr ≡ []
    → ps.send p (record reply { sphdr = frames hops id }) v ≡ done (rc, v')
    → (s : Rep) × (Rep.recv ps maxttl r w
        ≡ done (ok (record { sphdr = []; hdrs = hdrs; body = body }), s, w'))
      × (t : Rep) × (Rep.send ps s reply v ≡ done (ok tt, t, v'))
      × (t.inprogress ≡ false)
unfolding Rep.recv Rep.send Xrep.send_to
reply_returns ps r pipes p maxttl hops id hdrs body release fq w w' reply rc v v' reach here out a h
      few e bare written =
    let reg = Reach-IsRegistry ps reach in
    let x : Xrep = record r.xrep { inpipes = fq } in
    let back = frames ((x.datas p).key ∷ hops) id in
    let got =
      recv-frames ps r.xrep p (reg.registered p here) (reg.small p here) maxttl hops id hdrs body
        release fq w w' a h few e in
    let sent =
      send-routes ps x p (reg.registered p here) (reg.small p here) (record reply { sphdr = back })
        (frames hops id) v out (frames_cons (x.datas p).key hops id) in
    (
      busy x back,
      rw (Rep.recv, got) refl,
      record {
        xrep = if rc.release then Xrep.set_out x p false else x;
        backtrace = [];
        inprogress = false;
      },
      rw (Rep.send, bare, sent, Xrep.send_to, written) refl,
      refl,
    )
