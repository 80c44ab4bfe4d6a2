-- ===== src/Transport/Stream/Session/Arrive.antt =====
-- What the bytes that come, the reads of the socket and new messages of the other end do to the
-- inbound part.
use vnano_msg.Common.{
  ℕ, ◌<◌, ◌≡◌, refl, sym, ap, ◌∙◌, arith, some, List, [], ◌∷◌, ◌++◌, length, length-append, All,
  done, true, false, Bool-cases, inl, inr, ◌==◌, map, Option,
}
use mathlib.Core.List.{append_assoc, map-append}
use vnano_msg.Core.Pipes.{Msg, Flags}
use vnano_msg.Core.Sock.{ℤ}
use vnano_msg.Aio.Fsm
use vnano_msg.Transport.Stream.Usock
use vnano_msg.Transport.Stream.Session.{
  Kind, tcp, ipc, Session, Sock, hdr_size, header, too_large, deliver, pipe_recv, Raised, finished,
  no_msg, reads,
}
use vnano_msg.Transport.Stream.Session.Frames.{
  size_of, Fits, payload, joined, frames, frames-snoc, length-header, cut_same,
}
use vnano_msg.Transport.Stream.Session.Inward.{
  Place, front, lost, inside, behind, under_way, IsAt, Holds, Allowed, Inward, told, asks_body,
  with_message, emptied, header_large, header_empty, header_more, body_came, deliver-refused,
  received_lost, pipe_recv_lem, pipe_recv_refused, pipe_recv_lost,
}

pub All-snoc {ℓ κ} :
    {A : Type ℓ} (P : A → Type κ) (l : List A) (x : A) → All P l → P x → All P (l ++ x ∷ [])
All-snoc P [] x h p = (p, tt)
All-snoc P (y ∷ l) x h p = (h.0, All-snoc P l x h.1 p)

pub All-front {ℓ κ} :
    {A : Type ℓ} (P : A → Type κ) (l : List A) (x : A) → All P (l ++ x ∷ []) → All P l
All-front P [] x h = tt
All-front P (y ∷ l) x h = (h.0, All-front P l x h.1)

pub All-last {ℓ κ} : {A : Type ℓ} (P : A → Type κ) (l : List A) (x : A) → All P (l ++ x ∷ []) → P x
All-last P [] x h = h.0
All-last P (y ∷ l) x h = All-last P l x h.1

size_of-joined : (m : Msg) → size_of (joined m) ≡ size_of m
size_of-joined m = omega (arith, length-append m.sphdr m.body)

no_payload : (m : Msg) → (size_of m == 0) ≡ true → payload m ≡ []
no_payload m h = empty (payload m) (ground (arith, length-append m.sphdr m.body))
  where
    empty : (l : List ℕ) → length l ≡ 0 → l ≡ []
    empty [] h = refl
    empty (x ∷ l) h = absurd (omega arith)

pub hdr_size_pos : (k : Kind) → 0 < hdr_size k
hdr_size_pos tcp = omega arith
hdr_size_pos ipc = omega arith

-- Another message of the other end.
pub more :
    (k : Kind) (opt : ℤ) (s : Session) (v : List ℕ) (c d : List Msg) (m : Msg)
    → Inward k opt s v c d
    → Fits m
    → Inward k opt s (v ++ (header k m ++ payload m)) (c ++ m ∷ []) d
more k opt s v c d m i f = record {
  place = i.place;
  rest = i.rest ++ m ∷ [];
  here = i.here;
  stream = longer i.place i.stream;
  kept =
      map-append joined c (m ∷ [])
      ∙ ap (λ (x : List Msg). x ++ joined m ∷ []) i.kept
      ∙ append_assoc d (map joined (under_way i.place ++ i.rest)) (joined m ∷ [])
      ∙ ap (λ (x : List Msg). d ++ x)
          (sym (map-append joined (under_way i.place ++ i.rest) (m ∷ []))
            ∙ ap (map joined) (append_assoc (under_way i.place) i.rest (m ∷ [])));
  fit =
      rw (← append_assoc (under_way i.place) i.rest (m ∷ []))
        (All-snoc Fits (under_way i.place ++ i.rest) m i.fit f);
  next = i.next;
  within = i.within;
}
  where
    longer :
        (p : Place)
        → Holds k v p i.rest
        → Holds k (v ++ (header k m ++ payload m)) p (i.rest ++ m ∷ [])
    longer front h =
        ap (λ (x : List ℕ). x ++ (header k m ++ payload m)) h ∙ sym (frames-snoc k i.rest m)
    longer (behind n) h =
        ap (λ (x : List ℕ). x ++ (header k m ++ payload m)) h ∙ sym (frames-snoc k i.rest m)
    longer (inside n) h =
        ap (λ (x : List ℕ). x ++ (header k m ++ payload m)) h
        ∙ append_assoc (payload n) (frames k i.rest) (header k m ++ payload m)
        ∙ ap (λ (x : List ℕ). payload n ++ x) (sym (frames-snoc k i.rest m))
    longer lost h = tt

module _ (k : Kind) (e : Sock) (s s' : Session) (x : Option Raised) (c d : List Msg)
    (run : s.fsm.phase ≡ Fsm.active) where
  -- A header.
  at_front :
      (m : Msg) (rest : List Msg)
      → IsAt k s front
      → map joined c ≡ d ++ map joined (m ∷ rest)
      → All Fits (m ∷ rest)
      → All (Allowed e.rcvmaxsize) d
      → deliver (Usock.Told.received (header k m)) k e s ≡ done (s', x)
      → Inward k e.rcvmaxsize s' (payload m ++ frames k rest) c d
  at_front m rest p kept (f, fs) w h = elim (Bool-cases (too_large e.rcvmaxsize (size_of m))) [
    | inl large ↦
        let r = sym h ∙ header_large k e m s run p f large in
        let es : s' ≡ record (told s) { inhdr = header k m; state = finished } = cc in
        rw es (record {
          place = lost;
          rest = m ∷ rest;
          here = refl;
          stream = tt;
          kept = kept;
          fit = (f, fs);
          next = tt;
          within = w;
        })
    | inr small ↦ elim (Bool-cases (size_of m == 0)) [
      | inl zero_size ↦
          let r = sym h ∙ header_empty k e m s run p f small zero_size in
          let es : s' ≡ with_message no_msg (record s { inhdr = header k m }) = cc in
          let none_left = no_payload m zero_size in
          rw (es, none_left)
            (record {
              place = behind m;
              rest = rest;
              here = (
                p.0,
                refl,
                refl,
                refl,
                sym (ap (λ (b : List ℕ). record no_msg { body = b }) none_left),
              );
              stream = refl;
              kept = kept;
              fit = (f, fs);
              next = (rw (size_of-joined m) small, tt);
              within = w;
            })
      | inr some_size ↦
          let r = sym h ∙ header_more k e m s run p f small some_size in
          let es : s' ≡ asks_body (header k m) (size_of m) s = cc in
          rw es (record {
            place = inside m;
            rest = rest;
            here = (p.0, refl, refl, p.3, some_size);
            stream = refl;
            kept = kept;
            fit = (f, fs);
            next = (rw (size_of-joined m) small, tt);
            within = w;
          })
    ]
  ]

  at_body :
      (m : Msg) (rest : List Msg)
      → IsAt k s (inside m)
      → map joined c ≡ d ++ map joined (m ∷ rest)
      → All Fits (m ∷ rest)
      → Allowed e.rcvmaxsize (joined m)
      → All (Allowed e.rcvmaxsize) d
      → deliver (Usock.Told.received (payload m)) k e s ≡ done (s', x)
      → Inward k e.rcvmaxsize s' (frames k rest) c d
  at_body m rest p kept fs small w h =
      let r = sym h ∙ body_came k e m s run p in
      let es : s' ≡ with_message (joined m) s = cc in
      rw es (record {
        place = behind m;
        rest = rest;
        here = (p.0, refl, refl, refl, refl);
        stream = refl;
        kept = kept;
        fit = fs;
        next = (small, tt);
        within = w;
      })

  -- What came is what was asked for.
  asked :
      (bytes : List ℕ) (n : ℕ)
      → s.usock.reading ≡ some n
      → deliver (Usock.Told.received bytes) k e s ≡ done (s', x)
      → length bytes ≡ n
  asked bytes n q h = elim (Bool-cases (n == length bytes)) [
    | inl yes_same ↦ ground arith
    | inr other ↦
        let f : reads (length bytes) s.usock.reading ≡ false = rw q other in
        let r = sym h ∙ deliver-refused k e s bytes f in absurd (ground arith)
  ]

  arrives_at :
      (p : Place) (bytes v : List ℕ) (rest : List Msg)
      → IsAt k s p
      → Holds k (bytes ++ v) p rest
      → map joined c ≡ d ++ map joined (under_way p ++ rest)
      → All Fits (under_way p ++ rest)
      → All (Allowed e.rcvmaxsize) (map joined (under_way p))
      → All (Allowed e.rcvmaxsize) d
      → deliver (Usock.Told.received bytes) k e s ≡ done (s', x)
      → Inward k e.rcvmaxsize s' v c d
  arrives_at front bytes v [] i t q f n w h =
      let l = asked bytes (hdr_size k) i.2 h in
      let m = ap length t in absurd (ground (arith, length-append bytes v, hdr_size_pos k))
  arrives_at front bytes v (m ∷ rest) i t q f n w h =
      let l = asked bytes (hdr_size k) i.2 h ∙ sym (length-header k m) in
      let (a, b) = cut_same bytes v (header k m) (payload m ++ frames k rest) t l in
      rw b (at_front m rest i q f w (rw a at h))
  arrives_at (inside m) bytes v rest i t q f n w h =
      let l = asked bytes (size_of m) i.2 h ∙ sym (length-append m.sphdr m.body) in
      let (a, b) = cut_same bytes v (payload m) (frames k rest) t l in
      rw b (at_body m rest i q f n.0 w (rw a at h))
  arrives_at (behind m) bytes v rest i t q f n w h =
      let g : reads (length bytes) s.usock.reading ≡ false = rw i.2 refl in
      let r = sym h ∙ deliver-refused k e s bytes g in absurd (ground arith)
  arrives_at lost bytes v rest i t q f n w h = absurd (received_lost k e s bytes s' x run i h)

-- Bytes come.
pub arrives-Inward :
    (k : Kind) (e : Sock) (s s' : Session) (x : Option Raised) (bytes v : List ℕ) (c d : List Msg)
    → s.fsm.phase ≡ Fsm.active
    → Inward k e.rcvmaxsize s (bytes ++ v) c d
    → deliver (Usock.Told.received bytes) k e s ≡ done (s', x)
    → Inward k e.rcvmaxsize s' v c d
arrives-Inward k e s s' x bytes v c d run i h =
    arrives_at k e s s' x c d run i.place bytes v i.rest i.here i.stream i.kept i.fit i.next
      i.within h

module _ (k : Kind) (opt : ℤ) (s s' : Session) (v : List ℕ) (c d : List Msg) (m : Msg)
    (rc : Flags) where
  reads_at :
      (p : Place) (rest : List Msg)
      → IsAt k s p
      → Holds k v p rest
      → map joined c ≡ d ++ map joined (under_way p ++ rest)
      → All Fits (under_way p ++ rest)
      → All (Allowed opt) (map joined (under_way p))
      → All (Allowed opt) d
      → pipe_recv k s ≡ done (rc, m, s')
      → Inward k opt s' v c (d ++ m ∷ [])
  reads_at (behind n) rest i t q f x w h =
      let r = sym h ∙ pipe_recv_lem k n s i in
      let es : s' ≡ emptied k s = cc in
      let em : m ≡ joined n = cc in
      rw (es, em)
        (record {
          place = front;
          rest = rest;
          here = (i.0, refl, refl, refl);
          stream = t;
          kept = q ∙ sym (append_assoc d (joined n ∷ []) (map joined rest));
          fit = f.1;
          next = tt;
          within = All-snoc (Allowed opt) d (joined n) w x.0;
        })
  reads_at front rest i t q f x w h =
      let r = sym h ∙ pipe_recv_refused k s i.3 in absurd (ground arith)
  reads_at (inside n) rest i t q f x w h =
      let r = sym h ∙ pipe_recv_refused k s i.3 in absurd (ground arith)
  reads_at lost rest i t q f x w h = let r = sym h ∙ pipe_recv_lost k s i in absurd (ground arith)

  -- The socket reads.
  pub reads-Inward :
      Inward k opt s v c d → pipe_recv k s ≡ done (rc, m, s') → Inward k opt s' v c (d ++ m ∷ [])
  reads-Inward i h = reads_at i.place i.rest i.here i.stream i.kept i.fit i.next i.within h
