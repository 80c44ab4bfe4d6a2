-- ===== src/Transport/Stream/Session/Frames.antt =====
-- The messages of a stream as the bytes that stand for them.
use vnano_msg.Common.{
  ℕ, ◌+◌, ◌%◌, ◌^◌, ◌<◌, ◌≡◌, refl, sym, ap, ◌∙◌, arith, some, List, [], ◌∷◌, ◌++◌, length, done,
}
use mathlib.Core.List.{append_assoc, append-nil}
use vnano_msg.Utils.Wire.{getll, putll}
use vnano_msg.Utils.Wire.RoundTrip.{get-put}
use vnano_msg.Core.Pipes.{Msg}
use vnano_msg.Transport.Stream.Session.{Kind, tcp, ipc, hdr_size, header, size_in}

abbrev pub size_of : Msg → ℕ
size_of m = length m.sphdr + length m.body

-- A size that a `size_t` can hold.
abbrev pub Fits : Msg → Type 0
Fits m = size_of m < 2 ^ 64

abbrev pub payload : Msg → List ℕ
payload m = m.sphdr ++ m.body

-- The message as the other end gets it, in one piece.
abbrev pub joined : Msg → Msg
joined m = record { sphdr = []; hdrs = []; body = payload m }

abbrev pub frames : Kind → List Msg → List ℕ
frames k [] = []
frames k (m ∷ l) = header k m ++ (payload m ++ frames k l)

pub frames-snoc :
    (k : Kind) (l : List Msg) (m : Msg)
    → frames k (l ++ m ∷ []) ≡ frames k l ++ (header k m ++ payload m)
frames-snoc k [] m = ap (λ x. header k m ++ x) (append-nil (payload m))
frames-snoc k (n ∷ l) m =
    ap (λ x. header k n ++ (payload n ++ x)) (frames-snoc k l m)
    ∙ ap (λ x. header k n ++ x)
        (sym (append_assoc (payload n) (frames k l) (header k m ++ payload m)))
    ∙ sym (append_assoc (header k n) (payload n ++ frames k l) (header k m ++ payload m))

pub length-header : (k : Kind) (m : Msg) → length (header k m) ≡ hdr_size k
unfolding header putll
length-header tcp m = refl
length-header ipc m = refl

getll-putll : (w : ℕ) → w < 2 ^ 64 → getll (putll (w % 2 ^ 64)) ≡ some w
getll-putll w h =
    let e : w % 2 ^ 64 ≡ w = omega arith in
    rw e
      (ap getll (sym (append-nil (putll w))) ∙ (get-put 0 0 w [] (omega arith) (omega arith) h).2)

pub size_in-header : (k : Kind) (m : Msg) → Fits m → size_in k (header k m) ≡ done (size_of m)
unfolding size_in header
size_in-header tcp m f = ground (arith, getll-putll (size_of m) f)
size_in-header ipc m f = ground (arith, getll-putll (size_of m) f)

-- Two ways to cut a list at one length.
pub cut_same {ℓ} :
    {A : Type ℓ} (a b c d : List A) → a ++ b ≡ c ++ d → length a ≡ length c → (a ≡ c) × (b ≡ d)
cut_same [] b [] d h n = (refl, h)
cut_same [] b (y ∷ c) d h n = absurd (omega arith)
cut_same (x ∷ a) b [] d h n = absurd (omega arith)
cut_same (x ∷ a) b (y ∷ c) d h n = let (e, f) = cut_same a b c d (cc) (omega arith) in (cc, f)
