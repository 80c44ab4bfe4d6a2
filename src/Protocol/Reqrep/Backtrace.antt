-- ===== src/Protocol/Reqrep/Backtrace.antt =====
-- The backtrace in front of a request, in xrep.c: words of 32 bits of which the last alone has its
-- most significant bit set.
pub mod Frames
use vnano_msg.Common.{
  ℕ, zero, suc, ◌+◌, ◌*◌, ◌/◌, ◌%◌, ◌^◌, ◌≤◌, ◌<◌, ◌≡◌, refl, ap, ◌∙◌, Bool, Option, none, some,
  List, [], ◌∷◌, ◌++◌, All, Outcome, done, ◌>>=◌, ◌>>◌, assert, Reply, ok, err, eagain, arith,
  length, take, drop, is_empty, ltb, ◌==◌, if◌then◌else◌,
}
use vnano_msg.Core.Pipes.{Msg}
use vnano_msg.Utils.Wire.{getl, putl}

-- `word & 0x80000000`
abbrev pub is_bottom : ℕ → Bool
is_bottom word = word / 2 ^ 31 % 2 == 1

-- The loop of `nn_xrep_recv`, after `i` words that are not the bottom: how many there are with it,
-- or `none` if the data end before.
unfoldable pub count_hops : List ℕ → ℕ → Option ℕ
count_hops (a ∷ b ∷ c ∷ d ∷ rest) i =
    let more = count_hops rest (i + 1) in
    elim (getl (a ∷ b ∷ c ∷ d ∷ [])) [
      | none ↦ none
      | some word ↦ if is_bottom word then some (i + 1) else more
    ]
count_hops _ i = none

-- What `nn_xrep_recv` does to a message that the transport did not parse.
unfoldable pub split_header : ℕ → Msg → Outcome (Reply Msg)
split_header maxttl m = elim (count_hops m.body 0) [
  | none ↦ done (err eagain)
  | some i ↦ if ltb maxttl i then done (err eagain) else do
    assert (is_empty m.sphdr)
    done (ok (record m { sphdr = take (i * 4) m.body; body = drop (i * 4) m.body }))
]

-- The words `hops` that name the way back, and the identifier of the request at the bottom.
unfoldable pub frames : List ℕ → ℕ → List ℕ
frames [] id = putl (id + 2 ^ 31)
frames (h ∷ hops) id = putl h ++ frames hops id
