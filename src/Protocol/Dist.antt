-- ===== src/Protocol/Dist.antt =====
-- protocols/utils/dist.c: a message for all pipes. `struct nn_dist_data` is named by its pipe; its
-- list item is in the list when `pipes` holds it.
pub mod Broadcast
pub mod Total
use vnano_msg.Common.{
  ℕ, zero, suc, ◌+◌, ◌-◌, ◌%◌, ◌^◌, Bool, true, false, not, Option, none, some, List, [], ◌∷◌, ◌++◌,
  Outcome, done, abort, ◌>>=◌, ◌>>◌, assert, mem, is_empty, ◌==◌, if◌then◌else◌,
}
use vnano_msg.Core.Pipes.{Msg, Pipes}
use vnano_msg.Utils.ItemList.{without, push_back}

pub record Dist : Type 0 where
  pub count : ℕ
  pub pipes : List ℕ

-- `++count` and `--count` of a `uint32_t`.
abbrev pub inc32 : ℕ → ℕ
inc32 n = (n + 1) % 2 ^ 32

abbrev pub dec32 : ℕ → ℕ
dec32 n = (n + 2 ^ 32 - 1) % 2 ^ 32

unfoldable pub init : Dist
init = record { count = 0; pipes = [] }

unfoldable pub term : Dist → Outcome (Unit {0})
term d = do assert (d.count == 0); assert (is_empty d.pipes)

-- `count` falls only when the item is in the list.
unfoldable pub rm : Dist → ℕ → Dist
rm d p = if mem p d.pipes then record { count = dec32 d.count; pipes = without p d.pipes } else d

-- `nn_dist_out`; `nn_list_insert` asserts that the item is in no list.
unfoldable pub activate : Dist → ℕ → Outcome Dist
activate d p = do
  assert (not (mem p d.pipes))
  done (record { count = inc32 d.count; pipes = push_back d.pipes p })

abbrev pub is_excluded : Option ℕ → ℕ → Bool
is_excluded none p = false
is_excluded (some q) p = p == q

module _ (ps : Pipes) where
  open ps use {World}

  -- The `while` loop over the pipes from the iterator on: the pipes that stay, the count, and the
  -- state of the pipes. A pipe that answers RELEASE leaves the list.
  unfoldable pub send_loop : List ℕ → Msg → Option ℕ → ℕ → World → Outcome (List ℕ × ℕ × World)
  send_loop [] m exclude n w = done ([], n, w)
  send_loop (p ∷ l) m exclude n w = elim (is_excluded exclude p) [
    | true ↦ do (l', n', w') ← send_loop l m exclude n w; done (p ∷ l', n', w')
    | false ↦ do
      (rc, w1) ← ps.send p m w
      elim rc.release [
        | true ↦ send_loop l m exclude (dec32 n) w1
        | false ↦ do (l', n', w') ← send_loop l m exclude n w1; done (p ∷ l', n', w')
      ]
  ]

  -- With no pipe the message is dropped. The return code is 0 on every path.
  unfoldable pub send : Dist → Msg → Option ℕ → World → Outcome (Dist × World)
  send d m exclude w = if d.count == 0 then done (d, w) else do
    (l, n, w') ← send_loop d.pipes m exclude d.count w
    done (record { count = n; pipes = l }, w')
