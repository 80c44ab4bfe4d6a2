-- ===== src/Utils/Hash/Runs.antt =====
-- Sequences of calls on the table, and on the finite map that it stands for.
use vnano_msg.Common.{ℕ, refl, List, [], ◌∷◌, Outcome, done, abort, ◌>>=◌}
use vnano_msg.Utils.Hash.{Item, Hash, find, init, insert, erase, get}
use vnano_msg.Utils.Hash.Refine.{
  Map, empty_map, put, withdraw, Represents, Agrees, init-IsGood, insert-Agrees, erase-Agrees,
}

pub data Call : Type 0 where
  inserts : ℕ → ℕ → Call
  erases : Item → Call

unfoldable pub step : Call → Hash → Outcome Hash
step (inserts k o) h = insert h k o
step (erases it) h = erase h it

pub map_step : Call → Map → Outcome Map
map_step (inserts k o) f = put f k o
map_step (erases it) f = withdraw f it

unfoldable pub run : List Call → Hash → Outcome Hash
run [] h = done h
run (c ∷ cs) h = step c h >>= run cs

pub map_run : List Call → Map → Outcome Map
map_run [] f = done f
map_run (c ∷ cs) f = map_step c f >>= map_run cs

step-Agrees : (c : Call) (h : Hash) (f : Map) → Represents h f → Agrees (step c h) (map_step c f)
unfolding step map_step
step-Agrees (inserts k o) h f r = insert-Agrees h f k o r
step-Agrees (erases it) h f r = erase-Agrees h f it r

Agrees-bind :
    (m : Outcome Hash) (n : Outcome Map) (a : Hash → Outcome Hash) (b : Map → Outcome Map)
    → Agrees m n
    → ((h : Hash) (f : Map) → Represents h f → Agrees (a h) (b f))
    → Agrees (m >>= a) (n >>= b)
Agrees-bind (done h) (done f) a b r k = k h f r
Agrees-bind (done h) abort a b r k = absurd r
Agrees-bind abort (done f) a b r k = absurd r
Agrees-bind abort abort a b r k = tt

run-Agrees_from :
    (cs : List Call) (h : Hash) (f : Map) → Represents h f → Agrees (run cs h) (map_run cs f)
unfolding run map_run
run-Agrees_from [] h f r = r
run-Agrees_from (c ∷ cs) h f r =
    Agrees-bind (step c h) (map_step c f) (run cs) (map_run cs) (step-Agrees c h f r)
      (run-Agrees_from cs)

-- Whatever calls of nn_hash_insert and nn_hash_erase follow nn_hash_init, an assertion fails
-- exactly if they put a key that is there, or a structure that is there already, or drop an item
-- that is not there, and otherwise nn_hash_get then finds what the finite map has that they build,
-- and the table is well-formed and links the structures in the map.
pub run-Agrees : (cs : List Call) → Agrees (run cs init) (map_run cs empty_map)
unfolding init get find
run-Agrees cs = run-Agrees_from cs init empty_map (init-IsGood, λ k. refl, λ o. refl)
