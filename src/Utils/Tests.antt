-- ===== src/Utils/Tests.antt =====
-- The theorems about src/utils at concrete inputs, and runs of the functions.
use vnano_msg.Common.{
  zero, suc, ◌+◌, List, Option, Outcome, done, abort, ◌>>=◌, ℕ, ◌≡◌, refl, some, [], ◌∷◌, ◌++◌,
  arith,
}
use vnano_msg.Utils.Hash.{
  Hash, Item, init, get, insert, list_insert, slot, append, find, is_absent, is_crowded, rehash,
  move_all, move_chain,
}
use vnano_msg.Utils.Hash.Refine.{Agrees, empty_map}
use vnano_msg.Utils.Hash.Runs.{Call, inserts, erases, step, run, map_run, run-Agrees}
use vnano_msg.Utils.Wire.{gets, puts, getl, putl, getll, putll}
use vnano_msg.Utils.Wire.RoundTrip.{get-put}

putl_bytes : putl 0x8000_0102 ≡ 0x80 ∷ 0 ∷ 1 ∷ 2 ∷ []
unfolding putl
putl_bytes = refl

getl_number : getl (0x80 ∷ 0 ∷ 1 ∷ 2 ∷ 9 ∷ []) ≡ some 0x8000_0102
unfolding getl
getl_number = refl

get-put_example :
    (gets (puts 513 ++ (7 ∷ [])) ≡ some 513)
    × (getl (putl 70000 ++ (7 ∷ [])) ≡ some 70000)
    × (getll (putll 0x1_0000_0001 ++ (7 ∷ [])) ≡ some 0x1_0000_0001)
get-put_example = get-put 513 70000 0x1_0000_0001 (7 ∷ []) (omega arith) (omega arith) (omega arith)

-- Key 7 is put, dropped and put again; a key that is not there is not dropped.
abbrev reused : List Call
reused = inserts 7 1 ∷ inserts 39 2 ∷ erases (record { key = 7; owner = 1 }) ∷ inserts 7 3 ∷ []

run-Agrees_example : Agrees (run reused init) (map_run reused empty_map)
run-Agrees_example = run-Agrees reused

-- The seventeenth item doubles the slots.
abbrev numbered : ℕ → List Call
numbered zero = []
numbered (suc n) = inserts n (n + 100) ∷ numbered n

slots_and_find : ℕ → Hash → Outcome (ℕ × Option Item)
slots_and_find k h = done (h.slots, get h k)

grown :
    (run (numbered 17) init >>= slots_and_find 11)
    ≡ done (64, some (record { key = 11; owner = 111 }))
unfolding slots_and_find run step init insert list_insert get slot append find is_absent is_crowded
    rehash move_all move_chain
grown = refl

-- One structure is not put under two keys.
put_twice : run (inserts 1 5 ∷ inserts 2 5 ∷ []) init ≡ abort
unfolding run step init insert list_insert slot append is_absent is_crowded
put_twice = refl
