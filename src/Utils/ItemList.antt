-- ===== src/Utils/ItemList.antt =====
-- An intrusive list (utils/list.h) as the sequence of its items, each named by a number. The
-- functions are those of list.c at this view.
pub mod Split
use vnano_msg.Common.{ℕ, Option, none, some, List, [], ◌∷◌, ◌++◌, ◌==◌, if◌then◌else◌}

-- `nn_list_begin`
abbrev pub begin : List ℕ → Option ℕ
begin [] = none
begin (x ∷ l) = some x

-- `nn_list_next`, at an item of the list
unfoldable pub next : ℕ → List ℕ → Option ℕ
next x [] = none
next x (y ∷ l) = if x == y then begin l else next x l

-- what `nn_list_erase` leaves
unfoldable pub without : ℕ → List ℕ → List ℕ
without x [] = []
without x (y ∷ l) = if x == y then l else y ∷ without x l

-- `nn_list_insert (l, x, nn_list_end (l))`
abbrev pub push_back : List ℕ → ℕ → List ℕ
push_back l x = l ++ (x ∷ [])
