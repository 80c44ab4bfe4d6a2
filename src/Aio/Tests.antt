-- ===== src/Aio/Tests.antt =====
-- The theorems about asynchronous operations at concrete inputs.
use vnano_msg.Common.{◌≡◌, refl, false, done, some, [], ◌∷◌, arith, ltb}
use vnano_msg.Aio.Timerset.{Timerset, hndl_isactive, insert, goes_first, add, next_timeout, event}
use vnano_msg.Aio.Timerset.Wait.{too_early, timeout_exact}

-- Handles 1 and 2, due at 100 and 150, and handle 3 at 120.
abbrev two : Timerset
two = record { id = 1; timeout = 100 } ∷ record { id = 2; timeout = 150 } ∷ []

abbrev three : Timerset
three =
    record { id = 1; timeout = 100 }
    ∷ record { id = 3; timeout = 120 }
    ∷ record { id = 2; timeout = 150 }
    ∷ []

added : add 90 two 30 3 ≡ done (false, three)
unfolding add hndl_isactive insert goes_first
added = refl

wait : next_timeout 90 two ≡ some 10
unfolding next_timeout
wait = refl

timeout_exact_example : too_early (event 95 two) ≡ ltb 5 10
timeout_exact_example = timeout_exact 90 5 10 two refl (omega arith) wait
