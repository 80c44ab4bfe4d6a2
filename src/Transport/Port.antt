-- ===== src/Transport/Port.antt =====
-- transports/utils/port.c: the number of a port in decimal digits. A string is the list of its
-- characters.
pub mod Decimal
use vnano_msg.Common.{
  ℕ, zero, suc, ◌+◌, ◌-◌, ◌*◌, Bool, true, false, ◌||◌, Option, none, some, List, [], ◌∷◌, Reply,
  ok, err, einval, ltb, ◌==◌, if◌then◌else◌,
}

-- The loop over the digits: `none` is the return of -EINVAL. The number stays below 655360, so that
-- an `int` holds it.
unfoldable pub resolve_loop : ℕ → List ℕ → Option ℕ
resolve_loop res [] = some res
resolve_loop res (c ∷ port) =
    let res' = res * 10 + (c - 48) in
    let rest = resolve_loop res' port in
    if ltb c 48 || ltb 57 c then none else if ltb 65535 res' then none else rest

-- `nn_port_resolve`
unfoldable pub resolve : List ℕ → Reply ℕ
resolve port = elim (resolve_loop 0 port) [
  | none ↦ err einval
  | some res ↦ if res == 0 then err einval else ok res
]
