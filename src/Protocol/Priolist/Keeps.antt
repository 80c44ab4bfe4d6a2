-- ===== src/Protocol/Priolist/Keeps.antt =====
-- Every function of priolist.c keeps the invariant.
use vnano_msg.Common.{
  ℕ, ◌-◌, ◌≡◌, refl, sym, ap, ◌∙◌, ◌≢◌, Bool, true, false, Option, none, some, List, [], ◌∷◌, arith,
  is_empty, done, mem, Bool-cases, Option-cases, inl, inr,
}
use vnano_msg.Utils.ItemList.{begin, next, without, push_back}
use vnano_msg.Utils.ItemList.Split.{
  mem-without_ne, mem-next, mem_of_without, without-IsDistinct, push_back-IsDistinct, mem-append,
}
use vnano_msg.Protocol.Priolist.{
  Data, Slot, Priolist, put, is_item, or_begin, init, settled, rm, raise, activate, pass_turn,
  advance,
}
use vnano_msg.Protocol.Priolist.Settle.{IsBest}
use vnano_msg.Protocol.Priolist.Invariant.{
  HasTurn, IsSlot, Inv, IsPriority, put-IsSlot, IsBest-cong, put-is_empty, put_other,
  put-settled-IsBest, raise-IsBest,
}

pub init-Inv : Inv init
unfolding init
init-Inv = record { slots = λ i. record { distinct = tt; turn = refl }; best = λ j lo hi. refl }

HasTurn-begin : (l : List ℕ) → HasTurn l (begin l)
HasTurn-begin [] = refl
HasTurn-begin (x ∷ l) = ground arith

HasTurn-or_begin :
    (o : Option ℕ) (l : List ℕ) → ((y : ℕ) → o ≡ some y → mem y l ≡ true) → HasTurn l (or_begin o l)
HasTurn-or_begin none l h = HasTurn-begin l
HasTurn-or_begin (some x) l h = h x refl

pass_turn-IsSlot : (s : Slot) (x : ℕ) (release : Bool) → IsSlot s → IsSlot (pass_turn s x release)
pass_turn-IsSlot s x true v = record {
  distinct = without-IsDistinct x s.pipes v.distinct;
  turn = HasTurn-or_begin _ _ (λ y. mem-next x y s.pipes);
}
pass_turn-IsSlot s x false v = record {
  distinct = v.distinct;
  turn = HasTurn-or_begin _ _ (λ y e. mem_of_without y x s.pipes (mem-next x y s.pipes e));
}

pub advance-Inv : (p p' : Priolist) (release : Bool) → Inv p → advance p release ≡ done p' → Inv p'
unfolding advance
advance-Inv p p' release v h = elim (Option-cases p.current) [
  | inl idle ↦ absurd (ground arith)
  | inr (c, cur) ↦ elim (Option-cases (p.slots (c - 1)).current) [
    | inl null ↦ absurd (ground arith)
    | inr (x, turn) ↦
        let s = pass_turn (p.slots (c - 1)) x release in
        let e : p' ≡ record {
          slots = put p.slots (c - 1) s;
          current = settled (put p.slots (c - 1) s) c;
        } =
          ground arith in
        rw e (record {
          slots =
              put-IsSlot p.slots (c - 1) s v.slots (pass_turn-IsSlot _ x release (v.slots (c - 1)));
          best = put-settled-IsBest p.slots c s (rw cur at v.best);
        })
  ]
]

not-is_empty-push_back : (l : List ℕ) (x : ℕ) → is_empty (push_back l x) ≡ false
not-is_empty-push_back [] x = refl
not-is_empty-push_back (y ∷ l) x = refl

HasTurn-push_back :
    (l : List ℕ) (x : ℕ) (o : Option ℕ)
    → is_empty l ≡ false
    → HasTurn l o
    → HasTurn (push_back l x) o
HasTurn-push_back l x none e h = absurd (cc)
HasTurn-push_back l x (some y) e h = ground (arith, mem-append y l (x ∷ []))

pub activate-Inv :
    (p p' : Priolist) (d : Data) → IsPriority d.priority → Inv p → activate p d ≡ done p' → Inv p'
unfolding activate
activate-Inv p p' d ok v h = elim (Bool-cases (mem d.pipe (p.slots (d.priority - 1)).pipes)) [
  | inl twice ↦ absurd (ground arith)
  | inr fresh ↦
      let i = d.priority - 1 in
      let slot = p.slots i in
      let filled = push_back slot.pipes d.pipe in
      let distinct = push_back-IsDistinct d.pipe slot.pipes fresh (v.slots i).distinct in
      elim (Bool-cases (is_empty slot.pipes)) [
        | inl empty ↦
            let s : Slot = record { pipes = filled; current = some d.pipe } in
            let e : p' ≡ record { slots = put p.slots i s; current = raise p.current d.priority } =
              ground arith in
            rw e (record {
              slots = put-IsSlot p.slots i s v.slots (record {
                distinct = distinct;
                turn = ground (arith, mem-append d.pipe slot.pipes (d.pipe ∷ []));
              });
              best =
                  raise-IsBest p.slots d.priority s p.current ok
                    (not-is_empty-push_back slot.pipes d.pipe) empty v.best;
            })
        | inr busy ↦
            let s : Slot = record { pipes = filled; current = slot.current } in
            let e : p' ≡ record { slots = put p.slots i s; current = p.current } = ground arith in
            rw e (record {
              slots = put-IsSlot p.slots i s v.slots (record {
                distinct = distinct;
                turn = HasTurn-push_back slot.pipes d.pipe slot.current busy (v.slots i).turn;
              });
              best =
                  IsBest-cong p.slots (put p.slots i s) 1 p.current
                    (λ j.
                      put-is_empty p.slots i s j
                        (not-is_empty-push_back slot.pipes d.pipe ∙ sym busy))
                    v.best;
            })
      ]
]

not_empty_of_mem : (x : ℕ) (l : List ℕ) → mem x l ≡ true → is_empty l ≡ false
not_empty_of_mem x [] h = sym h
not_empty_of_mem x (y ∷ l) h = refl

-- A slot other than the current one changes that held a pipe.
put-IsBest :
    (f : ℕ → Slot) (d : ℕ) (s : Slot) (r : Option ℕ)
    → IsPriority d
    → is_item r d ≡ false
    → is_empty (f (d - 1)).pipes ≡ false
    → IsBest f 1 r
    → IsBest (put f (d - 1) s) 1 r
put-IsBest f d s none ok ne full h = absurd (ground (arith, h d ok.0 ok.1))
put-IsBest f d s (some k) ok ne full h = (
  h.0,
  h.1,
  rw (put_other f (d - 1) s (k - 1) (ground arith)) h.2,
  λ j a b.
      let apart : j ≢ d =
        λ same. ground (arith, h.3 j a b, ap (λ (x : ℕ). is_empty (f (x - 1)).pipes) same) in
      rw (put_other f (d - 1) s (j - 1) (omega arith)) (h.3 j a b),
)

-- The pipe whose turn it is stays when another one leaves.
waits_turn :
    (x : ℕ) (l : List ℕ) (o : Option ℕ)
    → HasTurn l o
    → mem x l ≡ true
    → is_item o x ≡ false
    → HasTurn (without x l) o × (is_empty (without x l) ≡ is_empty l)
waits_turn x l none h held ne = absurd (ground (arith, not_empty_of_mem x l held))
waits_turn x l (some y) h held ne =
    let kept = mem-without_ne y x l ne h in
    (kept, not_empty_of_mem y (without x l) kept ∙ sym (not_empty_of_mem x l held))

pub rm-Inv : (p : Priolist) (d : Data) → IsPriority d.priority → Inv p → Inv (rm p d)
unfolding rm
rm-Inv p d ok v = elim (Bool-cases (mem d.pipe (p.slots (d.priority - 1)).pipes)) [
  | inr out ↦ rw (out, rm) v
  | inl held ↦
      let i = d.priority - 1 in
      let slot = p.slots i in
      let rest = without d.pipe slot.pipes in
      let distinct = without-IsDistinct d.pipe slot.pipes (v.slots i).distinct in
      let full = not_empty_of_mem d.pipe slot.pipes held in
      let s : Slot = record { pipes = rest; current = or_begin (next d.pipe slot.pipes) rest } in
      let k : IsSlot s = record {
        distinct = distinct;
        turn = HasTurn-or_begin _ _ (λ y. mem-next d.pipe y slot.pipes);
      } in
      elim (Bool-cases (is_item slot.current d.pipe)) [
        | inr waits ↦
            let (turn, same) =
              waits_turn d.pipe slot.pipes slot.current (v.slots i).turn held waits in
            let t : Slot = record { pipes = rest; current = slot.current } in
            rw (held, waits, rm)
              (record {
                slots =
                    put-IsSlot p.slots i t v.slots (record { distinct = distinct; turn = turn });
                best =
                    IsBest-cong p.slots (put p.slots i t) 1 p.current
                      (λ j. put-is_empty p.slots i t j same) v.best;
              })
        | inl turn ↦ elim (Bool-cases (is_item p.current d.priority)) [
          | inr other ↦
              rw (held, turn, other, rm)
                (record {
                  slots = put-IsSlot p.slots i s v.slots k;
                  best = put-IsBest p.slots d.priority s p.current ok other full v.best;
                })
          | inl now ↦
              let cur : p.current ≡ some d.priority = ground arith in
              rw (held, turn, now, rm)
                (record {
                  slots = put-IsSlot p.slots i s v.slots k;
                  best = put-settled-IsBest p.slots d.priority s (rw cur at v.best);
                })
        ]
      ]
]
