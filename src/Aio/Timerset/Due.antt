-- ===== src/Aio/Timerset/Due.antt =====
-- The order of the timeouts, and when they are due.
use vnano_msg.Common.{
  ℕ, ◌+◌, ◌%◌, ◌^◌, ◌≤◌, ◌≡◌, refl, ◌∙◌, Bool, true, false, not, ◌&&◌, ◌||◌, [], ◌∷◌, done, ok, err,
  eagain, ltb, leb, ◌==◌, arith, Bool-cases, inl, inr, ◌⊎◌,
}
use vnano_msg.Aio.Timerset.{
  Hndl, Timerset, hndl_isactive, insert, goes_first, add, erase, rm, event,
}

-- No timeout before `t`.
abbrev pub none_before : ℕ → Timerset → Bool
none_before t [] = true
none_before t (h ∷ l) = leb t h.timeout && none_before t l

abbrev pub sorted : Timerset → Bool
sorted [] = true
sorted (h ∷ l) = none_before h.timeout l && sorted l

abbrev pub distinct : Timerset → Bool
distinct [] = true
distinct (h ∷ l) = not (hndl_isactive l h.id) && distinct l

abbrev pub IsOrdered : Timerset → Type 0
IsOrdered l = (sorted l ≡ true) × (distinct l ≡ true)

none_before-earlier :
    (s t : ℕ) (l : Timerset) → s ≤ t → none_before t l ≡ true → none_before s l ≡ true
none_before-earlier s t [] e h = refl
none_before-earlier s t (x ∷ l) e h = ground (arith, none_before-earlier s t l)

none_before-insert :
    (t : ℕ) (l : Timerset) (h : Hndl)
    → t ≤ h.timeout
    → none_before t l ≡ true
    → none_before t (insert l h) ≡ true
unfolding insert
none_before-insert t [] h e n = ground arith
none_before-insert t (x ∷ l) h e n = ground (arith, none_before-insert t l h)

insert-sorted : (l : Timerset) (h : Hndl) → sorted l ≡ true → sorted (insert l h) ≡ true
unfolding insert
insert-sorted [] h s = refl
insert-sorted (x ∷ l) h s = elim (Bool-cases (ltb h.timeout x.timeout)) [
  | inl before ↦ rw before (ground (arith, none_before-earlier h.timeout x.timeout l))
  | inr not_before ↦
      rw not_before (ground (arith, insert-sorted l h, none_before-insert x.timeout l h))
]

isactive-insert :
    (l : Timerset) (h : Hndl) (i : ℕ)
    → hndl_isactive (insert l h) i ≡ ((h.id == i) || hndl_isactive l i)
unfolding insert hndl_isactive
isactive-insert [] h i = refl
isactive-insert (x ∷ l) h i = ground (arith, isactive-insert l h i)

insert-distinct :
    (l : Timerset) (h : Hndl)
    → hndl_isactive l h.id ≡ false
    → distinct l ≡ true
    → distinct (insert l h) ≡ true
unfolding insert hndl_isactive
insert-distinct [] h n d = refl
insert-distinct (x ∷ l) h n d = ground (arith, insert-distinct l h, isactive-insert l h x.id)

none_before-erase :
    (t : ℕ) (l : Timerset) (i : ℕ) → none_before t l ≡ true → none_before t (erase l i) ≡ true
unfolding erase
none_before-erase t [] i n = refl
none_before-erase t (x ∷ l) i n = ground (arith, none_before-erase t l i)

erase-sorted : (l : Timerset) (i : ℕ) → sorted l ≡ true → sorted (erase l i) ≡ true
unfolding erase
erase-sorted [] i s = refl
erase-sorted (x ∷ l) i s = ground (arith, erase-sorted l i, none_before-erase x.timeout l i)

isactive-erase :
    (l : Timerset) (i j : ℕ) → hndl_isactive l j ≡ false → hndl_isactive (erase l i) j ≡ false
unfolding erase hndl_isactive
isactive-erase [] i j h = refl
isactive-erase (x ∷ l) i j h = ground (arith, isactive-erase l i j)

erase-distinct : (l : Timerset) (i : ℕ) → distinct l ≡ true → distinct (erase l i) ≡ true
unfolding erase
erase-distinct [] i d = refl
erase-distinct (x ∷ l) i d = ground (arith, erase-distinct l i, isactive-erase l i x.id)

-- The handle that a call adds.
abbrev new_hndl : ℕ → ℕ → ℕ → Hndl
new_hndl now timeout i = record { id = i; timeout = (now + timeout) % 2 ^ 64 }

add_parts :
    (now timeout i : ℕ) (l l' : Timerset) (first : Bool)
    → add now l timeout i ≡ done (first, l')
    → (hndl_isactive l i ≡ false)
      × (first ≡ goes_first l (new_hndl now timeout i))
      × (l' ≡ insert l (new_hndl now timeout i))
unfolding add
add_parts now timeout i l l' first h = elim (Bool-cases (hndl_isactive l i)) [
  | inl twice ↦ absurd (ground arith)
  | inr new ↦ let e = rw new at h in (new, cc, cc)
]

-- `nn_timerset_add`, `nn_timerset_rm` and `nn_timerset_event` keep the timeouts in order and each
-- handle in one place.
pub keeps-IsOrdered :
    (now timeout i j : ℕ) (l l' : Timerset) (first : Bool)
    → IsOrdered l
    → add now l timeout i ≡ done (first, l')
    → IsOrdered l' × IsOrdered ((rm l j).1) × IsOrdered ((event now l).1)
unfolding rm event
keeps-IsOrdered now timeout i j l l' first (s, d) h = (added, removed, rest l (s, d))
  where
    added : IsOrdered l'
    added =
        let (new, f, e) = add_parts now timeout i l l' first h in
        rw e (
          insert-sorted l (new_hndl now timeout i) s,
          insert-distinct l (new_hndl now timeout i) new d,
        )

    removed : IsOrdered ((rm l j).1)
    removed = elim (Bool-cases (hndl_isactive l j)) [
      | inl held ↦ rw held (erase-sorted l j s, erase-distinct l j d)
      | inr out ↦ rw out (s, d)
    ]

    rest : (l : Timerset) → IsOrdered l → IsOrdered ((event now l).1)
    rest [] o = o
    rest (h ∷ l) (s, d) = ground arith

-- `nn_timerset_event` on an ordered list hands over a handle that is due, before which none is, and
-- takes it off the list; it says EAGAIN, and changes nothing, only if none is due.
pub event_earliest :
    (now : ℕ) (l : Timerset)
    → IsOrdered l
    → ((event now l ≡ (err eagain, l)) × (none_before (now + 1) l ≡ true))
      ⊎ ((h : Hndl) × (l' : Timerset) × (l ≡ h ∷ l')
          × (event now l ≡ (ok h.id, l'))
          × (h.timeout ≤ now)
          × (none_before h.timeout l' ≡ true))
unfolding event
event_earliest now [] o = inl (refl, refl)
event_earliest now (h ∷ l) (s, d) = elim (Bool-cases (ltb now h.timeout)) [
  | inl early ↦ inl (rw early refl, ground (arith, none_before-earlier (now + 1) h.timeout l))
  | inr due ↦ inr (h, l, refl, rw due refl, ground arith, ground arith)
]

goes_first-none_before :
    (l : Timerset) (h : Hndl) → sorted l ≡ true → goes_first l h ≡ none_before (h.timeout + 1) l
unfolding goes_first
goes_first-none_before [] h s = refl
goes_first-none_before (x ∷ l) h s = ground (arith, none_before-earlier (h.timeout + 1) x.timeout l)

-- On an ordered list the flag of `nn_timerset_add` says whether the new handle is due before all others.
pub add_reports :
    (now timeout i : ℕ) (l l' : Timerset) (first : Bool)
    → IsOrdered l
    → add now l timeout i ≡ done (first, l')
    → first ≡ none_before ((now + timeout) % 2 ^ 64 + 1) l
add_reports now timeout i l l' first (s, d) h =
    let (new, f, e) = add_parts now timeout i l l' first h in
    f ∙ goes_first-none_before l (new_hndl now timeout i) s
