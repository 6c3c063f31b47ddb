-- ===== src/Slon/Queue/Confirms.antt =====
-- The confirmations that wait in a worker's queue, src/slon/remote_worker.c: one for each origin and
-- receiver, with the highest number that was reported.
use slony1_engine.Base.{
  ◌≡◌, refl, true, false, Option, none, some, List, [], ◌∷◌, if◌then◌else◌, arith, Option-cases,
  inl, inr,
}
use slony1_engine.Base.Int.{ℤ, ==ℤ_iff, ltb_ℤ}
use slony1_engine.Slon.{ConfirmMsg, WorkMsg, wakeup, event, confirm}
use slony1_engine.Slon.Queue.{same_pair, find_confirm, remove_confirm, queue_confirm}

-- The number that waits to be confirmed for the origin and receiver of `k`.
abbrev pub waiting : ConfirmMsg → List WorkMsg → Option ℤ
waiting k q = elim (find_confirm k q) [ none ↦ none | some c ↦ some c.con_seqno ]

-- The higher of the number that waits and a reported one.
abbrev pub higher : Option ℤ → ℤ → ℤ
higher none a = a
higher (some b) a = if ltb_ℤ b a then a else b

-- No two confirmations in the queue are for the same origin and receiver.
abbrev pub IsUnique : List WorkMsg → Type 0
IsUnique [] = Unit
IsUnique (confirm c ∷ q) = (find_confirm c q ≡ none) × IsUnique q
IsUnique (wakeup ∷ q) = IsUnique q
IsUnique (event e ∷ q) = IsUnique q

same_pair_subst : (a b k : ConfirmMsg) → same_pair a b ≡ true → same_pair a k ≡ same_pair b k
unfolding same_pair
same_pair_subst a b k h =
    ground (arith, ==ℤ_iff a.con_origin b.con_origin, ==ℤ_iff a.con_received b.con_received)

find_confirm-pair :
    (m old : ConfirmMsg) (q : List WorkMsg) → find_confirm m q ≡ some old → same_pair old m ≡ true
unfolding find_confirm
find_confirm-pair m old [] h = cc
find_confirm-pair m old (wakeup ∷ q) h = find_confirm-pair m old q h
find_confirm-pair m old (event e ∷ q) h = find_confirm-pair m old q h
find_confirm-pair m old (confirm c ∷ q) h = ground (arith, find_confirm-pair m old q)

-- Equal pairs find the same confirmation.
find_confirm_subst :
    (a b : ConfirmMsg) (q : List WorkMsg)
    → same_pair a b ≡ true
    → find_confirm a q ≡ find_confirm b q
unfolding find_confirm
find_confirm_subst a b [] h = refl
find_confirm_subst a b (wakeup ∷ q) h = find_confirm_subst a b q h
find_confirm_subst a b (event e ∷ q) h = find_confirm_subst a b q h
find_confirm_subst a b (confirm c ∷ q) h = ground (
  arith,
  find_confirm_subst a b q h,
  ==ℤ_iff a.con_origin b.con_origin,
  ==ℤ_iff a.con_received b.con_received,
)

find_confirm-remove_confirm :
    (m k : ConfirmMsg) (q : List WorkMsg)
    → same_pair m k ≡ false
    → find_confirm k (remove_confirm m q) ≡ find_confirm k q
unfolding find_confirm remove_confirm
find_confirm-remove_confirm m k [] h = refl
find_confirm-remove_confirm m k (wakeup ∷ q) h = find_confirm-remove_confirm m k q h
find_confirm-remove_confirm m k (event e ∷ q) h = find_confirm-remove_confirm m k q h
find_confirm-remove_confirm m k (confirm c ∷ q) h =
    ground (arith, find_confirm-remove_confirm m k q h, same_pair_subst c m k)

-- After a report the number that waits for its origin and receiver is the higher of the two, and for
-- every other pair it is what it was.
pub waiting-queue_confirm :
    (m k : ConfirmMsg) (q : List WorkMsg)
    → waiting k (queue_confirm m q)
      ≡ (if same_pair m k then some (higher (waiting k q) m.con_seqno) else waiting k q)
unfolding queue_confirm
waiting-queue_confirm m k q = elim (Option-cases (find_confirm m q)) [
  | inl missing ↦ ground (arith, find_confirm_subst m k q)
  | inr (old, found) ↦ ground (
    arith,
    find_confirm_subst m k q,
    same_pair_subst old m k (find_confirm-pair m old q found),
    find_confirm-remove_confirm m k q,
  )
]

find_confirm-remove_confirm_self :
    (m : ConfirmMsg) (q : List WorkMsg) → IsUnique q → find_confirm m (remove_confirm m q) ≡ none
unfolding find_confirm remove_confirm
find_confirm-remove_confirm_self m [] h = refl
find_confirm-remove_confirm_self m (wakeup ∷ q) h = find_confirm-remove_confirm_self m q h
find_confirm-remove_confirm_self m (event e ∷ q) h = find_confirm-remove_confirm_self m q h
find_confirm-remove_confirm_self m (confirm c ∷ q) h =
    ground (arith, find_confirm-remove_confirm_self m q h.1, find_confirm_subst c m q)

find_confirm-none :
    (m k : ConfirmMsg) (q : List WorkMsg)
    → find_confirm k q ≡ none
    → find_confirm k (remove_confirm m q) ≡ none
unfolding find_confirm remove_confirm
find_confirm-none m k [] h = refl
find_confirm-none m k (wakeup ∷ q) h = find_confirm-none m k q h
find_confirm-none m k (event e ∷ q) h = find_confirm-none m k q h
find_confirm-none m k (confirm c ∷ q) h = ground (arith, find_confirm-none m k q)

remove_confirm-IsUnique :
    (m : ConfirmMsg) (q : List WorkMsg) → IsUnique q → IsUnique (remove_confirm m q)
unfolding remove_confirm
remove_confirm-IsUnique m [] h = tt
remove_confirm-IsUnique m (wakeup ∷ q) h = remove_confirm-IsUnique m q h
remove_confirm-IsUnique m (event e ∷ q) h = remove_confirm-IsUnique m q h
remove_confirm-IsUnique m (confirm c ∷ q) h =
    ground (arith, remove_confirm-IsUnique m q h.1, find_confirm-none m c q h.0)

-- A report to a queue with at most one confirmation for each origin and receiver leaves at most one
-- for each.
pub queue_confirm-IsUnique :
    (m : ConfirmMsg) (q : List WorkMsg) → IsUnique q → IsUnique (queue_confirm m q)
unfolding queue_confirm
queue_confirm-IsUnique m q h = elim (Option-cases (find_confirm m q)) [
  | inl missing ↦ ground arith
  | inr (old, found) ↦
      let raised : ConfirmMsg = record old {
        con_seqno = m.con_seqno;
        con_timestamp = m.con_timestamp;
      } in
      ground (
        arith,
        remove_confirm-IsUnique m q h,
        find_confirm-remove_confirm_self m q h,
        find_confirm_subst raised m (remove_confirm m q),
        find_confirm-pair m old q found,
      )
]
