-- ===== src/Slon/Queue/Rising.antt =====
-- The event numbers in a queue of src/slon/remote_worker.c, strictly ascending.
use slony1_engine.Base.{◌+◌, ◌<◌, ◌≡◌, refl, ap, List, [], ◌∷◌, ◌++◌, arith, All, All-append}
use slony1_engine.Base.Int.{ℤ, pos_part, neg_part, ◌≤ℤ◌}
use slony1_engine.Slon.{ConfirmMsg, WorkMsg, wakeup, event, confirm}
use slony1_engine.Slon.Queue.{queue_confirm, remove_confirm}

-- The numbers of the events in a queue, in its order.
abbrev pub seqnos : List WorkMsg → List ℤ
seqnos [] = []
seqnos (event e ∷ msgs) = e.ev_seqno ∷ seqnos msgs
seqnos (wakeup ∷ msgs) = seqnos msgs
seqnos (confirm c ∷ msgs) = seqnos msgs

infix 50 ◌<ℤ◌
abbrev pub ◌<ℤ◌ : ℤ → ℤ → Type 0
a <ℤ b = pos_part a + neg_part b < pos_part b + neg_part a

-- Strictly ascending, and not above `last`.
abbrev pub IsRising : ℤ → List ℤ → Type 0
IsRising last [] = Unit
IsRising last (a ∷ bs) = (a ≤ℤ last) × All (λ b. a <ℤ b) bs × IsRising last bs

pub seqnos-append : (xs ys : List WorkMsg) → seqnos (xs ++ ys) ≡ seqnos xs ++ seqnos ys
seqnos-append [] ys = refl
seqnos-append (wakeup ∷ xs) ys = seqnos-append xs ys
seqnos-append (confirm c ∷ xs) ys = seqnos-append xs ys
seqnos-append (event e ∷ xs) ys = ap (λ (t : List ℤ). e.ev_seqno ∷ t) (seqnos-append xs ys)

pub IsRising-mono : (l m : ℤ) (bs : List ℤ) → l ≤ℤ m → IsRising l bs → IsRising m bs
IsRising-mono l m [] h r = tt
IsRising-mono l m (a ∷ bs) h r = (omega arith, r.1, IsRising-mono l m bs h r.2)

pub IsRising-below : (l b : ℤ) (bs : List ℤ) → l <ℤ b → IsRising l bs → All (λ a. a <ℤ b) bs
IsRising-below l b [] h r = tt
IsRising-below l b (a ∷ bs) h r = (omega arith, IsRising-below l b bs h r.2)

-- A number above the last one extends the sequence.
pub IsRising-snoc : (l b : ℤ) (bs : List ℤ) → l <ℤ b → IsRising l bs → IsRising b (bs ++ b ∷ [])
IsRising-snoc l b [] h r = (omega arith, tt, tt)
IsRising-snoc l b (a ∷ bs) h r = (
  omega arith,
  All-append (λ c. a <ℤ c) bs (b ∷ []) r.1 (omega arith, tt),
  IsRising-snoc l b bs h r.2,
)

-- Confirmations are no events.
pub seqnos-remove_confirm :
    (m : ConfirmMsg) (q : List WorkMsg) → seqnos (remove_confirm m q) ≡ seqnos q
unfolding remove_confirm
seqnos-remove_confirm m [] = refl
seqnos-remove_confirm m (wakeup ∷ q) = seqnos-remove_confirm m q
seqnos-remove_confirm m (event e ∷ q) =
    ap (λ (t : List ℤ). e.ev_seqno ∷ t) (seqnos-remove_confirm m q)
seqnos-remove_confirm m (confirm c ∷ q) = ground (arith, seqnos-remove_confirm m q)

pub seqnos-queue_confirm :
    (m : ConfirmMsg) (q : List WorkMsg) → seqnos (queue_confirm m q) ≡ seqnos q
unfolding queue_confirm
seqnos-queue_confirm m q = ground (arith, seqnos-remove_confirm m q)

-- Putting a message in front of the queue, or replacing the queue, keeps the order if the events stay.
pub keeps_seqnos :
    (l : ℤ) (taken q u : List WorkMsg)
    → seqnos u ≡ seqnos q
    → IsRising l (seqnos (taken ++ q))
    → IsRising l (seqnos (taken ++ u))
keeps_seqnos l taken q u e h = rw (seqnos-append taken u, e) (rw (seqnos-append taken q) at h)
