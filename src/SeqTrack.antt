-- ===== src/SeqTrack.antt =====
-- seqtrack() of src/backend/slony1_funcs.c: the last value seen of each sequence, in an AVL tree.
-- A sequence id stands for its pattern of 32 bits, below 2 ^ 32, a sequence value for its pattern of
-- 64 bits; values are only compared for equality.
pub mod Laws
mod Examples
use Prim.Native.Nat.Ordering.{lt, eq, gt}
use slony1_engine.Base.{
  ℕ, ◌+◌, ◌-◌, ◌%◌, ◌^◌, ltb, Bool, true, false, Option, none, some, List, [], ◌∷◌, Ordering, ◌==◌,
  if◌then◌else◌,
}
use slony1_engine.Avl
use slony1_engine.Avl.{Node, nil}

pub record SeqTrackElem : Type 0 where
  pub seqid : ℕ
  pub seqval : ℕ

-- The sign of an int32.
abbrev pub sign_int32 : ℕ → Ordering
sign_int32 d = if d == 0 then eq else if ltb d (2 ^ 31) then gt else lt

-- On `SeqTrack_elem *`, with `none` for NULL. The code never compares NULL; it comes first here. The
-- difference of the ids wraps.
unfoldable pub seqtrack_cmp : Option SeqTrackElem → Option SeqTrackElem → Ordering
seqtrack_cmp (some a) (some b) = sign_int32 ((a.seqid + 2 ^ 32 - b.seqid) % 2 ^ 32)
seqtrack_cmp none none = eq
seqtrack_cmp none (some b) = lt
seqtrack_cmp (some a) none = gt

-- The static tree `seqmem`, and the address that the next malloc() returns.
pub record SeqState : Type 0 where
  pub seqmem : Node (Option SeqTrackElem)
  pub next : ℕ

pub initial : SeqState
initial = record { seqmem = nil; next = 0 }

-- What the caller does with the node of address `a`, whose data is `found`: `none` is the result NULL.
pub track_node :
    ℕ
    → SeqTrackElem
    → Node (Option SeqTrackElem)
    → Option (Option SeqTrackElem)
    → Option ℕ × Node (Option SeqTrackElem)
track_node a new t none = (some new.seqval, Avl.set_data a (some new) t)
track_node a new t (some none) = (some new.seqval, Avl.set_data a (some new) t)
track_node a new t (some (some elem)) =
    if elem.seqval == new.seqval
    then (none, t)
    else (some new.seqval, Avl.set_data a (some (record elem { seqval = new.seqval })) t)

-- With the comparison that the tree has.
pub seqtrack_by :
    (Option SeqTrackElem → Option SeqTrackElem → Ordering) → ℕ → ℕ → SeqState → Option ℕ × SeqState
unfolding track_node
seqtrack_by cmp seqid seqval s =
    let new : SeqTrackElem = record { seqid = seqid; seqval = seqval } in
    let at = Avl.insert cmp true none s.next (some new) s.seqmem in
    let done = track_node at.result new at.tree (Avl.data_at at.result at.tree) in
    (done.0, record { seqmem = done.1; next = s.next + 1 })

pub seqtrack : ℕ → ℕ → SeqState → Option ℕ × SeqState
unfolding seqtrack_by
seqtrack seqid seqval s = seqtrack_by seqtrack_cmp seqid seqval s

-- What the session remembers of a sequence, read by avl_lookup().
pub last_value_by : (Option SeqTrackElem → Option SeqTrackElem → Ordering) → ℕ → SeqState → Option ℕ
last_value_by cmp seqid s =
    elim (Avl.lookup cmp (some (record { seqid = seqid; seqval = 0 })) s.seqmem) [
      | none ↦ none
      | some e ↦ elim e.cdata [ none ↦ none | some elem ↦ some elem.seqval ]
    ]

pub last_value : ℕ → SeqState → Option ℕ
unfolding last_value_by
last_value seqid s = last_value_by seqtrack_cmp seqid s

-- The results of a series of calls.
pub seqtrack_all : List (ℕ × ℕ) → SeqState → List (Option ℕ)
seqtrack_all [] s = []
seqtrack_all ((q, v) ∷ calls) s = let (r, s') = seqtrack q v s in r ∷ seqtrack_all calls s'
