-- ===== src/Slon/Listat.antt =====
-- remoteListen_adjust_listat() of src/slon/remote_listen.c: the origins whose events a listen thread
-- asks its node for, brought up to the listen entries of the runtime configuration.
mod Examples
use slony1_engine.Base.{
  ◌≡◌, refl, Bool, true, false, not, ◌&&◌, none, some, List, [], ◌∷◌, ◌++◌, if◌then◌else◌, arith,
  All, Bool-cases, inl, inr,
}
use slony1_engine.Base.Int.{ℤ, ◌==ℤ◌, ==ℤ_iff}
use slony1_engine.Slon.{SlonNode, find_node}
use slony1_engine.Slon.Config.Invariants.{Absent, Nodup, Nodup-snoc}

unfoldable pub is_enabled : List SlonNode → ℤ → Bool
unfolding find_node
is_enabled nodes i = elim (find_node i nodes) [ none ↦ false | some n ↦ n.no_active ]

-- The first listen entry of the origin ends the search.
unfoldable pub is_provided : List SlonNode → List ℤ → ℤ → Bool
unfolding is_enabled
is_provided nodes [] o = false
is_provided nodes (l ∷ ls) o = if l ==ℤ o then is_enabled nodes o else is_provided nodes ls o

-- "Remove listat entries for event origins that this remote node stopped providing for us, or where
-- the origin got disabled."
unfoldable pub remove_obsolete : List SlonNode → List ℤ → List ℤ → List ℤ
unfolding is_provided
remove_obsolete nodes listen [] = []
remove_obsolete nodes listen (o ∷ os) =
    if is_provided nodes listen o
    then o ∷ remove_obsolete nodes listen os
    else remove_obsolete nodes listen os

unfoldable pub has_listat : ℤ → List ℤ → Bool
has_listat i [] = false
has_listat i (o ∷ os) = if i ==ℤ o then true else has_listat i os

-- "Now add new or newly enabled sl_listen entries to it."
unfoldable pub add_missing : List SlonNode → List ℤ → List ℤ → List ℤ
unfolding is_enabled has_listat
add_missing nodes [] os = os
add_missing nodes (l ∷ ls) os =
    add_missing nodes ls (if is_enabled nodes l && not (has_listat l os) then os ++ l ∷ [] else os)

unfoldable pub adjust_listat : List SlonNode → SlonNode → List ℤ → List ℤ
unfolding remove_obsolete add_missing
adjust_listat nodes node os = add_missing nodes node.listen (remove_obsolete nodes node.listen os)

is_provided_lem :
    (nodes : List SlonNode) (ls : List ℤ) (i : ℤ)
    → is_provided nodes ls i ≡ (has_listat i ls && is_enabled nodes i)
unfolding is_provided has_listat
is_provided_lem nodes [] i = refl
is_provided_lem nodes (l ∷ ls) i =
    ground (arith, is_provided_lem nodes ls i, ==ℤ_iff l i, ==ℤ_iff i l)

has_listat-remove_obsolete :
    (nodes : List SlonNode) (ls : List ℤ) (i : ℤ) (os : List ℤ)
    → has_listat i (remove_obsolete nodes ls os) ≡ (has_listat i os && is_provided nodes ls i)
unfolding has_listat remove_obsolete
has_listat-remove_obsolete nodes ls i [] = refl
has_listat-remove_obsolete nodes ls i (o ∷ os) =
    ground (arith, has_listat-remove_obsolete nodes ls i os, ==ℤ_iff i o)

has_listat-append :
    (i l : ℤ) (os : List ℤ)
    → has_listat i (os ++ l ∷ []) ≡ (if i ==ℤ l then true else has_listat i os)
unfolding has_listat
has_listat-append i l [] = ground arith
has_listat-append i l (o ∷ os) = ground (arith, has_listat-append i l os)

has_listat-add_missing :
    (nodes : List SlonNode) (ls : List ℤ) (i : ℤ) (os : List ℤ)
    → has_listat i (add_missing nodes ls os)
      ≡ (if has_listat i os then true else has_listat i ls && is_enabled nodes i)
unfolding has_listat add_missing
has_listat-add_missing nodes [] i os = ground arith
has_listat-add_missing nodes (l ∷ ls) i os = ground (
  arith,
  has_listat-add_missing nodes ls i os,
  has_listat-add_missing nodes ls i (os ++ l ∷ []),
  has_listat-append i l os,
  ==ℤ_iff i l,
)

-- Whatever the thread listened for before: afterwards it listens for an origin exactly if its node
-- has a listen entry for it and the origin is a known and enabled node.
pub has_listat-adjust_listat :
    (nodes : List SlonNode) (node : SlonNode) (os : List ℤ) (i : ℤ)
    → has_listat i (adjust_listat nodes node os) ≡ (has_listat i node.listen && is_enabled nodes i)
unfolding adjust_listat
has_listat-adjust_listat nodes node os i = ground (
  arith,
  has_listat-add_missing nodes node.listen i (remove_obsolete nodes node.listen os),
  has_listat-remove_obsolete nodes node.listen i os,
  is_provided_lem nodes node.listen i,
)

has_listat-Absent : (i : ℤ) (os : List ℤ) → has_listat i os ≡ false → Absent i os
unfolding has_listat
has_listat-Absent i [] h = tt
has_listat-Absent i (o ∷ os) h = ground (arith, has_listat-Absent i os, ==ℤ_iff i o)

remove_obsolete-Absent :
    (nodes : List SlonNode) (ls : List ℤ) (i : ℤ) (os : List ℤ)
    → Absent i os
    → Absent i (remove_obsolete nodes ls os)
unfolding remove_obsolete
remove_obsolete-Absent nodes ls i [] h = tt
remove_obsolete-Absent nodes ls i (o ∷ os) h =
    ground (arith, remove_obsolete-Absent nodes ls i os h.1)

remove_obsolete-Nodup :
    (nodes : List SlonNode) (ls os : List ℤ) → Nodup os → Nodup (remove_obsolete nodes ls os)
unfolding remove_obsolete
remove_obsolete-Nodup nodes ls [] d = tt
remove_obsolete-Nodup nodes ls (o ∷ os) d =
    ground (arith, remove_obsolete-Nodup nodes ls os d.1, remove_obsolete-Absent nodes ls o os d.0)

add_missing-Nodup :
    (nodes : List SlonNode) (ls os : List ℤ) → Nodup os → Nodup (add_missing nodes ls os)
unfolding add_missing
add_missing-Nodup nodes [] os d = d
add_missing-Nodup nodes (l ∷ ls) os d =
    elim (Bool-cases (is_enabled nodes l && not (has_listat l os))) [
      | inl new ↦ rw new (
          add_missing-Nodup nodes ls (os ++ l ∷ [])
            (Nodup-snoc l os (has_listat-Absent l os (ground arith)) d))
      | inr old ↦ rw old (add_missing-Nodup nodes ls os d)
    ]

-- Distinct origins stay distinct.
adjust_listat-Nodup :
    (nodes : List SlonNode) (node : SlonNode) (os : List ℤ)
    → Nodup os
    → Nodup (adjust_listat nodes node os)
unfolding adjust_listat
adjust_listat-Nodup nodes node os d =
    add_missing-Nodup nodes node.listen (remove_obsolete nodes node.listen os)
      (remove_obsolete-Nodup nodes node.listen os d)
