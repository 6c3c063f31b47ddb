-- ===== src/SeqTrack/Laws.antt =====
-- seqtrack() of src/backend/slony1_funcs.c as a map from sequences to last values.
use Prim.Native.Nat.Ordering.{lt, eq, gt}
use slony1_engine.Base.{
  ℕ, ◌+◌, ◌^◌, Ordering, compare, ◌<◌, ◌≡◌, ◌≢◌, refl, sym, ap, ap₂, subst, ◌∙◌, inl, inr, true,
  false, Option, none, some, List, [], ◌∷◌, arith, ◌==◌, if◌then◌else◌, All, All-imp, Bool-cases,
  ==_iff,
}
use mathlib.Core.Path.{fun_ext}
use slony1_engine.Avl
use slony1_engine.Avl.{Node, nil, Entry, entries}
use slony1_engine.Avl.Shape.{IsAvl, insert-IsAvl, set_data-IsAvl}
use slony1_engine.Avl.Order.{IsLawful, IsOrdered, place, lookup-find, entries-insert}
use slony1_engine.Avl.Sorted.{
  IsSorted, IsDistinct, IsLive, IsSorted-IsOrdered, hit, upsert, result_of, result-insert, find-hit,
  hit-equal, upsert_same, place_found, set_list-place, get_list-place, entries-set_data,
  data_at-get_list,
}
use slony1_engine.Avl.Callbacks.{Agrees, insert-Agrees, lookup-Agrees}
use slony1_engine.Avl.Upsert.{
  upsert-IsLive, upsert-cdata, upsert-addr, upsert-IsDistinct, upsert-IsSorted, hit-upsert_self,
  hit-upsert_ne,
}
use slony1_engine.SeqTrack.{
  SeqTrackElem, seqtrack_cmp, seqtrack_by, last_value_by, SeqState, initial, track_node, seqtrack,
  last_value, seqtrack_all,
}

-- The order of the ids, which the difference decides for ids below 2 ^ 31.
unfoldable pub by_id : Option SeqTrackElem → Option SeqTrackElem → Ordering
by_id (some a) (some b) = compare a.seqid b.seqid
by_id none none = eq
by_id none (some b) = lt
by_id (some a) none = gt

-- It is a total order, as avl_tree.c asks.
by_id-IsLawful : IsLawful by_id
unfolding by_id
by_id-IsLawful = record {
  cmp_refl = λ a. ground arith;
  eq_sym = λ a b. ground arith;
  eq_lt = λ a b c. ground arith;
  lt_eq = λ a b c. ground arith;
  lt_of_gt = λ a b. ground arith;
  gt_of_lt = λ a b. ground arith;
  lt_trans = λ a b c. ground arith;
}

-- Data with an id that is not negative.
abbrev pub HasData : Option SeqTrackElem → Type 0
HasData none = ⊥
HasData (some e) = e.seqid < 2 ^ 31

seqtrack_cmp-by_id :
    (c d : Option SeqTrackElem) → HasData c → HasData d → seqtrack_cmp c d ≡ by_id c d
unfolding seqtrack_cmp by_id
seqtrack_cmp-by_id none d h k = absurd h
seqtrack_cmp-by_id (some a) none h k = absurd k
seqtrack_cmp-by_id (some a) (some b) h k = ground arith

-- The tree is a balanced search tree of live entries with data, in nodes of their own.
pub record IsValid (s : SeqState) : Type 0 where
  pub avl : IsAvl s.seqmem
  pub sorted : IsSorted by_id (entries s.seqmem)
  pub live : IsLive (entries s.seqmem)
  pub filled : All (λ e. HasData e.cdata) (entries s.seqmem)
  pub distinct : IsDistinct (entries s.seqmem)
  pub allocated : All (λ e. e.addr < s.next) (entries s.seqmem)

abbrev key : ℕ → ℕ → Option SeqTrackElem
key q v = some (record { seqid = q; seqval = v })

abbrev value_of : Option (Option SeqTrackElem) → Option ℕ
value_of none = none
value_of (some none) = none
value_of (some (some elem)) = some elem.seqval

-- What a call reports of the value `v`, after `last`: NULL where it has not changed.
abbrev pub reported : Option ℕ → ℕ → Option ℕ
reported none v = some v
reported (some w) v = if w == v then none else some v

-- Only the sequence id is compared.
hit-key :
    (q v w : ℕ) (es : List (Entry (Option SeqTrackElem)))
    → hit by_id (key q v) es ≡ hit by_id (key q w) es
unfolding hit by_id
hit-key q v w [] = refl
hit-key q v w (e ∷ es) = ground (arith, hit-key q v w es)

module _ (s : SeqState) (h : IsValid s) where
  abbrev es : List (Entry (Option SeqTrackElem))
  es = entries s.seqmem

  ordered : IsOrdered by_id s.seqmem
  ordered = IsSorted-IsOrdered by_id s.seqmem h.sorted

  unused : All (λ e. e.addr ≢ s.next) es
  unused = All-imp (λ e p. omega arith) es h.allocated

  -- The comparison of a new key is that of the ids.
  compared : (q v : ℕ) → q < 2 ^ 31 → Agrees seqtrack_cmp by_id (key q v) s.seqmem
  compared q v l =
      All-imp (λ e p. seqtrack_cmp-by_id (key q v) e.cdata l p) (entries s.seqmem) h.filled

  last_value-by_id : (q : ℕ) → q < 2 ^ 31 → last_value q s ≡ last_value_by by_id q s
  unfolding last_value last_value_by
  last_value-by_id q l =
      ap
        (λ o. elim o [
          | none ↦ none
          | some e ↦ elim e.cdata [ none ↦ none | some elem ↦ some elem.seqval ]
        ])
        (lookup-Agrees seqtrack_cmp by_id (key q 0) s.seqmem (compared q 0 l))

  seqtrack-by_id : (q v : ℕ) → q < 2 ^ 31 → seqtrack q v s ≡ seqtrack_by by_id q v s
  unfolding seqtrack seqtrack_by
  seqtrack-by_id q v l =
      rw (insert-Agrees seqtrack_cmp by_id true none s.next (key q v) s.seqmem (compared q v l))
        refl

  last_value-hit : (q v : ℕ) → last_value_by by_id q s ≡ value_of (hit by_id (key q v) es)
  unfolding last_value_by
  last_value-hit q v = ground (
    arith,
    lookup-find by_id by_id-IsLawful (key q 0) s.seqmem ordered,
    find-hit by_id (key q 0) es h.live,
    hit-key q 0 v es,
  )

  module _ (q v : ℕ) where
    abbrev tree : Node (Option SeqTrackElem)
    tree = (Avl.insert by_id true none s.next (key q v) s.seqmem).tree

    abbrev at : ℕ
    at = (Avl.insert by_id true none s.next (key q v) s.seqmem).result

    entries-tree : entries tree ≡ place by_id true none s.next (key q v) es
    entries-tree = entries-insert by_id by_id-IsLawful true none s.next (key q v) s.seqmem ordered

    at-result_of : at ≡ result_of by_id s.next (key q v) es
    at-result_of = result-insert by_id true none by_id-IsLawful s.next (key q v) s.seqmem ordered

    balanced : IsAvl tree
    balanced = (insert-IsAvl by_id true none s.next (key q v) s.seqmem h.avl).0

    found :
        Avl.data_at at tree ≡ elim (hit by_id (key q v) es) [ none ↦ some none | some c ↦ some c ]
    found =
        rw (data_at-get_list at tree, entries-tree, at-result_of)
          (get_list-place by_id true none s.next (key q v) es unused h.distinct h.live)

    stored : entries (Avl.set_data at (key q v) tree) ≡ upsert by_id s.next (key q v) es
    stored =
        rw (entries-set_data at (key q v) tree, entries-tree, at-result_of)
          (set_list-place by_id true none s.next (key q v) es unused h.distinct h.live)

    abbrev done : Option ℕ × Node (Option SeqTrackElem)
    done = track_node at (record { seqid = q; seqval = v }) tree (Avl.data_at at tree)

    -- An entry found under the id `q` has that id.
    elem-key :
        (elem : SeqTrackElem)
        → hit by_id (key q v) es ≡ some (some elem)
        → (w : ℕ) → some (record elem { seqval = w }) ≡ key q w
    unfolding by_id
    elem-key elem e w = ground (arith, hit-equal by_id (key q v) (some elem) es e)

    unchanged :
        (c : Option SeqTrackElem)
        → hit by_id (key q v) es ≡ some c
        → c ≡ key q v
        → entries tree ≡ upsert by_id s.next (key q v) es
    unchanged c e p =
        entries-tree
        ∙ place_found by_id true none s.next (key q v) c es h.live e
        ∙ sym (upsert_same by_id s.next (key q v) es (e ∙ ap some p))

    -- The tree that a call leaves, and its result, by what the session remembers.
    done_laws :
        (c : Option (Option SeqTrackElem))
        → hit by_id (key q v) es ≡ c
        → (entries done.1 ≡ upsert by_id s.next (key q v) es)
          × (done.0 ≡ reported (value_of c) v)
          × IsAvl done.1
    unfolding track_node
    done_laws none e =
        let f : Avl.data_at at tree ≡ some none = rw e at found in
        rw f (stored, refl, set_data-IsAvl at (key q v) tree balanced)
    done_laws (some none) e =
        let f : Avl.data_at at tree ≡ some none = rw e at found in
        rw f (stored, refl, set_data-IsAvl at (key q v) tree balanced)
    done_laws (some (some elem)) e =
        let f : Avl.data_at at tree ≡ some (some elem) = rw e at found in
        elim (Bool-cases (elem.seqval == v)) [
          | inl same ↦
              rw (f, same)
                (
                  unchanged (some elem) e
                      (elem-key elem e elem.seqval ∙ ap (key q) ((==_iff _ _).0 same)),
                  refl,
                  balanced,
                )
          | inr other ↦
              rw (f, other)
                (rw (elem-key elem e v) (stored, refl, set_data-IsAvl at (key q v) tree balanced))
        ]

    seqtrack-IsValid : q < 2 ^ 31 → IsValid (seqtrack_by by_id q v s).1
    unfolding seqtrack_by
    seqtrack-IsValid l =
        let d = done_laws (hit by_id (key q v) es) refl in
        record {
          avl = d.2;
          sorted = rw d.0 (upsert-IsSorted by_id by_id-IsLawful s.next (key q v) es h.sorted);
          live = rw d.0 (upsert-IsLive by_id s.next (key q v) es h.live);
          filled = rw d.0 (upsert-cdata by_id HasData s.next (key q v) es l h.filled);
          distinct = rw d.0 (upsert-IsDistinct by_id s.next (key q v) es unused h.distinct);
          allocated = rw d.0 (
              upsert-addr by_id (λ a. a < s.next + 1) s.next (key q v) es (omega arith)
                (All-imp (λ e p. omega arith) es h.allocated));
        }

-- A call with an id below 2 ^ 31 keeps the tree of a session well formed: a balanced search tree of
-- live entries with data and such ids, in nodes with addresses of their own.
pub seqtrack-keeps-IsValid :
    (q v : ℕ) (s : SeqState) → q < 2 ^ 31 → IsValid s → IsValid (seqtrack q v s).1
seqtrack-keeps-IsValid q v s l h =
    subst (λ r. IsValid r.1) (sym (seqtrack-by_id s h q v l)) (seqtrack-IsValid s h q v l)

seqtrack_by-reported :
    (q v : ℕ) (s : SeqState)
    → IsValid s
    → (seqtrack_by by_id q v s).0 ≡ reported (last_value_by by_id q s) v
unfolding seqtrack_by
seqtrack_by-reported q v s h =
    rw (last_value-hit s h q v) ((done_laws s h q v (hit by_id (key q v) (es s h)) refl).1)

-- In a session whose tree is well formed, a call with an id below 2 ^ 31 returns the value if it is
-- new or differs from the one that the session remembers for this sequence, and NULL if it does not.
pub seqtrack-reported :
    (q v : ℕ) (s : SeqState)
    → q < 2 ^ 31
    → IsValid s
    → (seqtrack q v s).0 ≡ reported (last_value q s) v
seqtrack-reported q v s l h =
    ap (λ r. r.0) (seqtrack-by_id s h q v l)
    ∙ seqtrack_by-reported q v s h
    ∙ ap (λ o. reported o v) (sym (last_value-by_id s h q l))

key-eq : (k q v : ℕ) → (q == k) ≡ true → by_id (key k v) (key q v) ≡ eq
unfolding by_id
key-eq k q v h = ground arith

key-ne : (k q v : ℕ) → (q == k) ≡ false → by_id (key k v) (key q v) ≢ eq
unfolding by_id
key-ne k q v h = ground arith

last_value_after :
    (q v k : ℕ) (s : SeqState)
    → IsValid s
    → q < 2 ^ 31
    → last_value_by by_id k (seqtrack_by by_id q v s).1
      ≡ (if q == k then some v else last_value_by by_id k s)
last_value_after q v k s h z =
    let d = (done_laws s h q v (hit by_id (key q v) (es s h)) refl).0 in
    let after : last_value_by by_id k (seqtrack_by by_id q v s).1
        ≡ value_of (hit by_id (key k v) (upsert by_id s.next (key q v) (entries s.seqmem))) =
      last_value-hit (seqtrack_by by_id q v s).1 (seqtrack-IsValid s h q v z) k v
      ∙ unfold seqtrack_by in ap (λ t. value_of (hit by_id (key k v) t)) d in
    elim (Bool-cases (q == k)) [
      | inl same ↦ rw same (
          after
          ∙ ap value_of (
              hit-upsert_self by_id by_id-IsLawful s.next (key q v) (key k v) (entries s.seqmem)
                (key-eq k q v same)))
      | inr other ↦ rw other (
          after
          ∙ ap value_of (
              hit-upsert_ne by_id by_id-IsLawful s.next (key q v) (key k v) (entries s.seqmem)
                (key-ne k q v other))
          ∙ sym (last_value-hit s h k v))
    ]

-- In a session whose tree is well formed, after a call with an id below 2 ^ 31 the session remembers
-- the value for this sequence, and for every other sequence with such an id what it remembered before.
pub last_value-seqtrack :
    (q v k : ℕ) (s : SeqState)
    → q < 2 ^ 31
    → k < 2 ^ 31
    → IsValid s
    → last_value k (seqtrack q v s).1 ≡ (if q == k then some v else last_value k s)
last_value-seqtrack q v k s z l h =
    last_value-by_id (seqtrack q v s).1 (seqtrack-keeps-IsValid q v s z h) k l
    ∙ ap (λ r. last_value_by by_id k r.1) (seqtrack-by_id s h q v z)
    ∙ last_value_after q v k s h z
    ∙ ap (λ o. if q == k then some v else o) (sym (last_value-by_id s h k l))

last_value-initial : (k : ℕ) → last_value k initial ≡ none
unfolding last_value last_value_by initial Avl.lookup
last_value-initial k = refl

pub initial-IsValid : IsValid initial
unfolding initial
initial-IsValid = record {
  avl = tt;
  sorted = tt;
  live = tt;
  filled = tt;
  distinct = tt;
  allocated = tt;
}

-- The same calls, on a function from sequences to last values.
unfoldable pub replay : List (ℕ × ℕ) → (ℕ → Option ℕ) → List (Option ℕ)
replay [] f = []
replay ((q, v) ∷ calls) f = reported (f q) v ∷ replay calls (λ k. if q == k then some v else f k)

-- The sequence ids of the calls are int32 numbers that are not negative.
abbrev pub IdsFit : List (ℕ × ℕ) → Type 0
IdsFit calls = All (λ c. c.0 < 2 ^ 31) calls

replay_cong :
    (calls : List (ℕ × ℕ)) (f g : ℕ → Option ℕ)
    → IdsFit calls
    → ((k : ℕ) → k < 2 ^ 31 → f k ≡ g k)
    → replay calls f ≡ replay calls g
unfolding replay
replay_cong [] f g l h = refl
replay_cong ((q, v) ∷ calls) f g l h =
    ap₂ (λ (o : Option ℕ) (t : List (Option ℕ)). reported o v ∷ t) (h q l.0)
      (replay_cong calls (λ k. if q == k then some v else f k) (λ k. if q == k then some v else g k)
        l.1 (λ k z. ap (λ o. if q == k then some v else o) (h k z)))

seqtrack_all_from :
    (calls : List (ℕ × ℕ)) (s : SeqState)
    → IdsFit calls
    → IsValid s
    → seqtrack_all calls s ≡ replay calls (λ k. last_value k s)
unfolding seqtrack_all replay
seqtrack_all_from [] s l h = refl
seqtrack_all_from ((q, v) ∷ calls) s l h = rw (seqtrack-reported q v s l.0 h) (
    ap (λ (t : List (Option ℕ)). reported (last_value q s) v ∷ t)
      (seqtrack_all_from calls (seqtrack q v s).1 l.1 (seqtrack-keeps-IsValid q v s l.0 h)
        ∙ replay_cong calls (λ k. last_value k (seqtrack q v s).1)
            (λ k. if q == k then some v else last_value k s) l.1
            (λ k z. last_value-seqtrack q v k s l.0 z h)))

-- A session that starts with an empty tree answers every series of calls, with sequence ids from 0 to
-- 2 ^ 31 - 1, as a map from sequences to last values would: among these the comparison by the
-- difference of two ids does not overflow.
pub seqtrack_all-replay :
    (calls : List (ℕ × ℕ)) → IdsFit calls → seqtrack_all calls initial ≡ replay calls (λ k. none)
seqtrack_all-replay calls l =
    seqtrack_all_from calls initial l initial-IsValid
    ∙ ap (replay calls) (fun_ext last_value-initial)
