-- ===== src/Avl/Sorted.antt =====
-- The search tree of avl_tree.c as a sorted list of entries: what avl_insert hands to its caller,
-- and what a caller makes of it by AVL_DATA and AVL_SETDATA.
use Prim.Native.Nat.Ordering.{lt, eq, gt}
use slony1_engine.Base.{
  ℕ, ◌≡◌, ◌≢◌, refl, sym, Bool, false, Option, none, some, List, [], ◌∷◌, ◌++◌, Ordering, arith,
  ◌==◌, if◌then◌else◌, All, All-left, All-right, All-imp, Ordering-cases, inl, inr,
}
use slony1_engine.Avl.{
  Node, nil, node, Entry, Inserted, fresh, revive, insert_right, insert_left, insertinto, insert,
  entries, set_data, data_at,
}
use slony1_engine.Avl.Order.{
  IsLawful, Below, Above, IsOrdered, find, place, Below-widen, Below-equal,
}

module _ {ℓ} {C : Type ℓ} (compfunc : C → C → Ordering) where
  abbrev pub IsSorted : List (Entry C) → Type 0
  IsSorted [] = Unit
  IsSorted (e ∷ es) = Above compfunc e.cdata es × IsSorted es

  IsSorted-parts :
      (xs : List (Entry C)) (e : Entry C) (ys : List (Entry C))
      → IsSorted (xs ++ e ∷ ys)
      → Below compfunc e.cdata xs × Above compfunc e.cdata ys × IsSorted xs × IsSorted ys
  IsSorted-parts [] e ys h = (tt, h.0, tt, h.1)
  IsSorted-parts (x ∷ xs) e ys h =
      let k = IsSorted-parts xs e ys h.1 in
      let first = All-right (λ f. compfunc x.cdata f.cdata ≡ lt) xs (e ∷ ys) h.0 in
      (
        (first.0, k.0),
        k.1,
        (All-left (λ f. compfunc x.cdata f.cdata ≡ lt) xs (e ∷ ys) h.0, k.2),
        k.3,
      )

  -- A tree whose walk is sorted is a search tree.
  pub IsSorted-IsOrdered : (t : Node C) → IsSorted (entries t) → IsOrdered compfunc t
  IsSorted-IsOrdered nil h = tt
  IsSorted-IsOrdered (node l ld e rd r) h =
      let k = IsSorted-parts (entries l) e (entries r) h in
      (k.0, k.1, IsSorted-IsOrdered l k.2, IsSorted-IsOrdered r k.3)

  -- What avl_insert returns: the node with the key, or the new one.
  unfoldable pub result_of : ℕ → C → List (Entry C) → ℕ
  result_of a d [] = a
  result_of a d (e ∷ es) = elim (compfunc d e.cdata) [
    | eq ↦ e.addr
    | lt ↦ a
    | gt ↦ result_of a d es
  ]

  -- The data of the entry with this key.
  unfoldable pub hit : C → List (Entry C) → Option C
  hit d [] = none
  hit d (e ∷ es) = elim (compfunc d e.cdata) [ eq ↦ some e.cdata | lt ↦ none | gt ↦ hit d es ]

  -- The reference: put `d` in the place of the entry with its key, or insert it.
  unfoldable pub upsert : ℕ → C → List (Entry C) → List (Entry C)
  upsert a d [] = record { addr = a; cdata = d; deleted = false } ∷ []
  upsert a d (e ∷ es) = elim (compfunc d e.cdata) [
    | eq ↦ record e { cdata = d } ∷ es
    | lt ↦ record { addr = a; cdata = d; deleted = false } ∷ e ∷ es
    | gt ↦ e ∷ upsert a d es
  ]

module _ {ℓ} {C : Type ℓ} where
  pub set_list : ℕ → C → List (Entry C) → List (Entry C)
  set_list a d [] = []
  set_list a d (e ∷ es) = (if e.addr == a then record e { cdata = d } else e) ∷ set_list a d es

  pub get_list : ℕ → List (Entry C) → Option C
  get_list a [] = none
  get_list a (e ∷ es) = if e.addr == a then some e.cdata else get_list a es

  set_list-append :
      (a : ℕ) (d : C) (es fs : List (Entry C))
      → set_list a d (es ++ fs) ≡ set_list a d es ++ set_list a d fs
  unfolding set_list
  set_list-append a d [] fs = refl
  set_list-append a d (e ∷ es) fs = rw (set_list-append a d es fs)

  pub entries-set_data :
      (a : ℕ) (d : C) (t : Node C) → entries (set_data a d t) ≡ set_list a d (entries t)
  unfolding set_data set_list
  entries-set_data a d nil = refl
  entries-set_data a d (node l ld e rd r) = rw (
    entries-set_data a d l,
    entries-set_data a d r,
    set_list-append a d (entries l) (e ∷ entries r),
  )

  abbrev or_else : Option C → Option C → Option C
  or_else none o = o
  or_else (some c) o = some c

  get_list-append :
      (a : ℕ) (es fs : List (Entry C))
      → get_list a (es ++ fs) ≡ or_else (get_list a es) (get_list a fs)
  unfolding get_list
  get_list-append a [] fs = refl
  get_list-append a (e ∷ es) fs = ground (arith, get_list-append a es fs)

  pub data_at-get_list : (a : ℕ) (t : Node C) → data_at a t ≡ get_list a (entries t)
  unfolding data_at get_list
  data_at-get_list a nil = refl
  data_at-get_list a (node l ld e rd r) = ground (
    arith,
    get_list-append a (entries l) (e ∷ entries r),
    data_at-get_list a l,
    data_at-get_list a r,
  )

  -- No two entries share an address.
  abbrev pub IsDistinct : List (Entry C) → Type 0
  IsDistinct [] = Unit
  IsDistinct (e ∷ es) = All (λ f. f.addr ≢ e.addr) es × IsDistinct es

  set_list_miss :
      (a : ℕ) (d : C) (es : List (Entry C)) → All (λ f. f.addr ≢ a) es → set_list a d es ≡ es
  unfolding set_list
  set_list_miss a d [] h = refl
  set_list_miss a d (e ∷ es) h = ground (arith, set_list_miss a d es h.1)

  abbrev pub IsLive : List (Entry C) → Type 0
  IsLive es = All (λ e. e.deleted ≡ false) es

module _ {ℓ} {C : Type ℓ} (compfunc : C → C → Ordering) where
  -- An entry that is found by its key has that key.
  pub hit-equal : (d c : C) (es : List (Entry C)) → hit compfunc d es ≡ some c → compfunc d c ≡ eq
  unfolding hit
  hit-equal d c [] h = cc
  hit-equal d c (e ∷ es) h = ground (arith, hit-equal d c es)

  -- Storing what is there changes nothing.
  pub upsert_same :
      (a : ℕ) (d : C) (es : List (Entry C))
      → hit compfunc d es ≡ some d
      → upsert compfunc a d es ≡ es
  unfolding hit upsert
  upsert_same a d [] h = cc
  upsert_same a d (e ∷ es) h = ground (arith, upsert_same a d es)

  pub find-hit :
      (d : C) (es : List (Entry C))
      → IsLive es
      → elim (find compfunc d es) [ none ↦ none | some e ↦ some e.cdata ] ≡ hit compfunc d es
  unfolding find hit
  find-hit d [] h = refl
  find-hit d (e ∷ es) h = ground (arith, find-hit d es h.1)

  result_of_cases {κ} :
      (P : ℕ → Type κ) (a : ℕ) (d : C) (es : List (Entry C))
      → P a
      → All (λ e. P e.addr) es
      → P (result_of compfunc a d es)
  unfolding result_of
  result_of_cases P a d [] p h = p
  result_of_cases P a d (e ∷ es) p h = elim (Ordering-cases (compfunc d e.cdata)) [
    | inl less ↦ rw (less, result_of) p
    | inr (inl same) ↦ rw (same, result_of) h.0
    | inr (inr more) ↦ rw (more, result_of) (result_of_cases P a d es p h.1)
  ]

  module _ (has_free : Bool) (null : C) where
    -- AVL_SETDATA on the node that avl_insert returned makes the reference update.
    pub set_list-place :
        (a : ℕ) (d : C) (es : List (Entry C))
        → All (λ e. e.addr ≢ a) es
        → IsDistinct es
        → IsLive es
        → set_list (result_of compfunc a d es) d (place compfunc has_free null a d es)
          ≡ upsert compfunc a d es
    unfolding set_list result_of place upsert fresh revive
    set_list-place a d [] n s v = ground arith
    set_list-place a d (e ∷ es) n s v = ground (
      arith,
      set_list-place a d es n.1 s.1 v.1,
      set_list_miss e.addr d es s.0,
      set_list_miss a d es n.1,
      result_of_cases (λ r. e.addr ≢ r) a d es n.0 (All-imp (λ f h p. h (sym p)) es s.0),
    )

    -- AVL_DATA of the node that avl_insert returned: the data under the key, or NULL.
    pub get_list-place :
        (a : ℕ) (d : C) (es : List (Entry C))
        → All (λ e. e.addr ≢ a) es
        → IsDistinct es
        → IsLive es
        → get_list (result_of compfunc a d es) (place compfunc has_free null a d es)
          ≡ elim (hit compfunc d es) [ none ↦ some null | some c ↦ some c ]
    unfolding get_list result_of place hit fresh revive
    get_list-place a d [] n s v = ground arith
    get_list-place a d (e ∷ es) n s v = ground (
      arith,
      get_list-place a d es n.1 s.1 v.1,
      result_of_cases (λ r. e.addr ≢ r) a d es n.0 (All-imp (λ f h p. h (sym p)) es s.0),
    )

    -- Inserting a key that is there, on a live entry, changes nothing.
    pub place_found :
        (a : ℕ) (d c : C) (es : List (Entry C))
        → IsLive es
        → hit compfunc d es ≡ some c
        → place compfunc has_free null a d es ≡ es
    unfolding place hit revive
    place_found a d c [] v h = cc
    place_found a d c (e ∷ es) v h = ground (arith, place_found a d c es v.1)

    result_of-append_lt :
        (a : ℕ) (d : C) (es : List (Entry C)) (e : Entry C) (fs : List (Entry C))
        → compfunc d e.cdata ≡ lt
        → result_of compfunc a d (es ++ e ∷ fs) ≡ result_of compfunc a d es
    unfolding result_of
    result_of-append_lt a d [] e fs h = rw (h, result_of)
    result_of-append_lt a d (x ∷ es) e fs h = ground (arith, result_of-append_lt a d es e fs h)

    result_of_step :
        (a : ℕ) (d : C) (e : Entry C) (fs : List (Entry C))
        → (compfunc d e.cdata ≡ eq → result_of compfunc a d (e ∷ fs) ≡ e.addr)
          × (compfunc d e.cdata ≡ gt → result_of compfunc a d (e ∷ fs) ≡ result_of compfunc a d fs)
    unfolding result_of
    result_of_step a d e fs = ground arith

    module _ (o : IsLawful compfunc) where
      result_of_skip :
          (a : ℕ) (d : C) (es fs : List (Entry C))
          → Below compfunc d es
          → result_of compfunc a d (es ++ fs) ≡ result_of compfunc a d fs
      unfolding result_of
      result_of_skip a d [] fs h = refl
      result_of_skip a d (x ∷ es) fs h =
          rw (o.gt_of_lt x.cdata d h.0, result_of) (result_of_skip a d es fs h.1)

      result-insert_right :
          (a : ℕ) (d : C) (l : Node C) (ld : ℕ) (e : Entry C) (rd : ℕ) (r : Node C)
          (below : Inserted C)
          → below.result ≡ result_of compfunc a d (entries r)
          → (insert_right has_free null a l ld e rd r below).result
            ≡ result_of compfunc a d (entries r)
      unfolding insert_right result_of
      result-insert_right a d l ld e rd nil below h = refl
      result-insert_right a d l ld e rd (node rl rld re rrd rr) below h = h

      result-insert_left :
          (a : ℕ) (d : C) (l : Node C) (ld : ℕ) (e : Entry C) (rd : ℕ) (r : Node C)
          (below : Inserted C)
          → below.result ≡ result_of compfunc a d (entries l)
          → (insert_left has_free null a l ld e rd r below).result
            ≡ result_of compfunc a d (entries l)
      unfolding insert_left result_of
      result-insert_left a d nil ld e rd r below h = refl
      result-insert_left a d (node ll lld le lrd lr) ld e rd r below h = h

      -- `*result` is the node of the entry with the key, or the new node.
      result-insertinto :
          (a : ℕ) (d : C) (t : Node C)
          → IsOrdered compfunc t
          → (insertinto compfunc has_free null a d t).result ≡ result_of compfunc a d (entries t)
      unfolding insertinto
      result-insertinto a d nil h = unfold result_of in refl
      result-insertinto a d (node l ld e rd r) h = ground (
        arith,
        result-insert_right a d l ld e rd r (insertinto compfunc has_free null a d r)
            (result-insertinto a d r h.3),
        result-insert_left a d l ld e rd r (insertinto compfunc has_free null a d l)
            (result-insertinto a d l h.2),
        result_of-append_lt a d (entries l) e (entries r),
        result_of_skip a d (entries l) (e ∷ entries r),
        result_of_step a d e (entries r),
        Below-widen compfunc o d e.cdata (entries l),
        Below-equal compfunc o d e.cdata (entries l),
      )

      pub result-insert :
          (a : ℕ) (d : C) (t : Node C)
          → IsOrdered compfunc t
          → (insert compfunc has_free null a d t).result ≡ result_of compfunc a d (entries t)
      unfolding insert result_of
      result-insert a d nil h = refl
      result-insert a d (node l ld e rd r) h = result-insertinto a d (node l ld e rd r) h
