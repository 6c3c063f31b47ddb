-- ===== src/Shipper/Archives/Wanted.antt =====
-- What archscan() of src/slony_logshipper/slony_logshipper.c puts into the queue.
use slony1_engine.Base.{
  ℕ, ◌+◌, ◌<◌, ◌≡◌, refl, ap₂, sym, ◌∙◌, subst, Bool, true, false, Option, none, some, ◌==◌, List,
  [], ◌∷◌, ◌++◌, if◌then◌else◌, length, filter, map, arith, All, All-left, All-right,
}
use slony1_engine.Misc.{strcmp_eq}
use slony1_engine.Query.{◌>>=◌}
use slony1_engine.Shipper.{Shipper, ipc_send_path}
use slony1_engine.Shipper.Sorted.{occurs, occurs-placed}
use slony1_engine.Shipper.Queue.{
  IsGood, Yields, Yields-bind, Yields-map, with_path, with_path-IsGood, ipc_add_path-placed,
}
use slony1_engine.Shipper.Archives.{
  ArchscanEntry, nil, entry, archscan_sort_out, scan_names, archscan,
}
use slony1_engine.Shipper.Archives.Trees.{
  in_order, is_wanted, IsOrdered, scan_names_lem, All-scan_names,
}

abbrev pub path_in_dir : List ℕ → List ℕ → List ℕ
path_in_dir dir f = dir ++ b'/' ∷ f

-- The daemon's queue is good, and its paths fit.
pub ipc_send_path-placed :
    (msgmax : ℕ) (sends : Bool) (p : List ℕ) (s : Shipper)
    → IsGood s
    → s.ipc_creator ≡ true
    → length p < msgmax
    → ipc_send_path msgmax sends p s ≡ some (true, with_path p s)
unfolding ipc_send_path
ipc_send_path-placed msgmax sends p s h c l = ground (arith, ipc_add_path-placed p s h)

pub if_true :
    {A : Type 0} (P : A → Type 0) (b : Bool) (m n : Option A)
    → b ≡ true
    → Yields P m
    → Yields P (if b then m else n)
if_true P true m n e h = h
if_true P false m n e h = cc

occurs-map-append :
    (x : List ℕ) (g : List ℕ → List ℕ) (fs hs : List (List ℕ))
    → occurs x (map g (fs ++ hs)) ≡ occurs x (map g fs) + occurs x (map g hs)
unfolding occurs
occurs-map-append x g [] hs = omega arith
occurs-map-append x g (f ∷ fs) hs = omega (arith, occurs-map-append x g fs hs)

module _ (msgmax : ℕ) (sends : Bool) (dir : List ℕ) where
  abbrev Fits : List ℕ → Type 0
  Fits f = length (path_in_dir dir f) < msgmax

  -- The names go to the queue, and nothing else changes there.
  abbrev Sends : Shipper → List (List ℕ) → Bool × Shipper → Type 0
  Sends s fs r =
      (r.0 ≡ true)
      × (r.1.ipc_creator ≡ true)
      × IsGood r.1
      × ((x : List ℕ)
          → occurs x r.1.archive_queue
            ≡ occurs x s.archive_queue + occurs x (map (path_in_dir dir) fs))

  -- The entry's name and those on its right.
  right_sends :
      (f : List ℕ) (b : ArchscanEntry) (u : Shipper)
      → u.ipc_creator ≡ true
      → IsGood u
      → Fits f
      → ((v : Shipper)
          → IsGood v
          → v.ipc_creator ≡ true
          → Yields (Sends v (in_order b)) (archscan_sort_out msgmax sends dir b v))
      → Yields (Sends u (f ∷ in_order b)) (
          ipc_send_path msgmax sends (dir ++ b'/' ∷ f) u >>= λ v.
          if v.0 then archscan_sort_out msgmax sends dir b v.1 else some v)
  unfolding occurs
  right_sends f b u c h l again =
      let p = path_in_dir dir f in
      let v = with_path p u in
      subst
        (λ o.
          Yields (Sends u (f ∷ in_order b))
            (o >>= λ r. if r.0 then archscan_sort_out msgmax sends dir b r.1 else some r))
        (sym (ipc_send_path-placed msgmax sends p u h c l))
        (Yields-map (Sends v (in_order b)) (Sends u (f ∷ in_order b))
          (archscan_sort_out msgmax sends dir b v)
          (λ r k. (k.0, k.1, k.2, λ x. omega (arith, k.3 x, occurs-placed p x u.archive_queue)))
          (again v (with_path-IsGood p u h) c))

  archscan_sort_out-Sends :
      (t : ArchscanEntry) (s : Shipper)
      → IsGood s
      → s.ipc_creator ≡ true
      → All Fits (in_order t)
      → Yields (Sends s (in_order t)) (archscan_sort_out msgmax sends dir t s)
  unfolding archscan_sort_out in_order occurs
  archscan_sort_out-Sends nil s h c l = (refl, c, h, λ x. omega arith)
  archscan_sort_out-Sends (entry f a b) s h c l =
      let after_left : Bool × Shipper → Option (Bool × Shipper) = λ u.
        if u.0
        then (ipc_send_path msgmax sends (dir ++ b'/' ∷ f) u.1 >>= λ v.
            if v.0 then archscan_sort_out msgmax sends dir b v.1 else some v)
        else some u in
      Yields-bind (Sends s (in_order a)) (Sends s (in_order a ++ f ∷ in_order b))
        (archscan_sort_out msgmax sends dir a s) after_left
        (archscan_sort_out-Sends a s h c (All-left Fits (in_order a) (f ∷ in_order b) l))
        (λ u k.
          if_true (Sends s (in_order a ++ f ∷ in_order b)) (u.0)
            (ipc_send_path msgmax sends (dir ++ b'/' ∷ f) u.1 >>= λ v.
              if v.0 then archscan_sort_out msgmax sends dir b v.1 else some v)
            (some u) k.0
            (Yields-map (Sends u.1 (f ∷ in_order b)) (Sends s (in_order a ++ f ∷ in_order b))
              (ipc_send_path msgmax sends (dir ++ b'/' ∷ f) u.1 >>= λ v.
                if v.0 then archscan_sort_out msgmax sends dir b v.1 else some v)
              (λ r m. (
                m.0,
                m.1,
                m.2,
                λ x. omega (
                  arith,
                  m.3 x,
                  k.3 x,
                  occurs-map-append x (path_in_dir dir) (in_order a) (f ∷ in_order b),
                ),
              ))
              (right_sends f b u.1 k.1 k.2 (All-right Fits (in_order a) (f ∷ in_order b) l).0
                (λ v g d.
                  archscan_sort_out-Sends b v g d
                    (All-right Fits (in_order a) (f ∷ in_order b) l).1))))

-- The name of a path in the directory.
unfoldable pub name_in_dir : List ℕ → List ℕ → Option (List ℕ)
name_in_dir [] [] = none
name_in_dir [] (e ∷ x) = if e == b'/' then some x else none
name_in_dir (c ∷ dir) [] = none
name_in_dir (c ∷ dir) (e ∷ x) = let rest = name_in_dir dir x in if e == c then rest else none

-- How often the names have a path's name; never, where the path is not in the directory.
abbrev pub occurs_name : Option (List ℕ) → List (List ℕ) → ℕ
occurs_name none fs = 0
occurs_name (some f) fs = occurs f fs

abbrev same_name : Option (List ℕ) → List ℕ → Bool
same_name none f = false
same_name (some g) f = strcmp_eq g f

strcmp_eq-path_in_dir :
    (dir x f : List ℕ) → strcmp_eq x (path_in_dir dir f) ≡ same_name (name_in_dir dir x) f
unfolding strcmp_eq name_in_dir
strcmp_eq-path_in_dir [] [] f = refl
strcmp_eq-path_in_dir [] (e ∷ x) f = ground arith
strcmp_eq-path_in_dir (c ∷ dir) [] f = refl
strcmp_eq-path_in_dir (c ∷ dir) (e ∷ x) f = ground (arith, strcmp_eq-path_in_dir dir x f)

occurs_name_step :
    (o : Option (List ℕ)) (f : List ℕ) (fs : List (List ℕ))
    → (if same_name o f then 1 else 0) + occurs_name o fs ≡ occurs_name o (f ∷ fs)
unfolding occurs
occurs_name_step none f fs = refl
occurs_name_step (some g) f fs = refl

occurs-path_in_dir :
    (dir x : List ℕ) (fs : List (List ℕ))
    → occurs x (map (path_in_dir dir) fs) ≡ occurs_name (name_in_dir dir x) fs
unfolding occurs
occurs-path_in_dir dir x [] = elim (name_in_dir dir x) as (λ o. 0 ≡ occurs_name o []) [
  | none ↦ refl
  | some f ↦ refl
]
occurs-path_in_dir dir x (f ∷ fs) =
    ap₂ (λ b n. (if b then 1 else 0) + n) (strcmp_eq-path_in_dir dir x f)
      (occurs-path_in_dir dir x fs)
    ∙ occurs_name_step (name_in_dir dir x) f fs

occurs_name_same :
    (o : Option (List ℕ)) (fs hs : List (List ℕ))
    → ((f : List ℕ) → occurs f fs ≡ occurs f hs)
    → occurs_name o fs ≡ occurs_name o hs
occurs_name_same none fs hs h = refl
occurs_name_same (some f) fs hs h = h f

nil-IsOrdered : IsOrdered nil
unfolding IsOrdered
nil-IsOrdered = tt

nil-All : (P : List ℕ → Type 0) → All P (in_order nil)
unfolding in_order
nil-All P = tt

occurs-nil : (f : List ℕ) → occurs f (in_order nil) ≡ 0
unfolding occurs in_order
occurs-nil f = refl

-- Where the daemon scans a directory whose paths are all shorter than MSGMAX, with its queue in order,
-- it puts each name that is wanted into the queue as often as the directory has it, and every other
-- path, also of another directory, is in the queue as often as before; the queue is in order again.
pub archscan_lem :
    (msgmax : ℕ) (sends : Bool) (dir done : List ℕ) (args names : List (List ℕ)) (s : Shipper)
    → IsGood s
    → s.ipc_creator ≡ true
    → All (λ f. length (path_in_dir dir f) < msgmax) names
    → Yields
        (λ r.
          (r.0 ≡ true)
          × IsGood r.1
          × ((x : List ℕ)
              → occurs x r.1.archive_queue
                ≡ occurs x s.archive_queue
                  + occurs_name (name_in_dir dir x) (filter (is_wanted done args) names)))
        (archscan msgmax sends dir done args (some names) s)
unfolding archscan
archscan_lem msgmax sends dir done args names s h c l =
    let t = scan_names done args names nil in
    let x = scan_names_lem done args names nil (nil-IsOrdered) in
    Yields-map (Sends msgmax sends dir s (in_order t))
      (λ r.
        (r.0 ≡ true)
        × IsGood r.1
        × ((x : List ℕ)
            → occurs x r.1.archive_queue
              ≡ occurs x s.archive_queue
                + occurs_name (name_in_dir dir x) (filter (is_wanted done args) names)))
      (archscan_sort_out msgmax sends dir t s)
      (λ r k. (
        k.0,
        k.2,
        λ p. omega (
          arith,
          k.3 p,
          occurs-path_in_dir dir p (in_order t),
          occurs_name_same (name_in_dir dir p) (in_order t) (filter (is_wanted done args) names)
              (λ f. omega (arith, x.1 f, occurs-nil f)),
        ),
      ))
      (archscan_sort_out-Sends msgmax sends dir t s h c (
        All-scan_names (Fits msgmax sends dir) done args names nil l
          (nil-All (Fits msgmax sends dir))))
