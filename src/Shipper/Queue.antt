-- ===== src/Shipper/Queue.antt =====
-- The archive queue of src/slony_logshipper/ipcutil.c stays in the order of strcmp(), whatever
-- messages arrive.
use slony1_engine.Base.{
  ℕ, suc, ◌+◌, ◌≤◌, ◌≡◌, refl, sym, ap, subst, ◌∙◌, inl, inr, Bool, true, false, not, Option, none,
  some, List, [], ◌∷◌, ◌++◌, if◌then◌else◌, length, take_all, arith,
}
use slony1_engine.Query.{◌>>=◌}
use slony1_engine.Shipper.{
  Message, terminate_smart, terminate_immed, resume, logswitch, archive, Shipper, append_path,
  ipc_add_path, receive, receive_all, Batch, ipc_poll, Finishing, Finish, finished, busy, destroy,
  finish_drained, ipc_finish,
}
use slony1_engine.Shipper.Sorted.{
  IsSorted, insert_in_front_lem, occurs, occurs-append, occurs-placed, placed, placed-IsSorted,
  placed-length,
}

-- The queue is sorted, and the tail is its last element.
pub record IsGood (s : Shipper) : Type 0 where
  pub sorted : IsSorted s.archive_queue
  pub tail_last : s.archive_queue_tail ≡ length s.archive_queue

abbrev pub with_path : List ℕ → Shipper → Shipper
with_path p s = record s {
  archive_queue = placed p s.archive_queue;
  archive_queue_tail = suc (length s.archive_queue);
}

append_path-placed :
    (p : List ℕ) (s : Shipper) (q : List (List ℕ)) (n : ℕ)
    → n ≡ length q
    → placed p q ≡ q ++ p ∷ []
    → append_path p (record s { archive_queue = q; archive_queue_tail = n })
      ≡ some (record s { archive_queue = placed p q; archive_queue_tail = suc (length q) })
append_path-placed p s [] n h e = rw e refl
append_path-placed p s (x ∷ xs) n h e = rw (h, e, take_all (x ∷ xs)) refl

abbrev added : List ℕ → Shipper → Option (List (List ℕ)) → Option Shipper
added p s o = elim o [
  | some q ↦ some (record s { archive_queue = q; archive_queue_tail = s.archive_queue_tail + 1 })
  | none ↦ append_path p s
]

pub ipc_add_path-placed :
    (p : List ℕ) (s : Shipper) → IsGood s → ipc_add_path p s ≡ some (with_path p s)
unfolding ipc_add_path
ipc_add_path-placed p s h = elim (insert_in_front_lem p s.archive_queue) [
  | inl e ↦
      let next : s.archive_queue_tail + 1 ≡ suc (length s.archive_queue) =
        omega (arith, h.tail_last) in
      ap (added p s) e
      ∙ ap
          (λ n.
            some (record s { archive_queue = placed p s.archive_queue; archive_queue_tail = n }))
          next
  | inr e ↦
      ap (added p s) e.0
      ∙ append_path-placed p s s.archive_queue s.archive_queue_tail h.tail_last e.1
]

pub with_path-IsGood : (p : List ℕ) (s : Shipper) → IsGood s → IsGood (with_path p s)
with_path-IsGood p s h = record {
  sorted = placed-IsSorted p s.archive_queue h.sorted;
  tail_last = sym (placed-length p s.archive_queue);
}

-- There is a result, and it has the property.
abbrev pub Yields {ℓ} : {A : Type ℓ} → (A → Type 0) → Option A → Type 0
Yields P none = false ≡ true
Yields P (some a) = P a

pub Yields-bind {ℓ κ} :
    {A : Type ℓ} {B : Type κ} (P : A → Type 0) (Q : B → Type 0) (m : Option A) (f : A → Option B)
    → Yields P m
    → ((a : A) → P a → Yields Q (f a))
    → Yields Q (m >>= f)
Yields-bind P Q none f h k = cc
Yields-bind P Q (some a) f h k = k a h

pub Yields-map {ℓ} :
    {A : Type ℓ} (P Q : A → Type 0) (m : Option A) → ((a : A) → P a → Q a) → Yields P m → Yields Q m
Yields-map P Q none f h = h
Yields-map P Q (some a) f h = f a h

pub Yields-if {ℓ} :
    {A : Type ℓ} (P : A → Type 0) (b : Bool) (m n : Option A)
    → Yields P m
    → Yields P n
    → Yields P (if b then m else n)
Yields-if P true m n h k = h
Yields-if P false m n h k = k

-- The queue is good, and has between what it had and that with the paths `ps` in addition.
abbrev pub Gains : List (List ℕ) → Shipper → Shipper → Type 0
Gains ps s t =
    IsGood t
    × ((x : List ℕ) → occurs x s.archive_queue ≤ occurs x t.archive_queue)
    × ((x : List ℕ) → occurs x t.archive_queue ≤ occurs x s.archive_queue + occurs x ps)

-- The paths that messages bring.
abbrev pub path_of : Message → List (List ℕ)
path_of (archive p) = p ∷ []
path_of m = []

abbrev pub paths_of : List Message → List (List ℕ)
paths_of [] = []
paths_of (m ∷ ms) = path_of m ++ paths_of ms

-- A state with the same queue.
pub same-Gains :
    (ps : List (List ℕ)) (s t : Shipper)
    → IsGood s
    → t.archive_queue ≡ s.archive_queue
    → t.archive_queue_tail ≡ s.archive_queue_tail
    → Gains ps s t
same-Gains ps s t h e f = (
  record {
    sorted = subst IsSorted (sym e) h.sorted;
    tail_last = f ∙ h.tail_last ∙ ap (λ q. length q) (sym e);
  },
  λ x. omega (arith, ap (occurs x) e),
  λ x. omega (arith, ap (occurs x) e),
)

-- The queue is good, and just the paths `ps` are new in it.
abbrev pub Adds : List (List ℕ) → Shipper → Shipper → Type 0
Adds ps s t =
    IsGood t × ((x : List ℕ) → occurs x t.archive_queue ≡ occurs x s.archive_queue + occurs x ps)

pub Adds-Gains : (ps : List (List ℕ)) (s t : Shipper) → Adds ps s t → Gains ps s t
Adds-Gains ps s t h = (h.0, λ x. omega (arith, h.1 x), λ x. omega (arith, h.1 x))

Adds-trans :
    (ps qs : List (List ℕ)) (s t u : Shipper) → Adds ps s t → Adds qs t u → Adds (ps ++ qs) s u
Adds-trans ps qs s t u h k = (k.0, λ x. omega (arith, h.1 x, k.1 x, occurs-append x ps qs))

-- The same queue, behind a message that is no path.
same-Adds :
    (s t : Shipper)
    → IsGood s
    → t.archive_queue ≡ s.archive_queue
    → t.archive_queue_tail ≡ s.archive_queue_tail
    → Adds [] s t
unfolding occurs
same-Adds s t h e f = ((same-Gains [] s t h e f).0, λ x. omega (arith, ap (occurs x) e))

pub receive-Adds :
    (m : Message) (s : Shipper) → IsGood s → Yields (Adds (path_of m) s) (receive m s)
unfolding receive occurs
receive-Adds terminate_smart s h =
    same-Adds s (record s { shutdown_smart_requested = true }) h refl refl
receive-Adds terminate_immed s h =
    same-Adds s (record s { shutdown_immed_requested = true }) h refl refl
receive-Adds resume s h = same-Adds s (record s { wait_for_resume = false }) h refl refl
receive-Adds logswitch s h = same-Adds s (record s { logfile_switch_requested = true }) h refl refl
receive-Adds (archive p) s h =
    subst (Yields (Adds (p ∷ []) s)) (sym (ipc_add_path-placed p s h))
      (with_path-IsGood p s h, λ x. omega (arith, occurs-placed p x s.archive_queue))

pub receive_all-Adds :
    (ms : List Message) (s : Shipper) → IsGood s → Yields (Adds (paths_of ms) s) (receive_all ms s)
unfolding receive_all
receive_all-Adds [] s h = same-Adds s s h refl refl
receive_all-Adds (m ∷ ms) s h =
    Yields-bind (Adds (path_of m) s) (Adds (path_of m ++ paths_of ms) s) (receive m s)
      (λ t. receive_all ms t) (receive-Adds m s h)
      (λ t k.
        Yields-map (Adds (paths_of ms) t) (Adds (path_of m ++ paths_of ms) s) (receive_all ms t)
          (λ u l. Adds-trans (path_of m) (paths_of ms) s t u k l) (receive_all-Adds ms t k.0))

pub ipc_poll-Adds :
    (b : Batch) (s : Shipper)
    → IsGood s
    → Yields (λ r. Adds (paths_of b.messages) s r.1) (ipc_poll b s)
unfolding ipc_poll
ipc_poll-Adds b s h =
    Yields-bind (Adds (paths_of b.messages) s) (λ r. Adds (paths_of b.messages) s r.1)
      (receive_all b.messages s) (λ t. some (b.ends, t)) (receive_all-Adds b.messages s h)
      (λ t k. k)

pub ipc_poll-Gains :
    (b : Batch) (s : Shipper)
    → IsGood s
    → Yields (λ r. Gains (paths_of b.messages) s r.1) (ipc_poll b s)
ipc_poll-Gains b s h =
    Yields-map (λ r. Adds (paths_of b.messages) s r.1) (λ r. Gains (paths_of b.messages) s r.1)
      (ipc_poll b s) (λ r k. Adds-Gains (paths_of b.messages) s r.1 k) (ipc_poll-Adds b s h)

pub destroy-Gains :
    (k : Finishing) (ps : List (List ℕ)) (s t : Shipper) → Gains ps s t → Gains ps s (destroy k t).1
destroy-Gains k ps s t h = (record { sorted = h.0.sorted; tail_last = h.0.tail_last }, h.1, h.2)

finish_drained-Gains :
    (k : Finishing) (ps : List (List ℕ)) (s : Shipper) (r : Bool × Shipper)
    → Gains ps s r.1
    → Yields (λ f. Gains ps s f.1) (finish_drained k r)
finish_drained-Gains k ps s r h =
    Yields-if (λ f. Gains ps s f.1) (r.0)
      (elim r.1.archive_queue [
        | [] ↦ some (destroy k r.1)
        | _ ∷ _ ↦ some (if k.unlocks then busy else Finish.broken, r.1)
      ])
      (some (Finish.broken, r.1))
      (elim (r.1.archive_queue)
        as (λ q.
          Yields (λ f. Gains ps s f.1)
            (elim q [
              | [] ↦ some (destroy k r.1)
              | _ ∷ _ ↦ some (if k.unlocks then busy else Finish.broken, r.1)
            ])) [ [] ↦ destroy-Gains k ps s r.1 h | _ ∷ _ ↦ h ])
      h

pub ipc_finish-Gains :
    (force : Bool) (k : Finishing) (s : Shipper)
    → IsGood s
    → Yields (λ f. Gains (paths_of k.drained.messages) s f.1) (ipc_finish force k s)
unfolding ipc_finish
ipc_finish-Gains force k s h =
    let ps = paths_of k.drained.messages in
    let same = same-Gains ps s s h refl refl in
    let P : Finish × Shipper → Type 0 = λ f. Gains ps s f.1 in
    let drain = ipc_poll k.drained s >>= λ r. finish_drained k r in
    let locked : Option (Finish × Shipper) = if k.locks then drain else some (Finish.broken, s) in
    Yields-if P (not s.ipc_creator) (some (finished, s))
      (if force then some (destroy k s) else locked) same
      (Yields-if P force (some (destroy k s)) locked (destroy-Gains k ps s s same) (
        Yields-if P k.locks drain (some (Finish.broken, s))
          (Yields-bind (λ r. Gains ps s r.1) P (ipc_poll k.drained s) (λ r. finish_drained k r)
            (ipc_poll-Gains k.drained s h) (λ r g. finish_drained-Gains k ps s r g))
          same))
