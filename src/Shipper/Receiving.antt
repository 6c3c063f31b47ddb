-- ===== src/Shipper/Receiving.antt =====
-- ipc_recv_path() of src/slony_logshipper/ipcutil.c: what it takes from the queue.
use slony1_engine.Base.{
  ℕ, suc, ◌+◌, ◌≤◌, ◌≡◌, refl, Option, some, List, [], ◌∷◌, ◌++◌, length, arith,
}
use slony1_engine.Shipper.{
  Shipper, Finish, finished, busy, Single, one, Turn, Received, next_path, stopped, unusable,
  forced, without_first, recv_next,
}
use slony1_engine.Shipper.Returns.{Justified}
use slony1_engine.Shipper.Sorted.{IsSorted, occurs}
use slony1_engine.Shipper.Queue.{Yields, path_of, paths_of, IsGood}

-- The path that was returned, and those that still wait.
abbrev pub held : Received × Shipper → List (List ℕ)
held (next_path p, t) = p ∷ t.archive_queue
held (r, t) = t.archive_queue

-- The queue is good, no path of it comes before the one that was returned, none is lost, and no more
-- than `n` are new.
abbrev pub Receives : (List ℕ → ℕ) → Shipper → Received × Shipper → Type 0
Receives n s r =
    IsGood r.1
    × IsSorted (held r)
    × ((x : List ℕ) → occurs x s.archive_queue ≤ occurs x (held r))
    × ((x : List ℕ) → occurs x (held r) ≤ occurs x s.archive_queue + n x)

abbrev path_in : Single → List (List ℕ)
path_in (one m) = path_of m
path_in o = []

-- All the paths that a turn can receive.
abbrev pub turn_paths : Turn → List (List ℕ)
turn_paths t =
    paths_of t.polled.messages ++ paths_of t.finishing.drained.messages ++ path_in t.single

abbrev pub all_paths : List Turn → List (List ℕ)
all_paths [] = []
all_paths (t ∷ ts) = turn_paths t ++ all_paths ts

pub without_first-IsGood :
    (s : Shipper) (p : List ℕ) (ps : List (List ℕ))
    → IsSorted (p ∷ ps)
    → s.archive_queue_tail ≡ suc (length ps)
    → IsGood (without_first ps s)
without_first-IsGood s p [] h e = record { sorted = tt; tail_last = refl }
without_first-IsGood s p (q ∷ qs) h e = record { sorted = h.1; tail_last = omega (arith, e) }

module _ (again : Shipper → Option (Received × Shipper)) (n : List ℕ → ℕ)
    (good : (s : Shipper) → IsGood s → Yields (Receives n s) (again s)) where
  -- Behind ipc_finish(false).
  abbrev finish_result : Turn → Finish × Shipper → Option (Received × Shipper)
  finish_result t f = elim (f.0) [
    | finished ↦ some (stopped, f.1)
    | Finish.broken ↦ forced unusable t.finishing f.1
    | busy ↦ recv_next again t f.1
  ]

-- The messages that the first poll brings all go into the queue.
abbrev pub first_paths : List Turn → List (List ℕ)
first_paths [] = []
first_paths (t ∷ ts) = paths_of t.polled.messages

-- What a call leaves, and why it returns.
abbrev pub Delivers : List Turn → Shipper → Received × Shipper → Type 0
Delivers ts s r =
    IsGood r.1
    × IsSorted (held r)
    × ((x : List ℕ) → occurs x s.archive_queue + occurs x (first_paths ts) ≤ occurs x (held r))
    × ((x : List ℕ) → occurs x (held r) ≤ occurs x s.archive_queue + occurs x (all_paths ts))
    × Justified ts r
