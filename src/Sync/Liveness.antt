-- ===== src/Sync/Liveness.antt =====
-- The thread of src/slon/sync_thread.c makes a SYNC within its timeout.
use slony1_engine.Base.{
  ℕ, suc, ◌+◌, ◌*◌, ◌≤◌, ◌<◌, ◌≡◌, ◌≢◌, refl, Bool, true, false, none, List, [], ◌∷◌, if◌then◌else◌,
  length, arith, All, Option-cases, inl, inr,
}
use slony1_engine.Base.Int.{ℤ, pos_part, neg_part, ◌-ℤ◌, is_negative}
use slony1_engine.Sync.{
  Intervals, SyncState, Answers, Round, synced, idle, retried, start_count, count_down, needs_sync,
  sync_round, sync_loop,
}

abbrev pub any : List Bool → Bool
any [] = false
any (b ∷ bs) = if b then true else any bs

-- All queries of the round succeed.
abbrev pub IsAnswered : Answers → Type 0
IsAnswered a =
    (a.last_value ≢ none) × (a.event_created ≡ true) × (a.committed ≡ true) × (a.rolled_back ≡ true)

-- A round either makes a SYNC or counts down, and then the count is not below zero.
abbrev RoundMeets : Intervals → SyncState → Round → Type 0
RoundMeets i s (synced t) = Unit
RoundMeets i s (idle t) =
    (pos_part t.timeout_count + i.interval ≤ pos_part s.timeout_count)
    × (neg_part t.timeout_count ≡ 0)
RoundMeets i s retried = ⊥

count_down_lem :
    (i : Intervals) (count : ℤ)
    → i.timeout ≢ 0
    → is_negative (count_down i count) ≡ false
    → (pos_part (count_down i count) + i.interval ≤ pos_part count)
      × (neg_part (count_down i count) ≡ 0)
unfolding count_down ◌-ℤ◌
count_down_lem i count h n = ground arith

sync_round-RoundMeets :
    (i : Intervals) (a : Answers) (s : SyncState)
    → i.timeout ≢ 0
    → IsAnswered a
    → RoundMeets i s (sync_round i a s)
unfolding sync_round needs_sync
sync_round-RoundMeets i a s h w = elim (Option-cases a.last_value) [
  | inl missing ↦ absurd (w.0 missing)
  | inr (value, found) ↦ ground (arith, count_down_lem i s.timeout_count h)
]

mul_suc : (n k : ℕ) → suc n * k ≡ n * k + k
mul_suc n k = omega arith

-- As long as the count lasts.
sync_loop_within :
    (i : Intervals) (answers : List Answers) (s : SyncState)
    → i.timeout ≢ 0
    → All IsAnswered answers
    → pos_part s.timeout_count < length answers * i.interval
    → any (sync_loop i answers s) ≡ true
unfolding sync_loop
sync_loop_within i [] s h w n = absurd (omega arith)
sync_loop_within i (a ∷ answers) s h w n =
    go (sync_round i a s) (sync_round-RoundMeets i a s h w.0)
      (λ t k. sync_loop_within i answers t h w.1 k)
  where
    go :
        (r : Round)
        → RoundMeets i s r
        → ((t : SyncState)
            → pos_part t.timeout_count < length answers * i.interval
            → any (sync_loop i answers t) ≡ true)
        → any (elim r [
          | synced t ↦ true ∷ sync_loop i answers t
          | idle t ↦ false ∷ sync_loop i answers t
          | retried ↦ []
        ])
          ≡ true
    go (synced t) m ih = refl
    go (idle t) m ih = ih t (omega (arith, m.0, n, mul_suc (length answers) i.interval))
    go retried m ih = elim m [ ]

start_count_within :
    (i : Intervals) (m : ℕ)
    → i.timeout ≢ 0
    → i.timeout < suc (suc m) * i.interval
    → pos_part (start_count i) < suc m * i.interval
unfolding start_count
start_count_within i m h n = ground (arith, mul_suc (suc m) i.interval, mul_suc m i.interval)

-- With a timeout, a count as a SYNC or the start of the thread leaves it, and queries that succeed:
-- among any rounds, at least one, whose intervals and one more exceed the timeout there is one that
-- makes a SYNC, also if no rows change.
pub any-sync_loop :
    (i : Intervals) (answers : List Answers) (s : SyncState)
    → i.timeout ≢ 0
    → s.timeout_count ≡ start_count i
    → All IsAnswered answers
    → i.timeout < suc (length answers) * i.interval
    → 0 < length answers
    → any (sync_loop i answers s) ≡ true
any-sync_loop i [] s h e w n k = absurd (omega (arith, k))
any-sync_loop i (a ∷ answers) s h e w n k =
    sync_loop_within i (a ∷ answers) s h w (rw e (start_count_within i (length answers) h n))
