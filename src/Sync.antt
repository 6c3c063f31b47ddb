-- ===== src/Sync.antt =====
-- The loop of syncThread_main() in src/slon/sync_thread.c, which makes SYNC events. Its queries are
-- given by their answers. The intervals, in milliseconds, are not negative.
pub mod Liveness
mod Examples
use slony1_engine.Base.{
  ℕ, Bool, true, false, not, ◌&&◌, ◌||◌, Option, none, some, List, [], ◌∷◌, if◌then◌else◌, ◌==◌,
}
use slony1_engine.Base.Int.{ℤ, pos, sub_ℕ, ◌-ℤ◌, is_negative}
use slony1_engine.Misc.{strcmp_eq}

-- sync_interval_timeout and sync_interval
pub record Intervals : Type 0 where
  pub timeout : ℕ
  pub interval : ℕ

pub record SyncState : Type 0 where
  pub last_actseq_buf : List ℕ
  pub timeout_count : ℤ

-- What the queries of one round answer: the last value of the action sequence, unless the query
-- failed, and whether createEvent(), the commit and the rollback succeed.
pub record Answers : Type 0 where
  pub last_value : Option (List ℕ)
  pub event_created : Bool
  pub committed : Bool
  pub rolled_back : Bool

-- slon_retry() ends the thread.
pub data Round : Type 0 where
  synced idle : SyncState → Round
  retried : Round

unfoldable pub start_count : Intervals → ℤ
start_count i = if i.timeout == 0 then pos 0 else sub_ℕ i.timeout i.interval

unfoldable pub initial_sync : Intervals → SyncState
unfolding start_count
initial_sync i = record { last_actseq_buf = []; timeout_count = start_count i }

unfoldable pub count_down : Intervals → ℤ → ℤ
unfolding ◌-ℤ◌
count_down i count = if i.timeout == 0 then count else count -ℤ pos i.interval

-- "Check if it's identical to the last known seq or if the sync interval timeout has arrived."
unfoldable pub needs_sync : List ℕ → List ℕ → ℤ → Bool
unfolding strcmp_eq
needs_sync last value count = not (strcmp_eq last value) || is_negative count

unfoldable pub sync_round : Intervals → Answers → SyncState → Round
unfolding count_down needs_sync start_count
sync_round i a s = elim a.last_value [
  | none ↦ retried
  | some value ↦
      let count = count_down i s.timeout_count in
      if needs_sync s.last_actseq_buf value count
      then (if a.event_created && a.committed
          then synced (record { last_actseq_buf = value; timeout_count = start_count i })
          else retried)
      else (if a.rolled_back then idle (record s { timeout_count = count }) else retried)
]

-- Which rounds make a SYNC, as long as the scheduler and the queries are well.
unfoldable pub sync_loop : Intervals → List Answers → SyncState → List Bool
unfolding sync_round
sync_loop i [] s = []
sync_loop i (a ∷ answers) s = elim (sync_round i a s) [
  | synced t ↦ true ∷ sync_loop i answers t
  | idle t ↦ false ∷ sync_loop i answers t
  | retried ↦ []
]
