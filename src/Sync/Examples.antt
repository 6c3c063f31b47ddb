-- ===== src/Sync/Examples.antt =====
-- Three quiet rounds, src/slon/sync_thread.c.
use slony1_engine.Base.{◌≡◌, refl, true, some, List, [], ◌∷◌, arith}
use slony1_engine.Sync.{Intervals, Answers, initial_sync, sync_loop}
use slony1_engine.Sync.Liveness.{any, IsAnswered, any-sync_loop}

abbrev intervals : Intervals
intervals = record { timeout = 30; interval = 10 }

abbrev quiet : Answers
quiet = record { last_value = some []; event_created = true; committed = true; rolled_back = true }

abbrev rounds : List Answers
rounds = quiet ∷ quiet ∷ quiet ∷ []

quiet-IsAnswered : IsAnswered quiet
quiet-IsAnswered = ((λ e. cc), refl, refl, refl)

any-sync_loop_example : any (sync_loop intervals rounds (initial_sync intervals)) ≡ true
unfolding initial_sync
any-sync_loop_example =
    any-sync_loop intervals rounds (initial_sync intervals) (λ e. cc) refl
      (quiet-IsAnswered, (quiet-IsAnswered, (quiet-IsAnswered, tt))) (omega arith) (omega arith)
