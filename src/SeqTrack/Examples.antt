-- ===== src/SeqTrack/Examples.antt =====
-- Runs of seqtrack() of src/backend/slony1_funcs.c.
use slony1_engine.Base.{arith, ◌≡◌, none, some, [], ◌∷◌}
use slony1_engine.SeqTrack.{SeqState, initial, seqtrack, seqtrack_all}
use slony1_engine.SeqTrack.Laws.{
  IsValid, initial-IsValid, seqtrack-keeps-IsValid, replay, seqtrack_all-replay,
}

-- The sequence 7 has the value 100 in the session.
abbrev one_sequence : SeqState
one_sequence = (seqtrack 7 100 initial).1

one_sequence-IsValid : IsValid one_sequence
one_sequence-IsValid = seqtrack-keeps-IsValid 7 100 initial (omega arith) initial-IsValid

-- A repeated value is reported as NULL.
seqtrack_all-replay_example :
    seqtrack_all ((7, 100) ∷ (3, 5) ∷ (7, 100) ∷ (7, 101) ∷ []) initial
    ≡ some 100 ∷ some 5 ∷ none ∷ some 101 ∷ []
unfolding replay
seqtrack_all-replay_example =
    seqtrack_all-replay ((7, 100) ∷ (3, 5) ∷ (7, 100) ∷ (7, 101) ∷ []) (omega arith)
