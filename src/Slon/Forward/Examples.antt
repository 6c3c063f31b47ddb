-- ===== src/Slon/Forward/Examples.antt =====
-- Confirmations of two pairs, mixed and out of order, src/slon/remote_worker.c.
use slony1_engine.Base.{ℕ, ◌≡◌, List, [], ◌∷◌, ◌++◌}
use slony1_engine.Base.Int.{pos}
use slony1_engine.Slon.{ConfirmMsg}
use slony1_engine.Slon.Forward.{Forwarding, forward_all, find_status}
use slony1_engine.Slon.Forward.Records.{reported, records, reported-forward_all}

abbrev report : ℕ → ℕ → ConfirmMsg
report received n = record {
  con_origin = pos 1;
  con_received = pos received;
  con_seqno = pos n;
  con_timestamp = "";
}

abbrev messages : List ConfirmMsg
messages = report 2 5 ∷ report 3 4 ∷ report 2 4 ∷ report 2 7 ∷ report 3 4 ∷ []

abbrev start : Forwarding
start = record { statuses = []; calls = [] }

reported-forward_all_example :
    reported (pos 1) (pos 2) (forward_all messages start).calls
    ≡ reported (pos 1) (pos 2) start.calls
      ++ records (find_status (pos 1) (pos 2) start.statuses) (reported (pos 1) (pos 2) messages)
reported-forward_all_example = reported-forward_all (pos 1) (pos 2) messages start
