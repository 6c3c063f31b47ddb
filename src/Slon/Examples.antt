-- ===== src/Slon/Examples.antt =====
-- Runs of a slon daemon, src/slon, with one remote node and one set.
use slony1_engine.Base.{ℕ, ◌≡◌, refl, true, false, none, some, List, [], ◌∷◌, All, if◌then◌else◌}
use slony1_engine.Base.Int.{pos, negsuc}
use slony1_engine.Slon.{
  tstat_none, running, done, SchedStatus, EventMsg, ConfirmMsg, WorkMsg, confirm, event, SlonNode,
  SlonSet, SlonState, returned, find_node,
}
use slony1_engine.Slon.Threads.{need_listen, start_stop}
use slony1_engine.Slon.Threads.Listener.{is_settled, is_settled-start_stop}
use slony1_engine.Slon.Queue.{remote_worker_event, queue_confirm, same_pair}
use slony1_engine.Slon.Queue.Order.{Run, arrives, here, next, IsOrdered, Reach-IsOrdered}
use slony1_engine.Slon.Queue.Confirms.{waiting, higher, waiting-queue_confirm}
use slony1_engine.Slon.Config.{
  Call, config, stores_node, enables_node, stores_path, stores_listen, stores_subscribe,
  unsubscribes_set,
}
use slony1_engine.Slon.Config.Refinement.{Meets}
use slony1_engine.Slon.Config.Loops.{perform_all, apply_all, perform_all-Meets}
use slony1_engine.Slon.Config.Invariants.{IsValid}
use slony1_engine.Slon.Config.Validity.{IsProper, EndsValid, perform_all-EndsValid}

-- Node 1, active, whose worker runs and has seen event 5.
abbrev remote_node : SlonNode
remote_node = record {
  no_id = pos 1;
  no_active = true;
  no_comment = "remote";
  pa_conninfo = none;
  pa_connretry = pos 0;
  last_event = pos 5;
  last_snapshot = "1:1:";
  listen_status = tstat_none;
  listen = [];
  worker_status = running;
  messages = [];
}

abbrev replica : SlonSet
replica = record {
  set_id = pos 1;
  set_origin = pos 1;
  set_comment = "replica";
  sub_provider = negsuc 0;
  sub_forward = false;
  sub_active = false;
}

-- The daemon of node 2.
abbrev daemon : SlonState
daemon = record {
  nodeid = pos 2;
  cfgseq = 0;
  node_list = remote_node ∷ [];
  set_list = replica ∷ [];
  to_activate = [];
  config_lock = false;
  sched_status = SchedStatus.ok;
  waitqueue = [];
  actions = [];
}

daemon-IsValid : IsValid (config daemon)
daemon-IsValid = record {
  nodes_nodup = (tt, tt);
  listens_nodup = (tt, tt);
  sets_nodup = (tt, tt);
  subscribed = (refl, tt);
}

abbrev calls : List Call
calls =
    stores_node (pos 3) "new"
    ∷ stores_path (pos 3) "host=three" (pos 10)
    ∷ stores_listen (pos 1) (pos 3)
    ∷ stores_subscribe (pos 1) (pos 1) "t"
    ∷ unsubscribes_set (pos 1)
    ∷ enables_node (pos 9)
    ∷ []

perform_all-Meets_example : Meets (apply_all calls (config daemon)) (perform_all calls daemon)
perform_all-Meets_example = perform_all-Meets calls daemon refl

calls-IsProper : All IsProper calls
calls-IsProper = (tt, (tt, (tt, (refl, (tt, (tt, tt))))))

perform_all-EndsValid_example : EndsValid (perform_all calls daemon)
perform_all-EndsValid_example =
    perform_all-EndsValid calls daemon calls-IsProper refl daemon-IsValid

-- A SYNC of node 1.
abbrev sync : EventMsg
sync = record {
  event_provider = pos 1;
  ev_origin = pos 1;
  ev_seqno = pos 6;
  ev_timestamp = "";
  ev_snapshot = "1:1:";
  ev_mintxid = "1";
  ev_maxtxid = "1";
  ev_type = "SYNC";
  ev_data = [];
}

abbrev start : Run
start = record { slon = daemon; taken = [] }

abbrev delivered : SlonState
delivered = elim (remote_worker_event sync daemon) [ returned _ t ↦ t | _ ↦ daemon ]

delivery : remote_worker_event sync daemon ≡ returned tt delivered
unfolding remote_worker_event find_node
delivery = refl

Reach-IsOrdered_example : IsOrdered (pos 1) (record start { slon = delivered })
unfolding find_node
Reach-IsOrdered_example =
    Reach-IsOrdered {i = pos 1} {s = daemon} (pos 5) refl
      (next here (arrives sync start delivered delivery))

abbrev report : ℕ → ConfirmMsg
report n = record {
  con_origin = pos 1;
  con_received = pos 2;
  con_seqno = pos n;
  con_timestamp = "";
}

abbrev reports : List WorkMsg
reports = event sync ∷ confirm (report 4) ∷ []

-- A later confirmation takes the place of the one that waits.
waiting-queue_confirm_example : waiting (report 0) (queue_confirm (report 9) reports) ≡ (
    if same_pair (report 9) (report 0)
    then some (higher (waiting (report 0) reports) (pos 9))
    else waiting (report 0) reports)
waiting-queue_confirm_example = waiting-queue_confirm (report 9) (report 0) reports

-- A listener that has ended is started by the second call.
abbrev ended : SlonNode
ended = record remote_node { listen = pos 1 ∷ []; listen_status = done }

is_settled-start_stop_example :
    is_settled (need_listen ended) (start_stop true (start_stop true ended).node).node.listen_status
    ≡ true
is_settled-start_stop_example = is_settled-start_stop true ended

abbrev unstarted : SlonNode
unstarted = record remote_node { worker_status = tstat_none }
