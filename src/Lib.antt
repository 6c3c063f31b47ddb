-- ===== src/Lib.antt =====
-- The slon daemon of Slony-I, asynchronous replication for PostgreSQL, and the memory of sequence
-- values in its backend library.
--
-- A slon daemon runs a local set of threads and, for every remote node, a listener and a worker. The
-- threads share an in-memory configuration under one lock; a change of it starts and stops threads
-- and wakes up the ones that wait. Listeners put the events and confirmations of remote nodes into
-- the queue of a worker. A worker that copies data skips the log actions that a SYNC lists, by a
-- filter of ranges; it keeps a list of the nodes that it gets data from, and remembers which
-- confirmations it has passed on. A local thread makes the SYNC events of its own node. Queries are
-- built in growing buffers, options are read from a file and checked against their bounds. The tool
-- slonik puts names into SQL scripts and cuts them into statements. The backend keeps the last value
-- of each sequence in an AVL tree. All threads of slon wait in one queue of a scheduler thread. The log
-- shipper is a daemon of its own, which applies archive files of log data in their order.
--
-- Files, and the code they are about:
--   Base, Base/Tests, Base/Lists, Base/Int, Base/Decimal, Base/Bytes, Base/Strings   names, tests, lists,
--                     integers and their decimal text, and C strings, that the others share.
--   Avl               src/misc/avl_tree.c and avl_tree.h: insertinto is avl_insertinto(), insert
--                     avl_insert(), and so on. Avl/Shape and Avl/Height are about balance, Avl/Order
--                     about search, Avl/Deletion about avl_delete(), Avl/Callbacks about the comparison,
--                     Avl/Sorted and Avl/Upsert about the tree as a map.
--   SeqTrack          seqtrack() of src/backend/slony1_funcs.c, a client of Avl; SeqTrack/Laws.
--   Slon              the shared state: src/slon/slon.h, the lists of src/slon/runtime_config.c, the
--                     wait queue of src/slon/scheduler.c, the queues of src/slon/remote_worker.c. A
--                     function on it is a state monad whose outcome is to return, to give up by
--                     slon_retry(), or to block on a lock that it holds.
--   Slon/Wakeup       sched_wakeup_node(), sched_get_status(), remoteWorker_wakeup().
--   Slon/Threads      rtcfg_startStopNodeThread(); Threads/Listener.
--   Slon/Nodes        rtcfg_storeNode(), rtcfg_enableNode(), rtcfg_doActivate(),
--                     rtcfg_joinAllRemoteThreads() and the other functions on nodes.
--   Slon/Paths        rtcfg_storePath(), rtcfg_storeListen(), rtcfg_reloadListen() and their like.
--   Slon/Sets         rtcfg_storeSet() to rtcfg_unsubscribeSet().
--   Slon/Config       the abstract configuration and what each call means for it; Config/Quiet,
--                     Config/Refinement and Config/Loops relate the functions to it,
--                     Config/Invariants, Config/Edits and Config/Validity say what stays true of
--                     it.
--   Slon/Queue        remoteWorker_event(), remoteWorker_confirm() and the take of
--                     remoteWorkerThread_main(); Queue/Rising, Queue/Changes, Queue/Order and
--                     Queue/Confirms.
--   Slon/Providers    adjust_provider_info() of src/slon/remote_worker.c: the data providers of a
--                     worker; Providers/Distinct, Providers/Subscriptions and Providers/Connections.
--   Slon/Forward      store_confirm_forward() and get_last_forwarded_confirm(); Forward/Records.
--   Slon/Listat       remoteListen_adjust_listat() of src/slon/remote_listen.c.
--   Compress          compress_actionseq() of src/slon/remote_worker.c; Compress/Folding,
--                     Compress/Text and Compress/Query.
--   Scanner           scan_for_statements() of src/parsestatements/scanner.c: read_char is one turn of
--                     its switch, scan_from its loop. Scanner/Split is the cutting of a script in
--                     src/slonik/slonik.c. Scanner/Lexemes is a grammar of SQL texts with quotes,
--                     comments and brackets, of which Scanner/Steps, Scanner/RoundTrip and
--                     Scanner/Statements are; Scanner/Boundaries and Scanner/Whole are of any text,
--                     and Scanner/Stuck of a slash that begins no comment.
--   Query             the SlonDString of src/slon/slon.h, slon_mkquery() and slon_appendquery() of
--                     src/slon/dbutils.c; Query/Buffers and Query/Quoting.
--   Misc              slon_scanint64() and write_syslog() of src/slon/misc.c; Misc/Integers,
--                     Misc/Printing and Misc/Chunks.
--   Options           src/slon/confoptions.c; Options/Tables are its tables, Options/Names is its
--                     comparison of names, Options/Settings and Options/Ranges are about
--                     set_config_option().
--   Tokens            replace_tokens() of src/slonik/slonik.c; Tokens/Rewriting.
--   Sync              the loop of syncThread_main() in src/slon/sync_thread.c; Sync/Liveness.
--   Monitor           the state stack of src/slon/monitor_thread.c; Monitor/Stack.
--   Scheduler         the scheduler thread of src/slon/scheduler.c: sched_wait_conn(), sched_wait_time()
--                     and sched_mainloop(), cut at its select(). Scheduler/Descriptors,
--                     Scheduler/Selection, Scheduler/Soundness and Scheduler/Reachable are about the
--                     descriptor sets, Scheduler/Timeouts and Scheduler/Wakeups about the threads that are
--                     signalled, Scheduler/Timers about the times.
--   Shipper           the queue of src/slony_logshipper/ipcutil.c: ipc_add_path(), ipc_recv_path() and
--                     their like; Shipper/Sorted, Shipper/Queue, Shipper/Returns and
--                     Shipper/Receiving.
--   Shipper/Renames   config_add_rename() and lookup_rename() of src/slony_logshipper/slony_logshipper.c,
--                     as the following are; Renames/Rules.
--   Shipper/Counters  process_check_at_counter().
--   Shipper/Archives  archscan(); Archives/Trees, Archives/Wanted and Archives/Applied.
--   Shipper/Statements   process_insert() to process_copyend(); Statements/Texts, Statements/Queries and
--                     Statements/Transactions.
--   Shipper/Daemon    process_archive() and the loop of main(); Daemon/Attempt and
--                     Daemon/Requeue.
-- The files named Examples hold runs at concrete inputs.
--
-- Lists that the code links both ways are lists; nodes are named by their ids, tree nodes by their
-- addresses. Loops over lists are structural recursion. Four loops run on fuel: the doubling of a
-- buffer, for which the number of bytes that are needed is enough, as each round adds one at least,
-- two that each take one character at least in a round, the chunks of a line and the rewriting of a
-- script, and the borrowing of seconds for a negative number of microseconds, which is one round where
-- the times are normal and never more than that number. Node ids and event numbers are not bounded,
-- since they are only compared, nor are the depths of a tree; the int64 numbers of slon_scanint64() and
-- of compress_actionseq() and the difference of sequence ids wrap. The lengths of texts and buffers
-- stay within their C types.
-- malloc() and write() to the scheduler pipe succeed, and what the threads library is asked to do is
-- recorded. What a query returns is an argument: its rows, or `none` when it failed. A function that
-- holds a node's message lock over its use of the queue is one step of an interleaving.
--
-- Not modelled: SQL and connections (the rest of src/slon/dbutils.c, the event switch of
-- remoteWorkerThread_main()), the loops of the listener, cleanup and monitor threads, the processes
-- of src/slon/slon.c, the triggers of the backend, which stand on the server's interface, the
-- commands of slonik, and of the log shipper its options, its generated parser and the semaphores
-- of the kernel. Of the options the one of type real, a placeholder, is left out. Dollar quotes are
-- modelled and not part of the printed scripts.
pub mod Base
pub mod Avl
pub mod SeqTrack
pub mod Slon
pub mod Compress
pub mod Scanner
pub mod Query
pub mod Misc
pub mod Options
pub mod Monitor
pub mod Tokens
pub mod Sync
pub mod Scheduler
pub mod Shipper
