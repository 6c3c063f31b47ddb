-- ===== src/Shipper/Daemon/Requeue.antt =====
-- What becomes of an archive that fails, in the loop of main() of
-- src/slony_logshipper/slony_logshipper.c.
use slony1_engine.Base.{
  ℕ, ◌<◌, ◌≡◌, refl, ap, ap₂, sym, ◌∙◌, subst, Bool, true, false, not, ◌||◌, ◌&&◌, Option, none,
  some, List, [], ◌∷◌, if◌then◌else◌, length, arith,
}
use slony1_engine.Base.Bytes.{bytes}
use slony1_engine.Base.Strings.{is_before, is_before_total}
use slony1_engine.Query.{◌>>=◌}
use slony1_engine.Shipper.{
  Shipper, Finish, finished, destroy, ipc_finish, ipc_send_path, without_first,
}
use slony1_engine.Shipper.Sorted.{IsSorted, placed}
use slony1_engine.Shipper.Queue.{IsGood, Yields, Yields-bind, with_path, with_path-IsGood}
use slony1_engine.Shipper.Receiving.{without_first-IsGood}
use slony1_engine.Shipper.Archives.Wanted.{ipc_send_path-placed}
use slony1_engine.Shipper.Statements.{Session, process_exec_sql, process_end_transaction}
use slony1_engine.Shipper.Statements.Transactions.{process_end_transaction_flag}
use slony1_engine.Shipper.Daemon.{
  Configuration, System, Daemon, process_archive, after_rollback, reinserted, archive_failed,
  is_dangling, stop_everything, next_archive,
}
use slony1_engine.Shipper.Daemon.Attempt.{IsSame, IsKept, KeepsConnection, process_archive-IsKept}
use slony1_engine.Shipper.Returns.{Yields-cases}

-- The first path of a sorted list goes back to its place.
placed-first : (p : List ℕ) (q : List (List ℕ)) → IsSorted (p ∷ q) → placed p q ≡ p ∷ q
unfolding placed
placed-first p [] h = refl
placed-first p (x ∷ xs) h =
    elim (is_before p x)
        as (λ b. is_before p x ≡ b → (if b then p ∷ x ∷ xs else x ∷ placed p xs) ≡ p ∷ x ∷ xs) [
          | true ↦ λ e. refl
          | false ↦ λ e.
              let same : p ≡ x = is_before_total p x e h.0.0 in
              ap (λ l. x ∷ l) (placed-first p xs (h.0.1, h.1.1))
              ∙ ap₂ (λ y z. y ∷ z ∷ xs) (sym same) same
        ]
      refl

IsSame-IsGood : (s t : Shipper) → IsGood s → IsSame s t → IsGood t
IsSame-IsGood s t h e = record {
  sorted = subst IsSorted (sym e.0) h.sorted;
  tail_last = e.1 ∙ h.tail_last ∙ ap (λ q. length q) (sym e.0);
}

Yields-both :
    {A B : Type 0} (P : A → Type 0) (Q : A → B → Type 0) (m : Option A) (f : A → Option B)
    → Yields P m
    → ((a : A) → P a → Yields (Q a) (f a))
    → Yields (λ a. Yields (Q a) (m >>= f)) m
Yields-both P Q none f h k = h
Yields-both P Q (some a) f h k = k a h

module _ (c : Configuration) (k : System) (path : List ℕ) where
  -- Behind a failure: the path is first again, and no transaction is left.
  abbrev pub IsRequeued : List (List ℕ) → Bool × Daemon → Type 0
  IsRequeued q r =
      (r.0 ≡ true)
      × IsGood r.1.shipper
      × (r.1.shipper.archive_queue ≡ q)
      × (r.1.session.process_in_transaction ≡ false)
      × ((not r.1.session.has_dbconn || k.connection_ok) ≡ true
          → r.1.shipper.wait_for_resume ≡ true)

  reinserted-IsRequeued :
      (q : List (List ℕ)) (d : Daemon) (session : Session) (s : Shipper)
      → IsGood s
      → s.archive_queue ≡ q
      → session.process_in_transaction ≡ false
      → IsRequeued q (reinserted k session d (true, s))
  reinserted-IsRequeued q d session s h e f =
      elim (not session.has_dbconn || k.connection_ok)
        as (λ b. IsRequeuedAt b (record d {
          session = session;
          shipper = if b then record s { wait_for_resume = true } else s;
        })) [
          | true ↦ (refl, record { sorted = h.sorted; tail_last = h.tail_last }, e, f, λ x. refl)
          | false ↦ (refl, h, e, f, λ x. cc)
        ]
    where
      IsRequeuedAt : Bool → Daemon → Type 0
      IsRequeuedAt b d =
          (true ≡ true)
          × IsGood d.shipper
          × (d.shipper.archive_queue ≡ q)
          × (d.session.process_in_transaction ≡ false)
          × (b ≡ true → d.shipper.wait_for_resume ≡ true)

  -- Behind a failure with -w: the daemon ends, no transaction is left, the connection is closed and the
  -- message queue and the semaphores are gone, unless the system refuses to remove them.
  abbrev pub IsStopped : Bool × Daemon → Type 0
  IsStopped r =
      (r.0 ≡ false)
      × (r.1.session.process_in_transaction ≡ false)
      × (r.1.session.dbconn_freed ≡ r.1.session.has_dbconn)
      × ((r.1.shipper.msg_exists && k.finishing.msgctl_removes) ≡ false)
      × ((r.1.shipper.sem_exists && k.finishing.semctl_removes) ≡ false)

  abbrev pub IsFailed : List (List ℕ) → Bool → Bool × Daemon → Type 0
  IsFailed q true r = IsStopped r
  IsFailed q false r = IsRequeued (path ∷ q) r

  -- What is gone behind ipc_finish(true).
  removed :
      (s : Shipper)
      → s.ipc_creator ≡ true
      → Yields
          (λ f.
            ((f.1.msg_exists && k.finishing.msgctl_removes) ≡ false)
            × ((f.1.sem_exists && k.finishing.semctl_removes) ≡ false))
          (ipc_finish true k.finishing s)
  unfolding ipc_finish
  removed s h =
      let P : Finish × Shipper → Type 0 = λ f.
        ((f.1.msg_exists && k.finishing.msgctl_removes) ≡ false)
        × ((f.1.sem_exists && k.finishing.semctl_removes) ≡ false) in
      Yields-cases P (not s.ipc_creator) (some (finished, s)) (some (destroy k.finishing s))
        (λ e. absurd (ground (arith, e, h))) (λ e. ground arith)

  stop_everything-IsStopped :
      (session : Session) (d : Daemon)
      → d.shipper.ipc_creator ≡ true
      → session.process_in_transaction ≡ false
      → session.dbconn_freed ≡ false
      → Yields IsStopped (stop_everything k session d)
  stop_everything-IsStopped session d h e f =
      Yields-cases IsStopped (is_dangling session) none
        (ipc_finish true k.finishing d.shipper >>= λ r. some (
          false,
          record d {
            session = record session { dbconn_freed = session.has_dbconn; ipc_finished = true };
            shipper = r.1;
          },
        ))
        (λ x. absurd (ground (arith, x, f)))
        (λ x.
          Yields-bind
            (λ r.
              ((r.1.msg_exists && k.finishing.msgctl_removes) ≡ false)
              × ((r.1.sem_exists && k.finishing.semctl_removes) ≡ false))
            IsStopped (ipc_finish true k.finishing d.shipper)
            (λ r. some (
              false,
              record d {
                session = record session { dbconn_freed = session.has_dbconn; ipc_finished = true };
                shipper = r.1;
              },
            ))
            (removed d.shipper h) (λ r y. (refl, e, refl, y.0, y.1)))

  requeue-IsRequeued :
      (q : List (List ℕ)) (d : Daemon) (session : Session)
      → IsSorted (path ∷ q)
      → IsGood d.shipper
      → d.shipper.archive_queue ≡ q
      → d.shipper.ipc_creator ≡ true
      → length path < c.msgmax
      → session.process_in_transaction ≡ false
      → session.dbconn_freed ≡ false
      → Yields (IsRequeued (path ∷ q)) (
          ipc_send_path c.msgmax k.sends path d.shipper >>= λ r.
          if r.0 && is_dangling session then none else some (reinserted k session d r))
  requeue-IsRequeued q d session sorted good e creator l flag free =
      let s = with_path path d.shipper in
      let P = IsRequeued (path ∷ q) in
      let queue : s.archive_queue ≡ path ∷ q = ap (placed path) e ∙ placed-first path q sorted in
      let goal = λ (o : Option (Bool × Shipper)).
        Yields P (
          o >>= λ r.
          if r.0 && is_dangling session then none else some (reinserted k session d r)) in
      subst goal (sym (ipc_send_path-placed c.msgmax k.sends path d.shipper good creator l)) (
        Yields-cases P (is_dangling session) none (some (reinserted k session d (true, s)))
          (λ x. absurd (ground (arith, x, free)))
          (λ x.
            reinserted-IsRequeued (path ∷ q) d session s (with_path-IsGood path d.shipper good)
              queue flag))

  rollback-keeps :
      (t : Session) → t.dbconn_freed ≡ false → (after_rollback k t).dbconn_freed ≡ false
  unfolding process_end_transaction process_exec_sql
  rollback-keeps t h = ground (arith, h)

  archive_failed-IsFailed :
      (q : List (List ℕ)) (d : Daemon)
      → IsSorted (path ∷ q)
      → IsGood d.shipper
      → d.shipper.archive_queue ≡ q
      → d.shipper.ipc_creator ≡ true
      → length path < c.msgmax
      → d.session.dbconn_freed ≡ false
      → (nowait : Bool) → c.opt_nowait ≡ nowait
      → Yields (IsFailed q nowait) (archive_failed c k path d)
  unfolding archive_failed
  archive_failed-IsFailed q d sorted good e creator l free nowait now =
      let session = after_rollback k d.session in
      let flag = process_end_transaction_flag k.answers (bytes "rollback;") d.session in
      let requeue = ipc_send_path c.msgmax k.sends path d.shipper >>= λ r.
      if r.0 && is_dangling session then none else some (reinserted k session d r) in
      let P = IsFailed q nowait in
      Yields-cases P (d.session.process_in_transaction && is_dangling d.session) none
        (if c.opt_nowait then stop_everything k session d else requeue)
        (λ x. absurd (ground (arith, x, free)))
        (λ x.
          subst
            (λ b.
              Yields (IsFailed q b) (if c.opt_nowait then stop_everything k session d else requeue))
            now
            (by_option c.opt_nowait (stop_everything k session d) requeue
              (stop_everything-IsStopped session d creator flag (rollback-keeps d.session free))
              (requeue-IsRequeued q d session sorted good e creator l flag
                (rollback-keeps d.session free))))
    where
      by_option :
          (b : Bool) (m n : Option (Bool × Daemon))
          → Yields IsStopped m
          → Yields (IsRequeued (path ∷ q)) n
          → Yields (IsFailed q b) (if b then m else n)
      by_option true m n h k = h
      by_option false m n h k = k

  -- What a turn leaves of the queue `path ∷ q`, with or without -w, where the archive is applied or not.
  abbrev pub IsNext : List (List ℕ) → Bool → Bool → Bool × Daemon → Type 0
  IsNext q nowait true r = (r.0 ≡ true) × IsGood r.1.shipper × (r.1.shipper.archive_queue ≡ q)
  IsNext q nowait false r = IsFailed q nowait r

  applied_or_failed :
      (q : List (List ℕ)) (u : Shipper) (ok : Bool) (d : Daemon)
      → IsSorted (path ∷ q)
      → IsGood u
      → u.archive_queue ≡ q
      → u.ipc_creator ≡ true
      → length path < c.msgmax
      → IsKept u (ok, d)
      → Yields (IsNext q c.opt_nowait ok) (if ok then some (true, d) else archive_failed c k path d)
  applied_or_failed q u true d sorted h e creator l (same, free) =
      (refl, IsSame-IsGood u d.shipper h same, same.0 ∙ e)
  applied_or_failed q u false d sorted h e creator l (same, free) =
      archive_failed-IsFailed q d sorted (IsSame-IsGood u d.shipper h same) (same.0 ∙ e)
        (same.2 ∙ creator) l free c.opt_nowait refl

  -- A turn of the daemon with the first path of the queue, shorter than MSGMAX, always has a result,
  -- where the connection is not freed and the parser does not free it without setting it to NULL. Where
  -- the archive is applied the queue goes on behind it. Where it fails, no transaction is left; without
  -- -w the queue is as before the turn, with the path first, and the daemon waits for a resume command
  -- if it has no connection or a good one; with -w it ends, with the connection closed and the message
  -- queue and the semaphores removed, as far as the system removes them.
  pub next_archive_lem :
      KeepsConnection k
      → (q : List (List ℕ)) (s : Shipper) (session : Session) (count : ℕ) → IsGood s
      → s.archive_queue ≡ path ∷ q
      → s.ipc_creator ≡ true
      → length path < c.msgmax
      → session.dbconn_freed ≡ false
      → let d : Daemon = record {
        shipper = without_first q s;
        session = session;
        archive_count = count;
      } in
        Yields
          (λ a. Yields (IsNext q c.opt_nowait (a.0)) (next_archive c k path d))
          (process_archive c k path d)
  unfolding next_archive
  next_archive_lem keeps q s session count h e creator l free =
      let u = without_first q s in
      let d : Daemon = record { shipper = u; session = session; archive_count = count } in
      let sorted : IsSorted (path ∷ q) = subst IsSorted e h.sorted in
      let good = without_first-IsGood s path q sorted (h.tail_last ∙ ap (λ x. length x) e) in
      Yields-both (IsKept u) (λ a r. IsNext q c.opt_nowait (a.0) r) (process_archive c k path d)
        (λ r. if r.0 then some (true, r.1) else archive_failed c k path r.1)
        (process_archive-IsKept c k path keeps d free)
        (λ a kept. applied_or_failed q u (a.0) a.1 sorted good refl creator l kept)
