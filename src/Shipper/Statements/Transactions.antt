-- ===== src/Shipper/Statements/Transactions.antt =====
-- The transactions of an archive, src/slony_logshipper/slony_logshipper.c.
use slony1_engine.Base.{ℕ, ◌≡◌, Bool, false, List, if◌then◌else◌, arith}
use slony1_engine.Shipper.Statements.{
  Outcomes, Session, put_text, put_line, execute, process_exec_sql, process_end_transaction,
}

-- What the flags of a session are after a call, whatever the database and the file answer.
module _ (k : Outcomes) where
  put_text_flag :
      (text : List ℕ) (t : Session)
      → (put_text k text t).1.process_in_transaction ≡ t.process_in_transaction
  put_text_flag text t = ground arith

  execute_flag :
      (accepts : List ℕ → Bool) (text : List ℕ) (t : Session)
      → (execute accepts text t).1.process_in_transaction ≡ t.process_in_transaction
  execute_flag accepts text t = ground arith

  put_line_flag :
      (text : List ℕ) (t : Session)
      → (put_line k text t).1.process_in_transaction ≡ t.process_in_transaction
  put_line_flag text t = ground arith

  pub process_exec_sql_flag :
      (sql : List ℕ) (t : Session)
      → (process_exec_sql k sql t).1.process_in_transaction ≡ t.process_in_transaction
  unfolding process_exec_sql
  process_exec_sql_flag sql t = ground arith

  abbrev flagged : Bool → Session → Session → Session
  flagged b t u = if b then t else u

  -- A rollback leaves no transaction.
  pub process_end_transaction_flag :
      (sql : List ℕ) (t : Session)
      → (flagged t.process_in_transaction
          (process_end_transaction k sql t).1
          t).process_in_transaction
        ≡ false
  unfolding process_end_transaction
  process_end_transaction_flag sql t =
      ground (arith, process_exec_sql_flag sql (record t { process_in_transaction = false }))
