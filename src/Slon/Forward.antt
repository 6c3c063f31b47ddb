-- ===== src/Slon/Forward.antt =====
-- store_confirm_forward() and get_last_forwarded_confirm() of src/slon/remote_worker.c: the numbers
-- that the workers of a daemon have passed on to its database, one for each origin and receiver.
pub mod Records
mod Examples
use slony1_engine.Base.{
  ◌≡◌, refl, ap, Bool, true, false, ◌&&◌, Option, none, some, List, [], ◌∷◌, ◌++◌, if◌then◌else◌,
  arith, All, Bool-cases, inl, inr,
}
use slony1_engine.Base.Int.{ℤ, negsuc, ◌==ℤ◌, ==ℤ_iff, ltb_ℤ}
use slony1_engine.Slon.{ConfirmMsg}
use slony1_engine.Slon.Queue.Rising.{◌<ℤ◌}

-- node_confirm_status
pub record ConfirmStatus : Type 0 where
  pub con_origin : ℤ
  pub con_received : ℤ
  pub con_seqno : ℤ

unfoldable pub is_pair : ℤ → ℤ → ConfirmStatus → Bool
is_pair origin receiver c = c.con_origin ==ℤ origin && c.con_received ==ℤ receiver

-- The search of the list, `node_confirm_head` to `node_confirm_tail`.
unfoldable pub find_status : ℤ → ℤ → List ConfirmStatus → Option ℤ
unfolding is_pair
find_status origin receiver [] = none
find_status origin receiver (c ∷ cs) =
    if is_pair origin receiver c then some c.con_seqno else find_status origin receiver cs

-- "Set the confirm status to the new seqno".
unfoldable pub raise_status : ConfirmMsg → List ConfirmStatus → List ConfirmStatus
unfolding is_pair
raise_status m [] = []
raise_status m (c ∷ cs) =
    if is_pair m.con_origin m.con_received c
    then record c { con_seqno = m.con_seqno } ∷ cs
    else c ∷ raise_status m cs

-- The global list, and the calls of forwardConfirm() that were sent to the database. What the
-- database answers is only logged.
pub record Forwarding : Type 0 where
  pub statuses : List ConfirmStatus
  pub calls : List ConfirmMsg

abbrev pub new_status : ConfirmMsg → ConfirmStatus
new_status m = record {
  con_origin = m.con_origin;
  con_received = m.con_received;
  con_seqno = m.con_seqno;
}

unfoldable pub store_confirm_forward : ConfirmMsg → Forwarding → Forwarding
unfolding find_status raise_status
store_confirm_forward m f = elim (find_status m.con_origin m.con_received f.statuses) [
  | none ↦ record { statuses = f.statuses ++ new_status m ∷ []; calls = f.calls ++ m ∷ [] }
  | some n ↦
      if ltb_ℤ n m.con_seqno
      then record { statuses = raise_status m f.statuses; calls = f.calls ++ m ∷ [] }
      else f
]

-- The confirmations that reach store_confirm_forward(), in the order of the lock.
unfoldable pub forward_all : List ConfirmMsg → Forwarding → Forwarding
unfolding store_confirm_forward
forward_all [] f = f
forward_all (m ∷ ms) f = forward_all ms (store_confirm_forward m f)

unfoldable pub get_last_forwarded_confirm : ℤ → ℤ → List ConfirmStatus → ℤ
unfolding find_status
get_last_forwarded_confirm origin receiver cs = elim (find_status origin receiver cs) [
  | none ↦ negsuc 0
  | some n ↦ n
]
