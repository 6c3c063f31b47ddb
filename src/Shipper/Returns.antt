-- ===== src/Shipper/Returns.antt =====
-- Why ipc_recv_path() of src/slony_logshipper/ipcutil.c returns what it returns.
use slony1_engine.Base.{
  ◌≡◌, refl, sym, ap, ◌∙◌, subst, Bool, true, false, not, ◌&&◌, ◌||◌, Option, none, some, List, [],
  ◌∷◌, if◌then◌else◌, ℕ, arith, All, Bool-cases, inl, inr,
}
use slony1_engine.Query.{◌>>=◌}
use slony1_engine.Shipper.{
  Shipper, Message, terminate_smart, terminate_immed, resume, logswitch, archive, receive,
  receive_all, Batch, ipc_add_path, ipc_poll, Finishing, Finish, finished, busy, destroy,
  finish_drained, ipc_finish, Single, one, no_message, interrupted, Turn, Received, next_path,
  stopped, rescan, unusable, running, forced, take_path, recv_single, recv_next, recv_polled,
  ipc_recv_path,
}
use slony1_engine.Shipper.Queue.{
  IsGood, Gains, Adds, Adds-Gains, receive_all-Adds, path_of, Yields, Yields-bind, Yields-map,
  with_path, ipc_add_path-placed, paths_of, receive-Adds, ipc_poll-Gains, ipc_finish-Gains,
}

-- Some call of ipc_finish() fails.
abbrev pub fails : Finishing → Bool
fails k =
    not k.locks
    || not k.drained.ends
    || not k.unlocks
    || not k.msgctl_removes
    || not k.semctl_removes

abbrev is_broken : Single → Bool
is_broken Single.broken = true
is_broken o = false

abbrev pub is_failing : Turn → Bool
is_failing t = not t.polled.ends || fails t.finishing || is_broken t.single

abbrev pub any_failing : List Turn → Bool
any_failing [] = false
any_failing (t ∷ ts) = is_failing t || any_failing ts

-- The loop goes on behind such a turn.
abbrev pub goes_on : Single → Bool
goes_on (one m) = true
goes_on interrupted = true
goes_on o = false

-- A rescan is asked for only with an empty queue, a stop only where it was requested, an error only
-- where a call has failed, and the loop goes on only behind a message or an interrupt.
abbrev pub Justified : List Turn → Received × Shipper → Type 0
Justified ts (next_path p, t) = Unit
Justified ts (rescan, t) = t.archive_queue ≡ []
Justified ts (stopped, t) = (t.shutdown_smart_requested || t.shutdown_immed_requested) ≡ true
Justified ts (unusable, t) = any_failing ts ≡ true
Justified ts (running, t) = All (λ u. goes_on u.single ≡ true) ts

Justified-later :
    (t : Turn) (ts : List Turn) (r : Received × Shipper)
    → goes_on t.single ≡ true
    → Justified ts r
    → Justified (t ∷ ts) r
Justified-later t ts (next_path p, u) h k = tt
Justified-later t ts (rescan, u) h k = k
Justified-later t ts (stopped, u) h k = k
Justified-later t ts (unusable, u) h k = ground (arith, k)
Justified-later t ts (running, u) h k = (h, k)

-- A request to stop stays.
receive-smart :
    (m : Message) (s : Shipper)
    → IsGood s
    → Yields
        (λ t. IsGood t × (s.shutdown_smart_requested ≡ true → t.shutdown_smart_requested ≡ true))
        (receive m s)
unfolding receive
receive-smart terminate_smart s h =
    (record { sorted = h.sorted; tail_last = h.tail_last }, λ e. refl)
receive-smart terminate_immed s h = (record { sorted = h.sorted; tail_last = h.tail_last }, λ e. e)
receive-smart resume s h = (record { sorted = h.sorted; tail_last = h.tail_last }, λ e. e)
receive-smart logswitch s h = (record { sorted = h.sorted; tail_last = h.tail_last }, λ e. e)
receive-smart (archive p) s h =
    let P : Shipper → Type 0 =
      λ t. IsGood t × (s.shutdown_smart_requested ≡ true → t.shutdown_smart_requested ≡ true) in
    Yields-map (λ t. IsGood t × (t ≡ with_path p s)) P (ipc_add_path p s)
      (λ t k. (k.0, λ e. ap (λ u. u.shutdown_smart_requested) k.1 ∙ e))
      (subst (Yields (λ t. IsGood t × (t ≡ with_path p s))) (sym (ipc_add_path-placed p s h))
        (good_with p s h, refl))
  where
    good_with : (p : List ℕ) (s : Shipper) → IsGood s → IsGood (with_path p s)
    good_with p s h =
        let x : Yields IsGood (receive (archive p) s) =
          Yields-map (Adds (p ∷ []) s) IsGood (receive (archive p) s) (λ t k. k.0)
            (receive-Adds (archive p) s h) in
        subst (Yields IsGood) (ipc_add_path-placed p s h) x

receive_all-smart :
    (ms : List Message) (s : Shipper)
    → IsGood s
    → s.shutdown_smart_requested ≡ true
    → Yields (λ t. t.shutdown_smart_requested ≡ true) (receive_all ms s)
unfolding receive_all
receive_all-smart [] s h e = e
receive_all-smart (m ∷ ms) s h e =
    Yields-bind
      (λ t. IsGood t × (s.shutdown_smart_requested ≡ true → t.shutdown_smart_requested ≡ true))
      (λ t. t.shutdown_smart_requested ≡ true) (receive m s) (λ t. receive_all ms t)
      (receive-smart m s h) (λ t k. receive_all-smart ms t k.0 (k.1 e))

ipc_poll-smart :
    (b : Batch) (s : Shipper)
    → IsGood s
    → s.shutdown_smart_requested ≡ true
    → Yields (λ r. (r.0 ≡ b.ends) × (r.1.shutdown_smart_requested ≡ true)) (ipc_poll b s)
unfolding ipc_poll
ipc_poll-smart b s h e =
    Yields-bind (λ t. t.shutdown_smart_requested ≡ true)
      (λ r. (r.0 ≡ b.ends) × (r.1.shutdown_smart_requested ≡ true)) (receive_all b.messages s)
      (λ t. some (b.ends, t)) (receive_all-smart b.messages s h e) (λ t k. (refl, k))

pub Yields-cases :
    {A : Type 0} (P : A → Type 0) (b : Bool) (m n : Option A)
    → (b ≡ true → Yields P m)
    → (b ≡ false → Yields P n)
    → Yields P (if b then m else n)
Yields-cases P true m n h k = h refl
Yields-cases P false m n h k = k refl

-- What ipc_finish() returns behind a request.
abbrev Why : Finishing → Finish × Shipper → Type 0
Why k (Finish.broken, t) = fails k ≡ true
Why k (finished, t) = t.shutdown_smart_requested ≡ true
Why k (busy, t) = Unit

destroy-Why :
    (k : Finishing) (s : Shipper) → s.shutdown_smart_requested ≡ true → Why k (destroy k s)
destroy-Why k s e = elim (Bool-cases (k.msgctl_removes && k.semctl_removes)) [
  | inl removed ↦ rw removed e
  | inr kept ↦ rw kept (ground arith)
]

drained-Why :
    (k : Finishing) (r : Bool × Shipper)
    → r.0 ≡ k.drained.ends
    → r.1.shutdown_smart_requested ≡ true
    → Yields (Why k) (finish_drained k r)
drained-Why k (true, t) e h =
    elim (t.archive_queue)
      as (λ q. Yields (Why k) (elim q [
        | [] ↦ some (destroy k t)
        | _ ∷ _ ↦ some (if k.unlocks then busy else Finish.broken, t)
      ])) [
        | [] ↦ destroy-Why k t h
        | _ ∷ _ ↦ elim (Bool-cases k.unlocks) [
          | inl ok ↦ rw ok tt
          | inr bad ↦ rw bad (ground arith)
        ]
      ]
drained-Why k (false, t) e h = ground (arith, e)

ipc_finish-Why :
    (k : Finishing) (s : Shipper)
    → IsGood s
    → s.shutdown_smart_requested ≡ true
    → Yields (Why k) (ipc_finish false k s)
unfolding ipc_finish
ipc_finish-Why k s g e =
    let drain = ipc_poll k.drained s >>= λ r. finish_drained k r in
    let locked : Option (Finish × Shipper) = if k.locks then drain else some (Finish.broken, s) in
    Yields-cases (Why k) (not s.ipc_creator) (some (finished, s)) locked (λ x. e)
      (λ x.
        Yields-cases (Why k) k.locks drain (some (Finish.broken, s))
          (λ y.
            Yields-bind (λ r. (r.0 ≡ k.drained.ends) × (r.1.shutdown_smart_requested ≡ true))
              (Why k) (ipc_poll k.drained s) (λ r. finish_drained k r)
              (ipc_poll-smart k.drained s g e) (λ r h. drained-Why k r h.0 h.1))
          (λ y. ground (arith, y)))

pub Yields-and {ℓ} :
    {A : Type ℓ} (P Q : A → Type 0) (m : Option A)
    → Yields P m
    → Yields Q m
    → Yields (λ a. P a × Q a) m
Yields-and P Q none h k = h
Yields-and P Q (some a) h k = (h, k)

forced_unusable-Justified :
    (ts : List Turn) (k : Finishing) (s : Shipper)
    → IsGood s
    → any_failing ts ≡ true
    → Yields (Justified ts) (forced unusable k s)
forced_unusable-Justified ts k s g h =
    Yields-bind (λ f. Gains (paths_of k.drained.messages) s f.1) (Justified ts)
      (ipc_finish true k s) (λ f. some (unusable, f.1)) (ipc_finish-Gains true k s g) (λ f x. h)

forced_stopped-Justified :
    (ts : List Turn) (k : Finishing) (s : Shipper)
    → (s.shutdown_smart_requested || s.shutdown_immed_requested) ≡ true
    → Yields (Justified ts) (forced stopped k s)
unfolding ipc_finish
forced_stopped-Justified ts k s h = elim (Bool-cases s.ipc_creator) [
  | inl creator ↦ rw (creator, ipc_finish) h
  | inr other ↦ rw (other, ipc_finish) h
]

module _ (again : Shipper → Option (Received × Shipper)) (t : Turn) (ts : List Turn)
    (good : (s : Shipper) → IsGood s → Yields (Justified ts) (again s)) where
  later : (s : Shipper) → IsGood s → goes_on t.single ≡ true → Yields (Justified (t ∷ ts)) (again s)
  later s g h =
      Yields-map (Justified ts) (Justified (t ∷ ts)) (again s) (λ r k. Justified-later t ts r h k)
        (good s g)

  recv_single-Justified :
      (single : Single) (s : Shipper)
      → t.single ≡ single
      → IsGood s
      → s.archive_queue ≡ []
      → Yields (Justified (t ∷ ts)) (recv_single again single t s)
  recv_single-Justified (one m) s e g q =
      Yields-bind (Adds (path_of m) s) (Justified (t ∷ ts)) (receive m s) (λ u. again u)
        (receive-Adds m s g) (λ u k. later u k.0 (ap goes_on e))
  recv_single-Justified no_message s e g q = q
  recv_single-Justified interrupted s e g q = later s g (ap goes_on e)
  recv_single-Justified Single.broken s e g q =
      let x : is_broken t.single ≡ true = ap is_broken e in
      forced_unusable-Justified (t ∷ ts) t.finishing s g (ground (arith, x))

  taken-Justified :
      (q : List (List ℕ)) (s : Shipper)
      → s.archive_queue ≡ q
      → IsGood s
      → Yields (Justified (t ∷ ts)) (elim (take_path q s) [
        | some r ↦ some (next_path r.0, r.1)
        | none ↦ recv_single again t.single t s
      ])
  taken-Justified [] s e g = recv_single-Justified t.single s refl g e
  taken-Justified (p ∷ ps) s e g = tt

  recv_next-Justified : (s : Shipper) → IsGood s → Yields (Justified (t ∷ ts)) (recv_next again t s)
  recv_next-Justified s g = taken-Justified s.archive_queue s refl g

  -- Behind ipc_finish(false).
  finish_result-Justified :
      (f : Finish × Shipper)
      → IsGood f.1
      → Why t.finishing f
      → Yields (Justified (t ∷ ts)) (elim (f.0) [
        | finished ↦ some (stopped, f.1)
        | Finish.broken ↦ forced unusable t.finishing f.1
        | busy ↦ recv_next again t f.1
      ])
  finish_result-Justified (finished, u) g w = ground (arith, w)
  finish_result-Justified (Finish.broken, u) g w =
      forced_unusable-Justified (t ∷ ts) t.finishing u g (ground (arith, w))
  finish_result-Justified (busy, u) g w = recv_next-Justified u g

  recv_polled-Justified :
      (b : Bool) (u : Shipper)
      → b ≡ t.polled.ends
      → IsGood u
      → Yields (Justified (t ∷ ts)) (recv_polled again t (b, u))
  recv_polled-Justified false u e g =
      forced_unusable-Justified (t ∷ ts) t.finishing u g (ground (arith, e))
  recv_polled-Justified true u e g =
      let k = t.finishing in
      let close : Option (Received × Shipper) = ipc_finish false k u >>= λ f. elim (f.0) [
        | finished ↦ some (stopped, f.1)
        | Finish.broken ↦ forced unusable k f.1
        | busy ↦ recv_next again t f.1
      ] in
      let P = Justified (t ∷ ts) in
      let rest : Option (Received × Shipper) =
        if u.shutdown_smart_requested then close else recv_next again t u in
      Yields-cases P u.shutdown_immed_requested (forced stopped k u) rest
        (λ now. forced_stopped-Justified (t ∷ ts) k u (ground (arith, now)))
        (λ later.
          Yields-cases P u.shutdown_smart_requested close (recv_next again t u)
            (λ soon.
              Yields-bind (λ f. Gains (paths_of k.drained.messages) u f.1 × Why k f) P
                (ipc_finish false k u)
                (λ f. elim (f.0) [
                  | finished ↦ some (stopped, f.1)
                  | Finish.broken ↦ forced unusable k f.1
                  | busy ↦ recv_next again t f.1
                ])
                (Yields-and (λ f. Gains (paths_of k.drained.messages) u f.1) (Why k)
                  (ipc_finish false k u) (ipc_finish-Gains false k u g) (ipc_finish-Why k u g soon))
                (λ f x. finish_result-Justified f x.0.0 x.1))
            (λ never. recv_next-Justified u g))

ipc_poll-ends : (b : Batch) (s : Shipper) → IsGood s → Yields (λ r. r.0 ≡ b.ends) (ipc_poll b s)
unfolding ipc_poll
ipc_poll-ends b s g =
    Yields-bind (Gains (paths_of b.messages) s) (λ r. r.0 ≡ b.ends) (receive_all b.messages s)
      (λ t. some (b.ends, t)) (receive_all-Gains b s g) (λ t k. refl)
  where
    receive_all-Gains :
        (b : Batch) (s : Shipper)
        → IsGood s
        → Yields (Gains (paths_of b.messages) s) (receive_all b.messages s)
    receive_all-Gains b s g =
        Yields-map (Adds (paths_of b.messages) s) (Gains (paths_of b.messages) s)
          (receive_all b.messages s) (λ t k. Adds-Gains (paths_of b.messages) s t k)
          (receive_all-Adds b.messages s g)

pub ipc_recv_path-Justified :
    (ts : List Turn) (s : Shipper) → IsGood s → Yields (Justified ts) (ipc_recv_path ts s)
unfolding ipc_recv_path
ipc_recv_path-Justified [] s g = tt
ipc_recv_path-Justified (t ∷ ts) s g =
    let ps = paths_of t.polled.messages in
    let again : Shipper → Option (Received × Shipper) = λ u. ipc_recv_path ts u in
    Yields-bind (λ r. Gains ps s r.1 × (r.0 ≡ t.polled.ends)) (Justified (t ∷ ts))
      (ipc_poll t.polled s) (λ r. recv_polled again t r)
      (Yields-and (λ r. Gains ps s r.1) (λ r. r.0 ≡ t.polled.ends) (ipc_poll t.polled s)
        (ipc_poll-Gains t.polled s g) (ipc_poll-ends t.polled s g))
      (λ r k.
        recv_polled-Justified again t ts (λ u l. ipc_recv_path-Justified ts u l) (r.0) r.1 k.1
          k.0.0)
