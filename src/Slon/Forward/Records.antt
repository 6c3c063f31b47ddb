-- ===== src/Slon/Forward/Records.antt =====
-- What is forwarded for one origin and receiver, src/slon/remote_worker.c: each number that exceeds
-- all before it.
use slony1_engine.Base.{
  ◌≡◌, refl, sym, Bool, true, ◌&&◌, Option, none, some, List, [], ◌∷◌, ◌++◌, if◌then◌else◌, arith,
  Bool-cases, Option-cases, inl, inr, append_assoc, append-nil,
}
use slony1_engine.Base.Int.{ℤ, negsuc, ◌==ℤ◌, ==ℤ_iff, ltb_ℤ}
use slony1_engine.Slon.{ConfirmMsg}
use slony1_engine.Slon.Forward.{
  ConfirmStatus, is_pair, find_status, raise_status, Forwarding, new_status, store_confirm_forward,
  forward_all, get_last_forwarded_confirm,
}

unfoldable pub concerns : ℤ → ℤ → ConfirmMsg → Bool
concerns origin receiver m = m.con_origin ==ℤ origin && m.con_received ==ℤ receiver

-- The numbers that messages report for an origin and a receiver.
unfoldable pub reported : ℤ → ℤ → List ConfirmMsg → List ℤ
reported origin receiver [] = []
reported origin receiver (m ∷ ms) =
    if concerns origin receiver m
    then m.con_seqno ∷ reported origin receiver ms
    else reported origin receiver ms

abbrev pub exceeds : Option ℤ → ℤ → Bool
exceeds none a = true
exceeds (some n) a = ltb_ℤ n a

-- The numbers that exceed all before them, and the highest.
unfoldable pub records : Option ℤ → List ℤ → List ℤ
records last [] = []
records last (a ∷ bs) = if exceeds last a then a ∷ records (some a) bs else records last bs

unfoldable pub highest : Option ℤ → List ℤ → Option ℤ
highest last [] = last
highest last (a ∷ bs) = highest (if exceeds last a then some a else last) bs

module _ (origin receiver : ℤ) where
  reported-append :
      (xs ys : List ConfirmMsg)
      → reported origin receiver (xs ++ ys)
        ≡ reported origin receiver xs ++ reported origin receiver ys
  unfolding reported
  reported-append [] ys = refl
  reported-append (m ∷ xs) ys = ground (arith, reported-append xs ys)

  is_pair-new_status :
      (m : ConfirmMsg) → is_pair origin receiver (new_status m) ≡ concerns origin receiver m
  unfolding is_pair concerns
  is_pair-new_status m = refl

  -- An entry of the message's pair is of the pair exactly if the message is.
  is_pair-concerns :
      (m : ConfirmMsg) (c : ConfirmStatus)
      → is_pair m.con_origin m.con_received c ≡ true
      → is_pair origin receiver c ≡ concerns origin receiver m
  unfolding is_pair concerns
  is_pair-concerns m c h =
      ground (arith, ==ℤ_iff c.con_origin m.con_origin, ==ℤ_iff c.con_received m.con_received)

  is_pair_concerned :
      (m : ConfirmMsg) (c : ConfirmStatus)
      → concerns origin receiver m ≡ true
      → is_pair m.con_origin m.con_received c ≡ is_pair origin receiver c
  unfolding is_pair concerns
  is_pair_concerned m c h =
      ground (arith, ==ℤ_iff m.con_origin origin, ==ℤ_iff m.con_received receiver)

  -- A message to the same pair finds the pair's number.
  find_status_concerned :
      (m : ConfirmMsg) (cs : List ConfirmStatus)
      → concerns origin receiver m ≡ true
      → find_status m.con_origin m.con_received cs ≡ find_status origin receiver cs
  unfolding find_status
  find_status_concerned m [] h = refl
  find_status_concerned m (c ∷ cs) h =
      ground (arith, find_status_concerned m cs h, is_pair_concerned m c h)

  find_status-new_status :
      (m : ConfirmMsg) (cs : List ConfirmStatus)
      → find_status m.con_origin m.con_received cs ≡ none
      → find_status origin receiver (cs ++ new_status m ∷ [])
        ≡ (if concerns origin receiver m then some m.con_seqno else find_status origin receiver cs)
  unfolding find_status
  find_status-new_status m [] h = ground (arith, is_pair-new_status m)
  find_status-new_status m (c ∷ cs) h =
      ground (arith, find_status-new_status m cs, is_pair_concerned m c)

  is_pair_raised :
      (m : ConfirmMsg) (c : ConfirmStatus)
      → is_pair origin receiver (record c { con_seqno = m.con_seqno }) ≡ is_pair origin receiver c
  unfolding is_pair
  is_pair_raised m c = refl

  find_status-raise_status :
      (m : ConfirmMsg) (n : ℤ) (cs : List ConfirmStatus)
      → find_status m.con_origin m.con_received cs ≡ some n
      → find_status origin receiver (raise_status m cs)
        ≡ (if concerns origin receiver m then some m.con_seqno else find_status origin receiver cs)
  unfolding find_status raise_status
  find_status-raise_status m n [] h = cc
  find_status-raise_status m n (c ∷ cs) h = ground (
    arith,
    find_status-raise_status m n cs,
    is_pair-concerns m c,
    is_pair_concerned m c,
    is_pair_raised m c,
  )

  abbrev is_news : ConfirmMsg → Forwarding → Bool
  is_news m f =
      concerns origin receiver m && exceeds (find_status origin receiver f.statuses) m.con_seqno

  find_status-store_confirm_forward :
      (m : ConfirmMsg) (f : Forwarding)
      → find_status origin receiver (store_confirm_forward m f).statuses
        ≡ (if is_news m f then some m.con_seqno else find_status origin receiver f.statuses)
  unfolding store_confirm_forward
  find_status-store_confirm_forward m f =
      elim (Option-cases (find_status m.con_origin m.con_received f.statuses)) [
        | inl missing ↦
            ground (
              arith,
              find_status-new_status m f.statuses missing,
              find_status_concerned m f.statuses,
            )
        | inr (n, found) ↦ ground (
          arith,
          find_status-raise_status m n f.statuses found,
          find_status_concerned m f.statuses,
        )
      ]

  calls-store_confirm_forward :
      (m : ConfirmMsg) (f : Forwarding)
      → reported origin receiver (store_confirm_forward m f).calls ≡ (
          if is_news m f
          then reported origin receiver f.calls ++ m.con_seqno ∷ []
          else reported origin receiver f.calls)
  unfolding store_confirm_forward reported
  calls-store_confirm_forward m f =
      elim (Option-cases (find_status m.con_origin m.con_received f.statuses)) [
        | inl missing ↦ ground (
          arith,
          reported-append f.calls (m ∷ []),
          find_status_concerned m f.statuses,
          append-nil (reported origin receiver f.calls),
        )
        | inr (n, found) ↦ ground (
          arith,
          reported-append f.calls (m ∷ []),
          find_status_concerned m f.statuses,
          append-nil (reported origin receiver f.calls),
        )
      ]

  -- For every origin and receiver, however the confirmations of other pairs are mixed in: the numbers
  -- forwarded to the database are those reported ones that exceed the number known before and all
  -- reported ones before them, in their order.
  pub reported-forward_all :
      (ms : List ConfirmMsg) (f : Forwarding)
      → reported origin receiver (forward_all ms f).calls
        ≡ reported origin receiver f.calls
          ++ records (find_status origin receiver f.statuses) (reported origin receiver ms)
  unfolding forward_all records reported
  reported-forward_all [] f = sym (append-nil (reported origin receiver f.calls))
  reported-forward_all (m ∷ ms) f = elim (Bool-cases (is_news m f)) [
    | inl news ↦ ground (
      arith,
      reported-forward_all ms (store_confirm_forward m f),
      find_status-store_confirm_forward m f,
      calls-store_confirm_forward m f,
      append_assoc (reported origin receiver f.calls) (m.con_seqno ∷ [])
          (records (some m.con_seqno) (reported origin receiver ms)),
    )
    | inr old ↦ ground (
      arith,
      reported-forward_all ms (store_confirm_forward m f),
      find_status-store_confirm_forward m f,
      calls-store_confirm_forward m f,
    )
  ]

  -- After any confirmations the last number that is answered for an origin and receiver is the highest
  -- of the one known before and those reported, and -1 where there is none.
  pub get_last_forwarded_confirm-forward_all :
      (ms : List ConfirmMsg) (f : Forwarding)
      → get_last_forwarded_confirm origin receiver (forward_all ms f).statuses
        ≡ elim (highest (find_status origin receiver f.statuses) (reported origin receiver ms)) [
          | none ↦ negsuc 0
          | some n ↦ n
        ]
  unfolding forward_all get_last_forwarded_confirm highest reported
  get_last_forwarded_confirm-forward_all [] f = refl
  get_last_forwarded_confirm-forward_all (m ∷ ms) f = elim (Bool-cases (is_news m f)) [
    | inl news ↦ ground (
      arith,
      get_last_forwarded_confirm-forward_all ms (store_confirm_forward m f),
      find_status-store_confirm_forward m f,
    )
    | inr old ↦ ground (
      arith,
      get_last_forwarded_confirm-forward_all ms (store_confirm_forward m f),
      find_status-store_confirm_forward m f,
    )
  ]
