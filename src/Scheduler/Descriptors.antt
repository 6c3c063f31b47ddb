-- ===== src/Scheduler/Descriptors.antt =====
-- The descriptor sets of src/slon/scheduler.c and sched_numfd, one more than the highest descriptor.
use slony1_engine.Base.{
  ℕ, zero, suc, ◌<◌, ◌≡◌, ◌≢◌, refl, ap, ◌∙◌, Bool, true, false, ◌&&◌, ◌||◌, if◌then◌else◌, ◌==◌,
  arith, Bool-cases, inl, inr,
}
use slony1_engine.Base.Int.{ℤ, pos, negsuc}
use slony1_engine.Scheduler.{
  Waiter, Scheduler, set_bit, sched_add_read, sched_add_write, lower_numfd, numfd_without,
  sched_remove_read, sched_remove_write, release,
}

-- Every bit is below sched_numfd, and the last descriptor below it has a bit.
pub record IsFit (s : Scheduler) : Type 0 where
  pub bound : (n : ℕ) → (s.fdset_read n || s.fdset_write n) ≡ true → n < s.sched_numfd
  pub tight : (n : ℕ) → s.sched_numfd ≡ suc n → (s.fdset_read n || s.fdset_write n) ≡ true

lower_numfd_bound : (r w : ℕ → Bool) (k n : ℕ) → (r n || w n) ≡ true → n < k → n < lower_numfd r w k
unfolding lower_numfd
lower_numfd_bound r w zero n h l = l
lower_numfd_bound r w (suc k) n h l = elim (Bool-cases (r k || w k)) [
  | inl here ↦ rw (here, lower_numfd) l
  | inr gone ↦ rw (gone, lower_numfd) (lower_numfd_bound r w k n h (ground arith))
]

lower_numfd_tight : (r w : ℕ → Bool) (k n : ℕ) → lower_numfd r w k ≡ suc n → (r n || w n) ≡ true
unfolding lower_numfd
lower_numfd_tight r w zero n h = cc
lower_numfd_tight r w (suc k) n h = elim (Bool-cases (r k || w k)) [
  | inl here ↦ ground arith
  | inr gone ↦ lower_numfd_tight r w k n (ground arith)
]

sched_add_read-IsFit : (fd : ℤ) (s : Scheduler) → IsFit s → IsFit (sched_add_read fd s)
unfolding sched_add_read
sched_add_read-IsFit (negsuc n) s h = h
sched_add_read-IsFit (pos n) s h = record {
  bound = λ m e. ground (arith, h.bound m);
  tight = λ m e. ground (arith, h.tight m);
}

sched_add_write-IsFit : (fd : ℤ) (s : Scheduler) → IsFit s → IsFit (sched_add_write fd s)
unfolding sched_add_write
sched_add_write-IsFit (negsuc n) s h = h
sched_add_write-IsFit (pos n) s h = record {
  bound = λ m e. ground (arith, h.bound m);
  tight = λ m e. ground (arith, h.tight m);
}

-- Where a descriptor's bit is cleared the number stays right.
numfd_without_bound :
    (k numfd : ℕ) (r w : ℕ → Bool) (n : ℕ)
    → ((r n || w n) ≡ true → n < numfd)
    → (r n || w n) ≡ true
    → n < numfd_without k r w numfd
numfd_without_bound k numfd r w n b e = ground (arith, lower_numfd_bound r w numfd n e (b e))

numfd_without_tight :
    (k numfd : ℕ) (r w : ℕ → Bool) (n : ℕ)
    → (numfd ≡ suc n → k ≢ n → (r n || w n) ≡ true)
    → numfd_without k r w numfd ≡ suc n
    → (r n || w n) ≡ true
numfd_without_tight k numfd r w n t e = elim (Bool-cases (numfd == suc k)) [
  | inl last ↦ lower_numfd_tight r w numfd n (rw last at e)
  | inr lower ↦ t (rw lower at e) (ground arith)
]

sched_remove_read-IsFit : (fd : ℤ) (s : Scheduler) → IsFit s → IsFit (sched_remove_read fd s)
unfolding sched_remove_read
sched_remove_read-IsFit (negsuc n) s h = h
sched_remove_read-IsFit (pos k) s h = record {
  bound = λ n e.
      numfd_without_bound k s.sched_numfd (set_bit k false s.fdset_read) s.fdset_write n
        (λ x. ground (arith, h.bound n)) e;
  tight = λ n e.
      numfd_without_tight k s.sched_numfd (set_bit k false s.fdset_read) s.fdset_write n
        (λ x y. ground (arith, h.tight n)) e;
}

sched_remove_write-IsFit : (fd : ℤ) (s : Scheduler) → IsFit s → IsFit (sched_remove_write fd s)
unfolding sched_remove_write
sched_remove_write-IsFit (negsuc n) s h = h
sched_remove_write-IsFit (pos k) s h = record {
  bound = λ n e.
      numfd_without_bound k s.sched_numfd s.fdset_read (set_bit k false s.fdset_write) n
        (λ x. ground (arith, h.bound n)) e;
  tight = λ n e.
      numfd_without_tight k s.sched_numfd s.fdset_read (set_bit k false s.fdset_write) n
        (λ x y. ground (arith, h.tight n)) e;
}

if-IsFit : (b : Bool) (s t : Scheduler) → IsFit s → IsFit t → IsFit (if b then s else t)
if-IsFit true s t h k = h
if-IsFit false s t h k = k

pub release-IsFit : (c : Waiter) (s : Scheduler) → IsFit s → IsFit (release c s)
unfolding release
release-IsFit c s h =
    let t = if c.wait_read then sched_remove_read c.socket s else s in
    let f : IsFit t =
      if-IsFit c.wait_read (sched_remove_read c.socket s) s (sched_remove_read-IsFit c.socket s h)
        h in
    let g =
      if-IsFit c.wait_write (sched_remove_write c.socket t) t
        (sched_remove_write-IsFit c.socket t f) f in
    record { bound = g.bound; tight = g.tight }

-- The sets after a connection with this socket and these bits of its condition was added.
abbrev pub with_waiter : Waiter → Scheduler → Scheduler
with_waiter c s =
    let t = if c.wait_read then sched_add_read c.socket s else s in
    if c.wait_write then sched_add_write c.socket t else t

pub with_waiter-IsFit : (c : Waiter) (s : Scheduler) → IsFit s → IsFit (with_waiter c s)
with_waiter-IsFit c s h =
    let t = if c.wait_read then sched_add_read c.socket s else s in
    let f : IsFit t =
      if-IsFit c.wait_read (sched_add_read c.socket s) s (sched_add_read-IsFit c.socket s h) h in
    if-IsFit c.wait_write (sched_add_write c.socket t) t (sched_add_write-IsFit c.socket t f) f

-- Whether this is the descriptor.
abbrev pub is_fd : ℕ → ℤ → Bool
is_fd n (pos m) = n == m
is_fd n (negsuc m) = false

module _ (n : ℕ) where
  remove_read_bits :
      (fd : ℤ) (s : Scheduler)
      → ((sched_remove_read fd s).fdset_read n ≡ (if is_fd n fd then false else s.fdset_read n))
        × ((sched_remove_read fd s).fdset_write n ≡ s.fdset_write n)
  unfolding sched_remove_read
  remove_read_bits (pos m) s = (refl, refl)
  remove_read_bits (negsuc m) s = (refl, refl)

  remove_write_bits :
      (fd : ℤ) (s : Scheduler)
      → ((sched_remove_write fd s).fdset_write n ≡ (if is_fd n fd then false else s.fdset_write n))
        × ((sched_remove_write fd s).fdset_read n ≡ s.fdset_read n)
  unfolding sched_remove_write
  remove_write_bits (pos m) s = (refl, refl)
  remove_write_bits (negsuc m) s = (refl, refl)

  add_read_bits :
      (fd : ℤ) (s : Scheduler)
      → ((sched_add_read fd s).fdset_read n ≡ (if is_fd n fd then true else s.fdset_read n))
        × ((sched_add_read fd s).fdset_write n ≡ s.fdset_write n)
  unfolding sched_add_read
  add_read_bits (pos m) s = (refl, refl)
  add_read_bits (negsuc m) s = (refl, refl)

  add_write_bits :
      (fd : ℤ) (s : Scheduler)
      → ((sched_add_write fd s).fdset_write n ≡ (if is_fd n fd then true else s.fdset_write n))
        × ((sched_add_write fd s).fdset_read n ≡ s.fdset_read n)
  unfolding sched_add_write
  add_write_bits (pos m) s = (refl, refl)
  add_write_bits (negsuc m) s = (refl, refl)

  if_remove_read_bits :
      (b : Bool) (fd : ℤ) (s : Scheduler)
      → ((if b then sched_remove_read fd s else s).fdset_read n
          ≡ (if b && is_fd n fd then false else s.fdset_read n))
        × ((if b then sched_remove_read fd s else s).fdset_write n ≡ s.fdset_write n)
  if_remove_read_bits true fd s = remove_read_bits fd s
  if_remove_read_bits false fd s = (refl, refl)

  if_remove_write_bits :
      (b : Bool) (fd : ℤ) (s : Scheduler)
      → ((if b then sched_remove_write fd s else s).fdset_write n
          ≡ (if b && is_fd n fd then false else s.fdset_write n))
        × ((if b then sched_remove_write fd s else s).fdset_read n ≡ s.fdset_read n)
  if_remove_write_bits true fd s = remove_write_bits fd s
  if_remove_write_bits false fd s = (refl, refl)

  if_add_read_bits :
      (b : Bool) (fd : ℤ) (s : Scheduler)
      → ((if b then sched_add_read fd s else s).fdset_read n
          ≡ (if b && is_fd n fd then true else s.fdset_read n))
        × ((if b then sched_add_read fd s else s).fdset_write n ≡ s.fdset_write n)
  if_add_read_bits true fd s = add_read_bits fd s
  if_add_read_bits false fd s = (refl, refl)

  if_add_write_bits :
      (b : Bool) (fd : ℤ) (s : Scheduler)
      → ((if b then sched_add_write fd s else s).fdset_write n
          ≡ (if b && is_fd n fd then true else s.fdset_write n))
        × ((if b then sched_add_write fd s else s).fdset_read n ≡ s.fdset_read n)
  if_add_write_bits true fd s = add_write_bits fd s
  if_add_write_bits false fd s = (refl, refl)

  pub release_bits :
      (c : Waiter) (s : Scheduler)
      → ((release c s).fdset_read n
          ≡ (if c.wait_read && is_fd n c.socket then false else s.fdset_read n))
        × ((release c s).fdset_write n
            ≡ (if c.wait_write && is_fd n c.socket then false else s.fdset_write n))
  unfolding release
  release_bits c s =
      let t = if c.wait_read then sched_remove_read c.socket s else s in
      let x = if_remove_read_bits c.wait_read c.socket s in
      let y = if_remove_write_bits c.wait_write c.socket t in
      (y.1 ∙ x.0, y.0 ∙ ap (λ b. if c.wait_write && is_fd n c.socket then false else b) x.1)

  pub with_waiter_bits :
      (c : Waiter) (s : Scheduler)
      → ((with_waiter c s).fdset_read n
          ≡ (if c.wait_read && is_fd n c.socket then true else s.fdset_read n))
        × ((with_waiter c s).fdset_write n
            ≡ (if c.wait_write && is_fd n c.socket then true else s.fdset_write n))
  with_waiter_bits c s =
      let t = if c.wait_read then sched_add_read c.socket s else s in
      let x = if_add_read_bits c.wait_read c.socket s in
      let y = if_add_write_bits c.wait_write c.socket t in
      (y.1 ∙ x.0, y.0 ∙ ap (λ b. if c.wait_write && is_fd n c.socket then true else b) x.1)
