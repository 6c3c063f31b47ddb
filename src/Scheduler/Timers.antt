-- ===== src/Scheduler/Timers.antt =====
-- The times of src/slon/scheduler.c: the end of a wait, and what is left of it.
use slony1_engine.Base.{ℕ, zero, suc, ◌+◌, ◌-◌, ◌*◌, ◌≤◌, ◌<◌, ◌≡◌, refl, true, false, arith, ◌↔◌}
use slony1_engine.Base.Int.{ℤ, pos, ◌+ℤ◌, ◌-ℤ◌, is_negative, pos_part, neg_part, -ℤ_parts}
use slony1_engine.Scheduler.{TimeVal, end_time, borrow_second, carry_usec, time_left, is_elapsed}

-- The end is `msec` milliseconds from now, in microseconds, and its tv_usec is below a second.
pub end_time_lem :
    (sec usec msec : ℕ)
    → let t = end_time sec usec msec in
      (t.0 * 1000000 + t.1 ≡ sec * 1000000 + usec + msec * 1000) × (t.1 < 1000000)
unfolding end_time
end_time_lem sec usec msec = omega arith

-- Two times are equal, in microseconds; the positive parts and the negative are numbers.
abbrev pos_usecs : TimeVal → ℕ
pos_usecs t = pos_part t.tv_sec * 1000000 + pos_part t.tv_usec

abbrev neg_usecs : TimeVal → ℕ
neg_usecs t = neg_part t.tv_sec * 1000000 + neg_part t.tv_usec

abbrev IsSame : TimeVal → TimeVal → Type 0
IsSame t u = pos_usecs t + neg_usecs u ≡ pos_usecs u + neg_usecs t

borrow_second_lem :
    (t : TimeVal)
    → is_negative t.tv_usec ≡ true
    → let u = borrow_second t in
      IsSame u t
      × (neg_part u.tv_usec ≤ neg_part t.tv_usec - 1000000)
      × (pos_part u.tv_usec < 1000000)
unfolding borrow_second ◌+ℤ◌ ◌-ℤ◌
borrow_second_lem t h = ground arith

abbrev IsCarried : TimeVal → TimeVal → Type 0
IsCarried t u = IsSame u t × (neg_part u.tv_usec ≡ 0) × (pos_part u.tv_usec < 1000000)

-- The loop ends with a tv_usec of the first second, and with the same time.
carry_usec_lem :
    (fuel : ℕ) (t : TimeVal)
    → neg_part t.tv_usec ≤ fuel * 1000000
    → pos_part t.tv_usec < 1000000
    → IsCarried t (carry_usec fuel t)
unfolding carry_usec
carry_usec_lem zero t h k = (refl, omega (arith, h), k)
carry_usec_lem (suc fuel) t h k =
    elim (is_negative t.tv_usec)
        as (λ b.
          is_negative t.tv_usec ≡ b
          → IsCarried t (elim b [ false ↦ t | true ↦ carry_usec fuel (borrow_second t) ])) [
            | true ↦ λ e.
                let b = borrow_second_lem t e in
                let x = carry_usec_lem fuel (borrow_second t) (omega (arith, b.1, h)) b.2 in
                (omega (arith, x.0, b.0), x.1, x.2)
            | false ↦ λ e. (refl, ground arith, k)
          ]
      refl

pos_part-difference : (a b : ℤ) → is_negative b ≡ false → pos_part (a -ℤ b) ≤ pos_part a
unfolding ◌-ℤ◌
pos_part-difference a b h = ground arith

-- What is left is the end less the present.
left_of_end :
    (now t : TimeVal)
    → pos_part t.tv_usec < 1000000
    → is_negative now.tv_usec ≡ false
    → let u = time_left now t in
      (pos_usecs u + pos_usecs now + neg_usecs t ≡ pos_usecs t + neg_usecs now + neg_usecs u)
      × (neg_part u.tv_usec ≡ 0)
      × (pos_part u.tv_usec < 1000000)
unfolding time_left
left_of_end now t h k =
    let d : TimeVal = record {
      tv_sec = t.tv_sec -ℤ now.tv_sec;
      tv_usec = t.tv_usec -ℤ now.tv_usec;
    } in
    let x =
      carry_usec_lem (neg_part d.tv_usec) d (omega arith)
        (omega (arith, pos_part-difference t.tv_usec now.tv_usec k, h)) in
    (omega (arith, x.0, -ℤ_parts t.tv_sec now.tv_sec, -ℤ_parts t.tv_usec now.tv_usec), x.1, x.2)

is_elapsed_lem :
    (u : TimeVal)
    → neg_part u.tv_usec ≡ 0
    → pos_part u.tv_usec < 1000000
    → (is_elapsed u ≡ true) ↔ (pos_usecs u < neg_usecs u + 20000)
is_elapsed_lem u h k = ground arith

-- A wait of `msec` milliseconds, which begins at `sec` and `usec`, is elapsed for the scheduler as
-- soon as less than 20 milliseconds of it are left, and not before.
pub is_elapsed-end_time :
    (sec usec msec sec' usec' : ℕ)
    → usec' < 1000000
    → (is_elapsed (
          time_left
            (record { tv_sec = pos sec'; tv_usec = pos usec' })
            (record {
              tv_sec = pos (end_time sec usec msec).0;
              tv_usec = pos (end_time sec usec msec).1;
            }))
        ≡ true)
      ↔ (sec * 1000000 + usec + msec * 1000 < sec' * 1000000 + usec' + 20000)
is_elapsed-end_time sec usec msec sec' usec' h =
    let now : TimeVal = record { tv_sec = pos sec'; tv_usec = pos usec' } in
    let t : TimeVal = record {
      tv_sec = pos (end_time sec usec msec).0;
      tv_usec = pos (end_time sec usec msec).1;
    } in
    let e = end_time_lem sec usec msec in
    let x = left_of_end now t e.1 (ground arith) in
    let y = is_elapsed_lem (time_left now t) x.1 x.2 in
    (λ k. omega (arith, y.0 k, x.0, e.0), λ k. y.1 (omega (arith, k, x.0, e.0)))
