-- ===== src/Wait/Steps/Wakes.antt =====
-- No wake-up is missed between `wait_until` in src/wait.rs and the publication in src/ring.rs.
use shmem_ipc.Base.{ℕ, ◌+◌, ◌≤◌, ◌<◌, ◌≡◌, ◌≢◌, refl, ◌⊎◌, inr, Bool, arith}
use mathlib.Core.Path.{subst, subst⁻¹}
use shmem_ipc.Wait.Steps.{
  WaitPc, load_notify, first_look, measure, raise, second_look, enter, asleep, awake, found, late,
  WakePc, quiet, stored, bumped, waking, System, wait_step, publishes, wake_step, wake_waiter,
  Recent, Reach, start, waits, stores, wakes,
}

-- A waker in the middle of a publication.
abbrev Busy : WakePc → Type 0
Busy pc = pc ≢ quiet

-- What holds at each place of the waiting process.
abbrev At : (wanted : ℕ) → WaitPc → WakePc → (published bumps parked : ℕ) → Type 0
At wanted (first_look at) w published bumps parked = at ≤ bumps
At wanted (measure at) w published bumps parked = at ≤ bumps
At wanted (raise at) w published bumps parked = at ≤ bumps
At wanted (second_look at) w published bumps parked = (at ≤ bumps) × (parked ≡ 1)
At wanted (enter at) w published bumps parked =
    (at ≤ bumps) × (parked ≡ 1) × ((published < wanted) ⊎ ((at < bumps) ⊎ (w ≡ stored)))
At wanted asleep w published bumps parked = (parked ≡ 1) × ((published < wanted) ⊎ Busy w)
At wanted pc w published bumps parked = Unit

abbrev Inv : ℕ → System → Type 0
Inv wanted x = At wanted x.waiter x.waker x.published x.bumps x.parked

wait_step-Inv :
    (wanted : ℕ) (expired : Bool) (pc : WaitPc) (w : WakePc) (published bumps parked : ℕ)
    → At wanted pc w published bumps parked
    → Recent pc bumps
    → Inv wanted (
        wait_step wanted expired (record {
          waiter = pc;
          waker = w;
          published = published;
          bumps = bumps;
          parked = parked;
        }))
unfolding wait_step
wait_step-Inv wanted expired load_notify w published bumps parked i r = omega arith
wait_step-Inv wanted expired (first_look at) w published bumps parked i r = ground arith
wait_step-Inv wanted expired (measure at) w published bumps parked i r = ground arith
wait_step-Inv wanted expired (raise at) w published bumps parked i r = ground arith
wait_step-Inv wanted expired (second_look at) w published bumps parked i r = ground arith
wait_step-Inv wanted expired (enter at) w published bumps parked i r = ground arith
wait_step-Inv wanted expired asleep w published bumps parked i r = tt
wait_step-Inv wanted expired awake w published bumps parked i r = tt
wait_step-Inv wanted expired found w published bumps parked i r = tt
wait_step-Inv wanted expired late w published bumps parked i r = tt

publishes-Inv :
    (wanted : ℕ) (pc : WaitPc) (published bumps parked : ℕ)
    → At wanted pc quiet published bumps parked
    → At wanted pc stored (published + 1) bumps parked
publishes-Inv wanted load_notify published bumps parked i = tt
publishes-Inv wanted (first_look at) published bumps parked i = i
publishes-Inv wanted (measure at) published bumps parked i = i
publishes-Inv wanted (raise at) published bumps parked i = i
publishes-Inv wanted (second_look at) published bumps parked i = i
publishes-Inv wanted (enter at) published bumps parked (le, up, why) = (le, up, inr (inr refl))
publishes-Inv wanted asleep published bumps parked (up, why) = (up, inr (λ e. ground (arith, e)))
publishes-Inv wanted awake published bumps parked i = tt
publishes-Inv wanted found published bumps parked i = tt
publishes-Inv wanted late published bumps parked i = tt

wake_step-Inv :
    (wanted : ℕ) (pc : WaitPc) (w : WakePc) (published bumps parked : ℕ)
    → At wanted pc w published bumps parked
    → Inv wanted (
        wake_step (record {
          waiter = pc;
          waker = w;
          published = published;
          bumps = bumps;
          parked = parked;
        }))
unfolding wake_step wake_waiter
wake_step-Inv wanted pc quiet published bumps parked i = i
wake_step-Inv wanted load_notify w published bumps parked i = ground arith
wake_step-Inv wanted (first_look at) w published bumps parked i = ground arith
wake_step-Inv wanted (measure at) w published bumps parked i = ground arith
wake_step-Inv wanted (raise at) w published bumps parked i = ground arith
wake_step-Inv wanted (second_look at) w published bumps parked i = ground arith
wake_step-Inv wanted (enter at) w published bumps parked i = ground arith
wake_step-Inv wanted asleep w published bumps parked i = ground arith
wake_step-Inv wanted awake w published bumps parked i = ground arith
wake_step-Inv wanted found w published bumps parked i = ground arith
wake_step-Inv wanted late w published bumps parked i = ground arith

Reach-Inv : {wanted : ℕ} {x : System} → Reach wanted x → Inv wanted x
unfolding publishes
Reach-Inv start = tt
Reach-Inv {wanted} (waits {x} expired r recent) =
    wait_step-Inv wanted expired x.waiter x.waker x.published x.bumps x.parked (Reach-Inv r) recent
Reach-Inv {wanted} (stores {x} r idle) =
    publishes-Inv wanted x.waiter x.published x.bumps x.parked
      (subst (λ w. At wanted x.waiter w x.published x.bumps x.parked) idle (Reach-Inv r))
Reach-Inv {wanted} (wakes {x} r) =
    wake_step-Inv wanted x.waiter x.waker x.published x.bumps x.parked (Reach-Inv r)

-- The place of a sleeper after three accesses of the other process.
abbrev after_three : WaitPc → WakePc → (published bumps parked : ℕ) → WaitPc
after_three pc w published bumps parked =
    (wake_step (
      wake_step (
        wake_step (record {
          waiter = pc;
          waker = w;
          published = published;
          bumps = bumps;
          parked = parked;
        })))).waiter

three_wake :
    (w : WakePc) (published bumps : ℕ) → Busy w → after_three asleep w published bumps 1 ≡ awake
unfolding wake_step wake_waiter
three_wake quiet published bumps busy = absurd (busy refl)
three_wake stored published bumps busy = refl
three_wake bumped published bumps busy = refl
three_wake waking published bumps busy = refl

-- In every interleaving: if a process sleeps although what it waits for has been published, then
-- the publishing process still has the bump, the look at `parked` or the wake-up itself before
-- it, and at most three of its accesses wake the sleeper. It needs no timeout, and no further
-- publication. The notify word may wrap, but not go all the way round between a snapshot and the
-- call that sleeps on it.
pub no_missed_wake :
    {wanted : ℕ} {x : System}
    → Reach wanted x
    → x.waiter ≡ asleep
    → wanted ≤ x.published
    → (x.waker ≢ quiet) × ((wake_step (wake_step (wake_step x))).waiter ≡ awake)
no_missed_wake {wanted} {x} r at enough =
    let (up, why) =
      subst (λ pc. At wanted pc x.waker x.published x.bumps x.parked) at (Reach-Inv r) in
    let busy : x.waker ≢ quiet = ground (arith, why) in
    (
      busy,
      subst⁻¹ (λ pc. after_three pc x.waker x.published x.bumps x.parked ≡ awake) at
          (subst⁻¹ (λ n. after_three asleep x.waker x.published x.bumps n ≡ awake) up
            (three_wake x.waker x.published x.bumps busy)),
    )
