-- ===== src/Platform/Windows/Handles.antt =====
-- The kernel handles of src/platform/windows.rs: `WaitHandle::open` and `ChannelWaitSet::new` make
-- them, dropping a WaitObjects closes them. What each creating call answers is given.
use shmem_ipc.Base.{ℕ, ◌+◌, ◌-◌, ◌≡◌, ◌==◌, arith, if◌then◌else◌}
use shmem_ipc.Error.{Error, Result, ok, err}

-- How many open handles of the process have a value.
abbrev pub Table : Type 0
Table = ℕ → ℕ

unfoldable pub count : (handle value : ℕ) → ℕ
count handle value = if value == handle then 1 else 0

abbrev pub opened : ℕ → Table → Table
opened handle table value = table value + count handle value

-- `CloseHandle`
abbrev pub close_handle : ℕ → Table → Table
close_handle handle table value = table value - count handle value

-- The handles of WaitObjects.
pub record WaitObjects : Type 0 where
  pub event : ℕ
  pub async_event : ℕ
  pub timeout_timer : ℕ

-- The answers of the two calls of CreateEventW and of CreateWaitableTimerExW; an error is a null
-- handle, with what `last_os_error` tells.
pub record Created : Type 0 where
  pub event : Result ℕ
  pub async_event : Result ℕ
  pub timeout_timer : Result ℕ

-- `WaitHandle::open`
unfoldable pub open_handle : Created → Table → Result WaitObjects × Table
open_handle answers table = elim answers.event [
  | err e ↦ (err e, table)
  | ok event ↦
      let with_event = opened event table in
      elim answers.async_event [
        | err e ↦ (err e, close_handle event with_event)
        | ok async_event ↦
            let with_both = opened async_event with_event in
            elim answers.timeout_timer [
              | err e ↦ (err e, close_handle async_event (close_handle event with_both))
              | ok timer ↦ (
                ok (record { event = event; async_event = async_event; timeout_timer = timer }),
                opened timer with_both,
              )
            ]
      ]
]

-- `WaitObjects::drop`, from its first CloseHandle on.
unfoldable pub drop_objects : WaitObjects → Table → Table
drop_objects objects table =
    close_handle objects.timeout_timer
      (close_handle objects.async_event (close_handle objects.event table))

pub record ChannelWaitSet : Type 0 where
  pub ring_a_writer : WaitObjects
  pub ring_a_reader : WaitObjects
  pub ring_b_writer : WaitObjects
  pub ring_b_reader : WaitObjects

-- The answers to the calls of the four handles.
pub record AllCreated : Type 0 where
  pub ring_a_writer : Created
  pub ring_a_reader : Created
  pub ring_b_writer : Created
  pub ring_b_reader : Created

-- One more handle by `?`: an error drops the ones before it.
unfoldable pub and_open {ℓ} :
    {A : Type ℓ}
    → Created
    → (undo : Table → Table) → (next : WaitObjects → Table → Result A × Table) → Table
    → Result A × Table
and_open answers undo next table =
    let (made, table') = open_handle answers table in
    elim made [ err e ↦ (err e, undo table') | ok objects ↦ next objects table' ]

-- `ChannelWaitSet::new`
unfoldable pub new_wait_set : AllCreated → Table → Result ChannelWaitSet × Table
unfolding and_open drop_objects
new_wait_set answers table =
    and_open answers.ring_a_writer (λ t. t)
      (λ a t1.
        and_open answers.ring_a_reader (drop_objects a)
          (λ b t2.
            and_open answers.ring_b_writer (λ t. drop_objects a (drop_objects b t))
              (λ c t3.
                and_open answers.ring_b_reader
                  (λ t. drop_objects a (drop_objects b (drop_objects c t)))
                  (λ d t4. (
                    ok (record {
                      ring_a_writer = a;
                      ring_a_reader = b;
                      ring_b_writer = c;
                      ring_b_reader = d;
                    }),
                    t4,
                  ))
                  t3)
              t2)
          t1)
      table

-- Its fields are dropped in the order of their declaration.
unfoldable pub drop_wait_set : ChannelWaitSet → Table → Table
unfolding drop_objects
drop_wait_set set table = drop_objects set.ring_b_reader (
    drop_objects set.ring_b_writer
      (drop_objects set.ring_a_reader (drop_objects set.ring_a_writer table)))

abbrev pub held : WaitObjects → Table
held o value = count o.event value + count o.async_event value + count o.timeout_timer value

abbrev pub held_by_set : ChannelWaitSet → Table
held_by_set set value =
    held set.ring_a_writer value
    + held set.ring_a_reader value
    + held set.ring_b_writer value
    + held set.ring_b_reader value

drop_objects_lem :
    (o : WaitObjects) (table : Table) (v : ℕ) → drop_objects o table v ≡ table v - held o v
unfolding drop_objects
drop_objects_lem o table v = omega arith

drop_wait_set_lem :
    (set : ChannelWaitSet) (table : Table) (v : ℕ)
    → drop_wait_set set table v ≡ table v - held_by_set set v
unfolding drop_wait_set drop_objects
drop_wait_set_lem set table v = omega arith

-- What a call of `open_handle` did to the table.
data Made (table : Table) : Result WaitObjects × Table → Type 0 where
  failed : {e : Error} {t : Table} → ((v : ℕ) → t v ≡ table v) → Made table (err e, t)
  made : {o : WaitObjects} {t : Table} → ((v : ℕ) → t v ≡ table v + held o v) → Made table (ok o, t)

open_handle-Made : (answers : Created) (table : Table) → Made table (open_handle answers table)
unfolding open_handle
open_handle-Made answers table = by_answers answers.event answers.async_event answers.timeout_timer
  where
    by_answers :
        (event async_event timer : Result ℕ)
        → Made table (
            open_handle
              (record { event = event; async_event = async_event; timeout_timer = timer })
              table)
    by_answers (err e) async_event timer = failed λ v. omega arith
    by_answers (ok event) (err e) timer = failed λ v. omega arith
    by_answers (ok event) (ok async_event) (err e) = failed λ v. omega arith
    by_answers (ok event) (ok async_event) (ok timer) = made λ v. omega arith

-- A set with its handles and no other, or an error and no handle.
pub data Balanced (base : Table) : Result ChannelWaitSet × Table → Type 0 where
  undone : {e : Error} {t : Table} → ((v : ℕ) → t v ≡ base v) → Balanced base (err e, t)
  owned :
      {set : ChannelWaitSet} {t : Table}
      → ((v : ℕ) → t v ≡ base v + held_by_set set v)
      → ((v : ℕ) → drop_wait_set set t v ≡ base v)
      → Balanced base (ok set, t)

and_open-Balanced :
    (base : Table) (answers : Created) (undo : Table → Table)
    (next : WaitObjects → Table → Result ChannelWaitSet × Table) (table : Table)
    → ((t : Table) → ((v : ℕ) → t v ≡ table v) → (v : ℕ) → undo t v ≡ base v)
    → ((o : WaitObjects) (t : Table)
        → ((v : ℕ) → t v ≡ table v + held o v)
        → Balanced base (next o t))
    → Balanced base (and_open answers undo next table)
unfolding and_open
and_open-Balanced base answers undo next table undoes goes =
    by_made (open_handle answers table) (open_handle-Made answers table)
  where
    by_made :
        (r : Result WaitObjects × Table)
        → Made table r
        → Balanced base (elim r.0 [ err e ↦ (err e, undo r.1) | ok o ↦ next o r.1 ])
    by_made r (failed {e} {t} same) = undone (undoes t same)
    by_made r (made {o} {t} more) = goes o t more

-- Whatever the twelve creating calls answer: `ChannelWaitSet::new` returns either a set that owns
-- exactly the handles by which the process has more than before, and dropping it then closes these
-- and no others; or an error, with the open handles of the process as they were.
pub new_wait_set-Balanced :
    (answers : AllCreated) (table : Table) → Balanced table (new_wait_set answers table)
unfolding new_wait_set
new_wait_set-Balanced answers table =
    and_open-Balanced table answers.ring_a_writer (λ t. t) _ table (λ t same v. same v)
      λ a t1 m1.
        and_open-Balanced table answers.ring_a_reader (drop_objects a) _ t1
          (λ t same v. omega (arith, same v, m1 v, drop_objects_lem a t v))
          λ b t2 m2.
            and_open-Balanced table answers.ring_b_writer (λ t. drop_objects a (drop_objects b t)) _
              t2
              (λ t same v. omega (
                arith,
                same v,
                m1 v,
                m2 v,
                drop_objects_lem b t v,
                drop_objects_lem a (drop_objects b t) v,
              ))
              λ c t3 m3.
                and_open-Balanced table answers.ring_b_reader
                  (λ t. drop_objects a (drop_objects b (drop_objects c t))) _ t3
                  (λ t same v. omega (
                    arith,
                    same v,
                    m1 v,
                    m2 v,
                    m3 v,
                    drop_objects_lem c t v,
                    drop_objects_lem b (drop_objects c t) v,
                    drop_objects_lem a (drop_objects b (drop_objects c t)) v,
                  ))
                  λ d t4 m4.
                    let set : ChannelWaitSet = record {
                      ring_a_writer = a;
                      ring_a_reader = b;
                      ring_b_writer = c;
                      ring_b_reader = d;
                    } in
                    owned {set = set} {t = t4} (λ v. omega (arith, m1 v, m2 v, m3 v, m4 v))
                      (λ v. omega (arith, m1 v, m2 v, m3 v, m4 v, drop_wait_set_lem set t4 v))
