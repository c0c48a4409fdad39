-- ===== src/WorkerLoop/System/Sound.antt =====
-- Every step keeps the workers, the queue and the table sound.
use croutine.Prelude.{
  ℕ, ◌≡◌, refl, sym, ap, ◌∙◌, subst, Bool, true, false, ◌||◌, Option, some, ℤ, arith, ◌==◌, update,
  if◌then◌else◌, null, Bool-cases, inl, inr,
}
use croutine.Task.{Task, runnable, waiting_channel, finished}
use croutine.Scheduler.{Scheduler, park_current_on_channel, worker_wake_task_locked}
use croutine.IoWaits.{IoWaitTable}
use croutine.Worker.{Machine, Answers, spawn_task}
use croutine.WorkerLoop.Waiting.Spawns.{spawn_task-Spawned}
use croutine.Worker.Lifecycle.{task_finished}
use croutine.WorkerLoop.{Pc, deciding, running, yielded, settling, decide, awake, settle}
use croutine.WorkerLoop.System.{
  System, Step, decides, polls, awakes, returns, settles, yields, parks, parks_io, forgets,
  finishes, wakes, spawns, stops, io_of, IsUnused,
}
use croutine.WorkerLoop.Exclusive.{in_hand, is_free, held-is_free, Exclusive}
use croutine.WorkerLoop.Exclusive.Moves.{decide-Exclusive}
use croutine.WorkerLoop.Exclusive.Wakes.{wake-Exclusive}
use croutine.WorkerLoop.Exclusive.Switches.{
  park-Exclusive, finish-Exclusive, settle-Exclusive, Arrives,
}
use croutine.WorkerLoop.Waiting.{Still, AllWaiting-Still}
use croutine.WorkerLoop.Waiting.Wakes.{Sound}
use croutine.WorkerLoop.Waiting.Polls.{
  Sound-same, Sound-flags, StaysSoundIo, Polled, polled-Polled, forget-Sound,
}
use croutine.WorkerLoop.Waiting.Parks.{park_on_io-Sound}
use croutine.WorkerLoop.Waiting.Steps.{
  decide-Still, wake-Still, write-Still, finish-Still, finish-io_waits, StillAfter,
  settle-StillAfter,
}

-- A step that leaves the table alone.
step-Sound :
    (s s' : Scheduler) (table table' : IoWaitTable) (pc pc' : ℕ → Pc)
    → table' ≡ table
    → Exclusive s' pc'
    → Still s.tasks s'.tasks
    → Sound s table pc
    → Sound s' table' pc'
step-Sound s s' table table' pc pc' e x still v =
    subst (λ k. Sound s' k pc') (sym e)
      (record {
        exclusive = x;
        good = v.good;
        waiting = AllWaiting-Still s.tasks s'.tasks table.entries still v.waiting;
      })

awake-Sound :
    (s : Scheduler) (table : IoWaitTable) (pc : ℕ → Pc) (w : ℕ) (checked : Bool)
    → Sound s table pc
    → Sound (awake checked s).1 table (update pc w (awake checked s).0)
unfolding awake
awake-Sound s table pc w checked v =
    Sound-same s (awake checked s).1 table pc w (deciding checked) refl refl v
      (λ t h. absurd (ground arith))

park-Still :
    (s : Scheduler) (task : ℕ)
    → is_free (s.tasks task) ≡ true
    → Still s.tasks (park_current_on_channel task s).1.tasks
unfolding park_current_on_channel
park-Still s task free = elim (Bool-cases (task == null || s.shutdown_requested)) [
  | inl e ↦ rw e (λ t h. (h, refl))
  | inr e ↦ rw e (
      write-Still s.tasks task
        (record (s.tasks task) { state = waiting_channel; channel_wake_success = false }) free)
]

module _ {P : Type 0} where
  settled-Sound :
      (m : Machine P) (pc : ℕ → Pc) (w : ℕ) (o : Option (Pc × Machine P)) (p : Pc) (m' : Machine P)
      → o ≡ some (p, m')
      → Arrives pc w o
      → StillAfter m o
      → Sound m.world.sched m.io_waits pc
      → Sound m'.world.sched m'.io_waits (update pc w p)
  settled-Sound m pc w o p m' r x still v =
      let (e, st) = subst (StillAfter m) r still in
      step-Sound m.world.sched m'.world.sched m.io_waits m'.io_waits pc (update pc w p) e
        (subst (Arrives pc w) r x) st v

  abbrev pub IsSound : System P → Type 0
  IsSound x = Sound x.machine.world.sched x.machine.io_waits x.pc

  spawn-Sound :
      (a : Answers) (fn arg arg_size : ℕ) (copy_arg is_main : Bool) (x : System P)
      → IsUnused x a.task
      → IsSound x
      → IsSound (record x { machine = (spawn_task a fn arg arg_size copy_arg is_main x.machine).1 })
  spawn-Sound a fn arg arg_size copy_arg is_main x (free, out) v =
      let m = x.machine in
      let m' = (spawn_task a fn arg arg_size copy_arg is_main m).1 in
      let (sched, same, table) =
        spawn_task-Spawned a fn arg arg_size copy_arg is_main m (ground arith) v.exclusive.sched in
      step-Sound m.world.sched m'.world.sched m.io_waits m'.io_waits x.pc x.pc table
        (record {
          sched = sched;
          alone = v.exclusive.alone;
          held = λ w t h.
              rw (same t (λ is. ground (arith, ap (in_hand (x.pc w)) is, out w)))
                (v.exclusive.held w t h);
        })
        (λ t h.
          (let is = same t (λ e. ground (arith, ap (λ u. (m.world.sched.tasks u).state) e)) in
            (ap (λ (k : Task). k.state) is ∙ h, ap (λ (k : Task). k.io_fd) is)))
        v

  running-is_free :
      (x : System P) (w task : ℕ)
      → x.pc w ≡ running task
      → IsSound x
      → is_free (x.machine.world.sched.tasks task) ≡ true
  running-is_free x w task e v =
      held-is_free x.machine.world.sched x.pc w task v.exclusive (rw e (ground arith))

module _ {P : Type 0} {poller_set : ℤ → ℕ → ℕ → P → Bool × P} where
  pub Step-Sound : {x y : System P} → Step poller_set x y → IsSound x → IsSound y
  Step-Sound {x = x} (decides w checked e) v =
      let s = x.machine.world.sched in
      step-Sound s (decide checked s).1 x.machine.io_waits x.machine.io_waits x.pc
        (update x.pc w (decide checked s).0) refl (decide-Exclusive s x.pc w checked v.exclusive)
        (decide-Still s checked v.exclusive.sched.valid) v
  Step-Sound {x = x} (polls w timeout ready p io e r) v =
      subst (Polled poller_set x.pc w) r (polled-Polled poller_set ready (io_of x.machine) x.pc w v)
  Step-Sound {x = x} (awakes w checked e) v =
      awake-Sound x.machine.world.sched x.machine.io_waits x.pc w checked v
  Step-Sound {x = x} (returns w task state e) v =
      let s = x.machine.world.sched in
      Sound-same s s x.machine.io_waits x.pc w (settling task state s.shutdown_requested) refl refl
        v (λ t h. rw e (h, refl))
  Step-Sound {x = x} (settles w task state stop p m e r) v =
      settled-Sound x.machine x.pc w (settle task state stop x.machine) p m r
        (settle-Exclusive x.machine x.pc w task state stop e v.exclusive)
        (settle-StillAfter x.machine task state stop
          (λ awake_.
            held-is_free x.machine.world.sched x.pc w task v.exclusive (rw e (ground arith)))
          v.exclusive.sched.valid)
        v
  Step-Sound {x = x} (yields w task e) v =
      let s = x.machine.world.sched in
      Sound-same s s x.machine.io_waits x.pc w (yielded task runnable) refl refl v
        (λ t h. rw e (ground arith, refl))
  Step-Sound {x = x} (parks w task e) v =
      let s = x.machine.world.sched in
      step-Sound s (park_current_on_channel task s).1 x.machine.io_waits x.machine.io_waits x.pc
        (update x.pc w (
          if (park_current_on_channel task s).0
          then yielded task waiting_channel
          else running task))
        refl (park-Exclusive s x.pc w task e v.exclusive)
        (park-Still s task (running-is_free x w task e v)) v
  Step-Sound {x = x} (parks_io w task granted fd events e small) v =
      park_on_io-Sound poller_set granted fd events task w (io_of x.machine) x.pc e small v
  Step-Sound {x = x} (forgets fd io r) v =
      subst (StaysSoundIo poller_set x.pc) r (forget-Sound poller_set fd (io_of x.machine) x.pc v)
  Step-Sound {x = x} (finishes w task ne e) v =
      let m = x.machine in
      let m' = task_finished task m in
      step-Sound m.world.sched m'.world.sched m.io_waits m'.io_waits x.pc
        (update x.pc w (yielded task finished)) (finish-io_waits m task)
        (finish-Exclusive m x.pc w task ne e v.exclusive)
        (finish-Still m task ne (running-is_free x w task e v)) v
  Step-Sound {x = x} (wakes task success) v =
      let s = x.machine.world.sched in
      step-Sound s (worker_wake_task_locked task success s).1 x.machine.io_waits x.machine.io_waits
        x.pc x.pc refl (wake-Exclusive task success s x.pc v.exclusive)
        (wake-Still task success s v.exclusive.sched) v
  Step-Sound {x = x} (spawns a fn arg arg_size copy_arg is_main unused) v =
      spawn-Sound a fn arg arg_size copy_arg is_main x unused v
  Step-Sound {x = x} stops v =
      let s = x.machine.world.sched in
      Sound-flags s (record s { shutdown_requested = true }) x.machine.io_waits x.pc refl refl v
