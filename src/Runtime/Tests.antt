-- ===== src/Runtime/Tests.antt =====
-- Tests of the life of a runtime.
use croutine.Prelude.{ℕ, ◌+◌, [], if◌then◌else◌, ◌≤◌, pos, true, false, none, some}
use croutine.Worker.Samples.{sample_machine, idle_scheduler}
use croutine.Worker.Lifecycle.{PollerOps}
use croutine.Runtime.{Runtime, Config, croutine_runtime_init}
use croutine.Runtime.Once.{no_calls, inits, Calls-once}

-- A poller that always agrees.
abbrev poller : PollerOps (Unit {0})
poller = record { init = λ p. (true, p); deinit = λ p. p; set = λ fd old new p. (true, p) }

-- A process that has not made any call.
abbrev fresh : Runtime (Unit {0})
fresh = record {
  machine =
      record (sample_machine idle_scheduler (record { entries = []; capacity = 0; count = 0 })) {
        runtime_init_once = false;
        runtime_init_ok = false;
      };
  runtime_worker_count = 0;
  runtime_started_workers = 0;
  runtime_workers = false;
  runtime_initialized = false;
  runtime_ever_initialized = false;
  runtime_ran = false;
}

abbrev config : Config
config = record { worker_count = 2; stack_size = 0 }

abbrev once : Runtime (Unit {0})
once = (croutine_runtime_init poller (some config) (pos 4) true true fresh).1

abbrev twice : Runtime (Unit {0})
twice = (croutine_runtime_init poller none (pos 4) true true once).1

abbrev successes : ℕ
successes =
    (if (croutine_runtime_init poller none (pos 4) true true once).0 then 1 else 0)
    + ((if (croutine_runtime_init poller (some config) (pos 4) true true fresh).0 then 1 else 0)
        + 0)

Calls-once_example : (successes ≤ 1) × (0 ≤ 1)
Calls-once_example =
    Calls-once poller fresh twice successes 0
      (inits none (pos 4) true true (inits (some config) (pos 4) true true no_calls))
