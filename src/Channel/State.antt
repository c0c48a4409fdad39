-- ===== src/Channel/State.antt =====
-- The data of src/channel.c and include/croutine/channel.h, and commands over the whole state.
-- Every object has an address; `memory` holds the bytes of the values that tasks hand to channels,
-- one object at each address, which do not overlap.
use croutine.Prelude.{ℕ, ℤ, Bool, List, update}
use croutine.WaitQueue.{Store, WaitQueue}
use croutine.Scheduler.{Scheduler}

-- `enum ChannelWaiterKind`
pub data WaiterKind : Type 0 where
  regular select : WaiterKind

-- `enum croutine_select_op`
pub data SelectOp : Type 0 where
  send recv : SelectOp

-- `enum croutine_select_status`
pub data SelectStatus : Type 0 where
  value closed sent : SelectStatus

-- `enum croutine_channel_send_result`, with the sentinel `TRY_SEND_WOULD_BLOCK`
pub data SendResult : Type 0 where
  send_ok send_closed would_block : SendResult

-- `enum croutine_channel_recv_result`
pub data RecvResult : Type 0 where
  recv_value recv_empty recv_closed : RecvResult

-- `struct ChannelWaiter` without its links
pub record Waiter : Type 0 where
  pub kind : WaiterKind
  pub op : SelectOp
  pub task : ℕ
  pub value_slot : ℕ
  pub state : ℕ
  pub case_index : ℕ

-- `struct croutine_channel`; a buffer is `[]` where the source has `NULL`
pub record Channel : Type 0 where
  pub elem_size : ℕ
  pub capacity : ℕ
  pub closed : Bool
  pub buffer : List ℕ
  pub len : ℕ
  pub head : ℕ
  pub tail : ℕ
  pub send_waiters : WaitQueue
  pub recv_waiters : WaitQueue
  pub registry_prev : ℕ
  pub registry_next : ℕ

-- `struct CroutineSelectState`; the fields are written once `done` is set
pub record SelectState : Type 0 where
  pub done : Bool
  pub chosen_index : ℤ
  pub chosen_status : SelectStatus

pub record World : Type 0 where
  pub channels : ℕ → Channel
  pub channel_registry : ℕ
  pub links : Store
  pub waiters : ℕ → Waiter
  pub selects : ℕ → SelectState
  pub memory : ℕ → List ℕ
  pub sched : Scheduler

-- `failed` is the abort of `worker_fail`; `out_of_fuel` is a loop of the model that was given too
-- few rounds.
pub data Run (A : Type 0) : Type 0 where
  ok : A → World → Run A
  failed : Run A
  out_of_fuel : Run A

abbrev pub Cmd : Type 0 → Type 0
Cmd A = World → Run A

module _ {A B : Type 0} where
  abbrev pub and_then : Run A → (A → Cmd B) → Run B
  and_then (ok a w) k = k a w
  and_then failed k = failed
  and_then out_of_fuel k = out_of_fuel

  infixl 5 ◌>>=◌ ◌>>◌
  abbrev pub ◌>>=◌ : Cmd A → (A → Cmd B) → Cmd B
  ◌>>=◌ m k w = and_then (m w) k

  abbrev pub ◌>>◌ : Cmd A → Cmd B → Cmd B
  m >> k = m >>= λ _. k

module _ {A : Type 0} where
  -- Total correctness of a run: it neither aborts nor runs out of fuel, and `P` holds at its end.
  abbrev pub Returns : (A → World → Type 0) → Run A → Type 0
  Returns P (ok a w) = P a w
  Returns P failed = ⊥
  Returns P out_of_fuel = ⊥

  abbrev pub pure : A → Cmd A
  pure a w = ok a w

  abbrev pub gets : (World → A) → Cmd A
  gets f w = ok (f w) w

abbrev pub modify : (World → World) → Cmd (Unit {0})
modify f w = ok tt (f w)

abbrev pub set_channel : World → ℕ → Channel → World
set_channel w c ch = record w { channels = update w.channels c ch }

abbrev pub set_memory : World → ℕ → List ℕ → World
set_memory w p bytes = record w { memory = update w.memory p bytes }
