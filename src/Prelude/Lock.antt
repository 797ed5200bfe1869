-- ===== src/Prelude/Lock.antt =====
-- A call that may wait for ever for a mutex which its own thread holds.
use mathlib.Core.Bool.{Bool, not, ◌&&◌}
use dex_arbitrage.Prelude.Tests.{if◌then◌else◌}

pub data Run {ℓ} (A : Type ℓ) : Type ℓ where
  done : A → Run A
  deadlock : Run A

-- `lock()` on a mutex. `relock` says whether the call returns in a thread that holds the mutex
-- already, and `held` whether this thread does.
abbrev pub lock {ℓ} : {A : Type ℓ} → (relock held : Bool) → Run A → Run A
lock relock held next = if held && not relock then deadlock else next
