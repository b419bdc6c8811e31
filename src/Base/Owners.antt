-- ===== src/Base/Owners.antt =====
-- A lock that one thread at a time owns.
use Prim.Native.Nat.{ℕ}
use mathlib.Core.Path.{◌≡◌}
use mathlib.Core.Logic.{◌≢◌}
use mathlib.Core.Bool.{false}
use mathlib.Core.Option.{Option, none, some}
use native.Mathlib.Omega.{arith}
use libult.Base.Tests.{◌==◌}

-- Of two threads one owns the lock at most.
pub two_owners : (lock : Option ℕ) (t u : ℕ) → lock ≡ some t → lock ≡ some u → ¬ ((t == u) ≡ false)
two_owners l t u e f ne = ground arith

pub not_free : (lock : Option ℕ) (u : ℕ) → lock ≡ none → lock ≢ some u
not_free l u e f = ground arith
