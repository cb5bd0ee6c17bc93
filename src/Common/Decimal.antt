-- ===== src/Common/Decimal.antt =====
-- fmt.Sprintf("%d", n) of a signed number.
use Prim.Native.Nat.{ℕ, zero, suc, ◌+◌, ◌/◌, ◌%◌}
use mathlib.Core.List.{[], ◌∷◌, ◌++◌}
use ome_kafka_bridge.Common.Tests.{ltb, if◌then◌else◌}
use ome_kafka_bridge.Common.Lists.{Bytes}
use ome_kafka_bridge.Common.Int.{ℤ, pos, negsuc}

-- The digits of a number, on fuel: a round takes one digit.
unfoldable pub digits : ℕ → ℕ → Bytes
digits zero n = []
digits (suc fuel) n =
    let more = digits fuel (n / 10) ++ (48 + n % 10) ∷ [] in
    if ltb n 10 then (48 + n) ∷ [] else more

unfoldable pub decimal : ℤ → Bytes
unfolding digits
decimal (pos n) = digits (suc n) n
decimal (negsuc n) = 45 ∷ digits (suc (suc n)) (suc n)
