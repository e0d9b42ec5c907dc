-- ===== src/Examples/Updates.antt =====
-- Updates of two symbols through the gate.
use borsa.Monotonic.{reap}
use borsa.Prelude.Maps.{get, insert, remove}
use borsa.Prelude.{string_eq, ◌≡◌, refl, List, [], ◌∷◌, String}
use borsa.Monotonic.InOrder.{
  GateCall, update, reset, reaped, admitted, running_latest, mark_of, admitted-running_latest,
}

abbrev calls : List GateCall
calls =
    update "A" 5 100
    ∷ update "B" 1 101
    ∷ update "A" 4 102
    ∷ update "A" 5 103
    ∷ reset ("A" ∷ [])
    ∷ update "A" 2 104
    ∷ update "A" 1 200
    ∷ reaped 86_400_000_000_150
    ∷ update "A" 1 86_400_000_000_160
    ∷ reaped 172_800_000_000_161
    ∷ update "A" 1 172_800_000_000_170
    ∷ []

admitted_of_a : admitted "A" [] calls ≡ 5 ∷ 5 ∷ 2 ∷ 1 ∷ []
unfolding admitted reap get insert remove
admitted_of_a = refl

admitted-running_latest_example :
    admitted "A" [] calls ≡ running_latest "A" (mark_of (get {K = String} [] "A")) calls
admitted-running_latest_example = admitted-running_latest "A" [] calls tt
