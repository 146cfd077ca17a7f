-- ===== src/Client/Adapter/Tests.antt =====
-- Two requests whose answers come in the other order, the second of them twice.
use cpp_gram.Common.{arith, ℕ, ◌≡◌, refl, List, [], ◌∷◌, some, none}
use cpp_gram.Client.Adapter.{Event, sent, received, handled_by, new_adapter, run_events}
use cpp_gram.Client.Adapter.Matching.{deliveries, run_events-new_adapter}

abbrev exchange : List (Event ℕ ℕ ℕ)
exchange =
    received 0 90
    ∷ handled_by 1
    ∷ sent 70 (some 2)
    ∷ sent 71 (some 3)
    ∷ received 3 91
    ∷ received 0 92
    ∷ received 3 93
    ∷ received 1 94
    ∷ received 2 95
    ∷ []

exchanged : run_events exchange (new_adapter 7) ≡ (3, 91) ∷ (1, 92) ∷ (2, 95) ∷ []
unfolding run_events new_adapter
exchanged = refl

run_events-new_adapter_example :
    run_events exchange (new_adapter 7) ≡ deliveries (none ∷ []) [] none exchange
run_events-new_adapter_example = run_events-new_adapter exchange 7 (omega arith)
