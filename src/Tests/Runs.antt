-- ===== src/Tests/Runs.antt =====
-- A run of a store at concrete inputs.
use yet_another_memory_bank.Common.{List, [], ◌∷◌}
use yet_another_memory_bank.Store.Runs.{Call, observe, add, update, supersede, forget, embed, decay}
use yet_another_memory_bank.Tests.Decay.{options}
use yet_another_memory_bank.Tests.Observations.{reading}
use yet_another_memory_bank.Tests.Store.{a_note, a_change}

abbrev a_day : List Call
a_day =
    observe (reading "h" 5000) 60
    ∷ observe (reading "h" 6000) 60
    ∷ add a_note
    ∷ add a_note
    ∷ embed 2 "m" (1 ∷ 2 ∷ [])
    ∷ update a_change
    ∷ supersede 1 2
    ∷ forget (2 ∷ [])
    ∷ decay options
    ∷ []
