-- ===== src/Server/Compaction/Captured.antt =====
-- What observations that are inserted between requests of compaction leave as it is.
use yet_another_memory_bank.Common.{
  ℕ, ◌≡◌, refl, ap, ◌∙◌, List, [], ◌∷◌, Ensures-imp, committed, database, committed-database,
}
use yet_another_memory_bank.Store.Rows.{Db}
use yet_another_memory_bank.Store.Observations.{Zstd, ObservationInput, insert_observation}
use yet_another_memory_bank.Store.Observations.Frame.{OnlyCaptured, insert_observation-OnlyCaptured}

-- InsertObservation, which leaves the database as it is where it fails.
abbrev pub captured : Zstd → Db → List (ObservationInput × ℕ) → Db
captured z db [] = db
captured z db ((input, window) ∷ inputs) =
    captured z (committed db (database (insert_observation z db input window))) inputs

pub captured-attempts :
    (z : Zstd) (inputs : List (ObservationInput × ℕ)) (db : Db)
    → (captured z db inputs).attempts ≡ db.attempts
captured-attempts z [] db = refl
captured-attempts z ((input, window) ∷ inputs) db =
    captured-attempts z inputs _
    ∙ committed-database (λ (db' : Db). db'.attempts ≡ db.attempts) db
        (insert_observation z db input window) refl
        (Ensures-imp (λ r. OnlyCaptured db r.1) (λ r. r.1.attempts ≡ db.attempts)
          (insert_observation z db input window) (λ r e. ap (λ (d : Db). d.attempts) e)
          (insert_observation-OnlyCaptured z db input window))
