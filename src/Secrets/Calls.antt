-- ===== src/Secrets/Calls.antt =====
-- The calls of the store's methods that store no secret.
use yet_another_memory_bank.Secrets.Clean.{HasNoSecret}
use yet_another_memory_bank.Store.Runs.{Call, observe}

-- No payload that the call stores has a secret.
abbrev pub IsRedacted : Call → Type 0
IsRedacted (observe input window) = HasNoSecret input.payload_json
IsRedacted _ = Unit
