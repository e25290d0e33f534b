-- ===== src/Admin/Import/Calls.antt =====
-- internal/admin/import_jsonl.go: what an import keeps of the store.
use yet_another_memory_bank.Common.{
  ℕ, suc, String, Option, none, some, List, [], ◌∷◌, Outcome, ok, err, bad_json, Ensures,
}
use yet_another_memory_bank.Common.Action.{
  Action, transact, Keeps, keeps, Keeps-transact, Keeps-bind, Keeps-raise, Keeps-pure, query,
  proceed, ◌>>=◌,
}
use yet_another_memory_bank.Common.Int.{ℤ}
use yet_another_memory_bank.Admin.Transcript.{
  Transcripts, Members, event_id_of, observation_of, parse_claude_transcript_event,
}
use yet_another_memory_bank.Admin.Import.{
  ImportStats, Transcript, counted, recorded, import_new, import_event, import_raw, import_line,
  import_lines, import_claude_jsonl_file, import_paths, import_roots,
}
use yet_another_memory_bank.Secrets.Calls.{IsRedacted}
use yet_another_memory_bank.Secrets.Clean.{HasNoSecret, redact-HasNoSecret}
use yet_another_memory_bank.Store.Decay.{DecayOps}
use yet_another_memory_bank.Store.Observations.{ObservationInput, insert_observation}
use yet_another_memory_bank.Store.Rows.{Db}
use yet_another_memory_bank.Store.Runs.{Call, perform, observe, imported}

parse_claude_transcript_event-HasNoSecret :
    (e : Transcripts) (raw : List ℕ) (path : String) (line : ℕ) (project : String) (fallback : ℤ)
    → Ensures
        (λ event. HasNoSecret event.0.payload_json)
        (parse_claude_transcript_event e raw path line project fallback)
unfolding parse_claude_transcript_event observation_of
parse_claude_transcript_event-HasNoSecret e raw path line project fallback = go (e.members raw)
  where
    go :
        (o : Option Members)
        → Ensures
            (λ (event : ObservationInput × String). HasNoSecret event.0.payload_json)
            (elim o [
              | none ↦ err bad_json
              | some obj ↦
                  let event_id = event_id_of e obj line in
                  ok (observation_of e raw obj event_id path project fallback, event_id)
            ])
    go none = tt
    go (some obj) = redact-HasNoSecret raw

module _ {ℓ} (e : Transcripts) (project : String) (fl : DecayOps) (P : Db → Type ℓ)
    (kept : (db : Db) (c : Call) → IsRedacted c → P db → P (perform e.zstd fl db c)) where
  recorded-Keeps : (path id : String) (at : ℤ) → Keeps P (recorded path id at)
  unfolding recorded perform
  recorded-Keeps path id at = record { apply = λ db v. kept db (imported path id at) tt v }

  observed-Keeps :
      (input : ObservationInput)
      → HasNoSecret input.payload_json
      → Keeps P (transact λ db. insert_observation e.zstd db input 0)
  unfolding perform
  observed-Keeps input h = Keeps-transact _ (λ db v. kept db (observe input 0) h v)

  import_event-Keeps :
      (at : ℤ) (path : String) (event : ObservationInput × String)
      → HasNoSecret event.0.payload_json
      → Keeps P (import_event e project at path event)
  unfolding import_event import_new
  import_event-Keeps at path event h = search (keeps, observed-Keeps, recorded-Keeps, h)

  -- what follows an event without secrets
  continued-keeps :
      {A : Type 0} (f : ObservationInput × String → Action Db A)
      → ((event : ObservationInput × String) → HasNoSecret event.0.payload_json → Keeps P (f event))
      → (o : Outcome (ObservationInput × String)) (db : Db)
      → Ensures (λ event. HasNoSecret event.0.payload_json) o
      → P db
      → P (proceed f o db).1
  continued-keeps f k (ok event) db h v = (k event h).apply db v
  continued-keeps f k (err x) db h v = v

  import_raw-Keeps :
      (at : ℤ) (path : String) (line : ℕ) (raw : List ℕ)
      → Keeps P (import_raw e project at path line raw)
  unfolding import_raw query ◌>>=◌
  import_raw-Keeps at path line raw = record {
    apply = λ db v.
        continued-keeps (λ event. import_event e project at path event)
          (λ event h. import_event-Keeps at path event h)
          (parse_claude_transcript_event e raw path line project at) db
          (parse_claude_transcript_event-HasNoSecret e raw path line project at) v;
  }

  import_line-Keeps :
      (at : ℤ) (path : String) (line : ℕ) (bytes : List ℕ)
      → Keeps P (import_line e project at path line bytes)
  unfolding import_line
  import_line-Keeps at path line bytes = search (keeps, import_raw-Keeps)

  import_lines-Keeps :
      (at : ℤ) (t : Transcript) (line : ℕ) (lines : List (List ℕ)) (stats : ImportStats)
      → Keeps P (import_lines e project at t line lines stats)
  unfolding import_lines
  import_lines-Keeps at t line [] stats = search keeps
  import_lines-Keeps at t line (bytes ∷ rest) stats =
      Keeps-bind (import_line-Keeps at t.path line bytes)
        (λ r. import_lines-Keeps at t (suc line) rest (counted stats r))

  import_paths-Keeps :
      (paths : List (Option Transcript × ℤ)) (total : ImportStats)
      → Keeps P (import_paths e project paths total)
  unfolding import_paths import_claude_jsonl_file
  import_paths-Keeps [] total = Keeps-pure _
  import_paths-Keeps ((none, at) ∷ paths) total = Keeps-raise _
  import_paths-Keeps ((some t, at) ∷ paths) total =
      Keeps-bind (import_lines-Keeps at t 1 t.lines _) (λ stats. import_paths-Keeps paths _)

  pub import_roots-Keeps :
      (roots : List (Option (List (Option Transcript × ℤ)))) (total : ImportStats)
      → Keeps P (import_roots e project roots total)
  unfolding import_roots
  import_roots-Keeps [] total = Keeps-pure _
  import_roots-Keeps (none ∷ roots) total = Keeps-raise _
  import_roots-Keeps (some paths ∷ roots) total =
      Keeps-bind (import_paths-Keeps paths total) (λ stats. import_roots-Keeps roots stats)
