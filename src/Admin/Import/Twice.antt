-- ===== src/Admin/Import/Twice.antt =====
-- internal/admin/import_jsonl.go: a second import of a transcript.
use yet_another_memory_bank.Common.{
  ℕ, suc, ◌+◌, ◌≡◌, refl, ap, ◌∙◌, inl, inr, String, Bool, true, false, Option, none, some, List,
  [], ◌∷◌, arith, if◌then◌else◌, ◌==◌, length, Bool-cases, Outcome, ok, err, Ensures-imp,
  bad_argument, Ensures-all, bad_json,
}
use yet_another_memory_bank.Common.Action.{
  ◌>>=◌, ◌>>◌, pure, proceed, require, query, gets, transact, After, After-bind, After-and,
}
use yet_another_memory_bank.Common.Int.{ℤ}
use yet_another_memory_bank.Admin.Transcript.{
  Transcripts, Members, event_id_of, parse_claude_transcript_event, observation_of,
}
use yet_another_memory_bank.Admin.Import.{
  ImportStats, LineResult, blank_line, new_event, old_event, counted, inserted_as, Transcript,
  recorded, import_new, import_event, import_raw, import_line, import_lines,
  import_claude_jsonl_file,
}
use yet_another_memory_bank.Store.Imports.{imported_event_exists}
use yet_another_memory_bank.Store.Imports.Once.{record_imported_event_lem}
use yet_another_memory_bank.Store.Observations.{ObservationInput, insert_observation}
use yet_another_memory_bank.Store.Rows.{Db}
use yet_another_memory_bank.Admin.Import.Kept.{
  Exists, import_lines-Keeps, RecordedEvent, RecordedEvent-Keeps,
}

-- how many events a result stands for
abbrev weight : LineResult → ℕ
weight blank_line = 0
weight new_event = 1
weight old_event = 1

inserted_as-weight : (b : Bool) → weight (inserted_as b) ≡ 1
inserted_as-weight true = refl
inserted_as-weight false = refl

weight-counted :
    (s : ImportStats) (r : LineResult)
    → let s' = counted s r in
      (s'.files ≡ s.files) × (s'.imported + s'.skipped ≡ s.imported + s.skipped + weight r)
unfolding counted
weight-counted s blank_line = (refl, omega arith)
weight-counted s new_event = (refl, omega arith)
weight-counted s old_event = (refl, omega arith)

-- the number of the lines that are not blank
unfoldable pub events_in : Transcripts → List (List ℕ) → ℕ
events_in e [] = 0
events_in e (bytes ∷ rest) =
    if length (e.trimmed bytes) == 0 then events_in e rest else suc (events_in e rest)

module _ (e : Transcripts) (project : String) where
  abbrev id_of : Option Members → ℕ → Option String
  id_of none line = none
  id_of (some obj) line = some (event_id_of e obj line)

  abbrev Seen : String → ℕ → List ℕ → Db → Type 0
  Seen path line bytes =
      RecordedEvent (length (e.trimmed bytes) == 0) (id_of (e.members (e.trimmed bytes)) line) path

  abbrev AllSeen : String → ℕ → List (List ℕ) → Db → Type 0
  AllSeen path line [] db = Unit
  AllSeen path line (bytes ∷ rest) db = Seen path line bytes db × AllSeen path (suc line) rest db

  import_event-Exists :
      (at : ℤ) (path : String) (event : ObservationInput × String) (db : Db)
      → After
          (λ r db'. (weight r ≡ 1) × Exists path event.1 db')
          (import_event e project at path event db)
  unfolding import_event import_new recorded gets ◌>>=◌ pure
  import_event-Exists at path event db = elim (Bool-cases (imported_event_exists db path event.1)) [
    | inl h ↦ rw h (refl, h)
    | inr h ↦ rw h (
        After-bind (λ a s. Unit {0}) (λ r db'. (weight r ≡ 1) × Exists path event.1 db')
          (transact λ d. insert_observation e.zstd d event.0 0) _ db
          (Ensures-all (λ _. Unit {0}) (transact (λ d. insert_observation e.zstd d event.0 0) db).0
            (λ _. tt))
          λ inserted d u. (inserted_as-weight _, (record_imported_event_lem d path event.1 at).1))
  ]

  -- what an object comes to
  abbrev event_from : ℤ → String → ℕ → List ℕ → Option Members → Outcome (ObservationInput × String)
  event_from at path line bytes o = elim o [
    | none ↦ err bad_json
    | some obj ↦
        let event_id = event_id_of e obj line in
        ok (observation_of e (e.trimmed bytes) obj event_id path project at, event_id)
  ]

  import_line-Seen :
      (at : ℤ) (path : String) (line : ℕ) (bytes : List ℕ) (db : Db)
      → After
          (λ r db'. (weight r ≡ events_in e (bytes ∷ [])) × Seen path line bytes db')
          (import_line e project at path line bytes db)
  unfolding import_line import_raw events_in query ◌>>=◌ pure parse_claude_transcript_event
  import_line-Seen at path line bytes db = elim (Bool-cases (length (e.trimmed bytes) == 0)) [
    | inl h ↦ rw h (refl, tt)
    | inr h ↦ rw h (raw (e.members (e.trimmed bytes)))
  ]
    where
      raw :
          (o : Option Members)
          → After
              (λ r db'. (weight r ≡ 1) × RecordedEvent false (id_of o line) path db')
              (proceed
                (λ event. import_event e project at path event)
                (event_from at path line bytes o)
                db)
      raw none = tt
      raw (some obj) = import_event-Exists at path _ db

  events_in-cons :
      (bytes : List ℕ) (rest : List (List ℕ))
      → events_in e (bytes ∷ rest) ≡ events_in e (bytes ∷ []) + events_in e rest
  unfolding events_in
  events_in-cons bytes rest = elim (Bool-cases (length (e.trimmed bytes) == 0)) [
    | inl h ↦ rw h (omega arith)
    | inr h ↦ rw h (omega arith)
  ]

  -- What an import of the lines has counted, and what it leaves.
  abbrev Imported : Transcript → ℕ → List (List ℕ) → ImportStats → ImportStats → Db → Type 0
  Imported t line lines stats s db =
      (s.files ≡ stats.files)
      × (s.imported + s.skipped ≡ stats.imported + stats.skipped + events_in e lines)
      × (t.complete ≡ true)
      × AllSeen t.path line lines db

  import_lines-Seen :
      (at : ℤ) (t : Transcript) (line : ℕ) (lines : List (List ℕ)) (stats : ImportStats) (db : Db)
      → After (Imported t line lines stats) (import_lines e project at t line lines stats db)
  unfolding import_lines events_in require pure ◌>>◌ ◌>>=◌
  import_lines-Seen at t line [] stats db = end t.complete
    where
      end :
          (complete : Bool)
          → After
              (λ s db'.
                (s.files ≡ stats.files)
                × (s.imported + s.skipped ≡ stats.imported + stats.skipped + 0)
                × (complete ≡ true)
                × Unit {0})
              ((require complete bad_argument >> pure stats) db)
      end true = (refl, omega arith, refl, tt)
      end false = tt
  import_lines-Seen at t line (bytes ∷ rest) stats db =
      After-bind (λ r db'. (weight r ≡ events_in e (bytes ∷ [])) × Seen t.path line bytes db')
        (Imported t line (bytes ∷ rest) stats) (import_line e project at t.path line bytes) _ db
        (import_line-Seen at t.path line bytes db)
        λ r db' q.
          let run = import_lines e project at t (suc line) rest (counted stats r) db' in
          Ensures-imp
            (λ s.
              Seen t.path line bytes run.1 × Imported t (suc line) rest (counted stats r) s run.1)
            (λ s. Imported t line (bytes ∷ rest) stats s run.1) run.0
            (λ s k.
              let c = weight-counted stats r in
              let n = events_in-cons bytes rest in
              let w = k.1.1 in (k.1.0 ∙ c.0, omega arith, k.1.2, (k.0, k.1.3)))
            (After-and (Seen t.path line bytes) (Imported t (suc line) rest (counted stats r)) run.0
              run.1
              ((RecordedEvent-Keeps _ t.path
                  (λ id.
                    import_lines-Keeps e project at t.path id t (suc line) rest (counted stats r))
                  _ _).apply
                db' q.1)
              (import_lines-Seen at t (suc line) rest (counted stats r) db'))

  import_line-again :
      (at : ℤ) (path : String) (line : ℕ) (bytes : List ℕ) (db : Db)
      → Seen path line bytes db
      → import_line e project at path line bytes db
        ≡ (ok (if length (e.trimmed bytes) == 0 then blank_line else old_event), db)
  unfolding import_line import_raw import_event query gets ◌>>=◌ pure parse_claude_transcript_event
  import_line-again at path line bytes db v = again _ (e.members (e.trimmed bytes)) v
    where
      again :
          (b : Bool) (o : Option Members)
          → RecordedEvent b (id_of o line) path db
          → (if b then pure blank_line else λ d.
                proceed
                  (λ event. import_event e project at path event)
                  (event_from at path line bytes o)
                  d)
              db
            ≡ (ok (if b then blank_line else old_event), db)
      again true o v = refl
      again false none v = ground (arith, v)
      again false (some obj) v = rw v refl

  import_lines-again :
      (at : ℤ) (t : Transcript) (line : ℕ) (lines : List (List ℕ)) (stats : ImportStats) (db : Db)
      → t.complete ≡ true
      → AllSeen t.path line lines db
      → import_lines e project at t line lines stats db
        ≡ (ok (record stats { skipped = stats.skipped + events_in e lines }), db)
  unfolding import_lines ◌>>=◌ ◌>>◌ pure require events_in counted
  import_lines-again at t line [] stats db c v =
      rw c (ap {A = ℕ} (λ n. (ok (record stats { skipped = n }), db)) (omega arith))
  import_lines-again at t line (bytes ∷ rest) stats db c v =
      rw (import_line-again at t.path line bytes db v.0) (
        again (length (e.trimmed bytes) == 0)
          λ s. import_lines-again at t (suc line) rest s db c v.1)
    where
      again :
          (b : Bool)
          → ((s : ImportStats)
              → import_lines e project at t (suc line) rest s db
                ≡ (ok (record s { skipped = s.skipped + events_in e rest }), db))
          → import_lines e project at t
              (suc line)
              rest
              (counted stats (if b then blank_line else old_event))
              db
            ≡ (
              ok (record stats {
                skipped = stats.skipped + (if b then events_in e rest else suc (events_in e rest));
              }),
              db,
            )
      again true k = k stats
      again false k =
          k (counted stats old_event)
          ∙ ap {A = ℕ} (λ n. (ok (record stats { skipped = n }), db)) (omega arith)

-- After an import that succeeds has counted each line that is not blank as imported or as skipped, and a
-- second import of the same lines at any time, for any project, skips them all and changes nothing.
pub import_claude_jsonl_file-twice :
    (e : Transcripts) (project project' : String) (at at' : ℤ) (t : Transcript) (db : Db)
    → After
        (λ stats db'.
          (stats.imported + stats.skipped ≡ events_in e t.lines)
          × (import_claude_jsonl_file e project' at' t db'
              ≡ (ok (record { files = 1; imported = 0; skipped = events_in e t.lines }), db')))
        (import_claude_jsonl_file e project at t db)
unfolding import_claude_jsonl_file
import_claude_jsonl_file-twice e project project' at at' t db =
    let start : ImportStats = record { files = 1; imported = 0; skipped = 0 } in
    let run = import_claude_jsonl_file e project at t db in
    Ensures-imp (λ s. Imported e project t 1 t.lines start s run.1) _ run.0
      (λ s k. (
        let n = k.1 in omega arith,
        import_lines-again e project' at' t 1 t.lines start run.1 k.2 k.3
            ∙ ap {A = ℕ} (λ n. (ok (record { files = 1; imported = 0; skipped = n }), run.1))
                (omega arith),
      ))
      (import_lines-Seen e project at t 1 t.lines start db)
