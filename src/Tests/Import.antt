-- ===== src/Tests/Import.antt =====
-- The import of a transcript at a concrete input.
use yet_another_memory_bank.Common.{
  ◌≡◌, refl, ◌+◌, true, some, none, [], ◌∷◌, ◌==◌, length, if◌then◌else◌, ok,
}
use yet_another_memory_bank.Common.Action.{After, ◌>>=◌, ◌>>◌, query, gets, pure, transact, require}
use yet_another_memory_bank.Common.Int.{pos, ◌-ℤ◌}
use yet_another_memory_bank.Admin.Import.{Transcript, import_claude_jsonl_file}
use yet_another_memory_bank.Admin.Import.Twice.{events_in, import_claude_jsonl_file-twice}
use yet_another_memory_bank.Admin.Transcript.{Transcripts, parse_claude_transcript_event}
use yet_another_memory_bank.Common.Texts.{trim_suffix}
use yet_another_memory_bank.Store.Imports.{imported_event_exists, record_imported_event}
use yet_another_memory_bank.Store.Observations.{
  insert_observation, is_duplicate, append_observation, new_observation, count_up,
}
use yet_another_memory_bank.Store.Sessions.{ensure_session}
use yet_another_memory_bank.Store.Runs.{new_db}
use yet_another_memory_bank.Tests.Observations.{padding}

-- Each line is an object with a uuid, which is told from its length.
abbrev pub plain : Transcripts
plain = record {
  zstd = padding;
  members = λ raw. some (("uuid", raw) ∷ []);
  text = λ raw. some (if length raw == 1 then "a" else "b");
  number = λ raw. none;
  int64 = λ raw. none;
  float64 = λ raw. none;
  content = λ raw. none;
  blocks = λ raw. none;
  parse_int = λ s. none;
  parse_time = λ s. none;
  trimmed = λ raw. raw;
  base = λ path. path;
  ext = λ path. ".jsonl";
  bytes = λ s. [];
  decimal = λ n. "1";
  sha256_hex = λ bytes. "00";
  lower = λ c. c;
}

-- two events and a blank line
abbrev pub log : Transcript
log = record {
  path = "log.jsonl";
  lines = (123 ∷ []) ∷ [] ∷ (123 ∷ 125 ∷ []) ∷ [];
  complete = true;
}

imported_once :
    (import_claude_jsonl_file plain "p" (pos 5) log (new_db true)).0
    ≡ ok (record { files = 1; imported = 2; skipped = 0 })
unfolding import_claude_jsonl_file ◌>>=◌ ◌>>◌ query gets pure transact require imported_event_exists
    record_imported_event insert_observation ensure_session is_duplicate append_observation
    new_observation count_up trim_suffix parse_claude_transcript_event ◌-ℤ◌
imported_once = refl

import_claude_jsonl_file-twice_example :
    After
      (λ stats db.
        (stats.imported + stats.skipped ≡ events_in plain log.lines)
        × (import_claude_jsonl_file plain "q" (pos 9) log db
            ≡ (ok (record { files = 1; imported = 0; skipped = events_in plain log.lines }), db)))
      (import_claude_jsonl_file plain "p" (pos 5) log (new_db true))
import_claude_jsonl_file-twice_example =
    import_claude_jsonl_file-twice plain "p" "q" (pos 5) (pos 9) log (new_db true)
