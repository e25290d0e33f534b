-- ===== src/Replay.antt =====
-- internal/replay/replay.go: the records of a session's observations.
use yet_another_memory_bank.Common.{
  ℕ, String, ◌||◌, not, none, some, List, [], ◌∷◌, if◌then◌else◌, str_eq, blank,
}
use yet_another_memory_bank.Common.Int.{ℤ}
use yet_another_memory_bank.Common.Json.{Value, string}
use yet_another_memory_bank.Common.Texts.{is_space, contains, take_runes}
use Prim.Native.String.{◌++◌ as append_text}
use yet_another_memory_bank.Codec.{Codec}
use yet_another_memory_bank.Secrets.{redact}
use yet_another_memory_bank.Store.Observations.{Observation}
use yet_another_memory_bank.Store.Text.{fields, join}

pub record ReplayRecord : Type 0 where
  pub id : String
  pub observation_id : ℕ
  pub timestamp : ℤ
  pub actor : String
  pub type : String
  pub tool : String
  pub payload_preview : String
  pub payload_detail : Value

unfoldable pub actor : String → String → String
actor kind tool =
    if str_eq kind "user_message"
    then "user"
    else if str_eq kind "assistant_message" || str_eq kind "summary"
    then "assistant"
    else if not (blank tool) || contains kind "tool"
    then "tool"
    else "system"

unfoldable pub preview : String → ℕ → String
unfolding take_runes
preview payload max_runes = take_runes max_runes (join (fields (λ c. not (is_space c)) payload))

-- json.Unmarshal, or the text itself where it is no JSON
abbrev pub parsed_or_text : Codec → List ℕ → Value
parsed_or_text c payload = elim (c.parse payload) [ none ↦ string (c.text payload) | some v ↦ v ]

unfoldable pub record_of : Codec → Observation → ReplayRecord
unfolding actor preview
record_of c obs =
    let payload = redact obs.payload_json in
    record {
      id = append_text "observation:" (c.decimal obs.id);
      observation_id = obs.id;
      timestamp = obs.ts;
      actor = actor obs.kind obs.tool;
      type = obs.kind;
      tool = obs.tool;
      payload_preview = preview (c.text payload) 240;
      payload_detail = parsed_or_text c payload;
    }

unfoldable pub records : Codec → List Observation → List ReplayRecord
unfolding record_of
records c [] = []
records c (o ∷ observations) = record_of c o ∷ records c observations
