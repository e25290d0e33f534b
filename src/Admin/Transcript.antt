-- ===== src/Admin/Transcript.antt =====
-- internal/admin/import_jsonl.go: the events of an agent's transcript, as observations.
use Prim.Native.Char.{Char, code}
use Prim.Native.String.{◌++◌ as append_text}
use yet_another_memory_bank.Common.{
  ℕ, ◌*◌, String, ◌&&◌, ◌||◌, not, Option, none, some, List, [], ◌∷◌, if◌then◌else◌, ◌==◌, str_eq,
  blank, or_text, length, Outcome, ok, err, bad_json,
}
use yet_another_memory_bank.Common.Int.{ℤ, pos, lt_ℤ}
use yet_another_memory_bank.Common.Texts.{contains, to_lower, trim_suffix}
use yet_another_memory_bank.Secrets.{redact}
use yet_another_memory_bank.Store.Observations.{Zstd, ObservationInput}

pub record ContentBlock : Type 0 where
  pub kind : String
  pub name : String

-- The map of a JSON object: its keys, each once, with their json.RawMessage.
abbrev pub Members : Type 0
Members = List (String × List ℕ)

-- What the import uses of Go's libraries: json.Unmarshal into a map, a string, a json.Number, an int64,
-- a float64 (which is converted to an int64), a message with its content, and blocks; strconv.ParseInt, time.Parse
-- with UnixMilli, bytes.TrimSpace, filepath.Base and filepath.Ext, the conversion of a text to bytes, the verb
-- %d, sha256 in hexadecimal digits, and unicode.ToLower.
pub record Transcripts : Type 0 where
  pub zstd : Zstd
  pub members : List ℕ → Option Members
  pub text : List ℕ → Option String
  pub number : List ℕ → Option String
  pub int64 : List ℕ → Option ℤ
  pub float64 : List ℕ → Option ℤ
  pub content : List ℕ → Option (List ℕ)
  pub blocks : List ℕ → Option (List ContentBlock)
  pub parse_int : String → Option ℤ
  pub parse_time : String → Option ℤ
  pub trimmed : List ℕ → List ℕ
  pub base : String → String
  pub ext : String → String
  pub bytes : String → List ℕ
  pub decimal : ℕ → String
  pub sha256_hex : List ℕ → String
  pub lower : Char → Char

unfoldable pub normalize_jsonl_unix : ℤ → ℤ
normalize_jsonl_unix (pos n) =
    if lt_ℤ (pos 0) (pos n) && lt_ℤ (pos n) (pos 1000000000000) then pos (n * 1000) else pos n
normalize_jsonl_unix value = value

-- obj[key]
abbrev pub member : String → Members → Option (List ℕ)
member key [] = none
member key ((k, raw) ∷ rest) = if str_eq k key then some raw else member key rest

-- a value, or what another attempt gives
abbrev pub or_next : {A : Type 0} → Option A → Option A → Option A
or_next (some a) o = some a
or_next none o = o

-- strings.ReplaceAll(s, "-", "_")
unfoldable pub underscored : String → String
underscored String.[] = ""
underscored (String.◌∷◌ c s) =
    append_text (if code c == 45 then "_" else String.◌∷◌ c "") (underscored s)

-- the types that are not empty
abbrev pub types_of : List ContentBlock → List String
types_of [] = []
types_of (b ∷ bs) = if blank b.kind then types_of bs else b.kind ∷ types_of bs

-- the loop over the types
abbrev pub tool_kind : List String → Option String
tool_kind [] = none
tool_kind (t ∷ ts) =
    if str_eq t "tool_use"
    then some "tool_use"
    else if str_eq t "tool_result"
    then some "tool_result"
    else tool_kind ts

-- the cases of the switch
unfoldable pub kind_of_type : String → String
kind_of_type typ =
    if str_eq typ "user"
    then "user_message"
    else if str_eq typ "assistant"
    then "assistant_message"
    else if str_eq typ "summary"
    then "summary"
    else if str_eq typ "tool_response" || str_eq typ "tool_result"
    then "tool_result"
    else if str_eq typ "tool_use" || str_eq typ "tool"
    then "tool_use"
    else if contains typ "tool" && contains typ "error"
    then "tool_error"
    else if contains typ "subagent" && contains typ "start"
    then "subagent_start"
    else if contains typ "subagent" && contains typ "stop"
    then "subagent_stop"
    else if not (blank typ)
    then typ
    else "transcript_event"

abbrev pub first_tool : List ContentBlock → String
first_tool [] = ""
first_tool (b ∷ bs) =
    if str_eq b.kind "tool_use" && not (blank b.name) then b.name else first_tool bs

abbrev pub of_number : Option ℤ → Option ℤ
of_number none = none
of_number (some n) = some (normalize_jsonl_unix n)

module _ (e : Transcripts) where
  -- the text of a member that is there
  abbrev pub text_of : Option (List ℕ) → Option String
  text_of none = none
  text_of (some raw) = or_next (e.text raw) (e.number raw)

  unfoldable pub first_jsonl_string : Members → List String → String
  first_jsonl_string obj [] = ""
  first_jsonl_string obj (key ∷ keys) = elim (text_of (member key obj)) [
    | some s ↦ s
    | none ↦ first_jsonl_string obj keys
  ]

  unfoldable pub parse_jsonl_timestamp_string : String → Option ℤ
  unfolding normalize_jsonl_unix
  parse_jsonl_timestamp_string value = if blank value then none else (elim (e.parse_int value) [
    | some ts ↦ some (normalize_jsonl_unix ts)
    | none ↦ e.parse_time value
  ])

  abbrev pub of_text : Option String → Option ℤ
  of_text none = none
  of_text (some s) = parse_jsonl_timestamp_string s

  -- the time of a member that is there
  unfoldable pub timestamp_of : Option (List ℕ) → Option ℤ
  unfolding parse_jsonl_timestamp_string
  timestamp_of none = none
  timestamp_of (some raw) =
      or_next (of_text (e.text raw)) (or_next (of_number (e.int64 raw)) (of_number (e.float64 raw)))

  unfoldable pub first_jsonl_timestamp : Members → ℤ → List String → ℤ
  unfolding timestamp_of
  first_jsonl_timestamp obj fallback [] = fallback
  first_jsonl_timestamp obj fallback (key ∷ keys) = elim (timestamp_of (member key obj)) [
    | some ts ↦ ts
    | none ↦ first_jsonl_timestamp obj fallback keys
  ]

  abbrev pub blocks_of : Option (List ℕ) → List ContentBlock
  blocks_of none = []
  blocks_of (some raw) =
      if length raw == 0 then [] else (elim (e.blocks raw) [ none ↦ [] | some bs ↦ bs ])

  unfoldable pub claude_content_blocks : Members → List ContentBlock
  claude_content_blocks obj = elim (member "message" obj) [
    | none ↦ []
    | some message ↦ blocks_of (e.content message)
  ]

  unfoldable pub claude_transcript_kind : Members → String
  unfolding claude_content_blocks kind_of_type first_jsonl_string underscored
  claude_transcript_kind obj = elim (tool_kind (types_of (claude_content_blocks obj))) [
    | some kind ↦ kind
    | none ↦ kind_of_type (
        underscored
          (to_lower e.lower (first_jsonl_string obj ("type" ∷ "event_type" ∷ "eventType" ∷ []))))
  ]

  unfoldable pub infer_claude_tool_name : Members → String
  unfolding claude_content_blocks
  infer_claude_tool_name obj = first_tool (claude_content_blocks obj)

  -- filepath.Base(path) without its extension
  abbrev pub stem : String → String
  stem path = trim_suffix (e.base path) (e.ext path)

  unfoldable pub import_event_hash : String → String → String
  import_event_hash path event_id =
      append_text "import:" (e.sha256_hex (e.bytes (append_text path (append_text "\0" event_id))))

  unfoldable pub event_id_of : Members → ℕ → String
  unfolding first_jsonl_string
  event_id_of obj line =
      or_text (first_jsonl_string obj ("uuid" ∷ "id" ∷ "event_id" ∷ "eventId" ∷ []))
        (append_text "line:" (e.decimal line))

  unfoldable pub observation_of : List ℕ → Members → String → String → String → ℤ → ObservationInput
  unfolding first_jsonl_string first_jsonl_timestamp claude_transcript_kind infer_claude_tool_name
      import_event_hash
  observation_of raw obj event_id path project fallback = record {
    agent = "claude-code";
    external_session_id =
        or_text (first_jsonl_string obj ("sessionId" ∷ "session_id" ∷ [])) (stem path);
    cwd = or_text (first_jsonl_string obj ("cwd" ∷ "project" ∷ [])) project;
    ts = first_jsonl_timestamp obj fallback ("timestamp" ∷ "created_at" ∷ "createdAt" ∷ []);
    kind = claude_transcript_kind obj;
    tool =
        or_text (first_jsonl_string obj ("tool_name" ∷ "toolName" ∷ "tool" ∷ "name" ∷ []))
          (infer_claude_tool_name obj);
    payload_json = redact raw;
    hash = import_event_hash path event_id;
  }

  unfoldable pub parse_claude_transcript_event :
      List ℕ → String → ℕ → String → ℤ → Outcome (ObservationInput × String)
  unfolding event_id_of observation_of
  parse_claude_transcript_event raw path line project fallback = elim (e.members raw) [
    | none ↦ err bad_json
    | some obj ↦
        let event_id = event_id_of obj line in
        ok (observation_of raw obj event_id path project fallback, event_id)
  ]
