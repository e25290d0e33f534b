-- ===== src/Tests/Requests.antt =====
-- Surroundings of requests, in which a body is decoded by its first byte.
pub mod Served
use yet_another_memory_bank.Common.{
  ℕ, String, Bool, true, false, Option, none, some, List, [], ◌∷◌, ◌==◌, if◌then◌else◌, Error,
}
use yet_another_memory_bank.Common.Int.{pos}
use yet_another_memory_bank.Common.Json.{null}
use yet_another_memory_bank.Codec.{Codec}
use yet_another_memory_bank.Integrations.{EventJson, ToolBody}
use yet_another_memory_bank.Mcp.Arguments.{Env, ArgumentJson, ForgetArgs, RecallArgs, World}
use yet_another_memory_bank.Server.Compaction.{CompactionOptions}
use yet_another_memory_bank.Server.Http.{BodyJson, HttpEnv, Options, Request, plain}
use yet_another_memory_bank.Tests.Hybrid.{searcher}
use yet_another_memory_bank.Tests.Observations.{padding}
use yet_another_memory_bank.Tests.Store.{two_memories}

-- "AKIA", sixteen digits, and a bracket
abbrev pub secret_text : List ℕ
secret_text =
    65 ∷ 75 ∷ 73 ∷ 65 ∷ 49 ∷ 49 ∷ 49 ∷ 49 ∷ 49 ∷ 49 ∷ 49 ∷ 49 ∷ 49 ∷ 49 ∷ 49 ∷ 49 ∷ 49 ∷ 49 ∷ 49
    ∷ 49 ∷ 93 ∷ []

abbrev pub codec : Codec
codec = record {
  zstd = padding;
  parse = λ raw. some null;
  marshal = λ v. some [];
  text = λ raw. "text";
  lower = λ c. c;
  decimal = λ n. "1";
  sha256_hex = λ raw. "hash";
}

abbrev pub events : EventJson
events = record {
  session = λ raw. some (record { session_id = "1"; cwd = "p" });
  pre_tool = λ raw. none;
  claude_tool = λ raw. some (record {
    session_id = "1";
    cwd = "p";
    tool_name = "Bash";
    tool_input = raw;
    tool_response = raw;
  });
  opencode_tool = λ raw. none;
  prompt = λ raw. none;
  chat = λ raw. none;
  event = λ raw. none;
  map_of = λ raw. none;
  pre_tool_payload = λ raw. some raw;
  tool_payload = λ input response. some input;
  prompt_payload = λ t. none;
  message_payload = λ t. none;
}

abbrev pub bodies : BodyJson
bodies = record {
  enrich = λ raw. none;
  replay = λ raw. none;
  stop = λ raw. some (record { session_id = "1"; cwd = "p"; stop_hook_active = false });
  session_id = λ raw. some "1";
}

abbrev pub forget_first : ForgetArgs
forget_first = record {
  query = "";
  project = "";
  dry_run = false;
  ids = 1 ∷ [];
  confirm = true;
  limit = pos 0;
}

abbrev pub recall_new : RecallArgs
recall_new = record { query = "new"; project = "p"; limit = pos 0 }

abbrev pub json : ArgumentJson
json = record {
  rpc = λ raw. none;
  tool_call = λ raw. none;
  uri = λ raw. none;
  prompt = λ raw. none;
  recall = λ raw. some recall_new;
  save = λ raw. none;
  by_project = λ raw. none;
  by_session = λ raw. none;
  forget = λ raw. some forget_first;
  profile = λ raw. none;
  summary = λ raw. none;
  supersede = λ raw. none;
  update = λ raw. none;
  timeline = λ raw. none;
  files = λ raw. none;
  export = λ raw. none;
  audit = λ raw. none;
  verify = λ raw. none;
}

abbrev pub mcp_env : Env
mcp_env = record {
  codec = codec;
  json = json;
  searcher = searcher;
  default_project = "p";
  now = λ k. pos 5;
  breaker_now = pos 5;
  message = λ e. "failed";
  quoted = λ s. s;
  unstable = λ items. items;
  range = λ names. names;
}

abbrev pub world : World
world = record { db = two_memories; breaker = none }

abbrev pub http_env : HttpEnv
http_env = record {
  codec = codec;
  events = events;
  bodies = bodies;
  mcp = mcp_env;
  quoted = λ s. s;
  now = pos 1000000;
  ready = true;
  probe = none;
  unmatched = λ path. record { status = 404; body = plain path };
}

abbrev pub server_options : Options
server_options = record {
  bearer_token = "token";
  dedup_window_seconds = pos 0;
  session_start_top_n = pos 0;
  compaction = record {
    mode = "";
    min_observations = pos 1;
    max_block_attempts = pos 0;
    attempt_ttl_seconds = pos 0;
    subagent_name = "";
  };
}

abbrev pub post : String → String → Request
post authorization path = record {
  method = "POST";
  path = path;
  authorization = authorization;
  body = secret_text;
}
