-- ===== src/Server/Http.antt =====
-- internal/server/server.go: the requests, the options, and what the handlers share.
pub mod Handlers
pub mod Routes
pub mod Keeps
pub mod Runs
pub mod Auth
pub mod Captured
use Prim.Native.String.{◌++◌ as append_text}
use yet_another_memory_bank.Common.{
  ℕ, String, Bool, true, false, ◌&&◌, not, Option, List, if◌then◌else◌, str_eq, ltb, blank, length,
  Error, Outcome, ok, err, bad_request, method_not_allowed,
}
use yet_another_memory_bank.Common.Action.{Action, ◌>>=◌, ◌>>◌, pure, raise, require, query}
use yet_another_memory_bank.Common.Int.{ℤ, pos, or_default}
use yet_another_memory_bank.Common.Json.{Value}
use yet_another_memory_bank.Codec.{Codec}
use yet_another_memory_bank.Integrations.{EventJson, SessionBody}
use yet_another_memory_bank.Mcp.Arguments.{Env}
use yet_another_memory_bank.Mcp.Rpc.{RpcResponse}
use yet_another_memory_bank.Server.Compaction.{CompactionOptions, normalize_compaction}
use yet_another_memory_bank.Store.Rows.{Db}

-- A request, with the bytes of its body.
pub record Request : Type 0 where
  pub method : String
  pub path : String
  pub authorization : String
  pub body : List ℕ

pub data Body : Type 0 where
  empty : Body
  -- what http.Error writes
  plain : String → Body
  json : Value → Body
  rpc : RpcResponse → Body

pub record Response : Type 0 where
  pub status : ℕ
  pub body : Body

pub record Options : Type 0 where
  pub bearer_token : String
  pub dedup_window_seconds : ℤ
  pub session_start_top_n : ℤ
  pub compaction : CompactionOptions

-- the defaults of `NewWithOptions`
unfoldable pub with_defaults : Options → Options
with_defaults opts = record opts {
  dedup_window_seconds = pos (or_default opts.dedup_window_seconds 300);
  session_start_top_n = pos (or_default opts.session_start_top_n 8);
  compaction = normalize_compaction opts.compaction;
}

-- The structs of the handlers that have more than a session and a directory.
pub record EnrichBody : Type 0 where
  pub session_id : String
  pub cwd : String
  pub files : List String

pub record ReplayBody : Type 0 where
  pub session_id : String
  pub limit : ℤ

pub record StopBody : Type 0 where
  pub session_id : String
  pub cwd : String
  pub stop_hook_active : Bool

-- json.Unmarshal into each of them
pub record BodyJson : Type 0 where
  pub enrich : List ℕ → Option EnrichBody
  pub replay : List ℕ → Option ReplayBody
  pub stop : List ℕ → Option StopBody
  pub session_id : List ℕ → Option String

-- What the handlers use from outside, for one request: `now` is what `opts.Now()` returns, `ready` the
-- answer of Ping, `probe` that of the readiness probe, if there is one, and `unmatched` what ServeMux
-- answers to a path that no pattern has.
pub record HttpEnv : Type 0 where
  pub codec : Codec
  pub events : EventJson
  pub bodies : BodyJson
  pub mcp : Env
  pub quoted : String → String
  pub now : ℤ
  pub ready : Bool
  pub probe : Option Bool
  pub unmatched : String → Response

abbrev pub method_error : Response
method_error = record { status = 405; body = plain "method not allowed" }

-- http.Error, for the error at which a handler returns
unfoldable pub error_response : Error → Response
error_response method_not_allowed = method_error
error_response bad_request = record { status = 400; body = plain "invalid request" }
error_response _ = record { status = 500; body = plain "internal server error" }

-- the response of a handler
abbrev pub responded : {S : Type 0} → Outcome Response × S → Response × S
responded (ok r, s) = (r, s)
responded (err e, s) = (error_response e, s)

-- maxRequestBytes
abbrev pub max_request_bytes : ℕ
max_request_bytes = 1048576

-- A POST request, and its body, if that is not too long.
unfoldable pub posted : Request → Action Db (List ℕ)
posted req = do
  require (str_eq req.method "POST") method_not_allowed
  require (not (ltb max_request_bytes (length req.body))) bad_request
  pure req.body

-- what is decoded, or the error of an invalid request
unfoldable pub needed : {A : Type 0} → Option A → Action Db A
needed Option.none = raise bad_request
needed (Option.some a) = pure a

-- The body with a session and a directory, neither of them empty.
unfoldable pub session_body : HttpEnv → Request → Action Db SessionBody
unfolding posted
session_body env req = do
  raw ← posted req
  in_ ← needed (env.events.session raw)
  require (not (blank in_.session_id) && not (blank in_.cwd)) bad_request
  pure in_

abbrev pub no_content : Response
no_content = record { status = 204; body = empty }

-- `writeJSON` with the status 200
abbrev pub ok_json : Value → Response
ok_json v = record { status = 200; body = json v }
