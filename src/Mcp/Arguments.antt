-- ===== src/Mcp/Arguments.antt =====
-- The structs that internal/mcp/server.go decodes, the surroundings of a request, and the state that a
-- request changes.
use yet_another_memory_bank.Common.{ℕ, String, Bool, Option, List, Error, or_text}
use yet_another_memory_bank.Common.Action.{Action}
use yet_another_memory_bank.Common.Int.{ℤ}
use yet_another_memory_bank.Floats.{Float64}
use yet_another_memory_bank.Codec.{Codec}
use yet_another_memory_bank.Embed.Breaker.{CircuitBreaker}
use yet_another_memory_bank.Search.Vectors.{Searcher}
use yet_another_memory_bank.Store.Reports.Timeline.{TimelineItem}
use yet_another_memory_bank.Store.Rows.{Db}

pub record RpcRequest : Type 0 where
  pub jsonrpc : String
  pub id : List ℕ
  pub method : String
  pub params : List ℕ

pub record ToolCallParams : Type 0 where
  pub name : String
  pub arguments : List ℕ

-- The arguments of the tools; several tools share a struct.
pub record RecallArgs : Type 0 where
  pub query : String
  pub project : String
  pub limit : ℤ

pub record SaveArgs : Type 0 where
  pub text : String
  pub tier : String
  pub project : String
  pub importance : Float64
  pub session_id : String

pub record ProjectArgs : Type 0 where
  pub project : String
  pub limit : ℤ

pub record SessionArgs : Type 0 where
  pub session_id : String
  pub limit : ℤ

pub record ForgetArgs : Type 0 where
  pub query : String
  pub project : String
  pub dry_run : Bool
  pub ids : List ℕ
  pub confirm : Bool
  pub limit : ℤ

pub record SummaryArgs : Type 0 where
  pub session_id : String
  pub summary : String

pub record SupersedeArgs : Type 0 where
  pub old_id : ℕ
  pub new_id : ℕ

pub record UpdateArgs : Type 0 where
  pub id : ℕ
  pub text : Option String
  pub tier : Option String
  pub importance : Option Float64

pub record TimelineArgs : Type 0 where
  pub project : String
  pub session_id : String
  pub limit : ℤ

pub record FilesArgs : Type 0 where
  pub project : String
  pub files : List String
  pub limit : ℤ

pub record ExportArgs : Type 0 where
  pub project : String
  pub limit : ℤ
  pub format : String

pub record AuditArgs : Type 0 where
  pub memory_id : ℕ
  pub limit : ℤ

-- A prompt's name, and the arguments "query" and "session_id", which are empty if they are no texts.
pub record PromptArgs : Type 0 where
  pub name : String
  pub query : String
  pub session_id : String

-- json.Unmarshal into each of the structs
pub record ArgumentJson : Type 0 where
  pub rpc : List ℕ → Option RpcRequest
  pub tool_call : List ℕ → Option ToolCallParams
  pub uri : List ℕ → Option String
  pub prompt : List ℕ → Option PromptArgs
  pub recall : List ℕ → Option RecallArgs
  pub save : List ℕ → Option SaveArgs
  pub by_project : List ℕ → Option ProjectArgs
  pub by_session : List ℕ → Option SessionArgs
  pub forget : List ℕ → Option ForgetArgs
  pub profile : List ℕ → Option String
  pub summary : List ℕ → Option SummaryArgs
  pub supersede : List ℕ → Option SupersedeArgs
  pub update : List ℕ → Option UpdateArgs
  pub timeline : List ℕ → Option TimelineArgs
  pub files : List ℕ → Option FilesArgs
  pub export : List ℕ → Option ExportArgs
  pub audit : List ℕ → Option AuditArgs
  pub verify : List ℕ → Option ℕ

-- The server's options with what it uses from outside, for one request, which asks the embedder at most
-- once: `now k` is what the call number `k` of `now` returns, `breaker_now` the time at which the circuit
-- breaker is asked, `message` the text of an error, `quoted` the verb %q, `unstable` the order in which
-- `sort.Slice` leaves equal items, `range` the order in which Go ranges over a map.
pub record Env : Type 0 where
  pub codec : Codec
  pub json : ArgumentJson
  pub searcher : Searcher
  pub default_project : String
  pub now : ℕ → ℤ
  pub breaker_now : ℤ
  pub message : Error → String
  pub quoted : String → String
  pub unstable : List TimelineItem → List TimelineItem
  pub range : List String → List String

-- What the requests change: the store, and the circuit breaker, if there is one.
pub record World : Type 0 where
  pub db : Db
  pub breaker : Option CircuitBreaker

-- an action on the store
unfoldable pub on_db : {A : Type 0} → Action Db A → Action World A
on_db m w = ((m w.db).0, record w { db = (m w.db).1 })

-- `project`
unfoldable pub project : Env → String → String
project env value = or_text value env.default_project
