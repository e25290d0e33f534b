-- ===== src/Tests/Requests/Served.antt =====
-- The theorems on requests at concrete inputs.
use yet_another_memory_bank.Common.{
  Ensures, ◌≡◌, refl, true, ◌&&◌, none, some, List, [], ◌∷◌, All, find, is_ok, map, if◌then◌else◌,
  exists_where, str_eq, take, rows_where,
}
use yet_another_memory_bank.Common.Int.{pos, clamp_limit}
use yet_another_memory_bank.Mcp.Listing.{tools}
use yet_another_memory_bank.Mcp.Listing.Names.{tools-tool_of}
use yet_another_memory_bank.Mcp.Arguments.{World}
use yet_another_memory_bank.Mcp.Rpc.{ToolName, run_tool, tool_of}
use yet_another_memory_bank.Mcp.Rpc.Readers.{run_tool-reads}
use yet_another_memory_bank.Mcp.Tools.{memory_forget}
use yet_another_memory_bank.Mcp.Tools.Safety.{asks_for, memory_forget-find}
use yet_another_memory_bank.Secrets.{redact}
use yet_another_memory_bank.Secrets.Calls.{IsRedacted}
use yet_another_memory_bank.Secrets.Clean.{HasNoSecret, redact-HasNoSecret}
use yet_another_memory_bank.Server.Http.{HttpEnv, Request}
use yet_another_memory_bank.Server.Http.Auth.{has_token, serve_all-has_token}
use yet_another_memory_bank.Server.Http.Captured.{IsCleanDb, serve_all-new_db-IsCleanDb}
use yet_another_memory_bank.Server.Http.Routes.{serve}
use yet_another_memory_bank.Server.Http.Runs.{serve-run, serve_all}
use yet_another_memory_bank.Server.Recorder.{WriterCall, header, body, record_calls, new_recorder}
use yet_another_memory_bank.Server.Recorder.Refine.{
  first_status, told, written, bytes_of, record_calls_lem,
}
use yet_another_memory_bank.Store.Memories.{memory_id, is_given}
use yet_another_memory_bank.Store.Reports.Files.{file_history}
use yet_another_memory_bank.Store.Reports.Files.Collected.{IsHistory, file_history-IsHistory}
use yet_another_memory_bank.Store.Runs.{Call, run, new_db}
use yet_another_memory_bank.Tests.Decay.{percents}
use yet_another_memory_bank.Tests.Observations.{padding}
use yet_another_memory_bank.Tests.Store.{two_memories}
use yet_another_memory_bank.Tests.Requests.{
  secret_text, mcp_env, world, http_env, server_options, post, forget_first,
}

redact-HasNoSecret_example : HasNoSecret (redact secret_text)
redact-HasNoSecret_example = redact-HasNoSecret secret_text

-- a header, and two bodies
abbrev answer : List WriterCall
answer = header 404 ∷ body (1 ∷ 2 ∷ []) 2 ∷ header 500 ∷ body (3 ∷ []) 1 ∷ []

record_calls_lem_example :
    ((record_calls new_recorder answer).status ≡ first_status answer)
    × (((record_calls new_recorder answer).sent ≡ told answer)
        × (((record_calls new_recorder answer).bytes ≡ written answer)
            × ((record_calls new_recorder answer).preview ≡ take 512 (bytes_of answer))))
record_calls_lem_example = record_calls_lem answer

memory_forget-find_example : find memory_id 1 (memory_forget mcp_env [] world).1.db.memories ≡ (
    if is_ok (memory_forget mcp_env [] world).0 && asks_for 1 (some forget_first)
    then none
    else find memory_id 1 world.db.memories)
memory_forget-find_example = memory_forget-find mcp_env [] world 1

run_tool-reads_example : (run_tool mcp_env ToolName.search [] world).1.db ≡ world.db
run_tool-reads_example = run_tool-reads mcp_env ToolName.search [] world refl

tools-tool_of_example :
    exists_where (λ n. str_eq "memory_save" n) (map (λ t. t.name) tools)
    ≡ is_given (tool_of "memory_save")
tools-tool_of_example = tools-tool_of "memory_save"

abbrev captured : Request
captured = post "Bearer token" "/hooks/post-tool"

serve-run_example :
    (calls : List Call) × (All IsRedacted calls
      × ((serve http_env server_options captured world).1.db ≡ run padding percents world.db calls))
serve-run_example = serve-run http_env server_options percents captured world

abbrev requests : List (HttpEnv × Request)
requests =
    (http_env, captured)
    ∷ (http_env, post "" "/hooks/stop")
    ∷ (http_env, post "Bearer token" "/hooks/stop")
    ∷ []

abbrev pub fresh_world : World
fresh_world = record { db = new_db true; breaker = none }

serve_all-new_db-IsCleanDb_example :
    IsCleanDb padding (serve_all server_options requests fresh_world).db
serve_all-new_db-IsCleanDb_example =
    serve_all-new_db-IsCleanDb padding server_options requests true none (λ raw. refl)
      (refl, (refl, (refl, tt)))

serve_all-has_token_example :
    serve_all server_options requests fresh_world
    ≡ serve_all server_options (rows_where (has_token server_options) requests) fresh_world
serve_all-has_token_example = serve_all-has_token server_options requests fresh_world refl

file_history-IsHistory_example :
    Ensures
      (IsHistory padding
        (λ c. c)
        (λ raw. "text")
        two_memories
        "p"
        (" new " ∷ "" ∷ [])
        (clamp_limit (pos 0) 20 200))
      (file_history padding (λ c. c) (λ raw. "text") two_memories "p" (" new " ∷ "" ∷ []) (pos 0))
file_history-IsHistory_example =
    file_history-IsHistory padding (λ c. c) (λ raw. "text") two_memories "p" (" new " ∷ "" ∷ [])
      (pos 0)
