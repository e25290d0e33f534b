-- ===== src/Server/Context.antt =====
-- The texts of internal/server/server.go: `renderMemoryContext`, `renderFileMemoryContext`,
-- `compactorPrompt` and `compactorHint`.
use Prim.Native.Char.{Char}
use yet_another_memory_bank.Common.{
  ℕ, String, ◌&&◌, not, none, some, List, [], ◌∷◌, ◌++◌, map, if◌then◌else◌, ◌==◌, leb, str_eq,
  blank, length, exists_where,
}
use yet_another_memory_bank.Common.Int.{pos}
use yet_another_memory_bank.Common.Json.{string, list}
use yet_another_memory_bank.Common.Texts.{trim_space, to_lower, one_line, concat}
use yet_another_memory_bank.Codec.{Codec}
use yet_another_memory_bank.Server.Compaction.{CompactionOptions, Prompt}
use yet_another_memory_bank.Store.Memories.{Memory, recent_memories}
use yet_another_memory_bank.Store.Reports.Files.{contains_any_file}
use yet_another_memory_bank.Store.Rows.{Db}
use yet_another_memory_bank.Store.Sessions.{Session}

-- a line of a list
unfoldable pub bullet : String → String
bullet text = concat ("- " ∷ one_line text ∷ "\n" ∷ [])

unfoldable pub bullets : List String → String
unfolding bullet
bullets texts = concat (map bullet texts)

unfoldable pub memory_section : List Memory → String
memory_section [] = "No stored memories for this project yet.\n"
memory_section (m ∷ memories) = bullets (map (λ m. m.text) (m ∷ memories))

unfoldable pub summary_section : List Session → String
summary_section [] = ""
summary_section (s ∷ summaries) =
    concat ("\n## Recent session summaries\n" ∷ bullets (map (λ s. s.summary) (s ∷ summaries)) ∷ [])

unfoldable pub hint_section : String → String
hint_section hint = if blank hint then "" else concat ("\n## Compaction\n" ∷ hint ∷ "\n" ∷ [])

unfoldable pub render_memory_context : List Memory → List Session → String → String
unfolding memory_section summary_section hint_section bullets
render_memory_context memories summaries hint = concat (
    "<mcb-context>\n"
    ∷ "## Recent memories\n"
    ∷ memory_section memories
    ∷ summary_section summaries
    ∷ hint_section hint
    ∷ "</mcb-context>"
    ∷ [])

-- the loop over `files`
unfoldable pub needles_of : (Char → Char) → List String → List String
needles_of lower [] = []
needles_of lower (f ∷ files) =
    let rest = needles_of lower files in
    if blank (trim_space f) then rest else to_lower lower (trim_space f) ∷ rest

-- The loop over the memories: a memory matches once, and the loop ends with ten texts.
unfoldable pub match_files :
    (Char → Char) → List String → List ℕ → List String → List Memory → List String
match_files lower needles seen matched [] = matched
match_files lower needles seen matched (m ∷ memories) =
    let new =
      contains_any_file lower m.text needles && not (exists_where (λ id. id == m.id) seen) in
    let now = if new then matched ++ one_line m.text ∷ [] else matched in
    let rest = match_files lower needles (if new then m.id ∷ seen else seen) now memories in
    if leb 10 (length now) then now else rest

abbrev pub lines_of : List String → String
lines_of [] = ""
lines_of (t ∷ ts) = concat ("- " ∷ t ∷ "\n" ∷ lines_of ts ∷ [])

unfoldable pub render_matched : List String → String
render_matched [] = ""
render_matched (t ∷ matched) = concat (
    "<mcb-file-context>\n"
    ∷ "## Relevant file memories\n"
    ∷ lines_of (t ∷ matched)
    ∷ "</mcb-file-context>"
    ∷ [])

-- Both early returns give the empty text, as no needle matches nothing.
unfoldable pub render_file_memory_context : (Char → Char) → Db → String → List String → String
unfolding render_matched match_files needles_of
render_file_memory_context lower db project files =
    if length (needles_of lower files) == 0
    then ""
    else render_matched
        (match_files lower (needles_of lower files) [] [] (recent_memories db project (pos 100)))

-- json.Marshal(cwds), whose error is dropped
abbrev pub marshalled : Codec → List String → String
marshalled c cwds = elim (c.marshal (list (map string cwds))) [ none ↦ "" | some b ↦ c.text b ]

-- for the verb %q
unfoldable pub compactor_prompt : Codec → (String → String) → Prompt → String
compactor_prompt c quoted p =
    let prompt = concat (
      "session_id="
      ∷ p.session_id
      ∷ " project="
      ∷ p.project
      ∷ " cwds="
      ∷ marshalled c p.cwds
      ∷ " - read observations via mcp__mcb__memory_session_observations, deduplicate against existing memories via mcp__mcb__memory_search, save one summary via mcp__mcb__memory_session_summary_save, then save 3-7 facts via mcp__mcb__memory_save with session_id set."
      ∷ []) in
    if str_eq p.agent "claude-code"
    then concat (
        "Before ending, dispatch the "
        ∷ p.subagent
        ∷ " subagent via the Task tool with subagent_type="
        ∷ quoted p.subagent
        ∷ " and this exact prompt: "
        ∷ quoted prompt
        ∷ " Do not ask the user; dispatch immediately. After the subagent reports completion, stop."
        ∷ [])
    else concat ("Run the " ∷ p.subagent ∷ " subagent with this prompt: " ∷ prompt ∷ [])

unfoldable pub compactor_hint : String → CompactionOptions → String
compactor_hint agent cfg =
    if not (str_eq cfg.mode "subagent")
    then ""
    else if str_eq agent "claude-code"
    then concat (
        "If a Stop hook returns a block decision referencing " ∷ cfg.subagent_name
        ∷ ", dispatch it without asking confirmation." ∷ [])
    else concat (
        "If mcb plugin requests " ∷ cfg.subagent_name
        ∷ ", run that subagent without asking confirmation." ∷ [])
