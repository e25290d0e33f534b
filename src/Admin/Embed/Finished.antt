-- ===== src/Admin/Embed/Finished.antt =====
-- internal/admin/embed.go: a run that succeeds leaves no memory without an embedding.
use yet_another_memory_bank.Common.{ℕ, String, Bool, ◌&&◌, not, str_eq}
use yet_another_memory_bank.Embed.Client.{Client}
use yet_another_memory_bank.Store.Embeddings.{has_embedding}
use yet_another_memory_bank.Store.Memories.{is_active}
use yet_another_memory_bank.Store.Rows.{Db, MemoryRow}

-- The memory lacks an embedding.
abbrev pub is_lacking : Db → String → String → ℕ → MemoryRow → Bool
is_lacking db project model d m =
    str_eq m.project project && (is_active m && not (has_embedding db model d m))
