-- ===== src/Tests/Hybrid.antt =====
-- The hybrid search and the text search at concrete inputs.
use Prim.Native.Char.{code}
use yet_another_memory_bank.Common.{
  ◌&&◌, ◌*◌, ◌/◌, ◌≤◌, ◌≡◌, refl, false, not, leb, none, some, All, length, err, embed_failed,
  Ensures,
}
use yet_another_memory_bank.Common.Int.{pos, or_default}
use yet_another_memory_bank.Store.Text.{TextIndex, search_memories}
use yet_another_memory_bank.Store.Text.Visible.{IsVisible, search_memories-IsVisible}
use yet_another_memory_bank.Search.Hybrid.{hybrid}
use yet_another_memory_bank.Search.Vectors.{Searcher, Embedder, Query}
use yet_another_memory_bank.Search.Hybrid.Limits.{wanted, hybrid-AtMost}
use yet_another_memory_bank.Search.Hybrid.Fallback.{text_only, hybrid-fails}
use yet_another_memory_bank.Tests.Search.{millionths}
use yet_another_memory_bank.Tests.Store.{two_memories}

-- Every row matches every query; words are made of what is not a blank.
abbrev pub everything : TextIndex
everything = record {
  bm25 = λ rows query r. some r.rowid;
  is_letter = λ c. not (leb (code c) 57);
  is_digit = λ c. leb 48 (code c) && leb (code c) 57;
}

abbrev failing : Embedder
failing = record { answer = err embed_failed; info = none }

abbrev pub searcher : Searcher
searcher = record {
  floats = millionths;
  cosine_ops = record {
    of_float32 = λ a. a;
    mul = λ a b. a * b;
    div = λ a b. a / b;
    sqrt = λ a. a;
  };
  index = everything;
  order = λ l. l;
  embedder = some failing;
  config = record {
    bm25_top_k = pos 0;
    vector_top_k = pos 0;
    final_top_k = pos 0;
    rrf_k = pos 0;
    max_per_session = pos 0;
    model = "m";
    dim = pos 0;
    now = pos 77;
    skip_touch = false;
  };
}

abbrev question : Query
question = record { text = "new text"; project = "p"; limit = pos 1 }

search_memories-IsVisible_example :
    Ensures
      (All (IsVisible "p"))
      (search_memories millionths everything two_memories "p" "new" (pos 5))
search_memories-IsVisible_example =
    search_memories-IsVisible millionths everything two_memories "p" "new" (pos 5)

hybrid-AtMost_example :
    Ensures
      (λ rs. length rs ≤ wanted (pos 1) (or_default (pos 0) 10))
      (hybrid searcher two_memories question none (pos 7)).0.0
hybrid-AtMost_example = hybrid-AtMost searcher two_memories question none (pos 7)

hybrid-fails_example :
    (hybrid searcher two_memories question none (pos 7)).0
    ≡ (hybrid (text_only searcher) two_memories question none (pos 7)).0
hybrid-fails_example =
    hybrid-fails searcher two_memories question none (pos 7) failing embed_failed refl refl refl
