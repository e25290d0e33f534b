-- ===== src/Server/Http/Runs.antt =====
-- What requests do to the store, as runs of its writing methods.
use yet_another_memory_bank.Common.{
  Bool, false, Option, List, [], ◌∷◌, ◌++◌, All, All-append, ◌≡◌, refl, sym, ap, ◌∙◌,
}
use yet_another_memory_bank.Embed.Breaker.{CircuitBreaker}
use yet_another_memory_bank.Mcp.Arguments.{World}
use yet_another_memory_bank.Secrets.Calls.{IsRedacted}
use yet_another_memory_bank.Server.Http.{Request, Options, HttpEnv}
use yet_another_memory_bank.Server.Http.Keeps.{serve-keeps}
use yet_another_memory_bank.Server.Http.Routes.{serve}
use yet_another_memory_bank.Store.Decay.{DecayOps}
use yet_another_memory_bank.Store.Runs.{Call, perform, run, run-append, new_db}
use yet_another_memory_bank.Store.Runs.Invariant.{StoreOk, perform-StoreOk, new_db-StoreOk}

-- The decay is no part of a request.
abbrev pub unused : DecayOps
unused = record {
  of_int = λ n. 0;
  mul = λ x y. 0;
  div = λ x y. 0;
  neg = λ x. 0;
  exp = λ x. 0;
  lt = λ x y. false;
  le = λ x y. false;
}

-- The store after a request is one that a run of the store's writing methods leaves, and no payload
-- that the run stores has a secret.
pub serve-run :
    (env : HttpEnv) (opts : Options) (fl : DecayOps) (req : Request) (w : World)
    → (calls : List Call) × (All IsRedacted calls
        × ((serve env opts req w).1.db ≡ run env.codec.zstd fl w.db calls))
unfolding run
serve-run env opts fl req w =
    serve-keeps env opts fl
      (λ db. (calls : List Call) × (All IsRedacted calls × (db ≡ run env.codec.zstd fl w.db calls)))
      req w
      (λ db c k r. (
        r.0 ++ c ∷ [],
        (
          All-append _ r.0 (c ∷ []) r.1.0 (k, tt),
          ap (λ d. perform env.codec.zstd fl d c) r.1.1
              ∙ sym (run-append env.codec.zstd fl w.db r.0 (c ∷ [])),
        ),
      ))
      ([], (tt, refl))

-- The world after requests, each with its surroundings.
unfoldable pub serve_all : Options → List (HttpEnv × Request) → World → World
serve_all opts [] w = w
serve_all opts ((env, req) ∷ requests) w = serve_all opts requests (serve env opts req w).1

serve_all-StoreOk :
    (opts : Options) (requests : List (HttpEnv × Request)) (w : World)
    → StoreOk w.db
    → StoreOk (serve_all opts requests w).db
unfolding serve_all
serve_all-StoreOk opts [] w v = v
serve_all-StoreOk opts ((env, req) ∷ requests) w v = serve_all-StoreOk opts requests _ (
    serve-keeps env opts unused StoreOk req w (λ db c k. perform-StoreOk env.codec.zstd unused db c)
      v)

-- Whatever requests a server with a new store gets, in whatever order, the memory tables and the
-- sessions of its store satisfy their invariants after them.
pub serve_all-new_db-StoreOk :
    (opts : Options) (requests : List (HttpEnv × Request)) (fts5 : Bool) (b : Option CircuitBreaker)
    → StoreOk (serve_all opts requests (record { db = new_db fts5; breaker = b })).db
serve_all-new_db-StoreOk opts requests fts5 b =
    serve_all-StoreOk opts requests _ (new_db-StoreOk fts5)
