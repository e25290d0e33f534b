-- ===== src/Server/Http/Captured.antt =====
-- Which payloads the server stores.
use yet_another_memory_bank.Common.{
  ℕ, Bool, true, false, String, Option, some, List, [], ◌∷◌, ◌*◌, All, All-append, ◌≡◌, refl, sym,
  ap, if_elim, ok, err, Ensures, Ensures-imp, Ensures-bind, committed-database, foreign_key,
}
use mathlib.Core.Path.{subst}
use yet_another_memory_bank.Common.Int.{pos, ◌-ℤ◌}
use yet_another_memory_bank.Embed.Breaker.{CircuitBreaker}
use yet_another_memory_bank.Mcp.Arguments.{World}
use yet_another_memory_bank.Secrets.Calls.{IsRedacted}
use yet_another_memory_bank.Secrets.Clean.{HasNoSecret}
use yet_another_memory_bank.Server.Http.{Request, Options, HttpEnv}
use yet_another_memory_bank.Server.Http.Keeps.{serve-keeps}
use yet_another_memory_bank.Server.Http.Runs.{serve_all, unused}
use yet_another_memory_bank.Store.Decay.{DecayOps}
use yet_another_memory_bank.Store.Observations.{
  Zstd, ObservationInput, new_observation, decode_payload, append_observation, count_up,
  is_duplicate, has_session, insert_observation,
}
use yet_another_memory_bank.Store.Observations.Frame.{OnlySessions, ensure_session-OnlySessions}
use yet_another_memory_bank.Store.Observations.Payloads.{decode_payload-encode_payload}
use yet_another_memory_bank.Store.Rows.{Db, ObservationRow}
use yet_another_memory_bank.Store.Sessions.{ensure_session, end_session, save_session_summary}
use yet_another_memory_bank.Store.Runs.{
  Call, ensure, end, summarise, observe, add, update, supersede, forget, touch, decay, embed,
  unembed, imported, attempt, expire, complete, perform, new_db,
}
use yet_another_memory_bank.Store.Runs.Quiet.{is_captured, perform-SameSessions}

-- What a row decodes to has no secret.
abbrev pub IsCleanRow : Zstd → ObservationRow → Type 0
IsCleanRow z o = Ensures HasNoSecret (decode_payload z o.payload o.payload_encoding)

abbrev pub IsCleanDb : Zstd → Db → Type 0
IsCleanDb z db = All (IsCleanRow z) db.observations

module _ (z : Zstd) (back : (raw : List ℕ) → z.decode_all (z.encode_all raw) ≡ some raw) where
  new_observation-IsCleanRow :
      (db : Db) (input : ObservationInput) (session_id : String)
      → HasNoSecret input.payload_json
      → IsCleanRow z (new_observation z db input session_id)
  unfolding new_observation
  new_observation-IsCleanRow db input session_id h =
      subst (Ensures HasNoSecret)
        (sym (decode_payload-encode_payload z input.payload_json (back input.payload_json))) h

  insert_observation-IsCleanDb :
      (db : Db) (input : ObservationInput) (window : ℕ)
      → HasNoSecret input.payload_json
      → IsCleanDb z db
      → Ensures (λ r. IsCleanDb z r.1) (insert_observation z db input window)
  unfolding insert_observation count_up append_observation
  insert_observation-IsCleanDb db input window h v =
      Ensures-bind (λ r. OnlySessions db r.1) (λ r. IsCleanDb z r.1)
        (ensure_session db input.agent input.external_session_id input.cwd input.ts) _
        (ensure_session-OnlySessions db input.agent input.external_session_id input.cwd input.ts)
        λ r e.
          let clean = subst (All (IsCleanRow z)) (ap (λ d. d.observations) (sym e)) v in
          if_elim (Ensures (λ (q : Bool × Db). IsCleanDb z q.1))
            (is_duplicate r.1 input.hash (input.ts -ℤ pos (window * 1000))) (ok (false, r.1)) _
            clean
            (if_elim (Ensures (λ (q : Bool × Db). IsCleanDb z q.1)) (has_session r.1 r.0)
              (ok (true, _)) (err foreign_key)
              (All-append _ r.1.observations _ clean
                (new_observation-IsCleanRow r.1 input r.0 h, tt))
              tt)

  quiet-IsCleanDb :
      (fl : DecayOps) (db : Db) (c : Call)
      → is_captured c ≡ false
      → IsCleanDb z db
      → IsCleanDb z (perform z fl db c)
  quiet-IsCleanDb fl db c e v =
      subst (All (IsCleanRow z)) (sym (perform-SameSessions z fl db c e).1) v

  perform-IsCleanDb :
      (fl : DecayOps) (db : Db) (c : Call)
      → IsRedacted c
      → IsCleanDb z db
      → IsCleanDb z (perform z fl db c)
  unfolding perform end_session save_session_summary
  perform-IsCleanDb fl db (ensure agent external_id project ts) h v =
      committed-database (IsCleanDb z) db (ensure_session db agent external_id project ts) v (
        Ensures-imp _ _ (ensure_session db agent external_id project ts)
          (λ r e. subst (All (IsCleanRow z)) (ap (λ d. d.observations) (sym e)) v)
          (ensure_session-OnlySessions db agent external_id project ts))
  perform-IsCleanDb fl db (end id ended_at) h v = v
  perform-IsCleanDb fl db (summarise id summary ended_at) h v = v
  perform-IsCleanDb fl db (observe input window) h v =
      committed-database (IsCleanDb z) db (insert_observation z db input window) v
        (insert_observation-IsCleanDb db input window h v)
  perform-IsCleanDb fl db (add input) h v = quiet-IsCleanDb fl db (add input) refl v
  perform-IsCleanDb fl db (update change) h v = quiet-IsCleanDb fl db (update change) refl v
  perform-IsCleanDb fl db (supersede old_id new_id) h v =
      quiet-IsCleanDb fl db (supersede old_id new_id) refl v
  perform-IsCleanDb fl db (forget ids) h v = quiet-IsCleanDb fl db (forget ids) refl v
  perform-IsCleanDb fl db (touch ids at) h v = quiet-IsCleanDb fl db (touch ids at) refl v
  perform-IsCleanDb fl db (decay opts) h v = quiet-IsCleanDb fl db (decay opts) refl v
  perform-IsCleanDb fl db (embed id model vec) h v =
      quiet-IsCleanDb fl db (embed id model vec) refl v
  perform-IsCleanDb fl db (unembed project model) h v =
      quiet-IsCleanDb fl db (unembed project model) refl v
  perform-IsCleanDb fl db (imported path event_id at) h v =
      quiet-IsCleanDb fl db (imported path event_id at) refl v
  perform-IsCleanDb fl db (attempt session_id status reason at) h v =
      quiet-IsCleanDb fl db (attempt session_id status reason at) refl v
  perform-IsCleanDb fl db (expire session_id before) h v =
      quiet-IsCleanDb fl db (expire session_id before) refl v
  perform-IsCleanDb fl db (complete session_id at) h v =
      quiet-IsCleanDb fl db (complete session_id at) refl v

  serve_all-IsCleanDb :
      (opts : Options) (requests : List (HttpEnv × Request)) (w : World)
      → All (λ q. q.0.codec.zstd ≡ z) requests
      → IsCleanDb z w.db
      → IsCleanDb z (serve_all opts requests w).db
  unfolding serve_all
  serve_all-IsCleanDb opts [] w e v = v
  serve_all-IsCleanDb opts ((env, req) ∷ requests) w e v = serve_all-IsCleanDb opts requests _ e.1 (
      serve-keeps env opts unused (IsCleanDb z) req w
        (λ db c k.
          subst (λ y. IsCleanDb z db → IsCleanDb z (perform y unused db c)) (sym e.0)
            (perform-IsCleanDb unused db c k))
        v)

-- Whatever requests a server with a new store gets, in whatever order, no observation of its store
-- decodes to a payload that has a secret, if the requests use the same zstd library, in which `DecodeAll`
-- takes back what `EncodeAll` made.
pub serve_all-new_db-IsCleanDb :
    (z : Zstd) (opts : Options) (requests : List (HttpEnv × Request)) (fts5 : Bool)
    (b : Option CircuitBreaker)
    → ((raw : List ℕ) → z.decode_all (z.encode_all raw) ≡ some raw)
    → All (λ q. q.0.codec.zstd ≡ z) requests
    → IsCleanDb z (serve_all opts requests (record { db = new_db fts5; breaker = b })).db
serve_all-new_db-IsCleanDb z opts requests fts5 b back e =
    serve_all-IsCleanDb z back opts requests _ e tt
