-- ===== src/Server/Http/Auth.antt =====
-- `authMiddleware` of internal/server/server.go: what requests without the token do.
use Prim.Native.String.{◌++◌ as append_text}
use yet_another_memory_bank.Common.{
  Bool, true, false, List, [], ◌∷◌, rows_where, str_eq, blank, ◌≡◌, refl, ap, ◌∙◌, inl, inr,
  Bool-cases,
}
use yet_another_memory_bank.Mcp.Arguments.{World}
use yet_another_memory_bank.Server.Http.{Request, Options, HttpEnv, with_defaults}
use yet_another_memory_bank.Server.Http.Routes.{is_health_check, serve, serve_route, route_of}
use yet_another_memory_bank.Server.Http.Runs.{serve_all}

-- The request has the token of the options.
abbrev pub has_token : Options → HttpEnv × Request → Bool
has_token opts q = str_eq q.1.authorization (append_text "Bearer " opts.bearer_token)

-- Neither check changes anything.
health_check-quiet :
    (env : HttpEnv) (opts : Options) (req : Request) (w : World)
    → is_health_check req.path ≡ true
    → (serve_route env opts (route_of req.path) req w).1 ≡ w
unfolding route_of serve_route
health_check-quiet env opts req w h = elim (Bool-cases (str_eq req.path "/healthz")) [
  | inl e ↦ rw e refl
  | inr e ↦ elim (Bool-cases (str_eq req.path "/readyz")) [
    | inl r ↦ rw (e, r) refl
    | inr r ↦ absurd (cc (h, e, r))
  ]
]

serve-without_token :
    (env : HttpEnv) (opts : Options) (req : Request) (w : World)
    → blank opts.bearer_token ≡ false
    → has_token opts (env, req) ≡ false
    → (serve env opts req w).1 ≡ w
unfolding serve
serve-without_token env opts req w b t = elim (Bool-cases (is_health_check req.path)) [
  | inl e ↦ rw (b, e) (health_check-quiet env (with_defaults opts) req w e)
  | inr e ↦ rw (b, e, t) refl
]

-- Where the options have a token, requests leave what those among them that carry it would leave
-- alone, so a request without the token changes neither the store nor the breaker.
pub serve_all-has_token :
    (opts : Options) (requests : List (HttpEnv × Request)) (w : World)
    → blank opts.bearer_token ≡ false
    → serve_all opts requests w ≡ serve_all opts (rows_where (has_token opts) requests) w
unfolding serve_all
serve_all-has_token opts [] w b = refl
serve_all-has_token opts (q ∷ requests) w b = elim (Bool-cases (has_token opts q)) [
  | inl e ↦ rw e (serve_all-has_token opts requests _ b)
  | inr e ↦ rw e (
      ap (serve_all opts requests) (serve-without_token q.0 opts q.1 w b e)
      ∙ serve_all-has_token opts requests w b)
]
