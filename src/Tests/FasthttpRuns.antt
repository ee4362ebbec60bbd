-- ===== src/Tests/FasthttpRuns.antt =====
-- The fasthttp middleware at concrete inputs: a handler that panics, behind a skipped prefix that the
-- request does not have.
use tel.Base.{
  ℕ, ◌+◌, ◌<◌, ◌≡◌, refl, true, false, ◌&&◌, ◌||◌, ◌⊎◌, none, List, [], ◌∷◌, ◌++◌, if◌then◌else◌,
  leb, length,
}
use tel.Base.Int.{pos}
use tel.Base.Text.{Text, bytes, has_prefix}
use tel.Fasthttp.{
  RequestCtx, returned, panicked, Handler, ServerConfig, with_skip_prefixes, with_log_success,
  default_server_config, apply_options, is_skipped, panic_logged, server, recover,
}
use tel.Fasthttp.Handled.{
  starts, ends, logs, count, calls_of, ctx_of, is_returned, inner_exit, server-count,
  recover-server,
}
use tel.Tests.Setting.{done}

-- The standard context is a text, and float64 a natural number that no line needs.
abbrev request : RequestCtx Text
request = record {
  method = bytes "GET";
  path = bytes "/orders";
  header = λ key. [];
  status = 200;
  body = [];
  content_type = [];
  tel_ctx = none;
  request_id_value = none;
}

abbrev panicking : Handler Text ℕ
panicking ctx = panicked (record ctx { status = 202 }) []

abbrev failing : Handler Text ℕ
failing ctx = returned (record ctx { status = 503 }) []

abbrev extract : (Text → Text) → Text
extract header = header (bytes "traceparent")

abbrev start_span : Text → Text → Text
start_span parent name = parent ++ name

abbrev options : List (ServerConfig Text → ServerConfig Text)
options = with_skip_prefixes (bytes "/health" ∷ []) ∷ with_log_success false ∷ []

server-count_example :
    let x = inner_exit extract start_span (λ d. 0) (λ e. done) failing options (pos 7) request in
    let y = server extract start_span (λ d. 0) (λ e. done) failing options (pos 7) request in
    let cfg = apply_options options default_server_config in
    (count starts (calls_of y) ≡ count starts (calls_of x) + 1)
    × (count ends (calls_of y) ≡ count ends (calls_of x) + (if is_returned x then 1 else 0))
    × (count logs (calls_of y)
        ≡ count logs (calls_of x)
          + (if is_returned x && (cfg.log_success || leb 500 (ctx_of x).status) then 1 else 0))
unfolding apply_options is_skipped has_prefix
server-count_example =
    server-count extract start_span (λ d. 0) (λ e. done) failing options (pos 7) request refl

recover-server_example :
    let x = server extract start_span (λ d. 0) (λ e. done) panicking options (pos 7) request in
    let y =
      recover (server extract start_span (λ d. 0) (λ e. done) panicking options (pos 7)) request in
    (is_returned y ≡ true)
    × ((y ≡ x)
        ⊎ ((is_returned x ≡ false)
            × ((ctx_of y).status ≡ 500)
            × (0 < length (ctx_of y).body)
            × (calls_of y ≡ calls_of x ++ (panic_logged (ctx_of x).method (ctx_of x).path ∷ []))))
recover-server_example =
    recover-server extract start_span (λ d. 0) (λ e. done) panicking options (pos 7) request
