-- ===== src/Fasthttp.antt =====
-- middleware/fasthttp: Server and Recover around a handler. A request is the fields of
-- fasthttp.RequestCtx that they read and write; a handler returns it or panics with it, and says which
-- calls of tel it made. `C` is the standard context, and `F` float64.
pub mod Handled
pub mod Carrier
use tel.Base.{
  ℕ, ◌+◌, Bool, true, false, not, ◌&&◌, ◌||◌, Option, none, some, List, [], ◌∷◌, ◌++◌, map, ◌==◌,
  if◌then◌else◌, ltb, leb, length, get_or,
}
use tel.Base.Int.{ℤ, pos}
use tel.Base.Text.{Text, bytes, text_eq, is_empty, has_prefix}
use tel.Spans.{SpanCall, end_span}
use tel.Logger.Events.{EventCall, Level, duration}

pub record RequestCtx (C : Type 0) : Type 0 where
  pub method : Text
  pub path : Text
  -- Request.Header.Peek, empty where there is no such header
  pub header : Text → Text
  pub status : ℕ
  pub body : Text
  pub content_type : Text
  -- the user values "tel.ctx" and "request_id"
  pub tel_ctx : Option C
  pub request_id_value : Option Text

-- errHTTPServerError
pub data ServerError : Type 0 where
  http_server_error : ServerError

-- A part of a log line.
pub data LinePart (F : Type 0) : Type 0 where
  part_str part_bytes : Text → Text → LinePart F
  part_int : Text → ℕ → LinePart F
  part_event : EventCall F ServerError → LinePart F

-- A call of tel, in the order of the calls.
pub data Call (F : Type 0) : Type 0 where
  span_started : Text → Text → Call F
  span_called : SpanCall ServerError → Call F
  line_logged : Level → List (LinePart F) → Call F
  panic_logged : Text → Text → Call F

pub data Exit (C F : Type 0) : Type 0 where
  returned panicked : RequestCtx C → List (Call F) → Exit C F

abbrev pub Handler : Type 0 → Type 0 → Type 0
Handler C F = RequestCtx C → Exit C F

-- methodString gives the text of the method, without a copy for the common ones.
unfoldable pub method_string : Text → Text
method_string method =
    if text_eq method (bytes "GET")
    then bytes "GET"
    else if text_eq method (bytes "POST")
    then bytes "POST"
    else if text_eq method (bytes "PUT")
    then bytes "PUT"
    else if text_eq method (bytes "PATCH")
    then bytes "PATCH"
    else if text_eq method (bytes "DELETE")
    then bytes "DELETE"
    else if text_eq method (bytes "HEAD")
    then bytes "HEAD"
    else if text_eq method (bytes "OPTIONS")
    then bytes "OPTIONS"
    else method

-- the loop over the prefixes
unfoldable pub is_skipped : List Text → Text → Bool
is_skipped [] path = false
is_skipped (p ∷ skip) path = has_prefix path p || is_skipped skip path

pub record ServerConfig (C : Type 0) : Type 0 where
  pub span_name : RequestCtx C → Text
  pub component : Text
  pub skip : List Text
  pub log_success : Bool

module _ {C : Type 0} where
  abbrev pub default_server_config : ServerConfig C
  default_server_config = record {
    span_name = λ ctx. method_string ctx.method;
    component = bytes "http";
    skip = [];
    log_success = false;
  }

  abbrev pub with_span_name : (RequestCtx C → Text) → ServerConfig C → ServerConfig C
  with_span_name fn c = record c { span_name = fn }

  abbrev pub with_skip_prefixes : List Text → ServerConfig C → ServerConfig C
  with_skip_prefixes prefixes c = record c { skip = prefixes }

  abbrev pub with_log_success : Bool → ServerConfig C → ServerConfig C
  with_log_success v c = record c { log_success = v }

  -- the loop over the options
  unfoldable pub apply_options :
      List (ServerConfig C → ServerConfig C) → ServerConfig C → ServerConfig C
  apply_options [] c = c
  apply_options (opt ∷ opts) c = apply_options opts (opt c)

  -- Context
  unfoldable pub context_of : C → RequestCtx C → C
  context_of background ctx = get_or ctx.tel_ctx background

  unfoldable pub set_context : RequestCtx C → C → RequestCtx C
  set_context ctx c = record ctx { tel_ctx = some c }

-- `extract` is tel.Extract over the headers, `start_span` the context that StartSpan returns,
-- `seconds` a duration's Seconds and `since` the time that the handler took.
module _ {C F : Type 0} (extract : (Text → Text) → C) (start_span : C → Text → C) (seconds : ℤ → F)
    (error_text : ServerError → Text) where
  abbrev pub span_calls : List (SpanCall ServerError) → List (Call F)
  span_calls calls = map (λ c. span_called c) calls

  -- the request's identifier: of the header, or of the user value
  abbrev pub request_id_parts : RequestCtx C → List (LinePart F)
  request_id_parts ctx =
      let rid = ctx.header (bytes "X-Request-Id") in
      let value = get_or ctx.request_id_value [] in
      if ltb 0 (length rid)
      then part_bytes (bytes "request_id") rid ∷ []
      else if is_empty value
      then []
      else part_str (bytes "request_id") value ∷ []

  abbrev pub request_line : ServerConfig C → Text → RequestCtx C → ℤ → List (LinePart F)
  request_line cfg path ctx since =
      part_str (bytes "component") cfg.component
      ∷ part_bytes (bytes "method") ctx.method
      ∷ part_bytes (bytes "path") path
      ∷ part_int (bytes "status") ctx.status
      ∷ (request_id_parts ctx
          ++ map (λ c. part_event c)
              (duration seconds [] since ++ (EventCall.event_msg (bytes "request") ∷ [])))

  -- what Server does when the handler has returned
  unfoldable pub completed : ServerConfig C → Text → ℤ → RequestCtx C → List (Call F)
  completed cfg path since ctx =
      let failed = leb 500 ctx.status in
      let ended =
        span_calls (end_span error_text true (if failed then some http_server_error else none)) in
      if not cfg.log_success && not failed
      then ended
      else ended
        ++ (line_logged (if failed then Level.warn_level else Level.info_level)
              (request_line cfg path ctx since)
            ∷ [])

  -- A panic of the handler passes Server by: what follows the call is not deferred.
  abbrev pub after_next : ServerConfig C → Text → ℤ → List (Call F) → Exit C F → Exit C F
  after_next cfg path since began (panicked ctx calls) = panicked ctx (began ++ calls)
  after_next cfg path since began (returned ctx calls) =
      returned ctx (began ++ (calls ++ completed cfg path since ctx))

  unfoldable pub server : Handler C F → List (ServerConfig C → ServerConfig C) → ℤ → Handler C F
  server next opts since ctx =
      let cfg = apply_options opts default_server_config in
      let name = cfg.span_name ctx in
      let method = method_string ctx.method in
      let req_ctx = start_span (extract ctx.header) name in
      if is_skipped cfg.skip ctx.path
      then next ctx
      else after_next cfg ctx.path since (span_started name method ∷ [])
          (next (set_context ctx req_ctx))

module _ {C : Type 0} where
  abbrev pub recovered : RequestCtx C → RequestCtx C
  recovered ctx =
      if length ctx.body == 0
      then record ctx {
        status = 500;
        content_type = bytes "text/plain; charset=utf-8";
        body = bytes "internal error";
      }
      else record ctx { status = 500 }

module _ {C F : Type 0} where
  -- Recover
  abbrev pub after_panic : Exit C F → Exit C F
  after_panic (returned ctx calls) = returned ctx calls
  after_panic (panicked ctx calls) =
      returned (recovered ctx) (calls ++ (panic_logged ctx.method ctx.path ∷ []))

  unfoldable pub recover : Handler C F → Handler C F
  recover next ctx = after_panic (next ctx)
