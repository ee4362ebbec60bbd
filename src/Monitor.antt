-- ===== src/Monitor.antt =====
-- monitor.go: the monitor server. Listening, net/http and encoding/json are parameters; a response is
-- what a handler wrote.
use tel.Base.{
  ℕ, ◌+◌, ◌≡◌, refl, Bool, true, false, not, Option, none, some, List, [], ◌∷◌, if◌then◌else◌, ◌⊎◌,
  inl, inr,
}
use tel.Base.Text.{Text, bytes}
use tel.Otel.{Otel}
use tel.Cardinality.Report.{CardinalitySnapshot}
use tel.Instruments.Registry.{Meter}
use tel.Telemetry.{Telemetry}
use tel.Telemetry.Stats.{cardinality_stats}

-- `serving` where there is an http.Server, `shut` once it was shut down; how often Shutdown was called
-- on the http.Server.
pub record MonitorServer : Type 0 where
  pub addr : Text
  pub bound : Bool
  pub serving : Bool
  pub shut : Bool
  pub server_shutdowns : ℕ

unfoldable pub new_monitor_server : Text → MonitorServer
new_monitor_server addr = record {
  addr = addr;
  bound = false;
  serving = false;
  shut = false;
  server_shutdowns = 0;
}

unfoldable pub bind : MonitorServer → MonitorServer
bind s = record s { bound = true }

-- start, for whether the address could be listened on
unfoldable pub start : Bool → MonitorServer → MonitorServer × Bool
start listens s = if not listens then (s, false) else (record s { serving = true }, true)

-- shutdown, for whether http.Server's Shutdown succeeds; the result is whether there is no error.
unfoldable pub shutdown : Bool → MonitorServer → MonitorServer × Bool
shutdown answer s =
    if not s.serving
    then (s, true)
    else if s.shut
    then (s, true)
    else (record s { shut = true; server_shutdowns = s.server_shutdowns + 1 }, answer)

unfoldable pub shutdowns : List Bool → MonitorServer → MonitorServer
shutdowns [] s = s
shutdowns (a ∷ answers) s = shutdowns answers (shutdown a s).0

shutdowns_shut :
    (answers : List Bool) (s : MonitorServer)
    → s.serving ≡ true
    → s.shut ≡ true
    → (shutdowns answers s).server_shutdowns ≡ s.server_shutdowns
unfolding shutdowns shutdown
shutdowns_shut [] s serving shut = refl
shutdowns_shut (a ∷ answers) s serving shut =
    simp (serving, shut) (shutdowns_shut answers s serving shut)

-- However often a new server that was started is shut down, the http.Server is shut down once.
pub shutdowns_once :
    (addr : Text) (a : Bool) (answers : List Bool)
    → (shutdowns (a ∷ answers) (start true (new_monitor_server addr)).0).server_shutdowns ≡ 1
unfolding shutdowns shutdown start new_monitor_server
shutdowns_once addr a answers =
    shutdowns_shut answers (shutdown a (start true (new_monitor_server addr)).0).0 refl refl

pub record Response : Type 0 where
  pub status : ℕ
  pub content_type : Text
  pub body : Text

-- What a handler wrote, or that it panicked.
pub data Handled : Type 0 where
  wrote : Response → Handled
  panicked : Handled

abbrev json_response : Text → Response
json_response body = record { status = 200; content_type = bytes "application/json"; body = body }

unfoldable pub health_handler : Handled
health_handler = wrote (json_response (bytes "{\"status\":\"ok\"}"))

-- The payload of /stats, for what the runtime says of its memory.
pub record Payload : Type 0 where
  pub cardinality : Option CardinalitySnapshot
  pub alloc_bytes : ℕ
  pub total_alloc_bytes : ℕ
  pub sys_bytes : ℕ
  pub goroutines : ℕ

-- `http_error` is http.Error with its message and code.
module _ (http_error : Text → ℕ → Response) where
  -- recoverMonitor; the result says whether a panic was logged.
  unfoldable pub recover_monitor : Handled → Response × Bool
  recover_monitor (wrote r) = (r, false)
  recover_monitor panicked = (http_error (bytes "internal error") 500, true)

  module _ (o : Otel) (m : Meter) where
    -- the snapshot of the runtime that is bound, if one is
    unfoldable pub stats_payload : Option (Telemetry o m) → Payload → Payload
    stats_payload none memory = record memory { cardinality = none }
    stats_payload (some t) memory = record memory { cardinality = some (cardinality_stats o m t) }

    -- `encode` is the JSON encoder: the text, or an error's.
    unfoldable pub stats_handler :
        (Payload → Text ⊎ Text) → Option (Telemetry o m) → Payload → Handled
    stats_handler encode t memory = elim (encode (stats_payload t memory)) [
      | inl text ↦ wrote (json_response text)
      | inr message ↦ wrote (http_error message 500)
    ]
