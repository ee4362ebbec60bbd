-- ===== src/OtlpDial.antt =====
-- otlp_dial.go, provider.go and trace_provider.go: the dial settings and options of the OTLP exporters. The two functions of
-- crypto/x509 and crypto/tls are parameters: whether `AppendCertsFromPEM` takes a text, and whether
-- `X509KeyPair` takes a certificate and a key.
use tel.Base.{
  ◌≡◌, Bool, true, false, not, ◌&&◌, ◌||◌, Option, none, some, List, [], ◌∷◌, ◌++◌, arith,
  if◌then◌else◌, ◌⊎◌,
}
use tel.Base.Text.{Text, bytes, is_empty}
use tel.Config.{TelConfig}

pub data Error : Type 0 where
  bad_ca_cert bad_client_cert metric_exporter_failed trace_exporter_failed listen_failed : Error

pub data Result (A : Type 0) : Type 0 where
  ok : A → Result A
  err : Error → Result A

-- tls.Config, at least TLS 1.2; a server name, a pool of CA certificates and a client certificate
-- with its key where they are set
pub record TlsConfig : Type 0 where
  pub server_name : Text
  pub root_cas : Option Text
  pub certificate : Option (Text × Text)

pub record Dial : Type 0 where
  pub tls_config : Option TlsConfig
  pub endpoint : Text
  pub compress : Bool
  pub insecure : Bool

-- An option of an OTLP exporter over gRPC, for metrics and for traces alike.
pub data ExporterOption : Type 0 where
  with_endpoint with_compressor : Text → ExporterOption
  with_insecure : ExporterOption
  with_tls_credentials : TlsConfig → ExporterOption

unfoldable pub uses_tls : TelConfig → Bool
uses_tls cfg =
    not (is_empty cfg.server_name)
    || not (is_empty cfg.raw.ca)
    || not (is_empty cfg.raw.cert)
    || not (is_empty cfg.raw.key)

module _ (append_certs : Text → Bool) (key_pair : Text → Text → Bool) where
  unfoldable pub tls_config_from_raw : TelConfig → Result TlsConfig
  tls_config_from_raw cfg =
      let raw = cfg.raw in
      let has_ca = not (is_empty raw.ca) in
      let has_pair = not (is_empty raw.cert) && not (is_empty raw.key) in
      if has_ca && not (append_certs raw.ca)
      then err bad_ca_cert
      else if has_pair && not (key_pair raw.cert raw.key)
      then err bad_client_cert
      else ok (record {
        server_name = cfg.server_name;
        root_cas = if has_ca then some raw.ca else none;
        certificate = if has_pair then some (raw.cert, raw.key) else none;
      })

  unfoldable pub otlp_dial_settings : TelConfig → Result Dial
  unfolding uses_tls
  otlp_dial_settings cfg =
      let dial : Option TlsConfig → Dial = λ tls. record {
        tls_config = tls;
        endpoint = cfg.address;
        compress = cfg.with_compression;
        insecure = cfg.with_insecure && not (uses_tls cfg);
      } in
      if uses_tls cfg
      then elim (tls_config_from_raw cfg) [ err e ↦ err e | ok tls ↦ ok (dial (some tls)) ]
      else ok (dial none)

  -- otlpExporterOptions and otlpTraceExporterOptions
  unfoldable pub otlp_exporter_options : TelConfig → Result (List ExporterOption)
  otlp_exporter_options cfg = elim (otlp_dial_settings cfg) [
    | err e ↦ err e
    | ok dial ↦
        let compression = if dial.compress then with_compressor (bytes "gzip") ∷ [] else [] in
        let plain = if dial.insecure then with_insecure ∷ [] else [] in
        let credentials : List ExporterOption = elim dial.tls_config [
          | none ↦ []
          | some tls ↦ with_tls_credentials tls ∷ []
        ] in
        ok (with_endpoint dial.endpoint ∷ compression ++ (plain ++ credentials))
  ]

  -- A dial is never both plain and encrypted: whatever is configured, one that succeeds has
  -- credentials exactly when any TLS material is set, and is insecure only without.
  pub dial_is_exclusive :
      (cfg : TelConfig) (d : Dial)
      → otlp_dial_settings cfg ≡ ok d
      → ((uses_tls cfg ≡ true) × (d.insecure ≡ false) × ((t : TlsConfig) × (d.tls_config ≡ some t)))
        ⊎ ((uses_tls cfg ≡ false) × (d.insecure ≡ cfg.with_insecure) × (d.tls_config ≡ none))
  unfolding otlp_dial_settings
  dial_is_exclusive cfg d h = ground arith
