-- ===== src/Network/Endpoint/Conversion.antt =====
-- What the conversions of utils.cpp keep and lose.
use native.Mathlib.Nat.{mod-eq_of_lt}
use barq_native.Prelude.{is_empty, ℕ, ◌≤◌, ◌<◌, ◌≡◌, refl, ap, ◌↔◌, Bool, none, some, arith}
use barq_native.Prelude.Bytes.{Bytes, codes, bytes_eq_sound, to_string}
use barq_native.Prelude.Decimal.{stoi-to_string, to_string-cons}
use barq_native.Network.Headers.{Headers}
use barq_native.Network.Transport.{Configuration}
use barq_native.Network.Endpoint.{
  ProtocolEnvelope, barq, barqs, ws, wss, to_protocol_envelope, WebsocketEndpoint, CoreProxy,
  CoreEndpoint, UriWorld, made, endpoint_port, add_custom, configure, bare_endpoint,
  to_core_websocket_endpoint, to_websocket_endpoint,
}

-- The scheme of each protocol.
abbrev pub scheme : ProtocolEnvelope → Bytes
scheme barq = codes "barq:"
scheme barqs = codes "barqs:"
scheme ws = codes "ws:"
scheme wss = codes "wss:"

-- Each protocol is read from its own scheme.
protocol-scheme : (p : ProtocolEnvelope) → to_protocol_envelope (scheme p) ≡ some p
unfolding to_protocol_envelope
protocol-scheme barq = refl
protocol-scheme barqs = refl
protocol-scheme ws = refl
protocol-scheme wss = refl

scheme-protocol :
    (s : Bytes) (p : ProtocolEnvelope) → to_protocol_envelope s ≡ some p → s ≡ scheme p
unfolding to_protocol_envelope
scheme-protocol s p e = ground (
  arith,
  bytes_eq_sound s (codes "barq:"),
  bytes_eq_sound s (codes "barqs:"),
  bytes_eq_sound s (codes "ws:"),
  bytes_eq_sound s (codes "wss:"),
)

-- to_protocol_envelope gives a protocol exactly for the scheme of that protocol, so that it ends
-- the program on every text but the four schemes.
to_protocol_envelope-scheme :
    (s : Bytes) (p : ProtocolEnvelope) → (to_protocol_envelope s ≡ some p) ↔ (s ≡ scheme p)
to_protocol_envelope-scheme s p = (scheme-protocol s p, λ e. rw e (protocol-scheme p))

module _ (w : UriWorld) where
  -- A port that the URL spells out is read back, and one that it leaves out is that of the protocol.
  endpoint_port-some :
      (ssl : Bool) (n : ℕ)
      → n < 65536
      → 65536 ≤ w.port_values
      → endpoint_port w ssl (to_string n) ≡ some n
  unfolding endpoint_port
  endpoint_port-some ssl n h wide =
      let (c, cs, e) = to_string-cons n in
      rw (
        ap is_empty e,
        stoi-to_string n (omega arith),
        mod-eq_of_lt {n = n} {m = w.port_values} (omega arith),
      )

  module _ (ep : WebsocketEndpoint) (p : ProtocolEnvelope)
      (known : w.uri_scheme ep.url ≡ scheme p) where
    -- With no configuration, a URL of a known scheme whose port is the decimal numeral of n <
    -- 65536 becomes the endpoint with port n, provided that the port type has 65536 values at
    -- least.
    endpoint_of_port :
        (n : ℕ)
        → w.uri_port ep.url ≡ to_string n
        → n < 65536
        → 65536 ≤ w.port_values
        → to_core_websocket_endpoint w ep none ≡ made (bare_endpoint w ep (w.is_ssl p) n)
    unfolding to_core_websocket_endpoint configure
    endpoint_of_port n e h wide = rw (
      known,
      protocol-scheme p,
      e,
      endpoint_port-some (w.is_ssl p) n h wide,
      to_core_websocket_endpoint,
    )

  -- When custom headers are configured, the headers of the endpoint are the custom headers and no
  -- others, also where the proxy has credentials.
  pub configure-custom :
      (c : Configuration) (custom : Headers) (e : CoreEndpoint)
      → c.custom_http_headers ≡ some custom
      → (configure w (some c) e).headers ≡ custom
  unfolding configure add_custom
  configure-custom c custom e set = ground arith

-- For an endpoint with a proxy, the URL that to_websocket_endpoint makes is the same whatever the
-- port of the endpoint is.
pub to_websocket_endpoint-proxied :
    (e : CoreEndpoint) (p : CoreProxy) (port : ℕ)
    → e.proxy ≡ some p
    → to_websocket_endpoint e ≡ to_websocket_endpoint (record e { port = port })
unfolding to_websocket_endpoint
to_websocket_endpoint-proxied e p port h = ground arith
