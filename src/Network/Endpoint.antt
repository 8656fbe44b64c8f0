-- ===== src/Network/Endpoint.antt =====
-- src/barq_native/internal/networking/utils.cpp: requests, responses and websocket endpoints between
-- the SDK's types and core's. Core's URI parser, base64 and protocol test are parameters.

pub mod Conversion
mod Tests
use barq_native.Prelude.{
  ℕ, ◌==◌, is_empty, Bool, true, false, Option, none, some, List, ◌∷◌, ◌++◌, [], if◌then◌else◌,
}
use barq_native.Prelude.Bytes.{Bytes, codes, bytes_eq, stoi, to_string}
use barq_native.Network.Headers.{Headers, emplace}
use barq_native.Network.Transport.{
  HttpMethod, get, post, patch, put, del, Request, Response, ProxyConfig, Configuration, to_port,
}

-- core_transport::Request and Response; an enumerator of core is its number.
pub record CoreTransportRequest : Type 0 where
  pub method : ℕ
  pub url : Bytes
  pub timeout_ms : ℕ
  pub headers : Headers
  pub body : Bytes

pub record CoreTransportResponse : Type 0 where
  pub http_status_code : Option ℕ
  pub custom_status_code : Option ℕ
  pub headers : Headers
  pub body : Bytes
  pub client_error_code : Option ℕ

-- static_cast<http_method>; `none` where the number is no enumerator's.
unfoldable pub http_method_of : ℕ → Option HttpMethod
http_method_of n =
    if n == 0
    then some get
    else if n == 1
    then some post
    else if n == 2
    then some patch
    else if n == 3
    then some put
    else if n == 4
    then some del
    else none

unfoldable pub to_request : CoreTransportRequest → Option Request
unfolding http_method_of
to_request r = elim (http_method_of r.method) [
  | none ↦ none
  | some m ↦ some (record {
    method = m;
    url = r.url;
    timeout_ms = r.timeout_ms;
    headers = r.headers;
    body = r.body;
  })
]

unfoldable pub to_core_response : Response → CoreTransportResponse
to_core_response r = record {
  http_status_code = r.http_status_code;
  custom_status_code = r.custom_status_code;
  headers = r.headers;
  body = r.body;
  client_error_code = elim r.client_error_code [ none ↦ none | some e ↦ some e ];
}

pub data ProtocolEnvelope : Type 0 where
  barq barqs ws wss : ProtocolEnvelope

-- `none` is BARQ_TERMINATE.
unfoldable pub to_protocol_envelope : Bytes → Option ProtocolEnvelope
to_protocol_envelope s =
    if bytes_eq s (codes "barq:")
    then some barq
    else if bytes_eq s (codes "barqs:")
    then some barqs
    else if bytes_eq s (codes "ws:")
    then some ws
    else if bytes_eq s (codes "wss:")
    then some wss
    else none

pub record WebsocketEndpoint : Type 0 where
  pub url : Bytes
  pub protocols : List Bytes

pub record CoreProxy : Type 0 where
  pub address : Bytes
  pub port : ℕ

-- sync::WebSocketEndpoint; the last three fields have core's defaults where they are not assigned.
pub record CoreEndpoint : Type 0 where
  pub address : Bytes
  pub port : ℕ
  pub path : Bytes
  pub protocols : List Bytes
  pub is_ssl : Bool
  pub headers : Headers
  pub proxy : Option CoreProxy
  pub verify_servers_ssl_certificate : Option Bool
  pub ssl_trust_certificate_path : Option Bytes
  pub ssl_verify_callback : Bool

pub record UriWorld : Type 0 where
  pub uri_scheme : Bytes → Bytes
  pub uri_host : Bytes → Bytes
  pub uri_port : Bytes → Bytes
  pub uri_path : Bytes → Bytes
  pub uri_query : Bytes → Bytes
  pub is_ssl : ProtocolEnvelope → Bool
  pub base64 : Bytes → Bytes
  pub port_values : ℕ
  pub same : Bytes → Bytes → Bool

-- The function ends the program on an unknown protocol, and std::stoi throws on a port that is none.
pub data Made : Type 0 where
  made : CoreEndpoint → Made
  terminates throws : Made

module _ (w : UriWorld) where
  open w use {
    uri_scheme, uri_host, uri_port, uri_path, uri_query, is_ssl, base64, port_values, same,
  }

  -- The port of an endpoint.
  unfoldable pub endpoint_port : Bool → Bytes → Option ℕ
  endpoint_port ssl port =
      if is_empty port
      then some (if ssl then 443 else 80)
      else elim (stoi port) [ none ↦ none | some n ↦ some (to_port port_values n) ]

  unfoldable pub add_proxy : Option ProxyConfig → CoreEndpoint → CoreEndpoint
  add_proxy none e = e
  add_proxy (some p) e = record e {
    proxy = some (record { address = p.address; port = p.port });
    headers = elim p.username_password [
      | none ↦ e.headers
      | some (user, password) ↦
          emplace same (codes "Proxy-Authorization")
            (codes "Basic " ++ base64 (user ++ b':' ∷ password)) e.headers
    ];
  }

  -- The custom headers are assigned, after the proxy's header has been put in.
  unfoldable pub add_custom : Option Headers → CoreEndpoint → CoreEndpoint
  add_custom none e = e
  add_custom (some custom) e = record e { headers = custom }

  unfoldable pub configure : Option Configuration → CoreEndpoint → CoreEndpoint
  unfolding add_proxy add_custom
  configure none e = e
  configure (some c) e = record (add_custom c.custom_http_headers (add_proxy c.proxy_config e)) {
    verify_servers_ssl_certificate = some c.client_validate_ssl;
    ssl_trust_certificate_path = c.ssl_trust_certificate_path;
    ssl_verify_callback = c.ssl_verify_callback;
  }

  -- The endpoint before the configuration is read.
  abbrev pub bare_endpoint : WebsocketEndpoint → Bool → ℕ → CoreEndpoint
  bare_endpoint ep ssl port = record {
    address = uri_host ep.url;
    port = port;
    path = uri_path ep.url ++ uri_query ep.url;
    protocols = ep.protocols;
    is_ssl = ssl;
    headers = [];
    proxy = none;
    verify_servers_ssl_certificate = none;
    ssl_trust_certificate_path = none;
    ssl_verify_callback = false;
  }

  unfoldable pub to_core_websocket_endpoint : WebsocketEndpoint → Option Configuration → Made
  to_core_websocket_endpoint ep config = elim (to_protocol_envelope (uri_scheme ep.url)) [
    | none ↦ terminates
    | some protocol ↦ elim (endpoint_port (is_ssl protocol) (uri_port ep.url)) [
      | none ↦ throws
      | some port ↦ made (configure config (bare_endpoint ep (is_ssl protocol) port))
    ]
  ]

unfoldable pub to_websocket_endpoint : CoreEndpoint → WebsocketEndpoint
to_websocket_endpoint e =
    let port : ℕ = elim e.proxy [ none ↦ e.port | some p ↦ p.port ] in
    record {
      protocols = e.protocols;
      url =
          (if e.is_ssl then codes "wss" else codes "ws")
          ++ (codes "://" ++ (e.address ++ b':' ∷ (to_string port ++ e.path)));
    }
