-- ===== src/Network/Transport/World.antt =====
-- What the transport is given and what it calls: the types of include/barq_native/networking/http.hpp
-- and core's side of a request. An int of a response that the code does not assign is `none`.
use barq_native.Prelude.{ℕ, Bool, Option}
use barq_native.Prelude.Bytes.{Bytes}
use barq_native.Network.Headers.{Headers}

pub data HttpMethod : Type 0 where
  get post patch put del : HttpMethod

pub record Request : Type 0 where
  pub method : HttpMethod
  pub url : Bytes
  pub timeout_ms : ℕ
  pub headers : Headers
  pub body : Bytes

pub record Response : Type 0 where
  pub http_status_code : Option ℕ
  pub custom_status_code : Option ℕ
  pub headers : Headers
  pub body : Bytes
  pub client_error_code : Option ℕ

pub record ProxyConfig : Type 0 where
  pub address : Bytes
  pub port : ℕ
  pub username_password : Option (Bytes × Bytes)

-- Of the verification callback only matters whether it is set.
pub record Configuration : Type 0 where
  pub custom_http_headers : Option Headers
  pub proxy_config : Option ProxyConfig
  pub client_validate_ssl : Bool
  pub ssl_trust_certificate_path : Option Bytes
  pub ssl_verify_callback : Bool

-- sync::HTTPMethod, sync::HTTPRequest and sync::HTTPResponse; a path that is not assigned is core's.
pub data CoreMethod : Type 0 where
  core_get core_put core_post core_patch core_delete core_connect : CoreMethod

pub record CoreRequest : Type 0 where
  pub method : CoreMethod
  pub headers : Headers
  pub path : Option Bytes
  pub body : Option Bytes

pub record CoreResponse : Type 0 where
  pub status : ℕ
  pub headers : Headers
  pub body : Option Bytes

-- An error code is its value, 0 for none.
pub record World : Type 1 where
  pub Address : Type 0
  pub Endpoint : Type 0
  -- whether the constructor of util::Uri takes a text; otherwise it throws
  pub is_uri : Bytes → Bool
  pub uri_scheme : Bytes → Bytes
  pub uri_host : Bytes → Bytes
  pub uri_port : Bytes → Bytes
  pub make_address : Bytes → Address × ℕ × Bytes
  pub endpoint : Address → ℕ → Endpoint
  -- `none` and `false` are exceptions
  pub resolve : Bytes → Bytes → Option Endpoint
  pub connect : Endpoint → Bool
  pub operation_aborted : ℕ
  pub base64 : Bytes → Bytes
  pub port_values : ℕ
  -- equality of header names
  pub same : Bytes → Bytes → Bool
  -- The set-up of TLS; `false` is an exception.
  pub use_certificate_chain_file : Bytes → Bool
  pub use_default_verify : Bool
  pub set_host_name : Bytes → Bool
  pub set_verify_mode : Bool
  -- The answers to CONNECT, to the handshake with a host, and to a request; `none` is an exception
  -- of the call that starts them or of the service that runs them.
  pub proxy_answer : Endpoint → CoreRequest → Option (CoreResponse × ℕ)
  pub handshake : Endpoint → Bytes → Option ℕ
  pub answer : Endpoint → CoreRequest → Option CoreResponse
