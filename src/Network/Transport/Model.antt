-- ===== src/Network/Transport/Model.antt =====
-- The definitions. The certificates that BARQ_INCLUDE_CERTS builds in are left out.
use barq_native.Prelude.{
  ℕ, ◌%◌, ◌-◌, length, Bool, not, ◌&&◌, Option, none, some, List, [], ◌∷◌, ◌++◌, ltb, ◌==◌, true,
  is_empty, if◌then◌else◌,
}
use barq_native.Prelude.Int.{ℤ, pos, negsuc}
use barq_native.Prelude.Bytes.{Bytes, codes, bytes_eq, stoi, to_string}
use barq_native.Network.Headers.{Headers, assign, emplace, assign_all, emplace_all}
use barq_native.Network.Ipv4.{is_valid_ipv4}
use barq_native.Network.Transport.World.{
  HttpMethod, get, post, patch, put, del, Request, Response, ProxyConfig, Configuration, CoreMethod,
  core_get, core_put, core_post, core_patch, core_delete, core_connect, CoreRequest, CoreResponse,
  World,
}

pub data UrlScheme : Type 0 where
  http https unknown : UrlScheme

unfoldable pub get_url_scheme : Bytes → UrlScheme
get_url_scheme s =
    if bytes_eq s (codes "https:")
    then https
    else if bytes_eq s (codes "http:")
    then http
    else unknown

abbrev pub is_localhost : Bytes → Bool
is_localhost host = bytes_eq host (codes "localhost")

abbrev pub default_port : Bytes → Bytes
default_port host = if is_localhost host then codes "9090" else codes "443"

unfoldable pub port_or_default : Bytes → Bytes → Bytes
port_or_default host port = if is_empty port then default_port host else port

-- A conversion to the unsigned type of ports, std::uint_fast16_t, which has `m` values.
abbrev pub to_port : ℕ → ℤ → ℕ
to_port m (pos n) = n % m
to_port m (negsuc n) = m - 1 - n % m

-- A response that is built up from the default one.
abbrev pub blank : Response
blank = record {
  http_status_code = none;
  custom_status_code = none;
  headers = [];
  body = [];
  client_error_code = none;
}

unfoldable pub method_of : HttpMethod → CoreMethod
method_of get = core_get
method_of put = core_put
method_of post = core_post
method_of patch = core_patch
method_of del = core_delete

-- What the HTTP client's callback passes on; std::map keeps a header name once.
unfoldable pub to_response : CoreResponse → Response
to_response r = record blank {
  body = elim r.body [ none ↦ [] | some b ↦ b ];
  headers = assign_all bytes_eq r.headers [];
  http_status_code = some r.status;
  custom_status_code = some 0;
}

-- A call of the function: what it sent and how it configured TLS, the responses it completed with,
-- and whether it returned, waits for ever for its service to be stopped, ended by an exception of
-- core that it does not catch, or is undefined.
pub record Tls : Type 0 where
  pub host_name : Bytes
  pub verify_peer : Bool
  pub certificates : Option Bytes

pub data Ending : Type 0 where
  returned waiting threw undefined : Ending

pub record Run : Type 0 where
  pub completions : List Response
  pub sent : Option CoreRequest
  pub tls : Option Tls
  pub ending : Ending

abbrev pub completed : Response → Ending → Run
completed r e = record { completions = r ∷ []; sent = none; tls = none; ending = e }

-- An exception that leaves the function; it destroys the completion with the function's locals.
abbrev pub thrown : Option Tls → Run
thrown t = record { completions = []; sent = none; tls = t; ending = threw }

abbrev pub tls_of : Configuration → Bytes → Tls
tls_of c host = record {
  host_name = host;
  verify_peer = c.client_validate_ssl;
  certificates = c.ssl_trust_certificate_path;
}

-- What the first part of the function, the `try` block, comes to.
pub data Connected (w : World) : Type 0 where
  connected : w.Endpoint → Connected w
  bad_address : ℕ → Bytes → Connected w
  throws : Connected w

module _ (w : World) where
  open w use {
    Endpoint, is_uri, use_certificate_chain_file, use_default_verify, set_host_name,
    set_verify_mode, uri_scheme, uri_host, uri_port, make_address, endpoint, resolve, connect,
    operation_aborted, base64, port_values, same, proxy_answer, handshake, answer,
  }

  abbrev resolved : Option Endpoint → Connected w
  resolved none = throws
  resolved (some e) = connected e

  abbrev connecting : Connected w → Connected w
  connecting (connected e) = if connect e then connected e else throws
  connecting other = other

  unfoldable pub proxy_endpoint : ProxyConfig → Connected w
  proxy_endpoint p =
      let proxy_host = uri_host p.address in
      let (address, error, message) = make_address p.address in
      if not (is_uri p.address)
      then throws
      else if is_empty proxy_host
      then (if ltb 0 error then bad_address error message else connected (endpoint address p.port))
      else resolved (resolve proxy_host (to_string p.port))

  -- A host name is looked up with the default port, whichever port the URL has.
  unfoldable pub direct_endpoint : Bytes → Bytes → Connected w
  direct_endpoint host port =
      if is_valid_ipv4 host
      then elim (stoi port) [
        | none ↦ throws
        | some n ↦ connected (endpoint (make_address host).0 (to_port port_values n))
      ]
      else resolved (resolve host (default_port host))

  unfoldable pub open_connection : Option ProxyConfig → Bytes → Bytes → Connected w
  open_connection (some p) host port = connecting (proxy_endpoint p)
  open_connection none host port = connecting (direct_endpoint host port)

  unfoldable pub proxy_request : ProxyConfig → Bytes → Bytes → CoreRequest
  proxy_request p host port =
      let host_header = emplace same (codes "Host") (host ++ b':' ∷ port) [] in
      record {
        method = core_connect;
        headers = elim p.username_password [
          | none ↦ host_header
          | some (user, password) ↦
              emplace same (codes "Proxy-Authorization")
                (codes "Basic " ++ base64 (user ++ b':' ∷ password)) host_header
        ];
        path = none;
        body = none;
      }

  -- The handler of CONNECT: a response for the caller, unless it stops the service.
  unfoldable pub proxy_failure : CoreResponse × ℕ → Option Response
  proxy_failure (r, ec) =
      if not (ec == 0) && not (ec == operation_aborted)
      then some (record blank { custom_status_code = some operation_aborted })
      else if not (r.status == 200)
      then some (record blank { http_status_code = some (r.status % 65536) })
      else none

  -- The headers of the request and those that the transport sets itself.
  unfoldable pub own_headers : Request → Bytes → Headers
  own_headers q host =
      let given = assign_all same q.headers [] in
      let named =
        assign same (codes "User-Agent") (codes "Barq Native")
          (assign same (codes "Host") host given) in
      if is_empty q.body
      then named
      else assign same (codes "Content-Length") (to_string (length q.body)) named

  unfoldable pub request_headers : Configuration → Request → Bytes → Headers
  request_headers c q host = elim c.custom_http_headers [
    | none ↦ own_headers q host
    | some custom ↦ emplace_all same custom (own_headers q host)
  ]

  unfoldable pub core_request : Configuration → Request → Bytes → CoreRequest
  core_request c q host = record {
    method = method_of q.method;
    headers = request_headers c q host;
    path = some q.url;
    body = if is_empty q.body then none else some q.body;
  }

  unfoldable pub exchange : Configuration → Request → Bytes → Endpoint → Option Tls → Run
  exchange c q host e tls =
      let r = core_request c q host in
      elim (answer e r) [
        | none ↦ thrown tls
        | some response ↦ record {
          completions = to_response response ∷ [];
          sent = some r;
          tls = tls;
          ending = returned;
        }
      ]

  -- The posted task: a handshake for HTTPS, and the exchange if there is no error.
  unfoldable pub post_request : Configuration → Request → Bytes → Endpoint → UrlScheme → Run
  post_request c q host e https = elim (handshake e host) [
    | none ↦ thrown (some (tls_of c host))
    | some error ↦ if error == 0 then exchange c q host e (some (tls_of c host)) else record {
      completions = (record blank { custom_status_code = some operation_aborted }) ∷ [];
      sent = none;
      tls = some (tls_of c host);
      ending = returned;
    }
  ]
  post_request c q host e _ = exchange c q host e none

  -- The roots that certificates are verified with
  unfoldable pub trust : Configuration → Bool
  trust c = elim c.ssl_trust_certificate_path [
    | some path ↦ use_certificate_chain_file path
    | none ↦ use_default_verify
  ]

  -- The TLS stream of a connection for HTTPS
  unfoldable pub set_up_stream : Configuration → Bytes → UrlScheme → Bool
  set_up_stream c host https =
      set_host_name host && (if c.client_validate_ssl then set_verify_mode else true)
  set_up_stream c host _ = true

  -- From the set-up of TLS on, which no `try` surrounds. The callback is handed to a TLS stream that
  -- does not exist yet.
  unfoldable pub secure : Configuration → Request → Bytes → Endpoint → Run
  unfolding trust set_up_stream
  secure c q host e =
      let scheme = get_url_scheme (uri_scheme q.url) in
      if not (trust c)
      then thrown none
      else if c.ssl_verify_callback
      then record { completions = []; sent = none; tls = none; ending = undefined }
      else if not (set_up_stream c host scheme)
      then thrown none
      else post_request c q host e scheme

  unfoldable pub through_proxy : Configuration → Request → Bytes → Bytes → Endpoint → Run
  through_proxy c q host port e = elim c.proxy_config [
    | none ↦ secure c q host e
    | some p ↦ elim (proxy_answer e (proxy_request p host port)) [
      | none ↦ thrown none
      | some answered ↦ elim (proxy_failure answered) [
        | some r ↦ completed r waiting
        | none ↦ secure c q host e
      ]
    ]
  ]

  abbrev pub after_opening : Configuration → Request → Bytes → Bytes → Connected w → Run
  after_opening c q host port (bad_address error message) =
      completed (record blank { custom_status_code = some error; body = message }) returned
  after_opening c q host port throws =
      completed (record blank { custom_status_code = some operation_aborted }) returned
  after_opening c q host port (connected e) = through_proxy c q host port e

  unfoldable pub send_request_to_server : Configuration → Request → Run
  send_request_to_server c q =
      let host = uri_host q.url in
      let port = port_or_default host (uri_port q.url) in
      if is_uri q.url
      then after_opening c q host port (open_connection c.proxy_config host port)
      else thrown none
