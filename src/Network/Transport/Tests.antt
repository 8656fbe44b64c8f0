-- ===== src/Network/Transport/Tests.antt =====
-- The transport in a small world, where every call succeeds unless it is told otherwise.
use barq_native.Prelude.{ℕ, ◌≡◌, refl, true, false, none, some, [], ◌∷◌}
use barq_native.Prelude.Bytes.{codes, bytes_eq}
use barq_native.Network.Ipv4.{is_valid_ipv4, segments}
use barq_native.Network.Transport.World.{Request, post, ProxyConfig, Configuration, World}
use barq_native.Network.Transport.Model.{
  threw, open_connection, direct_endpoint, port_or_default, through_proxy, secure, trust,
  send_request_to_server,
}
use barq_native.Network.Transport.Requests.{CompletesOnce, send_request_to_server-CompletesOnce}

-- A world whose proxy answers CONNECT with a status, and whose URLs have the host example.org.
abbrev pub world : ℕ → World
world status = record {
  Address = ℕ;
  Endpoint = ℕ;
  is_uri = λ u. true;
  uri_scheme = λ u. codes "https:";
  uri_host = λ u. codes "example.org";
  uri_port = λ u. codes "8443";
  make_address = λ t. (1, 0, []);
  endpoint = λ a p. p;
  resolve = λ h s. some 5;
  connect = λ e. true;
  operation_aborted = 995;
  base64 = λ t. t;
  port_values = 65536;
  same = bytes_eq;
  use_certificate_chain_file = λ path. true;
  use_default_verify = true;
  set_host_name = λ h. true;
  set_verify_mode = true;
  proxy_answer = λ e r. some (record { status = status; headers = []; body = none }, 0);
  handshake = λ e h. some 0;
  answer = λ e r. some (record { status = 201; headers = []; body = r.body });
}

abbrev pub plain : Configuration
plain = record {
  custom_http_headers = some ((codes "Host", codes "elsewhere") ∷ []);
  proxy_config = none;
  client_validate_ssl = true;
  ssl_trust_certificate_path = none;
  ssl_verify_callback = false;
}

abbrev proxy : ProxyConfig
proxy = record { address = codes "proxy"; port = 3128; username_password = none }

abbrev proxied : Configuration
proxied = record plain { proxy_config = some proxy }

abbrev pub login : Request
login = record {
  method = post;
  url = codes "https://example.org:8443/login";
  timeout_ms = 1000;
  headers = [];
  body = codes "name";
}

send_request_to_server-CompletesOnce_example :
    CompletesOnce (world 200) plain login (send_request_to_server (world 200) plain login)
send_request_to_server-CompletesOnce_example =
    send_request_to_server-CompletesOnce (world 200) plain login

example_named : is_valid_ipv4 (codes "example.org") ≡ false
unfolding is_valid_ipv4 segments
example_named = refl

-- The default roots cannot be loaded.
abbrev without_roots : World
without_roots = record (world 200) { use_default_verify = false }

example_throws :
    ((send_request_to_server without_roots plain login).ending ≡ threw)
    × ((send_request_to_server without_roots plain login).completions ≡ [])
unfolding send_request_to_server open_connection direct_endpoint is_valid_ipv4 segments
    port_or_default through_proxy secure trust
example_throws = (refl, refl)
