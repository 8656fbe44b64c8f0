-- ===== src/Network/Endpoint/Tests.antt =====
-- The conversions at concrete endpoints.
use barq_native.Prelude.{Bool, true, false, none, some, [], ◌∷◌}
use barq_native.Prelude.Bytes.{codes, bytes_eq, to_string}
use barq_native.Network.Transport.{Configuration}
use barq_native.Network.Endpoint.{
  ProtocolEnvelope, wss, barqs, WebsocketEndpoint, CoreEndpoint, UriWorld, bare_endpoint,
}

abbrev is_secure : ProtocolEnvelope → Bool
is_secure wss = true
is_secure barqs = true
is_secure _ = false

abbrev uris : UriWorld
uris = record {
  uri_scheme = λ u. codes "wss:";
  uri_host = λ u. codes "sync.example.org";
  uri_port = λ u. to_string 7800;
  uri_path = λ u. codes "/sync";
  uri_query = λ u. [];
  is_ssl = is_secure;
  base64 = λ t. t;
  port_values = 65536;
  same = bytes_eq;
}

abbrev sync_endpoint : WebsocketEndpoint
sync_endpoint = record { url = codes "wss://sync.example.org:7800/sync"; protocols = [] }

abbrev core_endpoint : CoreEndpoint
core_endpoint = record (bare_endpoint uris sync_endpoint true 7800) {
  proxy = some (record { address = codes "proxy"; port = 3128 });
}

abbrev with_credentials : Configuration
with_credentials = record {
  custom_http_headers = some ((codes "X-Client", codes "1") ∷ []);
  proxy_config = some (record {
    address = codes "proxy";
    port = 3128;
    username_password = some (codes "user", codes "secret");
  });
  client_validate_ssl = true;
  ssl_trust_certificate_path = none;
  ssl_verify_callback = false;
}
