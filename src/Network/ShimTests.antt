-- ===== src/Network/ShimTests.antt =====
-- The shim over the transport in a small world.
use barq_native.Prelude.{◌≡◌, refl, some}
use barq_native.Network.Transport.{send_request_to_server}
use barq_native.Network.Transport.Tests.{world, plain, login}
use barq_native.Network.Endpoint.{CoreTransportRequest, to_request, http_method_of}
use barq_native.Network.Shims.{HeardOnce, shim_send, shim_send-HeardOnce}

abbrev core_login : CoreTransportRequest
core_login = record {
  method = 1;
  url = login.url;
  timeout_ms = login.timeout_ms;
  headers = login.headers;
  body = login.body;
}

core_login-to_request : to_request core_login ≡ some login
unfolding to_request http_method_of
core_login-to_request = refl

shim_send-HeardOnce_example :
    HeardOnce
      (world 200)
      plain
      login
      (send_request_to_server (world 200) plain login)
      (shim_send (world 200) plain core_login)
shim_send-HeardOnce_example =
    shim_send-HeardOnce (world 200) plain core_login login core_login-to_request
