-- ===== src/Network/Transport/Sending.antt =====
-- What send_request_to_server connects to and sends, and the headers that it sets.
use barq_native.Prelude.{
  ◌%◌, ◌≡◌, refl, ◌≢◌, ◌⊎◌, inl, inr, Bool, true, false, Option, none, some, [], ◌∷◌, arith, length,
  Option-cases, Bool-cases, is_empty,
}
use barq_native.Prelude.Bytes.{Bytes, codes, to_string}
use barq_native.Network.Headers.{
  Headers, get, assign, assign_all, emplace_all, IsEquality, get-assign, get-emplace_all,
}
use barq_native.Network.Ipv4.{is_valid_ipv4}
use barq_native.Network.Transport.World.{Request, ProxyConfig, Configuration, CoreResponse, World}
use barq_native.Network.Transport.Model.{
  default_port, tls_of, Tls, UrlScheme, http, https, unknown, get_url_scheme, trust, set_up_stream,
  blank, direct_endpoint, open_connection, proxy_request, proxy_failure, own_headers,
  request_headers, core_request, to_response, returned, waiting, exchange, post_request, secure,
  through_proxy,
}

abbrev pub tls_for : Configuration → Bytes → UrlScheme → Option Tls
tls_for c host https = some (tls_of c host)
tls_for c host _ = none

module _ (w : World) (c : Configuration) (q : Request) where
  -- With no proxy and a host that is no IPv4 address, the connection that is opened does not
  -- depend on the port of the URL: it is the one for the default port.
  named_host_port :
      is_valid_ipv4 (w.uri_host q.url) ≡ false
      → c.proxy_config ≡ none
      → (port : Bytes)
      → open_connection w c.proxy_config (w.uri_host q.url) port
        ≡ open_connection w c.proxy_config (w.uri_host q.url) (default_port (w.uri_host q.url))
  unfolding open_connection direct_endpoint
  named_host_port named direct port = simp (direct, named)

  module _ (host port : Bytes) (e : w.Endpoint) where
    -- When the proxy answers CONNECT without error and with a status other than 200, the run ends
    -- waiting for its service to be stopped, with nothing sent and one completion with that
    -- status modulo 65536.
    proxy_refusal :
        (p : ProxyConfig) (r : CoreResponse)
        → c.proxy_config ≡ some p
        → w.proxy_answer e (proxy_request w p host port) ≡ some (r, 0)
        → r.status ≢ 200
        → (through_proxy w c q host port e).ending ≡ waiting
          × ((through_proxy w c q host port e).sent ≡ none)
          × ((through_proxy w c q host port e).completions
              ≡ (record blank { http_status_code = some (r.status % 65536) }) ∷ [])
    unfolding through_proxy proxy_failure
    proxy_refusal p r proxied answered refused = ground arith

    post_request-sends :
        (s : UrlScheme) (r : CoreResponse)
        → (s ≡ https → w.handshake e host ≡ some 0)
        → w.answer e (core_request w c q host) ≡ some r
        → ((post_request w c q host e s).ending ≡ returned)
          × ((post_request w c q host e s).sent ≡ some (core_request w c q host))
          × ((post_request w c q host e s).completions ≡ to_response r ∷ [])
          × ((post_request w c q host e s).tls ≡ tls_for c host s)
    unfolding post_request exchange
    post_request-sends https r h a = rw (post_request, exchange, h refl, a) (refl, refl, refl, refl)
    post_request-sends http r h a = rw (post_request, exchange, a) (refl, refl, refl, refl)
    post_request-sends unknown r h a = rw (post_request, exchange, a) (refl, refl, refl, refl)

    -- With no verification callback, where TLS is set up, the handshake of HTTPS succeeds and
    -- nothing throws, the part of send_request_to_server after the proxy returns, has sent the
    -- request built from the caller's once, has passed its answer on as the one completion, and
    -- has set TLS up as configured for https and not at all for any other scheme.
    secure-sends :
        (r : CoreResponse)
        → c.ssl_verify_callback ≡ false
        → trust w c ≡ true
        → set_up_stream w c host (get_url_scheme (w.uri_scheme q.url)) ≡ true
        → (get_url_scheme (w.uri_scheme q.url) ≡ https → w.handshake e host ≡ some 0)
        → w.answer e (core_request w c q host) ≡ some r
        → ((secure w c q host e).ending ≡ returned)
          × ((secure w c q host e).sent ≡ some (core_request w c q host))
          × ((secure w c q host e).completions ≡ to_response r ∷ [])
          × ((secure w c q host e).tls ≡ tls_for c host (get_url_scheme (w.uri_scheme q.url)))
    unfolding secure
    secure-sends r unset trusted ready handshake answered =
        simp (secure, trusted, unset, ready)
          (post_request-sends (get_url_scheme (w.uri_scheme q.url)) r handshake answered)

-- The transport's own header names are three names.
pub record IsApart (same : Bytes → Bytes → Bool) : Type 0 where
  pub agent_host : same (codes "User-Agent") (codes "Host") ≡ false
  pub length_host : same (codes "Content-Length") (codes "Host") ≡ false
  pub length_agent : same (codes "Content-Length") (codes "User-Agent") ≡ false

module _ (w : World) (eq : IsEquality w.same) (apart : IsApart w.same) (q : Request)
    (host : Bytes) where
  -- The three headers as a map has them.
  abbrev pub HasFixed : Headers → Type 0
  HasFixed hs =
      (get w.same (codes "Host") hs ≡ some host)
      × (get w.same (codes "User-Agent") hs ≡ some (codes "Barq Native"))
      × ((is_empty q.body ≡ true)
          ⊎ (get w.same (codes "Content-Length") hs ≡ some (to_string (length q.body))))

  named : Headers
  named =
      assign w.same (codes "User-Agent") (codes "Barq Native")
        (assign w.same (codes "Host") host (assign_all w.same q.headers []))

  get-named :
      (get w.same (codes "Host") named ≡ some host)
      × (get w.same (codes "User-Agent") named ≡ some (codes "Barq Native"))
  unfolding named
  get-named = (
    simp (get-assign w.same eq, apart.agent_host, eq.reflexive),
    simp (get-assign w.same eq, eq.reflexive),
  )

  own_headers-HasFixed : HasFixed (own_headers w q host)
  unfolding own_headers named
  own_headers-HasFixed = elim (Bool-cases (is_empty q.body)) [
    | inl none_sent ↦ rw none_sent (get-named.0, get-named.1, inl refl)
    | inr sent ↦ rw sent (
      simp (get-assign w.same eq, apart.length_host, apart.agent_host, eq.reflexive),
      simp (get-assign w.same eq, apart.length_agent, eq.reflexive),
      inr (simp (get-assign w.same eq, eq.reflexive)),
    )
  ]

  HasFixed-emplace_all :
      (custom hs : Headers) → HasFixed hs → HasFixed (emplace_all w.same custom hs)
  HasFixed-emplace_all custom hs f = (
    get-emplace_all w.same eq custom _ _ hs f.0,
    get-emplace_all w.same eq custom _ _ hs f.1,
    elim f.2 [
      | inl none_sent ↦ inl none_sent
      | inr sent ↦ inr (get-emplace_all w.same eq custom _ _ hs sent)
    ],
  )

  -- If the equality of header names is an equality and tells the three names apart, then in the
  -- headers that are sent Host is the host, User-Agent is Barq Native, and for a body that is not
  -- empty Content-Length is its length, whatever headers the request and the configuration give.
  request_headers-HasFixed : (c : Configuration) → HasFixed (request_headers w c q host)
  unfolding request_headers
  request_headers-HasFixed c = elim (Option-cases c.custom_http_headers) [
    | inl unset ↦ rw unset own_headers-HasFixed
    | inr (custom, set) ↦ rw set (HasFixed-emplace_all custom _ own_headers-HasFixed)
  ]
