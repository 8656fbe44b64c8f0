-- ===== src/Network/Transport/Requests.antt =====
-- What a call of send_request_to_server does, on all of its paths.
use barq_native.Prelude.{
  ◌==◌, ◌≡◌, refl, sym, ◌∙◌, ◌⊎◌, inl, inr, true, false, Option, none, some, [], length,
  Option-cases, Bool-cases,
}
use barq_native.Prelude.Bytes.{Bytes}
use barq_native.Network.Transport.World.{Request, ProxyConfig, Configuration, CoreRequest, World}
use barq_native.Network.Transport.Model.{
  Tls, UrlScheme, http, https, unknown, get_url_scheme, threw, Connected, trust, set_up_stream,
  port_or_default, connected, bad_address, throws, open_connection, proxy_request, proxy_failure,
  core_request, Run, returned, waiting, undefined, exchange, post_request, secure, after_opening,
  through_proxy, send_request_to_server,
}

-- An exception of a call of core outside the `try` block, for this configuration and request
pub data Raised (w : World) (c : Configuration) (q : Request) : Type 0 where
  invalid_url : w.is_uri q.url ≡ false → Raised w c q
  proxy_request_throws :
      (p : ProxyConfig) (e : w.Endpoint) (r : CoreRequest)
      → c.proxy_config ≡ some p
      → w.proxy_answer e r ≡ none
      → Raised w c q
  certificate_file_throws :
      (path : Bytes)
      → c.ssl_trust_certificate_path ≡ some path
      → w.use_certificate_chain_file path ≡ false
      → Raised w c q
  default_verify_throws :
      c.ssl_trust_certificate_path ≡ none → w.use_default_verify ≡ false → Raised w c q
  host_name_throws : w.set_host_name (w.uri_host q.url) ≡ false → Raised w c q
  verify_mode_throws : c.client_validate_ssl ≡ true → w.set_verify_mode ≡ false → Raised w c q
  handshake_throws : (e : w.Endpoint) → w.handshake e (w.uri_host q.url) ≡ none → Raised w c q
  request_throws :
      (e : w.Endpoint) → w.answer e (core_request w c q (w.uri_host q.url)) ≡ none → Raised w c q

-- The caller hears of the request exactly once, unless core threw where the function does not catch
-- it, or the run is undefined because a verification callback is set: then the caller hears nothing.
pub data CompletesOnce (w : World) (c : Configuration) (q : Request) (r : Run) : Type 0 where
  heard :
      (r.ending ≡ returned) ⊎ (r.ending ≡ waiting)
      → length r.completions ≡ 1
      → CompletesOnce w c q r
  raised : r.ending ≡ threw → Raised w c q → r.completions ≡ [] → CompletesOnce w c q r
  lost :
      r.ending ≡ undefined
      → c.ssl_verify_callback ≡ true
      → r.completions ≡ []
      → CompletesOnce w c q r

impossible : true ≡ false → ⊥
impossible e = cc

module _ (w : World) (c : Configuration) (q : Request) where
  exchange-CompletesOnce :
      (e : w.Endpoint) (t : Option Tls)
      → CompletesOnce w c q (exchange w c q (w.uri_host q.url) e t)
  unfolding exchange
  exchange-CompletesOnce e t =
      elim (Option-cases (w.answer e (core_request w c q (w.uri_host q.url)))) [
        | inl none_given ↦
            rw (exchange, none_given) (raised refl (request_throws e none_given) refl)
        | inr (r, given) ↦ rw (exchange, given) (heard (inl refl) refl)
      ]

  post_request-CompletesOnce :
      (e : w.Endpoint) (s : UrlScheme)
      → CompletesOnce w c q (post_request w c q (w.uri_host q.url) e s)
  unfolding post_request
  post_request-CompletesOnce e https = elim (Option-cases (w.handshake e (w.uri_host q.url))) [
    | inl h ↦ rw (post_request, h) (raised refl (handshake_throws e h) refl)
    | inr (error, h) ↦ elim (Bool-cases (error == 0)) [
      | inl b ↦ rw (post_request, h, b) (exchange-CompletesOnce e _)
      | inr b ↦ rw (post_request, h, b) (heard (inl refl) refl)
    ]
  ]
  post_request-CompletesOnce e http = exchange-CompletesOnce e none
  post_request-CompletesOnce e unknown = exchange-CompletesOnce e none

  trust-Raised : trust w c ≡ false → Raised w c q
  unfolding trust
  trust-Raised h = elim (Option-cases c.ssl_trust_certificate_path) [
    | inl unset ↦ default_verify_throws unset (sym (rw (trust, unset) refl) ∙ h)
    | inr (path, set) ↦ certificate_file_throws path set (sym (rw (trust, set) refl) ∙ h)
  ]

  set_up_stream-Raised :
      (s : UrlScheme) → set_up_stream w c (w.uri_host q.url) s ≡ false → Raised w c q
  unfolding set_up_stream
  set_up_stream-Raised https h = elim (Bool-cases (w.set_host_name (w.uri_host q.url))) [
    | inr named ↦ host_name_throws named
    | inl named ↦ elim (Bool-cases c.client_validate_ssl) [
      | inl validated ↦ verify_mode_throws validated (sym (rw (named, validated) refl) ∙ h)
      | inr validated ↦ absurd (impossible (sym (rw (named, validated) refl) ∙ h))
    ]
  ]
  set_up_stream-Raised http h = absurd (impossible h)
  set_up_stream-Raised unknown h = absurd (impossible h)

  secure-CompletesOnce : (e : w.Endpoint) → CompletesOnce w c q (secure w c q (w.uri_host q.url) e)
  unfolding secure
  secure-CompletesOnce e =
      let scheme = get_url_scheme (w.uri_scheme q.url) in
      elim (Bool-cases (trust w c)) [
        | inr t ↦ rw (secure, t) (raised refl (trust-Raised t) refl)
        | inl t ↦ elim (Bool-cases c.ssl_verify_callback) [
          | inl v ↦ simp (secure, t, v) (lost refl v refl)
          | inr v ↦ elim (Bool-cases (set_up_stream w c (w.uri_host q.url) scheme)) [
            | inr u ↦ simp (secure, t, v, u) (raised refl (set_up_stream-Raised scheme u) refl)
            | inl u ↦ simp (secure, t, v, u) (post_request-CompletesOnce e scheme)
          ]
        ]
      ]

  through_proxy-CompletesOnce :
      (port : Bytes) (e : w.Endpoint)
      → CompletesOnce w c q (through_proxy w c q (w.uri_host q.url) port e)
  unfolding through_proxy
  through_proxy-CompletesOnce port e = elim (Option-cases c.proxy_config) [
    | inl direct ↦ simp (through_proxy, direct) (secure-CompletesOnce e)
    | inr (p, proxied) ↦
        let r = proxy_request w p (w.uri_host q.url) port in
        elim (Option-cases (w.proxy_answer e r)) [
          | inl h ↦
              simp (through_proxy, proxied, h)
                (raised refl (proxy_request_throws p e r proxied h) refl)
          | inr (answered, h) ↦ elim (Option-cases (proxy_failure w answered)) [
            | inl passed ↦ simp (through_proxy, proxied, h, passed) (secure-CompletesOnce e)
            | inr (failure, f) ↦ simp (through_proxy, proxied, h, f) (heard (inr refl) refl)
          ]
        ]
  ]

  after_opening-CompletesOnce :
      (port : Bytes) (o : Connected w)
      → CompletesOnce w c q (after_opening w c q (w.uri_host q.url) port o)
  after_opening-CompletesOnce port (bad_address error message) = heard (inl refl) refl
  after_opening-CompletesOnce port throws = heard (inl refl) refl
  after_opening-CompletesOnce port (connected e) = through_proxy-CompletesOnce port e

  -- In every world and for every configuration and request, send_request_to_server calls the
  -- completion exactly once and then returns, or waits for a service that nobody stops; or an
  -- exception of core leaves it, from the URL, the request to the proxy, the set-up of TLS, the
  -- handshake or the request, and the completion is not called; or its run is undefined, the
  -- completion is not called and a verification callback is configured.
  pub send_request_to_server-CompletesOnce : CompletesOnce w c q (send_request_to_server w c q)
  unfolding send_request_to_server
  send_request_to_server-CompletesOnce =
      let host = w.uri_host q.url in
      let port = port_or_default host (w.uri_port q.url) in
      elim (Bool-cases (w.is_uri q.url)) [
        | inl u ↦
            rw (send_request_to_server, u)
              (after_opening-CompletesOnce port (open_connection w c.proxy_config host port))
        | inr u ↦ rw (send_request_to_server, u) (raised refl (invalid_url u) refl)
      ]
