-- ===== src/Network/Shims.antt =====
-- create_http_client_shim of src/barq_native/internal/networking/shims.cpp: the completion function of
-- core, which is released from its owner and deleted by the callback that the transport calls.
use barq_native.Prelude.{
  ◌≡◌, ◌⊎◌, inl, inr, refl, ap, Bool, true, false, none, some, List, [], ◌∷◌, ◌++◌, length, arith,
}
use barq_native.Network.Transport.World.{Request, Response, Configuration, World}
use barq_native.Network.Transport.Model.{
  Run, returned, waiting, threw, undefined, send_request_to_server,
}
use barq_native.Network.Transport.Requests.{
  Raised, CompletesOnce, heard, raised, lost, send_request_to_server-CompletesOnce,
}
use barq_native.Network.Endpoint.{
  CoreTransportRequest, CoreTransportResponse, to_request, to_core_response,
}

pub data Allocation : Type 0 where
  allocated deleted : Allocation

-- The function that completion_ptr points to, what it was called with, and whether a function that
-- is deleted was called and deleted again.
pub record Delivery : Type 0 where
  pub function : Allocation
  pub told : List CoreTransportResponse
  pub deleted_again : Bool

-- After completion.release()
abbrev pub released : Delivery
released = record { function = allocated; told = []; deleted_again = false }

-- The callback: the pointer gets an owner, the function is called, and the owner deletes it.
unfoldable pub call_back : Response → Delivery → Delivery
call_back response d = elim d.function [
  | allocated ↦ record d { function = deleted; told = d.told ++ to_core_response response ∷ [] }
  | deleted ↦ record d { deleted_again = true }
]

unfoldable pub call_back_each : List Response → Delivery → Delivery
unfolding call_back
call_back_each [] d = d
call_back_each (response ∷ rest) d = call_back_each rest (call_back response d)

-- send_request_to_server of the shim over the default transport. A method that is no enumerator of
-- core is left aside, as if the transport did nothing.
unfoldable pub shim_send : World → Configuration → CoreTransportRequest → Delivery
unfolding call_back_each
shim_send w c request = elim (to_request request) [
  | none ↦ released
  | some q ↦ call_back_each (send_request_to_server w c q).completions released
]

singleton : {A : Type 0} (l : List A) → length l ≡ 1 → (x : A) × (l ≡ x ∷ [])
singleton [] h = absurd (omega arith)
singleton (x ∷ []) h = (x, refl)
singleton (x ∷ y ∷ l) h = absurd (omega arith)

-- What becomes of the function: it is called once and deleted by the call, or, when an exception
-- leaves the transport or its run is undefined, it is neither called nor deleted.
pub data HeardOnce (w : World) (c : Configuration) (q : Request) (r : Run) (d : Delivery)
    : Type 0 where
  called_once :
      (r.ending ≡ returned) ⊎ (r.ending ≡ waiting)
      → (response : Response) → r.completions ≡ response ∷ []
      → (d ≡ record {
        function = deleted;
        told = to_core_response response ∷ [];
        deleted_again = false;
      })
      → HeardOnce w c q r d
  leaked :
      (r.ending ≡ threw) × Raised w c q ⊎ (r.ending ≡ undefined) × (c.ssl_verify_callback ≡ true)
      → d ≡ released
      → HeardOnce w c q r d

heard_once :
    (w : World) (c : Configuration) (q : Request) (r : Run)
    → CompletesOnce w c q r
    → HeardOnce w c q r (call_back_each r.completions released)
unfolding call_back_each call_back
heard_once w c q r (heard ended once) =
    let (response, e) = singleton r.completions once in
    called_once ended response e (ap (λ l. call_back_each l released) e)
heard_once w c q r (raised ended why e) =
    leaked (inl (ended, why)) (ap (λ l. call_back_each l released) e)
heard_once w c q r (lost ended callback e) =
    leaked (inr (ended, callback)) (ap (λ l. call_back_each l released) e)

-- In every world and for every configuration and request of core whose method is an enumerator,
-- when the default transport returns or waits, the function that the shim releases is called
-- exactly once, with the transport's response, and deleted once; when an exception of core leaves
-- the transport, or its run is undefined and a verification callback is configured, it is neither
-- called nor deleted.
pub shim_send-HeardOnce :
    (w : World) (c : Configuration) (request : CoreTransportRequest) (q : Request)
    → to_request request ≡ some q
    → HeardOnce w c q (send_request_to_server w c q) (shim_send w c request)
unfolding shim_send
shim_send-HeardOnce w c request q e =
    rw (shim_send, e)
      (heard_once w c q (send_request_to_server w c q) (send_request_to_server-CompletesOnce w c q))
