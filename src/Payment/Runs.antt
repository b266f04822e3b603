-- ===== src/Payment/Runs.antt =====
-- services/payment-service/app/routes/payments.py and webhooks.py: the requests, with the roles that
-- they need, and any number of them.
use market_place_app.Prelude.{ℕ, String, Bool, true, Option, List, [], ◌∷◌, arith, All, not}
use market_place_app.Prelude.Session.{◌>>◌, raise_if, pure, service_error, request}
use market_place_app.Prelude.Principal.{Principal, has_role}
use market_place_app.Payment.Model.{PaymentDb}
use market_place_app.Payment.Clients.{Peers, forbidden}
use market_place_app.Payment.Service.{create_payment, create_refund}
use market_place_app.Payment.Stores.{Handler, Surroundings, RefundCreate}
use market_place_app.Payment.Webhook.{StripeEvent, handle_webhook_event}
use market_place_app.Payment.Bounds.{IsWithin}
use market_place_app.Payment.Keeping.{
  create_payment-IsWithin, create_refund-IsWithin, handle_webhook_event-IsWithin,
}

pub data Request : Type 0 where
  pay : ℕ → String → Option String → Request
  refund : ℕ → RefundCreate → Option String → Request
  event : StripeEvent → Request

pub record Call : Type 0 where
  pub caller : Principal
  pub surroundings : Surroundings
  pub body : Request

-- `require_roles("buyer", "admin")`; an event carries no token.
unfoldable pub permitted : Request → Principal → Bool
permitted (pay order token key) p = has_role p ("buyer" ∷ "admin" ∷ [])
permitted (refund id body key) p = has_role p ("buyer" ∷ "admin" ∷ [])
permitted (event e) p = true

module _ {W : Type 0} (peers : Peers W) where
  unfoldable pub respond : Surroundings → Principal → Request → Handler W Unit
  respond env p (pay order token key) = do create_payment peers env order p token key; pure tt
  respond env p (refund id body key) = do create_refund peers env id body p key; pure tt
  respond env p (event e) = handle_webhook_event peers e env.request_id

  unfoldable pub serve : Call → Handler W Unit
  unfolding respond permitted
  serve c = do
    raise_if (not (permitted c.body c.caller)) (service_error 403 forbidden)
    respond c.surroundings c.caller c.body

  unfoldable pub step : Call → PaymentDb → W → PaymentDb × W
  unfolding serve
  step c d w = let (r, d', w') = request (serve c) d w in (d', w')

  unfoldable pub run : List Call → PaymentDb → W → PaymentDb × W
  run [] d w = (d, w)
  run (c ∷ cs) d w = let (d', w') = step c d w in run cs d' w'

-- Other requests that commit meanwhile keep the bounds as well.
abbrev pub OthersKeep : ℕ → Call → Type 0
OthersKeep k c = (d : PaymentDb) → IsWithin k d → IsWithin k (c.surroundings.others d)

module _ {W : Type 0} (peers : Peers W) (k : ℕ) where
  respond-IsWithin :
      (env : Surroundings) (p : Principal) (r : Request) (d : PaymentDb) (w : W)
      → IsWithin k (env.others d)
      → IsWithin k d
      → IsWithin k (request (respond peers env p r) d w).1
  unfolding respond
  respond-IsWithin env p (pay order token key) d w o h =
      ground (arith, create_payment-IsWithin peers k env p d w h order token key o)
  respond-IsWithin env p (refund id body key) d w o h =
      ground (arith, create_refund-IsWithin peers k env p d w h id body key)
  respond-IsWithin env p (event e) d w o h =
      handle_webhook_event-IsWithin peers k env.request_id e d w h

  step-IsWithin :
      (c : Call) (d : PaymentDb) (w : W)
      → IsWithin k (c.surroundings.others d)
      → IsWithin k d
      → IsWithin k (step peers c d w).0
  unfolding step
  step-IsWithin c d w o h = ground (arith, respond-IsWithin c.surroundings c.caller c.body d w o h)

  -- Whatever is requested and whatever Stripe and the order service answer, the successful refunds
  -- of a payment never add up to more than its amount, where they do not at first and other requests
  -- that commit meanwhile keep that.
  pub run-IsWithin :
      (cs : List Call) (d : PaymentDb) (w : W)
      → All (OthersKeep k) cs
      → IsWithin k d
      → IsWithin k (run peers cs d w).0
  unfolding run
  run-IsWithin [] d w o h = h
  run-IsWithin (c ∷ cs) d w o h =
      run-IsWithin cs (step peers c d w).0 (step peers c d w).1 o.1
        (step-IsWithin c d w (o.0 d h) h)
