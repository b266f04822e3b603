-- ===== src/Lib.antt =====
-- A model of the marketplace, in Python: its order, inventory, payment, shipping, cart and auth
-- services, the API gateway in front of them, and the assistant's rate limit and agent.
--
-- The parts and how they interact. A buyer checks out a cart at the order service
-- (services/order-service). It reads the cart from the cart service and the sellers from the
-- product service, reserves the stock of all lines as one group at the inventory service
-- (services/inventory-service), stores the order with its history, outbox event and audit record,
-- and tells the cart and the notification service. The payment service (services/payment-service)
-- opens a payment at Stripe, and reports to the order service what Stripe's events say of it,
-- which commits the group or releases it; it also pays refunds. The shipping service
-- (services/shipping-service) advances the order with each shipment; a buyer or an admin may
-- cancel. All requests from outside come through the gateway (services/api-gateway), which
-- resolves the path to a service and leaves a failing service alone for a while. The auth service
-- (services/auth-service) registers accounts and gives out the tokens that the others check. The
-- assistant (services/assistant-service) lets a language model call tools that read the shop and
-- write the cart. The inventory keeps for each item what is on hand and what is reserved, a row for
-- each reservation and each movement, and an expiry sweep.
--
-- Files.
--   Prelude: tests on numbers and texts, lists, signed integers, tables of rows in the order of
--     their keys (Table), a request handler with a database session, exceptions and calls of other
--     services (Session), what a handler keeps (Triple), and the caller (Principal, of app/auth.py and
--     app/dependencies/auth.py).
--   Order.Model: services/order-service/app/models.py, repository.py, and bodies of schemas.py.
--   Order.Clients: app/clients.py and auth_client.py. The other services are the record Peers.
--   Order.Transitions, Service: app/service.py, all but `create`: customer_order, cancel, payment_authorized
--     (payment_authorized_handler here), payment_failed (payment_failed_handler),
--     payment_refunded, fulfillment, _locked, _transition (transition, write_transition), _event,
--     _audit. A handler of several stages has a definition for each: withdraw, authorize, decline.
--   Order.Drafts, Checkout: `create` of app/service.py in stages: place, reserve, persist, announce.
--   Order.Routes: the guards and dispatch of app/routes.py for requests that change an order.
--   Order.Lifecycle, Runs, Logged, Lines, Placing, Uniqueness, Checkouts, Payments: proofs.
--   Inventory.Model: services/inventory-service/app/models and the queries of
--     app/repositories/inventory_repository.py.
--   Inventory.Writes, Resolving, Stock, Items, Reservations, Groups, GroupEnds:
--     app/services/inventory_service.py, every method that changes state under its own name;
--     `_resolve_reservation` is resolve_reservation, `_idempotency_lookup` is idempotency_lookup,
--     and so on. What a method writes once its checks have passed is a definition write_...
--   Inventory.Consistency, Lookup, Keeping, Loops, Sweeps, Batch, Runs, Outcomes: proofs.
--   Payment.Model: services/payment-service/app/models, the queries of repositories/
--     payment_repository.py and what is derived from the rows.
--   Payment.Clients: services/order_client.py, stripe_client.py and auth_client.py there.
--   Payment.Stores, Service, Webhook: services/payment_service.py there, its methods under their names, with
--     get_payment as visible_payment; the stages of create_payment are open_payment and
--     store_payment, those of create_refund are refund_payment, pay_back, record_refund,
--     store_refund and report_refund.
--   Payment.Runs: routes/payments.py and webhooks.py, any number of requests, and the bound.
--   Payment.Bounds, Keeping, Seen, Refunds, Deliveries: proofs.
--   Shipping.Model, Clients, Service, Routes: the same files of services/shipping-service/app; what a
--     handler writes once the order has advanced is booked, handed_over and arrived.
--   Cart.Model, Clients: services/cart-service/app/models, repositories/cart_repository.py, bodies of
--     schemas/cart.py, and the two clients of clients.py.
--   Cart.Items: what services/cart_service.py does to the items of a cart that it has locked.
--   Cart.Service, Changes, Readiness: its methods under their names; the lines that they begin and
--     end with are locked_cart and finish. Cart.Runs: routes/cart.py, any number of requests.
--   Cart.Tidy, Keeping, Operations, Merging: proofs.
--   Market.OrderApi: the order service's fulfilment callback over HTTP: app/exceptions.py, the check
--     in schemas.py and the route. Market.Shipments puts the shipping service on top of it;
--     Market.InStep and Fulfilment: proofs.
--   Gateway.Breaker, Routing, Headers, Proxy: services/api-gateway/app/services/circuit_breaker.py,
--     routing.py and proxy_service.py, and routes/proxy.py.
--   Gateway.BreakerHistory, Resolve, Forwarding, ReadHeaders: proofs.
--   Assistant.RateLimit: services/assistant-service/app/middleware/rate_limit.py.
--   Assistant.Agent: services/assistant-service/app/agent/loop.py, and the reply of routes/chat.py.
--   Assistant.ChatBounds, Admission, Retry, AgentTurns, AgentEnds: proofs.
--   Auth.Texts, Model: services/auth-service/app/models.py, the queries of routes.py there and the
--     texts that it compares.
--   Auth.Environment, Dependencies: config.py, audit.py, notification_client.py and dependencies.py
--     there, and the tokens of routes.py. The libraries for passwords, digests and tokens are the
--     record Auth.
--   Auth.Accounts, Login, Tokens, Recovery: the handlers of routes.py and session_routes.py under
--     their names; what a handler does once its row is found is enroll, confirm, resend,
--     check_password, open_session, fail_login, rotate, end_session, revoke_found, send_reset,
--     apply_reset, refuse_change and apply_change, and what it writes is write_... Auth.Runs: any
--     number of requests.
--   Auth.Laws: the writes of the handlers, as laws that a property may have. Auth.Lockout: the
--     abstract guard. Auth.Rows, Writes, Stores, Callers, Keeping, Kept, Marks, Sessions, Rotation,
--     Passwords, Once, Users, Knocks, Logins, Recovered: proofs.
--   The Tests of each: concrete runs.
--
-- Choices. Ids, times and money (in cents) are natural numbers; texts are strings. A handler acts
-- on a session with the committed database and the working one; a raise leaves the request with
-- what was committed. A violated unique index or check is an integrity_error where the code
-- flushes or commits. Where a handler takes a row lock (FOR UPDATE in the inventory, the carts,
-- the payment callbacks and fulfilment of an order, payments, refunds and shipments), that is why
-- its rows do not change under it. `create` of an order, a payment, a shipment or a first cart and
-- `cancel` of an order hold no lock while they wait for another service, so the writes of other
-- requests are a parameter of them (others). The auth service takes no row locks at all: its
-- handlers are modelled as single steps, taken one after the other, and what two of them do at the
-- same time is not covered. The amount of a refund is a decimal of any number of places, taken as
-- whole cents and what is left of a cent; the amounts in the callbacks to the order service are
-- whole cents there. A call of the order service by the shipping service may fail before it or
-- lose its answer after it (Fate). The path that httpx makes of a URL is a parameter (clean). The
-- gateway's clock and the rate limit's are numbers that count ticks. Loops run over finite lists,
-- so there is no fuel, but for the assistant's while loop: there more fuel than its limit of
-- rounds gives a result. `uuid4`, the clock, SHA-256 and the settings are parameters
-- (Surroundings; Incoming and Auth for the auth service).
--
-- Not modelled: the product, user and notification services, which the modelled services meet
-- only through HTTP; the assistant's tools, which call the other services; the lengths of texts that
-- schemas and columns allow; the read routes and pagination, which change nothing; the gateway's
-- OpenAPI documents; messages of errors; Stripe, the language model, bcrypt, JWT decoding,
-- SQLAlchemy, httpx and FastAPI, which are libraries; the portals, which are TypeScript.
pub mod Prelude
pub mod Order
pub mod Inventory
pub mod Payment
pub mod Shipping
pub mod Market
pub mod Gateway
pub mod Assistant
pub mod Auth
pub mod Cart
