-- ===== src/Lib.antt =====
-- The shop's money, stock and accounts: orders, payments, spending limits, the changes of an order's
-- status, promotions, sessions and messages, as the backend runs them (backend/src, TypeScript on
-- NestJS with the Prisma client), the catalogue, the wishlist and the listings, and of the front end the
-- checkout, the wishlist and the page of the shopping agent (src).
--
-- A customer's request becomes an order (OrdersService.create), which takes its pieces from the
-- products' stock and waits as PENDING for the payment gateway VNPay, or is settled at once by one of
-- the simulated methods. A payment link is signed for the gateway; the gateway calls back twice, in
-- the browser and from its server, and the callback settles the payment and marks the order PAID. An
-- order that waits can be cancelled by its owner, by the hourly job, or by the back office, and then
-- its pieces go back to stock. An agent may order for a user within a spending limit (a payment
-- intent) that the user approved. All of it meets in the tables of one database.
-- Who may act is read from a session's token or from an agent's ticket, and both carry the version
-- that the user had when they were given. Promotions lower prices for a while and put them back, and
-- messages to the shop and its customers go through a queue that tries again. The checkout sends a key
-- with an order, so that a press that is repeated after a lost answer gets the order that was made.
--
-- Which file models what:
--   Text             text as a list of UTF-16 code units; trim, toLowerCase, equality
--                    (toLowerCase of the letters of ASCII, Latin-1 and Vietnamese)
--   Pricing          backend/src/common/strap-options.ts and pricing.ts
--   Phone            backend/src/common/phone.ts
--   Db               the rows that the services read and write (backend/prisma/schema.prisma), Prisma's
--                    calls as functions on lists of rows, and the monad of a service's method
--   Inventory        the two loops over an order's lines that move stock, and what is counted
--   Invoices         backend/src/invoices/invoice.service.ts
--   Vnpay            backend/src/common/vnpay.ts: environment, parameters, signature, verification
--   Payments         backend/src/payments/payments.service.ts: PayUrl (createPayUrl), Intents, Settle
--                    (settlePayment with settleDeps), Callback (handleReturn, handleIpn, notifyPaid)
--   Orders.Create    backend/src/orders/orders.service.ts, create: Input (the checks), Lines (prices),
--                    Intent (the agent's limit), Replay (idempotency), Place (the transaction), Service
--   Orders.Cancel    backend/src/orders/orders.service.ts, cancel and cancelByCode
--   Orders.View      backend/src/orders/orders.service.ts, byCode and mine
--   Orders.Expire    backend/src/orders/order-expire.service.ts
--   Admin.Orders     backend/src/admin/admin-orders.service.ts, updateStatus
--   Cart             backend/src/common/cart.ts over backend/src/common/cart-storage.ts; the table of
--                    cart rows keeps the row that changed last in front
--   Accounts         Session (backend/src/common/session.ts), Guards (common/guards.ts), Service
--                    (backend/src/auth/auth.service.ts), Requests (auth/auth.controller.ts) and Cleanup
--                    (backend/src/agents/agent-shopper-cleanup.service.ts); Steps has the sequences of
--                    their operations, Laws, Tickets, Renewal and Grant the theorems
--   Promotions       backend/src/admin/admin-promotions.service.ts, and Close with
--                    promotion-expire.service.ts; Restore, Laws, RoundTrip, Expire and Apart have the
--                    theorems
--   Notify           backend/src/notify/notify.service.ts, the queue; Counts, Sound and Drain have the
--                    theorems
--   Csrf             backend/src/common/csrf.middleware.ts
--   Catalogue        backend/src/products/products.service.ts: Filters (the conditions), Listing, Laws
--   AgentProxy       src/lib/agent-proxy.ts
--   AgentEvents      src/lib/agent-events.ts: the events of a turn, and Receipt (buildReceipt)
--   Chat             src/app/agent/useAgentChat.tsx: Stream (the loop that reads the answer), Turn (its
--                    events, and send), Tray, Delegation (the ticket: its requests, and their replies as steps of their own)
--   Checkout         src/lib/idempotency.ts: the fingerprint of a cart, and Key (the keys in the
--                    browser's storage); Place: placeOrder of src/app/checkout/page.tsx; Sorting,
--                    Base36 and Accepted have theorems, as has Orders.Create.Retry on the server's side
--   Wishlist         backend/src/wishlist/wishlist.service.ts, and Client:
--                    src/components/WishlistProvider.tsx; Sync and Guest have the theorems
--   Listings         backend/src/admin/admin-listings.service.ts: createProduct, and Update
--                    (updateProduct); Edits has any sequence of them
--   Inquiries        backend/src/inquiries/inquiries.controller.ts, create, and triageInquiry of
--                    backend/src/common/jev.ts
--   Interleaving     the transactions of concurrent requests as steps between states of the database;
--                    Cancelled follows one order through them
--   Samples, Tests   a small shop, runs of the services, and the theorems at concrete inputs
--
-- State and steps. A Db is the list of rows of each table, newest first, with the next fresh id. A
-- method is a function M A = Db → Result A × Db: what was written before an exception stays written,
-- unless `transaction` rolls it back. The methods are sequential; Interleaving takes their
-- transactions apart and lets other requests commit in between, with copies of orders that may be old
-- (Step, Reach); the back office's edits of a product's row are no steps there. A transaction itself is one step, as the database isolates a conditional update.
-- Accounts, Promotions and Notify have states of their own, since they share no table with the others
-- but the products' prices, which Promotions alone reads here. So have Chat, Checkout, Wishlist,
-- Listings and Inquiries; Checkout meets the orders through the key that a request carries. A round of the queue awaits each
-- sending, so its steps are taken one by one, among those of other rounds and requests (QueueStep).
--
-- Parameters. HMAC, SHA-256, the random codes and references, the clock, the client's address, the
-- risk check and the invoice provider are arguments. jose and bcryptjs are
-- records of functions (Jose, Bcrypt); what jose documents of a token's audience, payload and expiry is
-- the hypothesis IsJose. The search engine and the database's order of rows (Engine), the channels of
-- messages, decodeURIComponent and JSON.parse are arguments too, as are what new Date makes of a text, the
-- new key of a browser and the answers that a page gets. So is the database's answer for a null under
-- `every ... in`, on which the query for a like order depends.
--
-- Numbers. Ids, prices and quantities that are stored are natural numbers; a number of a request is
-- NaN, infinite or an integer (a fraction is taken as its floor, which is what the code does with it
-- next). Until it is stored an amount may be NaN or infinite (Orders.Create.Amount). An amount of a
-- callback is a text of decimal digits; any other text, which JavaScript might still read as a number,
-- is taken as NaN.
--
-- Bounds. `place_order` is called with the code's six attempts. `to_digits` runs on fuel n + 1, and a
-- number n has fewer digits than that; `to_base36` on fuel 7, which the hash's 32 bits fit. All other loops follow the lists that they read.
--
-- Not modelled: the attributes of cookies, the search index, campaigns,
-- finance reports, the newsletter, the cleaning of an inquiry's payload, uploads, the texts of messages (a service's notice is a row of
-- `outbox` here), logs, the controllers' routing, the front end under src but for the files above, and the agent under agent.
-- Failures of the database other than a violated unique key, a row that is not there, a value that a
-- column cannot hold, or the hourly job's query are not modelled either.
pub mod Base
pub mod Text
pub mod Pricing
pub mod Phone
pub mod Db
pub mod Inventory
pub mod Invoices
pub mod Vnpay
pub mod Wishlist
pub mod Chat
pub mod Checkout
pub mod Payments
pub mod Orders
pub mod Admin
pub mod Accounts
pub mod Promotions
pub mod Notify
pub mod Catalogue
pub mod Listings
pub mod Inquiries
pub mod AgentProxy
pub mod AgentEvents
pub mod Csrf
pub mod Cart
pub mod Interleaving
pub mod Samples
pub mod Tests
