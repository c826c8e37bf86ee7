-- ===== src/Lib.antt =====
-- EBDentalAPI: the back end of a dental supplier's shop, a FastAPI service over PostgreSQL.
--
-- A cart is priced against the catalogue, parked as a pending checkout while the customer pays by QR,
-- and becomes an order when the payment is seen; carts that are not paid by QR become quotes at once.
-- Staff edit orders, record and refund payments and delete orders. This library models that core.
--
--   Prelude, Http    shared names, tests, lists, database tables, signed amounts; what a request answers
--                    (a value or one of the sources' HTTPExceptions)
--   Catalog          the rows of app/models.py that pricing reads: Product, Promotion, Set and its slots
--   Bundles          app/core/bundles.py: combined_contents_price, default_choice, choice_price_delta,
--                    resolve_set_options, set_contents, bundle_old_price; the child Submit has
--                    build_bundle_rows and build_option_groups, Reconcile has replace_bundle_rows and
--                    replace_option_groups
--   Lines            app/routers/orders.py: _component_items, _build_order_lines, _persisted_totals,
--                    _compute_discount; the child Forgotten has ON DELETE SET NULL of the saved lines
--   Accounts         app/core/deps.py, and _get_ordering_principal of app/routers/orders.py
--   Store            app/models.py: Order and PendingCheckout, the tables of them, the alerts that are
--                    left to background tasks, _next_order_number, _generate_quote_code,
--                    _next_checkout_reference, and stamp_updated_by of app/core/audit.py
--   Snapshot         _snapshot_lines, _restore_lines, _snap_decimal; the child Keys has the foreign keys
--                    of OrderItem
--   Pricing          _price_order
--   Checkout         create_checkout, check_checkout_payment, confirm_checkout_manually,
--                    list_pending_checkouts, _materialize_checkout, and _reconcile_once of
--                    app/services/checkout_sweep.py
--   Orders           create_order, check_payment_status, generate_order_khqr, refund_order,
--                    delete_order, list_my_orders, get_my_order; the child Update has update_order, Gated
--                    the gate _perm of the staff's endpoints
--   Numerals         Python's str, int, strip and two-digit format on texts; bit_xor
--   Khqr             app/services/khqr.py: _tlv, _crc16_ccitt, _parse_tlv; the child Build has
--                    _build_from_account_id, _build_from_template, build_khqr and khqr_expired
--   Products         app/routers/products.py: the rows, _serialize_product, _catalog_query, list_products,
--                    count_products, get_product; the child Write has _derive_list_price,
--                    _resolve_list_price, _discount_from_prices and _sync_price_fields, Endpoints has
--                    create_product, update_product and update_product_price
--   RateLimit        app/core/ratelimit.py: the throttle on sign-in attempts
--   SignIn           login of app/routers/auth.py and of app/routers/customer_auth.py
--   Staff            app/routers/users.py: create_user, update_user, deactivate_user and the passwords
--   Tests            a small shop on which the theorems are applied
--
-- The state is `Store`: the two tables, and the alerts. A table is its rows by primary key and the next
-- key of its sequence. An endpoint takes the state and answers an error, in which case the session is
-- rolled back, or a value with the new state. Where check_checkout_payment, check_payment_status and
-- the sweep wait for a payment provider between a read and a write, the two halves are functions of their
-- own, and `Orders.Reach.Step` has the second halves as steps, so that other requests may come between.
--
-- A handler of the staff's takes the account that its gate `_perm` has passed. `Orders.Gated` puts the
-- gate in front of update_order and delete_order.
--
-- A non-negative Decimal is a whole number of millionths. A percentage discount is the quotient of a
-- product of two such numbers, rounded down to a millionth; with prices in cents and percentages of two
-- decimals, as the columns hold them, nothing is rounded away. `Env` holds what is outside the program:
-- the clock, the settings, the QR builder, the two payment providers, the printing of numbers, the
-- rounding of the money and the coordinate columns, the catalogue as it stands when an order is written from a snapshot, which the foreign keys of its lines look into, and whether the
-- values of a row of order_items are within the ranges of its columns. A theorem that relies on one of
-- these has it as a hypothesis: `PrintsApart` (str of two different integers differs), `ReadsBack`
-- (Decimal reads back what str printed), `RoundsOnce` (rounding a rounded figure to the same column
-- changes nothing) and `is_writable` (the database takes the lines of a snapshot).
--
-- The loop `first_free` over candidate codes runs on fuel: one more than the next key of the table, which
-- is more than there are rows, so a free code is met before it runs out. `parse_loop` runs on as many
-- rounds as the payload has characters, and one more; a round takes four characters at least, unless a
-- negative length takes the loop back, and what runs out of rounds is told apart as `stuck`. `digits_of`
-- has more rounds than the number has digits.
--
-- Of the database, the catalogue takes ILIKE and the order of lower-case names as parameters, and the
-- rounding of the money columns; the order of the rows is an insertion sort by the keys of _SORTS. A
-- quotient of Decimals is rounded once, to the two decimals that the code keeps.
--
-- The limiter's moments are whole microseconds and are taken not to go back; `str.lower` and bcrypt's
-- verification are parameters. Texts are read by int() as ASCII: digits of other scripts, which it
-- accepts too, are not modelled. `Env` still takes the QR builder and the expiry test as parameters; Khqr
-- models them for themselves.
--
-- Not modelled: the other endpoints (promotions, sets, brands, customers, settings, reports), staff
-- profiles, product pictures, facets and deletion, the other ways to sign in, the Telegram bot, the
-- payment clients, SAP, documents and files; the ranges and the lengths of the columns of other
-- tables than order_items; and two requests that interleave inside one handler at other places than
-- a provider's answer about a payment.
pub mod Prelude
pub mod Http
pub mod Catalog
pub mod Bundles
pub mod Lines
pub mod Accounts
pub mod Store
pub mod Snapshot
pub mod Pricing
pub mod Numerals
pub mod Khqr
pub mod Checkout
pub mod Orders
pub mod Products
pub mod RateLimit
pub mod SignIn
pub mod Staff
pub mod Tests
