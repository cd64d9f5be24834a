-- ===== src/Lib.antt =====
-- Verification of the Kupio marketplace backend.
--
-- The program serves requests. A handler works in one database session (src/core/database/uow.py)
-- through repositories of statements (src/core/database/base_repository.py,
-- src/domains/*/repository.py), and its service (src/domains/*/service.py) holds the rules. This
-- library models the rows, the statements, the transactions and the services, and proves what the
-- rules promise.
--
-- Files and the code they are about (paths from the root of the repository):
--   Base            lists, tests into Bool, integers over ℕ: what the parts share
--   Models          src/domains/*/models.py, src/domains/*/enums.py: the rows, and the database
--                   of tables
--   Core/Errors     src/core/exceptions.py, src/domains/*/exceptions.py,
--                   src/core/exception_handlers.py
--   Core/Action     src/core/database/uow.py: `Action`, a request that reads and writes the session
--                   and returns or raises; `in_uow` is `async with uow`; `except_integrity_error`
--                   is the services' handling of a refused INSERT
--   Core/Repository src/core/database/base_repository.py: `get`, `add`, `update`, `soft_delete`,
--                   `delete` on the rows of a `Model`, which holds what a mapped class declares
--   Core/Transactions  what a transaction promises whatever its body does
--   Users           src/domains/users/repository.py
--   Payments        src/domains/payments/service.py and repository.py
--   Promotions      src/domains/promotions/service.py and repository.py, and the cron job of
--                   src/worker.py; Promotions/Lists is the list of a user's promotions
--   Ledger          theorems on balances, across payments and promotions
--   Auth            src/domains/auth/service.py (Auth), src/domains/auth/repository.py (Auth/Rows),
--                   src/core/security/tokens.py, src/core/config/auth.py
--   Pagination      src/core/utils/pagination.py (Pagination/Cursors), the keyset queries of the
--                   repositories (Pagination/Keyset), and the next cursors of the services and a
--                   client that follows them (Pagination/Pages)
--   Listings        src/domains/listings/service.py and repository.py: the statements that others
--                   use (Listings), a listing for a visitor (Views), its creation and changes
--                   (Owner), the search (Search), the owner's list and dashboard (Stats); Ranking,
--                   Selection and Visits say in words of the columns what these promise
--   Filters         src/domains/filter_definitions: the definitions of custom filters, and the test
--                   of a listing's filters against them
--   Favourites      src/domains/favourites/service.py and repository.py
--   Chat            src/domains/chat/service.py (Chat), src/domains/chat/repository.py (Chat/Rows)
--   Reports         src/domains/reports/service.py (Reports), src/domains/reports/repository.py
--                   (Reports/Rows); Reports/Lists are the lists and the dashboard
--   Access          src/core/dependencies.py, src/domains/listings/dependencies.py
--   Categories      src/domains/categories/service.py and repository.py
--   Profiles        src/domains/users/service.py: the choice of a username, and the tokens for
--                   push notifications
--   Push            src/worker.py: the task that pushes to a user's devices
-- Below each of these stand its lemmas and theorems, named for what they are about, and a module
-- Tests with a concrete run of each.
--
-- How the parts meet: every service writes through the statements of Core/Repository inside
-- `in_uow`; payments and promotions share the balances of Users; moderation deletes rows of Users
-- and Listings, which the guards of Access and the logins of Auth then no longer find.
--
-- What the model takes for granted. UUIDs, serial numbers, texts and timestamps are natural numbers
-- that the code only compares; times are in seconds. Random values, new ids and the clock are
-- arguments. Money is an integer number of cents without a bound, as in Python; the 32 or 64 bits of
-- a column are not modelled. A statement without ORDER BY returns rows in table order. A unique
-- constraint refuses a row with an IntegrityError; foreign keys are not enforced. Each transaction
-- is one step; concurrent requests are sequences of such steps, each with rows read earlier
-- (Ledger/Interleaving, Ledger/Delivery). The Stripe library, password hashing, token encoding and
-- token decoding are parameters, with documented behaviour as hypotheses where a theorem needs it.
--
-- JSON, base64, UUID and datetime texts (Pagination), what Python asks of a JSON value (Filters), and
-- ILIKE and the containment of JSON columns (Listings/Search) are parameters too. What chat publishes
-- or pushes is a list of events that the handler returns; whether a user is online is a parameter.
-- What Firebase does with a message is a parameter of Push; the messages that were tried are returned.
--
-- Fuel: the recursive query for the ancestors of a category has some, its height. Any height above
-- the rank of the category gives the same answer; on a cycle the database would not end. The client
-- that follows cursors has some: more requests than there are rows are always enough.
--
-- Not modelled: routers, response schemas and configuration, which hold no rules; storage, e-mail,
-- and start-up code, which is I/O; the service of images, the chat socket, and the profile of a user;
-- Google sign-in; the lists of categories and of transactions. They are left for extensions of this
-- library.
pub mod Base
pub mod Models
pub mod Core
pub mod Users
pub mod Payments
pub mod Promotions
pub mod Ledger
pub mod Auth
pub mod Listings
pub mod Reports
pub mod Access
pub mod Categories
pub mod Profiles
pub mod Push
pub mod Pagination
pub mod Favourites
pub mod Filters
pub mod Chat
