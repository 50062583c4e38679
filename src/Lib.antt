-- ===== src/Lib.antt =====
-- Verification of aobp, the web application for EVE Online industry (app/, Python).
--
-- The application reads a player's data from the ESI interface of the game, keeps copies of it in
-- MongoDB, caches documents in an optional Redis, and answers pages from both. The library models
-- its services; a page's handler calls them with the settings, the database and the cache.
--
--   Prelude, Result, Dict, Text   shared: tests and lists, Python's exceptions as values, `dict` as
--       an association list in insertion order, `str` of a number and cache keys (sde.cache_key).
--   Cache          app/services/cache.py: the record Cache is Redis with the module's counters. Each
--       command may fail, also half-way through a pipeline.
--   Sde            app/services/sde.py: documents read by id through the cache.
--   Esi            app/services/esi.py: Answer is what one request comes to; Esi.Retry for _get_with_retry,
--       Esi.Pages for _get_all_pages, Esi.Entries and Esi.Market for the data classes, Esi.Fetch for the endpoints.
--   MarketOrders   app/services/market_orders.py and the messages of app/db/rabbitmq.py: dispatch, fetch and
--       insertion of market orders. A queue is the list of its messages.
--   MarketOrders.Pipeline   app/scripts/market_orders_fetch_worker.py and market_orders_write_worker.py: the
--       rounds of the workers' loops over the two queues. The view of a Pipeline is the set of the orders
--       that are stored or still to come.
--   EsiCache       app/services/esi_cache.py: lists fetched from ESI, kept per owner in Redis and MongoDB.
--       The Store is both, with the number of fetches; an entry's data class is the record EntryType.
--   Auth           app/routes/auth.py: the Session, the stored characters and the answers of EVE SSO (Sso, a
--       parameter, app/services/eve_sso.py); Auth.Callback for the redirection that ends a login.
--   Deps           app/deps.py: the character of a request, with the refresh of both its tokens.
--   Character, CharacterData   app/models/character.py and app/services/character_data.py: the lists of
--       a character, merged with its corporation's; data_summary, refresh and removal.
--   Locations      app/services/locations.py: Locations.Chain for resolve_container_chain; a Shelf is the
--       collection and the cache of one of the four lookups, which a Format tells apart.
--   MarketPrices   app/services/market_prices.py and app/routes/market_prices.py: the collection of prices
--       under their types, its refresh with the updates in any order, and the reads of the pages.
--   Planets        app/routes/pi.py: the list of a character's colonies, and in Planets.Detail the page of one;
--       a page's cards stand for the pins that they show.
--   Planetary      app/routes/planetary.py: _expand_to_tier and, in Planetary.Pages, the pages that use it.
--   Blueprints     app/routes/blueprints.py: the materials of an owned blueprint and the runs they allow; Blueprints.Listing
--       for the list.
--   Migrations     app/migrations/runner.py: the runner; what a migration does is its own function.
--       Migrations.Schematics for 0006_build_sde_planet_schematics.py.
--   IndexSync      app/db/index_sync.py: the indexes of the configuration files and their records.
--   Build          app/routes/build.py: the page of a build chain, its links and the selection in its address.
--   Assets         app/routes/assets.py: Assets.Categories for the overview, Assets.Details for the page of a type and
--       the page of a location.
--   Settings       app/routes/settings.py: the refresh and the deletion of a character's data.
--   Web            app/web.py: the text of the time until a job ends.
--   BuildChain     app/services/build_chain.py: the walk of resolve_build_chain as
--       `walk_chain`, BuildChain.Order for `_topological_order`, and BuildChain.Resolve for the whole.
--
-- Conventions. A coroutine that touches the database or the cache takes the state and returns it.
-- A set of ids is a list, and a theorem holds for every order of it. Values that the code only
-- hands on (a name, a document) are a type parameter. Numbers are natural numbers, since the ids,
-- quantities and runs of the game are not negative and Python's integers have no bound.
--
-- Bounds. `max_depth` is the code's `_MAX_DEPTH`, and ends the walk. `visit` recurses on fuel,
-- where one more than the number of steps is enough. `retry_loop` has one more unit of fuel than
-- the setting allows attempts, `chain_loop` one more than there are assets, `expand_to_tier` one
-- more than the tier of its type, of which there are four, and `chunks_from` as many as there are
-- orders, which is at least the number of chunks.
--
-- Not modelled: the other migrations, the limit of 4300 digits that Python sets for int() and
-- str(), and of the pages in app/routes/ those of jobs and health, the page of the settings and
-- the search of items; the HTML templates and their formatting, the start of the web server, the
-- clients of MongoDB, Redis, RabbitMQ and HTTP, and the metrics. Floats are a type parameter with
-- the operations that the code applies to them as arguments: prices, costs and amounts. Their
-- rounded quotients in build_chain.py and blueprints.py, `math.ceil`, are parameters too; a
-- theorem that needs it says that the one in build_chain.py is exact up to 2 ^ 53. A quotient of
-- two numbers, or a product of a number and a float, may raise `overflow_error` in build_chain.py.
pub mod Assets
pub mod Auth
pub mod Blueprints
pub mod Build
pub mod BuildChain
pub mod Cache
pub mod Character
pub mod CharacterData
pub mod Deps
pub mod Dict
pub mod Esi
pub mod EsiCache
pub mod IndexSync
pub mod Locations
pub mod MarketOrders
pub mod MarketPrices
pub mod Migrations
pub mod Planetary
pub mod Planets
pub mod Prelude
pub mod Result
pub mod Sde
pub mod Settings
pub mod Text
pub mod Web
