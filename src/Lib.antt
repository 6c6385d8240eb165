-- ===== src/Lib.antt =====
-- The backend of the customer-360 demo, apps/backend: REST resources over customers, accounts and
-- transactions, kept in PostgreSQL (SINK=postgres) or in CSV files with an in-memory cache, with
-- Debezium-style change events on Kafka, and a chat assistant over the context engine.
--
-- How the parts interact. A service module (accounts/service.py, customers/service.py) reads
-- settings.SINK and sends an operation either to its db_sink or to its inventory. Each change is
-- followed by an event through the module's kafka_producer: best effort and with a bounded flush on
-- the PostgreSQL path, and not at all if a CDC connector owns the topics; raising and unbounded on
-- the CSV path. transactions/service.py creates one transaction or a generated batch. chat/agent.py
-- keeps MCP connections by session.
--
-- Which file models which part:
--   Prelude          Boolean tests, lists, integers; Prelude/Effect has Python's calls, which
--                    return or raise over a state that keeps what was written.
--   Config           config.py: Settings, _host_owns_cdc, _resolve_cdc_connector, rtce_mcp_url.
--   Scalars          floats as decimals, dates, timestamps, UUIDs, and their encoding in events
--                    (_money, _to_debezium_date, _to_debezium_ts).
--   Inventory        what accounts/inventory.py, customers/inventory.py and
--                    transactions/inventory.py have in common, by a Codec; Inventory/Csv is
--                    csv.DictReader and csv.DictWriter, Inventory/Fields pydantic on a cleaned row.
--   Kafka            kafka_setup.py and what the three kafka_producer.py modules have in common, by
--                    an Events: the trace of calls that reach the Kafka and registry clients.
--   Database         db.py: the pool of connections, and transactions that commit or roll back.
--   Dispatch         what accounts/service.py and customers/service.py have in common, by an Entity
--                    and a Sink; Dispatch/Emission is the PostgreSQL path, Dispatch/Replica the CSV
--                    path and the consumer of its topic.
--   Accounts         accounts/models.py, inventory.py, kafka_producer.py, service.py.
--   Customers        customers/models.py, inventory.py, kafka_producer.py, service.py.
--   Transactions     transactions/models.py, inventory.py, kafka_producer.py, generator.py,
--                    service.py.
--   Chat             Agent is chat/agent.py, the cache of sessions and the retries of run_agent;
--                    Conversations is chat/conversation_producer.py, a trace of calls; Service is
--                    chat/service.py, and Models chat/models.py.
--   DbSink           what the three db_sink.py modules have in common, by a Table: SQL texts and
--                    their parameters, run by the cursor of Database. The modules themselves are
--                    Accounts/DbSink, Customers/DbSink and Transactions/DbSink.
--   DataProducts     Builder is data_products/descriptor_builder.py, Descriptor descriptor.py,
--                    Providers the live provider of providers.py, Providers/Mock its mock provider
--                    and mock_data.py, CloudClient confluent_client.py, Service service.py and
--                    api/data_product_resource.py, Models models.py.
--   Analytics        analytics/aggregate.py: counts by category and the chart of countries, of columns
--                    that hold texts; Providers is analytics/providers.py, and Clients
--                    analytics/confluent_sql_client.py and lightning_client.py.
--   Rest             api/customer_resource.py, account_resource.py and
--                    transaction_resource.py: the services with their status codes.
--   Bootstrap        bootstrap.py and the start of main.py's lifespan: the tables, the seeding and
--                    the seed events.
--   CleanEnv         clean_env.py: the reset of the tables, topics and subjects.
--   Tests            sample formats, clients and entities, and the theorems at them.
--
-- State. A module-level list and its CSV file are a Store; the module-level producer and the calls
-- made so far are a Bus; a World holds the database, the Store and the Bus of a service. What a
-- random generator, uuid4, the clocks, str, urlparse and the environment yield are arguments.
--
-- Code outside the repository. The Kafka and Schema Registry clients are a Client, any function
-- that answers a call given the calls before it; nothing is assumed of it. A db_sink is a Sink, any
-- functions over a database, to its service; the three db_sink modules are instances. PostgreSQL is
-- a Server, any function of statements and parameters, and Confluent Cloud an Api, any functions of
-- requests. The arithmetic of DataProducts is a Floats, and pydantic's reading of a value that is no
-- Boolean and str.title are functions. The text formats of the standard library and pydantic are a Formats;
-- what the reloads rely on is named RoundTrips: a text is not empty and is read back. In Chat the
-- other turns of the event loop are a function applied at every await, and the connections in their
-- local variables a part of the state; the theorem on a turn assumes of that function that it loses
-- no connection of the cache, of these hands or of the turn itself. What the DDL statements do, as
-- PostgreSQL documents it, is named IsDdl.
--
-- Bounds and fuel. The loop of _collect_evictable that drops the least recently used session runs on
-- the number of sessions as fuel, which is enough since each round drops one. run_agent makes three
-- attempts, by recursion on the number left, and _get_flink_collection asks for 100 pages at most, by
-- recursion on those left. The loop over the pages of the costs has no bound in the code; it runs on
-- fuel, of which the number of the pages is enough, and of which none is if a page names itself. All other functions are total by
-- recursion on lists.
-- A float is its shortest decimal, finite and with 26 digits before the point at most; timestamps are
-- microseconds; subtraction on times stops at 0, before the year 1970.
--
-- Not modelled: logging, and so the delivery failures that a Kafka callback logs; the quoting of CSV; the locks of a session, whose wait counts as part of the
-- await of the run; the stateless run's own connection, which is closed before it returns; the
-- prompts of the agent; the texts of the DDL statements; the headers and timeouts of the requests to
-- Confluent Cloud; the rest of main.py; the command line of clean_env.py; the routes of analytics;
-- the sums, CRM aggregate and service of analytics; the frontend, infrastructure and pipelines.
pub mod Prelude
pub mod Rest
pub mod Inventory
pub mod Config
pub mod Kafka
pub mod Scalars
pub mod Database
pub mod Dispatch
pub mod Accounts
pub mod Customers
pub mod Transactions
pub mod Chat
pub mod Bootstrap
pub mod CleanEnv
pub mod Analytics
pub mod DataProducts
pub mod DbSink
pub mod Tests
