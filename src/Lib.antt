-- ===== src/Lib.antt =====
-- CBIR engine: a multi-tenant service for content-based image retrieval.
--
-- The program is a set of Python services. auth-service keeps tenants and API keys, checks
-- credentials and limits rates. catalog-service registers items, hands out upload URLs and, when an
-- upload is confirmed, puts a job on a Redis queue. ingestion-worker takes the jobs, has ai-service
-- embed the image, drops near-duplicates and writes the vector to the tenant's collection.
-- query-service embeds a query, searches the collection, reranks, cuts a page and caches it. The
-- resource services check every request with auth-service.
--
-- Where the parts are modelled:
--   Base/*            lists, texts, Boolean tests, signed integers, and `Exec`, a state monad with
--                     errors in which the state survives an exception
--   Kernel/Uuid       uuid.UUID: hex, str and the parser, used by every service
--   Kernel/TenantId   shared/domain-kernel/cbir_domain_kernel: TenantId
--   Kernel/Json       JSON values and json.loads, as far as the program uses them
--   Kernel/Floats     floating-point numbers as an interface, and the stable falling sort
--   Auth/*            services/auth-service/auth_service: ValueObjects, Entities, Secrets are its
--                     domain; Rows and Gateways its tables; RateLimit and Tokens its infrastructure;
--                     Credentials, Tenants, ApiKeys its use cases; Http its controllers and the unit
--                     of work of its composition root; Presenters its responses
--   Catalog/*         services/catalog-service/catalog_service: Items and Gateways are the domain and
--                     the tables; Storage the object store and the queue; UseCases; Http; Presenters
--   Vectors/*         shared/common-libs/cbir_common/vectordb: the port and its contract between
--                     tenants, InMemoryVectorStore and the table that it stands for, and
--                     QdrantVectorStore over the client of Qdrant
--   Worker/*          workers/ingestion-worker/ingestion_worker: dedup, adapters (Store, Adapters),
--                     processor, and runner with the loop of main
--   Query/*           services/query-service/query_service: Ports, Search (SearchService), Cache,
--                     Clients, Http
--   Ai/*              ai-service/ai_service: Embeddings, Rerank, Hash, Providers (the embedders and
--                     their factory), Http
--   Gateway           shared/common-libs/cbir_common/auth: the credential check of resource services;
--                     EndToEnd puts auth-service behind it
--   Middleware/*      shared/common-libs/cbir_common: Metrics and Headers are the middleware of
--                     observability and http
--   Health            the readiness checks of the composition roots
--   Sdk/*             sdks/python-sdk/cbir: Models (models and errors) and Client
--   Quality/*         infra/ci/quality-gates/retrieval_quality.py: Metrics and Gate
--   Scripts/Upload    scripts/upload_caltech101.py, on top of Sdk
--
-- A use case is a function of the world: the tables as lists of rows, the state of the outside
-- systems, and the clock. A method that raises returns `err`, with the world as it was when it
-- raised; the unit of work then restores the tables and keeps what the outside systems hold. The
-- values of uuid4 and token_hex are arguments. SHA-256, Redis, S3, the JWT library, the HTTP calls
-- and the imaging library are parameters, gathered in a record `Outside` per service; a theorem that
-- relies on their behaviour names it as a hypothesis.
--
-- Bounds and fuel. Loops are structural recursion. `ones` and `show_nat` divide by their base with
-- the number itself as fuel, which is at least the count of its digits. `uuid_hex` writes 32
-- digits, which suffice for a number below 16 ^ 32. The polling of the upload script has one round
-- for each millisecond of its timeout, which suffices when it sleeps at least that long. The loop of
-- the worker takes a number of turns; the tries that the queued jobs have left are enough to empty
-- the queue. Times are microseconds from the epoch up to datetime.max. Texts are lists of code
-- points; lower, strip and int(s, 16) are those of ASCII.
--
-- Not modelled: the metrics endpoint, logging and the assembly of the applications, where building
-- an HTTP client is taken to succeed; the pixel features of the local embedder and the loading and
-- running of models, which are calls of libraries; the two scripts that only send requests and
-- print; the frontend; a Redis that fails under the worker's own queue commands. A request is
-- handled at one time of the clock, and requests interleave in Middleware/Metrics only.
pub mod Base
pub mod Kernel
pub mod Middleware
pub mod Auth
pub mod Catalog
pub mod Vectors
pub mod Worker
pub mod Query
pub mod Ai
pub mod Gateway
pub mod Health
pub mod Sdk
pub mod Quality
pub mod Scripts
