-- ===== src/Lib.antt =====
-- Prompt Graft: a proxy that puts prompt variants into requests for language models, and an optimizer
-- that makes these variants out of the users' feedback.
--
-- The parts and how they interact. The proxy (internal/proxy) answers a request: it tests the bearer
-- token, reads the body, asks a provider's adapter (internal/provider) for the prompt, asks the store
-- (internal/store) for the session's variants, replaces a part of the prompt, forwards the request and
-- logs both ways. The store has two tiers, Redis in front of Postgres. The optimizer (internal/optimizer)
-- takes the sessions that are ready, lets a model write candidates, and sets them as variants, which
-- the proxy then finds. internal/optimizer/gepa is a search over prompts by mutation and selection.
--
-- Which file models which part:
--   Base         the library's names, lists and numbers, Boolean tests, byte strings, float64
--   Text         the functions of Go's strings package that the program calls
--   Json         decoded JSON, with the codec as an interface
--   Provider     internal/provider: Provider, Registry and StyleRegistry (registry.go,
--                style_registry.go), and the adapters in Provider/Generic, Provider/Replicate and
--                Provider/OpenAiChat; Provider/RoundTrip has their laws
--   Proxy        internal/proxy and pkg. Proxy/Records and Proxy/Handler are Handler.ServeHTTP (handler.go):
--                serve_http, with Proxy/Inject for the part that injects, Proxy/Segment for
--                findReplacementSegment, Proxy/Choice for pickWeightedRandom, Proxy/Output for
--                extractTextOutput, Proxy/Auth for validBearerToken and hash.APIKey, Proxy/Body for
--                body.StreamOrBuffer; Proxy/Forwarder and Proxy/Headers are forwarder.go. A request
--                becomes a record of the answer, the request that went upstream, and what was logged
--   Gepa         internal/optimizer/gepa: Gepa/Candidate and Gepa/Best (candidate.go), Gepa/Pareto
--                (pareto.go), Gepa/Selection (mean and topN), Gepa/Dataset (dataset.go), Gepa/Scorer
--                (scorer.go), Gepa/Reflect (reflect.go), Gepa/Run (New and
--                Optimizer.Run: the pool, weights, history and world of calls are the state), Gepa/Llm
--                (llm.go: ReplicateClient over the record Service of what it calls; Gepa/Llm/Choice
--                is NewLLMClient)
--   Optimizer    internal/optimizer: Optimizer/Prompts (texts of driver.go), Optimizer/Driver
--                (Driver.RunOnce and Promoter.Promote over the record Backend of what they call),
--                Optimizer/Janitor (janitor/janitor.go, on the tables of Store/Pg)
--   Store        internal/store: Store/Types (store.go), Store/Keys (schema.go), Store/Log and
--                Store/LogKeys (redis/log.go), Store/Variants (redis/variant.go), Store/Balance
--                (selectBalanced), Store/Layered (layered/store.go over two interfaces).
--                Store/Feedback and its children are redis/feedback.go, method by method (Ready,
--                Dataset, Samples, Rollup), over the commands of Store/Hashes; Store/MiniRedis is an
--                instance of these. Store/Pg and its children are pg/store.go: the tables as lists
--                of rows (Tables), the statements as functions on them. Store/Variants/Tiers has
--                Redis and Postgres as the two stores of Store/Layered; Store/MiniKv is a Redis of
--                keys with ages
--   Api          internal/api: authWrap of server.go around its routes
--   The files whose names end in Tests apply the theorems to concrete inputs.
--
-- Conventions. A byte string is the list of its bytes. float64 is the interface Floats with the laws
-- of IEEE comparisons that are used; Base.Float.whole is an instance. An error that is returned is a
-- flag beside the value, or none; a run-time panic is none where a function can panic. What the
-- program calls and does not define is a parameter: encoding/json, SHA-256, net/url, the HTTP client,
-- the commands of Redis, whether the database server runs a statement, the clock, the random numbers,
-- the language model, whose client in Gepa/Llm is over parameters of its own. A SCAN of Redis is the
-- list of its answers up to the last one, so that the loops over its cursor are recursion on that
-- list.
--
-- Bounds and fuel. Loops are recursion on lists, or on a count of rounds that is left: topN on its
-- min(n, len(all)) rounds, Run on its budget, findReplacementSegment on the length that is left, poll
-- of the language model's client on the rounds that its timeout allows, each of which pauses for two
-- seconds, selectBalanced on n, since a round that goes on fills a place. The digits of a number are
-- written with one more than the number as fuel, and a number has no more digits than that. Sizes,
-- times and counts that are not negative where the program behaves as meant are natural numbers;
-- votes and ratings are integers.
--
-- Not modelled: debug logging, contexts and timeouts of calls; Unicode spaces and cases in strings; the
-- routes of the HTTP API, the configuration, and the start-up of the commands.
pub mod Base
pub mod Text
pub mod Store
pub mod Json
pub mod Provider
pub mod Proxy
pub mod Gepa
pub mod Optimizer
pub mod Api
