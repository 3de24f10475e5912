-- ===== src/Lib.antt =====
-- A job platform: an HTTP API that accepts jobs, workers that run them with retries, MongoDB for the
-- documents of the jobs, Redis for the queues, and Kafka for events.
--
-- Parts of the program, and the files that model them:
--   Models          src/models/job.model.js: the document of a job, its states and its history.
--   Queue           src/queue/queue.js and src/queue/claim.js: the main queue, ordered by priority and
--                   time, and the delayed queue of scheduled and retrying jobs.
--   JobHandlers     src/worker/jobHandlers/index.js: the table of handlers, with those that only wait
--                   in JobHandlers/Simulated; JobHandlers/Ai, with JobHandlers/Payloads and
--                   JobHandlers/Texts, has those of src/worker/jobHandlers/aiHandlers.js, which
--                   ask a language model.
--   Worker          src/worker/worker.js: Worker itself has finalizeJob and handleFailure,
--                   Worker/Process has processJob, Worker/Loops the intervals and one round of a lane,
--                   Worker/Lanes the lanes of a worker.
--   Jobs            src/modules/jobs/jobs.controller.js: Jobs has the requests and responses,
--                   Jobs/Handlers has submitJob, getJobStatus and cancelJob.
--   System          the API processes and the workers together, as steps in any order.
--   Lifecycle       a state machine of a job, and the operations of the API and the workers, one
--                   after the other, as its implementation.
--   Http            src/middlewares/authenticate.js, src/modules/jobs/jobs.routes.js and
--                   src/modules/auth/auth.routes.js: what a request passes before a controller.
--   RateLimiter     src/middlewares/rateLimiter.js.
--   Ai              src/ai/anthropicClient.js and src/ai/llm.js: one call of a model, and the chain of
--                   models that are tried in turn.
--   Auth            src/modules/auth: accounts, logins and refresh tokens.
--   Events          src/kafka/producer.js: what Kafka gets of the events.
--   Heartbeat       src/queue/heartbeat.js: the key with which a worker shows that it is alive.
--   Health          src/app.js with src/config/db.js: the health checks.
--   Config          src/config/env.js: the environment variables.
--   Services        what the code calls and does not implement, as records of operations with the
--                   documented behaviour as laws: the collection of jobs (Services/Mongo) and sorted
--                   sets (Services/Redis). Services/World is the state that all processes share, and
--                   the shape of the code that reads and writes it; there, an event is what is handed
--                   to publishEvent. isRedisHealthy (src/config/redis.js) is in Jobs.
--   Prelude         names and lemmas that the other modules share, and methods of JavaScript strings.
-- RateLimiter/Commands, Heartbeat and Auth/External have interfaces of the same kind, for Redis
-- counters, for texts that end at a time, and for users, bcrypt and JSON web tokens. Services/Memory,
-- RateLimiter/Memory, Heartbeat/Memory and Auth/Memory (with Auth/Tokens) implement the interfaces,
-- with every law proved; Samples and the Tests modules run the code on them. The other
-- modules hold proofs and are named for what they prove.
--
-- How the code is modelled: an async function is a function from the state to an outcome (a result
-- or an error that is thrown) and the next state; what was written before a throw stays. The time,
-- the worker's id and what a handler brings are arguments. processJob is cut into the part before
-- its handler and the part behind it, since other processes act in between; System/ cuts the other
-- functions in the same way, at the points where they wait for a document, and lets a step go on
-- with a document of any age. job.save() writes the changed paths only, so it is a change of the
-- stored document that depends on the loaded one. Ids of jobs and users are numbers, and so are
-- times, in milliseconds (in seconds in RateLimiter); a payload is a JSON value. The name under
-- which a handler is found stands for the handler. The fields of a request have the types that the
-- API documents.
--
-- Parts of JavaScript that the handlers of models and the configuration use are arguments:
-- toLowerCase, JSON.parse, Number of a text, and what a value has besides the own properties of an
-- object. trim, split, startsWith and the regular expressions are written out by characters.
--
-- Loops run over lists, so no fuel is needed, but in two places. The decimal digits of a number are
-- computed on fuel, of which a number has one more than its value. Processing a job again as long as
-- it is RETRYING (Worker/Endings) is on fuel, and one unit for each attempt that is left is shown to
-- be enough. The numbers of the model have no bound, while JavaScript's are doubles, exact up to 2^53.
--
-- Not modelled: logging, connections, the start of the processes (a lane's rounds are in
-- Worker/Lanes), the OpenAPI documentation, and the analytics consumer, which prints what it gets.
pub mod Prelude
pub mod Models
pub mod Services
pub mod Samples
pub mod Queue
pub mod JobHandlers
pub mod Worker
pub mod Jobs
pub mod System
pub mod Lifecycle
pub mod Http
pub mod Config
pub mod Heartbeat
pub mod Events
pub mod Health
pub mod Auth
pub mod Ai
pub mod RateLimiter
