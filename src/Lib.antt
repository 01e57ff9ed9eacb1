-- ===== src/Lib.antt =====
-- File processing platform: users upload files through signed storage forms, submit jobs on them,
-- and a worker converts or compresses the files. This library models the API's services, the
-- repositories below them and the worker, and states what makes them correct.
--
-- Parts and files.
--
-- Common, Common/Lists, Common/Exec: shared notation, lists over the native numbers, and `Exec`,
-- the reading of an asynchronous method as a function from the state to a result, returned or
-- thrown, and the next state. What was written before a throw stays written.
-- Errors: apps/api/src/utils/errors.ts and apps/api/src/middleware/errorHandler.ts.
-- Schema: packages/db/src/schema/*.ts and packages/types/src/enums.ts.
-- Db: packages/db/src/repositories/*.ts. Db/Sql is the table engine (drizzle-orm on PostgreSQL), a
-- parameter: a table maps keys to rows, and the laws say what a query, an insert, an update and a
-- delete do; a query without an order promises none. Db/Files, Db/Jobs, Db/Users and Db/ApiKeys
-- are the repository interfaces, with the laws that the services rely on; Db/FileRepository,
-- Db/JobRepository, Db/UserRepository and Db/ApiKeyRepository are the classes, and the `Laws` file
-- below each one proves that it keeps its interface for every table engine. Db/Changes holds the
-- values that the statements write.
-- Api: apps/api/src/services/*.ts, written against the repository interfaces. Api/Platform holds
-- the parameters: the MinIO client, node:path, the calendar, `URL`, and the settings.
-- FileService.ts is Api/FileService with Upload, Confirm, Access and Pages below it; JobService.ts
-- is Api/JobService with Create and Cancel; AuthService.ts is Api/AuthService with Sessions,
-- Accounts and Passwords; ApiKeyService.ts is Api/ApiKeyService with Limit and Revoke. Method names are
-- those of the source in snake case. Api/Guards is apps/api/src/plugins, and Api/WsManager is
-- apps/api/src/ws/WsManager.ts and Api/Subscriber redisSubscriber.ts beside it. Api/Schemas is
-- apps/api/src/routes/*/schemas.ts, and Api/Routes holds the handlers of apps/api/src/routes, each
-- behind its schema and its guards, in this order: Auth, Files, Jobs, ApiKeys and Ws; Statuses,
-- Strangers and Requests below it are about all of them. Api/Config is apps/api/src/config.ts.
-- Worker: apps/worker/src. Worker/Processors is processors/*.ts, Worker/Consumer the dispatch and
-- the failure handler of worker.ts, Worker/Cleanup the two sweeps, Worker/Config config.ts. Worker/Queue is
-- apps/api/src/queue/jobQueue.ts with the deliveries of a job that its options lead to. Worker/Platform holds the
-- parameters (MinIO, sharp, node:path) and the state: the database, the objects, the messages
-- published to Redis and the progress reported to BullMQ.
-- System: the statements with which API and worker write to files and jobs (`Write`), the sequences
-- of them (`Writes`), and in System/History the histories of requests, deliveries and pending sweeps.
-- System/Runs and System/Processing show that each operation is such a sequence; System/Lifecycle,
-- System/Jobs and System/Ownership are about the rows after one, System/Guests about the sweep that
-- removes rows, and System/Journey about an upload with a history in between.
-- Web: apps/web/src. Web/JobSocket is hooks/useJobWebSocket.ts, with the hook of a flow around it in
-- JobSocket/Flow; Web/ConvertFlow and Web/CompressFlow are useConvertFlow.ts and useCompressFlow.ts,
-- Web/Formats useFormatOptions.ts, Web/Forms useLoginForm.ts and useRegisterForm.ts, Web/Client
-- api/client.ts with the two stores, Web/Upload uploadFile of api/files.ts, Web/Hooks the hooks of
-- the dashboard, the job list and the landing page, and Web/Settings the components
-- ChangePasswordForm.tsx and ApiKeysTab.tsx.
-- Examples: a table engine on lists, which shows that the laws of Db/Sql can hold together,
-- concrete packages, a small database, and every theorem applied to them.
--
-- How the parts meet. The services and the worker share the database only through the repository
-- interfaces, over one type of states, and jobs and files are related by the laws of Db/Jobs: writing
-- one leaves the rows of the other alone. The API hands work to the worker by the payloads that
-- `create` appends to the queue; the worker answers by rows and published messages.
--
-- Conventions. Numbers are natural numbers, as sizes, times and counts are in the source; a
-- difference stops at 0, which matters only for cut-off times before the epoch. The time of a call
-- and the identifiers that it draws are its arguments, and a processor or sweep reads its clock as a
-- function of the number of the write. Loops run over lists or a fixed number of stages, and `decimal`
-- has one step for each unit of its number, more than its digits. The fuel of `send` in Web/Client is
-- how deep the response interceptor calls the client; two is enough, since neither a refresh nor a
-- retry leads to another call. A call to MinIO, sharp or the queue that may reject is an `Option` or a
-- flag of the state, and the exception that it raises carries the name of the call, since the
-- package's own message is unknown. An insert throws where a text does not fit its varchar column
-- (`accepts`). Rows that agree on created_at may come in another order under another limit or offset.
--
-- What is assumed. While a modelled call runs, the database answers every statement, and Redis every
-- publication and BullMQ every progress report of a run: a status 500 or a failed run for an outage
-- of one of them is outside the model, and so is a run that is cut off between two statements.
--
-- Not modelled: starting the servers, plugins, the rate limit of guest sessions, response schemas,
-- logging and timers (input, output and packages); in the front end, components, markup and routing,
-- animation and debouncing; concurrent transactions inside one
-- statement. The guest sweep removes rows, so a `History` leaves it out and a `Life` has it.
pub mod Common
pub mod Errors
pub mod Schema
pub mod Db
pub mod Api
pub mod System
pub mod Web
pub mod Worker
pub mod Examples
