-- ===== src/Lib.antt =====
-- dataset_service: the services of the dataset store, with the entities and the repositories that
-- they stand on.
--
-- The program keeps datasets of files. Users register, sign in with a password and a one-time
-- code, receive a signed token, upload datasets in versions, ask the owners of private datasets
-- for access, subscribe, review, and are notified. HTTP handlers call services; services check
-- their input with the constructors of entities, call repositories (PostgreSQL) and a bucket of
-- objects (S3), and return errors that they wrap.
--
-- Files and the code that they model:
--   Base, Base/*          shared names, Boolean tests, lists, Go maps, times and durations
--   Text, Text/*          Go strings: strings.TrimSpace, strings.Split, strconv, case, length
--   Errors                internal/entities/errors.go, internal/repositories/errors.go,
--                         internal/services/errors.go, and the wrapping of fmt.Errorf
--   Exec                  functions that change the state and return a value or an error
--   Entities              internal/entities/*.go: records and their New… functions
--   Repositories          internal/repositories/*.go and internal/storage/storage.go: interfaces
--   Services/Token        internal/services/token_service.go (IssueToken, RevokeToken, GetToken)
--   Services/TwoFa        internal/services/twofa_service.go (StartChallenge, VerifyCode, DebugCode)
--   Services/Subscription internal/services/subscription_service_impl.go, subscription_helpers.go
--   Services/User         internal/services/user_service_impl.go (Register, Authenticate, UpdateUser, …)
--   Services/Notification internal/services/notification_service_impl.go (NotifySubscribers, …)
--   Services/Review       internal/services/review_service_impl.go (CreateReview, UpdateReview, …)
--   Services/Category     internal/services/category_service_impl.go (CreateCategory, …)
--   Services/Access       internal/services/access_service_impl.go (Request, Approve, Deny, …)
--   Services/Dataset      internal/services/dataset_service_impl.go; Naming has nextVersionNumber,
--                         parseVersion and datasetObjectKey, Undo what CreateDataset leaves behind
--   Http/Policies, Query  internal/delivery/http/v2/auth_helpers.go and helpers.go
--   Http/AccessRequests   internal/delivery/http/v2/access_requests.go
--   Http/Listing          internal/delivery/http/v2/datasets.go (ListDatasets and its helpers)
--   Postgres/Statements,  what internal/dataaccess/repositories/postqbuild hands to squirrel and pgx,
--     Methods             and the bodies that its methods share
--   Postgres/Users, …     one file for each of its *_repo.go, with the record of the interface it
--                         implements; Refines has the laws of the services for such a record,
--                         Table, RoundTrip, Changes, Writes, Elsewhere, Scanning and Missing what
--                         else is proved
--   Postgres/Tables       what the statements do to a table of rows
--   Postgres/Memory       a database of lists of rows, for examples
--   Async/Contracts       internal/contracts/contracts.go: the messages between the processes
--   Async/Gateway         cmd/gateway/main.go: HTTP requests become messages (Handlers), and replies
--                         answers (Routes); Uploads has handleAddVersion, and Pending the
--                         requests that wait (rpc, startReplyListener)
--   Async/Core            cmd/core/main.go (handleGatewayMessage, enforceAccess, forwardToData, …);
--                         Asking, Granted, Rights and Once have its theorems
--   Async/Data            cmd/data/main.go: Commands, Reviews and Queries have the commands of
--                         messages, Process has handleCoreMessage; Replies, Updates, Writes, Quiet
--                         and Unrelated have their theorems
--   Async/Reads, Owners   the gateway with the core, and the core with the data process
--
-- How the code is read: a method is a function on the state that returns a result and the new
-- state, also beside an error. A repository is a record of operations over a state of its own, a
-- parameter of the services; where a theorem needs its behaviour, a record of laws (LawfulStores,
-- LawfulRequests, LawfulUsers, …) states what its SQL does. Packages outside the repository are
-- parameters too: the HMAC, base64 and JSON of the tokens (Codec, with LawfulCodec) and bcrypt
-- (Bcrypt, with LawfulBcrypt). What a method takes from the clock, from uuid or from crypto/rand
-- is an argument, one for each reading. The PostgreSQL repositories build statements as data and
-- run them on a Pool, a parameter; LawfulPool states what the pool does when a statement of a
-- table is run: which rows it selects, inserts, changes and deletes, and that it may fail and
-- then changes nothing; RestrictsDeletions states what the foreign keys of the migrations say of
-- deletions from other tables than datasets. The gateway and the core exchange envelopes whose
-- payload is a JSON object (Fields); the data process behind the core is a parameter, a function
-- of the messages that it has got before; Async/Owners puts the model of cmd/data there. The data
-- process runs on any records of repositories; postgres_repos are those that its main makes. A
-- pointer that may be nil is an Option; the use of a nil pointer is an error, as the HTTP server
-- makes of it.
--
-- Bounds: times are nanoseconds since 1970 and do not lie before it; durations are signed. A
-- column TIMESTAMPTZ keeps their microseconds (to_micros). Texts are lists of code points, since
-- the program compares, trims and splits valid UTF-8; len counts bytes. The average of ratings is
-- a sum and a count, compared with whole bounds by a product; on lists of less than 2 ^ 50
-- reviews the quotient of the code compares the same. Numbers with the type uint64 are natural
-- numbers; format_uint prints with a fuel of twenty digits, enough for 64 bits; int ends at 2 ^
-- 63 - 1, where increment wraps.
--
-- Not modelled: logging, contexts and their deadlines, the uploaded bytes, the notifier of codes
-- (its answer is only logged), concurrent requests to the token service (each method is one step;
-- the two-factor service holds a mutex), the HTTP layer of cmd/http but for the policies, the
-- list of datasets and the requests for access, the broker, the tools, the integrations and the
-- web client. The repositories are given entities, never nil, and times that are not zero, so the
-- code that replaces a zero time by the clock is not taken.
pub mod Base
pub mod Text
pub mod Errors
pub mod Exec
pub mod Entities
pub mod Repositories
pub mod Services
pub mod Http
pub mod Postgres
pub mod Async
