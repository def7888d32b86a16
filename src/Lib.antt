-- ===== src/Lib.antt =====
-- A verification of arcella-lib, a Go library of services, clients and middleware.
--
-- The library's parts are services with Start and Stop, which an application hands to the
-- controller of app/v3, clients of network services, and small helpers. They meet at interfaces of
-- functions: the controller sees a service by its name and its two calls, the HTTP client writes
-- the header that the authentication middleware reads, and the LDAP client judges the account flags
-- that ldap/utils.go puts into words. Each part is modelled in a module of its own.
--
-- * App (app/v3/appcv3.go): AppControllerV3.Run as a function from the application's hooks, the
--   outcome of each service's Start and the signals to the trace of events. App/Services has
--   initServices and deInitServices, App/Runs the whole run.
-- * Cache.Mem (cache/memcache/memCache.go) and Cache.Ttl (cache/memcachettl/memCacheTTL.go): the state
--   is the record Cache, with the map, the expiry queue, the limit and the sequence number; Set, Get,
--   Delete, CheckTTL, SetMaxEntries, Size, GetAll and popExpiredLocked are set, get and so on. Below it
--   Heap has the queue, Sweep the removal of expired items, Reads the invariant and what readers see,
--   Limit the bound, and Reaper the goroutine of Start and Stop.
-- * Web.Fail2ban and Web.RateLimiter (web/gin/middleware/fail2ban and rateLimiter): the handlers with
--   their maps of suspects, suspensions and limiters.
-- * Web.Client (web/std/client/HTTPClient.go, web/ClientDTS.go): settings and the shared http.Client,
--   in Requests newHTTPRequest, in Responses DORequest and DORequestBytes with their equivalence
--   below, in Shared the sequences of calls. Web.BasicAuth (web/gin/middleware/auth): BasicAuthFunc.
-- * Ldap.Guid, Ldap.Sid, Ldap.Account (ldap/utils.go): directory values as text. Ldap.Client
--   (ldap/client.go): connecting, searching with one reconnection, and VerifyUser.
-- * Mq.Rabbit (mq/rabbitmq/rabbitMQ.go): the state RabbitMq and the regions under mu; Connecting is one
--   attempt alone, Reconnecting the loop of connectAsync, Lifecycle all interleavings with Stop,
--   Producing the publications, Backoff the delays, Config NewRabbitMQ.
-- * Mail (mail/sender/mailSender.go): the persistent connection of MailSender; Retry is SendMessage.
-- * Sms (smsc/smsc.go): the session, the parts of a message and their waiters; Retries is SendMessage.
-- * Tc (tc/tcClientSender): the state machine of Start, Stop, wsConnect, wsDisconnect and wsRestart.
--   Tc.Token has getAuthorizationToken, its Requests, and the Redaction of what it logs.
-- * Config (app/v3/config/basic): Load. Loading finds and reads the file, Walk goes through the tree of
--   values and changes each by its tags, Settled says which values the tags leave alone, and Secrets is
--   about files with encrypted texts.
-- * Db.Bolt (db/bbolt/etcdBBolt.go): the wrapper of bbolt. Laws has what it relies on, Store the map
--   that a client sees, Updates what a transaction leads to, Refine and Runs the refinement, Keys and
--   Log the order of numbered entries.
-- * Db.Postgres (db/postgres/postgreSql.go): Start and Stop; Backoff has DoRestart, Delays what it sleeps,
--   Lifecycle the calls in any order, Pools the pools that stay open, Listening the two channels.
-- * Sms.Store (smsc/CustomStore.go): the requests that wait, and in Refine the map that they are.
-- * Web.FastHttp (web/fasthttp/client/FastHttpClient.go): DORequest; Headers has the copied headers.
-- * Web.Ntlm (web/gin/middleware/ntlm): the handler; Access says whom it lets through, also with the
--   verifier that asks Ldap.Client, and Fields how a client's message is read.
-- * PrettyLog (app/v3/log/prettylog/plog.go): the lines of the log; Cutting is about long messages,
--   Frames has the cached places of calls and Handle.
-- * Monitoring.Otel (monitoring/otel/otello.go): Start and Stop; Providers has the attributes of a
--   service and the loop of NewSpanID.
-- * Db.Mssql (db/mssql/msSql.go): Start and Stop; Pings has the loop of pings, and Lifecycle the handle
--   that stays open. Db.Oracle (db/oracle/oracleSql.go) has the same with restarts, in Handover.
--   Db.Handles counts the open handles of all three.
-- * Db.Types (db/types): Scan and Value of the types that may be left out.
-- * Utils.Numbers and Utils.Strings (utils/utilsString.go): integers, and pieces of text in Pieces.
-- * Crypt.Aes (crypt/aes): Crypt and DeCrypt over GCM, which is a parameter.
-- * Crypt.Jasypt (crypt/jasypt/jasypt.go): encryption and decryption around DES in CBC mode.
-- * Utils.Uuid (utils/uuid/uuid.go): version 7 identifiers, their texts and their encryption.
--
-- Prelude has what they share: Boolean tests, lists measured by native numbers, Go's maps with
-- their laws (Dict), signed integers (Int), texts and number formats (Text), their parsing (Parse)
-- and base64 (Base64).
--
-- Clocks, random numbers and answers of other libraries are arguments. An instant counts
-- nanoseconds as a natural number and a duration is an integer; a function that reads the clock
-- twice has two arguments. Text that a function takes apart is a list of bytes. Unsigned counters
-- wrap as in the source, and lengths of maps and lists are not bounded. The queue of container/heap
-- is a sorted list, which is what its contract promises. Where a lock protects a region, the region
-- is one step; where a part's goroutines interleave, the steps are the constructors of a data type
-- and runs are its chains.
--
-- Loops are recursions on lists. The digits of a number are made in as many rounds as the number
-- plus one, which is enough, since each round divides it; SendMessage has its five rounds, a start
-- of Db.Mssql its four pings and a token its three requests, NewSpanID the rounds up to the first
-- usable reading, and a delay doubles once for each failed attempt.
--
-- Parameters are code that is elsewhere: amqp091-go, go-ldap, gosmpp, gorilla/websocket, net/http's
-- transport, bbolt, pgx, database/sql, bigcache, fasthttp, OpenTelemetry, MD5, DES and AES, the
-- parsing of floats, durations, times and URLs, YAML and JSON. The promise that a theorem needs of
-- them is a named hypothesis, such as IsCbc, and a test instantiates it.
--
-- Not modelled: the calls of the log in every part; the types that reflection tells apart in a
-- configuration, the remaining middleware and helpers, and the parts of a file that only call a
-- library.
pub mod Prelude
pub mod App
pub mod Cache
pub mod Config
pub mod Crypt
pub mod Db
pub mod Ldap
pub mod Mail
pub mod Monitoring
pub mod Mq
pub mod PrettyLog
pub mod Sms
pub mod Tc
pub mod Utils
pub mod Web
