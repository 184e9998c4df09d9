-- ===== src/Lib.antt =====
-- A server for the tasks of teams: users register and log in, found teams, invite each other, and
-- keep tasks with a history of changes and with comments. internal/handler answers the requests
-- through the services of internal/service, which decide who may do what; they reach MySQL
-- (internal/storage/mysql), a cache of task lists in Redis (internal/storage/redis) and a notifier
-- behind a circuit breaker (internal/circuitbreaker) through interfaces.
--
-- The files and the code they are about:
--   Domain, Domain/Ids, Domain/Errors   internal/domain: the structs, identifiers, sentinel errors
--     and `errors.Is`.
--   Action, Action/Rules, Action/Effects   Go functions that return `(T, error)`: what they do to the
--     world around them is passed on as a state, and the rules step through the calls of such a
--     function.
--   Platform   the clock, `uuid.NewV7` and the text formats, which are parameters.
--   Store, Store/Rules, Store/Roles, Store/Tasks   the rows of the tables of migrations/ as the
--     services see them: the abstract state over which their storages are specified.
--   Task/Service (`Service` of internal/service/task/task.go: Create, List, Update, History),
--     Task/Service/Requests (sequences of requests to it with one cache), Task/Service/History (the
--     entries that they leave), Task/Diff (`buildHistoryEntries` and its helpers), Task/Key (`cacheKey`, `cachePattern`).
--   Team/Service   `Service` of internal/service/team/team.go: Create, ListForUser, Invite.
--   Comment/Service   `Service` of internal/service/comment/comment.go: Add, List.
--   Auth/Service   `Service` of internal/service/auth/auth.go: Register, Login.
--   Handler/Users, Handler/Teams, Handler/Tasks, Handler/Comments, Handler/Reports   the handlers of
--     internal/handler/{auth,team,task,comment,analytics}.go, and `Service` of
--     internal/service/analytics/analytics.go; Handler/Response has what they share, Handler/Outcomes
--     and Handler/Changes put them on top of the services.
--   Mysql/Rows, Mysql/Analytics   the rows of internal/storage/mysql, helpers.go, and the functions
--     toTask, toHistory, toTeam, toUser, toComment, with the loops of analytics.go.
--   Mysql/Storage/{Users,Teams,Tasks,Comments,Analytics}   the methods of the storages of
--     internal/storage/mysql/{user,team,task,comment,analytics}.go, statement by statement, over the
--     driver of Mysql/Driver, which is a parameter.
--   Mysql/Contract   the laws of the driver: what each statement does to the tables, and what a
--     transaction does. The statements are those of Mysql/Statements, with each column beside its
--     value, and not the constants of the storages. Mysql/Reads, Mysql/Transactions and Mysql/Paging
--     are about the storages under these laws, Mysql/Sent about the values of the rows of tasks.
--   Mysql/Query, Mysql/Pages   the documented meaning of the statements of `ListTasks`, which its laws
--     refer to, and its pages.
--   Notifier   `EmailClient` of internal/circuitbreaker/email.go.
--   Connect, Connect/Mysql, Connect/Redis   `New` of internal/storage/mysql/db.go and of
--     internal/storage/redis/client.go.
--   Redis/TaskCache   `TaskCache` of internal/storage/redis/taskcache.go.
--   Middleware/Jwt, Middleware/RateLimit, Middleware/RequestId   internal/middleware/{jwt,ratelimit,
--     requestid}.go; Middleware/Chain   their order in `New` of internal/app/app.go.
--   App   `New` of internal/app/app.go, which hands the storages to the services; App/Stores,
--     App/Caching, App/Pages and App/Signup put the services on top of the storages and of the cache.
--   App/Life   `New` with its failures and `Shutdown` of internal/app/app.go, and
--     cmd/teamtasks/main.go; Config   internal/config/config.go.
--   Slogx/Masker, Slogx/Config, Slogx/Handler, Slogx/Cache, Slogx/Logger   pkg/slogx/{masker,options,
--     removal,levels,handler,logger}.go and pkg/logger/logger.go. Slogx/Cache has the cache of the
--     handler as single loads and stores, which Slogx/Alone puts in sequence; Slogx/Clone and
--     Slogx/Loggers have the maps, slices and pointers that loggers share (`Clone`, `UpdateConfig`,
--     `With`, `WithGroup`, context.go).
--   Genschema   scripts/genschema/main.go: Genschema/Parse (`parseSQL`) with Genschema/Patterns (the
--     regular expressions), Genschema/Diagram (`mermaidERD`), Genschema/Patch (`parseMigrations`,
--     `patchReadme`), Genschema/Main (`main`); Genschema/Text has what they use of package strings.
--   Memory and its children   storages in memory that meet the laws that the services rely on; the
--     theorems are applied to them in the modules called Tests. They model no code.
--
-- Each service is a record of the interfaces that the Go struct has as fields, and one function for
-- each method, in the order of its calls and returns. What a service relies on of its storages is a
-- record of laws beside it (IsTaskStore, IsTaskCache, IsTeamStore, IsCommentStore, IsUserStore); a
-- failure of any call at any point is allowed by them unless they say otherwise. The laws describe
-- runs in which no other request writes between two calls of the same request. Of the driver
-- (IsMysql) they also take it that a column keeps a text or a time as it is given, so that the
-- rounding of DATETIME(3) and DATE is left out, that emails are compared as they are written, where
-- their column goes by utf8mb4_unicode_ci, and that a commit fails only if nothing is committed. Of
-- the statuses that a list can be filtered by, only those of the domain are described, for the same
-- reason.
--
-- Bounds: instants are natural numbers of nanoseconds and counts are integers without a bound, as no
-- arithmetic on them comes near 64 bits; the offset of a page is computed in 64 bits and wraps round.
-- The scan loop of `TaskCache.Invalidate` runs on fuel, which is enough if it is more than the turns
-- of a full iteration; the wired service takes a loop that does not end within it as a failure, which
-- its laws exclude; the loops that wait for MySQL and Redis count down their ten attempts, and all
-- other loops range over lists.
--
-- The texts of scripts/genschema are bytes of ASCII, as the migrations are; an index out of range, at
-- which Go panics, is `none`.
--
-- Not modelled: log lines and the context argument of the services. The driver, the Redis client,
-- bcrypt, JWT, JSON, HTTP, the circuit breaker, the token bucket and the handlers of log/slog are
-- libraries, and so parameters. A request at the rate limiter is one step, without the lock of its
-- map. The attributes of log/slog are without the kind group, on which `ReplaceAttr` is never called,
-- and the handler cache is followed for one goroutine that logs. The generated code of
-- internal/handler/api/v1 but for its types of requests and responses, metrics, scripts/seed and the
-- test suites are left out, as they are generated or only read, print and connect.
pub mod App
pub mod Base
pub mod Domain
pub mod Action
pub mod Platform
pub mod Store
pub mod Task
pub mod Team
pub mod Comment
pub mod Config
pub mod Connect
pub mod Auth
pub mod Handler
pub mod Genschema
pub mod Mysql
pub mod Slogx
pub mod Notifier
pub mod Middleware
pub mod Redis
pub mod Memory
