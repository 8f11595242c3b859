-- ===== src/Lib.antt =====
-- Verification library of the NestJS engine.
--
-- The program is a server: Google login with rotating refresh tokens, rooms and notifications over
-- Socket.IO, a cache over Redis, and users in a database behind Prisma. What is modelled, file by file:
--
-- - Auth: src/auth/auth.service.ts. Auth/Deps has what the service is given (the Prisma client, the
--   cache, the JWT library, JSON, SHA-256), each a parameter, with the documented behaviour that
--   theorems rely on in Auth/Deps/Laws. Auth/Tokens is `generateTokens` and
--   `constantTimeCompare` (src/common/utils.ts), Auth/Sessions the private methods on sessions
--   and on the cache, Auth/Service the public ones: `handleGoogleLogin` is handle_google_login,
--   `refreshTokens` is refresh_tokens, and so on in snake_case. A method is cut into helpers where
--   its early returns are. Auth/Sessions/Effects and Auth/Service/* have the lemmas. Auth/Controller
--   is auth.controller.ts with its guards and the strategies of src/auth/strategies.
-- - Socket: src/core/socket. Socket/Rooms is room-manager.service.ts, Socket/Gateway is
--   socket.gateway.ts with the calls of Socket.IO returned as a list, Socket/AuthAdapter is
--   socket-auth.adapter.ts and Socket/AuthGuard is src/common/guards/ws-auth.guard.ts.
--   Socket/Docs is the documentation of src/core/socket/docs: the scan and the channels, and in
--   Socket/Docs/Page the document and the page with their caches.
-- - Cache: src/core/cache/cache.service.ts over a Redis client as a parameter, each of whose
--   commands may fail. Cache/Laws has the documented behaviour of a server that answers.
--   Cache/Connection is the constructor, `onModuleInit` and `onModuleDestroy`.
-- - Http: src/common/middleware/rate-limit.middleware.ts (Http/RateLimit, Http/RateWindow),
--   src/common/filters/http-exception.filter.ts (Http/ErrorFilter),
--   src/auth/guards/token-validation.guard.ts (Http/TokenGuard),
--   src/common/interceptors/cache.interceptor.ts (Http/CacheInterceptor), src/core/timezone
--   (Http/Timezone, over dayjs as a parameter) and src/health/health.controller.ts (Http/Health).
-- - User: src/user/user.repository.ts, src/user/user.service.ts and src/user/user.controller.ts, over
--   the cache of Cache/Service.
-- - Database: src/core/database/soft-delete.middleware.ts (Database/SoftDelete) and
--   delete-migration.service.ts (Database/Migration).
-- - Encryption: src/core/encryption/encryption.service.ts over Node's crypto library as a parameter.
-- - Setup: the wizard of src/setup. Setup/EnvDefinition and Setup/Env are the data of
--   env-definitions.ts and Setup/DatabaseUrl its two functions; Setup/EnvFile is the file .env in
--   setup.server.ts in both directions, Setup/Mysql its tests of the connection and Setup/Server its
--   routes, over the MySQL client, the file system and the commands as parameters. Setup/Page is
--   the fields of the form in setup.html.ts and Setup/Page/Script the script around a submission.
-- - Startup: src/main.ts and src/common/config, over what is done to NestJS as actions.
-- - Logger: what src/core/logger/logger.service.ts hands to winston.
-- - Backup: src/core/logger/log-backup.service.ts over the file system, the clock and the
--   calendar as parameters.
-- - Utils: the functions on texts of src/common/utils.ts.
-- - Exec: methods that change a state and may throw. What was changed before a throw stays changed.
-- - Js: the parts of JavaScript's library that the program uses: Map, Set, texts,
--   encodeURIComponent and decodeURIComponent, and whole numbers.
-- - The Tests modules run the code at concrete inputs, over a database, a cache, a JWT library and a
--   Redis server in memory.
--
-- Maps and sets are lists in the order of insertion. All numbers are natural numbers; what Redis may
-- answer below zero is a whole number of Js/Int. Times are arguments, in milliseconds, as are the
-- random parts of tokens. Loops recurse on their lists and need no fuel; the decimal digits of a
-- number in Setup/Page take the number itself as fuel, and Setup/Page/Digits shows that it is enough.
--
-- A method runs without another request in between, but for the connection that a disconnection
-- overtakes and for two refreshes with the same token. Times to live are not modelled: a law on the
-- cache or on Redis speaks of entries that still live. Not modelled: the log output of the other
-- parts, `handlePing`, the opening and closing of sockets, the static HTML of the setup page and the
-- start of its server, what NestJS, passport and class-validator do with the decorators, and the
-- wiring of modules.
pub mod Prelude
pub mod Js
pub mod Exec
pub mod Auth
pub mod Socket
pub mod Cache
pub mod Http
pub mod User
pub mod Database
pub mod Setup
pub mod Encryption
pub mod Utils
pub mod Backup
pub mod Startup
pub mod Logger
