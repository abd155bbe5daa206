-- ===== src/Lib.antt =====
-- A model of the core of a FastAPI backend: who may log in, which sessions are live, what a user may
-- do, and the IDs of its rows.
--
-- The parts, and the files that model them:
-- - Errors: the exception classes of backend/common/exception/errors.py, as values.
-- - Snowflake: the ID generator of backend/utils/snowflake.py. Its clock is the list of readings that
--   `_current_ms` returns in turn; a call that has used them up still waits. Snowflake/Nodes is the
--   claim of a node in Redis and `init`.
-- - Redis: RedisCli of backend/database/redis.py over an interface of the server's commands. The laws
--   of the interface are the documented effects of GET, SET, SETEX, SET NX, DEL and SCAN; Redis/Memory fills it.
-- - Keys: the keys in Redis, with the prefixes of backend/core/conf.py.
-- - Platform: what the services call and the repository does not contain: the database session, the
--   token codec, the password hasher, dates and the reading of numbers, as one parameter with laws.
--   Platform/Concrete fills it. User and Role are those of backend/app/admin/model.
-- - Settings and Config: the settings that backend/utils/dynamic_config.py replaces from sys_config.
-- - Action: a request's steps, functions of a world (Redis, database, settings, time) that may raise.
--   What was written before an exception stays in the world that comes back with it.
-- - Jwt: backend/common/security/jwt.py. An access token counts while Redis holds it under its session.
-- - Security: backend/app/admin/service/user_password_history_service.py, locks and expiry.
-- - Auth: backend/app/admin/service/auth_service.py. It calls Security, Config and Jwt in the order of
--   the source.
-- - Password and Users: backend/app/admin/utils/password_security.py and the operations on one
--   account of backend/app/admin/service/user_service.py and backend/app/admin/crud/crud_user.py.
-- - Rbac: backend/common/security/rbac.py and backend/middleware/jwt_auth_middleware.py.
-- - Roles: backend/app/admin/service/role_service.py and the cache of users that it clears.
-- - Sql: the statements that backend/utils/sql_parser.py lets run.
-- - Pages: the offsets, page counts and links of backend/common/pagination.py.
-- - OperaLog: backend/middleware/opera_log_middleware.py and the batches of backend/common/queue.py.
-- - OAuth2: backend/plugin/oauth2, the login with and the binding of an account at another service.
-- - Release: script/version_bump.py, the next version.
-- - Plugins: backend/plugin and app/admin/service/plugin_service.py. Config is validator.py, Registry
--   the start-up and the switches of core.py and plugin_service.py, Remote the lists of plugins
--   elsewhere, Requirements requirements.py, Install installer.py with the removal. Host has what they
--   use of the file system and of libraries; Codec and Concrete show that it can be had.
-- - Avatars: backend/app/admin/utils/avatar.py and update_avatar of user_service.py.
-- - Files: backend/utils/file_ops.py, the files that are uploaded.
-- - Trees: backend/utils/build_tree.py, by traversal and by recursion.
-- - I18n: backend/common/i18n.py and middleware/i18n_middleware.py.
-- - Handlers: the answers to exceptions of backend/common/exception/exception_handler.py, and the demo
--   mode of backend/utils/demo_mode.py.
-- - Scheduler: the scheduled tasks of backend/app/task: Scheduler/Service is
--   service/scheduler_service.py, Scheduler/Beat the entries and the scheduler of
--   utils/schedulers.py. They share the table and the stamp of the last change in Redis.
-- - Tests: instances at concrete inputs.
--
-- Bounds: times are natural numbers of microseconds (milliseconds in Snowflake), and IDs are integers
-- of Python, without a bound. Texts are lists of code points. The fuels are that of `decimal`,
-- which is above the number and so above the count of its digits, and that of `sync_loop`, which is
-- above the number of names to save. The fuel of a tree is a bound of its depth, and that of a
-- copy one of the bytes. The names that OAuth2 tries are a list; one that has run out
-- ends in the error `endless`, for a loop that goes on; a sync without fuel ends in `out_of_fuel`.
--
-- Not modelled: a request runs alone and at one instant, and no key of Redis expires while it runs;
-- rollback of the database after an exception; log output; cookies, but for
-- the values that the services read; the heartbeat of a node; the lock of the
-- scheduler and the tasks that celery installs itself, with the errors of the database in a sync;
-- negative numbers in the security settings, which int reads and the model refuses;
-- encryption; the create and update
-- operations of users; and the parts that call a service or a framework (
-- serialisation, routes).
pub mod Prelude
pub mod Errors
pub mod Snowflake
pub mod Redis
pub mod Keys
pub mod Platform
pub mod Settings
pub mod Action
pub mod Jwt
pub mod Config
pub mod Password
pub mod Security
pub mod Auth
pub mod Users
pub mod Rbac
pub mod OAuth2
pub mod OperaLog
pub mod Release
pub mod Roles
pub mod Scheduler
pub mod Sql
pub mod Pages
pub mod Avatars
pub mod Files
pub mod Trees
pub mod I18n
pub mod Handlers
pub mod Plugins
pub mod Tests
