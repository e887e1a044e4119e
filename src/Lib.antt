-- ===== src/Lib.antt =====
-- The task scheduling platform: the NestJS backend of the repository, under src/, and the store
-- and transport of its frontend, under frontend/. Tasks of projects in workspaces are created,
-- updated and deleted under optimistic locking; reads go through a Redis cache that every write
-- evicts; writes log to audit and activity queues, notify users and broadcast to sockets; and the
-- routes of a workspace stand behind up to three guards. This library translates the services and
-- guards to functions on one explicit state and proves what makes them correct.
--
-- The state (Platform/Io.antt) is a `World`: the rows of each table, what Redis holds, the jobs
-- enqueued, the events emitted, and the clock. An async method is a function `Io A` from a world
-- to a result (a value or the exception thrown) and the world it leaves: a throw does not undo
-- what was done before it, as in the code. The packages that the code calls (TypeORM, ioredis,
-- BullMQ, JwtService, bcrypt, PostgreSQL's text search) are the record `Platform` of
-- Platform/Drivers.antt, a parameter of every definition, and each of their calls may reject.
-- What the code relies on in them is Platform/Laws.antt, hypotheses of the theorems; Sample/
-- fills them with tables and a store in memory, on which the tests run.
--
-- - Base.antt, Base/: shared names, Boolean tests on numbers and texts, lists.
--
-- - Platform/Entities.antt: src/database/entities. Platform/Io.antt: the state, errors, jobs and
--   events. Platform/Drivers.antt and Platform/Laws.antt: the packages.
--
-- - Cache.antt, Cache/: src/modules/cache/cache.service.ts (`get`, `set`, `del`, `del_pattern`).
--
-- - Queue.antt, Queue/: src/modules/audit/audit.service.ts (`audit_log`) and
--   src/modules/activity/activity.service.ts (`activity_log`).
--
-- - Realtime.antt, Realtime/: src/modules/realtime/realtime.gateway.ts, the broadcasts in the
--   parent, the handlers of a socket in Sockets with the proofs in Rooms.
--
-- - Notification.antt, Notification/: src/modules/notification/notification.service.ts.
--
-- - Task.antt, Task/: src/modules/task/task.service.ts: `find_by_id` and `get_tasks` in Find,
--   `create_task` in Create, `update_task` and `delete_task` in Update, the cache keys in Keys,
--   the bodies of requests in Dto; what they ask of the columns in Requested, and the proofs in
--   Coherence, Writes, Updates, Creates, Deletes and Completion.
--
-- - Dashboard.antt, Dashboard/: src/modules/workspace/dashboard.controller.ts (`get_summary`),
--   with the proofs in Grouping and Counts. Http.antt, Http/: src/common/interceptors,
--   src/common/filters and src/common/middleware, with JSON in Json, the two ends of a reply in
--   Envelope, and the client's view of it in Replies. Health.antt, Health/:
--   src/modules/health/health.controller.ts, with what a failed ping leaves behind in Outage.
--   Routes.antt, Routes/: the controllers of src/modules, their routes in Accounts and Boards,
--   all of them in Table, the requests of the client against them in Reached, the guards before
--   them in Guarded and Entry, and the two methods that do more than call a service in Inline,
--   with src/modules/files/files.service.ts.
--
-- - Client.antt, Client/: frontend/src. The store and its reducers in State and Actions
--   (app/store), with the proofs in Mirror; app/api/apiSlice.ts in Query (axiosBaseQuery) and
--   Reauth (baseQueryWithReauth), with the proofs in Headers and in Reauth/; app/api/endpoints.ts
--   in Endpoints; services/socket/socketService.ts in Sockets, with Bound and Aligned;
--   hooks/useSocket.ts in Events.
--
-- - Guards.antt, Guards/: src/common/guards (`jwt_auth_guard`, `role_guard`, `permission_guard`
--   and the three in a row, `guard_chain`) and the roles of src/common/constants.
--
-- - Users.antt, Users/: src/modules/users/users.service.ts. Auth.antt, Auth/:
--   src/modules/auth/auth.service.ts, sessions (`login`, `logout`, `refresh`, `revoke_session`)
--   in Defs with the proofs in Steps, Rotation, Logins and Sessions, and accounts (`signup`,
--   `verify_email`, `request_password_reset`, `reset_password`) in Account with Accounts.
--
-- - Workspace.antt, Workspace/: src/modules/workspace/workspace.service.ts, the methods in Defs,
--   the slug of a name in Slug, the proofs in Creation, Members and SlugForm.
--
-- - Project.antt, Project/: src/modules/project/project.service.ts, with the proofs in Lists and
--   Writes. Comment.antt, Comment/: src/modules/comment/comment.service.ts, with the proofs in
--   Added, Targets and Told.
--
-- - Subtask.antt, Subtask/: src/modules/subtask/subtask.service.ts, the recursive queries in
--   Query, `buildTree` in Tree, the proofs in Reach and Adoption.
--
-- - Scheduler.antt, Scheduler/: src/modules/scheduler/scheduler.service.ts (`check_due_tasks`).
--   Workers.antt, Workers/: src/workers, one function for each kind of job (`process`).
--
-- - Sample/: drivers in memory, with the proofs that they keep the laws, and a small world.
--
-- Conventions. An id is a natural number, where a UUID is only compared in the code; 0 is the id
-- of an entity that is not saved yet, and of the empty string. A date is a number of
-- milliseconds. A cache key is the list of its parts between colons. A row that goes to Redis as
-- JSON comes back as the same row. Of the relations that are loaded with a row only their ids are
-- kept: TypeORM stores the id of a loaded relation, not what was assigned to its column, which is
-- written out where it matters (`joined_assignee`). An optional field of a request is none if it
-- is missing; a null is not told apart from it. A cache entry may expire at any time, which the
-- laws of Redis allow: they bound what is found, and promise only that what is deleted is gone.
--
-- The client (Client/Reauth.antt) is a record of its store, its calls and the requests that it
-- has sent; an event is a stretch of code between two awaits, so that a run over any list of
-- events is any interleaving of calls. Its server is not a part of it: replies are arguments of
-- events. An id is a text in the client and in a url, where the code tests whether it is empty.
--
-- Every loop of the modelled code runs over a list that is given. The one fuel is that of a
-- recursive query, one round more than the table has rows: where the parents of the tasks form no
-- cycle, no chain of subtasks is longer than that, and on a cycle PostgreSQL would not end.
--
-- Not modelled: the validation decorators of the DTOs, loggers and metrics, the S3 client, the
-- seed script and the application's wiring but for its controllers, and the frontend's React
-- components, apart from useSocket. How NestJS, axios, Redux Toolkit and socket.io work is taken
-- from their documentation, as an interface or as the form of what they hand to the code.
pub mod Base
pub mod Platform
pub mod Cache
pub mod Queue
pub mod Realtime
pub mod Notification
pub mod Users
pub mod Auth
pub mod Workspace
pub mod Project
pub mod Task
pub mod Subtask
pub mod Comment
pub mod Dashboard
pub mod Scheduler
pub mod Workers
pub mod Guards
pub mod Http
pub mod Health
pub mod Client
pub mod Routes
pub mod Sample
