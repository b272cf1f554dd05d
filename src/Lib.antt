-- ===== src/Lib.antt =====
-- PAFS backend API: a verification library for its authentication, its scheduler and the submission of
-- proposals.
--
-- The program is a hapi server over a PostgreSQL database that it reaches through Prisma. A request
-- is authenticated by a JSON Web Token (src/plugins/jwt); the auth plugin (src/plugins/auth) signs
-- users in and out and rotates their sessions; the scheduler plugin (src/plugins/scheduler) runs
-- cron tasks, of which every instance of the server has a copy, under a lock kept in the database. The
-- projects plugin (src/plugins/projects) keeps proposals: a user submits one once its validation finds
-- no error, and the programme's other system decides on it through the routes of src/plugins/external.
--
-- The files and the code that they model:
--   Prelude          the shared names, Boolean tests on native numbers and texts, lists, and
--                    `Outcome`, the result of an asynchronous operation that may throw
--   Auth/User        prisma/schema.prisma, the table pafs_core_users; ACCOUNT_STATUS
--   Auth/Config      src/config/auth.js, the settings that the modelled code reads
--   Auth/Store       the calls of prisma.pafs_core_users as an interface with laws
--   Auth/Areas       src/plugins/areas/helpers/user-areas.js, getAreaTypeFlags
--   Auth/Password    src/plugins/auth/helpers/password.js
--   Auth/Jwt         src/plugins/auth/helpers/jwt.js
--   Auth/Lockout     src/plugins/auth/helpers/session.js
--   Auth/Service     src/plugins/auth/services/auth-service.js, login; its writes in Service/Writes
--   Auth/Session     the same file, logout and refreshSession
--   JwtAuth/Cache    src/plugins/jwt/jwt-auth.js, buildAuthCache
--   JwtAuth/Validate the same file, validate and what it calls
--   Auth/Token       src/plugins/auth/services/token-service.js, helpers/secure-token.js
--   Auth/Reset       src/plugins/auth/services/password-service.js, helpers/password-history.js, and
--                    the handlers of password/reset-password.js and password/set-password.js
--   Scheduler/Inactivity   src/plugins/scheduler/tasks/disable-inactive-accounts.js, and the conditions
--                          of its queries in src/plugins/accounts/services/account-service.js
--   Projects/Reference     src/plugins/projects/services/project-reference-service.js
--   Projects/Value       the values of a project's fields, as JavaScript has them, and
--                        src/plugins/projects/helpers/project-validations/submission/submission-utils.js
--   Projects/Dates       submission-date-utils.js beside it, and toFinancialYear of
--                        src/plugins/projects/carbon-impact/carbon-impact.js
--   Projects/Submission  src/plugins/projects/helpers/project-validations/validate-submission.js, and in
--                        child files submission/validate-funding-sources.js (Funding),
--                        validate-environmental-benefits.js (Environment) and validate-nfm.js (Nfm)
--   Projects/Permissions src/plugins/projects/helpers/project-permissions.js and canSubmitProject
--   Projects/States      PROJECT_STATUS, resolveStatus, the tables of projects and states as an
--                        interface with laws, and the writes of a state in
--                        src/plugins/projects/services/project-service.js
--   Projects/Submit      src/plugins/projects/submit-project/submit-project.js
--   Projects/StatusChange  src/plugins/projects/update-status/update-status.js
--   External/Proposals   src/plugins/external/update-proposal-status/update-proposal-status.js
--   External/LegacyFix   src/plugins/external/fix-legacy-completed/fix-legacy-completed.js
--   Requests             sequences of calls of the routes that move a proposal through its life cycle
--   Projects/Edits       src/plugins/projects/helpers/project-validations/perform-validations.js and the
--                        checks beside it; Timeline and FundingRows are perform-validations-timeline.js
--                        and perform-validations-funding-sources.js
--   Areas            the rows of areas as an interface, and src/plugins/areas/helpers/area-utils.js
--   Areas/Hierarchy  src/plugins/areas/services/area-service.js, an area with its parents, with the cache
--                    and the start of src/plugins/projects/helpers/area-hierarchy.js
--   Areas/Access     the lists of areas of src/plugins/areas/helpers/user-areas.js
--   Pagination       src/common/helpers/pagination.js
--   Projects/Funding     the money of a project by year, over the tables of its rows in Funding/Tables: the
--                        services project-funding-sources-service.js (in the file itself),
--                        project-funding-contributors-service.js and its sync service (Contributors) of
--                        src/plugins/projects/services; helpers/funding-sources-normalizers.js and
--                        funding-sources-contributor-normalizers.js beside them (Payload, Page, Saving);
--                        and applyFundingNormalizers of upsert-project/upsert-project.js (Saving)
--   Projects/Mapper      src/plugins/projects/helpers/project-mapper.js, with conversions.js (Conversions)
--                        and project-config.js (Fields) beside it
--   Scheduler/LockTable    prisma/schema.prisma, scheduler_locks, and its calls as an interface
--   Scheduler/LockService  src/plugins/scheduler/services/distributed-lock-service.js and
--                          scheduler-db-service.js
--   Scheduler/Service      src/plugins/scheduler/scheduler-service.js
-- The other files prove theorems, Fixtures instantiate the interfaces, and Tests run the definitions.
--
-- State. A method that writes takes the rows and gives them back, with its result or a throw. The
-- database is a parameter: its calls are fields of a record, and the laws in that record are what
-- Prisma documents of them. bcrypt, jsonwebtoken, the hash of the crypto module and the cron parser
-- are parameters too. A session id or a token that is drawn at random is an argument of the
-- operation that draws it, and so is the time, in milliseconds, that `Date.now()` gives. The operations
-- of a `Promise.all` are all run, in the order in which they are listed, and the whole throws if one of
-- them did (`after_both` of Prelude/Effects); the program starts them together, so that where two
-- contributors of a year have one type and name it does not fix which amount stays. Whether the queue
-- takes a message is an argument of the submission. The read of a project, with what enriches it, is
-- one call of the tables, and a Decimal of the database stands for the text that its `toFixed` gives.
-- What is read of a column after a write and the order of `localeCompare` are parameters.
--
-- Bounds. All loops are structural recursion on lists, but that which lists the decimal digits of a
-- number: its fuel is one more than the number, and a division by ten makes a number other than 0
-- smaller. JavaScript numbers that are counters or times are natural numbers: they stay far below
-- 2 ^ 53 in the code modelled. A number in a field of a project is an integer or NaN, and a text is read
-- as a number in decimal digits with a sign, so fractions and exponents are outside the model.
--
-- Not modelled: logging, metrics, HTTP glue and schemas; the carbon calculator, which computes in
-- floating point, so that its digests are parameters of the validation; and the other plugins: accounts,
-- the writes of areas, the rest of projects (the normalisers of payloads that are not about funding, the
-- write of the row of a project, the list, the payload for the other system), downloads, uploads, the
-- queue consumer and health.
pub mod Prelude
pub mod Pagination
pub mod Areas
pub mod Auth
pub mod JwtAuth
pub mod Scheduler
pub mod External
pub mod Projects
pub mod Requests
