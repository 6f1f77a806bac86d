-- ===== src/Lib.antt =====
-- Byte-Battle is a server for programming contests in Go: users create games of one to twenty
-- problems, join them, and race to have each problem's solution accepted. This library models its
-- core.
--
-- * Games. `Game/` models internal/service/game_service.go, one definition for each method of
--   GameService, named as the method is, in snake case: `Game.Create` (CreateGame,
--   resolveProblemVersion), `Game.Members` (JoinGame, JoinGameByToken, LeaveGame), `Game.Progress`
--   (StartGame, CompleteGame, HandleAcceptedSubmission, TimeoutGame, CancelGame, DeleteGame) and
--   `Game.Read` (the methods that only read). `finish_game` is completeGame, `claim_victory` the
--   transaction that ends HandleAcceptedSubmission.
-- * Statements. `Queries/` models internal/db/sqlc/games.sql.go, game_participants.sql.go,
--   game_problems.sql.go, solutions.sql.go, problem_versions.sql.go, problems.sql.go (its lists in
--   `Queries.Listings`) and users.sql.go, a definition for each statement, with the constraints of
--   internal/migrations that it can violate.
-- * Sessions. `Session` models internal/service/session_service.go, with `Queries.Sessions` for
--   internal/db/sqlc/sessions.sql.go. rand.Read and hex.EncodeToString are parameters.
-- * Submissions. `Submission` models internal/service/submission_service.go: Submit is
--   `submit_code`, with `Execution` for the slots and rate limits of
--   internal/service/execution_service.go, `Problem.Output` and `Problem.Store` for the comparison
--   and the cache of internal/problems/store.go, and `Game.Progress` for what an accepted submission
--   does. The executor's Run and the reading of a problem's directory are parameters.
-- * Entrance. `Entrance` models internal/service/auth_service.go, with `Queries.Users` and
--   `Queries.VerificationCodes`. bcrypt, the mailer, crypto/rand, the regular expression of emails
--   and the formatting of digits are the fields of the record `Calls`.
-- * Problems. `Problem.Kebab` models titleToKebab of internal/problems/uploader.go;
--   `Problem.Archive` and `Problem.Validator` model the extraction of an archive and the tests of a
--   manifest, of a reference solution and of the number of cases in internal/problems/validator.go.
-- * Catalogue. `Catalog` models UpdateVisibility, ValidateUploadBatch and UploadNewVersion of
--   internal/service/problem_service.go, and uploadNewVersion of internal/problems/uploader.go;
--   `Catalog.Browse` its listings and GetProblem; `Catalog.Upload` UploadProblem of uploader.go;
--   `Catalog.Validation` ValidateArchive and what it calls of internal/problems/validator.go; and
--   `Catalog.Seeder` internal/problems/seeder.go. ILIKE, the hash and the renaming of a directory, and
--   what directories hold, are parameters.
-- * Accounts. `Account` models internal/service/user_service.go.
-- * Executor. `Docker` models internal/executor/docker_executor.go and config.go: `Docker.Pool` the
--   pool of one language (runWorker, Run's send, the shutdown and the drain), `Docker.Readiness`
--   IsReady, `Docker.Command` the configuration and the command of an execution, and `Docker.Exec`
--   execInContainer from what the container does to the result.
-- * Handlers. `Server.Games` models the handlers on games of internal/server/handler.go and
--   `Server.Rooms` its processSubmit, with `report` for what follows Submit. json.Marshal is a
--   parameter. `Server.Auth` models internal/server/auth_handler.go, and `Server.Access`
--   internal/server/auth_middleware.go and the error answers of internal/server/http_server.go.
--   `Server.Problems` and `Server.Execute` model the handlers on problems and uploads and PostExecute,
--   of handler.go.
-- * Database. `Db.Rows` has the rows of internal/db/sqlc/models.go; `Db.Exec` the calls.
-- * API errors. `ApiErr` models internal/apierr/errors.go.
-- * WebSocket hub. `Hub` models internal/ws/hub.go and the queue of internal/ws/client.go.
--
-- A method of the service is an `Action`: from the world (the tables, the time of the request, a
-- count of the round trips and which of them fail) to a result and the next world. Each statement,
-- each Begin and each Commit is a round trip, and any of them may fail. A transaction whose body
-- or commit fails leaves the tables as they were. A transaction runs in one step, as SELECT … FOR
-- UPDATE makes it do for one game; a method without a transaction runs its statements one after
-- another, and `Game.Races` lets another request in between. `Game.Change` is the abstract
-- transition system of the games; `Game.Refine` shows that each method follows it, and
-- `Game.Requests` that a server which handles requests one after another does. `Game.Invariant`,
-- `Game.Status` and `Game.Problems` rest on the transition system alone; `Game.Outcomes`,
-- `Game.Founding`, `Game.Listing`, `Game.Batch` and `Game.Indices` are about what the methods
-- return.
--
-- Submit runs in one goroutine on a state of slots, limiters, cache and world; `Execution.Schedule`
-- interleaves goroutines, one step of a sync.Map or of a channel at a time. A sync.Map is a list of
-- entries and a channel a cell, so that a goroutine may hold a channel that the map has lost.
--
-- In `Docker.Pool`, a step is one operation of a goroutine on the queue, on an item's channel or on
-- Docker, and a `Choice` what the environment makes of it: which calls of Docker succeed, and whether
-- a select takes the shutdown where it can. Work items and containers are numbered as they are made.
-- `Docker.Accounting`, `Docker.Containers` and `Docker.Service` are about where items and containers
-- can be.
--
-- In `Hub`, a room is a cell of a heap, because Join holds a room that Leave may take out of the
-- map; Join is its two critical sections, one after the other, and `Hub.Races` runs a Leave between
-- them. The map's iteration order is the order in which the clients were added.
--
-- time.Now() and NOW() are one clock, which stands still during a request. Instants are not rounded
-- to PostgreSQL's microseconds. Numbers are natural numbers; int32(id) is `% 2 ^ 32`. The range of
-- INTEGER is tested where a statement can leave it. A UUID is a number and gen_random_uuid() a
-- function of the round trip. A sequence value drawn by a rolled-back statement is drawn again,
-- where PostgreSQL leaves a gap. Recursion is on lists, but for the loops of ten turns that make a
-- username and a slug, whose fuel is that number of turns.
--
-- Not modelled: the texts of messages; the wrapping of errors; what a method returns beside an
-- error; a commit that succeeds although its answer is lost; connections, JSON and the goroutine of
-- WritePump; the calls of Docker themselves, its images, signals and containers left by an earlier
-- process; the reading of directories; the lengths of text columns; the loop of the WebSocket
-- handler, routing, CORS and the rate limit by address; configuration and the frontend.
pub mod Prelude
pub mod ApiErr
pub mod Db
pub mod Queries
pub mod Game
pub mod Session
pub mod Hub
pub mod Problem
pub mod Docker
pub mod Execution
pub mod Catalog
pub mod Account
pub mod Entrance
pub mod Submission
pub mod Server
mod Tests
