-- ===== src/Lib.antt =====
-- maintainer-d keeps the register of the maintainers of the CNCF's projects and carries it to the
-- services that need it. This development models the parts of it that decide something.
--
-- The parts and their files:
-- - cmd/web-bff/main.go, the server behind the web interface: its login with GitHub, its tables of
--   sessions and of pending logins, and the guard before every other handler. Auth/Directory has
--   authorizeLogin, Auth/Stores sessionStore and stateStore, Auth/Handlers the handlers and
--   requireSession; a run is the list of requests in the order in which the locks serve them.
-- - plugins/fossa/client.go: Fossa has it as its callers see it, Fossa/Trace records the calls, and
--   Fossa/Answers and Fossa/Client are the client over HTTP, with the loop over the pages of users in
--   Fossa/Client/Pages and the look-up of a user in Fossa/Client/Lookup.
-- - code-scanners/internal/controller/codescannerfossa_controller.go, the controller that keeps a
--   FOSSA team and a config map for each project: Scanner/Types and Scanner/Kube have the resource
--   and the cluster's interface, Scanner/Invite ensureUserInvitations, Scanner/Membership
--   ensureTeamMembership, Scanner/Conditions setCondition and the verdict, Scanner/Resource what is
--   computed without a call, Scanner/Stages and Scanner/Reconcile the reconciliation. Every early
--   return is a clause of a function named for the call before it.
-- - cmd/sync/main.go, the copy of the register into the cluster's resources: Sync/Names has
--   sanitizeName, Sync/Specs the specifications and their comparisons, Sync/Rows the loop that the
--   five kinds share, Sync/Kinds the five kinds and syncAll.
-- - onboarding/server.go, the server that answers the onboarding issues on GitHub: Onboarding/Team
--   has addProjectMaintainersToFossaTeam, Onboarding/Label handleLabelCommand with the titles of
--   onboarding/task.go.
-- - db/store_impl.go, the operations on the database that the web interface calls: Store has the
--   interface to gorm, Store/Companies, Store/Maintainers and Store/Upsert the operations,
--   Store/Tables and Store/Laws the tables and what each statement does to them, and the children of
--   Store/Laws the operations as changes of tables. Store/Memory is a database that obeys the laws.
-- - cmd/web-bff/main.go, the handlers behind the guard: Web/Params and Web/Urls read parameters and
--   URLs, Web/Actor and Web/Changes make the audit events, Web/Maintainer, Web/Company, Web/Project,
--   Web/FromRef and Web/Create have the handlers that write, Web/Issues the cache of onboarding
--   issues, Web/Serve the routes to those that write, Web/Summary the lists of maintainers shown.
--   Web/Entitled, Web/SelfEdit and Web/Run have who may change what and what every run of requests
--   keeps.
-- - kdp-workspaces/internal, the operator of the kcp workspaces: Workspaces/Kcp and Workspaces/Rbac
--   are its client of the kcp server, Workspaces/Conditions and Workspaces/Project the controller that
--   gives each project a workspace, Workspaces/Staff and Workspaces/Events the one that binds the
--   staff to their role in all. Workspaces/Memory has both servers in memory.
-- - refparse/maintainer_refs.go, the tables of a project's maintainer file: Refparse has
--   parseMarkdownTablesForHandles, and Refparse/Handles what it extracts.
-- - model/main.go: Model. Base has the shared names, texts, tests, decimals and maps.
--
-- Everything outside the program is an argument: GitHub's answers, random tokens and the clock in
-- Env, FOSSA and the cluster as records of methods that pass a state of the world along. A Go map
-- with text keys is an association list that holds each key once. A text is a list of code points,
-- and letters and spaces are those of ASCII. Fuel stands in three places: `itoa`
-- has a number's value plus one, and a number has no more digits; the loop over the pages of users
-- is given its fuel, and as many rounds as there are pages are enough; the runs of the project
-- controller are counted, and two more than the waits until the workspace is ready are enough.
--
-- The database is a record of statements over a state of the world. A query is a function of that
-- state and does not change it; a write returns the state that it leaves; each may fail. The handlers
-- run one at a time, so that no other request comes between the statements of one.
--
-- Not modelled: the listings of projects, the search and the list of audit events, which only read;
-- the store's maps for the other commands; the other commands of the onboarding server, the import of
-- the spreadsheet, the Snyk controller; what refparse reads by regular expressions only; logging,
-- flags, HTTP and database connections, the user interface.
pub mod Base
pub mod Model
pub mod Auth
pub mod Fossa
pub mod Scanner
pub mod Store
pub mod Refparse
pub mod Web
pub mod Sync
pub mod Onboarding
pub mod Workspaces
