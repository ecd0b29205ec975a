-- ===== src/Lib.antt =====
-- Urbanist Atlas: a verification library for the Go API server under api/.
--
-- The program keeps advocacy organisations and the regions they serve. A region graph (parents), a
-- table from postal codes to leaf regions and the orgs with their regions are loaded into a store in
-- memory at start. A lookup goes from a postal code to its leaf region, collects the ancestors that
-- are not national, finds the orgs that serve one of them, and sorts them into three tiers. A region's
-- page goes the other way, over the descendants. The public can submit orgs; a submission passes a
-- rate limiter and a check of every field before it is stored in an SQLite table, where an editor lists,
-- approves or rejects it; a worker then opens a pull request that adds the org to the bundled data.
-- Usage is counted in memory and flushed.
--
-- The parts, and the files they are modelled in:
--   Base                 lists, bytes, tables, sorting and results, shared by all
--   Atlas/Types          the data of api/pkg/atlas/atlas.go, browse.go and stats.go
--   Atlas/Kinds          the kind sets of state_kinds.go, metro_kinds.go and browse_kinds.go
--   Atlas/Postal         postal.go: normalizing and validating codes
--   Atlas/Store          the MemStore of memstore.go and its writes (AddRegion, AddRollupState, AddOrg,
--                        AddPostalCode)
--   Atlas/Graph          graph.go: bfsCollectIDs, buildChildrenOf, buildOrgsByRegion, countDistinctOrgs
--   Atlas/Queries        the reads of memstore.go; Upward is bfsUpwardFirstMatch and ListRegions, Stats
--                        is Stats
--   Atlas/Search         regionsearch.go
--   Atlas/Buckets        region_scope.go: BucketOrgsByScope
--   Atlas/Lookup         lookup.go and region.go: Lookup, placeLabel and GetRegion
--   Atlas/Fields         the field checks of submission_validate.go
--   Atlas/Submission     the rest of submission_validate.go: CreateSubmission and ValidateSubmission
--   Http/RateLimit       ratelimit.go and the constants of tuning.go, of api/internal/httpapi
--   Usage/Recorder       recorder.go of api/internal/usage: the buffer of daily counts and its flush
--   Seed/Regions         validateRegions of api/internal/seedfiles/regions.go
--   Seed/Cycles          DetectCycles and DetectCyclesGraph of the same file
--   Seed/Orgs            validateOrgs and ValidateOrgFields of orgs.go beside it
--   Seed/Postal          ParsePostal of postal.go beside it
--   Seed/Assembly        resolveOrgRegions and assertReachableLeaves of build.go beside it
--   Seed/Load            buildMemStore of build.go, the regions files
--   Seed/Build           buildMemStore as a whole, and BuildMemStore
--   Sqlite/Rows          the table of submissions and its queries, of
--                        api/internal/store/sqlite/gen/submissions.sql.go
--   Sqlite/Submissions   store.go of api/internal/store/sqlite: Create, Get, Approve, Reject,
--                        AttachPromotionResult and the cursors
--   Sqlite/Pages         ListPage and List of the same file
--   Promotion/Queue      worker.go of api/internal/githubpr: Enqueue, Run, Stop, drainAndExit
--   Promotion/Retry      doIdempotentRequest of the same file
--   Promotion/PullRequest
--                        openPR, process and ProcessNow of the same file, RenderOrgBlock of toml.go
--   Promotion/Text       DeriveSlug of toml.go, and the texts of a pull request in worker.go
--   Etl/Slugify          Slugify of api/internal/etl/slugify.go
-- A file below one of these holds its proofs; files called Tests hold small runs.
--
-- How the code is read. A Go string is the list of its bytes. An id is a natural number; a Go map is
-- an association list, whose `range` order is the order of its entries. `sort.Slice` is a stable
-- insertion sort with the same `less`. A time is a number of nanoseconds, and `now` is an argument. A
-- mutex makes a method atomic, so a method is a function from state to state. An error is a value; its
-- text is dropped where nothing reads it.
--
-- Fuel. The walk of graph.go takes fuel, one more than the number of edges out of registered regions;
-- that this is enough is among the results. The upward walk of memstore.go takes its fuel in the same
-- way. The search for cycles of regions.go takes one more than the number of slugs that it may come to,
-- and the retry loop of worker.go its four attempts; that both are enough is among the results. A client
-- that follows the cursors of a listing is given one page more than there are rows.
--
-- Parameters. Case folding, trimming and counting runes go by Go's Unicode tables: the record Unicode
-- states their behaviour on ASCII text. URL parsing (net/url), address parsing (net/netip), the
-- submission store, the usage store, the region resolver and GitHub are functions that the definitions
-- take, and so are reading a file and decoding TOML, CSV and JSON. The record Library states what is used of
-- encoding/base64, and Fields what is used of strings.Fields. The table of submissions is the list of its
-- rows; the queries are read by the meaning that SQL gives them, and the database does not fail.
--
-- Not modelled: the HTTP handlers, the importers (api/internal/etl) but for their slugs, the metrics,
-- the coverage recorder and the web client, which are for the most part I/O and glue; of the SQLite
-- stores, opening and migrating the database, and the usage and coverage tables; of the usage recorder,
-- its goroutine.
pub mod Base
pub mod Atlas
pub mod Http
pub mod Usage
pub mod Seed
pub mod Sqlite
pub mod Promotion
pub mod Etl
