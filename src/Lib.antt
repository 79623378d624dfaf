-- ===== src/Lib.antt =====
-- CipherLake: an S3-compatible object store in Go, with its access control, caches, background tasks
-- and request limits. This library models the parts that decide, and states what they promise.
--
-- The parts and where they are modelled:
-- - Iam (internal/iam/policy.go, types.go): the documents of Iam.Types; Iam.Arn for resource names
--   (MakeARN, ResourceToS3Path, S3PathToResource); Iam.Glob for globMatch; Iam.Conditions for condition
--   blocks and variable substitution (conditionsMatch, resolveVariableSubstitution); Iam.Match for
--   statements (matchAction, matchResource, principalMatches, statementMatches); Iam.Evaluate for
--   Evaluate, EvaluateWithBoundary, EvaluateWithTempCreds, evaluateSCP and evaluateBoundary. The store of
--   users, groups and policies is read through the functions of IamStore. Iam.Service (service.go, boundary.go and
--   the maps of store.go) is IAMService with policies, what they are attached to, and boundaries.
-- - Cache (internal/cache/cache.go): ObjectCache with Get, Set, Delete and Clear. A list element is known
--   by the number it got when it was pushed, in place of its address, so that the map and the list can
--   disagree, as they can in the code. QueryResultCache with Get, Set, evictOldest and Clear.
-- - TaskQueue (internal/taskqueue/task.go, store.go, queue.go): tasks, sortTasks, MemoryStore with all its
--   operations, and Queue with Submit, Register, Start, processOne and retryDelay, over the store.
-- - RateLimit (internal/ratelimit/ratelimit.go): SlidingWindowCounter with Allow, Count and Reset, and
--   CircuitBreaker with Register, Allow, RecordSuccess, RecordFailure and GetState; ConcurrencyLimiter as the
--   interleaved accesses of one key's counter.
-- - Loader (internal/pluginloader/fsm.go, topology.go, capability.go, instance_pool.go, trust.go): LoaderFSM with every
--   replicated operation, over the buckets of bbolt, which Loader.Bolt states as a record of operations and laws.
--   Loader.Topology is topologicalOrder with sortStrings and checkDependenciesInstalled, and Loader.Capability is CapabilityTable with
--   the check that every host call makes (Authorize) and capabilityMatches. Loader.Pool is InstancePool with its
--   borrowers, whose calls come in any order, and Loader.Trust is TrustStore with VerifySignature and
--   DetermineEffectiveTier.
-- - Gateway (internal/gateway/resumable.go, resumable_cleanup.go, multipart.go, object_metadata.go and the records
--   of uploads in internal/metadata/store.go): Gateway.Objects for the putting of an object in the hot tier;
--   Gateway.Resumable for sessions with HandleCreateSession, HandlePatch, HandleHead, HandleFinalize and the
--   cleaner; Gateway.Multipart for uploads in parts with the handlers that create, upload, complete, abort, list
--   and clean up. A call takes the faults of disk, database and stores as an argument, so that each of its early
--   returns is a value. Gateway.Invariant and Gateway.Chunks are about histories of calls.
-- - Metadata (internal/metadata/store.go): Metadata for records and buckets (CreateBucket, UpdateBucket,
--   DeleteBucket, ListBuckets), Metadata.Object for objects and versions (PutObject, DeleteObject,
--   PutObjectVersion), Metadata.Listing for ListObjects, ListObjectVersions and ListObjectsWithDelimiter, where a
--   slice out of range is no result.
-- - Prelude: Boolean tests, lists, byte strings, Go maps as association lists, signed integers,
--   and strconv.ParseInt.
--
-- How they interact: the gateway asks the limiter and Iam before it serves a request, and submits indexing
-- work to TaskQueue, whose workers call the handlers registered for it; the plugin host replicates its state
-- through Loader. An upload ends in the same putting of an object as a plain request. Each part keeps a state of
-- its own. The caches, the task queue and its store, the window counter and the breaker, the loader's state and the
-- metadata store keep theirs behind a mutex or in a transaction, so an operation is one step from state to state.
-- Others do not. ConcurrencyLimiter takes one step for each atomic access, and a Borrow of the instance pool takes two.
-- CapabilityTable.Lookup reads what is revoked and expired after it has released the lock, which is one step here.
-- IAMService, the trust store and the handlers of resumable and multipart uploads have no lock around what they read and
-- write: here their calls come one after the other, and what is said of histories of calls is said of calls that do not
-- overlap. HandlePatch is given by its steps as well, in Gateway.Resumable.Steps, and Gateway.Overlap runs two
-- overlapping calls of it.
--
-- Bounds and fuel: the inner loops of sortTasks and the eviction loop of Set run once for each element of
-- the list they walk; the loop of Allow runs once for each bucket between the window's and the clock's.
-- globMatch runs on the fuel that Iam.Glob.rounds computes from the lengths of pattern and text, and
-- resolveVariableSubstitution with a round for each byte of the value and one
-- more: where these run out, the model gives the value back, while the code goes on, without end or to a later one. topologicalOrder has a round for each plugin and one more,
-- and Issue its eight attempts. The backoff of the queue and the versions of plugin state
-- wrap at 64 bits as in the code; counters and sizes do not wrap, since they count requests and bytes in memory.
--
-- Parameters: bbolt is the record Bolt, which association lists fill in Loader.Lists; base64,
-- SHA-256 and Ed25519 are the record Loader.Trust.Crypto; strconv.ParseFloat,
-- time.Parse and netip decide the numeric, date and address conditions, and are given as functions; so is the
-- float64 test of the breaker's error threshold; SHA-256 and the coordinator of encryption are functions too. A
-- task handler is a function from the task to what it returns.
--
-- Objects are known by bucket and key: that the file backend takes keys for paths is left out, and so are the tiers
-- other than the hot one. An upload's directory is what its id cleans to under the directory of uploads; what lies outside
-- of that and below an upload's own directory is left out.
--
-- Not modelled: JSON and HTTP, logs and metrics, waiting on channels and tickers, the bbolt store of tasks,
-- the metadata cache and the token buckets, and most of the gateway, the plugin host, the search engines, replication,
-- backup, key management and Raft. Of the gateway the handlers of objects and buckets, signatures and plugin
-- routes are left out, of the metadata store its log and statistics; a temporary file of a part counts only from its
-- renaming on. Of IAMService access keys, membership of groups and temporary credentials are left out.
pub mod Prelude
pub mod Iam
pub mod Cache
pub mod TaskQueue
pub mod RateLimit
pub mod Loader
pub mod Gateway
pub mod Metadata
