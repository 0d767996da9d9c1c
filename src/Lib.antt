-- ===== src/Lib.antt =====
-- A verification library for the OpenClaw operator, a Kubernetes operator that runs one OpenClaw
-- instance for each `OpenClawInstance` object. It models six parts of the operator.
--
-- Self-configuration (SelfConfig): an `OpenClawSelfConfig` object asks for changes of its instance.
-- internal/controller/selfconfig_apply.go turns the request into the partial spec that the operator
-- applies. SelfConfig/Actions has `determineActions` and `checkAllowedActions`, SelfConfig/Skills
-- `buildSkillsApply`, SelfConfig/ConfigPatch `buildConfigApply`, SelfConfig/DeepMerge `deepMerge`,
-- SelfConfig/Files `buildWorkspaceFilesApply` and `mergeStringMap` of internal/controller/maps.go,
-- SelfConfig/EnvVars `buildEnvApply`, SelfConfig/Apply `buildApplySpec`, and SelfConfig/Removal
-- `checkRemovalOwnership`, with Go's `%q` as a parameter. A JSON document is a value of Json, with its objects as lists of fields; a Go map is an association list of GoMap. The
-- order of the entries stands for the order in which a `range` loop meets them. Marshalling a
-- decoded document never fails, and is left out.
-- SelfConfig/ManagedFields reads the managed fields of server-side apply, as
-- internal/controller/selfconfig_managed_fields.go does, and SelfConfig/Reconcile is `Reconcile` and
-- `setTerminalStatus` of internal/controller/openclawselfconfig_controller.go: the server accepts or
-- refuses each request, the applied specs are kept in the order of the patches, and of the status
-- message only the warnings are. SelfConfig/Reconcile/Verdict has the verdict on a request.
--
-- Auto-update (AutoUpdate): internal/controller/autoupdate.go checks the registry for a newer version
-- and drives an update through backup, deployment, health check and rollback. A `World` holds the
-- object in memory, the object that the API server stores, the cluster around them, and the answers
-- that the server will give. AutoUpdate/Api has the client calls as a state monad with errors;
-- AutoUpdate/S3 the credentials and Jobs of internal/controller/s3.go; AutoUpdate/Backup
-- `drivePreUpdateBackup`, `lastPreUpdateBackupPath` and `abortUpdate`; AutoUpdate/Rollback
-- `driveRollback` and `driveRollbackRestore`; AutoUpdate/Drive `driveUpdateStateMachine` and
-- `driveHealthCheck`; AutoUpdate/Check `reconcileAutoUpdate`, its guards and `resolveInitialTag`;
-- AutoUpdate/Intervals the parsed intervals and the webhook's checks on them. An accepted status
-- update or patch makes the object in memory what the server then stores; a refused one changes
-- nothing on the server. A patch of the tag writes it also where the object in memory has that tag
-- already, in which case the source's patch is empty. A refusal stands for any error of the server, a conflict included. Times
-- are nanoseconds. AutoUpdate/Breaker has the steps of the whole system as a relation: reconciles,
-- reloads, and changes by the user and the cluster. Of the conditions of the status only
-- `AutoUpdateAvailable` is kept, by its message; metrics and log lines are left out, and an event is
-- kept by its reason. The mirror Secret and the owner references are left out, but the requests
-- that read and write the Secret may fail. `RollbackCount` is a natural number: it never passes 3.
--
-- Backup (Backup), on the same world: Backup/Deletion has `reconcileDeleteWithBackup`,
-- `removeFinalizer` and `orphanPVC` of internal/controller/backup.go, Backup/Restore
-- `reconcileRestore` of internal/controller/restore.go, and Backup/Schedule `buildBackupCronJob`,
-- `reconcileBackupCronJob` and `cleanupBackupCronJob` of internal/controller/s3.go. The messages of
-- conditions are left out. Backup/Deletion/Rounds has the cluster as a function that ends the pods
-- of a StatefulSet that is scaled down and completes the Jobs that run; a failed Job stays failed.
-- `CreateOrUpdate` is a request that reads and one that writes, also where nothing changes.
--
-- Registry (Registry): internal/registry/resolver.go finds the latest stable version among the tags
-- of a repository. Registry/Resolver has `LatestSemver`, `getTags`, `fetchTags`, `getToken` and the
-- parsers; GoStrings the functions of Go's package strings that they use. The loop over pages
-- is recursion on the number of pages left, which begins at `maxPages` as in the source. The HTTP
-- client and the resolution of a link against a URL are a parameter, and so are versions (Semver):
-- that no version is greater than itself and that the order is transitive is what the code relies
-- on. The lock on the cache is left out: the cache is passed through one call at a time.
--
-- Workspace files (Workspace): Workspace/Paths has the checks of internal/resources/validation.go and
-- `ValidateManagedWorkspacePath`, with `path.Clean` and the functions of Go's package strings in
-- GoStrings; Workspace/Keys `SkillPackCMKey`, `AdditionalWorkspaceCMKey` and its parser,
-- `managedMarkerPath` and the pattern of workspace names; Workspace/ConfigMap the data of
-- `BuildWorkspaceConfigMap` of internal/resources/workspace_configmap.go, with the texts of the
-- operator's own files as a parameter; Workspace/Policies the update policies and
-- `ManagedWorkspaceFileStatuses` of internal/resources/workspace_files.go, with SHA-256 as a
-- parameter; Workspace/Admission `validateWorkspaceSpec`, `validateManagedFiles` and
-- `validateSkillName` of internal/webhook/openclawinstance_webhook.go. Sorting is by insertion: the
-- keys and the names that are sorted are distinct.
--
-- Configuration (Enrich): internal/resources/configmap.go adds what the operator needs to the
-- configuration of an instance. Enrich has `enrichConfigWithGatewayMode`, `...GatewayBind`,
-- `...GatewayAuth`, `...OTelMetrics`, `...TrustedProxies`, `...SkillPacks` and `...Browser`, each as a
-- change of an object that may find nothing to do. A write into the nil map that the document `null`
-- decodes into is a panic, and has no result.
--
-- Prelude has the shared tests, loops, results and texts, and Duration models `time.ParseDuration`,
-- with fractions taken as exact products where Go multiplies floats. Tests holds the theorems at
-- concrete inputs.
--
-- Not modelled: the builders of the StatefulSet and the other objects in internal/resources, the
-- shell code that seeds the workspaces and the maps of replaced sources for it, the other enrichments
-- and the pipeline that runs them, the main reconcile, the other checks of the webhook, the skill
-- packs of internal/skillpacks, cmd, and generated code.
pub mod Prelude
pub mod GoMap
pub mod GoStrings
pub mod Workspace
pub mod Json
pub mod SelfConfig
pub mod Duration
pub mod Semver
pub mod AutoUpdate
pub mod Backup
pub mod Registry
pub mod Enrich
pub mod Tests
