-- ===== src/Lib.antt =====
-- A model of the deployment core of Kuvryn Sync, a GitOps controller for Kubernetes. It renders a
-- commit to objects, plans the change, waits for an approval where sync is manual, applies the
-- objects in groups, observes their health, prunes what is stale, and rolls back.
--
-- The parts, and the files of the repository that they model:
--   Api          api/v1alpha1: the Application, its Revisions and their statuses
--   Annotations  api/v1alpha1/application_types.go, internal/revisionid/revisionid.go: the
--                annotations that carry approvals and rollback requests, and what a rollback binds
--   Resource     internal/resource/identity.go: identities of objects
--   Ordering     internal/ordering/ordering.go: `apply_order` is Apply, `prune_order` Prune, `hook`
--                Hook, `wave` Wave, `groups` Groups, `validate_hooks` ValidateHooks
--   Prune        internal/prune/prune.go: `prune_plan` is Plan; `stale_managed_objects` of
--                internal/controller/application_controller.go gives it its input
--   History      internal/history/history.go and internal/rollback/rollback.go: `apply_retention`
--                is ApplyRetention, `target` Target
--   Retry        internal/retry/retry.go, and `retry_blocked` and `retry_backoff` of
--                internal/controller/application_controller.go
--   Health       internal/health/health.go: `evaluate` is Evaluate, `summary` Summary
--   Rollout      internal/controller/application_rollout.go: progress and hooks of a rollout
--   Webhook      internal/webhook/v1alpha1/application_webhook.go: `default` is Default, which
--                first calls `record_rollback_requester`
--   Approval     internal/controller/application_controller.go: `manual_approval` is manualApproval,
--                `rollout_approval` rolloutApproval; they read what the webhook stored
--   Rollback     internal/controller/application_rollback.go: requests, their approval, and holds
--   Deployment   internal/status/status.go, and `complete_successful_deployment` and
--                `fail_revision_and_application` of internal/controller/application_controller.go
--   Conflicts    internal/controller/application_controller.go: markConflictPolicy, conflictFailure
--   Dependencies internal/controller/application_controller.go: `dependencies_ready` is
--                dependenciesReady, `find_cycle` and `visit` the search of dependencyCycle
--   Reconcile    internal/controller/application_controller.go and application_health.go beside it:
--                `reconcile_revision` is Reconcile from the resolved Revision on, `decide_plan` what it
--                does with a plan; the plan is an argument
--   Walk         internal/controller/application_controller.go and internal/live/reader.go:
--                `apply_and_observe` is applyAndObserve, which `apply` of Reconcile stands for;
--                `visit_group` is one round of its loop
--   Desired      internal/validate/desired.go, internal/resource/scope.go and
--                defaultDestinationNamespace of internal/controller/application_controller.go:
--                `desired` is Desired, `is_namespaced` Namespaced; they come before the plan
--   Inventory    internal/applier/inventory.go and reconcileDelete of
--                internal/controller/application_controller.go: `list_managed` is ListManaged,
--                `reconcile_delete` lists what is managed and deletes what prune plans
--   Prelude      the helpers that the parts share; Samples: data for the tests
--
-- A Go map with string keys is an association list, of which a read takes the first entry. Errors
-- are values: `none`, or `rejected` with the reason; texts for people are left out. A loop over a
-- list is structural recursion, so that no fuel is needed. The search for a cycle of dependencies
-- has fuel for two more than there are Applications: it goes deeper only at the Application itself
-- and at a listed one, and at each of them once. Times are seconds. Numbers that Go keeps
-- in 32 or 64 bits are natural numbers or integers here, with the range that a parser checks; no
-- sum of the modelled code gets near the bounds.
--
-- Parameters stand for code outside the repository: the group and version syntax of Kubernetes, Go's
-- time format and hash, the reads from the cluster, and the API server's answer to a write. The
-- patterns of redaction are regular expressions, and are one too.
--
-- Not modelled: rendering and sources, the planner, the client that applies objects, the diagnosis,
-- the console and the command line, notifications and metrics, and what Reconcile does before the
-- source is resolved, but for the deletion of an Application that has the finalizer.
pub mod Annotations
pub mod Api
pub mod Approval
pub mod Conflicts
pub mod Dependencies
pub mod Deployment
pub mod Desired
pub mod Health
pub mod History
pub mod Inventory
pub mod Ordering
pub mod Prelude
pub mod Prune
pub mod Reconcile
pub mod Resource
pub mod Retry
pub mod Rollback
pub mod Rollout
pub mod Samples
pub mod Walk
pub mod Webhook
