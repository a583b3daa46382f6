-- ===== src/Annotations.antt =====
-- api/v1alpha1/application_types.go: the annotations by which approvals and rollbacks are requested
-- and recorded; internal/revisionid/revisionid.go: what a rollback's approval binds.
use kuvryn_sync.Prelude.{ℕ, String, Option, List, ◌==◌, if◌then◌else◌, or_empty, lookup}
use kuvryn_sync.Api.{Revision, SyncPolicy, Strategy, Application}

abbrev pub Annotations : Type 0
Annotations = List (String × String)

-- `annotations[key]`
abbrev pub given : String → Annotations → String
given key m = or_empty (lookup key m)

abbrev pub approved_revision : String
approved_revision = "sync.kuvryn.io/approved-revision"

abbrev pub approve_digest : String
approve_digest = "sync.kuvryn.io/approve-digest"

abbrev pub approved_by : String
approved_by = "sync.kuvryn.io/approved-by"

abbrev pub approved_at : String
approved_at = "sync.kuvryn.io/approved-at"

abbrev pub approved_digest : String
approved_digest = "sync.kuvryn.io/approved-digest"

abbrev pub rollback_revision : String
rollback_revision = "sync.kuvryn.io/rollback-revision"

abbrev pub rollback_from : String
rollback_from = "sync.kuvryn.io/rollback-from"

abbrev pub rollback_kind_key : String
rollback_kind_key = "sync.kuvryn.io/rollback-kind"

abbrev pub rollback_target_revision : String
rollback_target_revision = "sync.kuvryn.io/rollback-target-revision"

abbrev pub rollback_requested_by : String
rollback_requested_by = "sync.kuvryn.io/rollback-requested-by"

abbrev pub rollback_requested_at : String
rollback_requested_at = "sync.kuvryn.io/rollback-requested-at"

abbrev pub rollback_target_hash : String
rollback_target_hash = "sync.kuvryn.io/rollback-target-hash"

abbrev pub manual : String
manual = "manual"

abbrev pub automatic : String
automatic = "automatic"

-- Go's `time.Parse(time.RFC3339, s)`, `none` for its error, and `t.UTC().Format(time.RFC3339)`.
pub record Rfc3339 : Type 0 where
  pub parse : String → Option ℕ
  pub format : ℕ → String

-- The hexadecimal SHA-256 of the JSON of a struct with these fields, by Go's standard library.
abbrev pub Sum : Type 0
Sum = String → SyncPolicy → Strategy → String

unfoldable pub binding : Sum → String → Application → String
binding sum desired_state_hash application =
    if desired_state_hash == ""
    then ""
    else sum desired_state_hash application.sync application.strategy

unfoldable pub rollback_binding : Sum → Revision → Application → String
rollback_binding sum revision application =
    binding sum revision.status.deployed_desired_state_hash application
