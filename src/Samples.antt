-- ===== src/Samples.antt =====
-- Objects, Revisions and an Application for the tests of the modules.
use kuvryn_sync.Prelude.{
  ℕ, String, str_append, true, false, none, some, List, [], ◌∷◌, ◌==◌, eqb, if◌then◌else◌, pos,
}
use kuvryn_sync.Api.{
  Phase, HealthState, SyncState, ConflictPolicy, FailureAction, Revision, Application,
}
use kuvryn_sync.Annotations.{Rfc3339, Sum}
use kuvryn_sync.Resource.{Object, GroupVersions}

abbrev pub group_versions : GroupVersions
group_versions = record {
  parse = λ s.
      if s == "v1"
      then some ("", "v1")
      else if s == "apps/v1"
      then some ("apps", "v1")
      else if s == "batch/v1"
      then some ("batch", "v1")
      else none;
  format =
      λ group version. if group == "" then version else str_append group (str_append "/" version);
}

abbrev pub object : String → String → String → List (String × String) → Object
object version kind name annotations = record {
  api_version = version;
  kind = kind;
  namespace = "shop";
  name = name;
  labels = ("sync.kuvryn.io/application", "shop") ∷ [];
  annotations = annotations;
}

abbrev pub web : Object
web = object "apps/v1" "Deployment" "web" []

abbrev pub config : Object
config = object "v1" "ConfigMap" "config" []

abbrev pub later_config : Object
later_config = object "v1" "ConfigMap" "later" (("sync.kuvryn.io/sync-wave", "2") ∷ [])

abbrev pub secret : Object
secret = object "v1" "Secret" "token" []

abbrev pub migration : Object
migration = object "batch/v1" "Job" "migrate" (("sync.kuvryn.io/hook", "Pre-Sync ") ∷ [])

abbrev pub cleanup : Object
cleanup = object "batch/v1" "Job" "cleanup" (("argocd.argoproj.io/hook", "PostSync") ∷ [])

abbrev pub test_pod : Object
test_pod = object "v1" "Pod" "test" (("helm.sh/hook", "test") ∷ [])

abbrev pub all_objects : List Object
all_objects = web ∷ cleanup ∷ later_config ∷ test_pod ∷ config ∷ migration ∷ []

abbrev pub planned : Phase → String → String → ℕ → Revision
planned phase name source created = record {
  name = name;
  created = created;
  application = "shop";
  source_revision = source;
  desired_state_hash = "state-1";
  status = record {
    phase = phase;
    started_at = none;
    completed_at = none;
    attempts = 0;
    plan_digest = "digest-1";
    failure = none;
    approval = none;
    previous_revision = none;
    deployed_desired_state_hash = "state-1";
    hooks = [];
    conditions = [];
  };
}

abbrev pub application : List (String × String) → Application
application annotations = record {
  name = "shop";
  namespace = "team";
  generation = 1;
  annotations = annotations;
  depends_on = [];
  sync = record {
    automatic = false;
    prune = true;
    self_heal = true;
    conflict_policy = ConflictPolicy.fail;
  };
  strategy = record {
    kind = "RollingUpdate";
    failure_policy = record {
      action = FailureAction.pause;
      timeout = none;
      max_attempts = some (pos 3);
    };
  };
  history_limit = none;
  health_timeout = none;
  status = record {
    observed_generation = 1;
    sync = SyncState.synced;
    health = HealthState.healthy;
    state = HealthState.healthy;
    desired_revision = "abc";
    deployed_revision = "abc";
    conditions = [];
  };
}

-- A clock that shows one of two times.
abbrev pub clock : Rfc3339
clock = record {
  parse = λ s. if s == "noon" then some 12 else if s == "one" then some 13 else none;
  format = λ n. if eqb n 12 then "noon" else "one";
}

abbrev pub fingerprint : Sum
fingerprint = λ hash policy strategy. str_append "sum of " hash
