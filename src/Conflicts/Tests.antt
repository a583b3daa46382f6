-- ===== src/Conflicts/Tests.antt =====
-- The conflicts of a concrete plan.
use kuvryn_sync.Prelude.{String, ◌≡◌, refl, ◌↔◌, none, some, List, [], ◌∷◌, All}
use kuvryn_sync.Resource.{ObjectId}
use kuvryn_sync.Api.{ConflictPolicy}
use kuvryn_sync.Conflicts.{Conflict, Change, mark_conflict_policy, conflict_failure}
use kuvryn_sync.Conflicts.Marked.{IsLegacyOnly, conflict_failure-mark_conflict_policy}

abbrev web_id : ObjectId
web_id = record {
  group = "apps";
  version = "v1";
  kind = "Deployment";
  namespace = "shop";
  name = "web";
}

abbrev conflict : String → Conflict
conflict manager = record {
  path = "spec.replicas";
  manager = manager;
  policy = ConflictPolicy.unset;
}

abbrev changes : List Change
changes =
    record { id = web_id; conflicts = conflict "before-first-apply" ∷ conflict "kubectl" ∷ [] } ∷ []

kubectl_conflicts :
    conflict_failure (mark_conflict_policy ConflictPolicy.fail changes) ≡ some (web_id, "kubectl")
unfolding conflict_failure mark_conflict_policy
kubectl_conflicts = refl

conflict_failure-mark_conflict_policy_example :
    (conflict_failure (mark_conflict_policy ConflictPolicy.adopt changes) ≡ none)
    × ((conflict_failure (mark_conflict_policy ConflictPolicy.fail changes) ≡ none)
        ↔ All IsLegacyOnly changes)
conflict_failure-mark_conflict_policy_example = conflict_failure-mark_conflict_policy changes
