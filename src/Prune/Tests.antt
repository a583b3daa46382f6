-- ===== src/Prune/Tests.antt =====
-- internal/prune/prune.go on concrete objects.
use kuvryn_sync.Prelude.{◌≤◌, ◌≡◌, refl, false, List, [], ◌∷◌, Perm, All, Each, sort_by, lookup}
use kuvryn_sync.Resource.{Object}
use kuvryn_sync.Ordering.{layer}
use kuvryn_sync.Samples.{group_versions, object, web, config, secret, test_pod}
use kuvryn_sync.Prune.{Policy, Reason, Rejected, Result, prune_plan, stale_managed_objects}
use kuvryn_sync.Prune.Safety.{MayDelete, IsPlanned, prune_plan-IsPlanned}
use kuvryn_sync.Prune.Complete.{sorted_out, prune_plan-accounts}
use kuvryn_sync.Prune.Stale.{IsUnlike, prune_plan-stale}

abbrev policy : Policy
policy = record { application = "shop"; allow_high_risk = false }

abbrev foreign : Object
foreign = record (object "v1" "ConfigMap" "other" []) { labels = [] }

abbrev kept : Object
kept = object "v1" "ConfigMap" "kept" (("sync.kuvryn.io/prune", "disabled") ∷ [])

abbrev live : List Object
live = config ∷ web ∷ foreign ∷ secret ∷ kept ∷ []

prune_plan_test : prune_plan live policy ≡ record {
  eligible = web ∷ config ∷ [];
  skipped =
      record { object = secret; reason = Reason.high_risk_kind }
      ∷ record { object = kept; reason = Reason.prune_disabled }
      ∷ [];
  rejected = record { object = foreign; reason = Reason.not_managed } ∷ [];
}
unfolding prune_plan kuvryn_sync.Ordering.prune_order kuvryn_sync.Prune.reject_reason sort_by lookup
    kuvryn_sync.Prune.skip_reason kuvryn_sync.Prune.high_risk kuvryn_sync.Ordering.apply_less layer
prune_plan_test = refl

stale_test :
    stale_managed_objects group_versions (web ∷ []) (test_pod ∷ []) (web ∷ config ∷ test_pod ∷ [])
    ≡ config ∷ []
unfolding stale_managed_objects kuvryn_sync.Resource.from_object
stale_test = refl

prune_plan-IsPlanned_example : IsPlanned policy (prune_plan live policy)
prune_plan-IsPlanned_example = prune_plan-IsPlanned live policy

prune_plan-accounts_example :
    Perm (sorted_out (prune_plan live policy)) live
    × Each (λ a b. layer b ≤ layer a) (prune_plan live policy).eligible
prune_plan-accounts_example = prune_plan-accounts live policy

prune_plan-stale_example :
    All
      (λ o.
        IsUnlike group_versions (web ∷ []) o
        × IsUnlike group_versions (test_pod ∷ []) o
        × MayDelete policy o)
      (prune_plan
        (stale_managed_objects group_versions (web ∷ []) (test_pod ∷ []) live)
        policy).eligible
prune_plan-stale_example = prune_plan-stale group_versions (web ∷ []) (test_pod ∷ []) live policy
