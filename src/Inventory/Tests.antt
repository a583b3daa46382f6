-- ===== src/Inventory/Tests.antt =====
-- Runs and examples for what an Application manages and its deletion.
use kuvryn_sync.Prelude.{
  String, ◌≡◌, refl, Bool, true, false, some, [], ◌∷◌, ◌==◌, if◌then◌else◌, sort_by, lookup,
}
use kuvryn_sync.Samples.{group_versions, web, config}
use kuvryn_sync.Resource.{Object}
use kuvryn_sync.Ordering.{prune_order}
use kuvryn_sync.Prune.{Policy, prune_plan}
use kuvryn_sync.Inventory.{
  Kind, Listing, items, unknown_kind, forbidden_list, failed_list, Managed, list_kinds,
  list_managed, Deletion, reconcile_delete,
}
use kuvryn_sync.Inventory.Released.{IsDeletion, reconcile_delete-lem}

abbrev labelled : Object → Object
labelled o = record o { labels = ("sync.kuvryn.io/application", "shop") ∷ [] }

abbrev managed : Managed
managed = record { objects = labelled web ∷ labelled config ∷ web ∷ []; skipped = [] }

abbrev refuses_config : Object → Bool
refuses_config o = o.kind == "ConfigMap"

reconcile_delete-lem_example :
    IsDeletion refuses_config "shop" true true
      (some managed)
      (reconcile_delete refuses_config "shop" true true (some managed))
reconcile_delete-lem_example = reconcile_delete-lem refuses_config "shop" true true (some managed)

keeps_finalizer :
    (reconcile_delete refuses_config "shop" true true (some managed)).is_released ≡ false
unfolding reconcile_delete prune_order sort_by prune_plan kuvryn_sync.Prune.reject_reason lookup
    kuvryn_sync.Prune.skip_reason kuvryn_sync.Prune.high_risk kuvryn_sync.Ordering.apply_less
    kuvryn_sync.Ordering.layer kuvryn_sync.Ordering.identity
keeps_finalizer = refl

lists_objects : Kind → Listing
lists_objects k =
    if k.kind == "ConfigMap"
    then items (config ∷ [])
    else if k.kind == "Secret"
    then forbidden_list
    else unknown_kind

abbrev text : Kind → String
text k = k.kind

lists_own :
    list_managed lists_objects (λ k. false) "default" group_versions text [] []
    ≡ some (record { objects = config ∷ []; skipped = "Secret" ∷ [] })
unfolding list_managed kuvryn_sync.Inventory.union_kinds sort_by
    kuvryn_sync.Inventory.inventory_kinds lists_objects lookup
lists_own = refl
