-- ===== src/Ordering/Tests.antt =====
-- internal/ordering/ordering.go on concrete objects.
use kuvryn_sync.Prelude.{
  ◌≡◌, refl, [], ◌∷◌, map, Perm, select, All, Each, sort_by, lookup, atoi, codes_eq, trim_space,
  to_lower, split, gather,
}
use kuvryn_sync.Samples.{web, config, later_config, migration, cleanup, all_objects}
use kuvryn_sync.Ordering.{append_at, apply_less, hook, hook_stage, wave, groups, layer, apply_order}
use kuvryn_sync.Ordering.Waves.{deployed, groups-perm}
use kuvryn_sync.Ordering.Stages.{Before, IsGroup, groups-Before, groups-IsGroup}

groups_test :
    map (λ g. g.objects) (groups all_objects)
    ≡ (migration ∷ []) ∷ (config ∷ web ∷ []) ∷ (later_config ∷ []) ∷ (cleanup ∷ []) ∷ []
unfolding groups hook hook_stage lookup codes_eq to_lower trim_space split apply_order sort_by
    append_at wave atoi apply_less layer
groups_test = refl

groups-perm_example :
    Perm (gather (λ g. g.objects) (groups all_objects)) (select deployed all_objects)
groups-perm_example = groups-perm all_objects

groups-Before_example : Each Before (groups all_objects)
groups-Before_example = groups-Before all_objects

groups-IsGroup_example : All IsGroup (groups all_objects)
groups-IsGroup_example = groups-IsGroup all_objects
