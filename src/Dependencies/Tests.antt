-- ===== src/Dependencies/Tests.antt =====
-- Runs and examples for the dependencies of an Application.
use kuvryn_sync.Prelude.{
  String, ◌≡◌, refl, ◌≢◌, ◌↔◌, Bool, true, some, List, [], ◌∷◌, All, lookup, insert,
}
use kuvryn_sync.Samples.{application}
use kuvryn_sync.Api.{HealthState, Application}
use kuvryn_sync.Dependencies.{
  cycle, out_of_fuel, find_cycle, dependency_cycle, dependency_healthy, by_name, dependencies_ready,
}
use kuvryn_sync.Dependencies.Search.{IsCycle}
use kuvryn_sync.Dependencies.Cycles.{
  Walk, find_cycle-ends, find_cycle-IsCycle, dependency_cycle_iff,
}
use kuvryn_sync.Dependencies.Ready.{IsReady, dependencies_ready_iff}

abbrev app : String → List String → Application
app name deps = record (application []) { name = name; depends_on = deps }

abbrev apps : List Application
apps =
    app "web" ("api" ∷ "cache" ∷ [])
    ∷ app "api" ("db" ∷ [])
    ∷ app "db" ("cache" ∷ "web" ∷ [])
    ∷ app "cache" []
    ∷ []

abbrev names : List (String × Application)
names = by_name [] apps

find_cycle_found :
    find_cycle "web" ("cache" ∷ "api" ∷ []) names ≡ cycle ("web" ∷ "api" ∷ "db" ∷ "web" ∷ [])
unfolding find_cycle by_name insert lookup
find_cycle_found = refl

dependency_cycle_text :
    dependency_cycle "web" ("cache" ∷ "api" ∷ []) names ≡ "web -> api -> db -> web"
unfolding dependency_cycle find_cycle by_name insert lookup
dependency_cycle_text = refl

-- A cycle that does not lead through the Application does not hold it back.
dependency_cycle_other : dependency_cycle "shop" ("web" ∷ []) names ≡ ""
unfolding dependency_cycle find_cycle by_name insert lookup
dependency_cycle_other = refl

find_cycle-ends_example : find_cycle "shop" ("web" ∷ "gone" ∷ []) names ≢ out_of_fuel
find_cycle-ends_example = find_cycle-ends "shop" ("web" ∷ "gone" ∷ []) names

find_cycle-IsCycle_example :
    IsCycle "web" ("cache" ∷ "api" ∷ []) names ("web" ∷ "api" ∷ "db" ∷ "web" ∷ [])
find_cycle-IsCycle_example =
    find_cycle-IsCycle "web" ("cache" ∷ "api" ∷ []) names ("web" ∷ "api" ∷ "db" ∷ "web" ∷ [])
      find_cycle_found

dependency_cycle_iff_example :
    (dependency_cycle "shop" ("web" ∷ []) names ≡ "")
    ↔ (Walk "shop" ("web" ∷ []) names "shop" "shop" → ⊥)
dependency_cycle_iff_example = dependency_cycle_iff "shop" ("web" ∷ []) names

dependencies_ready_iff_example :
    (ready : Bool) × (after : Application) × (dependencies_ready
        (some apps)
        (app "shop" ("api" ∷ "cache" ∷ []))
      ≡ some (ready, after))
    × ((ready ≡ true) ↔ (
        (Walk "shop" ("api" ∷ "cache" ∷ []) names "shop" "shop" → ⊥)
        × All (IsReady names) ("api" ∷ "cache" ∷ [])))
dependencies_ready_iff_example = dependencies_ready_iff apps (app "shop" ("api" ∷ "cache" ∷ []))

-- The health of a dependency counts, whatever its state says.
healthy_dependency :
    dependency_healthy (
      some (
        let db = app "db" [] in
        record db {
          status = record (db.status) {
            observed_generation = db.generation;
            health = HealthState.healthy;
            state = HealthState.unknown;
            desired_revision = "abc";
            deployed_revision = "abc";
          };
        }))
    ≡ true
unfolding dependency_healthy
healthy_dependency = refl
