-- ===== src/Dependencies.antt =====
-- internal/controller/application_controller.go: `dependenciesReady`, which holds an Application
-- back until those that it depends on are healthy, and `dependencyCycle`, the search for a cycle.
mod Unseen
mod Search
pub mod Cycles
pub mod Ready
pub mod Tests
use kuvryn_sync.Prelude.{
  ℕ, zero, suc, ◌+◌, ◌-◌, ◌*◌, ◌^◌, ◌≤◌, ◌<◌, min, String, str_append, ◌≡◌, refl, sym, ap, ◌∙◌, ◌≢◌,
  ◌↔◌, ◌⊎◌, inl, inr, Bool, true, false, not, ◌&&◌, ◌||◌, Option, none, some, List, [], ◌∷◌, ◌++◌,
  map, Perm, arith, ◌==◌, eq_iff, eq_refl, ltb, leb, eqb, if◌then◌else◌, is_none, ltb→lt, lt→ltb,
  leb→le, eqb→eq, tests, Bool-cases, Option-cases, length, take, drop, select, any, all,
  length-append, take-append-drop, length-take, length-drop, All, Any, Each, text_lt, text_lt-asym,
  text_lt_trans, text_lt-antisym, IsOrder, sort_by, IsSorted, sort_by-perm, All-sort_by,
  sort_by-IsSorted, or_empty, lookup, insert, delete, lookup-insert, lookup-delete, ℤ, pos, negsuc,
  pos_part, neg_part, ◌<ℤ◌, ltb_ℤ, eqb_ℤ, eqb_ℤ→eq, ltb_ℤ-antisym, atoi, codes, codes_eq,
  trim_space, trim, to_lower, split, gather, All-select, All-of_select, All-of_sort_by, All-left,
  All-right, All-reverse, Each-reverse, gather-append, All-append, All-map_of, All-and,
  All-of_forall, Each-append, Each-and, gather-sort_by-perm, Each-sort_by,
}
use kuvryn_sync.Api.{HealthState, Condition, Application, Revision}

-- Go's `seen[name]`, of a map that only gains keys.
abbrev pub member : String → List String → Bool
member name [] = false
member name (s ∷ seen) = s == name || member name seen

-- What `visit` gives: the cycle that it found, or none and the names seen. The third stands for a
-- recursion that goes deeper than the fuel.
pub data Finding : Type 0 where
  cycle : List String → Finding
  clear : List String → Finding
  out_of_fuel : Finding

-- The names that are visited from a name, `none` where there is no such Application.
abbrev pub declared : Option Application → Option (List String)
declared none = none
declared (some app) = some app.depends_on

-- The loop over `next`, with the call of `visit` for a name and the names seen.
unfoldable pub visit_each : (String → List String → Finding) → List String → List String → Finding
visit_each visit seen [] = clear seen
visit_each visit seen (dep ∷ deps) = elim (visit dep seen) [
  | cycle path ↦ cycle path
  | clear more ↦ visit_each visit more deps
  | out_of_fuel ↦ out_of_fuel
]

unfoldable pub visit_next :
    (String → List String → Finding) → List String → Option (List String) → Finding
unfolding visit_each
visit_next visit seen none = clear seen
visit_next visit seen (some deps) = visit_each visit seen deps

module _ (start : String) (deps : List String) (by_name : List (String × Application)) where
  -- `path` is what the root call does not have.
  abbrev pub next_of : String → List String → Option (List String)
  next_of name [] = some deps
  next_of name (_ ∷ _) = declared (lookup name by_name)

  -- `name == start && len(path) > 0`
  abbrev pub closes : String → List String → Bool
  closes name [] = false
  closes name (_ ∷ _) = name == start

  -- The body of `visit`, with its calls, by whether the name closes the cycle and is seen.
  unfoldable pub visit_by :
      (String → List String → Finding) → String → List String → List String → Bool → Bool → Finding
  unfolding visit_next
  visit_by call name path seen true _ = cycle (path ++ name ∷ [])
  visit_by call name path seen false true = clear seen
  visit_by call name path seen false false = visit_next call (name ∷ seen) (next_of name path)

  unfoldable pub visit : ℕ → String → List String → List String → Finding
  unfolding visit_by
  visit zero name path seen = out_of_fuel
  visit (suc n) name path seen =
      visit_by (λ dep more. visit n dep (path ++ name ∷ []) more) name path seen (closes name path)
        (member name seen)

  -- Every name that is expanded is `start` or a key.
  unfoldable pub find_cycle : Finding
  unfolding visit
  find_cycle = visit (length by_name + 2) start [] []

-- `strings.Join(cycle, " -> ")`
unfoldable pub join_path : List String → String
join_path [] = ""
join_path (name ∷ []) = name
join_path (name ∷ next ∷ path) = str_append name (str_append " -> " (join_path (next ∷ path)))

cycle_text : Finding → String
unfolding join_path
cycle_text (cycle path) = join_path path
cycle_text (clear _) = ""
cycle_text out_of_fuel = ""

unfoldable pub dependency_cycle : String → List String → List (String × Application) → String
unfolding cycle_text
dependency_cycle start deps by_name = cycle_text (find_cycle start deps by_name)

abbrev is_healthy : HealthState → Bool
is_healthy HealthState.healthy = true
is_healthy _ = false

unfoldable pub dependency_healthy : Option Application → Bool
dependency_healthy none = false
dependency_healthy (some dep) =
    eqb dep.status.observed_generation dep.generation
    && is_healthy dep.status.health
    && not (dep.status.desired_revision == "")
    && dep.status.deployed_revision == dep.status.desired_revision

-- `byName` of the listed Applications: of two with one name the later counts.
unfoldable pub by_name :
    List (String × Application) → List Application → List (String × Application)
by_name names [] = names
by_name names (app ∷ apps) = by_name (insert app.name app names) apps

unfoldable pub waiting_for : List (String × Application) → List String → List String
unfolding dependency_healthy
waiting_for names = select (λ dep. not (dependency_healthy (lookup dep names)))

abbrev pub ready_key : String
ready_key = "DependenciesReady"

unfoldable pub dependencies_condition : String → List String → Condition
dependencies_condition found waiting =
    if not (found == "")
    then record { holds = false; reason = "DependencyCycle" }
    else if ltb 0 (length waiting)
    then record { holds = false; reason = "DependencyNotReady" }
    else record { holds = true; reason = "DependenciesHealthy" }

unfoldable pub with_conditions : Application → List (String × Condition) → Application
with_conditions application conditions = record application {
  status = record (application.status) { conditions = conditions };
}

unfoldable pub with_answer : Application → Condition → Bool × Application
unfolding with_conditions
with_answer application condition = (
  condition.holds,
  with_conditions application (insert ready_key condition application.status.conditions),
)

-- By what the Application depends on.
unfoldable pub ready_for :
    Option (List Application) → Application → List String → Option (Bool × Application)
unfolding dependency_cycle by_name waiting_for dependencies_condition with_answer
ready_for listed application [] =
    some (true, with_conditions application (delete ready_key application.status.conditions))
ready_for none application (dep ∷ deps) = none
ready_for (some apps) application (dep ∷ deps) =
    let names = by_name [] apps in
    some (
      with_answer application (
        dependencies_condition (dependency_cycle application.name (dep ∷ deps) names)
          (waiting_for names (dep ∷ deps))))

-- With the Applications of the namespace, `none` where their listing fails: the answer and the
-- Application with its condition.
unfoldable pub dependencies_ready :
    Option (List Application) → Application → Option (Bool × Application)
unfolding ready_for
dependencies_ready listed application = ready_for listed application application.depends_on

-- What `awaitDependencies` writes to the Revision.
unfoldable pub await_dependencies : Revision → Revision
await_dependencies revision = record revision {
  status = record (revision.status) { started_at = none };
}
