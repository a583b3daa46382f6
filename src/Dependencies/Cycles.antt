-- ===== src/Dependencies/Cycles.antt =====
-- What the search for a cycle of dependencies in application_controller.go promises.
use kuvryn_sync.Prelude.{
  suc, ◌+◌, String, str_append, ◌≡◌, refl, sym, ap, ◌∙◌, ◌≢◌, ◌↔◌, ◌⊎◌, inl, inr, true, false, List,
  [], ◌∷◌, ◌++◌, arith, ◌==◌, eq_iff, eq_refl, length,
}
use Prim.Native.String.compare
use Prim.Native.String.append
use text.Mathlib.Text.{is_eq}
use mathlib.Core.Path.{subst}
use mathlib.Core.Bool.{false≢true}
use kuvryn_sync.Api.{Application}
use kuvryn_sync.Dependencies.{
  member, Finding, cycle, clear, out_of_fuel, closes, find_cycle, join_path, cycle_text,
  dependency_cycle,
}
use kuvryn_sync.Dependencies.Unseen.{keys, unseen}
use kuvryn_sync.Dependencies.Search.{Edge, IsCycle, Along, root, push, Expanded, visit-Expanded}

unseen-nil : (names : List (String × Application)) → unseen [] (keys names) ≡ length names
unseen-nil [] = refl
unseen-nil ((name, app) ∷ names) = ap (λ n. suc n) (unseen-nil names)

append-nonempty : (s t : String) → str_append s (str_append " -> " t) == "" ≡ false
append-nonempty String.[] t =
    rw (append.nil (str_append " -> " t), append.cons _ "-> " t) (ap is_eq (compare.cons-nil _ _))
append-nonempty (String.◌∷◌ c s) t =
    rw (append.cons c s (str_append " -> " t)) (ap is_eq (compare.cons-nil c _))

module _ (start : String) (deps : List String) (by_name : List (String × Application)) where
  -- One or more dependencies lead from a name to another.
  pub data Walk (x : String) : String → Type 0 where
    one : {y : String} → Edge start deps by_name x y → Walk x y
    more : {y z : String} → Walk x y → Edge start deps by_name y z → Walk x z

  find_cycle-Expanded : Expanded start deps by_name [] start (find_cycle start deps by_name)
  unfolding find_cycle
  find_cycle-Expanded =
      visit-Expanded start deps by_name (length by_name + 2) start [] [] root refl
        (omega (arith, unseen-nil by_name))

  -- The search does not run out of fuel.
  pub find_cycle-ends : find_cycle start deps by_name ≢ out_of_fuel
  find_cycle-ends e = subst (Expanded start deps by_name [] start) e find_cycle-Expanded

  -- What the search gives is a walk along the dependencies, from the Application back to it.
  pub find_cycle-IsCycle :
      (names : List String)
      → find_cycle start deps by_name ≡ cycle names
      → IsCycle start deps by_name names
  find_cycle-IsCycle names e = subst (Expanded start deps by_name [] start) e find_cycle-Expanded

  Walk-of :
      (path : List String) (y : String)
      → Along start deps by_name path y
      → (y ≡ start) ⊎ Walk start y
  Walk-of _ _ root = inl refl
  Walk-of _ y (push {path} {x} along c e) = elim (Walk-of path x along) [
    | inl same ↦ inr (one (subst (λ z. Edge start deps by_name z y) same e))
    | inr w ↦ inr (more w e)
  ]

  closed-Walk :
      (path : List String) (y : String)
      → Along start deps by_name path y
      → closes start deps by_name y path ≡ true
      → Walk start y
  closed-Walk _ _ root h = absurd (false≢true h)
  closed-Walk _ y (push {path} {x} along c e) h = elim (Walk-of path x along) [
    | inl same ↦ one (subst (λ z. Edge start deps by_name z y) same e)
    | inr w ↦ more w e
  ]

  -- From the names that the search has seen, nothing leads to the start or to a name not seen.
  stays :
      (names : List String) (y : String)
      → Expanded start deps by_name [] start (clear names)
      → Walk start y
      → (member y names ≡ true) × (y == start ≡ false)
  stays names y h (one e) = elim (h.0.done start y h.1 e) [
    | inl m ↦ absurd (false≢true m)
    | inr seen ↦ seen
  ]
  stays names y h (more {y = mid} w e) = elim (h.0.done mid y (stays names mid h w).0 e) [
    | inl m ↦ absurd (false≢true m)
    | inr seen ↦ seen
  ]

  join_nonempty : (path : List String) (x y : String) → join_path (x ∷ path ++ y ∷ []) == "" ≡ false
  unfolding join_path
  join_nonempty [] x y = append-nonempty x y
  join_nonempty (z ∷ path) x y = append-nonempty x (join_path (z ∷ path ++ y ∷ []))

  named :
      (path : List String) (names : List String)
      → closes start deps by_name start path ≡ true
      → names ≡ path ++ start ∷ []
      → join_path names == "" ≡ false
  named [] names h e = absurd (false≢true h)
  named (x ∷ path) names h e = rw e (join_nonempty path x start)

  -- `dependencyCycle` gives the empty text exactly where no walk along the dependencies leads from
  -- the Application back to it.
  pub dependency_cycle_iff : (dependency_cycle start deps by_name ≡ "") ↔ (Walk start start → ⊥)
  unfolding dependency_cycle cycle_text
  dependency_cycle_iff = by_outcome (find_cycle start deps by_name) find_cycle-Expanded
    where
      by_outcome :
          (o : Finding)
          → Expanded start deps by_name [] start o
          → (cycle_text o ≡ "") ↔ (Walk start start → ⊥)
      by_outcome (cycle names) h = (
        λ e. absurd (
            false≢true
              (sym (named h.path names h.closed h.names_eq) ∙ (eq_iff (join_path names) "").1 e)),
        λ no. absurd (no (closed-Walk h.path start h.along h.closed)),
      )
      by_outcome (clear names) h =
          (λ _ w. false≢true (sym (stays names start h w).1 ∙ eq_refl start), λ _. refl)
      by_outcome out_of_fuel h = absurd h
