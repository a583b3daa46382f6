-- ===== src/Dependencies/Search.antt =====
-- The search for a cycle of dependencies in application_controller.go: that it ends, and that it
-- finds a cycle if and only if there is one.
use kuvryn_sync.Prelude.{
  ℕ, zero, suc, ◌≤◌, ◌<◌, String, ◌≡◌, refl, sym, ap, ◌∙◌, ◌⊎◌, inl, inr, Bool, true, false, Option,
  none, some, List, [], ◌∷◌, ◌++◌, arith, ◌==◌, eq_iff, eq_refl, if◌then◌else◌, Bool-cases,
  Option-cases, lookup,
}
use mathlib.Core.Path.{subst}
use mathlib.Core.Bool.{false≢true}
use mathlib.Core.Option.{some-injective}
use kuvryn_sync.Api.{Application}
use kuvryn_sync.Dependencies.Unseen.{keys, unseen, Kept, unseen-le, unseen-cons, member-keys}
use kuvryn_sync.Dependencies.{
  member, Finding, cycle, clear, out_of_fuel, declared, visit_each, visit_next, visit, visit_by,
  closes, next_of,
}

some≢none : (next : List String) → none ≡ some next → ⊥
some≢none next e = ground (arith, e)

module _ (start : String) (deps : List String) (by_name : List (String × Application)) where
  -- The names that `name` depends on, `none` where there is no such Application.
  abbrev pub dependencies_of : String → Option (List String)
  dependencies_of name = if name == start then some deps else declared (lookup name by_name)

  -- One name depends on another.
  abbrev pub Edge : String → String → Type 0
  Edge x y = (next : List String) × (dependencies_of x ≡ some next) × (member y next ≡ true)

  -- The names of `path` are a walk from `start` to `name`, each depending on the next, and `start`
  -- only begins it.
  pub data Along : List String → String → Type 0 where
    root : Along [] start
    push :
        {path : List String} {x y : String}
        → Along path x
        → closes start deps by_name x path ≡ false
        → Edge x y
        → Along (path ++ x ∷ []) y

  -- From `start` back to `start`.
  pub record IsCycle (names : List String) : Type 0 where
    pub path : List String
    pub names_eq : names ≡ path ++ start ∷ []
    pub along : Along path start
    pub closed : closes start deps by_name start path ≡ true

  pub record Grown (seen more : List String) : Type 0 where
    pub kept : Kept seen more
    pub done :
        (x y : String)
        → member x more ≡ true
        → Edge x y
        → (member x seen ≡ true) ⊎ ((member y more ≡ true) × (y == start ≡ false))

  closes-push :
      (path : List String) (x y : String)
      → closes start deps by_name y (path ++ x ∷ []) ≡ (y == start)
  closes-push [] x y = refl
  closes-push (z ∷ path) x y = refl

  next_of-push :
      (path : List String) (x y : String)
      → next_of start deps by_name y (path ++ x ∷ []) ≡ declared (lookup y by_name)
  next_of-push [] x y = refl
  next_of-push (z ∷ path) x y = refl

  next_of-Along :
      (path : List String) (name : String)
      → Along path name
      → closes start deps by_name name path ≡ false
      → next_of start deps by_name name path ≡ dependencies_of name
  next_of-Along _ _ root h = rw (eq_refl start) refl
  next_of-Along _ name (push {path} {x} along c e) h =
      let away : (name == start) ≡ false = sym (closes-push path x name) ∙ h in
      rw (next_of-push path x name, away) refl

  -- What a call of `visit` promises, by what it gives.
  abbrev Visited : List String → String → Finding → Type 0
  Visited seen name (cycle names) = IsCycle names
  Visited seen name (clear more) =
      Grown seen more × (member name more ≡ true) × (name == start ≡ false)
  Visited seen name out_of_fuel = ⊥

  -- The same, of the expansion of a name, which is `start` itself in the first call.
  abbrev pub Expanded : List String → String → Finding → Type 0
  Expanded seen name (cycle names) = IsCycle names
  Expanded seen name (clear more) = Grown seen more × (member name more ≡ true)
  Expanded seen name out_of_fuel = ⊥

  abbrev Each-away : List String → List String → Type 0
  Each-away deps more =
      (y : String) → member y deps ≡ true → (member y more ≡ true) × (y == start ≡ false)

  abbrev VisitedEach : List String → List String → Finding → Type 0
  VisitedEach seen deps (cycle names) = IsCycle names
  VisitedEach seen deps (clear more) = Grown seen more × Each-away deps more
  VisitedEach seen deps out_of_fuel = ⊥

  Grown-refl : (seen : List String) → Grown seen seen
  Grown-refl seen = record { kept = λ n m. m; done = λ x y m e. inl m }

  Grown-trans : (a b c : List String) → Grown a b → Grown b c → Grown a c
  Grown-trans a b c f g = record {
    kept = λ n m. g.kept n (f.kept n m);
    done = λ x y m e. elim (g.done x y m e) [
      | inl in_b ↦ elim (f.done x y in_b e) [
        | inl in_a ↦ inl in_a
        | inr (in_b', away) ↦ inr (g.kept y in_b', away)
      ]
      | inr away ↦ inr away
    ];
  }

  abbrev room : List String → ℕ
  room seen = unseen seen (start ∷ keys by_name)

  -- A call for a name promises that, wherever enough names are not seen.
  abbrev Visits : (String → List String → Finding) → ℕ → List String → Type 0
  Visits call n deps =
      (dep : String) (seen : List String)
      → member dep deps ≡ true
      → room seen < n
      → Visited seen dep (call dep seen)

  room-le : (a b : List String) → Grown a b → room b ≤ room a
  room-le a b g = unseen-le a b (start ∷ keys by_name) g.kept

  extend :
      (seen more deps : List String) (dep : String) (o : Finding)
      → Grown seen more
      → member dep more ≡ true
      → dep == start ≡ false
      → VisitedEach more deps o
      → VisitedEach seen (dep ∷ deps) o
  extend seen more deps dep (cycle path) g m away v = v
  extend seen more deps dep (clear last) g m away (g', h) = (
    Grown-trans seen more last g g',
    λ y k. elim (Bool-cases (dep == y)) [
      | inl e ↦
          subst (λ z. (member z last ≡ true) × (z == start ≡ false)) ((eq_iff dep y).0 e)
            (g'.kept dep m, away)
      | inr e ↦ h y (rw e at k)
    ],
  )
  extend seen more deps dep out_of_fuel g m away v = v

  visit_each-Visited :
      (call : String → List String → Finding) (n : ℕ) (deps seen : List String)
      → Visits call n deps
      → room seen < n
      → VisitedEach seen deps (visit_each call seen deps)
  unfolding visit_each
  visit_each-Visited call n [] seen h r = (Grown-refl seen, λ y m. absurd (false≢true m))
  visit_each-Visited call n (dep ∷ deps) seen h r =
      by_outcome
        (λ more l. visit_each-Visited call n deps more (λ d s k. h d s (ground (arith, k))) l)
        (call dep seen) (h dep seen (rw (eq_refl dep) refl) r)
    where
      by_outcome :
          ((more : List String) → room more < n → VisitedEach more deps (visit_each call more deps))
          → (o : Finding) → Visited seen dep o
          → VisitedEach seen (dep ∷ deps) (elim o [
            | cycle path ↦ cycle path
            | clear more ↦ visit_each call more deps
            | out_of_fuel ↦ out_of_fuel
          ])
      by_outcome rest (cycle path) v = v
      by_outcome rest (clear more) (g, m, away) =
          extend seen more deps dep (visit_each call more deps) g m away
            (rest more (omega (arith, r, room-le seen more g)))
      by_outcome rest out_of_fuel v = v

  -- What is left to show where `name` is expanded: its own successors are now seen too.
  close :
      (seen : List String) (name : String) (next : List String) (o : Finding)
      → dependencies_of name ≡ some next
      → VisitedEach (name ∷ seen) next o
      → Expanded seen name o
  close seen name next (cycle path) e v = v
  close seen name next (clear more) e (g, h) = (
    record {
      kept = λ n m. g.kept n (ground (arith, m));
      done = λ x y m edge. elim (g.done x y m edge) [
        | inl in_both ↦ elim (Bool-cases (name == x)) [
          | inl same ↦
              let (next', e', k) = edge in
              let eqs : next' ≡ next =
                some-injective next' next
                  (sym e' ∙ (ap dependencies_of (sym ((eq_iff name x).0 same)) ∙ e)) in
              inr (h y (subst (λ l. member y l ≡ true) eqs k))
          | inr other ↦ inl (rw other at in_both)
        ]
        | inr away ↦ inr away
      ];
    },
    g.kept name (rw (eq_refl name) refl),
  )
  close seen name next out_of_fuel e v = v

  -- A name without an Application has no successors.
  close_none :
      (seen : List String) (name : String)
      → dependencies_of name ≡ none
      → Expanded seen name (clear (name ∷ seen))
  close_none seen name e = (
    record {
      kept = λ n m. ground (arith, m);
      done = λ x y m (next, e', k). elim (Bool-cases (name == x)) [
        | inl same ↦
            absurd (some≢none next (sym e ∙ (ap dependencies_of ((eq_iff name x).0 same) ∙ e')))
        | inr other ↦ inl (rw other at m)
      ];
    },
    rw (eq_refl name) refl,
  )

  known :
      (name : String) (next : List String)
      → dependencies_of name ≡ some next
      → member name (start ∷ keys by_name) ≡ true
  known name next e = elim (Option-cases (lookup name by_name)) [
    | inl n ↦ ground (arith, n, e, eq_iff name start, eq_iff start name)
    | inr (app, l) ↦ ground (arith, member-keys name by_name app l)
  ]

  to_Visited :
      (seen : List String) (y : String) (o : Finding)
      → y == start ≡ false
      → Expanded seen y o
      → Visited seen y o
  to_Visited seen y (cycle names) away h = h
  to_Visited seen y (clear more) away h = (h.0, h.1, away)
  to_Visited seen y out_of_fuel away h = h

  -- The call of `visit` for what `name` depends on.
  abbrev calls_of : ℕ → String → List String → String → List String → Finding
  calls_of n name path dep more = visit start deps by_name n dep (path ++ name ∷ []) more

  visit-eq :
      (n : ℕ) (name : String) (path seen : List String) (ends met : Bool)
      → closes start deps by_name name path ≡ ends
      → member name seen ≡ met
      → visit start deps by_name (suc n) name path seen
        ≡ visit_by start deps by_name (calls_of n name path) name path seen ends met
  unfolding visit
  visit-eq n name path seen ends met e k i =
      visit_by start deps by_name (calls_of n name path) name path seen (e i) (k i)

  -- A visit of a dependency of `x`, by what it does where it expands that.
  visit-Visited :
      (n : ℕ) (x y : String) (path seen : List String)
      → Along path x
      → closes start deps by_name x path ≡ false
      → Edge x y
      → room seen < n
      → (closes start deps by_name y (path ++ x ∷ []) ≡ false
          → Expanded seen y (visit start deps by_name n y (path ++ x ∷ []) seen))
      → Visited seen y (visit start deps by_name n y (path ++ x ∷ []) seen)
  unfolding visit_by
  visit-Visited zero x y path seen along c e r h = absurd (omega (arith, r))
  visit-Visited (suc n) x y path seen along c e r h = elim (Bool-cases (y == start)) [
    | inl home ↦
        let to_start = (eq_iff y start).0 home in
        rw
          (visit-eq n y (path ++ x ∷ []) seen true (member y seen) (closes-push path x y ∙ home)
            refl)
          (record {
            path = path ++ x ∷ [];
            names_eq = ap (λ z. (path ++ x ∷ []) ++ z ∷ []) to_start;
            along = subst (Along (path ++ x ∷ [])) to_start (push along c e);
            closed = rw (closes-push path x start, eq_refl start) refl;
          })
    | inr away ↦
        to_Visited seen y (visit start deps by_name (suc n) y (path ++ x ∷ []) seen) away
          (h (closes-push path x y ∙ away))
  ]

  pub visit-Expanded :
      (n : ℕ) (name : String) (path seen : List String)
      → Along path name
      → closes start deps by_name name path ≡ false
      → room seen < n
      → Expanded seen name (visit start deps by_name n name path seen)
  unfolding visit_by visit_next
  visit-Expanded zero name path seen along c r = absurd (omega (arith, r))
  visit-Expanded (suc n) name path seen along c r = elim (Bool-cases (member name seen)) [
    | inl m ↦ rw (visit-eq n name path seen false true c m) (Grown-refl seen, m)
    | inr fresh ↦ rw (visit-eq n name path seen false false c fresh) (
        by_next
          (λ dep more e l.
            visit-Visited n name dep path more along c e l
              (λ c'. visit-Expanded n dep (path ++ name ∷ []) more (push along c e) c' l))
          fresh (next_of start deps by_name name path) (next_of-Along path name along c))
  ]
    where
      by_next :
          ((dep : String) (more : List String)
            → Edge name dep
            → room more < n
            → Visited more dep (calls_of n name path dep more))
          → member name seen ≡ false
          → (next : Option (List String)) → next ≡ dependencies_of name
          → Expanded seen name (visit_next (calls_of n name path) (name ∷ seen) next)
      by_next calls fresh none e = close_none seen name (sym e)
      by_next calls fresh (some next) e =
          close seen name next (visit_each (calls_of n name path) (name ∷ seen) next) (sym e) (
            visit_each-Visited (calls_of n name path) n next (name ∷ seen)
              (λ dep more k l. calls dep more (next, sym e, k) l)
              (omega (
                arith,
                r,
                unseen-cons name seen (start ∷ keys by_name) (known name next (sym e)) fresh,
              )))
