-- ===== src/Webhook/Record.antt =====
-- internal/webhook/v1alpha1/application_webhook.go: what a restored record holds.
use kuvryn_sync.Prelude.{
  String, ◌≡◌, refl, ap, ◌∙◌, inl, inr, Bool, true, false, ◌||◌, Option, none, some, List, [], ◌∷◌,
  arith, ◌==◌, eq_iff, if◌then◌else◌, Bool-cases, any, All, lookup, insert, lookup-insert,
  lookup-delete,
}
use kuvryn_sync.Annotations.{Annotations}
use kuvryn_sync.Webhook.{Rejection, Outcome, restore, restore_one}

-- The record of the old object.
abbrev pub IsKept : List String → Annotations → Annotations → Type 0
IsKept keys old m = All (λ key. lookup key m ≡ lookup key old) keys

abbrev pub IsCleared : List String → Annotations → Type 0
IsCleared keys m = All (λ key. lookup key m ≡ none) keys

-- Every key that is not of the record is as it is.
abbrev pub IsElsewhere : List String → Annotations → Annotations → Type 0
IsElsewhere keys m n = (j : String) → any (λ k. k == j) keys ≡ false → lookup j n ≡ lookup j m

lookup-restore_one :
    (key : String) (keep : Bool) (value : Option String) (m : Annotations) (j : String)
    → lookup j (restore_one key keep value m)
      ≡ (if key == j then (if keep then value else none) else lookup j m)
unfolding restore_one
lookup-restore_one key true none m j = lookup-delete key j m
lookup-restore_one key false none m j = lookup-delete key j m
lookup-restore_one key true (some value) m j = lookup-insert key j value m
lookup-restore_one key false (some value) m j = lookup-delete key j m

abbrev kept : Bool → Bool → Option String → Option String → Option String
kept here keep before now = if here then (if keep then before else none) else now

kept-twice :
    (a b keep : Bool) (before now : Option String)
    → kept a keep before (kept b keep before now) ≡ kept (b || a) keep before now
kept-twice a b keep before now = ground arith

same_key :
    (key j : String) (keep : Bool) (old : Annotations) (now : Option String)
    → (if key == j then (if keep then lookup key old else none) else now)
      ≡ kept (key == j) keep (lookup j old) now
same_key key j keep old now = elim (Bool-cases (key == j)) [
  | inl e ↦ rw e (ap (λ k. if keep then lookup k old else none) ((eq_iff key j).0 e))
  | inr e ↦ rw e refl
]

-- The keys of the record are as they were, or gone; every other key is as it is.
pub lookup-restore :
    (keys : List String) (keep : Bool) (old m : Annotations) (j : String)
    → lookup j (restore keys keep old m)
      ≡ kept (any (λ key. key == j) keys) keep (lookup j old) (lookup j m)
unfolding restore
lookup-restore [] keep old m j = refl
lookup-restore (key ∷ keys) keep old m j =
    lookup-restore keys keep old _ j
    ∙ ap (kept (any (λ k. k == j) keys) keep (lookup j old))
        (lookup-restore_one key keep (lookup key old) m j ∙ same_key key j keep old (lookup j m))
    ∙ kept-twice (any (λ k. k == j) keys) (key == j) keep (lookup j old) (lookup j m)

-- Two keys that are set one after the other.
pub lookup-insert2 :
    (a b : String) (x y : String) (m : Annotations) (j : String)
    → lookup j (insert a x (insert b y m))
      ≡ (if a == j then some x else if b == j then some y else lookup j m)
lookup-insert2 a b x y m j =
    lookup-insert a j x _ ∙ ap (λ o. if a == j then some x else o) (lookup-insert b j y m)

-- Three keys that are set one after the other.
pub lookup-insert3 :
    (a b c : String) (x y z : String) (m : Annotations) (j : String)
    → lookup j (insert a x (insert b y (insert c z m))) ≡ (
        if a == j then some x else if b == j then some y else if c == j then some z else lookup j m)
lookup-insert3 a b c x y z m j =
    lookup-insert a j x _
    ∙ ap (λ o. if a == j then some x else o)
        (lookup-insert b j y _ ∙ ap (λ o. if b == j then some y else o) (lookup-insert c j z m))

-- An outcome that is admitted has passed the check before it.
pub passed {ℓ} :
    {A : Type ℓ} (b : Bool) (why : Rejection) (rest : Outcome A) (a : A)
    → (if b then Outcome.rejected why else rest) ≡ Outcome.admitted a
    → (b ≡ false) × (rest ≡ Outcome.admitted a)
passed true why rest a h = cc
passed false why rest a h = (refl, h)

pub passed_else {ℓ} :
    {A : Type ℓ} (b : Bool) (why : Rejection) (rest : Outcome A) (a : A)
    → (if b then rest else Outcome.rejected why) ≡ Outcome.admitted a
    → (b ≡ true) × (rest ≡ Outcome.admitted a)
passed_else true why rest a h = (refl, h)
passed_else false why rest a h = cc

abbrev value_or {ℓ} : {A : Type ℓ} → A → Outcome A → A
value_or a (Outcome.rejected why) = a
value_or a (Outcome.admitted b) = b

pub admitted-inj {ℓ} : {A : Type ℓ} (a b : A) → Outcome.admitted a ≡ Outcome.admitted b → a ≡ b
admitted-inj a b h = ap (value_or a) h

pub missed :
    (a b c : Bool) (x y z o : Option String)
    → (c || (b || (a || false))) ≡ false
    → (if a then x else if b then y else if c then z else o) ≡ o
missed a b c x y z o h = ground arith

pub missed2 :
    (a b c : Bool) (x y o : Option String)
    → (b || (a || (c || false))) ≡ false
    → (if a then x else if b then y else o) ≡ o
missed2 a b c x y o h = ground arith
