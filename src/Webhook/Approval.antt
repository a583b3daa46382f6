-- ===== src/Webhook/Approval.antt =====
-- internal/webhook/v1alpha1/application_webhook.go: the approval that an admitted object records.
use kuvryn_sync.Prelude.{
  ℕ, String, ◌≡◌, refl, sym, ap, ◌∙◌, ◌≢◌, ◌⊎◌, inl, inr, Bool, true, false, not, ◌&&◌, ◌||◌,
  Option, none, some, arith, ◌==◌, eq_iff, if◌then◌else◌, is_none, Bool-cases, any, or_empty,
  lookup, insert,
}
use kuvryn_sync.Api.{Revision, Application}
use kuvryn_sync.Annotations.{
  Annotations, given, approved_revision, approve_digest, approved_by, approved_at, approved_digest,
  Rfc3339, Sum,
}
use kuvryn_sync.Webhook.{
  UserInfo, authenticated, Rejection, Outcome, approval_record, restore, check_plan, stamp_approval,
}
use kuvryn_sync.Webhook.Record.{
  IsKept, IsCleared, IsElsewhere, lookup-restore, lookup-insert3, missed, passed, passed_else,
  admitted-inj,
}

no_request : (o : Option String) → is_none o ≡ true → o ≡ none
no_request none h = refl
no_request (some s) h = cc

module _ (reader : String → String → Option Revision) (sum : Sum) (time : Rfc3339) (now : ℕ) where
  -- The user is real, and the plan that the record names is the current one of the Revision, which
  -- is the Application's.
  abbrev pub IsApprovedBy : UserInfo → Application → Option String → Annotations → Type 0
  IsApprovedBy user obj requested m =
      (authenticated user ≡ true)
      × (lookup approved_by m ≡ some user.username)
      × (lookup approved_at m ≡ some (time.format now))
      × ((revision : Revision) × (reader obj.namespace (given approved_revision m) ≡ some revision)
          × (revision.application ≡ obj.name)
          × (revision.status.plan_digest ≢ "")
          × (lookup approved_digest m ≡ some revision.status.plan_digest)
          × (is_none requested ≡ false → or_empty requested ≡ revision.status.plan_digest))

  -- The three records that an admitted object can have.
  abbrev pub IsAdmitted :
      UserInfo → Application → Annotations → Option String → Annotations → Type 0
  IsAdmitted user obj old requested m =
      (lookup approve_digest m ≡ none)
      × (((requested ≡ none)
            × (given approved_revision m ≡ given approved_revision old)
            × IsKept approval_record old m)
          ⊎ ((requested ≡ none) × (given approved_revision m ≡ "") × IsCleared approval_record m)
          ⊎ IsApprovedBy user obj requested m)

  abbrev approval_of : UserInfo → Revision → Annotations → Annotations
  approval_of user revision m =
      insert approved_digest revision.status.plan_digest
        (insert approved_at (time.format now) (insert approved_by user.username m))

  check_plan-passed :
      (user : UserInfo) (obj : Application) (requested : Option String) (m n : Annotations)
      (revision : Revision)
      → check_plan reader sum time now user obj requested m (some revision) ≡ Outcome.admitted n
      → (revision.application ≡ obj.name)
        × (revision.status.plan_digest ≢ "")
        × (is_none requested ≡ false → or_empty requested ≡ revision.status.plan_digest)
        × (approval_of user revision m ≡ n)
  unfolding check_plan
  check_plan-passed user obj requested m n revision h =
      let current = revision.status.plan_digest in
      let (owned, h₁) =
        passed (not (revision.application == obj.name) || current == "") Rejection.no_plan _ n h in
      let (agrees, h₂) =
        passed (not (is_none requested) && not (or_empty requested == current))
          Rejection.plan_changed _ n h₁ in
      (
        ground (arith, owned, eq_iff revision.application obj.name),
        λ e. ground (arith, owned, e, eq_iff current ""),
        λ e. ground (arith, agrees, e, eq_iff (or_empty requested) current),
        admitted-inj _ n h₂,
      )

  check_plan-IsApprovedBy :
      (user : UserInfo) (obj : Application) (requested : Option String) (m n : Annotations)
      (found : Option Revision)
      → authenticated user ≡ true
      → reader obj.namespace (given approved_revision m) ≡ found
      → check_plan reader sum time now user obj requested m found ≡ Outcome.admitted n
      → IsApprovedBy user obj requested n × IsElsewhere approval_record m n
  unfolding check_plan
  check_plan-IsApprovedBy user obj requested m n none a f h = cc
  check_plan-IsApprovedBy user obj requested m n (some revision) a f h =
      let (owned, planned, agrees, set) = check_plan-passed user obj requested m n revision h in
      let stamped = λ (j : String).
        ap (lookup j) (sym set)
        ∙ lookup-insert3 approved_digest approved_at approved_by revision.status.plan_digest
            (time.format now) user.username m j in
      (
        (
          a,
          stamped approved_by,
          stamped approved_at,
          (
            revision,
            ap (λ o. reader obj.namespace (or_empty o)) (stamped approved_revision) ∙ f,
            owned,
            planned,
            stamped approved_digest,
            agrees,
          ),
        ),
        λ j e.
            stamped j
            ∙ missed (approved_digest == j) (approved_at == j) (approved_by == j) _ _ _ _ e,
      )

  restored :
      (keep : Bool) (old m n : Annotations)
      → Outcome.admitted (restore approval_record keep old m) ≡ Outcome.admitted n
      → (j : String)
      → lookup j n ≡ (
          if any (λ k. k == j) approval_record
          then (if keep then lookup j old else none)
          else lookup j m)
  restored keep old m n h j =
      ap (lookup j) (sym (admitted-inj _ n h)) ∙ lookup-restore approval_record keep old m j

  module _ (user : UserInfo) (obj : Application) (old : Annotations) (requested : Option String)
      (m n : Annotations) (z : lookup approve_digest m ≡ none) where
    kept-IsAdmitted :
        is_none requested && given approved_revision m == given approved_revision old ≡ true
        → Outcome.admitted (restore approval_record true old m) ≡ Outcome.admitted n
        → IsAdmitted user obj old requested n × IsElsewhere approval_record m n
    kept-IsAdmitted e h =
        let at = restored true old m n h in
        let same = (eq_iff (given approved_revision m) (given approved_revision old)).0 in
        (
          (
            at approve_digest ∙ z,
            inl (
              no_request requested (ground (arith, e)),
              ap or_empty (at approved_revision) ∙ same (ground (arith, e)),
              (at approved_by, (at approved_at, (at approved_digest, tt))),
            ),
          ),
          λ j f. at j ∙ rw f refl,
        )

    cleared-IsAdmitted :
        given approved_revision m == "" ≡ true
        → (if is_none requested
            then Outcome.admitted (restore approval_record false old m)
            else Outcome.rejected Rejection.digest_requires_revision)
          ≡ Outcome.admitted n
        → IsAdmitted user obj old requested n × IsElsewhere approval_record m n
    cleared-IsAdmitted b h =
        let (r, h₁) = passed_else (is_none requested) Rejection.digest_requires_revision _ n h in
        let at = restored false old m n h₁ in
        (
          (
            at approve_digest ∙ z,
            inr (
                inl (
                  no_request requested r,
                  ap or_empty (at approved_revision) ∙ (eq_iff (given approved_revision m) "").0 b,
                  (at approved_by, (at approved_at, (at approved_digest, tt))),
                )),
          ),
          λ j f. at j ∙ rw f refl,
        )

    approved-IsAdmitted :
        (if not (authenticated user)
            then Outcome.rejected Rejection.not_authenticated
            else check_plan reader sum time now user obj requested
                (restore approval_record false old m)
                (reader obj.namespace (given approved_revision m)))
          ≡ Outcome.admitted n
        → IsAdmitted user obj old requested n × IsElsewhere approval_record m n
    approved-IsAdmitted h =
        let (a, h₁) = passed (not (authenticated user)) Rejection.not_authenticated _ n h in
        let at = lookup-restore approval_record false old m in
        let (by, others) =
          check_plan-IsApprovedBy user obj requested (restore approval_record false old m) n _
            (ground (arith, a)) (ap (λ o. reader obj.namespace (or_empty o)) (at approved_revision))
            h₁ in
        (
          (others approve_digest refl ∙ at approve_digest ∙ z, inr (inr by)),
          λ j f. others j f ∙ at j ∙ rw f refl,
        )

    pub stamp_approval-IsAdmitted :
        stamp_approval reader sum time now user obj old requested m ≡ Outcome.admitted n
        → IsAdmitted user obj old requested n × IsElsewhere approval_record m n
    unfolding stamp_approval
    stamp_approval-IsAdmitted h =
        elim (Bool-cases
          (is_none requested && given approved_revision m == given approved_revision old)) [
            | inl e ↦ kept-IsAdmitted e (rw e at h)
            | inr e ↦ elim (Bool-cases (given approved_revision m == "")) [
              | inl b ↦ cleared-IsAdmitted b (rw (e, b) at h)
              | inr b ↦ approved-IsAdmitted (rw (e, b) at h)
            ]
          ]
