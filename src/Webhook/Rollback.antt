-- ===== src/Webhook/Rollback.antt =====
-- internal/webhook/v1alpha1/application_webhook.go: the rollback request that an admitted object
-- records.
use kuvryn_sync.Prelude.{
  ℕ, String, ◌≡◌, refl, sym, ap, ◌∙◌, ◌≢◌, ◌⊎◌, inl, inr, true, false, not, ◌||◌, Option, none,
  some, arith, ◌==◌, eq_iff, if◌then◌else◌, Bool-cases, lookup, trim,
}
use kuvryn_sync.Api.{Revision, Application}
use kuvryn_sync.Annotations.{
  Annotations, given, rollback_revision, rollback_target_revision, rollback_requested_by,
  rollback_requested_at, rollback_target_hash, Rfc3339, Sum, rollback_binding,
}
use kuvryn_sync.Webhook.{
  UserInfo, authenticated, Rejection, Outcome, rollback_record, restore, rollback_changed,
  check_chosen, chosen_hash, stamp_rollback, record_rollback_requester,
}
use kuvryn_sync.Webhook.Record.{
  IsKept, IsCleared, IsElsewhere, lookup-restore, lookup-insert2, lookup-insert3, missed, missed2,
  passed, admitted-inj,
}

module _ (reader : String → String → Option Revision) (sum : Sum) (time : Rfc3339) (now : ℕ) where
  -- Nothing is bound without a chosen Revision, which is the Application's and of the target.
  abbrev pub IsBound : Application → String → String → String → Type 0
  IsBound obj target chosen hash =
      ((chosen ≡ "") × (hash ≡ ""))
      ⊎ ((chosen ≢ "")
          × ((revision : Revision) × (reader obj.namespace chosen ≡ some revision)
              × (revision.application ≡ obj.name)
              × (revision.source_revision ≡ target)
              × (hash ≡ rollback_binding sum revision obj)))

  check_chosen-IsBound :
      (obj : Application) (target hash : String) (found : Option Revision)
      → check_chosen reader sum time now obj target found ≡ Outcome.admitted hash
      → ((revision : Revision) × (found ≡ some revision)
          × (revision.application ≡ obj.name)
          × (revision.source_revision ≡ target)
          × (hash ≡ rollback_binding sum revision obj))
  unfolding check_chosen
  check_chosen-IsBound obj target hash none h = cc
  check_chosen-IsBound obj target hash (some revision) h =
      let (owned, h₁) =
        passed (not (revision.application == obj.name)) Rejection.other_application _ hash h in
      let (source, h₂) =
        passed (not (revision.source_revision == target)) Rejection.other_source _ hash h₁ in
      (
        revision,
        refl,
        ground (arith, owned, eq_iff revision.application obj.name),
        ground (arith, source, eq_iff revision.source_revision target),
        sym (admitted-inj _ hash h₂),
      )

  chosen_hash-IsBound :
      (obj : Application) (target chosen hash : String)
      → chosen_hash reader sum time now obj target chosen ≡ Outcome.admitted hash
      → IsBound obj target chosen hash
  unfolding chosen_hash
  chosen_hash-IsBound obj target chosen hash h = elim (Bool-cases (chosen == "")) [
    | inl e ↦ inl ((eq_iff chosen "").0 e, sym (admitted-inj "" hash (rw e at h)))
    | inr e ↦
        let (t, k) = passed (target == "") Rejection.target_required _ hash (rw e at h) in
        inr (λ c. ground (arith, e, c, eq_iff chosen ""), check_chosen-IsBound obj target hash _ k)
  ]

  -- The requester is real, and the hash is recorded where there is one.
  abbrev pub IsRequestedBy : UserInfo → String → String → Annotations → Type 0
  IsRequestedBy user target hash n =
      (authenticated user ≡ true)
      × (target ≢ "")
      × (lookup rollback_requested_by n ≡ some user.username)
      × (lookup rollback_requested_at n ≡ some (time.format now))
      × (lookup rollback_target_hash n ≡ (if hash == "" then none else some hash))

  stamp_rollback-IsRequestedBy :
      (user : UserInfo) (target hash : String) (m n : Annotations)
      → IsCleared rollback_record m
      → stamp_rollback reader sum time now user target m (Outcome.admitted hash)
        ≡ Outcome.admitted n
      → (IsCleared rollback_record n ⊎ IsRequestedBy user target hash n)
        × IsElsewhere rollback_record m n
  unfolding stamp_rollback
  stamp_rollback-IsRequestedBy user target hash m n c h =
      elim (Bool-cases (target == "" || not (authenticated user))) [
        | inl e ↦
            let same = admitted-inj m n (rw e at h) in
            (inl (rw (sym same) c), λ j f. ap (lookup j) (sym same))
        | inr e ↦
            let real : authenticated user ≡ true = ground (arith, e) in
            let named : target ≢ "" = λ t. ground (arith, e, t, eq_iff target "") in
            elim (Bool-cases (hash == "")) [
              | inl b ↦
                  let at = λ (j : String).
                    ap (lookup j) (sym (admitted-inj _ n (rw (e, b) at h)))
                    ∙ lookup-insert2 rollback_requested_at rollback_requested_by (time.format now)
                        user.username m j in
                  (
                    inr (
                      real,
                      named,
                      at rollback_requested_by,
                      at rollback_requested_at,
                      at rollback_target_hash ∙ c.1.1.0 ∙ rw b refl,
                    ),
                    λ j f.
                        at j
                        ∙ missed2 (rollback_requested_at == j) (rollback_requested_by == j)
                            (rollback_target_hash == j) _ _ _ f,
                  )
              | inr b ↦
                  let at = λ (j : String).
                    ap (lookup j) (sym (admitted-inj _ n (rw (e, b) at h)))
                    ∙ lookup-insert3 rollback_target_hash rollback_requested_at
                        rollback_requested_by hash (time.format now) user.username m j in
                  (
                    inr (
                      real,
                      named,
                      at rollback_requested_by,
                      at rollback_requested_at,
                      at rollback_target_hash ∙ rw b refl,
                    ),
                    λ j f.
                        at j
                        ∙ missed (rollback_target_hash == j) (rollback_requested_at == j)
                            (rollback_requested_by == j) _ _ _ _ f,
                  )
            ]
      ]

  -- The record of an admitted object, by what the request asks for and what the old object did.
  abbrev pub IsRequestRecorded :
      UserInfo → Application → Annotations → Annotations → Annotations → Type 0
  IsRequestRecorded user obj old m n =
      let target = trim (given rollback_revision m) in
      ((rollback_changed old m ≡ false) × IsKept rollback_record old n)
      ⊎ ((rollback_changed old m ≡ true)
          × ((hash : String) × IsBound obj target (trim (given rollback_target_revision m)) hash
              × (IsCleared rollback_record n ⊎ IsRequestedBy user target hash n)))

  outcome-IsRequestRecorded :
      (user : UserInfo) (obj : Application) (target chosen : String) (m n : Annotations)
      (bound : Outcome String)
      → IsCleared rollback_record m
      → ((hash : String) → bound ≡ Outcome.admitted hash → IsBound obj target chosen hash)
      → stamp_rollback reader sum time now user target m bound ≡ Outcome.admitted n
      → ((hash : String) × IsBound obj target chosen hash
          × (IsCleared rollback_record n ⊎ IsRequestedBy user target hash n))
        × IsElsewhere rollback_record m n
  unfolding stamp_rollback
  outcome-IsRequestRecorded user obj target chosen m n (Outcome.rejected why) c b h = cc
  outcome-IsRequestRecorded user obj target chosen m n (Outcome.admitted hash) c b h =
      let (r, others) = stamp_rollback-IsRequestedBy user target hash m n c h in
      ((hash, b hash refl, r), others)

  pub record_rollback_requester-IsRequestRecorded :
      (user : UserInfo) (obj : Application) (old m n : Annotations)
      → record_rollback_requester reader sum time now user obj old m ≡ Outcome.admitted n
      → IsRequestRecorded user obj old m n × IsElsewhere rollback_record m n
  unfolding record_rollback_requester
  record_rollback_requester-IsRequestRecorded user obj old m n h =
      elim (Bool-cases (rollback_changed old m)) [
        | inl e ↦
            let at = lookup-restore rollback_record false old m in
            let (r, others) =
              outcome-IsRequestRecorded user obj (trim (given rollback_revision m))
                (trim (given rollback_target_revision m)) (restore rollback_record false old m) n _
                (
                  at rollback_requested_by,
                  (at rollback_requested_at, (at rollback_target_hash, tt)),
                )
                (chosen_hash-IsBound obj _ _) (rw e at h) in
            (inr (e, r), λ j f. others j f ∙ at j ∙ rw f refl)
        | inr e ↦
            let at = λ (j : String).
              ap (lookup j) (sym (admitted-inj _ n (rw e at h)))
              ∙ lookup-restore rollback_record true old m j in
            (
              inl (
                e,
                (
                  at rollback_requested_by,
                  (at rollback_requested_at, (at rollback_target_hash, tt)),
                ),
              ),
              λ j f. at j ∙ rw f refl,
            )
      ]
