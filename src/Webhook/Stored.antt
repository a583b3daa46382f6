-- ===== src/Webhook/Stored.antt =====
-- internal/webhook/v1alpha1/application_webhook.go: what `Default` stores.
use kuvryn_sync.Prelude.{
  ℕ, String, ◌≡◌, refl, sym, ap, ◌∙◌, ◌≢◌, inl, inr, Bool, true, false, ◌||◌, Option, none, some,
  List, [], ◌∷◌, ◌++◌, arith, ◌==◌, eq_iff, eq_refl, if◌then◌else◌, any, or_empty, lookup, insert,
  delete, lookup-delete,
}
use kuvryn_sync.Api.{Revision, Application}
use kuvryn_sync.Annotations.{
  given, Annotations, given, approve_digest, approved_revision, approved_by, approved_at,
  approved_digest, rollback_requested_by, rollback_requested_at, rollback_target_hash, Rfc3339, Sum,
}
use kuvryn_sync.Webhook.{
  UserInfo, authenticated, Outcome, approval_record, rollback_record, restore, check_plan,
  rollback_changed, stamp_approval, default_approval, default, record_rollback_requester,
}
use kuvryn_sync.Webhook.Record.{IsElsewhere, lookup-restore}
use kuvryn_sync.Webhook.Approval.{IsAdmitted, IsApprovedBy, stamp_approval-IsAdmitted}
use kuvryn_sync.Webhook.Rollback.{IsRequestRecorded, record_rollback_requester-IsRequestRecorded}

abbrev pub webhook_keys : List String
webhook_keys = approve_digest ∷ approval_record ++ rollback_record

among :
    (xs ys : List String) (j : String)
    → any (λ k. k == j) (xs ++ ys) ≡ any (λ k. k == j) xs || any (λ k. k == j) ys
among [] ys j = refl
among (x ∷ xs) ys j = ground (arith, among xs ys j)

among_right :
    (xs ys : List String) (j : String)
    → any (λ k. k == j) (xs ++ ys) ≡ false
    → any (λ k. k == j) xs ≡ false
among_right xs ys j h = ground (arith, h, among xs ys j)

among_left :
    (xs ys : List String) (j : String)
    → any (λ k. k == j) (xs ++ ys) ≡ false
    → any (λ k. k == j) ys ≡ false
among_left xs ys j h = ground (arith, h, among xs ys j)

not_here : (b : Bool) (o : Option String) → b ≡ false → (if b then none else o) ≡ o
not_here true o h = cc
not_here false o h = refl

module _ (reader : String → String → Option Revision) (sum : Sum) (time : Rfc3339) (now : ℕ) where
  default_approval-records :
      (user : UserInfo) (obj : Application) (old m n : Annotations) (first : Outcome Annotations)
      → ((k : Annotations)
          → first ≡ Outcome.admitted k
          → IsRequestRecorded reader sum time now user obj old m k
            × IsElsewhere rollback_record m k)
      → default_approval reader sum time now user obj old first ≡ Outcome.admitted n
      → IsAdmitted reader sum time now user obj old (lookup approve_digest m) n
        × IsRequestRecorded reader sum time now user obj old m n
        × IsElsewhere webhook_keys m n
  unfolding default_approval
  default_approval-records user obj old m n (Outcome.rejected why) r h = cc
  default_approval-records user obj old m n (Outcome.admitted k) r h =
      let (request, others) = r k refl in
      let (approval, same) =
        stamp_approval-IsAdmitted reader sum time now user obj old (lookup approve_digest k)
          (delete approve_digest k) n (lookup-delete approve_digest approve_digest k) h in
      (
        rw (sym (others approve_digest refl)) approval,
        rw
            (
              same rollback_requested_by refl
                  ∙ lookup-delete approve_digest rollback_requested_by k,
              same rollback_requested_at refl
                  ∙ lookup-delete approve_digest rollback_requested_at k,
              same rollback_target_hash refl ∙ lookup-delete approve_digest rollback_target_hash k,
            )
            request,
        λ j f.
            same j (among_right approval_record rollback_record j (ground (arith, f)))
            ∙ lookup-delete approve_digest j k
            ∙ not_here (approve_digest == j) (lookup j k) (ground (arith, f))
            ∙ others j (among_left approval_record rollback_record j (ground (arith, f))),
      )

  -- What an object holds that the webhook admits. Of its approval: the request to approve a digest
  -- is never stored; and either nothing was requested, the approved Revision is the old one's and so
  -- is the record, or none is approved and there is no record, or the record names the
  -- authenticated user, the time and the current plan of a Revision of the Application, which is the
  -- plan that the request asked for if it asked for one. Of its rollback request: where target,
  -- chosen Revision and kind are the old one's, so is the record; and else there is no record, or
  -- it names the authenticated user, the time and, for a chosen Revision, which is the
  -- Application's and of the target, the binding of its deployed state. Every other annotation is stored as it was sent.
  pub default-records :
      (user : UserInfo) (obj : Application) (old n : Annotations)
      → default reader sum time now user obj old ≡ Outcome.admitted n
      → IsAdmitted reader sum time now user obj old (lookup approve_digest obj.annotations) n
        × IsRequestRecorded reader sum time now user obj old obj.annotations n
        × IsElsewhere webhook_keys obj.annotations n
  unfolding default
  default-records user obj old n h =
      default_approval-records user obj old obj.annotations n
        (record_rollback_requester reader sum time now user obj old obj.annotations)
        (record_rollback_requester-IsRequestRecorded reader sum time now user obj old
          obj.annotations)
        h

  request-admits :
      (user : UserInfo) (obj : Application) (old m : Annotations)
      → rollback_changed old m ≡ false
      → record_rollback_requester reader sum time now user obj old m
        ≡ Outcome.admitted (restore rollback_record true old m)
  unfolding record_rollback_requester
  request-admits user obj old m c = rw c refl

  approved_only :
      (user : UserInfo) (obj : Application) (old n : Annotations) (digest : String)
      → IsAdmitted reader sum time now user obj old (some digest) n
      → IsApprovedBy reader sum time now user obj (some digest) n
  approved_only user obj old n digest (z, inl (r, s, e)) = cc
  approved_only user obj old n digest (z, inr (inl (r, s, e))) = cc
  approved_only user obj old n digest (z, inr (inr by)) = by

  stamp_approval-admits :
      (user : UserInfo) (obj : Application) (old m : Annotations) (revision : Revision)
      → authenticated user ≡ true
      → given approved_revision m ≢ ""
      → reader obj.namespace (given approved_revision m) ≡ some revision
      → revision.application ≡ obj.name
      → revision.status.plan_digest ≢ ""
      → (n : Annotations) × (stamp_approval reader sum time now user obj old
            (some revision.status.plan_digest)
            m
          ≡ Outcome.admitted n)
  unfolding stamp_approval check_plan
  stamp_approval-admits user obj old m revision a named found owned planned =
      let digest = revision.status.plan_digest in
      let is_named : given approved_revision m == "" ≡ false =
        ground (arith, named, eq_iff (given approved_revision m) "") in
      let is_owned : revision.application == obj.name ≡ true =
        (eq_iff revision.application obj.name).1 owned in
      let is_planned : digest == "" ≡ false = ground (arith, planned, eq_iff digest "") in
      (
        insert approved_digest digest (
            insert approved_at (time.format now)
              (insert approved_by user.username (restore approval_record false old m))),
        rw (is_named, a, found, is_owned, is_planned, eq_refl digest) refl,
      )

  -- A user who is authenticated, and leaves the rollback request as it is, can approve the current
  -- plan of a Revision of the Application by naming its digest: the webhook admits it.
  pub default-admits :
      (user : UserInfo) (obj : Application) (old : Annotations) (revision : Revision)
      → rollback_changed old obj.annotations ≡ false
      → authenticated user ≡ true
      → given approved_revision obj.annotations ≢ ""
      → reader obj.namespace (given approved_revision obj.annotations) ≡ some revision
      → revision.application ≡ obj.name
      → revision.status.plan_digest ≢ ""
      → lookup approve_digest obj.annotations ≡ some revision.status.plan_digest
      → (n : Annotations) × (default reader sum time now user obj old ≡ Outcome.admitted n)
        × IsApprovedBy reader sum time now user obj (some revision.status.plan_digest) n
        × (given approved_revision n ≡ given approved_revision obj.annotations)
  unfolding default default_approval
  default-admits user obj old revision c a named found owned planned asked =
      let k = restore rollback_record true old obj.annotations in
      let at = lookup-restore rollback_record true old obj.annotations in
      let approved : lookup approved_revision (delete approve_digest k)
          ≡ lookup approved_revision obj.annotations =
        lookup-delete approve_digest approved_revision k ∙ at approved_revision in
      let (n, stamped) =
        stamp_approval-admits user obj old (delete approve_digest k) revision a (rw approved named)
          (rw approved found) owned planned in
      let h : default reader sum time now user obj old ≡ Outcome.admitted n =
        ap (default_approval reader sum time now user obj old)
          (request-admits user obj old obj.annotations c)
        ∙ ap (λ r. stamp_approval reader sum time now user obj old r (delete approve_digest k))
            (at approve_digest ∙ asked)
        ∙ stamped in
      (
        n,
        h,
        approved_only user obj old n revision.status.plan_digest
            (rw asked at (default-records user obj old n h).0),
        ap or_empty ((default-records user obj old n h).2 approved_revision refl),
      )
