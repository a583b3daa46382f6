-- ===== src/Webhook.antt =====
-- internal/webhook/v1alpha1/application_webhook.go: the admission webhook that records who approved
-- a plan and who requested a rollback.
pub mod Record
pub mod Approval
pub mod Rollback
pub mod Stored
pub mod Tests
use kuvryn_sync.Prelude.{
  ℕ, zero, suc, ◌+◌, ◌-◌, ◌*◌, ◌^◌, ◌≤◌, ◌<◌, min, String, str_append, ◌≡◌, refl, sym, ap, ◌∙◌, ◌≢◌,
  ◌↔◌, ◌⊎◌, inl, inr, Bool, true, false, not, ◌&&◌, ◌||◌, Option, none, some, List, [], ◌∷◌, ◌++◌,
  map, Perm, arith, ◌==◌, eq_iff, eq_refl, ltb, leb, eqb, if◌then◌else◌, is_none, ltb→lt, lt→ltb,
  leb→le, eqb→eq, tests, Bool-cases, Option-cases, length, take, drop, select, any, all,
  length-append, take-append-drop, length-take, length-drop, All, Any, Each, text_lt, text_lt-asym,
  text_lt_trans, text_lt-antisym, IsOrder, sort_by, IsSorted, sort_by-perm, All-sort_by,
  sort_by-IsSorted, or_empty, lookup, insert, delete, lookup-insert, lookup-delete, ℤ, pos, negsuc,
  pos_part, neg_part, ◌<ℤ◌, ltb_ℤ, eqb_ℤ, eqb_ℤ→eq, ltb_ℤ-antisym, atoi, codes, codes_eq,
  trim_space, trim, to_lower, split, gather, All-select, All-of_select, All-of_sort_by, All-left,
  All-right, All-reverse, Each-reverse, gather-append, All-append, All-map_of, All-and,
  All-of_forall, Each-append, Each-and, gather-sort_by-perm, Each-sort_by,
}
use kuvryn_sync.Api.{RevisionStatus, Revision, Application}
use kuvryn_sync.Annotations.{
  Annotations, given, approved_revision, approve_digest, approved_by, approved_at, approved_digest,
  rollback_revision, rollback_kind_key, rollback_target_revision, rollback_requested_by,
  rollback_requested_at, rollback_target_hash, manual, Rfc3339, Sum, rollback_binding,
}

pub record UserInfo : Type 0 where
  pub username : String
  pub groups : List String

unfoldable pub authenticated : UserInfo → Bool
authenticated user =
    not (user.username == "")
    && not (user.username == "system:anonymous")
    && not (any (λ g. g == "system:unauthenticated") user.groups)

-- The errors, without their texts.
pub data Rejection : Type 0 where
  target_required revision_missing other_application other_source : Rejection
  digest_requires_revision not_authenticated no_plan plan_changed : Rejection

pub data Outcome {ℓ} (A : Type ℓ) : Type ℓ where
  rejected : Rejection → Outcome A
  admitted : A → Outcome A

abbrev pub rollback_record : List String
rollback_record = rollback_requested_by ∷ rollback_requested_at ∷ rollback_target_hash ∷ []

abbrev pub approval_record : List String
approval_record = approved_by ∷ approved_at ∷ approved_digest ∷ []

-- One turn of the loop over a record's keys: the old value is set where it is kept and there is one,
-- and else the key is removed.
restore_one : String → Bool → Option String → Annotations → Annotations
restore_one key keep none m = delete key m
restore_one key keep (some value) m = if keep then insert key value m else delete key m

unfoldable pub restore : List String → Bool → Annotations → Annotations → Annotations
unfolding restore_one
restore [] keep old m = m
restore (key ∷ keys) keep old m = restore keys keep old (restore_one key keep (lookup key old) m)

unfoldable pub rollback_kind : Annotations → String
rollback_kind m = if given rollback_kind_key m == "" then manual else given rollback_kind_key m

-- Whether the request differs from the one of the old object.
unfoldable pub rollback_changed : Annotations → Annotations → Bool
unfolding rollback_kind
rollback_changed old m =
    not (trim (given rollback_revision m) == trim (given rollback_revision old))
    || not (trim (given rollback_target_revision m) == trim (given rollback_target_revision old))
    || not (rollback_kind m == rollback_kind old)

-- `reader namespace name` is the Revision in the cluster, `none` where the read fails.
module _ (reader : String → String → Option Revision) (sum : Sum) (time : Rfc3339) (now : ℕ) where
  check_chosen : Application → String → Option Revision → Outcome String
  check_chosen obj target none = Outcome.rejected Rejection.revision_missing
  check_chosen obj target (some revision) =
      if not (revision.application == obj.name)
      then Outcome.rejected Rejection.other_application
      else if not (revision.source_revision == target)
      then Outcome.rejected Rejection.other_source
      else Outcome.admitted (rollback_binding sum revision obj)

  -- The hash that the request binds, empty where no Revision is chosen.
  chosen_hash : Application → String → String → Outcome String
  unfolding check_chosen
  chosen_hash obj target chosen =
      if chosen == ""
      then Outcome.admitted ""
      else if target == ""
      then Outcome.rejected Rejection.target_required
      else check_chosen obj target (reader obj.namespace chosen)

  stamp_rollback : UserInfo → String → Annotations → Outcome String → Outcome Annotations
  stamp_rollback user target m (Outcome.rejected why) = Outcome.rejected why
  stamp_rollback user target m (Outcome.admitted hash) =
      let stamped =
        insert rollback_requested_at (time.format now)
          (insert rollback_requested_by user.username m) in
      if target == "" || not (authenticated user)
      then Outcome.admitted m
      else if hash == ""
      then Outcome.admitted stamped
      else Outcome.admitted (insert rollback_target_hash hash stamped)

  unfoldable pub record_rollback_requester :
      UserInfo → Application → Annotations → Annotations → Outcome Annotations
  unfolding chosen_hash stamp_rollback
  record_rollback_requester user obj old m =
      let target = trim (given rollback_revision m) in
      let chosen = trim (given rollback_target_revision m) in
      let kept = restore rollback_record (not (rollback_changed old m)) old m in
      if rollback_changed old m
      then stamp_rollback user target kept (chosen_hash obj target chosen)
      else Outcome.admitted kept

  -- `requested` is the digest that the request names.
  unfoldable pub check_plan :
      UserInfo → Application → Option String → Annotations → Option Revision → Outcome Annotations
  check_plan user obj requested m none = Outcome.rejected Rejection.revision_missing
  check_plan user obj requested m (some revision) =
      let current = revision.status.plan_digest in
      if not (revision.application == obj.name) || current == ""
      then Outcome.rejected Rejection.no_plan
      else if not (is_none requested) && not (or_empty requested == current)
      then Outcome.rejected Rejection.plan_changed
      else Outcome.admitted (
          insert approved_digest current
            (insert approved_at (time.format now) (insert approved_by user.username m)))

  -- The approval's part of `Default`; `requested` and `m` are what the request asked for and what
  -- is left of the annotations.
  unfoldable pub stamp_approval :
      UserInfo → Application → Annotations → Option String → Annotations → Outcome Annotations
  unfolding check_plan
  stamp_approval user obj old requested m =
      let approved = given approved_revision m in
      let cleared = restore approval_record false old m in
      if is_none requested && approved == given approved_revision old
      then Outcome.admitted (restore approval_record true old m)
      else if approved == ""
      then (if is_none requested
          then Outcome.admitted cleared
          else Outcome.rejected Rejection.digest_requires_revision)
      else if not (authenticated user)
      then Outcome.rejected Rejection.not_authenticated
      else check_plan user obj requested cleared (reader obj.namespace approved)

  default_approval :
      UserInfo → Application → Annotations → Outcome Annotations → Outcome Annotations
  unfolding stamp_approval
  default_approval user obj old (Outcome.rejected why) = Outcome.rejected why
  default_approval user obj old (Outcome.admitted m) =
      stamp_approval user obj old (lookup approve_digest m) (delete approve_digest m)

  -- `Default`, with the annotations of the old object, none for a new one: the annotations that the
  -- stored object has.
  unfoldable pub default : UserInfo → Application → Annotations → Outcome Annotations
  unfolding default_approval
  default user obj old =
      default_approval user obj old (record_rollback_requester user obj old obj.annotations)
