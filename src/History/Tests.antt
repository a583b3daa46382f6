-- ===== src/History/Tests.antt =====
-- internal/history/history.go and internal/rollback/rollback.go on concrete Revisions.
use kuvryn_sync.Prelude.{
  ◌≡◌, refl, false, none, some, List, [], ◌∷◌, ◌++◌, Perm, length, All, sort_by, pos,
}
use kuvryn_sync.Api.{Phase, Revision}
use kuvryn_sync.Samples.{planned}
use kuvryn_sync.History.{newer, apply_retention, target}
use kuvryn_sync.History.Newest.{kept, NoneNewer, apply_retention-splits}
use kuvryn_sync.History.Target.{IsEarlier, target-newest, target_none}

abbrev old : Revision
old = planned Phase.healthy "old" "aaa" 1

abbrev good : Revision
good = planned Phase.healthy "good" "bbb" 2

abbrev broken : Revision
broken = planned Phase.failed "broken" "ccc" 3

abbrev current : Revision
current = planned Phase.failed "current" "ddd" 4

abbrev past : List Revision
past = old ∷ current ∷ broken ∷ good ∷ []

good_is_target : target current past ≡ some good
unfolding target sort_by kuvryn_sync.History.is_candidate newer
good_is_target = refl

old_has_no_target : target old past ≡ none
unfolding target sort_by kuvryn_sync.History.is_candidate
old_has_no_target = refl

target-newest_example :
    IsEarlier current good × All (λ c. IsEarlier current c → newer c good ≡ false) past
target-newest_example = target-newest current past good_is_target

target_none_example : All (λ c. ¬ IsEarlier old c) past
target_none_example = target_none old past old_has_no_target

apply_retention-splits_example :
    let r = apply_retention past (pos 2) in
    Perm (r.keep ++ r.delete) past × NoneNewer r × (length r.keep ≡ kept (pos 2) (length past))
apply_retention-splits_example = apply_retention-splits past (pos 2)
