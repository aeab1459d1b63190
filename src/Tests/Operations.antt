-- ===== src/Tests/Operations.antt =====
-- The life of a queue of mutations.
use obsidian_yandex_disk_syn.Common.{
  ℕ, ◌-◌, ◌≡◌, refl, none, some, [], ◌∷◌, arith, if◌then◌else◌, get_or, ◌==◌, nat_eq, bool_eq,
  option_eq, list_eq,
}
use obsidian_yandex_disk_syn.Common.Text.{Text, codes}
use obsidian_yandex_disk_syn.Common.Dict.{Dict, lookup}
use obsidian_yandex_disk_syn.Types.{put, delete_local, physical_action_type_eq}
use obsidian_yandex_disk_syn.Local.Operations.{
  LocalOperationStore, MutationOptions, PhysicalActionOptions, new_store, own_mutation_id,
  enqueue_mutation, floored, ensure_sequence_floor,
}
use obsidian_yandex_disk_syn.Local.Operations.Puts.{replace_put_with_delete}
use obsidian_yandex_disk_syn.Local.Operations.Confirm.{
  stage_pending_mutations, confirm_applied_mutations,
}
use obsidian_yandex_disk_syn.Local.Operations.Allocation.{
  StoreReach, enqueued, deleted, accepted, created, then_step, ensure_sequence_floor-StoreReach,
}
use obsidian_yandex_disk_syn.Local.Operations.Staging.{stage_pending_mutations_lem}
use obsidian_yandex_disk_syn.Local.Actions.{enqueue_physical_action}
use obsidian_yandex_disk_syn.Local.Actions.Refresh.{enqueue_physical_action_twice}
use obsidian_yandex_disk_syn.Tests.Samples.{phone, laptop, note}

abbrev no_options : MutationOptions
no_options = record {
  target_path = none;
  resource_kind = none;
  sha256 = some (codes "1");
  baseline_sha256 = none;
}

-- Two puts are enqueued, the canonical state accepts the first, and the second becomes a deletion.
abbrev one : LocalOperationStore
one = (enqueue_mutation put note none (some 0) no_options 5 (new_store phone)).0

abbrev two : LocalOperationStore
two = (enqueue_mutation put (codes "b") none (some 0) no_options 6 one).0

abbrev three : LocalOperationStore
three = (replace_put_with_delete (own_mutation_id phone 2) two).0

three-StoreReach : StoreReach phone 1 three
unfolding enqueue_mutation new_store replace_put_with_delete
three-StoreReach =
    then_step
      (then_step
        (then_step (then_step created (enqueued put note none (some 0) no_options 5 refl refl))
          (enqueued put (codes "b") none (some 0) no_options 6 refl refl))
        (accepted (omega arith) (omega arith) refl))
      (deleted (own_mutation_id phone 2) refl refl)

ensure_sequence_floor-StoreReach_example : ensure_sequence_floor 1 three ≡ floored three
ensure_sequence_floor-StoreReach_example =
    ensure_sequence_floor-StoreReach phone 1 three three-StoreReach

abbrev watermarks : Dict Text ℕ
watermarks = (laptop, 4) ∷ (phone, 1) ∷ []

phone_watermark : get_or (lookup phone watermarks) 0 ≡ 1
unfolding lookup nat_eq list_eq
phone_watermark = refl

stage_pending_mutations_lem_example :
    (get_or (lookup phone (stage_pending_mutations three watermarks)) 0 ≡ (
      if phone == phone then three.next_mutation_seq - 1 else get_or (lookup phone watermarks) 0))
    × ((confirm_applied_mutations
          (stage_pending_mutations three watermarks)
          three).pending_mutations
        ≡ [])
stage_pending_mutations_lem_example =
    stage_pending_mutations_lem phone 1 three watermarks phone three-StoreReach phone_watermark

abbrev action_options : PhysicalActionOptions
action_options = record {
  target_path = none;
  parent_mutation_id = none;
  canonical_revision = some 4;
  expected_fingerprint = some (codes "f");
  expected_changed_revision = none;
  expected_target_fingerprint = none;
  baseline_sha256 = none;
  epoch = none;
  origin = none;
}

enqueue_physical_action_twice_example :
    enqueue_physical_action delete_local note 7 action_options
      (codes "y")
      9
      (enqueue_physical_action delete_local note 6 action_options (codes "x") 8 three).0
    ≡ enqueue_physical_action delete_local note 6 action_options (codes "x") 8 three
enqueue_physical_action_twice_example =
    enqueue_physical_action_twice delete_local note 6 7 action_options (codes "x") (codes "y") 8 9
      three
