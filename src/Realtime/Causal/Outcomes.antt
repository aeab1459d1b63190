-- ===== src/Realtime/Causal/Outcomes.antt =====
-- When a rename is known to be settled, and how it is carried out.
use obsidian_yandex_disk_syn.Common.{
  ℕ, ◌≤◌, ◌≡◌, ◌↔◌, ◌⊎◌, true, false, Option, some, arith, get_or, truthy, is_some, nat_eq, bool_eq,
  option_eq, list_eq,
}
use obsidian_yandex_disk_syn.Common.Text.{Text}
use obsidian_yandex_disk_syn.Types.{FileMetadata}
use obsidian_yandex_disk_syn.Realtime.Events.{DurableFileRenameEvent}
use obsidian_yandex_disk_syn.Realtime.Causal.{
  remote_move, completed, superseded, PostFullRenameState, is_live, was_rename_source_causally_live,
  source_is_newer, source_is_settled, target_is_confirmed, epoch_replaced, target_is_gone,
  classify_post_full_rename, select_file_rename_plan,
}

-- The classification of a rename after a full reconciliation. It is completed exactly if its epoch
-- is not replaced, no related work is pending, the target is confirmed with one content on the
-- device and in the index, and the source is gone or newer than the rename. It is superseded exactly
-- if its epoch is replaced, or else, with no work pending, source and target are gone, or the target
-- is gone and the source is newer. It never starts remote work.
pub classify_post_full_rename_lem :
    (event : DurableFileRenameEvent) (state : PostFullRenameState)
    → let r = classify_post_full_rename event state in
      let newer = source_is_newer state.canonical_source event.base_revision ≡ true in
      let settled = source_is_settled state.canonical_source ≡ true in
      let current = epoch_replaced event.epoch state.canonical_epoch ≡ false in
      ((r.status ≡ completed) ↔ (
        current
        × (state.has_pending_work ≡ false)
        × (target_is_confirmed state ≡ true)
        × (settled ⊎ newer)))
      × ((r.status ≡ superseded) ↔ (
          (epoch_replaced event.epoch state.canonical_epoch ≡ true)
          ⊎ (current
              × (state.has_pending_work ≡ false)
              × (target_is_gone state ≡ true)
              × (settled ⊎ newer))))
      × (r.remote_started ≡ false)
unfolding classify_post_full_rename
classify_post_full_rename_lem event state =
    ((λ h. ground arith, λ h. ground arith), (λ h. ground arith, λ h. ground arith), ground arith)

-- A remote move is chosen exactly for a source that was live when the rename was made and holds the
-- content of the target: the canonical source is live, the baseline of the device is live, and the
-- entry is not newer than the base of the rename, or is a mutation of the device itself.
pub remote_move_iff :
    (baseline : Option FileMetadata) (source : FileMetadata) (base : ℕ) (device : Text) (sha : Text)
    → (select_file_rename_plan
          (was_rename_source_causally_live baseline (some source) (some base) (some device))
          (some source)
          sha
        ≡ remote_move)
      ↔ ((is_live baseline ≡ true)
          × (truthy source.deleted ≡ false)
          × (source.sha256 ≡ sha)
          × ((get_or source.changed_revision 0 ≤ base)
              ⊎ ((source.last_modified_by ≡ some device) × (is_some source.mutation_seq ≡ true))))
unfolding select_file_rename_plan was_rename_source_causally_live
remote_move_iff baseline source base device sha = (λ h. ground arith, λ h. ground arith)
