-- ===== src/Reconciliation/Epoch/Edits.antt =====
-- What the adoption of an epoch does to a path that this device changed.
use obsidian_yandex_disk_syn.Common.{
  ◌≡◌, Bool, true, false, not, ◌&&◌, ◌||◌, ◌!=◌, Option, none, some, arith, is_some, nat_eq,
  bool_eq, option_eq, list_eq,
}
use obsidian_yandex_disk_syn.Common.Text.{Text}
use obsidian_yandex_disk_syn.Reconciliation.Operation.{
  SyncAction, upload, download, delete_remote, delete_local, is_active,
}
use obsidian_yandex_disk_syn.Types.{FileMetadata}
use obsidian_yandex_disk_syn.Reconciliation.Epoch.{live_remote, adopt}
use obsidian_yandex_disk_syn.Reconciliation.Epoch.ThreeWay.{content, hash}

-- The action removes or replaces the local content.
abbrev pub takes_local : SyncAction → Bool
takes_local download = true
takes_local delete_local = true
takes_local _ = false

-- The action removes or replaces the remote content.
abbrev pub takes_remote : SyncAction → Bool
takes_remote upload = true
takes_remote delete_remote = true
takes_remote _ = false

-- Adopting an epoch never removes or replaces the local side of a path where its content, or its
-- absence, differs from the live device baseline, and does nothing about such a side only if the
-- new epoch holds the same. A remote content that differs from the baseline and from the local one
-- is removed or replaced only where the device deleted a file of the live baseline: there alone an
-- edit is given up.
pub adopt_keeps_edits :
    (path : Text) (here physical base index : Option FileMetadata)
    → let action = (adopt path here physical base index).action in
      let remote = hash (live_remote physical index) in
      ((takes_local action && hash here != content base) ≡ false)
      × ((not (is_active action) && hash here != content base && hash here != remote) ≡ false)
      × ((takes_remote action
            && is_some remote
            && remote != content base
            && remote != hash here
            && (is_some here || not (is_some (content base))))
          ≡ false)
unfolding adopt hash content
adopt_keeps_edits path none none none none = ground arith
adopt_keeps_edits path none none none (some index) = ground arith
adopt_keeps_edits path none none (some base) none = ground arith
adopt_keeps_edits path none none (some base) (some index) = ground arith
adopt_keeps_edits path none (some physical) none none = ground arith
adopt_keeps_edits path none (some physical) none (some index) = ground arith
adopt_keeps_edits path none (some physical) (some base) none = ground arith
adopt_keeps_edits path none (some physical) (some base) (some index) = ground arith
adopt_keeps_edits path (some here) none none none = ground arith
adopt_keeps_edits path (some here) none none (some index) = ground arith
adopt_keeps_edits path (some here) none (some base) none = ground arith
adopt_keeps_edits path (some here) none (some base) (some index) = ground arith
adopt_keeps_edits path (some here) (some physical) none none = ground arith
adopt_keeps_edits path (some here) (some physical) none (some index) = ground arith
adopt_keeps_edits path (some here) (some physical) (some base) none = ground arith
adopt_keeps_edits path (some here) (some physical) (some base) (some index) = ground arith
