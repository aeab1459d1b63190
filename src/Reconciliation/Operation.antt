-- ===== src/Reconciliation/Operation.antt =====
-- src/types.ts and src/sync/reconciliation/conflicts.ts: a synchronization operation. Its reason
-- is one of the literals of the source, which `reason_text` writes out.
use obsidian_yandex_disk_syn.Common.{
  Bool, true, false, ◌||◌, Option, none, some, if◌then◌else◌, truthy, is_some, nat_eq, bool_eq,
  option_eq, list_eq,
}
use obsidian_yandex_disk_syn.Common.Text.{Text, codes, starts_with}
use obsidian_yandex_disk_syn.Types.{FileMetadata}

pub data SyncAction : Type 0 where
  upload download delete_remote delete_local conflict keep : SyncAction

pub data SyncCausalOrigin : Type 0 where
  new_local_operation apply_canonical physical_repair : SyncCausalOrigin

pub data Reason : Type 0 where
  new_local new_remote resuming restores exact_remote_wins removing_physical supersedes
        local_deleted remote_deleted stale_deletion committed_deletion both_deleted repairing
        exact_local_wins undefined_state :
      Reason
  identical no_baseline_conflict first_sync_identical both_changed only_local only_remote
        neither_changed :
      Reason
  both_descendants local_survives remote_survives parent_deleted : Reason
  epoch_repair epoch_identical epoch_both epoch_restores epoch_deletion_wins epoch_reapplied
        epoch_deletion_reapplied epoch_absent epoch_remote_changed epoch_deleted epoch_unchanged :
      Reason

unfoldable pub reason_text : Reason → Text
reason_text new_local = codes "New local file"
reason_text new_remote = codes "New remote file"
reason_text resuming = codes "Resuming a committed local physical deletion"
reason_text restores = codes "New file restores a previously deleted path"
reason_text exact_remote_wins = codes "Exact-file remote deletion wins"
reason_text removing_physical = codes "Removing a physical file rejected by its tombstone"
reason_text supersedes = codes "Canonical live state supersedes the local deletion baseline"
reason_text local_deleted = codes "File deleted locally"
reason_text remote_deleted = codes "File deleted on disk"
reason_text stale_deletion = codes "Stale local deletion has no pending causal mutation"
reason_text committed_deletion = codes "Applying a committed remote deletion"
reason_text both_deleted = codes "File deleted on both sides"
reason_text repairing = codes "Repairing a physical file missing from canonical state"
reason_text exact_local_wins = codes "Exact-file local deletion wins"
reason_text undefined_state = codes "Undefined state"
reason_text identical = codes "Files are identical"
reason_text no_baseline_conflict =
    codes "Different local and remote files share a path without a baseline"
reason_text first_sync_identical = codes "First sync found identical plaintext content"
reason_text both_changed = codes "Both local and canonical/remote changed since the device baseline"
reason_text only_local = codes "Only local content changed since the device baseline"
reason_text only_remote = codes "Only canonical/remote content changed since the device baseline"
reason_text neither_changed = codes "Neither side changed since the device baseline"
reason_text both_descendants = codes "Both descendants changed during folder deletion"
reason_text local_survives = codes "New or modified file survives concurrent folder deletion"
reason_text remote_survives =
    codes "New or modified remote file survives concurrent folder deletion"
reason_text parent_deleted = codes "Parent folder was deleted"
reason_text epoch_repair = codes "Repairing physical content in replacement epoch"
reason_text epoch_identical = codes "Replacement epoch contains identical content"
reason_text epoch_both = codes "Local and replacement epoch both changed the file"
reason_text epoch_restores = codes "Local content restores a remotely deleted path"
reason_text epoch_deletion_wins = codes "Local deletion wins in the replacement epoch"
reason_text epoch_reapplied = codes "Local change is reapplied to replacement epoch"
reason_text epoch_deletion_reapplied = codes "Local deletion is reapplied to replacement epoch"
reason_text epoch_absent = codes "Path is absent"
reason_text epoch_remote_changed = codes "Replacement epoch changed remote content"
reason_text epoch_deleted = codes "Replacement epoch deleted the path"
reason_text epoch_unchanged = codes "Path is unchanged"

pub record SyncOperation : Type 0 where
  pub action : SyncAction
  pub path : Text
  pub reason : Reason
  pub local_meta : Option FileMetadata
  pub remote_meta : Option FileMetadata
  pub folder_tombstone_path : Option Text
  pub causal_origin : Option SyncCausalOrigin

-- The object literal of an operation.
abbrev pub operation :
    Text → SyncAction → Reason → Option FileMetadata → Option FileMetadata → SyncOperation
operation path action reason here remote = record {
  action = action;
  path = path;
  reason = reason;
  local_meta = here;
  remote_meta = remote;
  folder_tombstone_path = none;
  causal_origin = none;
}

-- `operation.action !== "none"`
abbrev pub is_active : SyncAction → Bool
is_active keep = false
is_active _ = true

abbrev pub is_download : SyncAction → Bool
is_download download = true
is_download _ = false

-- The test of `withCausalOrigin` on the reason.
unfoldable pub is_repair_reason : Reason → Bool
unfolding reason_text
is_repair_reason reason =
    starts_with (reason_text reason) (codes "Repairing")
    || starts_with (reason_text reason) (codes "Resuming")
    || starts_with (reason_text reason) (codes "Removing a physical")

-- `canonical?.deleted === true`
abbrev pub is_deleted : Option FileMetadata → Bool
is_deleted none = false
is_deleted (some m) = truthy m.deleted

-- `withCausalOrigin`
unfoldable pub with_causal_origin : SyncOperation → Option FileMetadata → SyncOperation
with_causal_origin o canonical =
    if is_repair_reason o.reason
    then record o { causal_origin = some physical_repair }
    else if is_some o.folder_tombstone_path || is_deleted canonical || is_download o.action
    then record o { causal_origin = some apply_canonical }
    else record o { causal_origin = some new_local_operation }
