-- ===== src/Tests/Samples.antt =====
-- Entries, devices and indices that the tests share.
use obsidian_yandex_disk_syn.Common.{
  ℕ, true, Option, none, some, [], nat_eq, bool_eq, option_eq, list_eq,
}
use obsidian_yandex_disk_syn.Common.Text.{Text, codes}
use obsidian_yandex_disk_syn.Types.{SyncIndex, FileMetadata}
use obsidian_yandex_disk_syn.Canonical.Mutation.{FileMutationCausalContext}

abbrev pub phone : Text
phone = codes "p"

abbrev pub laptop : Text
laptop = codes "l"

abbrev pub note : Text
note = codes "n/a"

-- A live file: content, device, sequence, the revision that accepted it and its base.
abbrev pub entry : Text → Text → Text → ℕ → ℕ → ℕ → FileMetadata
entry path sha device seq changed base = record {
  path = path;
  sha256 = sha;
  size = 3;
  mtime = 10;
  synced_at = 11;
  remote_mtime = none;
  remote_fingerprint = some sha;
  deleted = none;
  deleted_at = none;
  deleted_by_folder = none;
  last_modified_by = some device;
  mutation_seq = some seq;
  changed_revision = some changed;
  base_revision = some base;
}

abbrev pub dead : FileMetadata → FileMetadata
dead m = record m { deleted = some true; deleted_at = some 20 }

abbrev pub context : ℕ → ℕ → Option Text → FileMutationCausalContext
context current desired baseline = record {
  current_watermark = current;
  desired_watermark = desired;
  baseline_sha256 = baseline;
}

abbrev pub old_note : FileMetadata
old_note = entry note (codes "1") laptop 1 3 2

abbrev pub laptop_note : FileMetadata
laptop_note = entry note (codes "2") laptop 2 5 4

abbrev pub phone_note : FileMetadata
phone_note = entry note (codes "3") phone 1 3 4

abbrev pub empty_index : SyncIndex
empty_index = record {
  epoch = codes "e";
  revision = 0;
  last_sync_time = 0;
  device_id = laptop;
  files = [];
  folder_tombstones = [];
  moves = [];
  applied_mutation_seq = [];
  maintenance = none;
  epoch_adoption = none;
}
