-- ===== src/Tests/Merge.antt =====
-- Reductions of a desired index into the latest one.
use obsidian_yandex_disk_syn.Common.{
  ◌<◌, ◌≡◌, refl, ◌≢◌, inl, true, false, none, some, [], ◌∷◌, arith, get_or, nat_eq, bool_eq,
  option_eq, list_eq, max,
}
use obsidian_yandex_disk_syn.Common.Text.{Text, codes}
use obsidian_yandex_disk_syn.Common.Dict.{lookup, insert, erase, NodupKeys}
use obsidian_yandex_disk_syn.Types.{
  FileMetadata, file_metadata_eq, folder_tombstone_eq, index_move_eq, index_maintenance_eq,
  epoch_adoption_eq,
}
use obsidian_yandex_disk_syn.Canonical.Merge.Context.{
  CanonicalMergeInput, normal, replacement, returned, by_conflict, Progress,
}
use obsidian_yandex_disk_syn.Canonical.Merge.Authority.{
  start, check_maintenance, adopt_receipt, put_file, set_maintenance, close, check_ownership,
}
use obsidian_yandex_disk_syn.Canonical.Merge.Logs.{
  merge_folders, merge_tombstones, merge_moves, complete_moves, raise_watermark, raise_watermarks,
}
use obsidian_yandex_disk_syn.Canonical.Mutation.{
  concurrent_foreign, has_same_logical_file_state, refuse_sequence, same_device_sequences,
  classify_same_device, is_live_and_newer, classify_put_over, classify_other,
  classify_file_mutation, stamp_accepted, merge_classified,
}
use obsidian_yandex_disk_syn.Canonical.Mutation.Convergence.{IsStaged}
use obsidian_yandex_disk_syn.Canonical.Merge.Replacement.{
  IsReplaced, merge_replacement, lookup-merge_replacement,
}
use obsidian_yandex_disk_syn.Canonical.Merge.Files.{
  collect_put_baselines, put_baseline, is_metadata_refresh, is_logical_change, check_sequence,
  mutation_base, mutation_device, causal_context, decide, rejected_put, diagnostic, keep_current,
  apply_decision, mutate_file, merge_file, merge_files,
}
use obsidian_yandex_disk_syn.Canonical.Merge.Reduce.{
  as_result, settle_maintenance, finish, merge_ordinary, merge_in_mode, merge_latest, reduce_in,
  CanonicalMergeResult, merge_desired_index,
}
use obsidian_yandex_disk_syn.Canonical.Merge.Revision.{Advances, merge_desired_index-revision}
use obsidian_yandex_disk_syn.Canonical.Merge.Watermarks.{watermark, merge_desired_index-watermark}
use obsidian_yandex_disk_syn.Canonical.Merge.Protection.{
  SameLogical, Succeeds, merge_desired_index-protects, concurrent_edit_survives,
}
use obsidian_yandex_disk_syn.Canonical.Merge.Success.{IsMergeable, merge_desired_index_returns}
use obsidian_yandex_disk_syn.Tests.Samples.{
  phone, laptop, note, old_note, laptop_note, phone_note, entry, empty_index,
}

abbrev other : Text
other = codes "b"

abbrev phone_other : FileMetadata
phone_other = entry other (codes "4") phone 2 3 4

-- The laptop published its note at revision 5; the phone, which saw revision 4, puts its own note
-- and a new file.
abbrev sample : CanonicalMergeInput
sample = record {
  latest = record empty_index {
    revision = 5;
    files = (note, laptop_note) ∷ [];
    applied_mutation_seq = (laptop, 2) ∷ [];
  };
  loaded_base = record empty_index { revision = 4; files = (note, old_note) ∷ [] };
  desired = record empty_index {
    revision = 4;
    files = (note, phone_note) ∷ (other, phone_other) ∷ [];
    applied_mutation_seq = (laptop, 1) ∷ (phone, 2) ∷ [];
  };
  device_id = phone;
  base_revision = 4;
  mode = normal;
  completed_move_ids = [];
  put_baselines = [];
}

abbrev before : Progress
before = record { index = sample.latest; rejected_puts = []; diagnostics = []; changed = false }

-- The note of the phone is refused.
abbrev after_note : Progress
after_note = record before {
  rejected_puts =
      record {
        path = note;
        reason = by_conflict;
        remote_fingerprint = codes "3";
        baseline_sha256 = none;
      }
      ∷ [];
  diagnostics =
      record {
        path = note;
        decision = concurrent_foreign;
        base_revision = 4;
        current_revision = some 5;
        mutation_seq = some 1;
        device_id = phone;
      }
      ∷ [];
}

-- Its new file is accepted.
abbrev after_other : Progress
after_other = record after_note {
  index = record (sample.latest) {
    files = (note, laptop_note) ∷ (other, record phone_other { changed_revision = some 6 }) ∷ [];
  };
  changed = true;
}

abbrev after_all : Progress
after_all = record after_other {
  index = record (after_other.index) {
    revision = 6;
    applied_mutation_seq = (laptop, 2) ∷ (phone, 2) ∷ [];
  };
}

start_test :
    (check_maintenance sample ≡ returned tt)
    × (adopt_receipt sample (start sample) ≡ returned before)
    × (check_ownership sample ≡ returned tt)
unfolding start check_maintenance adopt_receipt check_ownership index_maintenance_eq option_eq
    epoch_adoption_eq
start_test = (refl, refl, refl)

note_test : merge_file sample before (note, phone_note) ≡ returned after_note
unfolding lookup insert erase nat_eq bool_eq option_eq list_eq file_metadata_eq start
    check_maintenance adopt_receipt put_file put_baseline collect_put_baselines is_metadata_refresh
    is_logical_change check_sequence mutation_base mutation_device causal_context decide
    rejected_put diagnostic keep_current apply_decision mutate_file merge_file
    has_same_logical_file_state refuse_sequence same_device_sequences classify_same_device
    is_live_and_newer classify_put_over classify_other classify_file_mutation stamp_accepted
note_test = refl

other_test : merge_file sample after_note (other, phone_other) ≡ returned after_other
unfolding lookup insert erase nat_eq bool_eq option_eq list_eq file_metadata_eq start
    check_maintenance adopt_receipt put_file put_baseline collect_put_baselines is_metadata_refresh
    is_logical_change check_sequence mutation_base mutation_device causal_context decide
    rejected_put diagnostic keep_current apply_decision mutate_file merge_file
    has_same_logical_file_state refuse_sequence same_device_sequences classify_same_device
    is_live_and_newer classify_put_over classify_other classify_file_mutation stamp_accepted
    merge_classified
other_test = refl

finish_test : finish sample after_other ≡ after_all
unfolding lookup insert nat_eq list_eq option_eq index_maintenance_eq finish settle_maintenance
    set_maintenance close complete_moves raise_watermarks raise_watermark
finish_test = refl

folders_test : merge_folders sample after_other ≡ returned after_other
unfolding merge_folders merge_tombstones
folders_test = refl

abbrev after_sample : CanonicalMergeResult
after_sample = as_result after_all

merge_sample : merge_desired_index sample ≡ returned after_sample
unfolding merge_desired_index reduce_in merge_latest merge_in_mode merge_ordinary merge_files
    merge_moves
merge_sample = rw start_test.0 (
    rw start_test.1
      (rw start_test.2 (rw note_test (rw other_test (rw folders_test (rw finish_test))))))

latest_note : lookup note sample.latest.files ≡ some laptop_note
unfolding lookup nat_eq list_eq
latest_note = refl

desired_note : lookup note sample.desired.files ≡ some phone_note
unfolding lookup nat_eq list_eq
desired_note = refl

sample-NodupKeys : NodupKeys sample.desired.files
unfolding lookup nat_eq list_eq
sample-NodupKeys = (refl, (refl, tt))

watermarks-NodupKeys : NodupKeys sample.desired.applied_mutation_seq
unfolding lookup nat_eq list_eq
watermarks-NodupKeys = (refl, (refl, tt))

merge_desired_index-revision_example : Advances sample after_sample.index
merge_desired_index-revision_example = merge_desired_index-revision sample after_sample merge_sample

merge_desired_index-watermark_example :
    watermark phone after_sample.index.applied_mutation_seq
    ≡ max
        (watermark phone sample.latest.applied_mutation_seq)
        (watermark phone sample.desired.applied_mutation_seq)
merge_desired_index-watermark_example =
    merge_desired_index-watermark sample watermarks-NodupKeys phone after_sample (inl refl)
      merge_sample

merge_desired_index-protects_example :
    (m' : FileMetadata) × (lookup note after_sample.index.files ≡ some m')
    × Succeeds sample note laptop_note m'
merge_desired_index-protects_example =
    merge_desired_index-protects sample note laptop_note after_sample (inl refl) sample-NodupKeys
      merge_sample latest_note

phone_note-IsStaged : IsStaged phone_note phone (causal_context sample note phone_note)
unfolding causal_context lookup nat_eq list_eq mutation_device mutation_base
phone_note-IsStaged = record {
  seq = 1;
  by_device = refl;
  has_seq = refl;
  positive = omega arith;
  staged = omega arith;
}

no_baseline : some (codes "2") ≢ put_baseline sample note
unfolding put_baseline collect_put_baselines lookup
no_baseline = λ h. ground arith

before_put : mutation_base sample phone_note < get_or laptop_note.changed_revision 0
unfolding mutation_base
before_put = omega arith

concurrent_edit_survives_example :
    (m' : FileMetadata) × (lookup note after_sample.index.files ≡ some m')
    × SameLogical laptop_note m'
concurrent_edit_survives_example =
    concurrent_edit_survives sample note laptop_note after_sample phone_note phone (inl refl)
      sample-NodupKeys merge_sample latest_note desired_note phone_note-IsStaged (λ h. ground arith)
      refl refl before_put (λ h. ground arith) no_baseline

abbrev replacing : CanonicalMergeInput
replacing = record sample { mode = replacement 9 }

lookup-merge_replacement_example :
    IsReplaced replacing 9
      (lookup note replacing.desired.files)
      (lookup note replacing.latest.files)
      (lookup note (merge_replacement replacing 9).files)
lookup-merge_replacement_example = lookup-merge_replacement replacing 9 note

sample-IsMergeable : IsMergeable sample
unfolding lookup nat_eq bool_eq list_eq option_eq file_metadata_eq folder_tombstone_eq index_move_eq
    index_maintenance_eq epoch_adoption_eq is_metadata_refresh
sample-IsMergeable = record {
  mode_normal = refl;
  same_maintenance = refl;
  same_receipt = refl;
  no_claim = refl;
  distinct = sample-NodupKeys;
  each_file = (refl, (refl, tt));
  each_tombstone = tt;
  each_move = tt;
}

merge_desired_index_returns_example :
    (r : CanonicalMergeResult) × (merge_desired_index sample ≡ returned r)
merge_desired_index_returns_example = merge_desired_index_returns sample sample-IsMergeable
