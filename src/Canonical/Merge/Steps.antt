-- ===== src/Canonical/Merge/Steps.antt =====
-- One round of the file loop: it leaves the index alone, or writes one entry at its path.
use obsidian_yandex_disk_syn.Common.{
  ◌≡◌, refl, subst, inl, inr, true, Option, none, some, arith, ◌==◌, nat_eq, bool_eq, option_eq,
  list_eq, Bool-cases, Option-cases,
}
use obsidian_yandex_disk_syn.Common.Text.{Text}
use obsidian_yandex_disk_syn.Common.Dict.{lookup}
use obsidian_yandex_disk_syn.Types.{FileMetadata, file_metadata_eq}
use obsidian_yandex_disk_syn.Local.Baseline.{merge_physical_metadata}
use obsidian_yandex_disk_syn.Canonical.Mutation.{
  FileMutationDecision, apply, stamp_accepted, merge_classified,
}
use obsidian_yandex_disk_syn.Canonical.Merge.Context.{
  CanonicalMergeInput, Progress, returned, next_revision,
}
use obsidian_yandex_disk_syn.Canonical.Merge.Authority.{put_file}
use obsidian_yandex_disk_syn.Canonical.Merge.Files.{
  is_rewrite, is_metadata_refresh, refresh_file, mutation_base, decide, touch, keep_current,
  apply_decision, mutate_file, merge_file, touches_child,
}

-- Why an entry is written over a current one: its server-owned fields were refreshed, the desired
-- mutation was accepted, or a folder deletion met a newer live child.
pub data Written (input : CanonicalMergeInput) (path : Text) (desired : FileMetadata)
    (current : Option FileMetadata) (m : FileMetadata) : Type 0 where
  refreshed :
      merge_physical_metadata current (lookup path input.loaded_base.files) desired ≡ some m
      → Written input path desired current m
  accepted :
      decide input path desired current ≡ apply
      → m
        ≡ stamp_accepted desired (mutation_base input desired) (next_revision input) input.device_id
      → Written input path desired current m
  touched :
      (c : FileMetadata)
      → current ≡ some c
      → m ≡ touch input c
      → Written input path desired current m

-- The index and the mark are as before, or the entry was written.
pub data Round (input : CanonicalMergeInput) (path : Text) (desired : FileMetadata) (p q : Progress)
    : Type 0 where
  idle : q.index ≡ p.index → q.changed ≡ p.changed → Round input path desired p q
  wrote :
      (m : FileMetadata)
      → Written input path desired (lookup path p.index.files) m
      → q.index ≡ (put_file p path m).index
      → q.changed ≡ true
      → Round input path desired p q

module _ (input : CanonicalMergeInput) (p : Progress) (path : Text) (desired : FileMetadata) where
  wrote_by_put :
      (m : FileMetadata) {q : Progress}
      → Written input path desired (lookup path p.index.files) m
      → returned (put_file p path m) ≡ returned q
      → Round input path desired p q
  unfolding put_file
  wrote_by_put m w e = wrote m w (ground arith) (ground arith)

  idle_by_ok : {q : Progress} → returned p ≡ returned q → Round input path desired p q
  idle_by_ok e = idle (ground arith) (ground arith)

  refresh_file-Round :
      (q : Progress)
      → refresh_file p path desired
          (lookup path input.loaded_base.files)
          (lookup path p.index.files)
        ≡ returned q
      → Round input path desired p q
  unfolding refresh_file
  refresh_file-Round q h =
      let baseline = lookup path input.loaded_base.files in
      let current = lookup path p.index.files in
      elim (Bool-cases (current == some desired)) [
        | inl same ↦ idle (ground arith) (ground arith)
        | inr other ↦ elim (Option-cases (merge_physical_metadata current baseline desired)) [
          | inl e ↦ absurd (ground arith)
          | inr (m, e) ↦ wrote_by_put m (refreshed e) (ground arith)
        ]
      ]

  keep_current-Round :
      (decision : FileMutationDecision) (current : Option FileMetadata)
      → lookup path p.index.files ≡ current
      → Round input path desired p (keep_current input p path desired current decision)
  unfolding keep_current put_file
  keep_current-Round decision none e = idle refl refl
  keep_current-Round decision (some c) e =
      elim (Bool-cases (touches_child decision desired (some c))) [
        | inl t ↦ rw (t, keep_current) (wrote _ (touched c e refl) refl refl)
        | inr t ↦ rw (t, keep_current) (idle refl refl)
      ]

  apply_decision-Round :
      (decision : FileMutationDecision)
      → decide input path desired (lookup path p.index.files) ≡ decision
      → Round input path desired p
          (apply_decision input p path desired (lookup path p.index.files) decision)
  unfolding apply_decision put_file merge_classified
  apply_decision-Round apply e = wrote _ (accepted e refl) refl refl
  apply_decision-Round decision e = keep_current-Round decision (lookup path p.index.files) refl

  mutate_file-Round :
      (q : Progress)
      → mutate_file input p path desired
          (lookup path input.loaded_base.files)
          (lookup path p.index.files)
        ≡ returned q
      → Round input path desired p q
  unfolding mutate_file
  mutate_file-Round q h =
      let decision = decide input path desired (lookup path p.index.files) in
      let e : apply_decision input p path desired (lookup path p.index.files) decision ≡ q =
        ground arith in
      subst (Round input path desired p) e (apply_decision-Round decision refl)

  -- One round of the file loop.
  pub merge_file-Round :
      (q : Progress)
      → merge_file input p (path, desired) ≡ returned q
      → Round input path desired p q
  unfolding merge_file
  merge_file-Round q h =
      let baseline = lookup path input.loaded_base.files in
      let current = lookup path p.index.files in
      elim (Bool-cases (some desired == baseline)) [
        | inl same ↦ idle (ground arith) (ground arith)
        | inr other ↦ elim (Bool-cases (is_rewrite input.mode)) [
          | inl rewriting ↦ elim (Option-cases (merge_physical_metadata current baseline desired)) [
            | inl e ↦ absurd (ground arith)
            | inr (m, e) ↦ wrote_by_put m (refreshed e) (ground arith)
          ]
          | inr ordinary ↦ elim (Bool-cases (is_metadata_refresh desired baseline)) [
            | inl refreshing ↦ refresh_file-Round q (ground arith)
            | inr mutating ↦ mutate_file-Round q (ground arith)
          ]
        ]
      ]
