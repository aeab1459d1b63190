-- ===== src/Canonical/Merge/Success/Files.antt =====
-- The loop over the desired files returns.
use obsidian_yandex_disk_syn.Common.{
  ◌≡◌, refl, ◌∙◌, inl, inr, true, false, not, ◌&&◌, ◌||◌, Option, none, some, [], ◌∷◌, arith,
  get_or, ◌==◌, nat_eq, bool_eq, option_eq, list_eq, Bool-cases, Option-cases,
}
use obsidian_yandex_disk_syn.Common.Text.{Text}
use obsidian_yandex_disk_syn.Common.Dict.{Dict, lookup, NodupKeys, lookup-insert}
use obsidian_yandex_disk_syn.Types.{
  FileMetadata, file_metadata_eq, folder_tombstone_eq, index_move_eq, index_maintenance_eq,
  epoch_adoption_eq,
}
use obsidian_yandex_disk_syn.Local.Baseline.{merge_physical_metadata}
use obsidian_yandex_disk_syn.Canonical.Merge.Context.{CanonicalMergeInput, Progress, returned}
use obsidian_yandex_disk_syn.Canonical.Merge.Authority.{put_file}
use obsidian_yandex_disk_syn.Canonical.Merge.Files.{
  is_rewrite, is_metadata_refresh, check_sequence, is_out_of_order, refresh_file, mutation_base,
  mutation_device, causal_context, decide, apply_decision, mutate_file, merge_file, merge_files,
}
use obsidian_yandex_disk_syn.Canonical.Merge.Steps.{idle, wrote, merge_file-Round}
use obsidian_yandex_disk_syn.Canonical.Merge.InOrder.{
  clashes, classify_in_order, check_sequence_returns,
}
use obsidian_yandex_disk_syn.Canonical.Merge.Success.Conditions.{
  is_staged_by, is_mergeable_file, Returns,
}

-- A refresh of an entry that is still the baseline goes through.
merge_physical_metadata_self :
    (b desired : FileMetadata)
    → (m : FileMetadata) × (merge_physical_metadata (some b) (some b) desired ≡ some m)
unfolding merge_physical_metadata
merge_physical_metadata_self b desired = (
  record b { remote_mtime = desired.remote_mtime; remote_fingerprint = desired.remote_fingerprint },
  ground arith,
)

put_file-other :
    (p : Progress) (path other : Text) (m : FileMetadata)
    → (path == other) ≡ false
    → lookup other (put_file p path m).index.files ≡ lookup other p.index.files
unfolding put_file
put_file-other p path other m n = ground (arith, lookup-insert other path m p.index.files)

module _ (input : CanonicalMergeInput) where
  mutate_file-Returns :
      (p : Progress) (path : Text) (desired : FileMetadata) (baseline current : Option FileMetadata)
      → is_staged_by input (get_or desired.last_modified_by input.device_id) desired.mutation_seq
        ≡ true
      → clashes current desired ≡ false
      → Returns (mutate_file input p path desired baseline current)
  unfolding mutate_file decide causal_context mutation_device
  mutate_file-Returns p path desired baseline current s c =
      elim (Option-cases desired.mutation_seq) [
        | inl absent ↦ absurd (ground arith)
        | inr (seq, there) ↦
            let ordered : is_out_of_order (decide input path desired current) ≡ false =
              classify_in_order current desired (mutation_base input desired)
                (causal_context input path desired) seq there (ground arith) (ground arith) c in
            let checked : check_sequence desired baseline ≡ returned tt =
              check_sequence_returns desired baseline seq there (ground arith) in
            (
              apply_decision input p path desired current (decide input path desired current),
              rw (mutate_file, checked, ordered) refl,
            )
      ]

  refresh_file-Returns :
      (p : Progress) (path : Text) (desired : FileMetadata) (baseline current : Option FileMetadata)
      → is_metadata_refresh desired baseline ≡ true
      → (current == some desired || current == baseline) ≡ true
      → Returns (refresh_file p path desired baseline current)
  unfolding refresh_file is_metadata_refresh
  refresh_file-Returns p path desired none current r c = absurd (ground arith)
  refresh_file-Returns p path desired (some b) current r c =
      elim (Bool-cases (current == some desired)) [
        | inl same ↦ (p, rw (refresh_file, same) refl)
        | inr other ↦
            let e : current ≡ some b = ground arith in
            let there : (current == some b) ≡ true = ground arith in
            let (m, merged) = merge_physical_metadata_self b desired in
            (put_file p path m, rw (refresh_file, other, there) (rw e (rw merged refl)))
      ]

  merge_file-Returns :
      (p : Progress) (path : Text) (desired : FileMetadata)
      → is_rewrite input.mode ≡ false
      → lookup path p.index.files ≡ lookup path input.latest.files
      → is_mergeable_file input path desired ≡ true
      → Returns (merge_file input p (path, desired))
  unfolding merge_file
  merge_file-Returns p path desired w l m =
      let baseline = lookup path input.loaded_base.files in
      let latest = lookup path input.latest.files in
      elim (Bool-cases (some desired == baseline)) [
        | inl same ↦ (p, rw (merge_file, same) refl)
        | inr other ↦ elim (Bool-cases (is_metadata_refresh desired baseline)) [
          | inl refreshing ↦
              let c : (latest == some desired || latest == baseline) ≡ true = ground arith in
              let (q, e) = refresh_file-Returns p path desired baseline latest refreshing c in
              (q, rw (merge_file, other, w, refreshing, l) e)
          | inr mutating ↦
              let s : (is_staged_by input (get_or desired.last_modified_by input.device_id)
                      desired.mutation_seq
                    && not (clashes latest desired))
                  ≡ true =
                ground arith in
              let (q, e) =
                mutate_file-Returns p path desired baseline latest (ground arith) (ground arith) in
              (q, rw (merge_file, other, w, mutating, l) e)
        ]
      ]

  -- A round writes no other path.
  merge_file-other :
      (p q : Progress) (path other : Text) (desired : FileMetadata)
      → merge_file input p (path, desired) ≡ returned q
      → (path == other) ≡ false
      → lookup other q.index.files ≡ lookup other p.index.files
  merge_file-other p q path other desired h n = elim (merge_file-Round input p path desired q h) [
    | idle e c ↦ rw e refl
    | wrote m w e c ↦ rw e (ground (arith, put_file-other p path other m n))
  ]

  abbrev pub AllMergeable : Dict Text FileMetadata → Type 0
  AllMergeable [] = Unit
  AllMergeable ((path, desired) ∷ rest) =
      (is_mergeable_file input path desired ≡ true) × AllMergeable rest

  -- The paths that are still to come are as in the latest index.
  abbrev pub Untouched : Progress → Dict Text FileMetadata → Type 0
  Untouched p [] = Unit
  Untouched p ((path, _) ∷ rest) =
      (lookup path p.index.files ≡ lookup path input.latest.files) × Untouched p rest

  Untouched-merge_file :
      (p q : Progress) (path : Text) (desired : FileMetadata) (rest : Dict Text FileMetadata)
      → merge_file input p (path, desired) ≡ returned q
      → lookup path rest ≡ none
      → Untouched p rest
      → Untouched q rest
  unfolding lookup
  Untouched-merge_file p q path desired [] h n u = tt
  Untouched-merge_file p q path desired ((other, m) ∷ rest) h n u =
      let apart : (path == other) ≡ false = ground arith in
      (
        merge_file-other p q path other desired h apart ∙ u.0,
        Untouched-merge_file p q path desired rest h (ground arith) u.1,
      )

  pub merge_files-Returns :
      (p : Progress) (files : Dict Text FileMetadata)
      → is_rewrite input.mode ≡ false
      → NodupKeys files
      → AllMergeable files
      → Untouched p files
      → Returns (merge_files input p files)
  unfolding merge_files
  merge_files-Returns p [] w n a u = (p, refl)
  merge_files-Returns p ((path, desired) ∷ rest) w n a u =
      let (q, e) = merge_file-Returns p path desired w u.0 a.0 in
      let (r, f) =
        merge_files-Returns q rest w n.1 a.1
          (Untouched-merge_file p q path desired rest e n.0 u.1) in
      (r, rw (merge_files, e) f)
