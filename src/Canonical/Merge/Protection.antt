-- ===== src/Canonical/Merge/Protection.antt =====
-- No file of the latest index is lost in an ordinary merge, and content is replaced only by a
-- mutation that the rules of causality accept.
use obsidian_yandex_disk_syn.Common.{
  ◌<◌, ◌≡◌, refl, sym, ◌∙◌, subst, ◌≢◌, ◌⊎◌, inl, inr, false, Option, some, arith, get_or, truthy,
  nat_eq, bool_eq, option_eq, list_eq,
}
use obsidian_yandex_disk_syn.Common.Text.{Text}
use obsidian_yandex_disk_syn.Common.Dict.{Dict, lookup, NodupKeys}
use mathlib.Core.Option.{some-injective}
use obsidian_yandex_disk_syn.Types.{FileMetadata, FolderTombstone}
use obsidian_yandex_disk_syn.Local.Baseline.{merge_physical_metadata}
use obsidian_yandex_disk_syn.Canonical.Mutation.{apply, concurrent_foreign, stamp_accepted}
use obsidian_yandex_disk_syn.Canonical.Mutation.Convergence.{
  IsStaged, IsForeign, concurrent_edit_kept_iff,
}
use obsidian_yandex_disk_syn.Canonical.Merge.Context.{CanonicalMergeInput, returned}
use obsidian_yandex_disk_syn.Canonical.Merge.Files.{
  touch, decide, mutation_base, causal_context, put_baseline,
}
use obsidian_yandex_disk_syn.Canonical.Merge.Steps.{Written, refreshed, accepted, touched}
use obsidian_yandex_disk_syn.Canonical.Merge.Reduce.{CanonicalMergeResult, merge_desired_index}
use obsidian_yandex_disk_syn.Canonical.Merge.Runs.{IsOrdinary}
use obsidian_yandex_disk_syn.Canonical.Merge.Fate.{merge_desired_index-fate}
use obsidian_yandex_disk_syn.Canonical.Merge.Rounds.{FileFate, unchanged, written}
use obsidian_yandex_disk_syn.Canonical.Merge.Touched.{TouchedOrSame}

-- Two entries show the same content and the same deletion.
abbrev pub SameLogical : FileMetadata → FileMetadata → Type 0
SameLogical m m' =
    (m'.sha256 ≡ m.sha256) × (m'.deleted ≡ m.deleted) × (m'.deleted_by_folder ≡ m.deleted_by_folder)

-- The entry kept its logical state, or took that of a desired entry which was decided to apply.
abbrev pub Succeeds : CanonicalMergeInput → Text → FileMetadata → FileMetadata → Type 0
Succeeds input path m m' =
    SameLogical m m'
    ⊎ ((d : FileMetadata) × (lookup path input.desired.files ≡ some d)
        × (decide input path d (some m) ≡ apply)
        × SameLogical d m')

module _ (input : CanonicalMergeInput) (path : Text) (m : FileMetadata) where
  Written-Succeeds :
      (d m' : FileMetadata)
      → lookup path input.desired.files ≡ some d
      → Written input path d (some m) m'
      → Succeeds input path m m'
  unfolding merge_physical_metadata stamp_accepted touch
  Written-Succeeds d m' e (refreshed h) = inl (ground arith)
  Written-Succeeds d m' e (accepted h f) = inr (d, e, h, ground arith)
  Written-Succeeds d m' e (touched c h f) = inl (ground arith)

  FileFate-Succeeds :
      (after : Option FileMetadata)
      → FileFate input path input.desired.files (some m) after
      → (m' : FileMetadata) × (after ≡ some m') × Succeeds input path m m'
  FileFate-Succeeds after (unchanged e) = (m, e, inl (refl, refl, refl))
  FileFate-Succeeds after (written d m' e w f) = (m', f, Written-Succeeds d m' e w)

  touch-Succeeds :
      (m' c : FileMetadata)
      → some m' ≡ some c
      → Succeeds input path m m'
      → Succeeds input path m (touch input c)
  unfolding touch
  touch-Succeeds m' c e (inl s) = inl (ground arith)
  touch-Succeeds m' c e (inr (d, f, h, s)) = inr (d, f, h, ground arith)

  TouchedOrSame-Succeeds :
      (tombstones : Dict Text FolderTombstone) (f after : Option FileMetadata) (m' : FileMetadata)
      → f ≡ some m'
      → Succeeds input path m m'
      → TouchedOrSame input path tombstones f after
      → (m'' : FileMetadata) × (after ≡ some m'') × Succeeds input path m m''
  TouchedOrSame-Succeeds ts f after m' e s (inl g) = (m', g ∙ e, s)
  TouchedOrSame-Succeeds ts f after m' e s (inr (c, g, h, by)) =
      (touch input c, h, touch-Succeeds m' c (sym e ∙ g) s)

  -- A path that the latest index holds is still held after an ordinary merge, with its content and
  -- deletion as they were, or with those of the desired entry of the path, and then only if the
  -- desired mutation was decided to apply over the latest entry. The desired index lists each path
  -- once.
  pub merge_desired_index-protects :
      (r : CanonicalMergeResult)
      → IsOrdinary input.mode
      → NodupKeys input.desired.files
      → merge_desired_index input ≡ returned r
      → lookup path input.latest.files ≡ some m
      → (m' : FileMetadata) × (lookup path r.index.files ≡ some m') × Succeeds input path m m'
  merge_desired_index-protects r mode u h e =
      let (f, fate, t) = merge_desired_index-fate input path r mode u h in
      let (m', g, s) =
        FileFate-Succeeds f (subst (λ b. FileFate input path input.desired.files b f) e fate) in
      TouchedOrSame-Succeeds input.desired.folder_tombstones f _ m' g s t

  kept_of_refused :
      (m' d : FileMetadata)
      → Succeeds input path m m'
      → lookup path input.desired.files ≡ some d
      → decide input path d (some m) ≡ concurrent_foreign
      → SameLogical m m'
  kept_of_refused m' d (inl same) ed refused = same
  kept_of_refused m' d (inr (d', ed', applied, s)) ed refused =
      let same : d' ≡ d = some-injective d' d (sym ed' ∙ ed) in
      cc (sym (subst (λ x. decide input path x (some m) ≡ apply) same applied) ∙ refused)

  -- In an ordinary merge, a live edit that another device published after the base of a desired live
  -- put survives: the answer holds its content, unless the put carries that content or replaced it.
  -- The put has its device and a positive sequence up to the staged watermark, and the desired index
  -- lists each path once.
  pub concurrent_edit_survives :
      (r : CanonicalMergeResult) (d : FileMetadata) (a : Text)
      → IsOrdinary input.mode
      → NodupKeys input.desired.files
      → merge_desired_index input ≡ returned r
      → lookup path input.latest.files ≡ some m
      → lookup path input.desired.files ≡ some d
      → IsStaged d a (causal_context input path d)
      → IsForeign (some m) a
      → truthy m.deleted ≡ false
      → truthy d.deleted ≡ false
      → mutation_base input d < get_or m.changed_revision 0
      → m.sha256 ≢ d.sha256
      → some m.sha256 ≢ put_baseline input path
      → (m' : FileMetadata) × (lookup path r.index.files ≡ some m') × SameLogical m m'
  unfolding decide causal_context
  concurrent_edit_survives r d a mode u h e ed st foreign live put newer differs new =
      let (m', g, s) = merge_desired_index-protects r mode u h e in
      let refused =
        (concurrent_edit_kept_iff m d a (causal_context input path d) (mutation_base input d) st
            foreign live put).1
          (newer, differs, new) in
      (m', g, kept_of_refused m' d s ed refused)
