-- ===== src/Canonical/Merge/Fate.antt =====
-- What becomes of each file entry in an ordinary merge.
use obsidian_yandex_disk_syn.Canonical.Merge.Rounds.{file_at, FileFate, merge_files-fate}
use obsidian_yandex_disk_syn.Canonical.Merge.Touched.{TouchedOrSame, merge_folders-touched}
use obsidian_yandex_disk_syn.Common.{
  ℕ, ◌≡◌, refl, sym, ap, ◌∙◌, subst, Option, List, [], ◌∷◌, arith, nat_eq, bool_eq, option_eq,
  list_eq,
}
use obsidian_yandex_disk_syn.Common.Text.{Text}
use obsidian_yandex_disk_syn.Common.Dict.{Dict, lookup, NodupKeys}
use obsidian_yandex_disk_syn.Types.{FileMetadata, IndexMove}
use obsidian_yandex_disk_syn.Canonical.Merge.Context.{
  CanonicalMergeInput, Progress, returned, >>=-eq-returned, returned-injective,
}
use obsidian_yandex_disk_syn.Canonical.Merge.Authority.{
  start, adopt_receipt, set_maintenance, close,
}
use obsidian_yandex_disk_syn.Canonical.Merge.Logs.{
  merge_move, merge_moves, complete_move, complete_moves, raise_watermark, raise_watermarks,
}
use obsidian_yandex_disk_syn.Canonical.Merge.Reduce.{
  settle_maintenance, finish, as_result, CanonicalMergeResult, merge_desired_index,
}
use obsidian_yandex_disk_syn.Canonical.Merge.Runs.{IsOrdinary, ordinary_run}

abbrev files_of : Progress → Dict Text FileMetadata
files_of p = p.index.files

module _ (input : CanonicalMergeInput) where
  merge_move-files :
      (p q : Progress) (entry : Text × IndexMove)
      → merge_move input p entry ≡ returned q
      → files_of q ≡ files_of p
  unfolding merge_move
  merge_move-files p q (id, move) h = ground arith

  merge_moves-files :
      (p q : Progress) (entries : Dict Text IndexMove)
      → merge_moves input p entries ≡ returned q
      → files_of q ≡ files_of p
  unfolding merge_moves
  merge_moves-files p q [] h = ap files_of (sym (returned-injective h))
  merge_moves-files p q (entry ∷ rest) h =
      let (next, e, f) = >>=-eq-returned (merge_move input p entry) _ h in
      merge_moves-files next q rest f ∙ merge_move-files p next entry e

  complete_moves-files :
      (p : Progress) (ids : List Text) → files_of (complete_moves p ids) ≡ files_of p
  unfolding complete_moves complete_move
  complete_moves-files p [] = refl
  complete_moves-files p (id ∷ ids) = complete_moves-files (complete_move p id) ids ∙ ground arith

  raise_watermarks-files :
      (p : Progress) (entries : Dict Text ℕ) → files_of (raise_watermarks p entries) ≡ files_of p
  unfolding raise_watermarks raise_watermark
  raise_watermarks-files p [] = refl
  raise_watermarks-files p ((device, seq) ∷ rest) =
      raise_watermarks-files (raise_watermark p (device, seq)) rest ∙ ground arith

  finish-files : (p : Progress) → files_of (finish input p) ≡ files_of p
  unfolding finish settle_maintenance set_maintenance close
  finish-files p =
      let done = complete_moves p input.completed_move_ids in
      let same = complete_moves-files p input.completed_move_ids in
      let raised = raise_watermarks-files done input.desired.applied_mutation_seq in ground arith

  adopt_receipt-files :
      (p : Progress)
      → adopt_receipt input (start input) ≡ returned p
      → files_of p ≡ input.latest.files
  unfolding adopt_receipt start
  adopt_receipt-files p h = ground arith

pub merge_desired_index-fate :
    (input : CanonicalMergeInput) (path : Text) (r : CanonicalMergeResult)
    → IsOrdinary input.mode
    → NodupKeys input.desired.files
    → merge_desired_index input ≡ returned r
    → (f : Option FileMetadata) × FileFate input path input.desired.files
        (lookup path input.latest.files)
        f
      × TouchedOrSame input path input.desired.folder_tombstones f (lookup path r.index.files)
merge_desired_index-fate input path r m u h =
    let run = ordinary_run input r m h in
    let start_files = adopt_receipt-files input run.adopted run.adopts in
    let end_files =
      ap (λ (r : CanonicalMergeResult). r.index.files) (run.answers ∙ ap as_result run.closed)
      ∙ finish-files input run.with_moves
      ∙ merge_moves-files input run.with_folders run.with_moves input.desired.moves
          run.moves_merged in
    (
      file_at path run.with_files,
      subst
          (λ files.
            FileFate input path input.desired.files (lookup path files)
              (file_at path run.with_files))
          start_files
          (merge_files-fate input path run.adopted run.with_files input.desired.files u
            run.files_merged),
      subst
          (λ files.
            TouchedOrSame input path input.desired.folder_tombstones (file_at path run.with_files)
              (lookup path files))
          (sym end_files)
          (merge_folders-touched input path run.with_files run.with_folders run.folders_merged),
    )
