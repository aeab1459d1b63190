-- ===== src/Canonical/Merge/Runs.antt =====
-- The steps that a successful ordinary merge went through, and the invariant at its last one.
use obsidian_yandex_disk_syn.Common.{◌≡◌, sym, ◌⊎◌, arith, nat_eq, bool_eq, option_eq, list_eq}
use obsidian_yandex_disk_syn.Canonical.Merge.Context.{
  CanonicalMergeMode, normal, physical_rewrite, CanonicalMergeInput, Progress, returned,
  >>=-eq-returned, returned-injective,
}
use obsidian_yandex_disk_syn.Canonical.Merge.Authority.{
  start, check_maintenance, adopt_receipt, check_ownership,
}
use obsidian_yandex_disk_syn.Canonical.Merge.Files.{merge_files}
use obsidian_yandex_disk_syn.Canonical.Merge.Logs.{merge_folders, merge_moves}
use obsidian_yandex_disk_syn.Canonical.Merge.Progressing.{
  Kept, start-Kept, adopt_receipt-Kept, merge_files-Kept, merge_tombstones-Kept, merge_moves-Kept,
}
use obsidian_yandex_disk_syn.Canonical.Merge.Reduce.{
  finish, merge_ordinary, merge_in_mode, merge_latest, reduce_in, as_result, CanonicalMergeResult,
  merge_desired_index,
}

-- The mode merges the desired entries one by one.
abbrev pub IsOrdinary : CanonicalMergeMode → Type 0
IsOrdinary mode = (mode ≡ normal) ⊎ (mode ≡ physical_rewrite)

pub record OrdinarySteps (input : CanonicalMergeInput) (p q : Progress) : Type 0 where
  pub with_files : Progress
  pub with_folders : Progress
  pub with_moves : Progress
  pub files_merged : merge_files input p input.desired.files ≡ returned with_files
  pub folders_merged : merge_folders input with_files ≡ returned with_folders
  pub moves_merged : merge_moves input with_folders input.desired.moves ≡ returned with_moves
  pub closed : q ≡ finish input with_moves

pub record OrdinaryRun (input : CanonicalMergeInput) (r : CanonicalMergeResult) : Type 0 where
  pub adopted : Progress
  pub last : Progress
  pub adopts : adopt_receipt input (start input) ≡ returned adopted
  pub steps : OrdinarySteps input adopted last
  pub open steps use *
  pub answers : r ≡ as_result last

module _ (input : CanonicalMergeInput) where
  pub steps_of_ordinary :
      (p q : Progress) → merge_ordinary input p ≡ returned q → OrdinarySteps input p q
  unfolding merge_ordinary
  steps_of_ordinary p q h =
      let (_, _, h₁) = >>=-eq-returned (check_ownership input) _ h in
      let (f, ef, h₂) = >>=-eq-returned (merge_files input p input.desired.files) _ h₁ in
      let (t, et, h₃) = >>=-eq-returned (merge_folders input f) _ h₂ in
      let (m, em, h₄) = >>=-eq-returned (merge_moves input t input.desired.moves) _ h₃ in
      record {
        with_files = f;
        with_folders = t;
        with_moves = m;
        files_merged = ef;
        folders_merged = et;
        moves_merged = em;
        closed = sym (returned-injective h₄);
      }

  pub OrdinarySteps-Kept :
      {p q : Progress} (run : OrdinarySteps input p q) → Kept input p → Kept input run.with_moves
  unfolding merge_folders
  OrdinarySteps-Kept {p} run k =
      let kf = merge_files-Kept input p run.with_files input.desired.files k run.files_merged in
      let kt =
        merge_tombstones-Kept input _ run.with_files run.with_folders
          input.desired.folder_tombstones kf run.folders_merged in
      merge_moves-Kept input run.with_folders run.with_moves input.desired.moves kt run.moves_merged

  ordinary_in_mode :
      (mode : CanonicalMergeMode) (p q : Progress)
      → IsOrdinary mode
      → merge_in_mode input mode p ≡ returned q
      → merge_ordinary input p ≡ returned q
  unfolding merge_in_mode
  ordinary_in_mode normal p q m h = h
  ordinary_in_mode physical_rewrite p q m h = h
  ordinary_in_mode _ p q m h = absurd (ground arith)

  latest_in_mode :
      (mode : CanonicalMergeMode) (r : CanonicalMergeResult)
      → IsOrdinary mode
      → reduce_in input mode ≡ returned r
      → (q : Progress) × (merge_latest input ≡ returned q) × (r ≡ as_result q)
  unfolding reduce_in
  latest_in_mode normal r m h =
      let (q, e, f) = >>=-eq-returned (merge_latest input) _ h in (q, e, sym (returned-injective f))
  latest_in_mode physical_rewrite r m h =
      let (q, e, f) = >>=-eq-returned (merge_latest input) _ h in (q, e, sym (returned-injective f))
  latest_in_mode _ r m h = absurd (ground arith)

  pub ordinary_run :
      (r : CanonicalMergeResult)
      → IsOrdinary input.mode
      → merge_desired_index input ≡ returned r
      → OrdinaryRun input r
  unfolding merge_desired_index merge_latest
  ordinary_run r m h =
      let (q, eq, same) = latest_in_mode input.mode r m h in
      let (_, _, h₁) = >>=-eq-returned (check_maintenance input) _ eq in
      let (p, ep, h₂) = >>=-eq-returned (adopt_receipt input (start input)) _ h₁ in
      record {
        adopted = p;
        last = q;
        adopts = ep;
        steps = steps_of_ordinary p q (ordinary_in_mode input.mode p q m h₂);
        answers = same;
      }

  pub OrdinaryRun-Kept :
      {r : CanonicalMergeResult} (run : OrdinaryRun input r) → Kept input run.with_moves
  OrdinaryRun-Kept run =
      OrdinarySteps-Kept run.steps
        (adopt_receipt-Kept input (start input) run.adopted (start-Kept input) run.adopts)
