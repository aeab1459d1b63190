-- ===== src/Tests/Mutation.antt =====
-- Single mutations.
use obsidian_yandex_disk_syn.Common.{
  ◌≡◌, refl, ◌≢◌, true, none, some, arith, nat_eq, bool_eq, option_eq, list_eq,
}
use obsidian_yandex_disk_syn.Common.Text.{codes}
use obsidian_yandex_disk_syn.Types.{FileMetadata}
use obsidian_yandex_disk_syn.Canonical.Mutation.{
  apply, idempotent, concurrent_foreign, FileMutationCausalContext, classify_file_mutation,
  merge_file_mutation,
}
use obsidian_yandex_disk_syn.Canonical.Mutation.Convergence.{
  logical_state, IsStaged, exact_delete_wins, replay_idempotent,
}
use obsidian_yandex_disk_syn.Tests.Samples.{
  phone, laptop, note, entry, dead, context, laptop_note, phone_note,
}

concurrent_put :
    classify_file_mutation (some laptop_note) phone_note 4 (some (context 0 1 (some (codes "1"))))
    ≡ concurrent_foreign
unfolding classify_file_mutation nat_eq list_eq option_eq bool_eq
concurrent_put = refl

phone_note-ne-laptop : laptop_note.last_modified_by ≢ some phone
phone_note-ne-laptop = λ h. ground arith

abbrev phone_context : FileMutationCausalContext
phone_context = context 0 1 (some (codes "1"))

abbrev laptop_context : FileMutationCausalContext
laptop_context = context 2 3 none

abbrev laptop_delete : FileMetadata
laptop_delete = dead (entry note (codes "2") laptop 3 5 4)

phone-IsStaged : IsStaged phone_note phone phone_context
phone-IsStaged = record {
  seq = 1;
  by_device = refl;
  has_seq = refl;
  positive = omega arith;
  staged = omega arith;
}

laptop-IsStaged : IsStaged laptop_delete laptop laptop_context
laptop-IsStaged = record {
  seq = 3;
  by_device = refl;
  has_seq = refl;
  positive = omega arith;
  staged = omega arith;
}

abbrev tablet_note : FileMetadata
tablet_note = entry note (codes "zero") (codes "t") 1 2 1

exact_delete_wins_example :
    let deleted_first =
      merge_file_mutation (some tablet_note) laptop_delete 4 6 phone (some laptop_context) none in
    let put_first =
      merge_file_mutation (some tablet_note) phone_note 4 6 phone (some phone_context) none in
    (logical_state
        (merge_file_mutation deleted_first phone_note 4 7 phone (some phone_context) none)
      ≡ some (codes "2", true, none))
    × (logical_state
          (merge_file_mutation put_first laptop_delete 4 7 phone (some laptop_context) none)
        ≡ some (codes "2", true, none))
exact_delete_wins_example =
    exact_delete_wins phone_note laptop_delete phone laptop phone_context laptop_context phone
      (some tablet_note) 4 4 6 7 phone-IsStaged laptop-IsStaged (λ h. ground arith) refl refl refl
      (λ h. ground arith) (λ h. ground arith) (omega arith)

phone_applies : classify_file_mutation (some tablet_note) phone_note 4 (some phone_context) ≡ apply
unfolding classify_file_mutation nat_eq list_eq option_eq bool_eq
phone_applies = refl

replay_idempotent_example :
    let accepted =
      merge_file_mutation (some tablet_note) phone_note 4 6 phone (some phone_context) none in
    (classify_file_mutation accepted phone_note 1 (some phone_context) ≡ idempotent)
    × (merge_file_mutation accepted phone_note 1 9 laptop (some phone_context) none ≡ accepted)
replay_idempotent_example =
    replay_idempotent (some tablet_note) phone_note phone phone laptop phone_context phone_context 4
      1 6 9 phone-IsStaged phone_applies
