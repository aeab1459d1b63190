-- ===== src/Canonical/Mutation/Convergence.antt =====
-- Orders of arrival: a deletion and a concurrent put end in one state, a replay changes nothing,
-- and a concurrent edit is kept.
use obsidian_yandex_disk_syn.Common.{
  ℕ, ◌≤◌, ◌<◌, ◌≡◌, ◌≢◌, ◌↔◌, ◌⊎◌, Bool, true, false, Option, none, some, arith, get_or, truthy,
  nat_eq, bool_eq, option_eq, list_eq,
}
use obsidian_yandex_disk_syn.Common.Text.{Text}
use obsidian_yandex_disk_syn.Types.{FileMetadata}
use obsidian_yandex_disk_syn.Canonical.Mutation.{
  apply, idempotent, concurrent_foreign, FileMutationCausalContext, classify_file_mutation,
  merge_file_mutation, stamp_accepted,
}

-- What a reader of the index sees of an entry: its content, and whether and by which folder it was
-- deleted.
abbrev pub LogicalState : Type 0
LogicalState = Text × Bool × Option Text

unfoldable pub logical_state : Option FileMetadata → Option LogicalState
logical_state none = none
logical_state (some m) = some (m.sha256, truthy m.deleted, m.deleted_by_folder)

-- The entry is not of the device.
abbrev pub IsForeign : Option FileMetadata → Text → Type 0
IsForeign none device = Unit
IsForeign (some m) device = m.last_modified_by ≢ some device

-- The mutation of a device passes the guards on sequences.
pub record IsStaged (m : FileMetadata) (device : Text) (k : FileMutationCausalContext)
    : Type 0 where
  pub seq : ℕ
  pub by_device : m.last_modified_by ≡ some device
  pub has_seq : m.mutation_seq ≡ some seq
  pub positive : 0 < seq
  pub staged : seq ≤ k.desired_watermark

module _ (put del : FileMetadata) (a b : Text) (kp kd : FileMutationCausalContext) (dev : Text)
    (current : Option FileMetadata) (bp bd r s : ℕ) where
  -- A live put of one device and an exact deletion of the same file by another leave the same deleted
  -- state in both orders of arrival. Each has its device and a positive sequence up to its staged
  -- watermark, a third device wrote the entry before them, if there is one, and the base of the put is
  -- below the revision that accepts the first of the two.
  pub exact_delete_wins :
      IsStaged put a kp
      → IsStaged del b kd
      → a ≢ b
      → truthy put.deleted ≡ false
      → del.deleted ≡ some true
      → del.deleted_by_folder ≡ none
      → IsForeign current a
      → IsForeign current b
      → bp < r
      → let deleted_first = merge_file_mutation current del bd r dev (some kd) none in
        let put_first = merge_file_mutation current put bp r dev (some kp) none in
        (logical_state (merge_file_mutation deleted_first put bp s dev (some kp) none)
          ≡ some (del.sha256, true, none))
        × (logical_state (merge_file_mutation put_first del bd s dev (some kd) none)
            ≡ some (del.sha256, true, none))
  unfolding merge_file_mutation logical_state
  exact_delete_wins sp sd ne live dead exact fa fb older = ground arith

classify-stamp_accepted :
    (incoming : FileMetadata) (device dev : Text) (k : FileMutationCausalContext)
    (base base' next : ℕ)
    → IsStaged incoming device k
    → classify_file_mutation (some (stamp_accepted incoming base next dev)) incoming base' (some k)
      ≡ idempotent
unfolding classify_file_mutation stamp_accepted
classify-stamp_accepted incoming device dev k base base' next st = ground arith

merge_of_apply :
    (current : Option FileMetadata) (incoming : FileMetadata) (dev : Text)
    (k : FileMutationCausalContext) (base next : ℕ)
    → classify_file_mutation current incoming base (some k) ≡ apply
    → merge_file_mutation current incoming base next dev (some k) none
      ≡ some (stamp_accepted incoming base next dev)
unfolding merge_file_mutation
merge_of_apply current incoming dev k base next h = ground arith

merge_of_idempotent :
    (current : Option FileMetadata) (incoming : FileMetadata) (dev : Text)
    (k : FileMutationCausalContext) (base next : ℕ)
    → classify_file_mutation current incoming base (some k) ≡ idempotent
    → merge_file_mutation current incoming base next dev (some k) none ≡ current
unfolding merge_file_mutation
merge_of_idempotent current incoming dev k base next h = ground arith

-- After a mutation was applied, its replay is recognised and changes nothing, whatever its base,
-- the accepted watermark, the device that merges and the next revision are now, as long as it has a
-- device and a positive sequence up to the watermark that is staged now.
pub replay_idempotent :
    (current : Option FileMetadata) (incoming : FileMetadata) (device dev dev' : Text)
    (k k' : FileMutationCausalContext) (base base' next next' : ℕ)
    → IsStaged incoming device k'
    → classify_file_mutation current incoming base (some k) ≡ apply
    → let accepted = merge_file_mutation current incoming base next dev (some k) none in
      (classify_file_mutation accepted incoming base' (some k') ≡ idempotent)
      × (merge_file_mutation accepted incoming base' next' dev' (some k') none ≡ accepted)
replay_idempotent current incoming device dev dev' k k' base base' next next' st h =
    let again = classify-stamp_accepted incoming device dev k' base base' next st in
    rw (merge_of_apply current incoming dev k base next h)
      (again, merge_of_idempotent _ incoming dev' k' base' next' again)

-- A put over a live entry that another device wrote is refused exactly when the entry changed after the base of the put and holds neither the content of the
-- put nor the content that the put replaced.
pub concurrent_edit_kept_iff :
    (current incoming : FileMetadata) (a : Text) (k : FileMutationCausalContext) (base : ℕ)
    → IsStaged incoming a k
    → IsForeign (some current) a
    → truthy current.deleted ≡ false
    → truthy incoming.deleted ≡ false
    → (classify_file_mutation (some current) incoming base (some k) ≡ concurrent_foreign) ↔ (
        (base < get_or current.changed_revision 0)
        × (current.sha256 ≢ incoming.sha256)
        × (some current.sha256 ≢ k.baseline_sha256))
unfolding classify_file_mutation
concurrent_edit_kept_iff current incoming a k base st foreign live put =
    (λ h. ground arith, λ h. ground arith)

-- A put over an exact deletion by another device recreates the file exactly when its base includes
-- the deletion; otherwise the deletion is kept.
pub recreation_iff :
    (current incoming : FileMetadata) (a dev : Text) (k : FileMutationCausalContext) (base next : ℕ)
    → IsStaged incoming a k
    → IsForeign (some current) a
    → current.deleted ≡ some true
    → current.deleted_by_folder ≡ none
    → truthy incoming.deleted ≡ false
    → (get_or current.changed_revision 0 ≤ base)
        × (merge_file_mutation (some current) incoming base next dev (some k) none
            ≡ some (stamp_accepted incoming base next dev))
      ⊎ (base < get_or current.changed_revision 0)
        × (merge_file_mutation (some current) incoming base next dev (some k) none ≡ some current)
unfolding merge_file_mutation
recreation_iff current incoming a dev k base next st foreign dead exact live = ground arith
