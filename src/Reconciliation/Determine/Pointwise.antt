-- ===== src/Reconciliation/Determine/Pointwise.antt =====
-- The operations of a reconciliation, path by path.
use obsidian_yandex_disk_syn.Common.{
  ◌≡◌, refl, sym, inl, inr, Bool, false, ◌||◌, Option, none, some, List, [], ◌∷◌, ◌++◌, arith,
  if◌then◌else◌, is_some, ◌==◌, nat_eq, bool_eq, option_eq, list_eq, Bool-cases, has,
}
use obsidian_yandex_disk_syn.Common.Text.{Text}
use obsidian_yandex_disk_syn.Common.Dict.{Dict, lookup}
use obsidian_yandex_disk_syn.Reconciliation.Operation.{
  keep, SyncOperation, is_active, with_causal_origin,
}
use obsidian_yandex_disk_syn.Types.{FileMetadata, FolderTombstone}
use obsidian_yandex_disk_syn.Reconciliation.Resolve.{compare_files, resolve_rest, resolve_action}
use obsidian_yandex_disk_syn.Canonical.Folder.{find_folder_tombstone}
use obsidian_yandex_disk_syn.Reconciliation.Determine.{
  Sources, add_path, add_keys, collect_all_paths, decide_operation, decide_path, push_operations,
  with_causal_origins, determine_operations,
}

compare_files-path :
    (path : Text) (here remote : FileMetadata) (base index : Option FileMetadata)
    → (compare_files path here remote base index).path ≡ path
unfolding compare_files
compare_files-path path here remote none index = ground arith
compare_files-path path here remote (some base) index = ground arith

resolve_rest-path :
    (path : Text) (here remote base index : Option FileMetadata)
    → (resolve_rest path here remote base index).path ≡ path
unfolding resolve_rest
resolve_rest-path path none none base index = ground arith
resolve_rest-path path none (some remote) none index = refl
resolve_rest-path path none (some remote) (some base) none = ground arith
resolve_rest-path path none (some remote) (some base) (some index) = ground arith
resolve_rest-path path (some here) none base none = refl
resolve_rest-path path (some here) none base (some index) = ground arith
resolve_rest-path path (some here) (some remote) base index =
    compare_files-path path here remote base index

resolve_action-path :
    (path : Text) (here remote base index : Option FileMetadata) (pending : Bool)
    → (resolve_action path here remote base index pending).path ≡ path
unfolding resolve_action
resolve_action-path path none none base index pending =
    ground (arith, resolve_rest-path path none none base index)
resolve_action-path path none (some remote) base index pending =
    ground (arith, resolve_rest-path path none (some remote) base index)
resolve_action-path path (some here) remote base index pending =
    ground (arith, resolve_rest-path path (some here) remote base index)

decide_operation-path :
    (path : Text) (tombstone : Option FolderTombstone)
    (here remote base index : Option FileMetadata) (pending : Bool)
    → (decide_operation path tombstone here remote base index pending).path ≡ path
unfolding decide_operation
decide_operation-path path none here remote base index pending =
    resolve_action-path path here remote base index pending
decide_operation-path path (some tombstone) here remote base index pending =
    ground (arith, resolve_action-path path here remote base index pending)

-- A path that no source names needs nothing.
decide_operation-absent :
    (path : Text) (tombstone : Option FolderTombstone) (pending : Bool)
    → (decide_operation path tombstone none none none none pending).action ≡ keep
unfolding decide_operation resolve_action
decide_operation-absent path none pending = refl
decide_operation-absent path (some tombstone) pending = ground arith

has-append_one :
    (paths : List Text) (p q : Text) → has (paths ++ p ∷ []) q ≡ (q == p || has paths q)
has-append_one [] p q = ground arith
has-append_one (x ∷ paths) p q = ground (arith, has-append_one paths p q)

has-add_path : (paths : List Text) (p q : Text) → has (add_path paths p) q ≡ (q == p || has paths q)
has-add_path paths p q = elim (Bool-cases (has paths p)) [
  | inl old ↦ rw old (ground arith)
  | inr new ↦ rw new (has-append_one paths p q)
]

abbrev Nodup : List Text → Type 0
Nodup [] = Unit
Nodup (path ∷ paths) = (has paths path ≡ false) × Nodup paths

Nodup-append_one :
    (paths : List Text) (p : Text) → has paths p ≡ false → Nodup paths → Nodup (paths ++ p ∷ [])
Nodup-append_one [] p new h = (refl, tt)
Nodup-append_one (x ∷ paths) p new h =
    (ground (arith, has-append_one paths p x), Nodup-append_one paths p (ground arith) h.1)

Nodup-add_path : (paths : List Text) (p : Text) → Nodup paths → Nodup (add_path paths p)
Nodup-add_path paths p h = elim (Bool-cases (has paths p)) [
  | inl old ↦ rw old h
  | inr new ↦ rw new (Nodup-append_one paths p new h)
]

Nodup-add_keys :
    (paths : List Text) (d : Dict Text FileMetadata) → Nodup paths → Nodup (add_keys paths d)
unfolding add_keys
Nodup-add_keys paths [] h = h
Nodup-add_keys paths ((p, m) ∷ d) h = Nodup-add_keys (add_path paths p) d (Nodup-add_path paths p h)

has-add_keys :
    (paths : List Text) (d : Dict Text FileMetadata) (q : Text)
    → has (add_keys paths d) q ≡ (is_some (lookup q d) || has paths q)
unfolding add_keys lookup
has-add_keys paths [] q = refl
has-add_keys paths ((p, m) ∷ d) q =
    ground (arith, has-add_keys (add_path paths p) d q, has-add_path paths p q)

-- The operations of a path.
unfoldable pub operations_at : Text → List SyncOperation → List SyncOperation
operations_at path [] = []
operations_at path (o ∷ os) =
    if o.path == path then o ∷ operations_at path os else operations_at path os

-- The decision for one path by itself, with its origin, where there is something to do.
unfoldable pub decided : Sources → Text → List SyncOperation
decided s path =
    let o = decide_path s path in
    if is_active o.action then with_causal_origin o (lookup path s.remote_index) ∷ [] else []

with_causal_origin-path :
    (o : SyncOperation) (canonical : Option FileMetadata)
    → (with_causal_origin o canonical).path ≡ o.path
unfolding with_causal_origin
with_causal_origin-path o canonical = ground arith

decide_path-path : (s : Sources) (path : Text) → (decide_path s path).path ≡ path
unfolding decide_path
decide_path-path s path =
    decide_operation-path path (find_folder_tombstone path s.folder_tombstones)
      (lookup path s.local_files) (lookup path s.remote_files) (lookup path s.local_index)
      (lookup path s.remote_index) (has s.pending_local_deletes path)

decide_path-absent :
    (s : Sources) (path : Text)
    → lookup path s.local_files ≡ none
    → lookup path s.remote_files ≡ none
    → lookup path s.local_index ≡ none
    → lookup path s.remote_index ≡ none
    → (decide_path s path).action ≡ keep
unfolding decide_path
decide_path-absent s path a b c d =
    rw (a, b, c, d)
      (decide_operation-absent path (find_folder_tombstone path s.folder_tombstones)
        (has s.pending_local_deletes path))

-- The stage after the loop keeps every path, so the operations of a path pass through it.
operations_at-pushed :
    (s : Sources) (path : Text) (paths : List Text)
    → Nodup paths
    → operations_at path (with_causal_origins s.remote_index (push_operations s paths))
      ≡ (if has paths path then decided s path else [])
unfolding operations_at push_operations with_causal_origins decided
operations_at-pushed s path [] h = refl
operations_at-pushed s path (q ∷ paths) h = elim (Bool-cases (is_active (decide_path s q).action)) [
  | inl act ↦ rw (act) (
      ground (
        arith,
        operations_at-pushed s path paths h.1,
        decide_path-path s q,
        with_causal_origin-path (decide_path s q) (lookup (decide_path s q).path s.remote_index),
      ))
  | inr idle ↦ rw (idle) (ground (arith, operations_at-pushed s path paths h.1))
]

has-all_paths :
    (s : Sources) (path : Text)
    → has (collect_all_paths s.local_files s.remote_files s.local_index s.remote_index) path ≡ (
        is_some (lookup path s.remote_index)
        || is_some (lookup path s.local_index)
        || is_some (lookup path s.remote_files)
        || is_some (lookup path s.local_files))
unfolding collect_all_paths
has-all_paths s path =
    let one = add_keys [] s.local_files in
    let two = add_keys one s.remote_files in
    let three = add_keys two s.local_index in
    ground (
      arith,
      has-add_keys three s.remote_index path,
      has-add_keys two s.local_index path,
      has-add_keys one s.remote_files path,
      has-add_keys [] s.local_files path,
    )

Nodup-all_paths :
    (s : Sources)
    → Nodup (collect_all_paths s.local_files s.remote_files s.local_index s.remote_index)
unfolding collect_all_paths
Nodup-all_paths s = Nodup-add_keys _ s.remote_index (
    Nodup-add_keys _ s.local_index
      (Nodup-add_keys _ s.remote_files (Nodup-add_keys [] s.local_files tt)))

decided-absent :
    (s : Sources) (path : Text)
    → has (collect_all_paths s.local_files s.remote_files s.local_index s.remote_index) path ≡ false
    → decided s path ≡ []
unfolding decided
decided-absent s path h =
    let keeps =
      decide_path-absent s path (ground (arith, has-all_paths s path))
        (ground (arith, has-all_paths s path)) (ground (arith, has-all_paths s path))
        (ground (arith, has-all_paths s path)) in
    rw keeps refl

-- A reconciliation decides each path on its own: for every path, the operations that it returns for
-- the path are the one decision from the four states of that path, with its origin, or none where
-- that decision is to do nothing. So a path has one operation at most, and no path is missed.
pub determine_operations_pointwise :
    (s : Sources) (path : Text) → operations_at path (determine_operations s) ≡ decided s path
unfolding determine_operations
determine_operations_pointwise s path =
    let paths = collect_all_paths s.local_files s.remote_files s.local_index s.remote_index in
    elim (Bool-cases (has paths path)) [
      | inl named ↦ rw (operations_at-pushed s path paths (Nodup-all_paths s)) (rw named refl)
      | inr absent ↦
          rw (operations_at-pushed s path paths (Nodup-all_paths s))
            (rw absent (sym (decided-absent s path absent)))
    ]
