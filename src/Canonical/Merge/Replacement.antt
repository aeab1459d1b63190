-- ===== src/Canonical/Merge/Replacement.antt =====
-- src/sync/canonical/merge.ts: the two modes that replace the canonical index.
use obsidian_yandex_disk_syn.Common.{
  ℕ, ◌+◌, ◌≡◌, refl, Bool, true, false, ◌&&◌, Option, none, some, [], ◌∷◌, arith, if◌then◌else◌,
  get_or, ◌==◌, nat_eq, bool_eq, option_eq, list_eq,
}
use obsidian_yandex_disk_syn.Common.Text.{Text}
use obsidian_yandex_disk_syn.Common.Dict.{Dict, lookup, insert, lookup-insert}
use obsidian_yandex_disk_syn.Types.{
  SyncIndex, FileMetadata, FolderTombstone, IndexMove, IndexMaintenance, EncryptionReplacement,
}
use obsidian_yandex_disk_syn.Canonical.Merge.Context.{
  CanonicalMergeInput, concurrent_modification, encryption_authority_changed, Result, returned,
  thrown, next_revision,
}

-- The stamps that a replacing index puts on each entry: the new revision, the revision that it
-- replaces, the device, and the sequence 0.
unfoldable pub stamp_file : CanonicalMergeInput → FileMetadata → FileMetadata
stamp_file input meta = record meta {
  changed_revision = some (next_revision input);
  base_revision = some input.latest.revision;
  last_modified_by = some input.device_id;
  mutation_seq = some 0;
}

unfoldable pub stamp_tombstone : CanonicalMergeInput → FolderTombstone → FolderTombstone
stamp_tombstone input tombstone = record tombstone {
  changed_revision = next_revision input;
  base_revision = input.latest.revision;
  last_modified_by = input.device_id;
  mutation_seq = some 0;
}

unfoldable pub stamp_move : CanonicalMergeInput → IndexMove → IndexMove
stamp_move input move = record move {
  changed_revision = next_revision input;
  base_revision = input.latest.revision;
  last_modified_by = input.device_id;
  mutation_seq = some 0;
}

-- `for (const value of Object.values(record)) { … }`, for a body that writes fields of the value.
unfoldable pub map_values {ℓ} : {V : Type ℓ} → (V → V) → Dict Text V → Dict Text V
map_values f [] = []
map_values f ((k, v) ∷ d) = (k, f v) ∷ map_values f d

pub lookup-map_values {ℓ} :
    {V : Type ℓ} (f : V → V) (k : Text) (d : Dict Text V)
    → lookup k (map_values f d) ≡ elim (lookup k d) [ none ↦ none | some v ↦ some (f v) ]
unfolding map_values lookup
lookup-map_values f k [] = refl
lookup-map_values f k ((j, v) ∷ d) = ground (arith, lookup-map_values f k d)

-- The maintenance of the desired index with its replacement, if it has both.
abbrev pub replacement_of :
    Option IndexMaintenance → Option (IndexMaintenance × EncryptionReplacement)
replacement_of none = none
replacement_of (some m) = elim m.replacement [ none ↦ none | some r ↦ some (m, r) ]

abbrev owns : Option IndexMaintenance → Text → Text → Bool
owns none id device = false
owns (some m) id device = m.id == id && m.initiated_by == device

-- The authority that the encryption replacement checks.
unfoldable pub has_replacement_authority :
    CanonicalMergeInput → IndexMaintenance → EncryptionReplacement → Bool
has_replacement_authority input authority r =
    owns input.latest.maintenance authority.id input.device_id
    && input.latest.epoch == r.source_epoch
    && input.desired.epoch == r.target_epoch

-- The mode "encryption-replacement".
unfoldable pub merge_encryption_replacement : CanonicalMergeInput → Result SyncIndex
unfolding has_replacement_authority stamp_file map_values
merge_encryption_replacement input = elim (replacement_of input.desired.maintenance) [
  | none ↦ thrown (concurrent_modification encryption_authority_changed)
  | some (authority, r) ↦
      if has_replacement_authority input authority r
      then returned (record (input.desired) {
        revision = next_revision input;
        folder_tombstones = [];
        moves = [];
        applied_mutation_seq = [];
        files = map_values (stamp_file input) input.desired.files;
        maintenance = some (record authority { target_revision = some (next_revision input) });
      })
      else thrown (concurrent_modification encryption_authority_changed)
]

-- The entry that keeps a file of the latest index as a deleted one.
unfoldable pub tombstone_of : ℕ → FileMetadata → FileMetadata
tombstone_of replacement_deleted_at previous = record previous {
  deleted = some true;
  deleted_at = some (get_or previous.deleted_at replacement_deleted_at);
  deleted_by_folder = none;
}

unfoldable pub add_tombstone :
    ℕ → Dict Text FileMetadata → Text × FileMetadata → Dict Text FileMetadata
unfolding tombstone_of
add_tombstone deleted_at files (path, previous) = elim (lookup path files) [
  | some _ ↦ files
  | none ↦ insert path (tombstone_of deleted_at previous) files
]

-- The loop over the files of the latest index: those that the replacement lacks become deleted.
unfoldable pub add_tombstones :
    ℕ → Dict Text FileMetadata → Dict Text FileMetadata → Dict Text FileMetadata
unfolding add_tombstone
add_tombstones deleted_at files [] = files
add_tombstones deleted_at files (entry ∷ rest) =
    add_tombstones deleted_at (add_tombstone deleted_at files entry) rest

-- The mode "replacement".
unfoldable pub merge_replacement : CanonicalMergeInput → ℕ → SyncIndex
unfolding add_tombstones stamp_file stamp_tombstone stamp_move map_values
merge_replacement input deleted_at = record (input.desired) {
  revision = next_revision input;
  files =
      map_values (stamp_file input)
        (add_tombstones deleted_at input.desired.files input.latest.files);
  folder_tombstones = map_values (stamp_tombstone input) input.desired.folder_tombstones;
  moves = map_values (stamp_move input) input.desired.moves;
}

-- What a path holds after the loop over some entries of the latest index.
abbrev pub or_tombstone : ℕ → Option FileMetadata → Option FileMetadata → Option FileMetadata
or_tombstone t (some m) p = some m
or_tombstone t none none = none
or_tombstone t none (some p) = some (tombstone_of t p)

lookup-add_tombstone :
    (t : ℕ) (path key : Text) (files : Dict Text FileMetadata) (previous : FileMetadata)
    → lookup path (add_tombstone t files (key, previous))
      ≡ or_tombstone t (lookup path files) (if key == path then some previous else none)
unfolding add_tombstone
lookup-add_tombstone t path key files previous =
    ground (arith, lookup-insert path key (tombstone_of t previous) files)

lookup-add_tombstones :
    (t : ℕ) (path : Text) (files rest : Dict Text FileMetadata)
    → lookup path (add_tombstones t files rest)
      ≡ or_tombstone t (lookup path files) (lookup path rest)
unfolding add_tombstones lookup
lookup-add_tombstones t path files [] = ground arith
lookup-add_tombstones t path files ((key, previous) ∷ rest) = ground (
  arith,
  lookup-add_tombstone t path key files previous,
  lookup-add_tombstones t path (add_tombstone t files (key, previous)) rest,
)

-- The stamps of a replacement: the new revision, the revision that it replaces, the device, and the
-- sequence 0.
abbrev pub HasStamps : CanonicalMergeInput → FileMetadata → Type 0
HasStamps input n =
    (n.changed_revision ≡ some (input.latest.revision + 1))
    × (n.base_revision ≡ some input.latest.revision)
    × (n.last_modified_by ≡ some input.device_id)
    × (n.mutation_seq ≡ some 0)

-- The entry with the stamps of another one.
abbrev pub with_stamps_of : FileMetadata → FileMetadata → FileMetadata
with_stamps_of m n = record n {
  changed_revision = m.changed_revision;
  base_revision = m.base_revision;
  last_modified_by = m.last_modified_by;
  mutation_seq = m.mutation_seq;
}

-- The entry is a deletion that no folder caused, at the time of an earlier deletion or the given one.
abbrev pub IsBuried : ℕ → FileMetadata → FileMetadata → Type 0
IsBuried t p n =
    (n.deleted ≡ some true)
    × (n.deleted_by_folder ≡ none)
    × (n.deleted_at ≡ some (elim p.deleted_at [ none ↦ t | some earlier ↦ earlier ]))

-- What a replacement makes of the entries of one path in the desired and in the latest index.
pub data IsReplaced (input : CanonicalMergeInput) (t : ℕ)
    (desired latest after : Option FileMetadata) : Type 0 where
  kept_file :
      (m n : FileMetadata)
      → desired ≡ some m
      → after ≡ some n
      → HasStamps input n
      → with_stamps_of m n ≡ m
      → IsReplaced input t desired latest after
  buried_file :
      (p n : FileMetadata)
      → desired ≡ none
      → latest ≡ some p
      → after ≡ some n
      → HasStamps input n
      → IsBuried t p n
      → with_stamps_of p (record n {
        deleted = p.deleted;
        deleted_at = p.deleted_at;
        deleted_by_folder = p.deleted_by_folder;
      })
        ≡ p
      → IsReplaced input t desired latest after
  no_file : desired ≡ none → latest ≡ none → after ≡ none → IsReplaced input t desired latest after

IsReplaced-cases :
    (input : CanonicalMergeInput) (t : ℕ) (desired latest after : Option FileMetadata)
    → after
      ≡ (elim (or_tombstone t desired latest) [ none ↦ none | some m ↦ some (stamp_file input m) ])
    → IsReplaced input t desired latest after
unfolding stamp_file tombstone_of
IsReplaced-cases input t (some m) latest after e =
    kept_file m (stamp_file input m) refl e (refl, refl, refl, refl) refl
IsReplaced-cases input t none (some p) after e =
    buried_file p (stamp_file input (tombstone_of t p)) refl refl e (refl, refl, refl, refl)
      (refl, refl, ground arith) refl
IsReplaced-cases input t none none after e = no_file refl refl e

-- A replacement keeps each file of the desired index and turns each file that only the latest
-- index has into a deletion that no folder caused, at the given time unless it was deleted before,
-- with all else of the entry as it was; no path of the two indexes is lost and none is added, and
-- every entry carries the new revision, the revision that is replaced, the device and the sequence 0.
pub lookup-merge_replacement :
    (input : CanonicalMergeInput) (t : ℕ) (path : Text)
    → IsReplaced input t
        (lookup path input.desired.files)
        (lookup path input.latest.files)
        (lookup path (merge_replacement input t).files)
unfolding merge_replacement
lookup-merge_replacement input t path = IsReplaced-cases input t _ _ _ (
    ground (
      arith,
      lookup-map_values (stamp_file input) path
          (add_tombstones t input.desired.files input.latest.files),
      lookup-add_tombstones t path input.desired.files input.latest.files,
    ))
