-- ===== src/Local/Baseline.antt =====
-- src/sync/local/baseline-rules.ts: the last state of a path that this device confirmed.
pub mod Confirmed
pub mod Puts
use obsidian_yandex_disk_syn.Common.{
  ℕ, zero, suc, ◌+◌, ◌-◌, ◌≤◌, ◌<◌, ◌≡◌, refl, sym, ap, ◌∙◌, subst, ◌≢◌, ◌↔◌, ◌⊎◌, inl, inr, Bool,
  true, false, not, ◌&&◌, ◌||◌, Option, none, some, List, [], ◌∷◌, ◌++◌, map, arith, ltb, leb,
  if◌then◌else◌, get_or, truthy, truthy_list, is_some, ◌==◌, ◌!=◌, nat_eq, bool_eq, option_eq,
  list_eq, Bool-cases, Option-cases, length, length-append, any, all, filter, find, last, All, Some,
  has, eq_of_test, test_self, Eq, max, min,
}
use obsidian_yandex_disk_syn.Common.Text.{
  Text, codes, strip_prefix, starts_with, strip_prefix-append, append-strip_prefix, trim_slashes,
  split_slash, join_slash,
}
use obsidian_yandex_disk_syn.Common.Dict.{
  Dict, lookup, insert, erase, NodupKeys, lookup-insert, lookup-insert_self, lookup-erase,
}
use mathlib.Core.List.{reverse}
use obsidian_yandex_disk_syn.Types.{
  FileMetadata, PendingMutation, PendingMutationType, put, noop, delete_file, delete_folder, move,
}

-- `hasLocalContentChanged`
unfoldable pub has_local_content_changed : FileMetadata → Option FileMetadata → Bool
has_local_content_changed here none = true
has_local_content_changed here (some baseline) = here.sha256 != baseline.sha256

-- `hasCanonicalMetadataChanged`
unfoldable pub has_canonical_metadata_changed : Option FileMetadata → FileMetadata → Bool
has_canonical_metadata_changed none baseline = true
has_canonical_metadata_changed (some canonical) baseline =
    canonical.deleted != baseline.deleted || canonical.sha256 != baseline.sha256

-- The comparison of two optional identities, where it is possible.
abbrev differ_if_known {ℓ} : {A : Type ℓ} ⦃e : Eq A⦄ → Option A → Option A → Option Bool
differ_if_known none _ = none
differ_if_known (some a) none = none
differ_if_known (some a) (some b) = some (a != b)

-- `getRemotePhysicalDrift`: `none` is the answer `null`.
unfoldable pub get_remote_physical_drift : FileMetadata → Option FileMetadata → Option Bool
get_remote_physical_drift remote none = some true
get_remote_physical_drift remote (some baseline) =
    elim (differ_if_known baseline.remote_fingerprint remote.remote_fingerprint) [
      | some drift ↦ some drift
      | none ↦ differ_if_known baseline.remote_mtime remote.remote_mtime
    ]

-- `canonical?.field`
abbrev field_of {ℓ} : {A : Type ℓ} → (FileMetadata → Option A) → Option FileMetadata → Option A
field_of field none = none
field_of field (some m) = field m

-- `createConfirmedBaseline`
unfoldable pub create_confirmed_baseline :
    FileMetadata → FileMetadata → Option FileMetadata → FileMetadata
create_confirmed_baseline here remote canonical = record here {
  remote_mtime = remote.remote_mtime;
  remote_fingerprint = remote.remote_fingerprint;
  changed_revision = field_of (λ m. m.changed_revision) canonical;
  base_revision = field_of (λ m. m.base_revision) canonical;
  last_modified_by = field_of (λ m. m.last_modified_by) canonical;
  mutation_seq = field_of (λ m. m.mutation_seq) canonical;
  deleted = some false;
  deleted_at = none;
  deleted_by_folder = none;
}

-- The three logical fields by which `mergePhysicalMetadata` compares.
abbrev same_logical : FileMetadata → FileMetadata → Bool
same_logical current baseline =
    current.deleted == baseline.deleted
    && current.sha256 == baseline.sha256
    && current.changed_revision == baseline.changed_revision

-- `mergePhysicalMetadata`
unfoldable pub merge_physical_metadata :
    Option FileMetadata → Option FileMetadata → FileMetadata → Option FileMetadata
merge_physical_metadata none baseline desired = none
merge_physical_metadata (some current) none desired = none
merge_physical_metadata (some current) (some baseline) desired =
    if same_logical current baseline
    then some (record current {
      remote_mtime = desired.remote_mtime;
      remote_fingerprint = desired.remote_fingerprint;
    })
    else none

abbrev pub is_put : PendingMutationType → Bool
is_put put = true
is_put _ = false

-- The backward loop of `findLatestPutBaselineSha`, over the mutations from the last one on.
unfoldable pub first_put_baseline : List PendingMutation → Text → Option Text
first_put_baseline [] path = none
first_put_baseline (m ∷ ms) path =
    let rest = first_put_baseline ms path in
    if is_put m.type && m.path == path then m.baseline_sha256 else rest

-- `findLatestPutBaselineSha`
unfoldable pub find_latest_put_baseline_sha : List PendingMutation → Text → Option Text
unfolding first_put_baseline
find_latest_put_baseline_sha mutations path = first_put_baseline (reverse mutations) path

-- `PendingPutLookup.byPath`
abbrev pub PendingPutLookup : Type 0
PendingPutLookup = Dict Text (Dict (Option Text) PendingMutation)

-- `PendingPutLookup.add`
unfoldable pub add : PendingPutLookup → PendingMutation → PendingPutLookup
add by_path m =
    if is_put m.type
    then insert m.path (insert m.sha256 m (get_or (lookup m.path by_path) [])) by_path
    else by_path

-- The constructor of `PendingPutLookup`.
unfoldable pub index_puts : PendingPutLookup → List PendingMutation → PendingPutLookup
unfolding add
index_puts by_path [] = by_path
index_puts by_path (m ∷ ms) = index_puts (add by_path m) ms

-- `PendingPutLookup.get`
unfoldable pub get : PendingPutLookup → Text → Option Text → Option PendingMutation
get by_path path sha = elim (lookup path by_path) [ none ↦ none | some by_sha ↦ lookup sha by_sha ]
