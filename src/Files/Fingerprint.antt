-- ===== src/Files/Fingerprint.antt =====
-- src/utils/resource-fingerprint.ts: identities of a resource on the disk.
use obsidian_yandex_disk_syn.Common.{
  ℕ, ◌≡◌, Bool, true, false, ◌&&◌, Option, none, some, [], ◌∷◌, ◌++◌, arith, if◌then◌else◌, ◌==◌,
  nat_eq, bool_eq, option_eq, list_eq, any,
}
use obsidian_yandex_disk_syn.Common.Text.{Text, codes, strip_prefix}
use obsidian_yandex_disk_syn.Types.{YandexResource}

abbrev pub sha256_prefix : Text
sha256_prefix = codes "sha256:"

abbrev pub md5_prefix : Text
md5_prefix = codes "md5:"

-- A text field of a resource as a condition: it is there and not empty.
abbrev pub non_empty : Option Text → Option Text
non_empty none = none
non_empty (some []) = none
non_empty (some (c ∷ s)) = some (c ∷ s)

-- `a ?? b`
abbrev pub or_else {ℓ} : {A : Type ℓ} → Option A → Option A → Option A
or_else none b = b
or_else (some a) b = some a

-- `a && b`, for two such fields.
abbrev both : Option Text → Option Text → Option (Text × Text)
both a b = elim (non_empty a) [
  | none ↦ none
  | some x ↦ elim (non_empty b) [ none ↦ none | some y ↦ some (x, y) ]
]

module _ (print_size : Option ℕ → Text) where
  -- `getStableContentFingerprint`: `print_size` writes `resource.size ?? -1`.
  unfoldable pub get_stable_content_fingerprint : Option YandexResource → Option Text
  get_stable_content_fingerprint none = none
  get_stable_content_fingerprint (some r) = elim (non_empty r.sha256) [
    | some sha ↦ some (sha256_prefix ++ sha)
    | none ↦ elim (non_empty r.md5) [
      | some md5 ↦ some (md5_prefix ++ md5)
      | none ↦ elim (non_empty (some r.modified)) [
        | some time ↦ some (codes "modified:" ++ time ++ codes ":size:" ++ print_size r.size)
        | none ↦ none
      ]
    ]
  ]

  -- `matchesStableContentFingerprint`
  unfoldable pub matches_stable_content_fingerprint : Option Text → Option YandexResource → Bool
  unfolding get_stable_content_fingerprint
  matches_stable_content_fingerprint expected none = false
  matches_stable_content_fingerprint expected (some r) = elim (non_empty expected) [
    | none ↦ false
    | some wanted ↦ elim (strip_prefix sha256_prefix wanted) [
      | some sha ↦ r.sha256 == some sha
      | none ↦ elim (strip_prefix md5_prefix wanted) [
        | some md5 ↦ r.md5 == some md5
        | none ↦ get_stable_content_fingerprint (some r) == some wanted
      ]
    ]
  ]

  -- A fingerprint that the disk gave for a resource matches that resource.
  pub matches-get_stable_content_fingerprint :
      (r : YandexResource) (f : Text)
      → get_stable_content_fingerprint (some r) ≡ some f
      → matches_stable_content_fingerprint (some f) (some r) ≡ true
  unfolding get_stable_content_fingerprint matches_stable_content_fingerprint
  matches-get_stable_content_fingerprint r f h = ground arith

-- `getPhysicalResourceFingerprint`
unfoldable pub get_physical_resource_fingerprint : Option YandexResource → Option Text
get_physical_resource_fingerprint none = none
get_physical_resource_fingerprint (some r) =
    or_else r.sha256 (or_else r.md5 (or_else r.resource_id (some r.modified)))

-- `matchesPhysicalResourceFingerprint`
unfoldable pub matches_physical_resource_fingerprint : Option Text → Option YandexResource → Bool
matches_physical_resource_fingerprint expected none = false
matches_physical_resource_fingerprint expected (some r) = elim (non_empty expected) [
  | none ↦ false
  | some wanted ↦
      any (λ candidate. candidate == some wanted)
        (r.sha256 ∷ r.md5 ∷ r.resource_id ∷ some r.modified ∷ [])
]

-- `getMatchingStableContentFingerprint`
unfoldable pub get_matching_stable_content_fingerprint :
    (Option ℕ → Text) → YandexResource → YandexResource → Option Text
get_matching_stable_content_fingerprint print_size before after =
    elim (both before.sha256 after.sha256) [
      | some (a, b) ↦ if a == b then some (sha256_prefix ++ b) else none
      | none ↦ elim (both before.md5 after.md5) [
        | some (a, b) ↦ if a == b then some (md5_prefix ++ b) else none
        | none ↦ elim (both (some before.modified) (some after.modified)) [
          | some (a, b) ↦
              if a == b && before.size == after.size
              then some (codes "modified:" ++ b ++ codes ":size:" ++ print_size after.size)
              else none
          | none ↦ none
        ]
      ]
    ]
