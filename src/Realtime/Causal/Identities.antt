-- ===== src/Realtime/Causal/Identities.antt =====
-- The identities of mutations against the watermarks of the canonical index.
use obsidian_yandex_disk_syn.Common.{
  ℕ, ◌≤◌, ◌≡◌, ◌↔◌, true, none, some, ◌∷◌, ◌++◌, arith, get_or, nat_eq, bool_eq, option_eq, list_eq,
}
use obsidian_yandex_disk_syn.Common.Text.{Text, cut_last, cut_last-append}
use obsidian_yandex_disk_syn.Common.Dict.{Dict, lookup}
use obsidian_yandex_disk_syn.Realtime.Causal.{is_mutation_identity_applied}

-- A mutation of a device, named by the device, a colon and a counter with no colon, counts as
-- applied exactly if the watermark of the device has reached its sequence; the name of the device is
-- not empty, and may itself contain colons.
pub is_mutation_identity_applied_iff :
    (c : ℕ) (device counter : Text) (seq : ℕ) (applied : Dict Text ℕ)
    → cut_last b':' counter ≡ none
    → (is_mutation_identity_applied (some ((c ∷ device) ++ b':' ∷ counter)) (some seq) applied
        ≡ true)
      ↔ (seq ≤ get_or (lookup (c ∷ device) applied) 0)
unfolding is_mutation_identity_applied
is_mutation_identity_applied_iff c device counter seq applied h =
    let e = cut_last-append b':' (c ∷ device) counter h in (λ k. ground arith, λ k. ground arith)
