-- ===== src/Realtime/Rename/Chains.antt =====
-- Chains of renames: what `reduceRenameChain` does to the queue of renames.
use obsidian_yandex_disk_syn.Common.{
  ◌≡◌, refl, ◌≢◌, ◌⊎◌, inl, inr, Bool, true, false, none, some, List, [], ◌∷◌, ◌++◌, map, arith,
  nat_eq, bool_eq, option_eq, list_eq, Bool-cases, Option-cases, any, filter, find, has,
}
use obsidian_yandex_disk_syn.Common.Text.{Text}
use obsidian_yandex_disk_syn.Realtime.Events.{RenameEvent}
use obsidian_yandex_disk_syn.Realtime.Rename.{
  leads_to, rebase_first, reduce_rename_chain, queued, rebased,
}

module _ {T : Type 0} ⦃r : RenameEvent T⦄ (running_ids : List Text) where
  abbrev pub is_running : T → Bool
  is_running event = has running_ids (r.rename_id event)

  -- The queue after a rename that continues the chain of a queued one, which does not run.
  pub record Rebase (existing events : List T) (incoming : T) : Type 0 where
    pub same_ids : map r.rename_id events ≡ map r.rename_id existing
    pub same_sources : map r.source events ≡ map r.source existing
    pub same_running : filter is_running events ≡ filter is_running existing
    pub leads_on : any (leads_to (r.target incoming)) events ≡ true

  rebase_first-Rebase :
      (existing : List T) (incoming predecessor : T)
      → find (leads_to (r.source incoming)) existing ≡ some predecessor
      → is_running predecessor ≡ false
      → Rebase existing (rebase_first existing (r.source incoming) (r.target incoming)) incoming
  unfolding rebase_first
  rebase_first-Rebase [] incoming predecessor h k = absurd (ground arith)
  rebase_first-Rebase (event ∷ events) incoming predecessor h k =
      elim (Bool-cases (leads_to (r.source incoming) event)) [
        | inl e ↦
            let same : event ≡ predecessor = ground arith in
            let id = r.rename_id-with_target event (r.target incoming) in
            let from = r.source-with_target event (r.target incoming) in
            let to = r.target-with_target event (r.target incoming) in
            record {
              same_ids = ground arith;
              same_sources = ground arith;
              same_running = ground arith;
              leads_on = ground arith;
            }
        | inr e ↦
            let rest = rebase_first-Rebase events incoming predecessor (ground arith) k in
            let ids = rest.same_ids in
            let sources = rest.same_sources in
            let runs = rest.same_running in
            let leads = rest.leads_on in
            record {
              same_ids = ground arith;
              same_sources = ground arith;
              same_running = ground arith;
              leads_on = ground arith;
            }
      ]

  -- Either a rename is rebased: the queue keeps its identities, its sources and its running renames,
  -- and one of its renames leads to the new target. Or it stands at the end of the queue as it is, and
  -- is then queued as the start of a chain only where no rename leads to its source.
  pub reduce_rename_chain_lem :
      (existing : List T) (incoming : T)
      → let chain = reduce_rename_chain existing incoming running_ids in
        ((chain.disposition ≡ rebased) × Rebase existing chain.events incoming)
        ⊎ ((chain.disposition ≢ rebased)
            × (chain.events ≡ existing ++ incoming ∷ [])
            × (chain.disposition ≡ queued → find (leads_to (r.source incoming)) existing ≡ none))
  unfolding reduce_rename_chain
  reduce_rename_chain_lem existing incoming =
      elim (Option-cases (find (leads_to (r.source incoming)) existing)) [
        | inl e ↦ rw (reduce_rename_chain, e) (inr ((λ h. cc), refl, (λ h. refl)))
        | inr (predecessor, e) ↦ elim (Bool-cases (is_running predecessor)) [
          | inl k ↦ rw (reduce_rename_chain, e) (rw k (inr ((λ h. cc), refl, (λ h. cc))))
          | inr k ↦
              rw (reduce_rename_chain, e)
                (rw k (inl (refl, rebase_first-Rebase existing incoming predecessor e k)))
        ]
      ]
