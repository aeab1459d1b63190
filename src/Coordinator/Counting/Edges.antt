-- ===== src/Coordinator/Counting/Edges.antt =====
-- The edges that no counter sees.
use obsidian_yandex_disk_syn.Common.{
  ◌≡◌, ◌∙◌, true, false, Option, some, arith, nat_eq, bool_eq, option_eq, list_eq,
}
use obsidian_yandex_disk_syn.Coordinator.{
  SyncSessionKind, Phase, preparing, waiting, active, settled, released, closed, SyncCoordinator,
  hook_return, hook_reject, finish_body,
}
use obsidian_yandex_disk_syn.Coordinator.Counting.Open.{
  is_out, is_outstanding, is_closed, is_open_full, is_stray, Inv,
}
use obsidian_yandex_disk_syn.Coordinator.Counting.Moves.{Moved, to_queue, to_aborted, to_active}

-- An edge on which no counter depends.
abbrev pub Neutral : (SyncSessionKind → Phase → Option Phase) → Type 0
Neutral next =
    (kind : SyncSessionKind) (a b : Phase)
    → next kind a ≡ some b
    → (is_out a ≡ is_out b) × (is_closed a ≡ is_closed b)

pub Moved-Inv :
    (next : SyncSessionKind → Phase → Option Phase) (c d : SyncCoordinator)
    → Neutral next
    → Moved next c d
    → d.pending_work ≡ c.pending_work
    → d.pending_full ≡ c.pending_full
    → Inv c
    → Inv d
Moved-Inv next c d n m w f inv =
    let (o, k) = n m.session.kind m.session.phase m.phase m.enabled in
    record {
      fresh = m.fresh ∙ inv.fresh;
      work = ground (arith, m.counts is_outstanding, inv.work);
      one_full = ground (arith, m.counts is_open_full, inv.one_full);
      joined = ground (arith, m.counts (is_stray d.pending_full), inv.joined);
    }

pub to_queue-Neutral : Neutral to_queue
to_queue-Neutral kind preparing b h = ground arith
to_queue-Neutral kind (waiting true) b h = cc
to_queue-Neutral kind (waiting false) b h = cc
to_queue-Neutral kind active b h = cc
to_queue-Neutral kind settled b h = cc
to_queue-Neutral kind released b h = cc
to_queue-Neutral kind closed b h = cc

pub to_aborted-Neutral : Neutral to_aborted
to_aborted-Neutral kind preparing b h = ground arith
to_aborted-Neutral kind (waiting true) b h = cc
to_aborted-Neutral kind (waiting false) b h = cc
to_aborted-Neutral kind active b h = cc
to_aborted-Neutral kind settled b h = cc
to_aborted-Neutral kind released b h = cc
to_aborted-Neutral kind closed b h = cc

pub hook_return-Neutral : Neutral hook_return
hook_return-Neutral kind preparing b h = cc
hook_return-Neutral kind (waiting true) b h = cc
hook_return-Neutral kind (waiting false) b h = ground arith
hook_return-Neutral kind active b h = cc
hook_return-Neutral kind settled b h = cc
hook_return-Neutral kind released b h = cc
hook_return-Neutral kind closed b h = cc

pub hook_reject-Neutral : Neutral hook_reject
hook_reject-Neutral kind preparing b h = cc
hook_reject-Neutral kind (waiting true) b h = cc
hook_reject-Neutral kind (waiting false) b h = ground arith
hook_reject-Neutral kind active b h = cc
hook_reject-Neutral kind settled b h = cc
hook_reject-Neutral kind released b h = cc
hook_reject-Neutral kind closed b h = cc

pub to_active-Neutral : Neutral to_active
to_active-Neutral kind preparing b h = cc
to_active-Neutral kind (waiting true) b h = ground arith
to_active-Neutral kind (waiting false) b h = cc
to_active-Neutral kind active b h = cc
to_active-Neutral kind settled b h = cc
to_active-Neutral kind released b h = cc
to_active-Neutral kind closed b h = cc

pub finish_body-Neutral : Neutral finish_body
finish_body-Neutral kind preparing b h = cc
finish_body-Neutral kind (waiting true) b h = cc
finish_body-Neutral kind (waiting false) b h = cc
finish_body-Neutral kind active b h = ground arith
finish_body-Neutral kind settled b h = cc
finish_body-Neutral kind released b h = cc
finish_body-Neutral kind closed b h = cc
