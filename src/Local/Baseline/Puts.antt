-- ===== src/Local/Baseline/Puts.antt =====
-- Pending puts: the index by path and content against the list, and the backward search.
use obsidian_yandex_disk_syn.Common.{
  ◌≡◌, refl, ap, ◌∙◌, subst, ◌&&◌, Option, none, some, List, [], ◌∷◌, ◌++◌, arith, if◌then◌else◌,
  get_or, ◌==◌, nat_eq, bool_eq, option_eq, list_eq,
}
use obsidian_yandex_disk_syn.Common.Text.{Text}
use obsidian_yandex_disk_syn.Common.Dict.{lookup, insert, lookup-insert, lookup-nil}
use obsidian_yandex_disk_syn.Types.{PendingMutation}
use obsidian_yandex_disk_syn.Local.Baseline.{is_put, PendingPutLookup, add, index_puts, get}

-- The reference: the last put of the list at the path with the content.
abbrev pub last_put :
    Option PendingMutation → List PendingMutation → Text → Option Text → Option PendingMutation
last_put found [] path sha = found
last_put found (m ∷ ms) path sha =
    last_put (if is_put m.type && m.path == path && m.sha256 == sha then some m else found) ms path
      sha

get-add :
    (by_path : PendingPutLookup) (m : PendingMutation) (path : Text) (sha : Option Text)
    → get (add by_path m) path sha ≡ (
        if is_put m.type && m.path == path && m.sha256 == sha then some m else get by_path path sha)
unfolding get add
get-add by_path m path sha = ground (
  arith,
  lookup-insert path m.path (insert m.sha256 m (get_or (lookup m.path by_path) [])) by_path,
  lookup-insert sha m.sha256 m (get_or (lookup m.path by_path) []),
  lookup-nil {V = PendingMutation} sha,
)

get-index_puts :
    (by_path : PendingPutLookup) (ms : List PendingMutation) (path : Text) (sha : Option Text)
    → get (index_puts by_path ms) path sha ≡ last_put (get by_path path sha) ms path sha
unfolding index_puts
get-index_puts by_path [] path sha = refl
get-index_puts by_path (m ∷ ms) path sha =
    get-index_puts (add by_path m) ms path sha
    ∙ ap (λ found. last_put found ms path sha) (get-add by_path m path sha)

index_puts-append :
    (by_path : PendingPutLookup) (ms : List PendingMutation) (m : PendingMutation)
    → index_puts by_path (ms ++ m ∷ []) ≡ add (index_puts by_path ms) m
unfolding index_puts
index_puts-append by_path [] m = refl
index_puts-append by_path (x ∷ ms) m = index_puts-append (add by_path x) ms m

get-index_puts_empty :
    (ms : List PendingMutation) (path : Text) (sha : Option Text)
    → get (index_puts [] ms) path sha ≡ last_put none ms path sha
unfolding get lookup
get-index_puts_empty ms path sha = get-index_puts [] ms path sha

-- The index built from a list of mutations answers with the last put of the list at the path with
-- the content, as a scan of the list would, and a mutation added later answers for itself.
pub PendingPutLookup_lem :
    (ms : List PendingMutation) (m : PendingMutation) (path : Text) (sha : Option Text)
    → (get (index_puts [] ms) path sha ≡ last_put none ms path sha)
      × (get (add (index_puts [] ms) m) path sha ≡ last_put none (ms ++ m ∷ []) path sha)
PendingPutLookup_lem ms m path sha = (
  get-index_puts_empty ms path sha,
  subst (λ d. get d path sha ≡ last_put none (ms ++ m ∷ []) path sha) (index_puts-append [] ms m)
      (get-index_puts_empty (ms ++ m ∷ []) path sha),
)
