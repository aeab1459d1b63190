-- ===== src/Canonical/Merge/Rounds.antt =====
-- What the loop over files does to the entry of one path.
use obsidian_yandex_disk_syn.Common.{
  ◌≡◌, sym, ap, subst, inl, inr, false, Option, none, some, [], ◌∷◌, arith, ◌==◌, nat_eq, bool_eq,
  option_eq, list_eq, Bool-cases, eq_of_test,
}
use obsidian_yandex_disk_syn.Common.Text.{Text}
use obsidian_yandex_disk_syn.Common.Dict.{
  Dict, lookup, NodupKeys, lookup-insert, lookup-insert_self,
}
use obsidian_yandex_disk_syn.Types.{FileMetadata, folder_tombstone_eq}
use obsidian_yandex_disk_syn.Canonical.Merge.Context.{
  CanonicalMergeInput, Progress, returned, >>=-eq-returned, returned-injective,
}
use obsidian_yandex_disk_syn.Canonical.Merge.Authority.{put_file}
use obsidian_yandex_disk_syn.Canonical.Merge.Files.{merge_file, merge_files}
use obsidian_yandex_disk_syn.Canonical.Merge.Steps.{Written, Round, idle, wrote, merge_file-Round}

abbrev pub file_at : Text → Progress → Option FileMetadata
file_at path p = lookup path p.index.files

-- The file loop leaves an entry as it was, or writes it for the desired entry of its path.
pub data FileFate (input : CanonicalMergeInput) (path : Text) (desired : Dict Text FileMetadata)
    (before after : Option FileMetadata) : Type 0 where
  unchanged : after ≡ before → FileFate input path desired before after
  written :
      (d m : FileMetadata)
      → lookup path desired ≡ some d
      → Written input path d before m
      → after ≡ some m
      → FileFate input path desired before after

module _ (input : CanonicalMergeInput) (path : Text) where
  Round-fate_here :
      (desired : FileMetadata) (rest : Dict Text FileMetadata) (p q : Progress)
      → Round input path desired p q
      → FileFate input path ((path, desired) ∷ rest) (file_at path p) (file_at path q)
  unfolding put_file lookup
  Round-fate_here desired rest p q (idle e f) = unchanged (ap (λ i. lookup path i.files) e)
  Round-fate_here desired rest p q (wrote m w e f) =
      written desired m (ground arith) w (rw e (lookup-insert_self path m p.index.files))

  Round-fate_elsewhere :
      (key : Text) (desired : FileMetadata) (p q : Progress)
      → (key == path) ≡ false
      → Round input key desired p q
      → file_at path q ≡ file_at path p
  unfolding put_file
  Round-fate_elsewhere key desired p q n (idle e f) = ap (λ i. lookup path i.files) e
  Round-fate_elsewhere key desired p q n (wrote m w e f) =
      rw e (ground (arith, lookup-insert path key m p.index.files))

  fate_of_rest :
      (key : Text) (desired : FileMetadata) (rest : Dict Text FileMetadata)
      (before after : Option FileMetadata)
      → (key == path) ≡ false
      → FileFate input path rest before after
      → FileFate input path ((key, desired) ∷ rest) before after
  unfolding lookup
  fate_of_rest key desired rest before after n (unchanged e) = unchanged e
  fate_of_rest key desired rest before after n (written d m e w f) = written d m (ground arith) w f

  fate_of_missing :
      (rest : Dict Text FileMetadata) (before after : Option FileMetadata)
      → lookup path rest ≡ none
      → FileFate input path rest before after
      → after ≡ before
  fate_of_missing rest before after n (unchanged e) = e
  fate_of_missing rest before after n (written d m e w f) = absurd (ground arith)

  fate_of_first :
      (key : Text) (desired : FileMetadata) (rest : Dict Text FileMetadata) (p next q : Progress)
      → path ≡ key
      → lookup key rest ≡ none
      → Round input key desired p next
      → FileFate input path rest (file_at path next) (file_at path q)
      → FileFate input path ((key, desired) ∷ rest) (file_at path p) (file_at path q)
  fate_of_first key desired rest p next q e =
      subst
        (λ k.
          lookup k rest ≡ none
          → Round input k desired p next
          → FileFate input path rest (file_at path next) (file_at path q)
          → FileFate input path ((k, desired) ∷ rest) (file_at path p) (file_at path q))
        e
        (λ fresh round later.
          subst (FileFate input path ((path, desired) ∷ rest) (file_at path p))
            (sym (fate_of_missing rest _ _ fresh later))
            (Round-fate_here desired rest p next round))

  pub merge_files-fate :
      (p q : Progress) (entries : Dict Text FileMetadata)
      → NodupKeys entries
      → merge_files input p entries ≡ returned q
      → FileFate input path entries (file_at path p) (file_at path q)
  unfolding merge_files
  merge_files-fate p q [] u h = unchanged (ap (file_at path) (sym (returned-injective h)))
  merge_files-fate p q ((key, desired) ∷ rest) (fresh, u) h =
      let (next, e, f) = >>=-eq-returned (merge_file input p (key, desired)) _ h in
      let round = merge_file-Round input p key desired next e in
      let later = merge_files-fate next q rest u f in
      elim (Bool-cases (key == path)) [
        | inl same ↦
            fate_of_first key desired rest p next q (sym (eq_of_test key path same)) fresh round
              later
        | inr other ↦ fate_of_rest key desired rest _ _ other (
            subst (λ b. FileFate input path rest b (file_at path q))
              (Round-fate_elsewhere key desired p next other round) later)
      ]
