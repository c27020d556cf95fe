-- ===== src/Storage/Tree/Dry.antt =====
-- What a dry run of `prune_artifact_tree` tells of a real one.
use codexnet.Prelude.Order.{sort_by, list_order, nat_order}
use codexnet.Prelude.Text.{Text}
use codexnet.Storage.Tree.{
  ArtifactTree, Text, prune_artifact_tree, prune_entries, TreeEntry, count_of, prune_entry,
}
use codexnet.Prelude.{
  [], ◌∷◌, ◌+◌, ◌⊎◌, ℕ, true, false, not, List, if◌then◌else◌, length, ◌≡◌, refl, inl, inr,
  Bool-cases, ap,
}
use codexnet.Prelude.Keys.{nat_eq, list_eq}
use codexnet.Prelude.Result.{Result, ok, err, Result-cases, ok-injective}
use codexnet.Artifacts.{ArtifactError, ArtifactMetadata, ArtifactStore, Codec, Directory}
use codexnet.Artifacts.Retention.{prune_expired, expired, with_expired, prune_items}
use codexnet.Storage.Pruner.{is_directory}

-- The tree with its stores in the order of their names.
abbrev pub in_name_order : ArtifactTree → ArtifactTree
in_name_order tree = record tree { stores = sort_by (λ e. e.0) tree.stores }

with_expired-ok :
    (found value : List ArtifactMetadata) (run : Directory × Result ArtifactError (Unit {0}))
    → (with_expired found run).1 ≡ ok value
    → found ≡ value
with_expired-ok found value (files, ok done) h = ok-injective found value h
with_expired-ok found value (files, err e) h = cc

module _ (k : Codec) (cutoff : ℕ) where
  prune_expired_dry :
      (store : ArtifactStore) (files : Directory) (value : List ArtifactMetadata)
      → (prune_expired k store cutoff false files).1 ≡ ok value
      → prune_expired k store cutoff true files ≡ (files, ok value)
  unfolding prune_expired
  prune_expired_dry store files value h = elim (Result-cases (expired k store files cutoff)) [
    | inr (e, bad) ↦ cc (rw (bad, prune_expired) at h)
    | inl (found, good) ↦
        rw (good, prune_expired)
          (ap (λ v. (files, ok v))
            (with_expired-ok found value (prune_items store.refuses found files)
              (rw (good, prune_expired) at h)))
  ]

  count_of-ok :
      (run : Result ArtifactError (List ArtifactMetadata)) (n : ℕ)
      → count_of run ≡ ok n
      → (found : List ArtifactMetadata) × (run ≡ ok found) × (length found ≡ n)
  unfolding count_of
  count_of-ok (ok found) n h = (found, refl, ok-injective (length found) n h)
  count_of-ok (err e) n h = cc

  prune_entry_dry :
      (entry : TreeEntry) (n : ℕ)
      → (prune_entry k cutoff false entry).1 ≡ ok n
      → prune_entry k cutoff true entry ≡ (entry.files, ok n)
  unfolding prune_entry
  prune_entry_dry entry n h = elim (Bool-cases (is_directory entry.entry_type)) [
    | inr other ↦ cc (rw (other, not, if◌then◌else◌) at h)
    | inl real ↦ elim (Bool-cases entry.prepared) [
      | inr refused ↦ cc (rw (real, refused, not, if◌then◌else◌) at h)
      | inl fine ↦
          let (found, done, size) =
            count_of-ok (prune_expired k entry.store cutoff false entry.files).1 n
              (rw (real, fine, not, if◌then◌else◌) at h) in
          rw (real, fine, prune_expired_dry entry.store entry.files found done)
            (ap (λ m. (entry.files, ok m)) size)
    ]
  ]

  prune_entries_dry :
      (entries : List (Text × TreeEntry)) (count n : ℕ)
      → (prune_entries k cutoff false entries count).1 ≡ ok n
      → prune_entries k cutoff true entries count ≡ (entries, ok n)
  unfolding prune_entries
  prune_entries_dry [] count n h = rw h refl
  prune_entries_dry ((name, entry) ∷ entries) count n h =
      elim (Result-cases (prune_entry k cutoff false entry).1) [
        | inr (e, bad) ↦ cc (rw (bad, prune_entries) at h)
        | inl (m, good) ↦
            let later = prune_entries_dry entries (count + m) n (rw (good, prune_entries) at h) in
            let same = prune_entry_dry entry m good in
            rw (same, prune_entries, later)
              (ap (λ r. ((name, record entry { files = r.0 }) ∷ entries, ok n)) same)
      ]

  -- When a real run over the tree succeeds, a dry run in its place returns the same count and
  -- changes no store: what it leaves is the tree itself, or the tree with its stores listed in the
  -- order of their names.
  pub prune_tree_dry :
      (tree : ArtifactTree) (n : ℕ)
      → (prune_artifact_tree k cutoff false tree).1 ≡ ok n
      → let run = prune_artifact_tree k cutoff true tree in
        (run.1 ≡ ok n) × ((run.0 ≡ tree) ⊎ (run.0 ≡ in_name_order tree))
  unfolding prune_artifact_tree
  prune_tree_dry tree n h = elim (Bool-cases tree.exists) [
    | inr missing ↦
        rw (missing, not, if◌then◌else◌) (rw (missing, not, if◌then◌else◌) at h, inl refl)
    | inl there ↦ elim (Bool-cases (is_directory tree.tree_type)) [
      | inr other ↦ cc (rw (there, other, not, if◌then◌else◌) at h)
      | inl real ↦
          let dry =
            prune_entries_dry (sort_by (λ e. e.0) tree.stores) 0 n
              (rw (there, real, not, if◌then◌else◌) at h) in
          rw (there, real, dry) (refl, inr refl)
    ]
  ]
