-- ===== src/Artifacts/Retention/Pruning.antt =====
-- What `prune_expired` deletes: an artifact and its metadata together, and expired ones only.
use codexnet.OrderedDict.Lookup.{lookup-remove}
use codexnet.Prelude.{
  ◌&&◌, Option-cases, some, ◌||◌, Bool-cases, arith, refl, any, ap, if◌then◌else◌, ◌⊎◌, Bool, ◌≡◌,
  List, ℕ, inl, inr, true, false, [], ◌∷◌, ◌++◌, none,
}
use codexnet.Artifacts.{
  unlink_failed, file_not_found, entry_not_regular, list_beq, Bool, lookup, remove, List, Text, ℕ,
  ArtifactError, ArtifactMetadata, ArtifactStore, Codec, Directory, metadata_name,
}
use codexnet.Prelude.Keys.{list_beq, nat_eq, list_eq}
use codexnet.Artifacts.Retention.{
  is_regular_entry, with_expired, check_regular, prune_item, prune_items, prune_expired, expired,
}
use codexnet.OrderedDict.{lookup, remove, is_key}
use codexnet.Prelude.Sorting.{Among}
use codexnet.Prelude.Text.{Text}
use codexnet.Prelude.Result.{Result, ok, err, ◌>>◌, Result-cases}

-- The name is of one of the artifacts or of its metadata.
abbrev pub is_of : Text → List ArtifactMetadata → Bool
is_of x ms = any (λ m. list_beq m.filename x || list_beq (metadata_name m.filename) x) ms

abbrev pub Gone : List ArtifactMetadata → Directory → Directory → Type 0
Gone ms files files' = (x : Text) → lookup x files' ≡ (if is_of x ms then none else lookup x files)

-- Both files of the artifact are regular ones.
abbrev pub is_pair : Directory → ArtifactMetadata → Bool
is_pair files m =
    is_regular_entry (lookup m.filename files)
    && is_regular_entry (lookup (metadata_name m.filename) files)

abbrev pub AllPairs : Directory → List ArtifactMetadata → Type 0
AllPairs files ms = (m : ArtifactMetadata) → Among m ms → is_pair files m ≡ true

-- An item ends the loop: its files are not both regular, or one of them cannot be deleted, and then
-- the artifact is deleted already if it is the metadata.
abbrev pub Refused : (Text → Bool) → ArtifactMetadata → Directory → Directory → Type 0
Refused refuses m before after =
    ((is_pair before m ≡ false) × (after ≡ before))
    ⊎ ((is_pair before m ≡ true) × (refuses m.filename ≡ true) × (after ≡ before))
    ⊎ ((is_pair before m ≡ true)
        × (refuses (metadata_name m.filename) ≡ true)
        × (after ≡ remove m.filename before))

-- The loop ends behind the last item, or at one that is refused.
abbrev pub Ends :
    {A : Type 0}
    → (Text → Bool)
    → A
    → List ArtifactMetadata
    → Directory
    → Directory × Result ArtifactError A
    → Type 0
Ends refuses value left before run =
    ((run.1 ≡ ok value) × (left ≡ []) × (run.0 ≡ before))
    ⊎ ((m : ArtifactMetadata) × (rest : List ArtifactMetadata) × (e : ArtifactError) × (left
          ≡ m ∷ rest)
        × (run.1 ≡ err e)
        × Refused refuses m before run.0)

-- The artifacts before one were pairs of regular files and are gone; there the loop ends.
abbrev pub PrunedTo :
    {A : Type 0}
    → (Text → Bool)
    → A
    → List ArtifactMetadata
    → Directory
    → Directory × Result ArtifactError A
    → Type 0
PrunedTo refuses value ms files run =
    (removed : List ArtifactMetadata) × (left : List ArtifactMetadata) × (before : Directory) × (ms
      ≡ removed ++ left)
    × AllPairs files removed
    × Gone removed files before
    × Ends refuses value left before run

check_regular_cases :
    (files : Directory) (name : Text)
    → ((check_regular files name ≡ ok tt) × (is_regular_entry (lookup name files) ≡ true))
      ⊎ ((e : ArtifactError) × (check_regular files name ≡ err e)
          × (is_regular_entry (lookup name files) ≡ false))
unfolding check_regular is_key
check_regular_cases files name = elim (Option-cases (lookup name files)) [
  | inl gone ↦ inr (file_not_found, rw (gone, is_key) refl, rw gone refl)
  | inr (entry, there) ↦ elim (Bool-cases (is_regular_entry (some entry))) [
    | inl regular ↦ inl (rw (there, is_key, regular) refl, rw there regular)
    | inr other ↦ inr (entry_not_regular, rw (there, is_key, other) refl, rw there other)
  ]
]

pair_checked :
    (files : Directory) (m : ArtifactMetadata)
    → let checks =
        check_regular files m.filename >> check_regular files (metadata_name m.filename) in
      ((checks ≡ ok tt) × (is_pair files m ≡ true))
      ⊎ ((e : ArtifactError) × (checks ≡ err e) × (is_pair files m ≡ false))
pair_checked files m = elim (check_regular_cases files m.filename) [
  | inr (e, bad, other) ↦ inr (e, rw bad refl, rw other refl)
  | inl (good, regular) ↦ elim (check_regular_cases files (metadata_name m.filename)) [
    | inr (e, bad, other) ↦ inr (e, rw (good, bad) refl, rw (regular, other) refl)
    | inl (good', regular') ↦ inl (rw (good, good') refl, rw (regular, regular') refl)
  ]
]

prune_item_cases :
    (refuses : Text → Bool) (files : Directory) (m : ArtifactMetadata)
    → let run = prune_item refuses files m.filename in
      ((e : ArtifactError) × (run.1 ≡ err e) × Refused refuses m files run.0)
      ⊎ ((is_pair files m ≡ true)
          × (run ≡ (remove (metadata_name m.filename) (remove m.filename files), ok tt)))
unfolding prune_item
prune_item_cases refuses files m = elim (pair_checked files m) [
  | inr (e, bad, other) ↦ rw (bad, prune_item) (inl (e, refl, inl (other, refl)))
  | inl (good, pair) ↦ elim (Bool-cases (refuses m.filename)) [
    | inl refused ↦
        rw (good, prune_item, refused) (inl (unlink_failed, refl, inr (inl (pair, refl, refl))))
    | inr fine ↦ elim (Bool-cases (refuses (metadata_name m.filename))) [
      | inl refused ↦
          rw (good, prune_item, fine, refused)
            (inl (unlink_failed, refl, inr (inr (pair, refl, refl))))
      | inr fine' ↦ rw (good, prune_item, fine, fine') (inr (pair, refl))
    ]
  ]
]

removed_lookup :
    (filename x : Text) (files : Directory)
    → lookup x (remove (metadata_name filename) (remove filename files)) ≡ (
        if list_beq filename x || list_beq (metadata_name filename) x then none else lookup x files)
removed_lookup filename x files = ground (
  arith,
  lookup-remove (metadata_name filename) x (remove filename files),
  lookup-remove filename x files,
)

pair_before :
    (filename : Text) (files : Directory) (j : ArtifactMetadata)
    → is_pair (remove (metadata_name filename) (remove filename files)) j ≡ true
    → is_pair files j ≡ true
pair_before filename files j h = ground (
  arith,
  removed_lookup filename j.filename files,
  removed_lookup filename (metadata_name j.filename) files,
)

pub prune_items-PrunedTo :
    (refuses : Text → Bool) (ms : List ArtifactMetadata) (files : Directory)
    → PrunedTo refuses tt ms files (prune_items refuses ms files)
unfolding prune_items
prune_items-PrunedTo refuses [] files =
    ([], [], files, refl, (λ m h. absurd h), (λ x. refl), inl (refl, refl, refl))
prune_items-PrunedTo refuses (m ∷ ms) files =
    elim (stopped_or_on {R = Refused refuses m files} (prune_item refuses files m.filename)
      (prune_item_cases refuses files m)) [
        | inl (e, left, at, why) ↦
            rw (at, prune_items)
              (
                [],
                m ∷ ms,
                files,
                refl,
                (λ j h. absurd h),
                (λ x. refl),
                inr (m, ms, e, refl, refl, why),
              )
        | inr (pair, done) ↦
            let files1 = remove (metadata_name m.filename) (remove m.filename files) in
            let (removed, left, before, split, pairs, gone, how) =
              prune_items-PrunedTo refuses ms files1 in
            rw (done, prune_items)
              (
                m ∷ removed,
                left,
                before,
                ap (λ rest. m ∷ rest) split,
                (λ j h. elim h [
                  | inl here ↦ rw here pair
                  | inr there ↦ pair_before m.filename files j (pairs j there)
                ]),
                (λ x. ground (arith, gone x, removed_lookup m.filename x files)),
                how,
              )
      ]
  where
    -- The item's result as a pair, where it raised.
    stopped_or_on :
        {B : Type 0} {R : Directory → Type 0} (run : Directory × Result ArtifactError (Unit {0}))
        → ((e : ArtifactError) × (run.1 ≡ err e) × R run.0) ⊎ B
        → ((e : ArtifactError) × (left : Directory) × (run ≡ (left, err e)) × R left) ⊎ B
    stopped_or_on (left, outcome) (inl (e, bad, why)) = inl (e, left, rw bad refl, why)
    stopped_or_on run (inr b) = inr b

-- The list that is returned in place of the last `None`.
pass_on :
    (refuses : Text → Bool) (found : List ArtifactMetadata) (files : Directory)
    → PrunedTo refuses tt found files (prune_items refuses found files)
    → PrunedTo refuses found found files (with_expired found (prune_items refuses found files))
pass_on refuses found files (removed, left, before, split, pairs, gone, inl (done, none_left, at)) =
    (removed, left, before, split, pairs, gone, inl (rw done refl, none_left, at))
pass_on refuses found files
      (removed, left, before, split, pairs, gone, inr (m, rest, e, at, failed, why)) =
    (removed, left, before, split, pairs, gone, inr (m, rest, e, at, rw failed refl, why))

-- `prune_expired` deletes nothing when it cannot list the expired artifacts or runs dry, and then
-- returns the list in the latter case. Otherwise it goes through the expired artifacts in the order
-- of the list and deletes each with its metadata, which were regular files, and no other file. It
-- succeeds behind the last one, or raises at one that is not a pair of regular files or that the
-- operating system refuses to delete; only if that is the metadata, its artifact is gone.
pub prune_expired_lem :
    (k : Codec) (store : ArtifactStore) (cutoff : ℕ) (dry_run : Bool) (files : Directory)
    → let run = prune_expired k store cutoff dry_run files in
      ((e : ArtifactError) × (expired k store files cutoff ≡ err e) × (run ≡ (files, err e)))
      ⊎ ((found : List ArtifactMetadata) × (expired k store files cutoff ≡ ok found)
          × (((dry_run ≡ true) × (run ≡ (files, ok found)))
              ⊎ ((dry_run ≡ false) × PrunedTo store.refuses found found files run)))
unfolding prune_expired
prune_expired_lem k store cutoff dry_run files =
    elim (Result-cases (expired k store files cutoff)) [
      | inr (e, bad) ↦ inl (e, bad, rw (bad, prune_expired) refl)
      | inl (found, good) ↦ elim (Bool-cases dry_run) [
        | inl dry ↦ inr (found, good, inl (dry, rw (good, dry, prune_expired) refl))
        | inr wet ↦
            let outcome : PrunedTo store.refuses tt found files
                (prune_items store.refuses found files) =
              prune_items-PrunedTo store.refuses found files in
            inr (
              found,
              good,
              inr (wet, rw (good, wet, prune_expired) (pass_on store.refuses found files outcome)),
            )
      ]
    ]
