-- ===== src/Storage/Pruner/Applying.antt =====
-- `apply` deletes files of its plan in order, and only such as are as the plan saw them.
use codexnet.Prelude.{
  sym, ◌≤◌, ltb, refl, ap, ◌⊎◌, arith, Option-cases, any, if◌then◌else◌, Bool, ◌≡◌, List, inl, inr,
  true, [], ◌∷◌, none, some, ◌++◌, Bool-cases,
}
use codexnet.Prelude.Sorting.{Among, count_if}
use mathlib.Core.Path.{subst}
use codexnet.OrderedDict.Lookup.{lookup-remove}
use codexnet.OrderedDict.{is_key, remove, lookup, OrderedDict}
use codexnet.Prelude.Keys.{list_beq_iff, ◌==◌, nat_eq, list_eq}
use codexnet.Prelude.Text.{Text}
use codexnet.Storage.Pruner.{
  OrderedDict, Text, Clock, FileInfo, OwnedFile, BackupRoot, PruneError, is_backup_name, is_regular,
  same_identity_as, check_item, check_items, unlink_items, apply, open_root, unlink_failed, remove,
}
use codexnet.Prelude.Result.{Result, ok, err, ◌>>◌, Result-cases}

-- The plan has this name.
abbrev pub names : Text → List OwnedFile → Bool
names x items = any (λ item. item.name == x) items

-- No name stands twice.
abbrev pub DistinctNames : List OwnedFile → Type 0
DistinctNames items = (x : Text) → count_if (λ item. item.name == x) items ≤ 1

pub any-count_if : {A : Type 0} (p : A → Bool) (xs : List A) → any p xs ≡ ltb 0 (count_if p xs)
any-count_if p [] = ground arith
any-count_if p (x ∷ xs) = ground (arith, any-count_if p xs)

module _ (clock : Clock) where
  -- The file is there, a regular one of a backup's name, and as the plan saw it.
  abbrev pub IsOwned : OrderedDict Text FileInfo → OwnedFile → Type 0
  IsOwned entries item =
      (info : FileInfo) × (lookup item.name entries ≡ some info)
      × (is_backup_name clock item.name ≡ true)
      × (is_regular info.file_type ≡ true)
      × (same_identity_as info item ≡ true)

  check_item-IsOwned :
      (entries : OrderedDict Text FileInfo) (item : OwnedFile)
      → check_item clock entries item ≡ ok tt
      → IsOwned entries item
  unfolding check_item
  check_item-IsOwned entries item h = elim (Option-cases (lookup item.name entries)) [
    | inl gone ↦ absurd (ground arith)
    | inr (info, there) ↦ (info, there, ground arith, ground arith, ground arith)
  ]

  abbrev pub AllOwned : OrderedDict Text FileInfo → List OwnedFile → Type 0
  AllOwned entries items = (item : OwnedFile) → Among item items → IsOwned entries item

  pub check_items-AllOwned :
      (entries : OrderedDict Text FileInfo) (items : List OwnedFile)
      → check_items clock entries items ≡ ok tt
      → AllOwned entries items
  unfolding check_items
  check_items-AllOwned entries [] h item among = absurd among
  check_items-AllOwned entries (first ∷ items) h item among =
      elim (Result-cases (check_item clock entries first)) [
        | inr (e, bad) ↦ absurd (ground arith)
        | inl (done, good) ↦ elim among [
          | inl here ↦ subst (IsOwned entries) (sym here) (check_item-IsOwned entries first good)
          | inr there ↦ check_items-AllOwned entries items (ground arith) item there
        ]
      ]

AllThere : OrderedDict Text FileInfo → List OwnedFile → Type 0
AllThere entries items = (x : Text) → names x items ≡ true → is_key x entries ≡ true

-- The names of these files are gone, and nothing else.
abbrev pub Gone : OrderedDict Text FileInfo → List OwnedFile → OrderedDict Text FileInfo → Type 0
Gone entries items entries' =
    (x : Text) → lookup x entries' ≡ (if names x items then none else lookup x entries)

-- The deletions succeed, or end in front of one that the operating system refuses.
abbrev pub Stopped :
    {A : Type 0} → (Text → Bool) → A → List OwnedFile → Result PruneError A → Type 0
Stopped refuses value left outcome =
    ((outcome ≡ ok value) × (left ≡ []))
    ⊎ ((item : OwnedFile) × (rest : List OwnedFile) × (left ≡ item ∷ rest)
        × (refuses item.name ≡ true)
        × (outcome ≡ err unlink_failed))

abbrev pub DeletedTo :
    {A : Type 0}
    → (Text → Bool)
    → A
    → OrderedDict Text FileInfo
    → List OwnedFile
    → OrderedDict Text FileInfo
    → Result PruneError A
    → Type 0
DeletedTo refuses value entries items entries' outcome =
    (removed : List OwnedFile) × (left : List OwnedFile) × (items ≡ removed ++ left)
    × Gone entries removed entries'
    × Stopped refuses value left outcome

module _ (refuses : Text → Bool) where
  unlink_items_lem :
      (entries : OrderedDict Text FileInfo) (items : List OwnedFile)
      → DistinctNames items
      → AllThere entries items
      → let run = unlink_items refuses entries items in
        DeletedTo refuses tt entries items run.0 run.1
  unfolding unlink_items AllThere is_key
  unlink_items_lem entries [] distinct there = ([], [], refl, λ x. refl, inl (refl, refl))
  unlink_items_lem entries (item ∷ items) distinct there =
      elim (Option-cases (lookup item.name entries)) [
        | inl gone ↦ absurd (ground (arith, there item.name, list_beq_iff item.name item.name))
        | inr (info, hit) ↦ elim (Bool-cases (refuses item.name)) [
          | inl refused ↦
              rw (hit, refused, unlink_items)
                ([], item ∷ items, refl, λ x. refl, inr (item, items, refl, refused, refl))
          | inr free ↦
              let (removed, left, split, gone, how) =
                unlink_items_lem (remove item.name entries) items (λ x. ground (arith, distinct x))
                  (λ x named. ground (
                    arith,
                    there x,
                    distinct item.name,
                    list_beq_iff item.name item.name,
                    any-count_if (λ j. j.name == item.name) items,
                    lookup-remove item.name x entries,
                    list_beq_iff item.name x,
                  )) in
              rw (hit, free, unlink_items)
                (
                  item ∷ removed,
                  left,
                  ap (λ rest. item ∷ rest) split,
                  λ x. ground (arith, gone x, lookup-remove item.name x entries),
                  how,
                )
        ]
      ]

module _ (clock : Clock) where
  owned_are_there :
      (entries : OrderedDict Text FileInfo) (items : List OwnedFile)
      → AllOwned clock entries items
      → AllThere entries items
  unfolding AllThere is_key
  owned_are_there entries [] h x named = absurd (ground arith)
  owned_are_there entries (item ∷ items) h x named =
      let (info, hit, proper, file, same) = h item (inl refl) in
      let rest = owned_are_there entries items (λ j among. h j (inr among)) x in
      ground (arith, rest, list_beq_iff item.name x)

  applied-Stopped :
      (refuses : Text → Bool) (items left : List OwnedFile) (outcome : Result PruneError (Unit {0}))
      → Stopped refuses tt left outcome
      → Stopped refuses items left (outcome >> ok items)
  applied-Stopped refuses items left outcome (inl (done, none_left)) = inl (rw done refl, none_left)
  applied-Stopped refuses items left outcome (inr (item, rest, at, refused, failed)) =
      inr (item, rest, at, refused, rw failed refl)

  pub apply_passing :
      (refuses : Text → Bool) (root : BackupRoot) (items : List OwnedFile)
      → DistinctNames items
      → (open_root root >> check_items clock root.entries items) ≡ ok tt
      → let run = apply clock refuses root items in
        AllOwned clock root.entries items
        × (run.0 ≡ record root { entries = run.0.entries })
        × DeletedTo refuses items root.entries items run.0.entries run.1
  unfolding apply
  apply_passing refuses root items distinct good =
      let checked : check_items clock root.entries items ≡ ok tt =
        elim (Result-cases (open_root root)) [
          | inl (u, opened) ↦ ground arith
          | inr (e, refused) ↦ absurd (ground arith)
        ] in
      let owned = check_items-AllOwned clock root.entries items checked in
      let (removed, left, split, gone, how) =
        unlink_items_lem refuses root.entries items distinct
          (owned_are_there root.entries items owned) in
      (
        owned,
        rw (good, apply) refl,
        rw (good, apply) (removed, left, split, gone, applied-Stopped refuses items left _ how),
      )
