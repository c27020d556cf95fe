-- ===== src/Scheduler/Targets.antt =====
-- The commands of a cycle are the same for the same sets of targets, in whatever order and however
-- often the configuration lists them.
use codexnet.Scheduler.{
  Collectors, snmp_invocations, has_any, by_platform, ssh_invocation, ssh_invocations,
  build_invocations, unifi_invocations, ad_invocations,
}
use codexnet.Prelude.{List, refl, map, ◌≡◌, ◌∷◌, [], arith, inl}
use codexnet.Prelude.Text.{Text}
use codexnet.Prelude.Keys.{nat_eq, list_eq}
use codexnet.Prelude.Order.{sorted_set, nat_order, list_order}
use codexnet.Prelude.Sets.{SameMembers, sorted_set_unique}
use codexnet.OrderedDict.Groups.{keys, entry}
use codexnet.OrderedDict.Grouped.{Among-keys, Among-entry}

has_any-same : (xs ys : List Text) → SameMembers xs ys → has_any xs ≡ has_any ys
has_any-same [] [] same = refl
has_any-same [] (y ∷ ys) same = absurd ((same y).1 (inl refl))
has_any-same (x ∷ xs) [] same = absurd ((same x).0 (inl refl))
has_any-same (x ∷ xs) (y ∷ ys) same = refl

snmp_same :
    (c d : Collectors)
    → c.snmp_enabled ≡ d.snmp_enabled
    → SameMembers c.snmp_targets d.snmp_targets
    → snmp_invocations c ≡ snmp_invocations d
unfolding snmp_invocations
snmp_same c d switch same =
    rw
      (
        switch,
        has_any-same c.snmp_targets d.snmp_targets same,
        sorted_set_unique c.snmp_targets d.snmp_targets same,
      )
      refl

module _ (ts us : List (Text × Text)) (same : SameMembers ts us) where
  same_addresses :
      (platform : Text)
      → sorted_set (entry platform (by_platform ts)) ≡ sorted_set (entry platform (by_platform us))
  unfolding by_platform
  same_addresses platform =
      sorted_set_unique (entry platform (by_platform ts)) (entry platform (by_platform us)) (λ a.
        ground (arith, Among-entry platform a ts, Among-entry platform a us, same (platform, a)))

  same_platforms : sorted_set (keys (by_platform ts)) ≡ sorted_set (keys (by_platform us))
  unfolding by_platform
  same_platforms = sorted_set_unique (keys (by_platform ts)) (keys (by_platform us)) (λ p. (
    λ h. let (a, among) = (Among-keys p ts).0 h in (Among-keys p us).1 (a, (same (p, a)).0 among),
    λ h. let (a, among) = (Among-keys p us).0 h in (Among-keys p ts).1 (a, (same (p, a)).1 among),
  ))

  same_commands :
      (platforms : List Text)
      → map (ssh_invocation (by_platform ts)) platforms
        ≡ map (ssh_invocation (by_platform us)) platforms
  same_commands [] = refl
  same_commands (p ∷ platforms) = rw (same_addresses p, same_commands platforms) refl

ssh_same :
    (c d : Collectors)
    → c.ssh_enabled ≡ d.ssh_enabled
    → SameMembers c.ssh_targets d.ssh_targets
    → ssh_invocations c ≡ ssh_invocations d
unfolding ssh_invocations
ssh_same c d switch same =
    rw
      (
        switch,
        same_platforms c.ssh_targets d.ssh_targets same,
        same_commands c.ssh_targets d.ssh_targets same,
      )
      refl

-- Two configurations give the same invocations in the same order when their UniFi and their Active
-- Directory invocations are the same, their SNMP and SSH switches agree, and their SNMP targets and
-- their SSH targets have the same members, in whatever order and however often.
pub build_invocations-same_sets :
    (c d : Collectors)
    → c.snmp_enabled ≡ d.snmp_enabled
    → SameMembers c.snmp_targets d.snmp_targets
    → unifi_invocations c ≡ unifi_invocations d
    → ad_invocations c ≡ ad_invocations d
    → c.ssh_enabled ≡ d.ssh_enabled
    → SameMembers c.ssh_targets d.ssh_targets
    → build_invocations c ≡ build_invocations d
unfolding build_invocations
build_invocations-same_sets c d snmp_on snmp unifi ad ssh_on ssh =
    rw (snmp_same c d snmp_on snmp, unifi, ad, ssh_same c d ssh_on ssh) refl
