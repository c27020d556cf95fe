-- ===== src/Scheduler/Commands.antt =====
-- The commands of a cycle: only of enabled collectors, and the same for the same sets of targets.
use codexnet.Prelude.{
  refl, arith, ap, if◌then◌else◌, ◌&&◌, ◌⊎◌, Bool-cases, List, ◌≡◌, inl, inr, true, ◌∷◌, [], ◌++◌,
}
use codexnet.Prelude.Order.{sorted_set, nat_order, list_order, sort_by}
use codexnet.Prelude.Text.{Text, codes}
use codexnet.Scheduler.{
  Text, codes, Collectors, ScheduledInvocation, snmp_invocations, has_any, target_flags,
  unifi_invocations, unifi_invocation, ad_invocations, flag_if_given, by_platform, ssh_invocation,
  ssh_invocations, build_invocations,
}
use codexnet.Prelude.Sorting.{Among, Among-map, Among-append}
use codexnet.Prelude.Keys.{nat_eq, list_eq}
use codexnet.OrderedDict.Groups.{keys, entry}

-- An invocation is a `collect` command of an enabled collector.
abbrev pub IsEnabled : Collectors → ScheduledInvocation → Type 0
IsEnabled c i =
    ((i.collector ≡ codes "snmp") × (c.snmp_enabled ≡ true))
    ⊎ ((i.collector ≡ codes "unifi") × (c.unifi_enabled ≡ true))
    ⊎ ((i.collector ≡ codes "ad") × (c.ad_enabled ≡ true))
    ⊎ ((i.collector ≡ codes "ssh") × (c.ssh_enabled ≡ true))

abbrev pub IsCollect : ScheduledInvocation → Type 0
IsCollect i = (rest : List Text) × (i.arguments ≡ codes "collect" ∷ i.collector ∷ rest)

module _ (c : Collectors) (i : ScheduledInvocation) where
  snmp_invocations-IsEnabled : Among i (snmp_invocations c) → IsEnabled c i × IsCollect i
  unfolding snmp_invocations
  snmp_invocations-IsEnabled h = elim (Bool-cases (c.snmp_enabled && has_any c.snmp_targets)) [
    | inr off ↦ absurd (rw (off, if◌then◌else◌) at h)
    | inl on ↦ elim (rw (on, if◌then◌else◌) at h) [
      | inr none_left ↦ absurd none_left
      | inl here ↦ (
        inl (ap (λ v. v.collector) here, ground arith),
        (target_flags (sorted_set c.snmp_targets), rw here refl),
      )
    ]
  ]

  unifi_invocations-IsEnabled : Among i (unifi_invocations c) → IsEnabled c i × IsCollect i
  unfolding unifi_invocations
  unifi_invocations-IsEnabled h = elim (Bool-cases c.unifi_enabled) [
    | inr off ↦ absurd (rw (off, if◌then◌else◌) at h)
    | inl on ↦
        let (url, _, here) =
          (Among-map unifi_invocation i (sort_by (λ url. url) c.unifi_urls)).0
            (rw (on, if◌then◌else◌) at h) in
        (
          inr (inl (ap (λ v. v.collector) here, on)),
          (codes "--controller" ∷ url ∷ [], rw here refl),
        )
  ]

  ad_invocations-IsEnabled : Among i (ad_invocations c) → IsEnabled c i × IsCollect i
  unfolding ad_invocations
  ad_invocations-IsEnabled h = elim (Bool-cases c.ad_enabled) [
    | inr off ↦ absurd (rw (off, if◌then◌else◌) at h)
    | inl on ↦ elim (rw (on, if◌then◌else◌) at h) [
      | inr none_left ↦ absurd none_left
      | inl here ↦ (
        inr (inr (inl (ap (λ v. v.collector) here, on))),
        (
          codes "--target"
              ∷ c.ad_target
              ∷ (flag_if_given (codes "--domain") c.ad_domain
                  ++ flag_if_given (codes "--server-name") c.ad_server_name),
          rw here refl,
        ),
      )
    ]
  ]

  ssh_invocations-IsEnabled : Among i (ssh_invocations c) → IsEnabled c i × IsCollect i
  unfolding ssh_invocations
  ssh_invocations-IsEnabled h =
      let platforms = by_platform c.ssh_targets in
      elim (Bool-cases c.ssh_enabled) [
        | inr off ↦ absurd (rw (off, if◌then◌else◌) at h)
        | inl on ↦
            let (platform, _, here) =
              (Among-map (ssh_invocation platforms) i (sorted_set (keys platforms))).0
                (rw (on, if◌then◌else◌) at h) in
            (
              inr (inr (inr (ap (λ v. v.collector) here, on))),
              (
                codes "--platform"
                    ∷ platform
                    ∷ target_flags (sorted_set (entry platform platforms)),
                rw here refl,
              ),
            )
      ]

  -- Every invocation of a cycle starts with `collect` and the name of its collector, which is one
  -- of the four collectors and enabled in the configuration.
  pub build_invocations-IsEnabled : Among i (build_invocations c) → IsEnabled c i × IsCollect i
  unfolding build_invocations
  build_invocations-IsEnabled h =
      let snmp = snmp_invocations c in
      let unifi = unifi_invocations c in
      let ad = ad_invocations c in
      elim ((Among-append i (snmp ++ unifi ++ ad) (ssh_invocations c)).0 h) [
        | inr fourth ↦ ssh_invocations-IsEnabled fourth
        | inl earlier ↦ elim ((Among-append i (snmp ++ unifi) ad).0 earlier) [
          | inr third ↦ ad_invocations-IsEnabled third
          | inl before ↦ elim ((Among-append i snmp unifi).0 before) [
            | inr second ↦ unifi_invocations-IsEnabled second
            | inl first ↦ snmp_invocations-IsEnabled first
          ]
        ]
      ]
