-- ===== src/Scheduler/Examples.antt =====
-- scheduler_service.py: two configurations that list the same targets differently.
use codexnet.Prelude.{refl, ◌≡◌, ◌∷◌, [], true, false, arith, inl, inr, none}
use codexnet.Prelude.Text.{codes}
use codexnet.Scheduler.{
  Collectors, ad_invocations, build_invocations, run_cycle, unifi_invocation, snmp_invocations,
  unifi_invocations,
}
use codexnet.Prelude.Order.{sort_by}
use codexnet.Prelude.Sets.{SameMembers}
use codexnet.Prelude.Sorting.{Among}
use codexnet.Scheduler.Commands.{IsEnabled, IsCollect, build_invocations-IsEnabled}
use codexnet.Scheduler.Targets.{build_invocations-same_sets}

abbrev tidy : Collectors
tidy = record {
  snmp_enabled = true;
  snmp_targets = codes "10.0.0.2" ∷ codes "10.0.0.1" ∷ [];
  unifi_enabled = true;
  unifi_urls = codes "https://unifi.lan" ∷ [];
  ad_enabled = false;
  ad_target = codes "dc.lan";
  ad_domain = none;
  ad_server_name = none;
  ssh_enabled = true;
  ssh_targets = (codes "ios", codes "10.0.0.3") ∷ (codes "eos", codes "10.0.0.4") ∷ [];
}

abbrev untidy : Collectors
untidy = record {
  snmp_enabled = true;
  snmp_targets = codes "10.0.0.1" ∷ codes "10.0.0.2" ∷ codes "10.0.0.1" ∷ [];
  unifi_enabled = true;
  unifi_urls = codes "https://unifi.lan" ∷ [];
  ad_enabled = false;
  ad_target = codes "dc.lan";
  ad_domain = none;
  ad_server_name = none;
  ssh_enabled = true;
  ssh_targets = (codes "eos", codes "10.0.0.4") ∷ (codes "ios", codes "10.0.0.3") ∷ [];
}

same_snmp : SameMembers tidy.snmp_targets untidy.snmp_targets
same_snmp target = ground arith

same_ssh : SameMembers tidy.ssh_targets untidy.ssh_targets
same_ssh target = ground arith

build_invocations-same_sets_example : build_invocations tidy ≡ build_invocations untidy
unfolding unifi_invocations ad_invocations
build_invocations-same_sets_example =
    build_invocations-same_sets tidy untidy refl same_snmp refl refl refl same_ssh

unifi_command : Among (unifi_invocation (codes "https://unifi.lan")) (build_invocations tidy)
unfolding build_invocations snmp_invocations unifi_invocations sort_by
unifi_command = inr (inl refl)

build_invocations-IsEnabled_example :
    IsEnabled tidy (unifi_invocation (codes "https://unifi.lan"))
    × IsCollect (unifi_invocation (codes "https://unifi.lan"))
build_invocations-IsEnabled_example =
    build_invocations-IsEnabled tidy (unifi_invocation (codes "https://unifi.lan")) unifi_command

-- One process that is late: its outcome has the code 124.
late_cycle :
    run_cycle
      (λ command. (124, true))
      (codes "field-discovery")
      (codes "/etc/c.toml")
      (unifi_invocation (codes "https://unifi.lan") ∷ [])
    ≡ record { ran = codes "unifi"; returncode = 124; timed_out = true } ∷ []
unfolding run_cycle
late_cycle = refl
