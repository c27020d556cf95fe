-- ===== src/Scheduler.antt =====
-- scheduler_service.py: `build_invocations` and the command that `run_cycle` makes of an invocation.
pub mod Commands
pub mod Targets
mod Examples
use codexnet.Prelude.Order.{sort_by, sorted_set, nat_order, list_order}
use codexnet.Prelude.{
  map, Option, if◌then◌else◌, ℕ, ◌++◌, Bool, List, [], ◌∷◌, none, some, true, false, not, ◌&&◌,
}
use codexnet.Prelude.Text.{codes, Text}
use codexnet.Prelude.Keys.{nat_eq, list_eq}
use codexnet.OrderedDict.Groups.{entry, collect_into, keys}

pub record ScheduledInvocation : Type 0 where
  pub collector : Text
  pub arguments : List Text

pub record ScheduledOutcome : Type 0 where
  pub ran : Text
  pub returncode : ℕ
  pub timed_out : Bool

-- configuration["collectors"], validated before
pub record Collectors : Type 0 where
  pub snmp_enabled : Bool
  pub snmp_targets : List Text
  pub unifi_enabled : Bool
  pub unifi_urls : List Text
  pub ad_enabled : Bool
  pub ad_target : Text
  pub ad_domain : Option Text
  pub ad_server_name : Option Text
  pub ssh_enabled : Bool
  pub ssh_targets : List (Text × Text)

-- for target in ...: arguments.extend(("--target", target))
unfoldable pub target_flags : List Text → List Text
target_flags [] = []
target_flags (target ∷ targets) = codes "--target" ∷ target ∷ target_flags targets

abbrev pub has_any : List Text → Bool
has_any [] = false
has_any (x ∷ xs) = true

unfoldable pub snmp_invocations : Collectors → List ScheduledInvocation
unfolding target_flags
snmp_invocations c =
    if c.snmp_enabled && has_any c.snmp_targets
    then record {
      collector = codes "snmp";
      arguments = codes "collect" ∷ codes "snmp" ∷ target_flags (sorted_set c.snmp_targets);
    }
      ∷ []
    else []

abbrev pub unifi_invocation : Text → ScheduledInvocation
unifi_invocation url = record {
  collector = codes "unifi";
  arguments = codes "collect" ∷ codes "unifi" ∷ codes "--controller" ∷ url ∷ [];
}

unfoldable pub unifi_invocations : Collectors → List ScheduledInvocation
unifi_invocations c =
    if c.unifi_enabled then map unifi_invocation (sort_by (λ url. url) c.unifi_urls) else []

abbrev pub flag_if_given : Text → Option Text → List Text
flag_if_given flag none = []
flag_if_given flag (some value) = flag ∷ value ∷ []

unfoldable pub ad_invocations : Collectors → List ScheduledInvocation
ad_invocations c =
    if c.ad_enabled
    then record {
      collector = codes "ad";
      arguments =
          codes "collect"
          ∷ codes "ad"
          ∷ codes "--target"
          ∷ c.ad_target
          ∷ (flag_if_given (codes "--domain") c.ad_domain
              ++ flag_if_given (codes "--server-name") c.ad_server_name);
    }
      ∷ []
    else []

-- `by_platform` with the addresses in the order in which they are added: as a set, and sorted with
-- it, they are read through `sorted_set`.
unfoldable pub by_platform : List (Text × Text) → List (Text × List Text)
by_platform targets = collect_into [] targets

abbrev pub ssh_invocation : List (Text × List Text) → Text → ScheduledInvocation
ssh_invocation platforms platform = record {
  collector = codes "ssh";
  arguments =
      codes "collect"
      ∷ codes "ssh"
      ∷ codes "--platform"
      ∷ platform
      ∷ target_flags (sorted_set (entry platform platforms));
}

-- The keys of a dictionary are distinct, so sorting them is sorting their set.
unfoldable pub ssh_invocations : Collectors → List ScheduledInvocation
unfolding by_platform target_flags
ssh_invocations c =
    let platforms = by_platform c.ssh_targets in
    if c.ssh_enabled then map (ssh_invocation platforms) (sorted_set (keys platforms)) else []

unfoldable pub build_invocations : Collectors → List ScheduledInvocation
unfolding snmp_invocations unifi_invocations ad_invocations ssh_invocations
build_invocations c =
    snmp_invocations c ++ unifi_invocations c ++ ad_invocations c ++ ssh_invocations c

-- run_one: the runner is given the whole command and returns a code and whether it timed out.
unfoldable pub run_one_invocation :
    (List Text → ℕ × Bool) → Text → Text → ScheduledInvocation → ScheduledOutcome
run_one_invocation runner executable config_path invocation =
    let (code, late) =
      runner
        (executable ∷ codes "--json" ∷ codes "--config" ∷ config_path ∷ invocation.arguments) in
    record { ran = invocation.collector; returncode = code; timed_out = late }

-- `gather` gives the outcomes in the order of the invocations.
unfoldable pub run_cycle :
    (List Text → ℕ × Bool) → Text → Text → List ScheduledInvocation → List ScheduledOutcome
unfolding run_one_invocation
run_cycle runner executable config_path invocations =
    map (run_one_invocation runner executable config_path) invocations
