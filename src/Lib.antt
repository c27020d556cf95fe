-- ===== src/Lib.antt =====
-- Verification of the observation core of codexnet (src/field_discovery).
--
-- The program listens on a network segment. A packet source hands frames to
-- `PassiveEventPipeline`, which queues them within bounds, runs the parsers of each frame's
-- protocol, drops repeated observations inside a window and awaits one sink. Three of the
-- parsers keep state of their own: `DhcpParser` tracks which client an address was leased to,
-- `NeighborTracker` the pairs of addresses that ARP frames and the kernel's table show, and
-- `MDNSParser` the records that hosts announce. Apart from this, active collectors contact approved
-- targets under `CollectorOrchestrator`, which retries, counts and reports to a repository.
--
-- Files and code:
--   Prelude, Prelude/*: lists, the tests of equality, results, text as code points, and the
--     standard library's ways to write bytes as text.
--   OrderedDict, OrderedDict/*: `collections.OrderedDict` as an association list in insertion
--     order, with the operations that the source uses of it.
--   Passive/Types, Passive/Observation: `PassiveFrame`, `PassiveObservation`, `_utc` and
--     `_normalize_observation` of src/field_discovery/passive.py.
--   Passive/Dedupe: `_is_duplicate`; Dedupe/Window and Dedupe/Runs have its theorems.
--   Passive/Pipeline: the constructor, `start`, `_prepare_frame` and `submit_nowait`;
--     Pipeline/Handling: `_handle_frame`; Pipeline/Lifecycle: `submit`, `_worker`, `stop` and
--     `metrics`, cut at the points where they await; Pipeline/Schedule: the interleavings of these
--     stretches as a step relation, with the invariant in Schedule/Accounted, Schedule/Workers and
--     Schedule/Safety.
--   Dhcp/Options, Dhcp/Message, Dhcp/Leases: `_options` and the readers of options, `parse_dhcp`,
--     and `DhcpParser` of src/field_discovery/dhcp.py.
--   Neighbor/Evidence, Neighbor/Tracker: `NeighborEvidence` with `parse_arp_evidence` and
--     `parse_kernel_neighbor`, and `NeighborTracker` with `ArpParser` of
--     src/field_discovery/neighbor.py.
--   Mdns/Name, Mdns/Message, Mdns/Fields, Mdns/Cache: `_read_name`, `_parse_message` with its
--     helpers, `_observation` with `_identity`, and `MDNSParser` of
--     src/field_discovery/mdns.py.
--   LinkLayer/Tlvs, LinkLayer/Values, LinkLayer/Lldp, LinkLayer/Cdp: the generators `_lldp_tlvs`
--     and `_cdp_tlvs`, the readers of values, `parse_lldp` and `parse_cdp` of
--     src/field_discovery/link_layer.py. A generator is the list that it yields and what it raises
--     behind it.
--   Capture: `decode_ethernet` and `_decode_ipv4_udp` of src/field_discovery/passive_service.py.
--   Collectors/Attempts, Collectors/Cycle: `_run_one` with its retries and its calls of the
--     repository, and `approve_target` with `CollectorOrchestrator.run` of
--     src/field_discovery/collectors.py.
--   Correlation/Identity, Correlation/Evidence: the normalisation and the checked constructors of
--     src/field_discovery/correlation.py; Correlation/UnionFind: the nested `find` and `union` of
--     `correlate`; Correlation/Merge and Correlation/Devices: the stretches of `correlate` from the
--     first loop to the decisions and from the groups to the result; Correlation/Conflicts:
--     `_find_conflicts`. UnionFind/Linked has the equivalence closure that the classes are
--     compared with.
--   Artifacts, Artifacts/Retention: `ArtifactStore` of src/field_discovery/artifacts.py, its
--     `_write` and `_publish`, and `_read_metadata`, `expired` and `prune_expired`.
--   Storage/Guard, Storage/Pruner, Storage/Tree: `DiskGuard`, `BackupPruner` and
--     `prune_artifact_tree` of src/field_discovery/storage.py. The backup root is a dictionary of
--     names and the artifact tree a list of stores; nobody else changes them during a call.
--   Scheduler: `build_invocations` and `run_cycle` of src/field_discovery/scheduler_service.py, the
--     commands that it runs and their outcomes. The runner is a parameter.
--   The modules named Examples hold small runs at which the theorems are applied.
--
-- State is passed explicitly: a method takes the object's record and returns the new one beside
-- its result. What a method raises is an `err` or, for the constructors of trackers, `none`. Text
-- is a list of code points, bytes are a list of numbers, an aware `datetime` is its count of
-- microseconds, and a reading of the monotonic clock is a count of ticks.
--
-- Fuel: the loops over DHCP options and over TXT items take a byte in each round, so their fuel is
-- the number of bytes. The loops over LLDP and CDP
-- elements likewise. The loop over the labels of an mDNS name takes at most 254 bytes of labels
-- and 16 pointers, so its fuel is 272. The loop of `find` goes to a
-- smaller key in each round, so its fuel is one more than the number of keys. All other loops are structural.
--
-- Parameters, since their code is not part of the source: Unicode case folding and the decoding of
-- UTF-8, `json.dumps` as a test of fields, the fingerprint of an
-- observation, which may fail, and the
-- redactor where a parser is handed one, and, for the collectors and for IPv6, the parser and the
-- printers of `ipaddress`, and for the correlation the IDNA codec, SHA-256 and the order in which
-- a set gives its members. The outcome of the sink, the output of the parsers and the
-- readings of the clock are arguments. A sink raises `CancelledError` only when its worker is
-- cancelled, and `start` is not called between the first await of `stop` and its end.
--
-- Not modelled: the event loop's fairness, the interleaving of collector tasks, sockets and
-- processes, the database, the single collectors, the reports and the command line.
pub mod Prelude
pub mod OrderedDict
pub mod Passive
pub mod Dhcp
pub mod Neighbor
pub mod Mdns
pub mod Collectors
pub mod LinkLayer
pub mod Capture
pub mod Correlation
pub mod Artifacts
pub mod Storage
pub mod Scheduler
