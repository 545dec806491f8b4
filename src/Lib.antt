-- ===== src/Lib.antt =====
-- A model of unifi-stubd, a daemon that presents a stub network device to a UniFi controller. The
-- device announces itself, sends encrypted status packets ("informs") on a schedule, and learns from
-- the controller's answers and from SSH commands to which controller it belongs. It never changes its
-- host: an answer or a command touches one small file, the adoption state. The ports of the device are
-- built from a profile, from overrides of the operator and from what is observed of the host.
--
-- The parts, in the order in which an inform passes them, with the files of the repository:
--   Inform.Packet, Inform.Padding, Inform.Codec: internal/inform/packet.go, padding.go, crypto.go,
--     compression.go, encode.go and decode.go. `encode_json` is EncodeJSON, `decode` is Decode and
--     `decode_controller_response` is DecodeControllerResponse. Inform.Crypto holds AES, zlib and the
--     random source as a record of functions; what the code relies on of them is `IsSound`.
--   Inform.Schedule: internal/inform/schedule.go, with durations as int64 nanoseconds whose overflow
--     wraps, as in Go. The two random draws of the jitter are a parameter.
--   Inform.Clock: internal/inform/controller_clock.go.
--   Adoption.Json, Adoption.Blocks, Adoption.ServerTime, Adoption.Response: internal/adoption/json.go,
--     content_blocks.go, blocks.go, safety.go and response.go. `parse_controller_response_info` is
--     ParseControllerResponseInfo. The decoder of encoding/json is the record `Json`.
--   Adoption.MgmtCfg, Adoption.Validate: internal/adoption/mgmtcfg.go and the checks of env.go.
--     net/url.Parse is the parameter `parse_url`.
--   Adoption.State, Adoption.Store, Adoption.Env, Adoption.Merge: internal/adoption/state.go, fields.go
--     and env.go. `load_env` is LoadEnv, `save_env` is SaveEnv, `merge` is Merge.
--   AtomicFile: internal/atomicfile/write.go. The state is the file and its temporary file; which calls
--     of the operating system fail in a run is the record `Faults`.
--   Adoption.Update: cmd/unifi-stubd/adoption.go. `update_adoption_state` is updateAdoptionState.
--   Heartbeat: cmd/unifi-stubd/serve_heartbeat.go. `send_inform_heartbeat` is sendInformHeartbeat over
--     what it reads and changes, the record `Daemon`; the result of its sendInform is a parameter.
--   Heartbeat.Presence: cmd/unifi-stubd/serve_presence.go. `maintain` is the loop of
--     maintainControllerPresence over a list of rounds, one for each heartbeat until the daemon stops.
--     A round says whether the file cannot be read and whether payloadForIdentity returns an error.
--   AdoptionSsh: internal/adoptionssh/parse.go, commands.go, handler.go, state.go and types.go.
--     `execute` is Execute and `command_fields` is CommandFields.
--   Discovery: internal/discovery/tlv.go. `marshal_binary` is Announcement.MarshalBinary.
--   Device.Layout, Device.Build: internal/device/port_layout.go, ports.go, port_build.go and
--     port_fields.go, over the records of Device (profile.go, port_types.go, override_types.go).
--     `build_ports` is BuildPorts.
--   Device.Override: internal/device/overrides.go and the files override_*.go beside it.
--     `validate_port_override` is ValidatePortOverride, `apply_port_overrides` is ApplyPortOverrides and
--     `wan_health_overrides` is WANHealthOverrides.
--   Device.Profiles: internal/device/profile_validate.go and NormalizeProfile of profile.go.
--     `validate_profile` is validateProfile.
--   Device.Registry: internal/device/registry.go and registry_*.go, and profile_defaults.go.
--     `register_record` is registerRecord and `lookup_profile` is LookupProfile.
--   Device.Policy: internal/device/profile_protocol.go, inform_schedule.go and controller_reporting.go.
--   Device.Neighbors: internal/device/port_neighbors.go.
--   Device.Mac, Device.Topology: internal/device/topology.go. `resolve_topology` is ResolveTopology.
--     Device.Mac is net.ParseMAC and HardwareAddr.String.
--   Observe: internal/observe/model.go, snapshot_types.go, classify.go (Observe.Classify),
--     snapshot_members.go (Observe.Members), snapshot_macs.go (Observe.Macs), snapshot_stats.go
--     (Observe.Stats), snapshot.go and snapshot_normalize.go (Observe.Snapshots), and snapshot_apply.go
--     (Observe.Overlay for one port, Observe.Apply for all). `host_snapshot_from_source` is
--     HostSnapshotFromSource and `apply_snapshot` is Apply, with `none` for a panic.
--   Observe.Fdb: internal/adapters/linuxbridge/fdb.go and internal/observe/snapshot_fdb.go, over the
--     lines that bufio.Scanner gives.
--   Observe.PortMap: internal/observe/portmap/mapping.go and internal/observe/ifsource/apply.go.
--   Config.Yaml, Config.Migrate: internal/config/migrate.go, over the trees of nodes of Config.
--     `migrate_root` is migrateRoot. The decoder of the package for YAML is the record `Yaml`. A node
--     that an alias shares with its anchor is a node of its own here.
-- Prelude holds what they share: Boolean tests, lists, results with an error, int64 arithmetic, and
-- Go strings as lists of bytes. Tests runs the definitions and the theorems at concrete inputs.
--
-- How the code is read: a Go error is a constructor for what went wrong, without its message; a nil
-- value is `none`; a map is a list of its entries; a loop with early returns is a recursion over its
-- list with `Result`. Three functions run on fuel. `execute` needs one more than the length of the
-- command line, since what stands behind `sh -c` is shorter than the line; the digits of a decimal
-- number need one more than the number; the receiver of Discovery, which is a description and not
-- code, needs one for each record and one more. A float64 is its 64 bits, of which only the order and
-- the sign are read. strings.ToLower stands over the ASCII letters, in which MAC addresses, roles,
-- device types and interfaces are written. A Go map is a list of entries whose order is the order of
-- an iteration, and sort.Slice is an insertion sort. net.ParseIP followed by To4 is the parameter
-- `is_ipv4`. The counts of ports in a profile are natural numbers whose sums fit an int.
--
-- What is not modelled: sockets, HTTP and SSH connections, log lines other than the audit of SSH
-- commands, the text of errors, locks (a handler runs one command after the other), and the file modes
-- of the adoption file. The command parser of AdoptionSsh stands over the bytes of a UTF-8 text, where
-- the code goes over its characters: every byte that it looks for is ASCII. The warnings of a topology
-- are not sorted, and comments, styles and positions of YAML nodes are left out. Between two
-- rounds of the loop no SSH command changes the adoption file. The sending of an announcement, the
-- status file of the last inform, the payloads of an inform, the readers of the host's files and tools,
-- the files of profiles, the rest of the configuration and the command line have no model.
pub mod Prelude
pub mod Inform
pub mod Discovery
pub mod Adoption
pub mod AdoptionSsh
pub mod Heartbeat
pub mod Device
pub mod Tests
pub mod AtomicFile
pub mod Config
pub mod Observe
