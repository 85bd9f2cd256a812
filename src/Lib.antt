-- ===== src/Lib.antt =====
-- Verification library of wol, a program that wakes, watches and shuts down machines.
--
-- The parts and how they interact. A command or the terminal interface calls the wake service
-- (internal/wake), which reads devices, sites and relays from the store (internal/store), finds a
-- route, parses the device's MAC address and sends a magic packet itself (internal/wol) or asks a
-- router to do so over SSH; it may then wait for a TCP port, and it records one attempt. The
-- fleet runner (internal/fleet) applies an operation to many machines with bounded concurrency.
-- Presence (internal/presence) tells which machines are up. Power control (internal/power) runs
-- shutdown commands over SSH. The remote flow (internal/remoteflow) waits for a machine, waking it
-- through the wake service if it may, and hands its remote profile to a desktop program
-- (internal/remoteopen), to a game stream, or to a browser session on this host
-- (internal/localremote); it owns the sessions that it starts. The scanner and the doctor read
-- their targets from internal/networkconfig. The updater (internal/updater) compares
-- versions, checks a release against its checksum manifest and the manifest against its signature
-- (internal/releasesign), extracts the binary and replaces the executable.
--
-- Files.
-- Prelude: shared names, integers, Boolean tests, lists, and results with errors.
-- Text: Go strings as code points, with trimming, splitting, decimal and hexadecimal text.
-- Net: IPv4 addresses as `net.IP` and `net.ParseIP` give them.
-- Packet: internal/wol/packet.go, `ParseMAC` and `BuildMagicPacket`; Packet.Mac and Packet.Magic
--   prove them; Packet.Send is `Send` with its loop, Packet.Verify is `WaitForTCP` of verify.go.
-- Store: the records of internal/store. Store.Db holds the tables, the statements and transactions,
--   `newID` and `normalizeDBError`; Store.Sites, Devices, Groups, Relays, Profiles and Attempts are
--   the operations on the tables (store.go, relay.go, site_config.go, remote_profile.go,
--   power_profile.go); Store.Transfer is `Export` and `Import`. Store.Links says when the tables are
--   closed; Store.Logic and Store.Rules are rules for what an operation ensures; Store.Replace,
--   Writes, Upserts, Imports, Deletes and Atomic apply them.
-- Rules: the checks before a write: Rules.Subnet is `Broadcast` of internal/netutil/ipv4.go,
--   Rules.Sites `normalizeSite`, Rules.Machines the import checks and the defaults of relays and
--   power profiles, Rules.Remote `normalizeRemoteProfile`; their Laws,
--   and Rules.Remote.Texts, Hosts and Addresses, say what they let through.
-- Wake: internal/wake/service.go, `ResolveRoute`; Wake.Service is `WakeDevice`, Wake.Etherwake is
--   relay.go; Wake.Routes, Wake.Laws and Wake.Conduct hold the proofs.
-- Inventory: the store as the repository of the wake service, and what a wake does to the store.
-- Presence: internal/presence/presence.go, the checks of a target and `Summarize`; Presence.Probe is
--   `Probe` with its stages and `ProbeBatch`, which Presence.Laws proves.
-- Broker: internal/localremote, the configuration and the credentials with their checks;
--   Broker.Vaults is vault.go, Broker.Hosts the host names, Broker.Token token.go, Broker.Pages the
--   view of page.go; Broker.Requests, Handler and Serve are `brokerHandler` of session.go, a handler
--   for each route; Broker.Commands and Docker are docker.go and orphans.go; Broker.Start is `Start`;
--   Broker.Gate, Link, Launch, Forms, SignIn, Remembered, Items, Secrets, Sidecars, Teardown and
--   Startup hold the proofs.
-- Desk: internal/remoteflow/flow.go; Desk.Reach is `ensureReachable`, Desk.Flow the rest of `Open`
--   before the lock, Desk.Registries what `Open`, `Stop` and `Close` do under it, Desk.Worlds the
--   interleaving of these parts; Desk.Urls is internal/remoteopen; Desk.Leaks, Upkeep, Custody,
--   Conduct and Profiles hold the proofs.
-- Targets: internal/networkconfig/network.go, the targets and their check; Targets.Dotenv is env.go
--   and `LoadNetworkTargetsWithEnv`; Targets.Laws and Targets.Loading hold the proofs.
-- Fleet: internal/fleet/fleet.go, the start of `Run`; Fleet.Steps is the loop of its workers as a
--   step relation; Fleet.Count, Bounds, Progress, Finish, Run and Guarantees hold the proofs;
--   Fleet.Operations is `Check` and `Wake`.
-- Power: internal/power/service.go, `Execute`; Power.Platforms is driver.go, Power.Args is
--   `DefaultSSHRunner`.
-- Updater: internal/updater/updater.go, `CompareVersions`, with Updater.Versions and
--   Updater.Numbers for its laws; Updater.Checksum is `checksumForAsset` of checksum.go, which
--   Updater.Manifest proves; Updater.Download is `downloadVerifiedAsset`, with `ReadFile`,
--   `ParsePublicKey` and `Verify` of internal/releasesign/signature.go, which Updater.Trust proves;
--   Updater.Zip is `countZipDirectory` of zip_limits.go and Updater.Preflight the preflight around it,
--   which Updater.Entries proves; Updater.Extract is `ExtractBinary` with limits.go, proved by
--   Updater.Budget and Origins; Updater.Assets is `MatchAsset`, proved by Updater.Platforms;
--   Updater.Releases fetches releases and makes a client; Updater.Replace is `ReplaceExecutable`,
--   proved by Updater.Disks, Swaps, Installed and Success; Updater.Update is `ExecuteUpdate`, proved
--   by Updater.Obtained and Updated.
-- Examples: runs and instances at concrete inputs.
--
-- State and environment. The repository, the hooks, the network, the dialers, the clock, the `ssh`
-- program, the scheduler and the failures of the database are parameters, so the theorems hold for
-- each of their behaviours. What a function does to the world is a part of its result: the datagrams
-- on the wire, the commands that ran, the events of a wake, the tables. Errors are values.
--
-- The store. The tables are lists of rows with the constraints of the schema that `migrate` makes;
-- foreign keys are not among them, since SQLite enforces these on request only and the program does
-- not ask. A statement may fail by a constraint or for a reason of the environment, which also gives
-- the clock and the random suffixes of identifiers; a transaction that does not commit leaves the
-- tables as they were. The operations run one at a time, as on the one connection of the program.
--
-- Bounds. `WaitForTCP` runs on fuel, one round for each second of its timeout and two more, since
-- a failed round takes a second or goes up to the deadline. The loop over the magic packet has a
-- bound of one round for each byte. Integers of Go are integers without a bound where the program
-- does not compute near the ends of their range.
--
-- Sessions. The broker answers one request at a time: its handlers touch the shared fields under a
-- lock. The manager of the remote flow is a list of events in any order, one for each part under
-- its lock, for each session that starts, is stopped or ends by itself.
--
-- The updater. The disk gives each path its content. Each call of the system may fail, and one that
-- fails changes nothing but the file that it writes; `CreateTemp` takes a name that no file has. A
-- member of an archive is what a read of so many bytes of it gives.
--
-- Not modelled: the opening and the migrations of the database, the readers of archives and the one
-- that keeps the budget of a tar file, the `Close` of a browser session but the one of a failed
-- `Start`, its proxy and HTML, the scanner and the doctor, the terminal interface, the command line
-- and HTTP clients. What Docker does with a command is not modelled either: it answers each with an
-- outcome that is a parameter.
mod Prelude
pub mod Text
pub mod Net
pub mod Packet
pub mod Power
pub mod Store
pub mod Rules
pub mod Fleet
pub mod Wake
pub mod Inventory
pub mod Presence
pub mod Broker
pub mod Desk
pub mod Targets
pub mod Updater
pub mod Examples
