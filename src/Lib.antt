-- ===== src/Lib.antt =====
-- A CSI driver that keeps volumes as directories and block files of a host.
--
-- The gRPC methods of the driver (pkg/hostpath) work on a store of volumes, snapshots and groups of
-- snapshots (pkg/state), which is kept in memory and written as a whole to one file after every change.
-- Volumes get XFS project quotas (pkg/xfs). Every method runs under one mutex, so the methods are steps
-- on the store, and a run of the driver is a list of requests.
--
-- Prelude: names and tests that all share; Prelude.Int has Go's int64 with its wrap-around.
-- Exec: a method is a function from the store to a result and the store. The result is a value, an
--   error or a panic. What was written before an error stays written.
-- State: pkg/state/state.go and pkg/state/strings.go. `Store` is the state with the path of its file and
--   a world that the file operations read and change; `find`, `upsert` and `erase` are the loops of
--   GetVolumeByID, UpdateVolume and DeleteVolume, which snapshots and groups share. encoding/json and the
--   file operations are the parameter `Disk`, and `IsFaithful` is what a restart relies on.
-- Xfs: pkg/xfs/utils.go (Xfs.Units, Xfs.Ids, Xfs.Projects) and pkg/xfs/quotaer.go (Xfs.Quotaer). The state
--   of a quotaer is its map of directories. The commands, the file operations, the mount table and the order
--   in which Go walks through the map are the parameter `System`. The driver calls a quotaer through its
--   interface, `Quotaer` of HostPath.Env.
-- HostPath.Env: the configuration, and all that the methods call outside of the repository: the
--   operating system, mounts, loop devices, commands, UUIDs, the clock, the quotaer and the order in
--   which Go walks through a map. Nothing is assumed of them.
-- HostPath.Core, HostPath.Populate: the helpers of pkg/hostpath/hostpath.go.
-- HostPath.Controller (CreateVolume, DeleteVolume), HostPath.Attach (ControllerPublishVolume,
--   ControllerUnpublishVolume, ControllerExpandVolume, ControllerModifyVolume, GetCapacity,
--   ValidateVolumeCapabilities), HostPath.Snapshots (CreateSnapshot, DeleteSnapshot), HostPath.Listing
--   (ListSnapshots), HostPath.Volumes (ListVolumes, ControllerGetVolume), HostPath.Capabilities:
--   pkg/hostpath/controllerserver.go.
-- HostPath.Health: pkg/hostpath/healthcheck.go. Texts of its answers are constructors of `Message`.
-- HostPath.Groups: pkg/hostpath/groupcontrollerserver.go. A comparison of IDs sorts the slices of the
--   state in place, so it is a step on the state too.
-- HostPath.Publish, HostPath.Stage, HostPath.NodeInfo: pkg/hostpath/nodeserver.go.
-- HostPath.Identity: pkg/hostpath/identityserver.go and the capabilities of the group service.
-- HostPath.Lifecycle: the life of a volume as a state machine, apart from the code, and its invariant.
-- HostPath.Leads, HostPath.Ends: rules for what an action does to the volumes however it ends, and for
--   what it leaves behind when it succeeds.
-- HostPath.Service: the methods as one server, and its refinement of the life cycle.
-- HostPath.Start: NewHostPathDriver of pkg/hostpath/hostpath.go, which chooses the quotaer. HostPath.Flags:
--   pkg/hostpath/flag.go.
-- HostPath.Server: pkg/hostpath/server.go. What its methods do are functions; HostPath.Server.Process is the
--   process that Run of pkg/hostpath/hostpath.go makes of them, as steps of its two goroutines and of
--   whoever stops the server. HostPath.Server.Log is logGRPC, whose lines are a list. The library grpc is
--   the parameter `Grpc`.
-- Endpoint: pkg/endpoint/endpoint.go, with net.Listen, Close of a listener and os.Remove as the parameter
--   `Sockets`, of which `IsTracked` says what is documented.
-- Proxy: pkg/proxy/proxy.go. Run and Close are functions on the fields of a proxy; Proxy.Traffic has the
--   goroutines as program points, with a relation for each kind of step. io.Copy is the steps that read
--   some bytes that have arrived and write them, and one that returns.
-- Main: main.go, with flag.Parse and the wait for a signal as parameters.
-- Tests: concrete inputs.
--
-- Bounds: generateID's loop takes its rounds as an argument, and 65535 rounds are enough where an ID is
-- free; AddProject gives it 65536, once around the uint16, so a search that is not over then never ends.
-- A conversion to float64 rounds in 11 doublings, which is enough for 64 bits. No other function needs a
-- bound. The int64 of a float64 out of range, which Go leaves to the platform, is that of amd64; no caller
-- of ConvertBytesToString comes to it. The texts of errors and log lines are not modelled, and a count of entries of a slice does not wrap.
-- A quantity of the configuration is its value as a number.
--
-- Not modelled: the printing of flags, the texts of usage, the deprecation warning and the log of the
-- proxy, which are output; the stripping of secrets, of which logGRPC only prints the result; and the
-- signals that main listens to. pkg/hostpath/doc.go only restates the interfaces of the services and has
-- a demonstration that nothing calls.
pub mod Prelude
pub mod Exec
pub mod State
pub mod Xfs
pub mod Endpoint
pub mod Proxy
pub mod HostPath
pub mod Main
pub mod Tests
