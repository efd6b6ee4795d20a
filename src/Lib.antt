-- ===== src/Lib.antt =====
-- Verification of LogiMate, a Windows utility for the Logitech wheels G25, G27 and Driving Force GT.
--
-- The program finds a wheel, reads its HID reports, keeps a registry of the connected wheels, and
-- writes force-feedback reports to it. Whoever writes holds the one output lease; a motor lease is
-- covered by a recovery marker on disk, and output ends by a stop that must prove the wheel neutral.
--
-- The files, and the code of the repository that they model:
--   Base            shared names, lists, integers, results, maps and ASCII text
--   Base/Float      float64 as executable IEEE 754 arithmetic, with Clamp of
--                   internal/wheelengine/native_protocol.go; Base/Float/Nan, Ranges: its laws
--   Safety          internal/system/native_ffb_windows.go (configuration, slew limit) and
--                   native_engine_profiles_windows.go (profiles, mixer)
--   Safety/Bounds   the ranges of configuration and mixer; Safety/Slew: the slew limit
--   Model           internal/wheelengine/model.go; Model/Adapter: model_adapter.go
--   Model/Certification   internal/wheelengine/certification.go
--   Protocol        internal/wheelengine/native_protocol.go; Protocol/Torque: its float functions
--   Protocol/Classic      the report builders of internal/system/native_ffb_windows.go,
--                   native_output_windows.go and native_ffb_conditions_windows.go
--   Protocol/Wire, Conditions, Force   what the reports mean, and their bounds
--   Input           internal/wheelengine/native_input.go; Input/Reference:
--                   internal/openg27port/g27_parser.go; Input/Shadow:
--                   internal/system/fusion_c4_windows.go; Input/Pino:
--                   internal/wheelengine/wreckfest_pino.go and internal/openg27port/pino.go
--   Manager         internal/wheelengine/manager.go; Manager/State: state.go
--   Scheduler       WheelOutput of internal/wheelengine/ffb_scheduler.go; Scheduler/Engine: its
--                   FFBEngine; Scheduler/Panic, Watchdog, Invalid: the theorems
--   Pipeline        the tuning of internal/wheelengine/ffb_pipeline.go; Pipeline/State, Frame:
--                   its FFBPipeline; Pipeline/Advanced: internal/system/advanced_ffb_windows.go; the
--                   other modules of Pipeline hold the theorems
--   GameAdapter     internal/gameadapter/types.go and udp.go; GameAdapter/Ring: the ring of frames;
--                   GameAdapter/Parsers: parsers.go; GameAdapter/Registry: registry.go and the
--                   queries of internal/system/telemetry_windows.go
--   Reference       internal/openg27port/core.go; Reference/Reports: lg4ff.go; Reference/Profiles:
--                   game_profile.go; Reference/Agreement, Tracker: the theorems
--   GameOutput      TryGetFrame of internal/system/fusion_c6_windows.go; GameOutput/Options: the
--                   options of its output, with fusion_c3_windows.go; GameOutput/Ceiling, Zero, Gate:
--                   the theorems
--   Output          internal/system/output_lease_windows.go, the stop of native_output_windows.go and
--                   completeNativeMotorStop; Output/State: its globals; Output/Worker: the
--                   goroutine of a constant-force test; Output/Coordinator: emergency stop and
--                   release; Output/Start: the test of a force and the rotation range;
--                   Output/Autocenter: the autocenter test; Output/Leds: the LED commands;
--                   Output/Events: runs of all of these; the other modules hold the
--                   theorems
--   SharedHid       the session of internal/system/g27_shared_hid_windows.go; SharedHid/State: its
--                   state; SharedHid/Open: its opening; SharedHid/Classic:
--                   classic_shared_hid_windows.go; SharedHid/Decode: the calibration of
--                   native_input_defaults_windows.go and the decoding of the G27 report;
--                   SharedHid/Input: what a read shows; SharedHid/Events: interleavings, with the
--                   open handles; the other modules hold the theorems
--   Migration       internal/system/migration_journal_windows.go; Migration/Changes: the changes of a
--                   begun migration; Migration/Recovery: its recovery; Migration/Events: runs; the
--                   other modules hold the theorems
--   InputProfiles   internal/system/input_profiles_windows.go: the file; InputProfiles/Axes: what a
--                   profile makes of a state; InputProfiles/Pedals, Carry: pedals_windows.go;
--                   InputProfiles/Saved, Made, Sound: the theorems
--   Discovery       the wheels of a state and the HID paths of one: internal/system/system_windows.go,
--                   wheels_windows.go and g27_shared_hid_windows.go; Discovery/Paths: the ranking of
--                   native_windows.go; Discovery/Target: the targets of native_output_windows.go;
--                   Discovery/Recovery: the marker file of release_hardening_windows.go and its
--                   recovery; Listed, Exact, Outcomes, Foreign: the theorems
--   Update          the version order of internal/system/update_windows.go; Update/Release: the choice
--                   of release and asset; Update/Download: the download; Order, Choice: the theorems
-- A module Examples of a component holds its runs at concrete values.
--
-- Functions keep the names of the code in lower case, and methods take their receiver first. The
-- globals of the output package are the fields of Output.World; the mixer feeds the builders of
-- Protocol, the starts use the slew limit of Safety and the reports of Protocol, and each change of a
-- lease is told to the registry of Manager.
--
-- Bounds. Go's int is an unbounded integer, but for the slew limit, which keeps the wrap-around of
-- 64 bits; the counters of 64 bits do not overflow; text is ASCII; a time is a number, 0 for the
-- zero time, in nanoseconds for the HID readers. A float that the registry only copies is its bit
-- pattern; any other is computed as on amd64, where Go does not fuse products into sums; `math.Pow`
-- is an argument where none of its special cases applies. A panic has at most 100000 rounds, as in
-- the code. Every other loop is recursion on a list or a number, so no fuel is needed. The results of
-- the operating system (HID writes, files, the named mutex, waits) are arguments of the operations,
-- and any values are allowed.
--
-- Interleavings. A step of the test goroutine happens before or after an operation, or while the
-- operation waits for the goroutine; an operation is otherwise one step.
--
-- A telemetry frame passes a parser, the ring of its adapter, the pipeline and the safety mixer before
-- the scheduler turns it into reports; a pump of the engine takes one frame or none.
--
-- A reader of HID reports shares its handle with the writers of the output. Opening, closing and reading
-- happen outside its lock, so the state of SharedHid/Events has the handles that were opened or lost
-- outside it.
--
-- A start and an emergency stop of Output take their target as an argument; Discovery/Target computes
-- it from the state that the last scan of the devices left.
--
-- Not modelled: the condition-effect workers, the goroutine and the LEDs of a game session, the
-- decoding of JSON, the HID transport, the enumeration of devices by Windows and the list of wheels
-- made from it, the switch to native mode, the rollback of drivers, the readiness gate and the
-- snapshots of the configuration, the network and the installers, and the user interface.
mod Base
pub mod Safety
pub mod Model
pub mod Protocol
pub mod Scheduler
pub mod Pipeline
pub mod Input
pub mod Manager
pub mod Output
pub mod GameAdapter
pub mod GameOutput
pub mod Reference
pub mod SharedHid
pub mod Migration
pub mod Update
pub mod InputProfiles
pub mod Discovery
