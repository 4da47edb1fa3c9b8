-- ===== src/Lib.antt =====
-- nodux watches the containers of a host: a poll loop and an event loop feed detectors, the engine
-- turns what they report into episodes and alerts, silences hold alerts back, incidents group them,
-- and routes choose the receivers. This library models that core and proves properties of it.
--
-- The parts and their files. The paths are those of the repository.
-- - Detector/Types: internal/detector/detector.go, the snapshots, events and issues that all parts
--   exchange. Detector/Truncate: `Truncate`. Detector/Labels: labels.go, the settings in container
--   labels. Detector/Signal: `ParseSignal` in signals.go.
-- - Detector/Exit: signals.go (the tracker of stop requests) and exit.go; Exit/History compares
--   the detector with the history of events. Detector/CrashLoop: crashloop.go, with Episodes on
--   how `HandleEvent` and `Check` fit together and Restore on what a restart keeps.
--   Detector/HostOom: hostoom.go, with Tally on its counts. Detector/Expected: expected.go, with
--   Grace on its grace period. Detector/Gate: gate.go, with Hysteresis on when it opens.
--   Detector/Memory: memory.go, which puts a gate before each container, with Restart on its saved
--   state.
-- - Engine: internal/engine/engine.go, the state of `Engine` that the methods below touch.
--   Engine/Track: `track`, `trackAt`, `trackLocked`, `trackSet`, `resolveContainer`, `resolution`,
--   `isSilenced`, `silencedLocked` and `flushDeferred`. Engine/Told, Rounds and Alternation follow
--   what receivers are told of an episode; Sets follows which episodes are open. Engine/Events and
--   Replay: the closure and the loop of `runEvents`. Engine/Upkeep: `coolingDown`, `noteRun`,
--   `noteImage`, `pruneImages`, `forgetContainer` and the helpers beside them; Cooldown is about
--   the first of these. Engine/Dispatch: the loop of `dispatch` in dispatch.go, with Delivery on
--   the alerts that go through it; Dispatch/Send: `deliver`, `analyze` and `send`, and
--   `AlertFromIssue` of internal/history/history.go, with Accounts on what they count.
--   Engine/Persist: persist.go, `saveState`, `restore` and `knownDetectors`, with Episodes on the
--   open episodes and Resume on the event stream. Engine/Report: `report`, with Scrubbed on what
--   it queues. Engine/Inspect: `toSnapshot`, and the answers of the daemon in
--   internal/dockerclient/types.go. Engine/Notice and Handle: `handleEvent`, with Destroyed on a
--   container that is removed. Engine/Look and Poll: `pollOnce`, with Gone on containers that are
--   not listed any more. Engine/Loops: a round of `runPoll` and of `runProbes`, with Backoff on
--   the waits, Outage and Daemon on the alert about the daemon and Scrubbed on the queue. Resolved, Keeps
--   and Held are lemmas on what resolves, tracks and leaves episodes.
-- - Silence: internal/silence/silence.go. The engine calls `silenced` in Engine/Track.
-- - Incident: internal/incident/incident.go, the grouper that the engine's dispatch drives.
-- - Action/Route: internal/action/route.go, `Notification` of action.go and `firing` of
--   telegram.go. Action/Http: internal/action/http.go, the queue and the worker of an action over
--   HTTP; Attempts is about one delivery and Queue about sequences of calls.
-- - Config: internal/config/config.go, its structs. Config/Default: `Default`. Config/Checks:
--   `checkThreshold`, `checkURL` and how checks follow each other; Decide says what a check
--   decides. Config/Probes, Receiver and Validate: the three `validate` methods, each with what it
--   accepts (Valid; Validate/Measures for the detectors and the host). Config/Env: `expandEnv`,
--   with Filled on what the texts become and Missing on the variables that its error names.
-- - Digest/Schedule: internal/digest/schedule.go, with Next on the loop of `Next` and Accepted on
--   `ParseSchedule`, which the configuration calls.
-- - Llm: internal/llm/anthropic.go. Llm/Budget: the hourly budget and `run`, with Cap on the
--   requests of an hour. Llm/Converse: `converse` and `callTools`, with Rounds on the requests
--   that are sent.
-- - Probe: internal/probe/probe.go, the counting in `Check` and the state, with Streak on when a
--   target is reported and Restart on what is kept. Probe/Cert: internal/probe/cert.go.
-- - Redact: internal/redact/redact.go, with Hidden on what masking shows of a text. In the engine
--   a redactor is a function on messages and lines, since a message keeps its parts.
-- - Base, Dict and Sort: shared names, maps as association lists, and stable sorting.
--
-- How state and code correspond. A method is a function from its receiver to what it returns and
-- the new receiver; a mutex is not modelled, since each method is one step under it. A Go map is an
-- association list, a nil pointer `none`, and a loop over a map goes through the list in its order.
-- Where a sequence of calls matters it is a list of operations that a function `run` carries out. A
-- method reads the clock once, as an argument `now`; times are natural numbers, nanoseconds since
-- Go's zero time, and a difference that Go compares with a duration is written as a sum, so no
-- subtraction stops at 0. Durations that parts are given are not negative; in the configuration
-- they are integers, and its checks say which are not negative. Counters of incidents, kills,
-- failures and messages do not wrap; the multiplication that turns a label's seconds into a
-- duration wraps at 64 bits, as in the code. All recursion is structural but for three loops.
-- `deliver` and `converse` count their rounds in the code, and the model counts down what is left:
-- two attempts after the first, and the rounds of tool calls. The loop of the schedule runs on fuel
-- for seven days after the first, which Digest/Schedule proves to be enough.
--
-- What is not under the repository is a parameter: `path.Match`, the parsers of strconv, strings
-- and time in the records `Parsers`, the calendar in the record `Calendar`, float64 in the records
-- `Floats` and `Percents`, the packages that check the configuration, the environment in the record
-- `Env`, the endpoint of an action, the API and the tools of a model, and what a probe comes to, in
-- records `World` and `Probed`. Saved state is the value that is encoded, with an error where the memory
-- detector has a number that JSON refuses; JSON text, logging and
-- the text of messages are not modelled: a message is a list of texts, numbers and durations.
--
-- The loops take steps in any order: a round of polls, a round of probes, or an event. A round is one
-- step, so an event that comes while a poll runs is handled before it or after it. Each step is given
-- what the daemon answers in it. Detectors are functions on a state that they share, and the text
-- of bytes is a parameter, in the record `Utf8`.
--
-- Not modelled: the state file, the heartbeat, the wiring of the parts, the detectors of throttling,
-- pressure, disk and CPU, health checks, the oom event and the contents of the digest. The Docker
-- client, the store of the history, server, prompts, texts for people and command line are mostly
-- input and output. Of `Options` and `Engine` only the fields that the modelled methods use are
-- there.
pub mod Base
pub mod Config
pub mod Dict
pub mod Digest
pub mod Sort
pub mod Detector
pub mod Incident
pub mod Silence
pub mod Engine
pub mod Action
pub mod Llm
pub mod Probe
pub mod Redact
