-- ===== src/Lib.antt =====
-- xarlatan is a local voice assistant. This library models the logic of its Go sources, function by
-- function, and proves what makes each part correct.
--
-- The program. A voice turn captures an utterance, transcribes it, passes the transcript through the
-- wake gate, asks an agent for a reply and speaks it, whole or phrase by phrase while it streams in
-- (internal/application). The capture relies on a voice activity detector (internal/vad) and keeps
-- the chunks before an utterance (internal/audio). The wake detector (internal/wake) and the
-- barge-in policy (internal/barge) read transcripts, which the speech recogniser filters first
-- (internal/stt). The agent behind the responder is a loop of model calls and tool rounds
-- (internal/orchestrator) over a registry of allowed tools (internal/tools). A bounded memory
-- (internal/memory) keeps the conversation between turns; a session (internal/conversation) runs each
-- turn of the agent between two of its operations.
--
-- Files and sources.
--   Common, Common/Lists, Common/Tests, Common/Text, Common/Results: lists over native numbers,
--     Boolean tests, texts as lists of code points with strings.TrimSpace, results with do.
--   Unicode: the part of package unicode that the sources call, as a record; `latin`
--     instantiates it for ASCII and the accented vowels.
--   Phrases: internal/application/sentence_buffer.go (push, flush, take_ready are Push, Flush,
--     takeReady), with proofs in Phrases/Scan, Phrases/Loop, Phrases/Content and Phrases/Caps.
--     Positions count code points where the source counts bytes.
--   Wake: internal/wake/detector.go (new_phrase_detector, detect), with proofs in Wake/Words,
--     Wake/Match and Wake/Compile.
--   Barge: internal/barge/policy.go (confirm), with proofs in Barge/Agree and Barge/Confirm.
--   Stt: internal/stt/filter.go.
--   Vad: internal/vad/detector.go and energy_compat.go; Vad/Contract states the laws of the
--     interface, Vad/Real the floating-point operations as a record. Vad/Energy is
--     internal/vad/vad.go, Vad/Silero is internal/vad/sherpa/silero.go; their modules Lawful fill
--     the contract, Vad/Energy/Trailing is about trailing silence.
--   Audio, Audio/Preroll: internal/audio/buffer.go and preroll.go.
--   Audio/Capture and below: internal/audio/continuous_capture.go. Read is readLoop, Barge
--     processBargeChunk, Source the constructor, Next, SetSuppressed, Close and the process. The
--     relation of Reached is any sequence of these, beside what the microphone has yielded; Heard,
--     Tracked, Kept and Sound carry its proofs, Read/Queues those on the channels.
--   Audio/Single: recordFromReader of internal/audio/capture.go, with its proof in Audio/Single/Pieces.
--   Audio/Rearm: waitForStableSilence of internal/audio/rearm.go, with its proof in Audio/Rearm/Still.
--   Conversation: internal/conversation/session.go, over any memory and agent; Conversation/Kept takes
--     the memory of internal/memory.
--   Memory and below: internal/memory. Turns is conversationMessages and splitTurns, Summaries
--     the extractive summarizer, Update holds New, Update and Prepare. Turns/Shape, Cut, Bounded, Kept
--     and Reached carry the proofs.
--   Application, Application/Recorder: the vocabulary and the turn recorder of
--     internal/application/application.go.
--   Application/Coordinator and below: internal/application/coordinator.go and wake.go. Turns
--     holds runTurn, the wake gate and Run; Streaming holds completeStreamingResponse and what it
--     calls. Walks proves the state machine of a turn, Loop is about Run, Stale about messages of
--     other turns, Hush about the player.
--   Application/Workers: execute, submit, await and publish of coordinator.go, with proofs in
--     Application/Workers/Delivery. Application/Interrupts: watchInterrupts of interrupt.go.
--     Application/BargeIn: Subscribe of barge_in.go.
--   Tools, Tools/Executor: internal/tools/policy.go, tool.go and executor.go, with proofs in
--     Tools/Registered and Tools/Runs.
--   Orchestrator: internal/orchestrator/runtime.go and the traces of observability.go, with
--     proofs in Orchestrator/Rounds and Orchestrator/Suppressed; Orchestrator/Metrics is its
--     MetricsObserver.
--   Tests and below: runs of the models and instances of the theorems.
--
-- How state and concurrency are modelled. Code that calls outside works on a world of any type W,
-- passed from call to call: a record of operations (Voice, Machine, AgentRuntime, AgentOps, Listener, Backend) says what is
-- called. A context may end at any time, so each look at it is an operation of its own. What one
-- receive of a select loop yields is an element of a list, in the order of the receives, whatever
-- other goroutines do; a streamed turn whose list runs out is still waiting. A long function is cut
-- at its calls into a function for each rest, as the comments say. A channel is the list of what it
-- buffers; the recorder and the goroutines that use it take turns, one step at a time.
--
-- Bounds. Phrases.take_loop has as much fuel as there are code points. Orchestrator.run has one round
-- more than MaxToolRounds. The loop over turns has fuel for any number of turns, since it need not
-- end. Sample counts are natural numbers; the sources use int there and no sum comes near its range.
--
-- Not modelled: clocks, logs and durations; the goroutines of the workers; the native speech
-- engines and detectors, of which only the calls appear; the recording processes, playback devices,
-- configuration, network and file tools, the agent protocol, installation.
pub mod Common
pub mod Unicode
pub mod Phrases
pub mod Wake
pub mod Barge
pub mod Stt
pub mod Vad
pub mod Audio
pub mod Tools
pub mod Orchestrator
pub mod Memory
pub mod Conversation
pub mod Application
mod Tests
