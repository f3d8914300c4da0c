-- ===== src/Tests/Voice.antt =====
-- A voice turn with a streamed reply, and one that is broken off.
use xarlatan.Common.{
  ℕ, ◌+◌, ◌≡◌, refl, Bool, true, false, Option, none, some, [], ◌∷◌, if◌then◌else◌, ◌==◌,
}
use xarlatan.Common.Text.{codes, trim_space, trim_left, trim_right, is_space}
use xarlatan.Audio.{Buffer, empty, validate}
use xarlatan.Phrases.{push, flush, new_sentence_buffer, boundary, is_terminator}
use xarlatan.Application.{is_canceled, canceled, ok, err, AppError, context_application_error}
use xarlatan.Application.Recorder.{emit, new_turn_recorder}
use xarlatan.Application.Coordinator.{delta, workers_done, response, Voice, Ending}
use xarlatan.Application.Coordinator.Streaming.{
  Stream, fresh, stream_loop, complete_streaming_response,
}
use xarlatan.Application.Coordinator.Turns.{run_turn, run, returned}
use xarlatan.Application.Coordinator.Loop.{run_no_error}
use xarlatan.Application.Coordinator.Stale.{keep_mine, stream_loop-keep_mine}
use xarlatan.Common.{map, List}
use xarlatan.Application.Workers.{
  stage_transcribe, StageResult, Channels, publish, channel, taken, Arrival, received, is_mine,
  await, execute,
}
use xarlatan.Application.Workers.Delivery
use xarlatan.Application.Workers.Delivery.{execute-keep_mine, execute_mine, publish-await}
use xarlatan.Application.Interrupts.{
  Watch, event, watch_interrupts, FirstAt, watch_interrupts_sound, watch_interrupts_complete,
}

abbrev chunk : Buffer ℕ
chunk = record { samples = 1 ∷ 2 ∷ []; sample_rate = 16000; channels = 1 }

-- The world counts the calls of the microphone; after two of them it fails, and the context ends.
abbrev silent_room : Voice ℕ ℕ
silent_room = record {
  poll = λ w. (w, if w == 2 then some canceled else none);
  capture = λ w. (w + 1, if w == 0 then ok chunk else err is_canceled);
  transcribe = λ b w. (w, ok (codes "hola"));
  wake = none;
  show_user = λ t w. w;
  show_assistant = λ t w. w;
  supports_streaming = true;
  respond = λ t w. (w, ok (codes "Hi."));
  synthesize = λ t w. (w, ok chunk);
  play = λ b w. (w, none);
  submit = λ t w. (w, none);
  signals = λ w.
      delta 9 (codes "old")
      ∷ delta 1 (codes "Hi.")
      ∷ response 1 true (ok (codes "Hi.")) ((9, codes "old") ∷ [])
      ∷ [];
  write = λ b w. (w, none);
  finish = λ w. (w, some is_canceled);
  workers_ended = λ w. (w, false);
  stop_now = λ w. w;
  stop = λ w. (w, none);
}

abbrev from_some : {A : Type 0} → A → Option A → A
from_some d none = d
from_some d (some a) = a

-- What the microphone hears, and what the assistant makes of it.
abbrev turn_one : Ending ℕ
turn_one = from_some (0, new_turn_recorder 1, none) (run_turn silent_room 0 1)

run_runs : run silent_room 9 0 0 ≡ returned 1 none
unfolding run empty validate trim_space trim_right trim_left is_space emit push new_sentence_buffer
    boundary is_terminator flush context_application_error
run_runs = refl

abbrev no_problem : Option AppError
no_problem = none

run_no_error_example : no_problem ≡ none
run_no_error_example = run_no_error silent_room 9 0 1 0 none run_runs

abbrev talking : Stream ℕ
talking = record {
  world = 0;
  turn = new_turn_recorder 1;
  state = record fresh { wrote_audio = true; speaking_state = true };
}

stream_loop-keep_mine_example :
    stream_loop silent_room talking (silent_room.signals 0)
    ≡ stream_loop silent_room talking (keep_mine talking.turn.turn_id (silent_room.signals 0))
stream_loop-keep_mine_example = stream_loop-keep_mine silent_room talking (silent_room.signals 0)

-- A world that says whether it sounds.
abbrev loudspeaker : Voice Bool ℕ
loudspeaker = record {
  poll = λ w. (w, none);
  capture = λ w. (w, ok chunk);
  transcribe = λ b w. (w, ok (codes "hola"));
  wake = none;
  show_user = λ t w. w;
  show_assistant = λ t w. w;
  supports_streaming = true;
  respond = λ t w. (w, ok (codes "Hi."));
  synthesize = λ t w. (w, ok chunk);
  play = λ b w. (false, none);
  submit = λ t w. (w, none);
  signals = λ w. delta 1 (codes "Hi. ") ∷ workers_done is_canceled ∷ [];
  write = λ b w. (true, none);
  finish = λ w. (false, none);
  workers_ended = λ w. (w, false);
  stop_now = λ w. false;
  stop = λ w. (false, none);
}

-- A phrase is being played when the workers end.
abbrev cut_short : Ending Bool
cut_short =
    from_some (true, new_turn_recorder 1, none)
      (complete_streaming_response loudspeaker false (new_turn_recorder 1) (codes "hola"))

-- A transcription left over from turn 1, and the one of turn 2.
abbrev late : StageResult ℕ
late = record {
  turn_id = 1;
  stage = stage_transcribe;
  buffer = none;
  text = codes "old";
  error = none;
}

abbrev fresh_result : StageResult ℕ
fresh_result = record late { turn_id = 2; text = codes "new" }

abbrev receives : List (Arrival ℕ)
receives = received late ∷ received fresh_result ∷ []

execute-keep_mine_runs :
    execute 2 stage_transcribe taken receives
    ≡ execute 2 stage_transcribe taken (Delivery.keep_mine 2 stage_transcribe receives)
execute-keep_mine_runs = execute-keep_mine 2 stage_transcribe taken receives

execute_runs : execute 2 stage_transcribe taken receives ≡ some (ok fresh_result)
unfolding execute
execute_runs = refl

execute_mine_example :
    (fresh_result.turn_id ≡ 2)
    × (fresh_result.stage ≡ stage_transcribe)
    × (fresh_result.error ≡ none)
execute_mine_example = execute_mine 2 stage_transcribe taken receives fresh_result execute_runs

abbrev before : Channels ℕ
before = record { results = late ∷ []; responses = [] }

abbrev behind : Channels ℕ
behind = record { results = late ∷ fresh_result ∷ []; responses = [] }

publish-await_example :
    await 2 stage_transcribe (map received (channel behind stage_transcribe))
    ≡ some (ok fresh_result)
unfolding publish channel is_mine
publish-await_example = publish-await before behind fresh_result refl (refl, tt)

-- An event for the turn before, and one for this turn.
abbrev watched : List Watch
watched =
    event (record { turn_id = 1; latency = 5 }) ∷ event (record { turn_id = 2; latency = 7 }) ∷ []

watch_interrupts_runs : watch_interrupts 2 watched ≡ some 7
unfolding watch_interrupts
watch_interrupts_runs = refl

watch_interrupts_sound_example : FirstAt 2 7 watched
watch_interrupts_sound_example = watch_interrupts_sound 2 7 watched watch_interrupts_runs

watched-FirstAt : FirstAt 2 7 watched
watched-FirstAt =
    FirstAt.there (event (record { turn_id = 1; latency = 5 })) _ refl (FirstAt.here _ [] refl refl)

watch_interrupts_complete_runs : watch_interrupts 2 watched ≡ some 7
watch_interrupts_complete_runs = watch_interrupts_complete watched-FirstAt
