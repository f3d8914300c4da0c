-- ===== src/Application/Workers/Delivery.antt =====
-- Which result `execute` of internal/application/coordinator.go hands to a stage.
use xarlatan.Common.{
  ℕ, ◌≡◌, refl, ap, ◌∙◌, inl, inr, true, false, none, some, List, [], ◌∷◌, ◌++◌, arith, ◌==◌,
  if◌then◌else◌, Bool-cases, All, length, leb, map, sym, some_inj, Option-cases,
}
use xarlatan.Application.{Reply, ok, err}
use xarlatan.Application.Workers.{
  Stage, stage_capture, stage_transcribe, stage_respond, stage_synthesize, stage_playback,
  stage_playback_write, stage_playback_finish, stage_playback_stop, code, same_stage, StageResult,
  Channels, capacity, send, publish, channel, Offer, turn_over, set_over, taken, Arrival, turn_done,
  set_done, received, is_mine, await, unwrap, execute,
}

ok_inj : {A : Type 0} {a b : A} → ok a ≡ ok b → a ≡ b
ok_inj h = cc

-- The stage of a code, to tell stages apart by their codes.
abbrev stage_of : ℕ → Stage
stage_of n =
    if n == 1
    then stage_capture
    else if n == 2
    then stage_transcribe
    else if n == 3
    then stage_respond
    else if n == 4
    then stage_synthesize
    else if n == 5
    then stage_playback
    else if n == 6
    then stage_playback_write
    else if n == 7
    then stage_playback_finish
    else stage_playback_stop

stage_of-code : (a : Stage) → stage_of (code a) ≡ a
stage_of-code stage_capture = refl
stage_of-code stage_transcribe = refl
stage_of-code stage_respond = refl
stage_of-code stage_synthesize = refl
stage_of-code stage_playback = refl
stage_of-code stage_playback_write = refl
stage_of-code stage_playback_finish = refl
stage_of-code stage_playback_stop = refl

same_stage_sound : (a b : Stage) → same_stage a b ≡ true → a ≡ b
unfolding same_stage
same_stage_sound a b h =
    let same : code a ≡ code b = ground (arith, h) in
    sym (stage_of-code a) ∙ ap stage_of same ∙ stage_of-code b

module _ {S : Type 0} (turn_id : ℕ) (target : Stage) where
  -- The receives without the results of other turns and stages.
  abbrev pub keep_mine : List (Arrival S) → List (Arrival S)
  keep_mine [] = []
  keep_mine (received r ∷ xs) =
      if is_mine turn_id target r then received r ∷ keep_mine xs else keep_mine xs
  keep_mine (x ∷ xs) = x ∷ keep_mine xs

  await-keep_mine :
      (xs : List (Arrival S)) → await turn_id target xs ≡ await turn_id target (keep_mine xs)
  unfolding await
  await-keep_mine [] = refl
  await-keep_mine (turn_done f ∷ xs) = refl
  await-keep_mine (set_done (some f) g ∷ xs) = refl
  await-keep_mine (set_done none g ∷ xs) = refl
  await-keep_mine (received r ∷ xs) = elim (Bool-cases (is_mine turn_id target r)) [
    | inl e ↦ rw (e, await) (rw e refl)
    | inr e ↦ rw (e, await) (await-keep_mine xs)
  ]

  -- Results that other turns and stages left in the channel change nothing.
  pub execute-keep_mine :
      (offer : Offer) (xs : List (Arrival S))
      → execute turn_id target offer xs ≡ execute turn_id target offer (keep_mine xs)
  unfolding execute
  execute-keep_mine (turn_over f) xs = refl
  execute-keep_mine (set_over f) xs = refl
  execute-keep_mine taken xs = rw (await-keep_mine xs, execute) refl

  await_mine :
      (xs : List (Arrival S)) (r : StageResult S)
      → await turn_id target xs ≡ some (ok r)
      → is_mine turn_id target r ≡ true
  unfolding await
  await_mine [] r h = absurd (cc)
  await_mine (turn_done f ∷ xs) r h = absurd (cc)
  await_mine (set_done (some f) g ∷ xs) r h = absurd (cc)
  await_mine (set_done none g ∷ xs) r h = absurd (cc)
  await_mine (received x ∷ xs) r h = elim (Bool-cases (is_mine turn_id target x)) [
    | inl e ↦
        let same : x ≡ r = ok_inj (some_inj (rw (e, await) at h)) in
        ap (is_mine turn_id target) (sym same) ∙ e
    | inr e ↦ await_mine xs r (rw (e, await) at h)
  ]

  unwrap_ok :
      (a : Reply (StageResult S)) (r : StageResult S)
      → unwrap a ≡ ok r
      → (a ≡ ok r) × (r.error ≡ none)
  unfolding unwrap
  unwrap_ok (err f) r h = absurd (cc)
  unwrap_ok (ok x) r h = elim (Option-cases x.error) [
    | inl e ↦
        let same : x ≡ r = ok_inj (rw (e, unwrap) at h) in
        (ap ok same, ap (λ (y : StageResult S). y.error) (sym same) ∙ e)
    | inr (f, e) ↦ let bad : err f ≡ ok r = rw (e, unwrap) at h in absurd (cc)
  ]

  is_mine_sound :
      (r : StageResult S)
      → is_mine turn_id target r ≡ true
      → (r.turn_id ≡ turn_id) × (r.stage ≡ target)
  unfolding is_mine
  is_mine_sound r h = (ground (arith, h), same_stage_sound r.stage target (ground (arith, h)))

  -- What a stage hands on is a result of this turn and of the stage that was asked, without an error.
  pub execute_mine :
      (offer : Offer) (xs : List (Arrival S)) (r : StageResult S)
      → execute turn_id target offer xs ≡ some (ok r)
      → (r.turn_id ≡ turn_id) × (r.stage ≡ target) × (r.error ≡ none)
  unfolding execute
  execute_mine (turn_over f) xs r h = absurd (cc)
  execute_mine (set_over f) xs r h = absurd (cc)
  execute_mine taken xs r h = elim (Option-cases (await turn_id target xs)) [
    | inl e ↦ absurd (ground (arith, e, h))
    | inr (a, e) ↦
        let (same, clean) = unwrap_ok a r (some_inj (rw (e, execute) at h)) in
        let mine = await_mine xs r (e ∙ ap some same) in
        let (id, stage) = is_mine_sound r mine in (id, stage, clean)
  ]

  -- Foreign results in front are passed over.
  pub await_behind :
      (before : List (StageResult S)) (r : StageResult S)
      → All (λ x. is_mine turn_id target x ≡ false) before
      → is_mine turn_id target r ≡ true
      → await turn_id target (map received (before ++ r ∷ [])) ≡ some (ok r)
  unfolding await
  await_behind [] r f mine = rw (mine, await) refl
  await_behind (x ∷ before) r f mine = rw (f.0, await) (await_behind before r f.1 mine)

send_sound :
    {S : Type 0} (q q' : List (StageResult S)) (r : StageResult S)
    → send q r ≡ some q'
    → q' ≡ q ++ r ∷ []
unfolding send
send_sound q q' r h = elim (Bool-cases (leb capacity (length q))) [
  | inl full ↦ absurd (ground (arith, full, h))
  | inr room ↦ sym (some_inj (rw (room, send) at h))
]

publish-channel :
    {S : Type 0} (c c' : Channels S) (r : StageResult S)
    → publish c r ≡ some c'
    → channel c' r.stage ≡ channel c r.stage ++ r ∷ []
unfolding publish channel
publish-channel {S = S} c c' r h = elim (Bool-cases (same_stage r.stage stage_respond)) [
  | inl e ↦ elim (Option-cases (send c.responses r)) [
    | inl full ↦ absurd (ground (arith, e, full, h))
    | inr (q, room) ↦
        let same : record c { responses = q } ≡ c' = some_inj (rw (e, room, publish) at h) in
        rw (e, channel)
          (ap (λ (d : Channels S). d.responses) (sym same) ∙ send_sound c.responses q r room)
  ]
  | inr e ↦ elim (Option-cases (send c.results r)) [
    | inl full ↦ absurd (ground (arith, e, full, h))
    | inr (q, room) ↦
        let same : record c { results = q } ≡ c' = some_inj (rw (e, room, publish) at h) in
        rw (e, channel)
          (ap (λ (d : Channels S). d.results) (sym same) ∙ send_sound c.results q r room)
  ]
]

-- A result that a worker publishes reaches the stage that waits for it, also behind results that
-- earlier turns left in its channel.
pub publish-await :
    {S : Type 0} (c c' : Channels S) (r : StageResult S)
    → publish c r ≡ some c'
    → All (λ x. is_mine r.turn_id r.stage x ≡ false) (channel c r.stage)
    → await r.turn_id r.stage (map received (channel c' r.stage)) ≡ some (ok r)
publish-await c c' r h foreign = rw (publish-channel c c' r h) (
    await_behind r.turn_id r.stage (channel c r.stage) r foreign
      (unfold is_mine same_stage in ground arith))
