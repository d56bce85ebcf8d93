-- ===== src/FanFirst/Run.antt =====
-- What the fan-first automaton guarantees over every run.
use Prim.Native.String.{String}
use poise_thermostat.Base.{
  ◌≡◌, refl, ◌⊎◌, inl, inr, true, false, Option, none, some, List, [], ◌∷◌, arith, Bool-cases,
  Option-cases, is_some,
}
use poise_thermostat.Base.Int.{ℤ, ◌≤ℤ◌, ◌-ℤ◌, -ℤ_self, ltb_ℤ→le}
use poise_thermostat.Tick.{is_text}
use mathlib.Core.Path.{sym}
use poise_thermostat.FanFirst.Stage.{Offered, select_fan_stage-Offered}
use poise_thermostat.FanFirst.{
  FanFirstState, FanInput, FanFirstDecision, Phase, idle, await_fan_only, await_stage, dwell,
  yielded, engaged, fan_first_timeout_s, fan_first_decision, decide_idle, decide_engaged,
  decide_yielded, decide_on, assert_engaged, advance, on_fan_only, select_fan_stage,
  max_stage_velocity, restore_target, entry_ok, set_stage,
}

-- Where the state is engaged, its anchors are set and it was engaged at `e`.
abbrev Kept : FanFirstState → ℤ → ℤ → Type 0
Kept s e r =
    (engaged s.phase ≡ false)
    ⊎ (s.engaged_at ≡ some e) × (is_some s.phase_at ≡ true) × (s.room_at_entry ≡ some r)

module _ (s : FanFirstState) (i : FanInput) (e p r : ℤ) (he : s.engaged_at ≡ some e)
    (hp : s.phase_at ≡ some p) (hr : s.room_at_entry ≡ some r) where
  on_fan_only-Kept :
      (stage restore : Option String) → Kept (on_fan_only s i stage restore).state e r
  unfolding on_fan_only
  on_fan_only-Kept none restore = inl refl
  on_fan_only-Kept (some stage) restore = elim (Bool-cases (is_text i.observed_fan_mode stage)) [
    | inl h ↦ rw h (inr (he, refl, hr))
    | inr h ↦ rw h (inr (he, refl, hr))
  ]

  advance-Kept :
      (phase : Phase) (restore : Option String) → Kept (advance phase s i p r restore).state e r
  unfolding advance
  advance-Kept idle restore = inr (he, rw hp refl, hr)
  advance-Kept yielded restore = inr (he, rw hp refl, hr)
  advance-Kept await_fan_only restore = ground (
    arith,
    on_fan_only-Kept (select_fan_stage i.advertised_modes (max_stage_velocity i.operative)) restore,
  )
  advance-Kept await_stage restore = ground arith
  advance-Kept dwell restore = ground arith

  engaged-Kept :
      let d = decide_engaged s i e p r in
      Kept d.state e r × (engaged d.state.phase ≡ true → i.now -ℤ e ≤ℤ fan_first_timeout_s)
  unfolding decide_engaged
  engaged-Kept =
      let early = ltb_ℤ→le fan_first_timeout_s (i.now -ℤ e) in
      let kept = advance-Kept s.phase (restore_target s i) in ground (arith, kept, early)

-- An engaged state has its three anchors, and it was engaged at most the time budget before `now`.
abbrev pub Safe : FanFirstState → ℤ → Type 0
Safe s now =
    (engaged s.phase ≡ false)
    ⊎ ((e : ℤ) × (p : ℤ) × (r : ℤ) × (s.engaged_at ≡ some e)
        × (s.phase_at ≡ some p)
        × (s.room_at_entry ≡ some r)
        × (now -ℤ e ≤ℤ fan_first_timeout_s))

Kept-Safe :
    (s : FanFirstState) (e r now : ℤ)
    → Kept s e r
    → (engaged s.phase ≡ true → now -ℤ e ≤ℤ fan_first_timeout_s)
    → Safe s now
Kept-Safe s e r now k b = elim (Bool-cases (engaged s.phase)) [
  | inr off ↦ inl off
  | inl on ↦ elim (Option-cases s.phase_at) [
    | inl lost ↦ ground (arith, b on)
    | inr (p, h) ↦ elim k [ inl off ↦ inl off | inr (he, hp, hr) ↦ inr (e, p, r, he, h, hr, b on) ]
  ]
]

module _ (s : FanFirstState) (i : FanInput) where
  idle-Safe : s.phase ≡ idle → Safe (decide_idle s i).state i.now
  unfolding decide_idle
  idle-Safe h = elim (Bool-cases (entry_ok s i)) [
    | inl e ↦ rw e (inr (i.now, i.now, i.room, refl, refl, refl, rw (-ℤ_self i.now) (omega arith)))
    | inr e ↦ rw e (inl (rw h refl))
  ]

  yielded-Safe : s.phase ≡ yielded → Safe (decide_yielded s i).state i.now
  unfolding decide_yielded
  yielded-Safe h = elim (Bool-cases i.cool_requested) [
    | inl e ↦ rw e (inl (rw h refl))
    | inr e ↦ rw e (inl refl)
  ]

  assert-Safe :
      (before : ℤ)
      → engaged s.phase ≡ true
      → Safe s before
      → (d : FanFirstDecision) × (assert_engaged s i s.engaged_at s.phase_at s.room_at_entry
          ≡ some d)
        × Safe d.state i.now
  unfolding assert_engaged
  assert-Safe before on (inl off) = ground (arith, on, off)
  assert-Safe before on (inr (e, p, r, he, hp, hr, _)) =
      let (kept, budget) = engaged-Kept s i e p r he hp hr in
      (
        decide_engaged s i e p r,
        rw (he, hp, hr) refl,
        Kept-Safe (decide_engaged s i e p r).state e r i.now kept budget,
      )

  on_phase-Safe :
      (phase : Phase) (before : ℤ)
      → s.phase ≡ phase
      → Safe s before
      → (d : FanFirstDecision) × (decide_on phase s i ≡ some d) × Safe d.state i.now
  unfolding decide_on
  on_phase-Safe idle before h k = (decide_idle s i, refl, idle-Safe h)
  on_phase-Safe yielded before h k = (decide_yielded s i, refl, yielded-Safe h)
  on_phase-Safe await_fan_only before h k = assert-Safe before (rw h refl) k
  on_phase-Safe await_stage before h k = assert-Safe before (rw h refl) k
  on_phase-Safe dwell before h k = assert-Safe before (rw h refl) k

  decision-Safe :
      (before : ℤ)
      → Safe s before
      → (d : FanFirstDecision) × (fan_first_decision s i ≡ some d) × Safe d.state i.now
  unfolding fan_first_decision
  decision-Safe before h = on_phase-Safe s.phase before refl h

-- The state after a run, or `none` where an assertion fails.
abbrev continue :
    (FanFirstState → Option FanFirstState) → Option FanFirstDecision → Option FanFirstState
continue k none = none
continue k (some d) = k d.state

unfoldable pub run : List FanInput → FanFirstState → Option FanFirstState
run [] s = some s
run (i ∷ is) s = continue (run is) (fan_first_decision s i)

abbrev pub last_now : ℤ → List FanInput → ℤ
last_now t [] = t
last_now t (i ∷ is) = last_now i.now is

-- Over every run of the fan-first automaton from a state whose anchors are set where it is engaged,
-- with any inputs, no assertion fails, and after each run the state is not engaged or it was engaged
-- at most the time budget of thirty minutes before the last tick.
pub run-Safe :
    (s : FanFirstState) (t : ℤ) (is : List FanInput)
    → Safe s t
    → (s' : FanFirstState) × (run is s ≡ some s') × Safe s' (last_now t is)
unfolding run
run-Safe s t [] h = (s, refl, h)
run-Safe s t (i ∷ is) h =
    let (d, e, safe) = decision-Safe s i t h in
    let (s', reached, safe') = run-Safe d.state i.now is safe in (s', rw e reached, safe')

-- what a decision that commands a stage has seen
abbrev Staged : FanInput → FanFirstDecision → Type 0
Staged i d =
    (is_text i.observed_hvac_mode "fan_only" ≡ true)
    × (d.state.stage ≡ select_fan_stage i.advertised_modes (max_stage_velocity i.operative))
    × (is_some d.state.stage ≡ true)

module _ (s : FanFirstState) (i : FanInput) (e p r : ℤ) where
  on_fan_only-Staged :
      (stage restore : Option String)
      → (on_fan_only s i stage restore).command ≡ set_stage
      → ((on_fan_only s i stage restore).state.stage ≡ stage)
        × (is_some (on_fan_only s i stage restore).state.stage ≡ true)
  unfolding on_fan_only
  on_fan_only-Staged none restore h = ground arith
  on_fan_only-Staged (some stage) restore h = ground arith

  advance-Staged :
      (phase : Phase) (restore : Option String)
      → (advance phase s i p r restore).command ≡ set_stage
      → Staged i (advance phase s i p r restore)
  unfolding advance
  advance-Staged idle restore h = ground arith
  advance-Staged yielded restore h = ground arith
  advance-Staged await_fan_only restore h =
      let staged =
        on_fan_only-Staged (select_fan_stage i.advertised_modes (max_stage_velocity i.operative))
          restore in
      ground (arith, staged)
  advance-Staged await_stage restore h = ground arith
  advance-Staged dwell restore h = ground arith

  engaged-Staged :
      (decide_engaged s i e p r).command ≡ set_stage → Staged i (decide_engaged s i e p r)
  unfolding decide_engaged
  engaged-Staged h =
      let staged = advance-Staged s.phase (restore_target s i) in ground (arith, staged)

module _ (s : FanFirstState) (i : FanInput) (d : FanFirstDecision) where
  assert-Staged :
      (e p r : Option ℤ) → assert_engaged s i e p r ≡ some d → d.command ≡ set_stage → Staged i d
  unfolding assert_engaged
  assert-Staged (some e) (some p) (some r) h k =
      let staged = engaged-Staged s i e p r in ground (arith, staged)
  assert-Staged (some e) (some p) none h k = ground arith
  assert-Staged (some e) none r h k = ground arith
  assert-Staged none p r h k = ground arith

  on_phase-Staged :
      (phase : Phase) → decide_on phase s i ≡ some d → d.command ≡ set_stage → Staged i d
  unfolding decide_on decide_idle decide_yielded
  on_phase-Staged idle h k = ground arith
  on_phase-Staged yielded h k = ground arith
  on_phase-Staged await_fan_only h k = assert-Staged s.engaged_at s.phase_at s.room_at_entry h k
  on_phase-Staged await_stage h k = assert-Staged s.engaged_at s.phase_at s.room_at_entry h k
  on_phase-Staged dwell h k = assert-Staged s.engaged_at s.phase_at s.room_at_entry h k

-- A fan stage is commanded only on a tick on which the device reports `fan_only`, and the stage is
-- an advertised mode other than "auto" whose known air speed lies in the clamp for the operative
-- temperature.
set_stage-Offered :
    (s : FanFirstState) (i : FanInput) (d : FanFirstDecision)
    → fan_first_decision s i ≡ some d
    → d.command ≡ set_stage
    → (is_text i.observed_hvac_mode "fan_only" ≡ true)
      × (l : String) × (d.state.stage ≡ some l)
      × Offered (max_stage_velocity i.operative) i.advertised_modes l
unfolding fan_first_decision
set_stage-Offered s i d h k =
    let (seen, chosen, set) = on_phase-Staged s i d s.phase h k in
    elim (Option-cases d.state.stage) [
      | inl e ↦ ground (arith, set, e)
      | inr (l, e) ↦
          let picked = rw e at chosen in
          let offered =
            select_fan_stage-Offered (max_stage_velocity i.operative) i.advertised_modes l
              (sym picked) in
          (seen, l, e, offered)
    ]
