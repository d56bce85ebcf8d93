-- ===== src/Episode/Budget.antt =====
-- How often an episode rings (custom_components/poise/comfort/vent_episode.py).
use Prim.Native.String.{String}
use poise_thermostat.Base.{
  ℕ, ◌+◌, ◌-◌, ◌≤◌, ◌≡◌, refl, inl, inr, Bool, true, false, not, ◌&&◌, ◌||◌, List, [], ◌∷◌, arith,
  Bool-cases, if◌then◌else◌, ◌∙◌, sym, leb,
}
use poise_thermostat.Base.Int.{ℤ}
use poise_thermostat.Episode.{
  EpisodePhase, phase_idle, phase_requested, phase_ventilating, phase_stop_requested,
  phase_cooldown, in_stop, in_running, CooldownCause, EpisodeConfig, EpisodeState, prompt_due,
  spend, fresh_episode, enter, episode_cap,
}
use poise_thermostat.Episode.Moves.{
  EpisodeTick, EpisodeResult, protection_abort, out, quiet, begin, ask, ring, stop, settle,
  ventilate,
}
use poise_thermostat.Episode.Step.{
  reopen, remind, renew_stop, insist, wake, step_idle, step_requested, step_ventilating, step_stop,
  step_cooldown, step_in, noticed, episode_step,
}
use poise_thermostat.Episode.Run.{run_episode, step_stop-elim}
use poise_thermostat.Ventilation.{VentAction, action_close}

-- the larger of the two ceilings over an episode
abbrev pub ceiling : EpisodeConfig → ℕ
ceiling cfg =
    if leb cfg.max_prompts_per_episode cfg.max_prompts_per_episode_protection
    then cfg.max_prompts_per_episode_protection
    else cfg.max_prompts_per_episode

abbrev pub one_if : Bool → ℕ
one_if true = 1
one_if false = 0

-- The prompts of an episode stay below the ceiling, and it escalates once at most, into a stop that is
-- latched.
pub record IsBudgeted (cfg : EpisodeConfig) (s : EpisodeState) : Type 0 where
  pub reminders : s.episode_prompts ≤ ceiling cfg
  pub once : s.escalations ≤ 1
  pub unlatched : s.emergency ≡ false → in_running s.phase ≡ true → s.escalations ≡ 0
  pub latch : s.emergency ≡ true → in_stop s.phase ≡ true

-- what an episode that runs may still ring
abbrev pub left_to_ring : EpisodeConfig → EpisodeState → ℕ
left_to_ring cfg s =
    if in_running s.phase then ceiling cfg + 1 - (s.episode_prompts + s.escalations) else 0

-- A tick keeps the budget, and where the episode stays the same it pays for its prompt.
abbrev Pays : EpisodeConfig → EpisodeState → EpisodeResult → Type 0
Pays cfg s r =
    IsBudgeted cfg r.state
    × (s.episode_id ≤ r.state.episode_id)
    × (r.state.episode_id ≡ s.episode_id
        → one_if r.prompt + left_to_ring cfg r.state ≤ left_to_ring cfg s)

quiet-state :
    (cfg : EpisodeConfig) (k : EpisodeTick) (s : EpisodeState)
    → ((quiet cfg k s).state ≡ s) × ((quiet cfg k s).prompt ≡ false)
unfolding quiet out
quiet-state cfg k s = ground arith

step_idle-Pays :
    (cfg : EpisodeConfig) (k : EpisodeTick) (s : EpisodeState)
    → s.phase ≡ phase_idle
    → IsBudgeted cfg s
    → Pays cfg s (step_idle cfg k s)
unfolding step_idle begin enter ring ask out quiet episode_cap
step_idle-Pays cfg k s e h = ground (arith, e, h)

step_requested-Pays :
    (cfg : EpisodeConfig) (k : EpisodeTick) (s : EpisodeState)
    → s.phase ≡ phase_requested
    → IsBudgeted cfg s
    → Pays cfg s (step_requested cfg k s)
unfolding step_requested ventilate stop settle enter ring ask remind spend prompt_due out quiet
    episode_cap
step_requested-Pays cfg k s e h = ground (arith, e, h)

step_ventilating-Pays :
    (cfg : EpisodeConfig) (k : EpisodeTick) (s : EpisodeState)
    → s.phase ≡ phase_ventilating
    → IsBudgeted cfg s
    → Pays cfg s (step_ventilating cfg k s)
unfolding step_ventilating stop settle enter ring ask out quiet episode_cap
step_ventilating-Pays cfg k s e h = ground (arith, e, h)

waited-IsBudgeted :
    (cfg : EpisodeConfig) (s : EpisodeState) (t : ℤ)
    → IsBudgeted cfg s
    → IsBudgeted cfg (record s { unknown_dwell_min = t })
waited-IsBudgeted cfg s t h = record {
  reminders = h.reminders;
  once = h.once;
  unlatched = h.unlatched;
  latch = h.latch;
}

-- nothing is rung into the quiet time
settle-Pays :
    (cfg : EpisodeConfig) (k : EpisodeTick) (s t : EpisodeState) (cause : CooldownCause)
    (scope : String)
    → IsBudgeted cfg s
    → t.episode_id ≡ s.episode_id
    → t.episode_prompts ≡ s.episode_prompts
    → t.escalations ≡ s.escalations
    → Pays cfg s (quiet cfg k (settle cfg k t cause scope))
unfolding settle enter quiet out
settle-Pays cfg k s t cause scope h i p x = ground (arith, h, i, p, x)

remind-Pays :
    (cfg : EpisodeConfig) (k : EpisodeTick) (s t : EpisodeState) (a : VentAction)
    → in_running s.phase ≡ true
    → IsBudgeted cfg s
    → IsBudgeted cfg t
    → t.phase ≡ s.phase
    → t.episode_id ≡ s.episode_id
    → t.episode_prompts ≡ s.episode_prompts
    → t.escalations ≡ s.escalations
    → Pays cfg s (remind cfg k t a)
unfolding remind spend out prompt_due episode_cap
remind-Pays cfg k s t a e h g f i p x = ground (arith, e, f, h, g, i, p, x)

renew_stop-IsBudgeted :
    (cfg : EpisodeConfig) (k : EpisodeTick) (s : EpisodeState)
    → s.phase ≡ phase_stop_requested
    → IsBudgeted cfg s
    → IsBudgeted cfg (renew_stop k s)
      × ((renew_stop k s).phase ≡ s.phase)
      × ((renew_stop k s).episode_id ≡ s.episode_id)
      × ((renew_stop k s).episode_prompts ≡ s.episode_prompts)
      × ((renew_stop k s).escalations ≡ s.escalations)
      × ((renew_stop k s).emergency ≡ s.emergency || protection_abort k)
unfolding renew_stop protection_abort
renew_stop-IsBudgeted cfg k s e h = ground (arith, e, h)

-- the one escalation of an episode
escalate-Pays :
    (cfg : EpisodeConfig) (k : EpisodeTick) (s t : EpisodeState) (r lv : String)
    → s.phase ≡ phase_stop_requested
    → s.emergency ≡ false
    → t.emergency ≡ true
    → IsBudgeted cfg s
    → t.phase ≡ s.phase
    → t.episode_id ≡ s.episode_id
    → t.episode_prompts ≡ s.episode_prompts
    → t.escalations ≡ s.escalations
    → Pays cfg s (out cfg k (record t { escalations = t.escalations + 1 }) action_close r lv true)
unfolding out
escalate-Pays cfg k s t r lv e n m h f i p x = ground (arith, e, n, m, h, f, i, p, x)

insist-Pays :
    (cfg : EpisodeConfig) (k : EpisodeTick) (s t : EpisodeState)
    → t.phase ≡ phase_stop_requested
    → s.phase ≡ t.phase
    → IsBudgeted cfg s
    → IsBudgeted cfg t
    → t.episode_id ≡ s.episode_id
    → t.episode_prompts ≡ s.episode_prompts
    → t.escalations ≡ s.escalations
    → t.emergency ≡ s.emergency
    → Pays cfg s (insist cfg k t)
unfolding insist
insist-Pays cfg k s t e f h g i p x m =
    let (b, ph, id, pr, es, em) = renew_stop-IsBudgeted cfg k t e g in
    elim (Bool-cases (protection_abort k && not t.emergency)) [
      | inl a ↦ rw a (
          escalate-Pays cfg k s (renew_stop k t) (renew_stop k t).reason (renew_stop k t).level
            (f ∙ e) (ground (arith, a, m)) (ground (arith, a, em)) h (ph ∙ sym f) (id ∙ i) (pr ∙ p)
            (es ∙ x))
      | inr a ↦ rw a (
          remind-Pays cfg k s (renew_stop k t) action_close (rw (f ∙ e) refl) h b (ph ∙ sym f)
            (id ∙ i) (pr ∙ p) (es ∙ x))
    ]

reopen-Pays :
    (cfg : EpisodeConfig) (k : EpisodeTick) (s : EpisodeState)
    → s.phase ≡ phase_stop_requested
    → s.emergency ≡ false
    → IsBudgeted cfg s
    → Pays cfg s (reopen cfg k s)
unfolding reopen ventilate enter ring ask out episode_cap
reopen-Pays cfg k s e m h = ground (arith, e, m, h)

step_stop-Pays :
    (cfg : EpisodeConfig) (k : EpisodeTick) (s : EpisodeState)
    → s.phase ≡ phase_stop_requested
    → IsBudgeted cfg s
    → Pays cfg s (step_stop cfg k s)
step_stop-Pays cfg k s e h =
    step_stop-elim (Pays cfg s) cfg k s
      (λ d cause scope.
        settle-Pays cfg k s (record s { unknown_dwell_min = d }) cause scope h refl refl refl)
      (λ m. reopen-Pays cfg k s e m h)
      λ d.
        insist-Pays cfg k s (record s { unknown_dwell_min = d }) e refl h
          (waited-IsBudgeted cfg s d h) refl refl refl refl

step_cooldown-Pays :
    (cfg : EpisodeConfig) (k : EpisodeTick) (s : EpisodeState)
    → s.phase ≡ phase_cooldown
    → IsBudgeted cfg s
    → Pays cfg s (step_cooldown cfg k s)
unfolding step_cooldown wake enter out quiet
step_cooldown-Pays cfg k s e h = ground (arith, e, h, step_idle-Pays cfg k (wake s) refl)

step_in-Pays :
    (p : EpisodePhase) (cfg : EpisodeConfig) (k : EpisodeTick) (s : EpisodeState)
    → s.phase ≡ p
    → IsBudgeted cfg s
    → Pays cfg s (step_in p cfg k s)
unfolding step_in
step_in-Pays phase_idle cfg k s e h = step_idle-Pays cfg k s e h
step_in-Pays phase_requested cfg k s e h = step_requested-Pays cfg k s e h
step_in-Pays phase_ventilating cfg k s e h = step_ventilating-Pays cfg k s e h
step_in-Pays phase_stop_requested cfg k s e h = step_stop-Pays cfg k s e h
step_in-Pays phase_cooldown cfg k s e h = step_cooldown-Pays cfg k s e h

episode_step-Pays :
    (cfg : EpisodeConfig) (s : EpisodeState) (k : EpisodeTick)
    → IsBudgeted cfg s
    → Pays cfg s (episode_step cfg s k)
unfolding episode_step noticed
episode_step-Pays cfg s k h =
    step_in-Pays s.phase cfg k (noticed cfg k s) refl
      (record { reminders = h.reminders; once = h.once; unlatched = h.unlatched; latch = h.latch })

-- the prompts of a run
unfoldable pub rung : EpisodeConfig → EpisodeState → List EpisodeTick → ℕ
rung cfg s [] = 0
rung cfg s (k ∷ ks) =
    one_if (episode_step cfg s k).prompt + rung cfg (episode_step cfg s k).state ks

fresh-IsBudgeted : (cfg : EpisodeConfig) → IsBudgeted cfg fresh_episode
fresh-IsBudgeted cfg = ground arith

run_episode-IsBudgeted :
    (cfg : EpisodeConfig) (s : EpisodeState) (ks : List EpisodeTick)
    → IsBudgeted cfg s
    → IsBudgeted cfg (run_episode cfg s ks) × (s.episode_id ≤ (run_episode cfg s ks).episode_id)
unfolding run_episode
run_episode-IsBudgeted cfg s [] h = (h, omega arith)
run_episode-IsBudgeted cfg s (k ∷ ks) h =
    let (b, up, _) = episode_step-Pays cfg s k h in
    let (b', up') = run_episode-IsBudgeted cfg (episode_step cfg s k).state ks b in
    (b', omega arith)

rung-left :
    (cfg : EpisodeConfig) (s : EpisodeState) (ks : List EpisodeTick)
    → IsBudgeted cfg s
    → (run_episode cfg s ks).episode_id ≡ s.episode_id
    → rung cfg s ks ≤ left_to_ring cfg s
unfolding run_episode rung
rung-left cfg s [] h e = omega arith
rung-left cfg s (k ∷ ks) h e =
    let t = (episode_step cfg s k).state in
    let (b, up, pay) = episode_step-Pays cfg s k h in
    let (_, up') = run_episode-IsBudgeted cfg t ks b in
    let same : t.episode_id ≡ s.episode_id = omega arith in
    omega (arith, pay same, rung-left cfg t ks b (e ∙ sym same))

left-le-ceiling : (cfg : EpisodeConfig) (s : EpisodeState) → left_to_ring cfg s ≤ ceiling cfg + 1
left-le-ceiling cfg s = ground arith

-- From any state that a run from the fresh state reaches, the ticks of a run that stays in the same
-- episode ring at most once more than the larger of the two ceilings over an episode.
pub episode_rings :
    (cfg : EpisodeConfig) (before ks : List EpisodeTick)
    → let s = run_episode cfg fresh_episode before in
      (run_episode cfg s ks).episode_id ≡ s.episode_id → rung cfg s ks ≤ ceiling cfg + 1
episode_rings cfg before ks e =
    let s = run_episode cfg fresh_episode before in
    let (b, _) = run_episode-IsBudgeted cfg fresh_episode before (fresh-IsBudgeted cfg) in
    omega (arith, rung-left cfg s ks b e, left-le-ceiling cfg s)

-- After every run from the fresh state the prompts of the episode are within the ceiling, and it has
-- escalated once at most.
escalates_once :
    (cfg : EpisodeConfig) (ks : List EpisodeTick)
    → IsBudgeted cfg (run_episode cfg fresh_episode ks)
escalates_once cfg ks = (run_episode-IsBudgeted cfg fresh_episode ks (fresh-IsBudgeted cfg)).0
