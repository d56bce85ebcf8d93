-- ===== src/Boiler/Cycle.antt =====
-- Runs of `step_boiler` over a list of ticks (custom_components/poise/control/hub_aggregate.py): the
-- times of its switches.
use mathlib.Core.Path.{subst, sym}
use poise_thermostat.Base.{
  ◌≡◌, refl, ◌⊎◌, inl, inr, Bool, true, false, not, Option, none, some, List, [], ◌∷◌, arith,
  if◌then◌else◌, Option-cases, All,
}
use poise_thermostat.Base.Int.{ℤ, ◌≤ℤ◌, ◌-ℤ◌, ltb_ℤ, leb_ℤ, -ℤ_parts, le→leb_ℤ}
use poise_thermostat.Boiler.{Timing, BoilerState, call_for, step_boiler, latch, eq_bool}

-- the dwell that a switch away from `on` has to respect
abbrev pub dwell : Timing → Bool → ℤ
dwell c on = if on then c.min_on_s else c.min_off_s

-- A tick that switches the boiler comes at least the dwell after the last switch and calls the
-- boiler's new state; a tick that does not switch leaves the switch time alone and calls, if
-- anything, the state that stands.
pub step_boiler-switch :
    (c : Timing) (s : BoilerState) (demand : Bool) (now : ℤ) (keep : Bool)
    → let r = step_boiler c s demand now keep in
      ((dwell c s.on ≤ℤ now -ℤ s.last_switch_mono)
        × (r.state.on ≡ not s.on)
        × (r.state.last_switch_mono ≡ now)
        × (r.call ≡ some (call_for (not s.on))))
      ⊎ ((r.state.on ≡ s.on)
          × (r.state.last_switch_mono ≡ s.last_switch_mono)
          × ((r.call ≡ none) ⊎ (r.call ≡ some (call_for s.on))))
unfolding step_boiler ltb_ℤ leb_ℤ
step_boiler-switch c s demand now keep = ground arith

-- A tick's demand, its monotonic time and whether the keep-alive is allowed.
abbrev pub BoilerTick : Type 0
BoilerTick = Bool × ℤ × Bool

abbrev pub after : Timing → BoilerState → BoilerTick → BoilerState
after c s (demand, now, keep) = (step_boiler c s demand now keep).state

abbrev pub run : Timing → BoilerState → List BoilerTick → BoilerState
run c s [] = s
run c s (t ∷ ts) = run c (after c s t) ts

note : Bool → ℤ → List ℤ → List ℤ
note true now rest = now ∷ rest
note false now rest = rest

-- The times at which a run switches the boiler.
unfoldable pub switch_times : Timing → BoilerState → List BoilerTick → List ℤ
unfolding note
switch_times c s [] = []
switch_times c s (t ∷ ts) =
    note (not (eq_bool (after c s t).on s.on)) t.1 (switch_times c (after c s t) ts)

-- From the state `on` since `t`, each switch comes at least the dwell of the state that it leaves
-- after the one before.
abbrev pub Dwells : Timing → Bool → ℤ → List ℤ → Type 0
Dwells c on t [] = Unit
Dwells c on t (u ∷ us) = (dwell c on ≤ℤ u -ℤ t) × Dwells c (not on) u us

not-eq_bool : (b : Bool) → not (eq_bool (not b) b) ≡ true
not-eq_bool true = refl
not-eq_bool false = refl

eq_bool_self : (b : Bool) → not (eq_bool b b) ≡ false
eq_bool_self true = refl
eq_bool_self false = refl

-- one tick in front of a run, by the new state's `on` and switch time
note-Dwells :
    (c : Timing) (on on' : Bool) (last last' now : ℤ) (us : List ℤ)
    → ((dwell c on ≤ℤ now -ℤ last) × (on' ≡ not on) × (last' ≡ now)) ⊎ ((on' ≡ on) × (last' ≡ last))
    → Dwells c on' last' us
    → Dwells c on last (note (not (eq_bool on' on)) now us)
unfolding note
note-Dwells c on on' last last' now us (inl (waits, flips, stamped)) d =
    let d' = rw (flips, stamped) at d in rw (flips, not-eq_bool on) (waits, d')
note-Dwells c on on' last last' now us (inr (stays, kept)) d =
    let d' = rw (stays, kept) at d in rw (stays, eq_bool_self on) d'

-- Over every run, from every state and with every demand, each switch of the boiler comes at least
-- the minimum on or off time after the switch before it.
pub switch_times-Dwells :
    (c : Timing) (s : BoilerState) (ts : List BoilerTick)
    → Dwells c s.on s.last_switch_mono (switch_times c s ts)
unfolding switch_times
switch_times-Dwells c s [] = tt
switch_times-Dwells c s (t ∷ ts) =
    note-Dwells c s.on (after c s t).on s.last_switch_mono (after c s t).last_switch_mono t.1 _
      (elim (step_boiler-switch c s t.0 t.1 t.2) [
        | inl h ↦ inl (h.0, h.1, h.2)
        | inr h ↦ inr (h.0, h.1)
      ])
      (switch_times-Dwells c (after c s t) ts)

-- The activation latch is empty or was set at `u` or later.
abbrev Since : ℤ → Option ℤ → Type 0
Since u none = Unit
Since u (some t) = u ≤ℤ t

latch-Since :
    (u : ℤ) (since : Option ℤ) (demand : Bool) (now : ℤ)
    → Since u since
    → u ≤ℤ now
    → Since u (latch since demand now)
unfolding latch
latch-Since u since false now h k = tt
latch-Since u none true now h k = k
latch-Since u (some t) true now h k = h

after-since :
    (c : Timing) (s : BoilerState) (t : BoilerTick)
    → (after c s t).demand_true_since ≡ latch s.demand_true_since t.0 t.1
unfolding step_boiler
after-since c s t = ground arith

-- A switch from off to on has seen the demand for the activation delay.
on_waits :
    (c : Timing) (u : ℤ) (s : BoilerState) (demand : Bool) (now : ℤ) (keep : Bool)
    → Since u (latch s.demand_true_since demand now)
    → s.on ≡ false
    → (step_boiler c s demand now keep).state.on ≡ true
    → c.activation_delay_s ≤ℤ now -ℤ u
unfolding step_boiler leb_ℤ
on_waits c u s demand now keep h off on = elim (Option-cases s.demand_true_since) [
  | inl e ↦ ground (arith, -ℤ_parts now u, -ℤ_parts now now)
  | inr (t, e) ↦ ground (arith, -ℤ_parts now u, -ℤ_parts now t)
]

-- The ticks come at `u` or later.
abbrev pub From : ℤ → List BoilerTick → Type 0
From u [] = Unit
From u (t ∷ ts) = (u ≤ℤ t.1) × From u ts

-- The times at which a run switches the boiler on.
note_on : Bool → Bool → ℤ → List ℤ → List ℤ
note_on false true now rest = now ∷ rest
note_on _ _ now rest = rest

unfoldable pub on_times : Timing → BoilerState → List BoilerTick → List ℤ
unfolding note_on
on_times c s [] = []
on_times c s (t ∷ ts) = note_on s.on (after c s t).on t.1 (on_times c (after c s t) ts)

note_on-All :
    (P : ℤ → Type 0) (a b : Bool) (now : ℤ) (rest : List ℤ)
    → (a ≡ false → b ≡ true → P now)
    → All P rest
    → All P (note_on a b now rest)
unfolding note_on
note_on-All P false true now rest h k = (h refl refl, k)
note_on-All P false false now rest h k = k
note_on-All P true b now rest h k = k

on_times-Since :
    (c : Timing) (u : ℤ) (s : BoilerState) (ts : List BoilerTick)
    → Since u s.demand_true_since
    → From u ts
    → All (λ now. c.activation_delay_s ≤ℤ now -ℤ u) (on_times c s ts)
unfolding on_times
on_times-Since c u s [] h f = tt
on_times-Since c u s (t ∷ ts) h f =
    let l = latch-Since u s.demand_true_since t.0 t.1 h f.0 in
    note_on-All _ s.on (after c s t).on t.1 _ (on_waits c u s t.0 t.1 t.2 l)
      (on_times-Since c u (after c s t) ts (rw (after-since c s t) l) f.1)

-- A tick without demand at `u` holds the boiler off for the activation delay: over every later run
-- it is switched on no earlier than the delay after `u`.
on_times-delay :
    (c : Timing) (s : BoilerState) (u : ℤ) (keep : Bool) (ts : List BoilerTick)
    → From u ts
    → All (λ now. c.activation_delay_s ≤ℤ now -ℤ u) (on_times c (after c s (false, u, keep)) ts)
on_times-delay c s u keep ts f =
    on_times-Since c u (after c s (false, u, keep)) ts
      (rw (after-since c s (false, u, keep)) (unfold latch in tt)) f

-- A run of ticks that all call for heat.
abbrev pub Calling : List BoilerTick → Type 0
Calling [] = Unit
Calling (t ∷ ts) = (t.0 ≡ true) × Calling ts

-- on, or off with the latch set at `t0` and the switch time at `l`
abbrev Heating : ℤ → ℤ → BoilerState → Type 0
Heating t0 l s =
    (s.on ≡ true) ⊎ (s.on ≡ false) × (s.demand_true_since ≡ some t0) × (s.last_switch_mono ≡ l)

after-Heating :
    (c : Timing) (t0 l : ℤ) (s : BoilerState) (now : ℤ) (keep : Bool)
    → Heating t0 l s
    → Heating t0 l (step_boiler c s true now keep).state
unfolding step_boiler
after-Heating c t0 l s now keep h = ground arith

run-Heating :
    (c : Timing) (t0 l : ℤ) (s : BoilerState) (ts : List BoilerTick)
    → Heating t0 l s
    → Calling ts
    → Heating t0 l (run c s ts)
run-Heating c t0 l s [] h k = h
run-Heating c t0 l s ((demand, now, keep) ∷ ts) h k =
    let h' =
      subst (λ d. Heating t0 l (step_boiler c s d now keep).state) (sym k.0)
        (after-Heating c t0 l s now keep h) in
    run-Heating c t0 l (after c s (demand, now, keep)) ts h' k.1

first-Heating :
    (c : Timing) (t0 : ℤ) (s : BoilerState) (keep : Bool)
    → s.on ≡ false
    → s.demand_true_since ≡ none
    → Heating t0 s.last_switch_mono (step_boiler c s true t0 keep).state
unfolding step_boiler
first-Heating c t0 s keep off none_yet = ground arith

step-on :
    (c : Timing) (t0 l : ℤ) (s : BoilerState) (now : ℤ) (keep : Bool)
    → Heating t0 l s
    → c.activation_delay_s ≤ℤ now -ℤ t0
    → c.min_off_s ≤ℤ now -ℤ l
    → (step_boiler c s true now keep).state.on ≡ true
unfolding step_boiler
step-on c t0 l s now keep h d m =
    let waited_delay = le→leb_ℤ c.activation_delay_s (now -ℤ t0) d in
    let waited_off = le→leb_ℤ c.min_off_s (now -ℤ l) m in ground (arith, waited_delay, waited_off)

-- A call for heat is served: where the boiler was off with no demand before `t0`, and every tick
-- from `t0` on calls for heat, the boiler is on after a tick that comes the activation delay after
-- `t0` and the minimum off time after the last switch.
pub heat_is_served :
    (c : Timing) (s : BoilerState) (t0 now : ℤ) (keep keep' : Bool) (ts : List BoilerTick)
    → s.on ≡ false
    → s.demand_true_since ≡ none
    → Calling ts
    → c.activation_delay_s ≤ℤ now -ℤ t0
    → c.min_off_s ≤ℤ now -ℤ s.last_switch_mono
    → (after c (run c (after c s (true, t0, keep)) ts) (true, now, keep')).on ≡ true
heat_is_served c s t0 now keep keep' ts off none_yet k d m =
    step-on c t0 s.last_switch_mono (run c (after c s (true, t0, keep)) ts) now keep'
      (run-Heating c t0 s.last_switch_mono (after c s (true, t0, keep)) ts
        (first-Heating c t0 s keep off none_yet) k)
      d m
