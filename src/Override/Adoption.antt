-- ===== src/Override/Adoption.antt =====
-- The adoption of device-side changes: the reason functions of custom_components/poise/
-- control/override.py and the baselines of control/external_override.py.
use Prim.Native.String.{String}
use text.Mathlib.Text.{◌==◌ as str_eq}
use poise_thermostat.Base.{
  All, [], ◌∷◌, ℕ, ◌*◌, ◌<◌, ◌≡◌, refl, ◌↔◌, Bool, true, false, not, ◌||◌, Option, none, some, List,
  arith, any_of,
}
use poise_thermostat.Base.Int.{ℤ, pos, ◌≤ℤ◌, abs_ℤ, finite, lt→ltb_ℤ, lt→leb_ℤ, abs_ℤ_sym}
use poise_thermostat.Base.Round.{round_to}
use poise_thermostat.Base.Snap.{Close, round_to_near, round_to-round_to}
use poise_thermostat.Tick.{is_text, snap_to_step}
use poise_thermostat.Override.{
  adopt, command_echo, External, near, inside, setpoint_adopt_reason, mode_adopt_reason,
  observe_mode, observe_setpoint, freeze_mode_reference, adopt_setpoint_baselines,
  observe_fan_foreign, note_device_fan,
}

-- A mode change that can be no echo of the last mode command.
abbrev pub UserMode : String → String → String → ℤ → ℤ → ℤ → List String → Option String → Type 0
UserMode m desired commanded ts now window supported prev =
    (str_eq m "unknown" || str_eq m "unavailable" ≡ false)
    × (str_eq m desired ≡ false)
    × (any_of (λ s. str_eq s m) supported ≡ true)
    × (str_eq m "heat_cool" ≡ false)
    × (str_eq m commanded ≡ false)
    × (inside now ts window ≡ false)
    × (is_text prev m ≡ false)

-- Given both baselines, a reported mode is adopted exactly when it is a usable reading, is not the
-- desired mode, is one that the device lists other than `heat_cool`, is not the mode commanded last,
-- is seen after the echo window and differs from the guard reference.
mode_adopt_reason-adopt :
    (m desired commanded : String) (ts now window : ℤ) (supported : List String)
    (prev : Option String)
    → (mode_adopt_reason (some m) desired (some commanded) (some ts) now window supported prev
        ≡ adopt)
      ↔ UserMode m desired commanded ts now window supported prev
unfolding mode_adopt_reason
mode_adopt_reason-adopt m desired commanded ts now window supported prev =
    (λ h. ground arith, λ h. ground arith)

-- While a window is open, the sensor is frozen, the change is Poise's own or adoption is switched
-- off, neither channel adopts anything.
observe_gated :
    (e : External) (mode : Option String) (desired : String) (sp : Option ℤ)
    (now window deadband frost : ℤ) (supported : List String)
    (enabled scheduled own opened frozen resumed : Bool)
    → not enabled || (opened || (frozen || own)) ≡ true
    → ((observe_mode e mode desired now window supported enabled opened frozen own
          resumed).adopt_mode
        ≡ none)
      × ((observe_setpoint e sp now window deadband frost enabled scheduled own opened
            frozen).adopt_setpoint
          ≡ none)
unfolding observe_mode observe_setpoint
observe_gated e mode desired sp now window deadband frost supported enabled scheduled own opened
      frozen resumed h =
    ground arith

-- What a channel adopts is what the device reports.
pub observe_reported :
    (e : External) (mode : Option String) (desired : String) (sp : Option ℤ)
    (now window deadband frost : ℤ) (supported : List String)
    (enabled scheduled own opened frozen resumed : Bool) {m : String} {v : ℤ}
    → (observe_mode e mode desired now window supported enabled opened frozen own
        resumed).adopt_mode
      ≡ some m
    → (observe_setpoint e sp now window deadband frost enabled scheduled own opened
        frozen).adopt_setpoint
      ≡ some v
    → (mode ≡ some m) × (sp ≡ some v)
unfolding observe_mode observe_setpoint
observe_reported e mode desired sp now window deadband frost supported enabled scheduled own opened
      frozen resumed h k =
    ground arith

near_of_Close :
    (u : ℕ) (v w deadband : ℤ) → 0 < u → pos u ≤ℤ deadband → Close u w v → near v w deadband ≡ true
unfolding near
near_of_Close u v w deadband hu hd c =
    lt→ltb_ℤ _ _ (rw (abs_ℤ_sym v w) (unfold abs_ℤ in omega arith))

-- Snapping to a device step of 0.01 K times `k` moves a value by less than a deadband of a step.
snap-near :
    (v : ℤ) (k : ℕ) (deadband : ℤ)
    → 0 < k
    → pos (10 * k) ≤ℤ deadband
    → (w : ℤ) × (snap_to_step (finite v) (pos (10 * k)) ≡ finite w) × (near v w deadband ≡ true)
unfolding snap_to_step
snap-near v k deadband hk hd = (
  round_to (10 * k) v,
  rw (lt→leb_ℤ (pos (10 * k)) (pos 0) (omega arith), round_to-round_to k v),
  near_of_Close (10 * k) v _ deadband (omega arith) hd (round_to_near (10 * k) v (omega arith)),
)

-- After a setpoint has been adopted, the device's report of it is judged a command echo at every
-- time and whatever the other baselines are, so it is not adopted again; the step is a positive
-- multiple of 0.01 K and the deadband at least one step.
pub adopt_setpoint_baselines-settles :
    (e : External) (sp : ℤ) (k : ℕ) (now now' window deadband : ℤ) (prev pre frost : Option ℤ)
    → 0 < k
    → pos (10 * k) ≤ℤ deadband
    → let e' = adopt_setpoint_baselines e sp (pos (10 * k)) now in
      setpoint_adopt_reason
        (some sp)
        e'.last_written_sp
        e'.last_sp_write_ts
        now'
        window
        deadband
        prev
        pre
        frost
      ≡ command_echo
unfolding adopt_setpoint_baselines setpoint_adopt_reason
adopt_setpoint_baselines-settles e sp k now now' window deadband prev pre frost hk hd =
    let (w, eq, close) = snap-near sp k deadband hk hd in rw (eq, close)

-- The mode readings of a series of ticks, each with its time, fold into the guard reference.
abbrev pub freeze_all : External → List (Option String × ℤ) → ℤ → External
freeze_all e [] window = e
freeze_all e (r ∷ rs) window = freeze_all (freeze_mode_reference e r.0 r.1 window) rs window

freeze-inside :
    (e : External) (m : Option String) (ts now window : ℤ)
    → e.last_hvac_cmd_ts ≡ some ts
    → inside now ts window ≡ true
    → freeze_mode_reference e m now window ≡ e
unfolding freeze_mode_reference
freeze-inside e m ts now window h i = ground arith

freeze_all-window :
    (e : External) (ts : ℤ) (rs : List (Option String × ℤ)) (window : ℤ)
    → e.last_hvac_cmd_ts ≡ some ts
    → All (λ r. inside r.1 ts window ≡ true) rs
    → freeze_all e rs window ≡ e
freeze_all-window e ts [] window h a = refl
freeze_all-window e ts (r ∷ rs) window h a =
    rw (freeze-inside e r.0 ts r.1 window h a.0) (freeze_all-window e ts rs window h a.1)

-- A user's mode change that is first seen while the echo window is open is not lost: whatever was
-- read during the window, the change is adopted at the first tick after it.
mode_change_survives_window :
    (e : External) (m desired commanded : String) (ts now window : ℤ) (supported : List String)
    (readings : List (Option String × ℤ))
    → e.last_commanded_hvac ≡ some commanded
    → e.last_hvac_cmd_ts ≡ some ts
    → All (λ r. inside r.1 ts window ≡ true) readings
    → UserMode m desired commanded ts now window supported e.prev_device_mode
    → let e' = freeze_all e readings window in
      mode_adopt_reason
        (some m)
        desired
        e'.last_commanded_hvac
        e'.last_hvac_cmd_ts
        now
        window
        supported
        e'.prev_device_mode
      ≡ adopt
mode_change_survives_window e m desired commanded ts now window supported readings hc ht a u =
    rw (freeze_all-window e ts readings window ht a) (
      simp (hc, ht)
        ((mode_adopt_reason-adopt m desired commanded ts now window supported e.prev_device_mode).1
          u))

-- A fan stage that is seen inside the echo window does not become the reference, so it counts as a
-- foreign change at a tick after the window.
fan_change_survives_window :
    (e : External) (fan commanded : String) (seen : Option String) (ts t1 t2 window : ℤ)
    → e.last_commanded_fan ≡ some commanded
    → e.last_fan_cmd_ts ≡ some ts
    → inside t1 ts window ≡ true
    → inside t2 ts window ≡ false
    → str_eq commanded fan ≡ false
    → is_text e.prev_device_fan fan ≡ false
    → observe_fan_foreign (note_device_fan e seen t1 window) (some fan) false t2 window ≡ true
unfolding observe_fan_foreign note_device_fan
fan_change_survives_window e fan commanded seen ts t1 t2 window hc ht h1 h2 hf hp = ground arith
