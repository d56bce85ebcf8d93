-- ===== src/Tick/Target.antt =====
-- What `resolve_write_target` guarantees of the setpoint that is written.
use Prim.Native.String.{String}
use text.Mathlib.Text.{◌==◌ as str_eq}
use poise_thermostat.Base.{
  ◌≡◌, refl, ◌⊎◌, inl, inr, Bool, true, false, not, ◌&&◌, ◌||◌, Option, none, some, arith, get_or,
}
use poise_thermostat.Base.Int.{ℤ, ◌≤ℤ◌, ltb_ℤ, eqb_ℤ, max_ℤ, min_ℤ, max_ℤ_bounds}
use poise_thermostat.Base.Round.{round1, round1_keeps_lower, round1_keeps_upper, IsTenth}
use poise_thermostat.Constraints.{resolve_constraints}
use poise_thermostat.Constraints.Extrema.{FloorsHold, CapsHold}
use poise_thermostat.Constraints.Resolve.{
  resolve_constraints-floors_safe, resolve_constraints-caps_or_floor,
}
use poise_thermostat.Tick.{
  WriteTarget, health_floor, clamp_override, pick_target, envelope, resolve_write_target,
  asr_max_room_c,
}

-- The device minimum, where the device reports one, is a whole number of tenths; and `v` reaches it.
abbrev pub TenthMin : Option ℤ → Type 0
TenthMin none = Unit
TenthMin (some d) = IsTenth d

abbrev pub ReachesMin : Option ℤ → ℤ → Type 0
ReachesMin none v = Unit
ReachesMin (some d) v = d ≤ℤ v

module _ (desired floor device_max : ℤ) where
  envelope_floors :
      (cooling : Bool) (device_min : Option ℤ)
      → FloorsHold
          (envelope cooling floor device_max device_min)
          (resolve_constraints desired (envelope cooling floor device_max device_min)).value
  unfolding envelope
  envelope_floors true none =
      resolve_constraints-floors_safe desired device_max 1 (envelope true floor device_max none)
        (ground arith) (ground arith)
  envelope_floors true (some d) =
      resolve_constraints-floors_safe desired device_max 1 (envelope true floor device_max (some d))
        (ground arith) (ground arith)
  envelope_floors false none =
      resolve_constraints-floors_safe desired floor 1 (envelope false floor device_max none)
        (ground arith) (ground (arith, max_ℤ_bounds device_max floor))
  envelope_floors false (some d) =
      resolve_constraints-floors_safe desired floor 1 (envelope false floor device_max (some d))
        (ground arith) (ground (arith, max_ℤ_bounds device_max floor))

module _ (floor device_max v : ℤ) where
  floor_of_envelope :
      (device_min : Option ℤ)
      → FloorsHold (envelope false floor device_max device_min) v
      → floor ≤ℤ v
  unfolding envelope
  floor_of_envelope none h = h.0 refl
  floor_of_envelope (some d) h = h.0 refl

  min_of_envelope :
      (cooling : Bool) (device_min : Option ℤ)
      → FloorsHold (envelope cooling floor device_max device_min) v
      → ReachesMin device_min v
  unfolding envelope
  min_of_envelope cooling none h = tt
  min_of_envelope true (some d) h = h.0 refl
  min_of_envelope false (some d) h = h.1.0 refl

  floors_of_max :
      (m : ℤ) (device_min : Option ℤ)
      → floor ≤ℤ m
      → get_or device_min floor ≤ℤ m
      → FloorsHold (envelope false floor device_max device_min) m
  unfolding envelope
  floors_of_max m none h k = ground arith
  floors_of_max m (some d) h k = ground arith

  caps_of_envelope :
      (device_min : Option ℤ)
      → CapsHold (envelope false floor device_max device_min) v
      → (v ≤ℤ max_ℤ device_max floor) × (v ≤ℤ asr_max_room_c)
  unfolding envelope
  caps_of_envelope none h = (h.1.0 refl, h.1.1.0 refl)
  caps_of_envelope (some d) h = (h.1.1.0 refl, h.1.1.1.0 refl)

round1-ReachesMin :
    (device_min : Option ℤ) (v : ℤ)
    → TenthMin device_min
    → ReachesMin device_min v
    → ReachesMin device_min (round1 v)
round1-ReachesMin none v t h = tt
round1-ReachesMin (some d) v t h = round1_keeps_lower d v t h

module _ (window_open : Bool) (override : Option ℤ) (heat_sp cool_sp write_setpoint : ℤ)
    (comfort_mode : String) (frost_floor : ℤ) (mold_min : Option ℤ) (device_max : ℤ)
    (device_min : Option ℤ) (can_cool : Bool) where
  abbrev pub written : WriteTarget
  written =
      resolve_write_target window_open override heat_sp cool_sp write_setpoint comfort_mode
        frost_floor mold_min device_max device_min can_cool

  abbrev picked : ℤ × String × Bool
  picked =
      pick_target window_open override heat_sp cool_sp write_setpoint comfort_mode
        (health_floor frost_floor mold_min) can_cool

  -- In every mode but `cool`, the written setpoint reaches the frost and mould floor and the device
  -- minimum, where these are whole tenths: no override, setpoint, device maximum or norm cap
  -- undercuts them.
  pub resolve_write_target-health :
      str_eq written.mode "cool" ≡ false
      → IsTenth (health_floor frost_floor mold_min)
      → TenthMin device_min
      → (health_floor frost_floor mold_min ≤ℤ written.target) × ReachesMin device_min written.target
  unfolding resolve_write_target
  resolve_write_target-health h t td =
      let f = health_floor frost_floor mold_min in
      let v = (resolve_constraints picked.0 (envelope false f device_max device_min)).value in
      let e = envelope_floors picked.0 f device_max false device_min in
      rw h (
        round1_keeps_lower f v t (floor_of_envelope f device_max v device_min e),
        round1-ReachesMin device_min v td (min_of_envelope f device_max v false device_min e),
      )

  -- In every mode but `cool`, the written setpoint exceeds the ASR limit of 26 °C or the larger of
  -- the device maximum and the health floor only as far as the health floor or the device minimum
  -- demands; `m` is any whole tenth that both of these reach at most.
  pub resolve_write_target-caps :
      (m : ℤ)
      → str_eq written.mode "cool" ≡ false
      → IsTenth m
      → IsTenth (max_ℤ device_max (health_floor frost_floor mold_min))
      → health_floor frost_floor mold_min ≤ℤ m
      → get_or device_min (health_floor frost_floor mold_min) ≤ℤ m
      → (written.target ≤ℤ m)
        ⊎ (written.target ≤ℤ max_ℤ device_max (health_floor frost_floor mold_min))
          × (written.target ≤ℤ asr_max_room_c)
  unfolding resolve_write_target
  resolve_write_target-caps m h tm tx hf hd =
      let f = health_floor frost_floor mold_min in
      let cs = envelope false f device_max device_min in
      let v = (resolve_constraints picked.0 cs).value in
      rw h
        (elim (resolve_constraints-caps_or_floor picked.0 m cs
          (floors_of_max f device_max m m device_min hf hd)) [
            | inl le ↦ inl (round1_keeps_upper m v tm le)
            | inr caps ↦
                let c = caps_of_envelope f device_max v device_min caps in
                inr (round1_keeps_upper _ v tx c.0, round1_keeps_upper asr_max_room_c v refl c.1)
          ])

-- A manual value is reported as clamped exactly when it lies outside the comfort band, of which a
-- device that cannot cool has only the lower edge.
pub clamp_override-changes :
    (o heat_sp cool_sp : ℤ) (can_cool : Bool)
    → heat_sp ≤ℤ cool_sp
    → eqb_ℤ (clamp_override o heat_sp cool_sp can_cool) o
      ≡ not (ltb_ℤ o heat_sp || (can_cool && ltb_ℤ cool_sp o))
unfolding clamp_override max_ℤ min_ℤ eqb_ℤ ltb_ℤ
clamp_override-changes o heat_sp cool_sp can_cool h = ground arith
