-- ===== src/Compressor/Rest.antt =====
-- The rest of a compressor between a stop and the next start
-- (custom_components/poise/multi/lifecycle.py).
use Prim.Native.String.{String}
use poise_thermostat.Base.{
  ◌≡◌, refl, ◌∙◌, Bool, true, false, Option, none, some, List, [], ◌∷◌, arith, if◌then◌else◌, All,
  is_some,
}
use poise_thermostat.Base.Int.{ℤ, pos, ◌+ℤ◌, ◌-ℤ◌, ◌≤ℤ◌, ◌<ℤ◌, ltb_ℤ}
use poise_thermostat.Compressor.{
  DeviceLifecycle, LifecyclePolicy, Observation, observe_device, compressor_conditioning,
  guard_block_reason, min_off_remaining, restore_device, clock_skew_tolerance_s, BlockReason,
  min_off,
}

unfoldable pub observe_all : DeviceLifecycle → List Observation → DeviceLifecycle
observe_all s [] = s
observe_all s (o ∷ os) = observe_all (observe_device s o) os

-- The compressor does not run.
abbrev pub Resting : List Observation → Type 0
Resting os = All (λ o. o.conditioning ≡ false) os

observe_device-off :
    (s : DeviceLifecycle) (o : Observation)
    → s.is_on ≡ false
    → o.conditioning ≡ false
    → ((observe_device s o).is_on ≡ false) × ((observe_device s o).last_off_wall ≡ s.last_off_wall)
unfolding observe_device
observe_device-off s o h c = ground (arith, h, c)

observe_all-Resting :
    (s : DeviceLifecycle) (os : List Observation) (t : Option ℤ)
    → s.is_on ≡ false
    → s.last_off_wall ≡ t
    → Resting os
    → ((observe_all s os).is_on ≡ false) × ((observe_all s os).last_off_wall ≡ t)
unfolding observe_all
observe_all-Resting s [] t h e r = (h, e)
observe_all-Resting s (o ∷ os) t h e (r, rs) =
    let (off, same) = observe_device-off s o h r in
    observe_all-Resting (observe_device s o) os t off (same ∙ e) rs

observe_device-stop :
    (s : DeviceLifecycle) (o : Observation)
    → s.is_on ≡ true
    → o.conditioning ≡ false
    → ((observe_device s o).is_on ≡ false) × ((observe_device s o).last_off_wall ≡ some o.now)
unfolding observe_device
observe_device-stop s o h c = ground (arith, h, c)

-- the rest is not over before its end
rest_left :
    (p : LifecyclePolicy) (s : DeviceLifecycle) (t now : ℤ)
    → s.is_on ≡ false
    → s.last_off_wall ≡ some t
    → ltb_ℤ (pos 0) (min_off_remaining s now p) ≡ ltb_ℤ now (t +ℤ p.min_off_s)
unfolding min_off_remaining ltb_ℤ ◌+ℤ◌ ◌-ℤ◌
rest_left p s t now h e = rw (h, e) (ground arith)

blocked_if : (b : Bool) (r : BlockReason) → is_some (if b then some r else none) ≡ b
blocked_if true r = refl
blocked_if false r = refl

guard-off :
    (p : LifecyclePolicy) (s : DeviceLifecycle) (t now : ℤ) (desired : String)
    (current : Option String)
    → s.is_on ≡ false
    → s.last_off_wall ≡ some t
    → compressor_conditioning (some desired) ≡ true
    → compressor_conditioning current ≡ false
    → is_some (guard_block_reason (some p) s now desired current false)
      ≡ ltb_ℤ now (t +ℤ p.min_off_s)
unfolding guard_block_reason
guard-off p s t now desired current h e w c =
    rw (w, c)
      (blocked_if (ltb_ℤ (pos 0) (min_off_remaining s now p)) (min_off (min_off_remaining s now p))
        ∙ rest_left p s t now h e)

-- After a running compressor was observed to stop and then only at rest, the guard holds back a
-- start into cooling or drying on exactly the ticks before the minimum off time after the stop,
-- where the tick is no safety action.
pub start_held_back :
    (p : LifecyclePolicy) (s : DeviceLifecycle) (stop : Observation) (rest : List Observation)
    (now : ℤ) (desired : String) (current : Option String)
    → s.is_on ≡ true
    → stop.conditioning ≡ false
    → Resting rest
    → compressor_conditioning (some desired) ≡ true
    → compressor_conditioning current ≡ false
    → is_some (guard_block_reason (some p) (observe_all s (stop ∷ rest)) now desired current false)
      ≡ ltb_ℤ now (stop.now +ℤ p.min_off_s)
unfolding observe_all
start_held_back p s stop rest now desired current h c r w k =
    let (off, at) = observe_device-stop s stop h c in
    let (off', at') = observe_all-Resting (observe_device s stop) rest (some stop.now) off at r in
    guard-off p (observe_all (observe_device s stop) rest) stop.now now desired current off' at' w k

-- Restored with a stop in the past or the future, the compressor rests at most the minimum off time
-- and two minutes; a stop in the future keeps at least the whole minimum off time.
restore_device-locks :
    (p : LifecyclePolicy) (d : DeviceLifecycle) (t now : ℤ)
    → d.is_on ≡ false
    → d.last_off_wall ≡ some t
    → pos 0 ≤ℤ p.min_off_s
    → (min_off_remaining (restore_device d now) now p ≤ℤ p.min_off_s +ℤ clock_skew_tolerance_s)
      × (now <ℤ t → p.min_off_s ≤ℤ min_off_remaining (restore_device d now) now p)
unfolding min_off_remaining restore_device ltb_ℤ ◌+ℤ◌ ◌-ℤ◌
restore_device-locks p d t now h e m = rw (h, e) (ground arith, λ l. ground arith)
