-- ===== src/Humidity/Latch.antt =====
-- The latch of comfort/humidity.py over the ticks of a run, against a description without one.
use poise_thermostat.Base.{
  ◌≡◌, refl, ap, ◌∙◌, Bool, true, false, not, ◌&&◌, ◌||◌, Option, none, some, List, [], ◌∷◌,
  if◌then◌else◌, arith, all_of,
}
use poise_thermostat.Base.Int.{ℤ, ltb_ℤ}
use poise_thermostat.Humidity.{
  HumidityInput, HumidityTick, HumidityDecision, humid_enough, rh_over, rh_hold, abs_over, abs_hold,
  dehumidify, decide_at, humidity_of, humidity_decide, humidity_input, humidity_step, is_dry,
  decided, hum_idle, block_failed, mode_arbitration,
}

-- Drying is open: the air is not too dry, the room in its dead band, and the device can dry.
abbrev pub may_dry : HumidityInput → Option ℤ → Bool
may_dry k none = false
may_dry k (some rh) =
    not (ltb_ℤ rh k.cfg.rh_low) && (not k.too_warm && (k.in_deadband && k.can_dry))

-- A limit is reached.
abbrev pub is_over : HumidityInput → Option ℤ → Bool
is_over k none = false
is_over k (some rh) = rh_over k rh || abs_over k

-- An exit limit is still reached.
abbrev pub is_held : HumidityInput → Option ℤ → Bool
is_held k none = false
is_held k (some rh) = rh_hold k rh || abs_hold k

abbrev pub starts_dry : HumidityTick → Bool
starts_dry k = let i = humidity_input k in not k.block_fails && (may_dry i k.rh && is_over i k.rh)

abbrev pub stays_dry : HumidityTick → Bool
stays_dry k =
    let i = humidity_input k in
    k.block_fails || (may_dry i k.rh && (is_over i k.rh || is_held i k.rh))

dehumidify-active :
    (i : HumidityInput) (rh : ℤ) (b : Bool) → (dehumidify i rh b).dry_active ≡ i.can_dry
unfolding dehumidify
dehumidify-active i rh b = ground arith

decide_at-active :
    (i : HumidityInput) (rh : ℤ) (b : Bool)
    → (decide_at i rh b).dry_active
      ≡ may_dry i (some rh) && (is_over i (some rh) || (b && is_held i (some rh)))
unfolding decide_at humid_enough dehumidify
decide_at-active i rh b = ground arith

humidity_of-active :
    (i : HumidityInput) (r : Option ℤ) (b : Bool)
    → (humidity_of i r b).dry_active ≡ may_dry i r && (is_over i r || (b && is_held i r))
unfolding humidity_of
humidity_of-active i none b = refl
humidity_of-active i (some rh) b = decide_at-active i rh b

latch_algebra :
    (fails may over held b d : Bool)
    → d ≡ may && (over || (b && held))
    → (if fails then b else d)
      ≡ (not fails && (may && over)) || (b && (fails || (may && (over || held))))
latch_algebra fails may over held b d e = ground (arith, e)

since_algebra :
    (starts b stays all rest : Bool)
    → ((starts || (b && stays)) && all) || rest ≡ (b && (stays && all)) || ((starts && all) || rest)
since_algebra starts b stays all rest = ground arith

if-active :
    (b : Bool) (x y : HumidityDecision)
    → (if b then x else y).dry_active ≡ (if b then x.dry_active else y.dry_active)
if-active true x y = refl
if-active false x y = refl

humidity_step-active :
    (b : Bool) (k : HumidityTick)
    → (humidity_step b k).dry_active ≡ starts_dry k || (b && stays_dry k)
unfolding humidity_step humidity_decide humidity_input
humidity_step-active b k =
    let i = humidity_input k in
    if-active k.block_fails _ _
    ∙ latch_algebra k.block_fails (may_dry i k.rh) (is_over i k.rh) (is_held i k.rh) b
        (humidity_of i k.rh b).dry_active (humidity_of-active i k.rh b)

-- the latch after a run
unfoldable pub dry_run : Bool → List HumidityTick → Bool
dry_run b [] = b
dry_run b (k ∷ ks) = dry_run (humidity_step b k).dry_active ks

-- Some tick starts the drying and every later one lets it stay.
abbrev pub dries_since : List HumidityTick → Bool
dries_since [] = false
dries_since (k ∷ ks) = (starts_dry k && all_of stays_dry ks) || dries_since ks

dry_run-since :
    (b : Bool) (ks : List HumidityTick)
    → dry_run b ks ≡ (b && all_of stays_dry ks) || dries_since ks
unfolding dry_run
dry_run-since b [] = ground arith
dry_run-since b (k ∷ ks) =
    dry_run-since (humidity_step b k).dry_active ks
    ∙ ap (λ c. (c && all_of stays_dry ks) || dries_since ks) (humidity_step-active b k)
    ∙ since_algebra (starts_dry k) b (stays_dry k) (all_of stays_dry ks) (dries_since ks)

drying_since : (ks : List HumidityTick) → dry_run false ks ≡ dries_since ks
drying_since ks = dry_run-since false ks

decide_at-dry :
    (i : HumidityInput) (rh : ℤ) (b : Bool)
    → is_dry (decide_at i rh b).action && i.can_dry ≡ (decide_at i rh b).dry_active
unfolding decide_at dehumidify
decide_at-dry i rh b = ground arith

humidity_of-dry :
    (i : HumidityInput) (r : Option ℤ) (b : Bool)
    → is_dry (humidity_of i r b).action && i.can_dry
      ≡ may_dry i r && (is_over i r || (b && is_held i r))
unfolding humidity_of
humidity_of-dry i none b = refl
humidity_of-dry i (some rh) b = decide_at-dry i rh b ∙ decide_at-active i rh b

dry_algebra :
    (b may over held : Bool)
    → may && (over || (b && held)) ≡ (may && over) || (b && (may && (over || held)))
dry_algebra b may over held = ground arith

if-dry :
    (fails b ok : Bool) (x : HumidityDecision) (may over held : Bool)
    → is_dry x.action && ok ≡ may && (over || (b && held))
    → is_dry (if fails then decided hum_idle b block_failed else x).action && ok
      ≡ not fails && ((not fails && (may && over)) || (b && (fails || (may && (over || held)))))
if-dry true b ok x may over held e = refl
if-dry false b ok x may over held e = e ∙ dry_algebra b may over held

-- the action of a tick on a device that can dry
humidity_step-dry :
    (b : Bool) (k : HumidityTick)
    → is_dry (humidity_step b k).action && k.can_dry
      ≡ not k.block_fails && (starts_dry k || (b && stays_dry k))
unfolding humidity_step humidity_decide humidity_input
humidity_step-dry b k =
    let i = humidity_input k in
    if-dry k.block_fails b k.can_dry (humidity_of i k.rh b) (may_dry i k.rh) (is_over i k.rh)
      (is_held i k.rh) (humidity_of-dry i k.rh b)

-- After any run of ticks from an unset latch, a tick turns an idle mode into `dry` exactly when its
-- block does not fail and it starts the drying, or an earlier tick started it and every tick since,
-- this one included, lets it stay; any other tick leaves `idle`.
pub dry_mode :
    (ks : List HumidityTick) (k : HumidityTick) (fan_first : Bool)
    → mode_arbitration "idle" (humidity_step (dry_run false ks) k).action k.can_dry fan_first ≡ (
        if not k.block_fails && (starts_dry k || (dries_since ks && stays_dry k))
        then "dry"
        else "idle")
unfolding mode_arbitration
dry_mode ks k fan_first =
    ap (λ c. if c then "dry" else "idle")
      (humidity_step-dry (dry_run false ks) k
        ∙ ap (λ c. not k.block_fails && (starts_dry k || (c && stays_dry k))) (drying_since ks))
