-- ===== src/Ventilation/Airing.antt =====
-- The airing that the advice has asked for, and the window that follows it
-- (custom_components/poise/comfort/ventilation.py, fed by diagnostics/shadows.py).
use Prim.Native.String.{String}
use text.Mathlib.Text.{◌==◌ as str_eq}
use poise_thermostat.Base.{
  ◌≡◌, refl, sym, ◌∙◌, inl, inr, Bool, true, false, ◌&&◌, ◌||◌, Option, none, some, arith,
  Bool-cases,
}
use poise_thermostat.Base.Int.{ℤ, ◌≤ℤ◌, leb_ℤ}
use poise_thermostat.Ventilation.{
  VentConfig, VentInput, VentAction, action_open, action_close, action_discourage,
  ventilation_advise, mold_risk, mold_guard, too_dry, outside_drier, delta, protect_reason_valid,
  moisture_reason_valid, moisture_comfort_condition, own_airing_running, heat_out, reaches_opt,
  exceeds_opt,
}
use text.Mathlib.TextEquality.{eq_iff}

-- The same room one tick later, after the window was opened on the advice: `prev_vent_reason` is its
-- reason.
unfoldable pub opened : String → VentInput → VentInput
opened reason k = record k {
  window_open = true;
  prev_advice_active = true;
  prev_heat_out = str_eq reason "heat_out";
  prev_moisture_airing = str_eq reason "moisture_out" || str_eq reason "mold_risk";
  prev_moisture_protect = str_eq reason "moisture_protect";
}

-- No airing of ours runs, and the window is shut.
pub record IsShut (k : VentInput) : Type 0 where
  pub shut : k.window_open ≡ false
  pub calm : k.prev_advice_active ≡ false
  pub dry : k.prev_moisture_protect ≡ false
  pub above_floor : k.room_at_thermal_floor ≡ false

abbrev asks_co2 : VentConfig → VentInput → Bool
asks_co2 cfg k = k.occupied && reaches_opt k.co2_ppm cfg.co2_ppm

-- The reason is neither free cooling nor CO2.
abbrev pub IsMoisture : String → Type 0
IsMoisture reason = (str_eq reason "heat_out" ≡ false) × (str_eq reason "co2" ≡ false)

reaches_opt_mono :
    (v : Option ℤ) (a b : ℤ) → a ≤ℤ b → reaches_opt v b ≡ true → reaches_opt v a ≡ true
unfolding leb_ℤ
reaches_opt_mono none a b h r = cc
reaches_opt_mono (some v) a b h r = ground (arith, h, r)

-- the two reasons hold on below their entry
moisture-opened :
    (cfg : VentConfig) (k : VentInput) (r : String)
    → cfg.delta_off_gm3 ≤ℤ cfg.delta_on_gm3
    → k.prev_advice_active ≡ false
    → moisture_reason_valid cfg k ≡ true
    → moisture_reason_valid cfg (opened r k) ≡ true
unfolding moisture_reason_valid moisture_comfort_condition opened delta
moisture-opened cfg k r o e h =
    ground (arith, e, h, reaches_opt_mono (delta k) cfg.delta_off_gm3 cfg.delta_on_gm3 o)

protect-opened :
    (cfg : VentConfig) (k : VentInput)
    → cfg.delta_off_gm3 ≤ℤ cfg.delta_on_gm3
    → k.prev_moisture_protect ≡ false
    → protect_reason_valid cfg k ≡ true
    → protect_reason_valid cfg (opened "moisture_protect" k) ≡ true
unfolding protect_reason_valid opened delta
protect-opened cfg k o e h =
    ground (arith, e, h, reaches_opt_mono (delta k) cfg.delta_off_gm3 cfg.delta_on_gm3 o)

-- What the rule table reads beside the window and its own episode.
opened-same :
    (cfg : VentConfig) (k : VentInput) (r : String)
    → (mold_risk cfg (opened r k) ≡ mold_risk cfg k)
      × (too_dry cfg (opened r k) && outside_drier (opened r k) ≡ too_dry cfg k && outside_drier k)
unfolding mold_risk too_dry outside_drier delta opened
opened-same cfg k r = (refl, refl)

opened-floor :
    (k : VentInput) (r : String)
    → IsShut k
    → (opened r k).window_open && (opened r k).room_at_thermal_floor ≡ false
unfolding opened
opened-floor k r s = rw s.above_floor refl

moisture-no_guard :
    (cfg : VentConfig) (k : VentInput)
    → moisture_reason_valid cfg (opened "moisture_out" k) ≡ true
    → mold_guard cfg (opened "moisture_out" k) ≡ false
unfolding mold_guard own_airing_running
moisture-no_guard cfg k h = rw h (unfold opened in ground arith)

protect-no_guard :
    (cfg : VentConfig) (k : VentInput)
    → protect_reason_valid cfg (opened "moisture_protect" k) ≡ true
    → mold_guard cfg (opened "moisture_protect" k) ≡ false
unfolding mold_guard own_airing_running
protect-no_guard cfg k h = rw h (unfold opened in ground arith)

moisture-not_protect :
    (cfg : VentConfig) (k : VentInput)
    → k.prev_moisture_protect ≡ false
    → protect_reason_valid cfg (opened "moisture_out" k) ≡ protect_reason_valid cfg k
unfolding protect_reason_valid opened delta
moisture-not_protect cfg k e = rw e refl

kept-moisture :
    (cfg : VentConfig) (k : VentInput)
    → IsShut k
    → mold_risk cfg k ≡ false
    → too_dry cfg k && outside_drier k ≡ false
    → protect_reason_valid cfg k ≡ false
    → moisture_reason_valid cfg (opened "moisture_out" k) ≡ true
    → (ventilation_advise cfg (opened "moisture_out" k)).action ≡ action_open
unfolding ventilation_advise
kept-moisture cfg k s m d p v =
    let (m', d') = opened-same cfg k "moisture_out" in
    rw
      (
        m',
        m,
        moisture-no_guard cfg k v,
        d',
        d,
        opened-floor k "moisture_out" s,
        moisture-not_protect cfg k s.dry,
        p,
        v,
      )
      (ground arith)

kept-protect :
    (cfg : VentConfig) (k : VentInput)
    → IsShut k
    → mold_risk cfg k ≡ false
    → too_dry cfg k && outside_drier k ≡ false
    → protect_reason_valid cfg (opened "moisture_protect" k) ≡ true
    → (ventilation_advise cfg (opened "moisture_protect" k)).action ≡ action_open
unfolding ventilation_advise
kept-protect cfg k s m d v =
    let (m', d') = opened-same cfg k "moisture_protect" in
    rw (m', m, protect-no_guard cfg k v, d', d, opened-floor k "moisture_protect" s, v) refl

kept-mold :
    (cfg : VentConfig) (k : VentInput) (r : String)
    → mold_risk cfg k ≡ true
    → (ventilation_advise cfg (opened r k)).action ≡ action_open
unfolding ventilation_advise
kept-mold cfg k r m = rw ((opened-same cfg k r).0, m) refl

-- A shut window has no guard.
shut-no_guard :
    (cfg : VentConfig) (k : VentInput) → k.window_open ≡ false → mold_guard cfg k ≡ false
unfolding mold_guard
shut-no_guard cfg k e = rw e refl

not_heat_out : (r : String) → IsMoisture r → r ≡ "heat_out" → ⊥
not_heat_out r h e = let same : str_eq r "heat_out" ≡ true = rw e refl in cc (h.0, same)

not_co2 : (r : String) → IsMoisture r → r ≡ "co2" → ⊥
not_co2 r h e = let same : str_eq r "co2" ≡ true = rw e refl in cc (h.1, same)

discouraged : {a : VentAction} → a ≡ action_discourage → a ≡ action_open → ⊥
discouraged e a = ground (arith, e, a)

-- The advice of a shut room, rule by rule.
module _ (cfg : VentConfig) (k : VentInput) (s : IsShut k) (m : mold_risk cfg k ≡ false) where
  dry-discourage :
      too_dry cfg k && outside_drier k ≡ true
      → (ventilation_advise cfg k).action ≡ action_discourage
  unfolding ventilation_advise
  dry-discourage d = ground (arith, d, s, m, shut-no_guard cfg k s.shut)

  protect-asked :
      too_dry cfg k && outside_drier k ≡ false
      → protect_reason_valid cfg k ≡ true
      → (ventilation_advise cfg k).reason ≡ "moisture_protect"
  unfolding ventilation_advise
  protect-asked d p = ground (arith, d, p, s, m, shut-no_guard cfg k s.shut)

  heat-asked :
      too_dry cfg k && outside_drier k ≡ false
      → protect_reason_valid cfg k ≡ false
      → heat_out cfg k ≡ true
      → (ventilation_advise cfg k).reason ≡ "heat_out"
  unfolding ventilation_advise
  heat-asked d p h = ground (arith, d, p, h, s, m, shut-no_guard cfg k s.shut)

  co2-asked :
      too_dry cfg k && outside_drier k ≡ false
      → protect_reason_valid cfg k ≡ false
      → heat_out cfg k ≡ false
      → moisture_reason_valid cfg k ≡ false
      → asks_co2 cfg k ≡ true
      → (ventilation_advise cfg k).reason ≡ "co2"
  unfolding ventilation_advise
  co2-asked d p h v c = ground (arith, d, p, h, v, c, s, m, shut-no_guard cfg k s.shut)

  moisture-valid :
      too_dry cfg k && outside_drier k ≡ false
      → protect_reason_valid cfg k ≡ false
      → heat_out cfg k ≡ false
      → moisture_reason_valid cfg k ≡ true
      → (ventilation_advise cfg k).reason ≡ "moisture_out"
  unfolding ventilation_advise
  moisture-valid d p h v = ground (arith, d, p, h, v, s, m, shut-no_guard cfg k s.shut)

  not-asked :
      too_dry cfg k && outside_drier k ≡ false
      → protect_reason_valid cfg k ≡ false
      → heat_out cfg k ≡ false
      → moisture_reason_valid cfg k ≡ false
      → asks_co2 cfg k ≡ false
      → (ventilation_advise cfg k).action ≡ action_open
      → ⊥
  unfolding ventilation_advise
  not-asked d p h v c a = ground (arith, d, p, h, v, c, a, s, m, shut-no_guard cfg k s.shut)

  moisture-asked :
      too_dry cfg k && outside_drier k ≡ false
      → protect_reason_valid cfg k ≡ false
      → IsMoisture (ventilation_advise cfg k).reason
      → (ventilation_advise cfg k).action ≡ action_open
      → (moisture_reason_valid cfg k ≡ true) × ((ventilation_advise cfg k).reason ≡ "moisture_out")
  moisture-asked d p r a = elim (Bool-cases (heat_out cfg k)) [
    | inl h ↦ absurd (not_heat_out _ r (heat-asked d p h))
    | inr h ↦ elim (Bool-cases (moisture_reason_valid cfg k)) [
      | inl v ↦ (v, moisture-valid d p h v)
      | inr v ↦ elim (Bool-cases (asks_co2 cfg k)) [
        | inl c ↦ absurd (not_co2 _ r (co2-asked d p h v c))
        | inr c ↦ absurd (not-asked d p h v c a)
      ]
    ]
  ]

-- Advice to open a shut window whose reason is neither free cooling nor CO2 is not withdrawn when
-- the window is opened on it and all else stays the same, where no airing ran before, the room is
-- not at its thermal floor and the exit threshold is at most the entry threshold.
pub airing_kept :
    (cfg : VentConfig) (k : VentInput)
    → cfg.delta_off_gm3 ≤ℤ cfg.delta_on_gm3
    → IsShut k
    → IsMoisture (ventilation_advise cfg k).reason
    → (ventilation_advise cfg k).action ≡ action_open
    → (ventilation_advise cfg (opened (ventilation_advise cfg k).reason k)).action ≡ action_open
airing_kept cfg k o s h a = elim (Bool-cases (mold_risk cfg k)) [
  | inl m ↦ kept-mold cfg k (ventilation_advise cfg k).reason m
  | inr m ↦ elim (Bool-cases (too_dry cfg k && outside_drier k)) [
    | inl d ↦ absurd (discouraged (dry-discourage cfg k s m d) a)
    | inr d ↦ elim (Bool-cases (protect_reason_valid cfg k)) [
      | inl p ↦
          rw (protect-asked cfg k s m d p)
            (kept-protect cfg k s m d (protect-opened cfg k o s.dry p))
      | inr p ↦
          let (v, r) = moisture-asked cfg k s m d p h a in
          rw r (kept-moisture cfg k s m d p (moisture-opened cfg k "moisture_out" o s.calm v))
    ]
  ]
]

mold-reason :
    (cfg : VentConfig) (k : VentInput)
    → mold_risk cfg k ≡ true
    → (ventilation_advise cfg k).reason ≡ "mold_risk"
unfolding ventilation_advise
mold-reason cfg k m = rw m refl

co2-guard :
    (cfg : VentConfig) (k : VentInput)
    → k.surface_needs_warmer ≡ true
    → exceeds_opt k.rh_pct k.rh_max_safe_pct ≡ true
    → mold_guard cfg (opened "co2" k) ≡ true
unfolding mold_guard own_airing_running opened
co2-guard cfg k w x = ground (arith, w, x)

co2-not_mold : (reason : String) → reason ≡ "mold_risk" → reason ≡ "co2" → ⊥
co2-not_mold reason e f =
    let same : str_eq "mold_risk" "co2" ≡ true = (eq_iff "mold_risk" "co2").1 (sym e ∙ f) in cc

-- Where a room is advised to open for CO2 while its surfaces would need it warmer and its humidity
-- lies above the safe one, the advice is to close as soon as the window is opened on it.
pub co2_retracted :
    (cfg : VentConfig) (k : VentInput)
    → (ventilation_advise cfg k).reason ≡ "co2"
    → k.surface_needs_warmer ≡ true
    → exceeds_opt k.rh_pct k.rh_max_safe_pct ≡ true
    → (ventilation_advise cfg (opened "co2" k)).action ≡ action_close
unfolding ventilation_advise
co2_retracted cfg k r w x = elim (Bool-cases (mold_risk cfg k)) [
  | inl m ↦ absurd (co2-not_mold _ (mold-reason cfg k m) r)
  | inr m ↦ rw ((opened-same cfg k "co2").0, m, co2-guard cfg k w x) refl
]
