-- ===== src/Ventilation/Notice.antt =====
-- The notification of an airing follows the advice: `advice_transition` of
-- custom_components/poise/comfort/ventilation.py over a run of ticks.
use Prim.Native.String.{String}
use text.Mathlib.TextEquality.{eq_iff}
use poise_thermostat.Base.{
  ◌≡◌, refl, sym, ap, ◌∙◌, inl, inr, ◌⊎◌, Bool, true, false, ◌||◌, ◌&&◌, Option, none, some, List,
  [], ◌∷◌, arith, if◌then◌else◌, Bool-cases,
}
use poise_thermostat.Ventilation.{
  VentConfig, VentInput, VentAction, VentilationAdvice, ventilation_advise, is_open, is_idle,
  notifies, Published, was_open, same_notice, advice_transition, Announced, cold_start,
  after_emission, announce,
}

-- An advice that the user is told of.
abbrev episode_of : VentAction → String → Bool
episode_of action reason = is_open action || notifies reason

abbrev pub episode_was : Published → Bool
episode_was (action, reason) = was_open action || notifies reason

notifies-empty : notifies "" ≡ false
unfolding notifies
notifies-empty = refl

notifies-kept :
    (reason : String) → notifies (if notifies reason then reason else "") ≡ notifies reason
notifies-kept reason = elim (Bool-cases (notifies reason)) [
  | inl e ↦ rw e e
  | inr e ↦ rw e notifies-empty
]

-- the notice of equal keys
same_notice-notifies :
    (prev reason : String) → same_notice prev reason ≡ true → notifies prev ≡ notifies reason
unfolding same_notice
same_notice-notifies prev reason h =
    let same =
      (eq_iff (if notifies prev then prev else "") (if notifies reason then reason else "")).0 h in
    sym (notifies-kept prev) ∙ ap notifies same ∙ notifies-kept reason

-- The notification is shown exactly while the advice is one that the user is told of.
advice_transition-tracks :
    (prev : Published) (action : VentAction) (reason : String)
    → (prev.0 ≡ none → notifies prev.1 ≡ false)
    → (is_idle action ≡ true → notifies reason ≡ false)
    → after_emission (advice_transition prev action reason true) (episode_was prev)
      ≡ episode_of action reason
unfolding advice_transition
advice_transition-tracks (none, p) a r h g = ground (arith, h refl, g, same_notice-notifies p r)
advice_transition-tracks (some b, p) a r h g = ground (arith, g, same_notice-notifies p r)

-- an idle advice names no reason that is announced
idle-reason :
    (cfg : VentConfig) (k : VentInput)
    → is_idle (ventilation_advise cfg k).action ≡ true
    → ((ventilation_advise cfg k).reason ≡ "no_gain")
      ⊎ ((ventilation_advise cfg k).reason ≡ "no_data")
unfolding ventilation_advise
idle-reason cfg k i = ground (arith, i)

idle-not_notifies :
    (cfg : VentConfig) (k : VentInput)
    → is_idle (ventilation_advise cfg k).action ≡ true
    → notifies (ventilation_advise cfg k).reason ≡ false
unfolding notifies
idle-not_notifies cfg k i = elim (idle-reason cfg k i) [ inl e ↦ rw e refl | inr e ↦ rw e refl ]

-- The ticks of a run; in one without data no advice was composed.
abbrev advice_of : VentConfig → Option VentInput → Option VentilationAdvice
advice_of cfg none = none
advice_of cfg (some k) = some (ventilation_advise cfg k)

unfoldable pub announce_all : VentConfig → Bool → Announced → List (Option VentInput) → Announced
announce_all cfg vent_notify s [] = s
announce_all cfg vent_notify s (k ∷ ks) =
    announce_all cfg vent_notify (announce vent_notify s (advice_of cfg k)) ks

-- without the opt-in a tick shows nothing
advice_transition-silent :
    (prev : Published) (action : VentAction) (reason : String)
    → after_emission (advice_transition prev action reason false) false ≡ false
unfolding advice_transition
advice_transition-silent prev action reason = ground arith

abbrev Tracks : Bool → Announced → Type 0
Tracks vent_notify s =
    (s.shown ≡ vent_notify && episode_was s.published)
    × (s.published.0 ≡ none → notifies s.published.1 ≡ false)

announce-Tracks :
    (cfg : VentConfig) (vent_notify : Bool) (s : Announced) (k : Option VentInput)
    → Tracks vent_notify s
    → Tracks vent_notify (announce vent_notify s (advice_of cfg k))
unfolding announce
announce-Tracks cfg vent_notify s none t = t
announce-Tracks cfg true s (some k) (t, c) = (
  rw t (
      advice_transition-tracks s.published (ventilation_advise cfg k).action
        (ventilation_advise cfg k).reason c (idle-not_notifies cfg k)),
  λ h. cc,
)
announce-Tracks cfg false s (some k) (t, c) = (
  rw t (
      advice_transition-silent s.published (ventilation_advise cfg k).action
        (ventilation_advise cfg k).reason),
  λ h. cc,
)

announce_all-Tracks :
    (cfg : VentConfig) (vent_notify : Bool) (s : Announced) (ks : List (Option VentInput))
    → Tracks vent_notify s
    → Tracks vent_notify (announce_all cfg vent_notify s ks)
unfolding announce_all
announce_all-Tracks cfg vent_notify s [] t = t
announce_all-Tracks cfg vent_notify s (k ∷ ks) t =
    announce_all-Tracks cfg vent_notify (announce vent_notify s (advice_of cfg k)) ks
      (announce-Tracks cfg vent_notify s k t)

-- After every run of ticks from the cold start, in which some may compose no advice, the
-- notification stands exactly when the zone has opted in and the last advice is to open or has a
-- reason that is announced on its own.
pub notification_tracks :
    (cfg : VentConfig) (vent_notify : Bool) (ks : List (Option VentInput))
    → let s = announce_all cfg vent_notify cold_start ks in
      s.shown ≡ vent_notify && episode_was s.published
notification_tracks cfg vent_notify ks =
    (announce_all-Tracks cfg vent_notify cold_start ks (unset vent_notify, λ h. notifies-empty)).0
  where
    unset : (b : Bool) → false ≡ b && episode_was (none, "")
    unset true = sym notifies-empty
    unset false = refl
