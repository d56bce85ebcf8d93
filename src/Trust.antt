-- ===== src/Trust.antt =====
-- The trust in the learned time constant of a room: custom_components/poise/estimation/tau_trust.py.
-- Time constants are thousandths of an hour; observed time is in thousandths of a second.
pub mod Earned
use poise_thermostat.Base.{
  ℕ, zero, suc, ◌+◌, ◌*◌, Bool, true, false, not, ◌&&◌, ◌||◌, Option, none, some, List, [], ◌∷◌,
  ◌++◌, if◌then◌else◌, leb, ltb, length, first_best, best_from, any_of,
}
use poise_thermostat.Base.Int.{
  ℤ, pos, ◌+ℤ◌, ◌*ℤ◌, ltb_ℤ, leb_ℤ, max_ℤ, min_ℤ, seconds, Float, finite, non_finite,
}

-- TRUST_WINDOW_H, _BUCKET_H, _MAX_STEP_H
abbrev pub trust_window : ℤ
trust_window = seconds 86_400

abbrev pub bucket_time : ℤ
bucket_time = seconds 3_600

abbrev pub max_step : ℤ
max_step = seconds 600

-- TRUST_MAX_RATIO, NEAR_BOUND_TAU_HIGH_H, NEAR_BOUND_TAU_LOW_H, _MAX_BUCKETS
abbrev pub trust_max_ratio : ℤ
trust_max_ratio = pos 2

abbrev pub near_bound_tau_high : ℤ
near_bound_tau_high = pos 150_000

abbrev pub near_bound_tau_low : ℤ
near_bound_tau_low = pos 1_000

abbrev pub max_buckets : ℕ
max_buckets = 24

unfoldable pub near_bound : Float → Bool
near_bound non_finite = true
near_bound (finite tau) = leb_ℤ near_bound_tau_high tau || leb_ℤ tau near_bound_tau_low

pub record Bucket : Type 0 where
  pub lo : ℤ
  pub hi : ℤ

pub record TauTrust : Type 0 where
  pub clean : ℤ
  pub bucket : ℤ
  pub window : List Bucket

abbrev pub fresh_trust : TauTrust
fresh_trust = record { clean = pos 0; bucket = pos 0; window = [] }

abbrev lower_lo : Bucket → Bucket → Bool
lower_lo a b = ltb_ℤ a.lo b.lo

abbrev higher_hi : Bucket → Bucket → Bool
higher_hi a b = ltb_ℤ b.hi a.hi

-- `spread_ratio <= TRUST_MAX_RATIO`, where the ratio of an empty window is infinite
abbrev ratio_within : Option Bucket → Option Bucket → Bool
ratio_within (some l) (some h) = ltb_ℤ (pos 0) l.lo && leb_ℤ h.hi (trust_max_ratio *ℤ l.lo)
ratio_within _ _ = false

unfoldable pub spread_within : List Bucket → Bool
unfolding first_best
spread_within window = ratio_within (first_best lower_lo window) (first_best higher_hi window)

unfoldable pub trusted : TauTrust → Bool
unfolding spread_within
trusted t = leb_ℤ trust_window t.clean && spread_within t.window

-- `window[-_MAX_BUCKETS:]`
unfoldable pub last_of {ℓ} : {A : Type ℓ} → ℕ → List A → List A
last_of n [] = []
last_of n (x ∷ xs) = let rest = last_of n xs in if leb (length (x ∷ xs)) n then x ∷ xs else rest

abbrev widen : Bucket → ℤ → Bucket
widen b tau = record { lo = min_ℤ b.lo tau; hi = max_ℤ b.hi tau }

-- the newest bucket takes the sample
unfoldable pub fold_last : Bucket → List Bucket → ℤ → List Bucket
unfolding min_ℤ max_ℤ
fold_last b [] tau = widen b tau ∷ []
fold_last b (x ∷ xs) tau = b ∷ fold_last x xs tau

unfoldable pub fold_window : List Bucket → ℤ → ℤ → List Bucket
unfolding fold_last
fold_window [] bucket tau = record { lo = tau; hi = tau } ∷ []
fold_window (b ∷ bs) bucket tau =
    if leb_ℤ bucket_time bucket
    then (b ∷ bs) ++ (record { lo = tau; hi = tau } ∷ [])
    else fold_last b bs tau

-- `bucket_h` before the step is added
abbrev bucket_before : List Bucket → ℤ → ℤ
bucket_before [] bucket = pos 0
bucket_before (b ∷ bs) bucket = if leb_ℤ bucket_time bucket then pos 0 else bucket

abbrev pub step_of : ℤ → ℤ
step_of dt = min_ℤ (max_ℤ (pos 0) dt) max_step

unfoldable pub observe_finite : TauTrust → ℤ → ℤ → TauTrust
unfolding fold_window last_of min_ℤ max_ℤ
observe_finite prev tau dt = record {
  clean = prev.clean +ℤ step_of dt;
  bucket = bucket_before prev.window prev.bucket +ℤ step_of dt;
  window = last_of max_buckets (fold_window prev.window prev.bucket tau);
}

abbrev pub finite_or : Float → ℤ → ℤ
finite_or (finite v) d = v
finite_or non_finite d = d

pub record TauSample : Type 0 where
  pub tau : Float
  pub dt : ℤ
  pub reset : Bool

unfoldable pub observe_tau : TauTrust → TauSample → TauTrust
unfolding observe_finite near_bound
observe_tau prev k =
    if k.reset || near_bound k.tau
    then fresh_trust
    else observe_finite prev (finite_or k.tau (pos 0)) k.dt

-- The payload of the store; `none` where it is malformed.
pub record TrustPayload : Type 0 where
  pub clean : Float
  pub bucket : Float
  pub window : List (Float × Float)

abbrev pub pairs : List Bucket → List (Float × Float)
pairs [] = []
pairs (b ∷ bs) = (finite b.lo, finite b.hi) ∷ pairs bs

unfoldable pub to_dict : TauTrust → TrustPayload
to_dict t = record { clean = finite t.clean; bucket = finite t.bucket; window = pairs t.window }

-- the finite values of a window
unfoldable pub buckets_of : List (Float × Float) → Option (List Bucket)
buckets_of [] = some []
buckets_of ((finite lo, finite hi) ∷ l) = elim (buckets_of l) [
  | none ↦ none
  | some bs ↦ some (record { lo = lo; hi = hi } ∷ bs)
]
buckets_of ((finite lo, non_finite) ∷ l) = none
buckets_of ((non_finite, hi) ∷ l) = none

unfoldable pub restored_trust : Float → Float → Option (List Bucket) → TauTrust
unfolding max_ℤ
restored_trust (finite clean) (finite bucket) (some window) =
    if ltb_ℤ clean (pos 0)
    then fresh_trust
    else record { clean = clean; bucket = max_ℤ (pos 0) bucket; window = window }
restored_trust (finite clean) (finite bucket) none = fresh_trust
restored_trust (finite clean) non_finite window = fresh_trust
restored_trust non_finite bucket window = fresh_trust

unfoldable pub from_dict : Option TrustPayload → TauTrust
unfolding restored_trust buckets_of last_of
from_dict none = fresh_trust
from_dict (some p) = restored_trust p.clean p.bucket (buckets_of (last_of max_buckets p.window))
