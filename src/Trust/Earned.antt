-- ===== src/Trust/Earned.antt =====
-- Trust is earned over a day of observed time, and survives a restart
-- (custom_components/poise/estimation/tau_trust.py).
use poise_thermostat.Base.{
  ℕ, ◌+◌, ◌*◌, ◌≤◌, ◌≡◌, refl, ap, ◌∙◌, inl, inr, Bool, true, ◌||◌, some, List, [], ◌∷◌, arith,
  Bool-cases, length, leb,
}
use poise_thermostat.Base.Int.{pos, ◌≤ℤ◌, ◌+ℤ◌, leb_ℤ, ltb_ℤ, finite, seconds}
use poise_thermostat.Trust.{
  TauTrust, Bucket, fresh_trust, TauSample, observe_tau, near_bound, trusted, finite_or, pairs,
  last_of, fold_window, max_buckets, to_dict, from_dict, buckets_of, restored_trust,
}

unfoldable pub run : TauTrust → List TauSample → TauTrust
run t [] = t
run t (k ∷ ks) = run (observe_tau t k) ks

-- A sample that clears the record.
abbrev pub clears : TauSample → Bool
clears k = k.reset || near_bound k.tau

-- a well-formed record
abbrev pub IsTrust : TauTrust → Type 0
IsTrust t = (pos 0 ≤ℤ t.clean) × (pos 0 ≤ℤ t.bucket) × (length t.window ≤ max_buckets)

observe-clean :
    (t : TauTrust) (k : TauSample) (n : ℕ)
    → t.clean ≤ℤ seconds (600 * n)
    → (observe_tau t k).clean ≤ℤ seconds (600 * (n + 1))
unfolding observe_tau ◌+ℤ◌
observe-clean t k n h = ground (arith, h)

-- every sample adds at most one step
clean-bounded :
    (t : TauTrust) (ks : List TauSample) (n : ℕ)
    → t.clean ≤ℤ seconds (600 * n)
    → (run t ks).clean ≤ℤ seconds (600 * (n + length ks))
unfolding run
clean-bounded t [] n h = omega arith
clean-bounded t (k ∷ ks) n h =
    omega (arith, clean-bounded (observe_tau t k) ks (n + 1) (observe-clean t k n h))

observe_tau-clears :
    (t : TauTrust) (k : TauSample) → clears k ≡ true → observe_tau t k ≡ fresh_trust
unfolding observe_tau
observe_tau-clears t k h = rw h refl

-- After a sample that is a reset or near a bound, the time constant is not trusted again before at
-- least 144 further samples, whatever time they claim to cover.
trusted-run :
    (t : TauTrust) (k : TauSample) (ks : List TauSample)
    → clears k ≡ true
    → trusted (run t (k ∷ ks)) ≡ true
    → 144 ≤ length ks
unfolding run trusted leb_ℤ
trusted-run t k ks h e =
    let low : (observe_tau t k).clean ≤ℤ seconds (600 * 0) =
      rw (observe_tau-clears t k h) (omega arith) in
    ground (arith, e, clean-bounded (observe_tau t k) ks 0 low)

last_of-length {ℓ} : {A : Type ℓ} (n : ℕ) (xs : List A) → length (last_of n xs) ≤ n
unfolding last_of
last_of-length n [] = omega arith
last_of-length n (x ∷ xs) = elim (Bool-cases (leb (length (x ∷ xs)) n)) [
  | inl e ↦ rw e (ground (arith, e))
  | inr e ↦ rw e (last_of-length n xs)
]

observe-IsTrust : (t : TauTrust) (k : TauSample) → IsTrust t → IsTrust (observe_tau t k)
unfolding observe_tau ◌+ℤ◌
observe-IsTrust t k h = elim (Bool-cases (clears k)) [
  | inl e ↦ rw e (omega arith)
  | inr e ↦
      let cap =
        last_of-length max_buckets (fold_window t.window t.bucket (finite_or k.tau (pos 0))) in
      rw e (ground (arith, h), ground (arith, h), cap)
]

run-IsTrust : (t : TauTrust) (ks : List TauSample) → IsTrust t → IsTrust (run t ks)
unfolding run
run-IsTrust t [] h = h
run-IsTrust t (k ∷ ks) h = run-IsTrust (observe_tau t k) ks (observe-IsTrust t k h)

last_of-all {ℓ} : {A : Type ℓ} (n : ℕ) (xs : List A) → length xs ≤ n → last_of n xs ≡ xs
unfolding last_of
last_of-all n [] h = refl
last_of-all n (x ∷ xs) h = ground (arith, h)

length-pairs : (bs : List Bucket) → length (pairs bs) ≡ length bs
length-pairs [] = refl
length-pairs (b ∷ bs) = omega (arith, length-pairs bs)

buckets_of-pairs : (bs : List Bucket) → buckets_of (pairs bs) ≡ some bs
unfolding buckets_of
buckets_of-pairs [] = refl
buckets_of-pairs (b ∷ bs) = ground (arith, buckets_of-pairs bs)

restored_trust-same :
    (t : TauTrust)
    → pos 0 ≤ℤ t.clean
    → pos 0 ≤ℤ t.bucket
    → restored_trust (finite t.clean) (finite t.bucket) (some t.window) ≡ t
unfolding restored_trust ltb_ℤ
restored_trust-same t h g = ground (arith, h, g)

-- Storing and restoring the trust record of any run of samples gives the same record.
from_dict-to_dict :
    (ks : List TauSample) → from_dict (some (to_dict (run fresh_trust ks))) ≡ run fresh_trust ks
unfolding from_dict to_dict
from_dict-to_dict ks =
    let t = run fresh_trust ks in
    let (c, b, n) = run-IsTrust fresh_trust ks (omega arith) in
    let short =
      last_of-all max_buckets (pairs t.window) (omega (arith, length-pairs t.window, n)) in
    ap (λ w. restored_trust (finite t.clean) (finite t.bucket) (buckets_of w)) short
    ∙ ap (restored_trust (finite t.clean) (finite t.bucket)) (buckets_of-pairs t.window)
    ∙ restored_trust-same t c b
