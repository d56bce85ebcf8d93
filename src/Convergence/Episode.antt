-- ===== src/Convergence/Episode.antt =====
-- What the watchdog's counters mean over a series of ticks.
use mathlib.Core.Path.{subst}
use poise_thermostat.Base.{
  sym, ap, ◌∙◌, ℕ, suc, ◌+◌, ◌≤◌, ◌<◌, ◌≡◌, refl, Bool, true, Option, none, some, List, [], ◌∷◌,
  arith, length,
}
use poise_thermostat.Base.Int.{ℤ, ◌≤ℤ◌, ◌-ℤ◌, ltb_ℤ, le→ltb_ℤ, le→leb_ℤ}
use poise_thermostat.Convergence.{
  Channel, cleared, Watchdog, SetpointTick, Verdict, no_evidence, ended, diverged, judge,
  judge_mode, fold_verdict, expire, evidence, observe_sp, observe_setpoint, observe_mode,
  channel_escalated, conv_fail_min_s, conv_evidence_ttl_s,
}

-- An empty channel has no stamps; a counting one has both, in order.
abbrev Ordered : ℕ → Option ℤ → Option ℤ → Type 0
Ordered n none none = n ≡ 0
Ordered n none (some l) = ⊥
Ordered n (some s) none = ⊥
Ordered n (some s) (some l) = (0 < n) × (s ≤ℤ l)

abbrev pub IsEpisode : Channel → Type 0
IsEpisode c = Ordered c.count c.since c.last

abbrev NotAfter : Option ℤ → ℤ → Type 0
NotAfter none now = Unit
NotAfter (some l) now = l ≤ℤ now

expire_on :
    (n : ℕ) (s l : Option ℤ) (now : ℤ)
    → Ordered n s l
    → let c = expire (record { count = n; since = s; last = l }) now in
      IsEpisode c × NotAfter c.last now
unfolding expire ltb_ℤ
expire_on n none none now h = ground arith
expire_on n none (some l) now h = absurd h
expire_on n (some s) none now h = absurd h
expire_on n (some s) (some l) now h = ground arith

evidence-IsEpisode :
    (n : ℕ) (s l : Option ℤ) (now : ℤ)
    → Ordered n s l
    → NotAfter l now
    → IsEpisode (evidence (record { count = n; since = s; last = l }) now)
unfolding evidence
evidence-IsEpisode n none none now h k = ground arith
evidence-IsEpisode n none (some l) now h k = absurd h
evidence-IsEpisode n (some s) none now h k = absurd h
evidence-IsEpisode n (some s) (some l) now h k = ground arith

fold_verdict-IsEpisode :
    (v : Verdict) (c : Channel) (now : ℤ)
    → IsEpisode c
    → NotAfter c.last now
    → IsEpisode (fold_verdict v c now)
unfolding fold_verdict
fold_verdict-IsEpisode no_evidence c now h k = h
fold_verdict-IsEpisode ended c now h k = refl
fold_verdict-IsEpisode diverged c now h k = evidence-IsEpisode c.count c.since c.last now h k

-- Both observations keep both channels well formed, on any clock, also one that runs backwards.
observe-IsEpisode :
    (w : Watchdog) (t : SetpointTick) (nudged re_nudge matches fresh : Bool)
    → IsEpisode w.sp
    → IsEpisode w.mode
    → let w' = observe_mode (observe_setpoint w t) nudged re_nudge matches fresh t.now in
      IsEpisode w'.sp × IsEpisode w'.mode
unfolding observe_setpoint observe_mode
observe-IsEpisode w t nudged re_nudge matches fresh hs hm =
    let (es, ns) = expire_on w.sp.count w.sp.since w.sp.last t.now hs in
    let (em, nm) = expire_on w.mode.count w.mode.since w.mode.last t.now hm in
    (
      fold_verdict-IsEpisode (judge t) (expire w.sp t.now) t.now es ns,
      fold_verdict-IsEpisode (judge_mode nudged re_nudge matches fresh) (expire w.mode t.now) t.now
          em nm,
    )

abbrev pub run : Channel → List SetpointTick → Channel
run c [] = c
run c (t ∷ ts) = run (observe_sp c t) ts

-- the ticks that wrote while the device had not applied the command
abbrev divergent : Verdict → ℕ → ℕ
divergent diverged n = suc n
divergent _ n = n

abbrev pub divergences : List SetpointTick → ℕ
divergences [] = 0
divergences (t ∷ ts) = divergent (judge t) (divergences ts)

expire-count : (c : Channel) (now : ℤ) → (expire c now).count ≤ c.count
unfolding expire
expire-count c now = ground arith

observe_sp-count :
    (c : Channel) (t : SetpointTick) (n : ℕ)
    → (observe_sp c t).count + n ≤ c.count + divergent (judge t) n
unfolding observe_sp
observe_sp-count c t n = ground (arith, expire-count c t.now)

run-count : (c : Channel) (ts : List SetpointTick) → (run c ts).count ≤ c.count + divergences ts
run-count c [] = omega arith
run-count c (t ∷ ts) =
    omega (arith, run-count (observe_sp c t) ts, observe_sp-count c t (divergences ts))

-- From an empty episode the setpoint channel escalates only after five ticks on which a fresh
-- reading showed that the device had not applied the command and Poise wrote again.
escalated_needs_divergences :
    (ts : List SetpointTick) (now : ℤ)
    → channel_escalated (run cleared ts) now ≡ true
    → 5 ≤ divergences ts
unfolding channel_escalated
escalated_needs_divergences ts now h = ground (arith, run-count cleared ts)

-- Every tick is divergent, none is earlier than the one before it, and none comes later than the
-- lifetime of evidence after it.
abbrev pub Diverging : ℤ → List SetpointTick → Type 0
Diverging p [] = Unit
Diverging p (t ∷ ts) =
    (judge t ≡ diverged) × (p ≤ℤ t.now) × (t.now -ℤ p ≤ℤ conv_evidence_ttl_s) × Diverging t.now ts

abbrev pub last_time : ℤ → List SetpointTick → ℤ
last_time p [] = p
last_time p (t ∷ ts) = last_time t.now ts

expire_recent :
    (n : ℕ) (s p now : ℤ)
    → s ≤ℤ p
    → p ≤ℤ now
    → now -ℤ p ≤ℤ conv_evidence_ttl_s
    → expire (record { count = n; since = some s; last = some p }) now
      ≡ record { count = n; since = some s; last = some p }
unfolding expire
expire_recent n s p now sp pn ttl =
    let a = le→ltb_ℤ now p pn in
    let b = le→ltb_ℤ now s (omega arith) in
    let c = le→ltb_ℤ conv_evidence_ttl_s (now -ℤ p) ttl in ground (arith, a, b, c)

run-Diverging :
    (n : ℕ) (s p : ℤ) (ts : List SetpointTick)
    → s ≤ℤ p
    → Diverging p ts
    → run (record { count = n; since = some s; last = some p }) ts
      ≡ record { count = n + length ts; since = some s; last = some (last_time p ts) }
unfolding observe_sp
run-Diverging n s p [] sp d = ground arith
run-Diverging n s p (t ∷ ts) sp d =
    let e = expire_recent n s p t.now sp d.1 d.2 in
    let step : fold_verdict (judge t)
          (expire (record { count = n; since = some s; last = some p }) t.now) t.now
        ≡ record { count = n + 1; since = some s; last = some t.now } =
      rw (d.0, e) refl in
    rw step (rw (run-Diverging (n + 1) s t.now ts (omega arith) d.3) (ground arith))

-- A device that does not apply its command, while Poise keeps writing it, is escalated: after a
-- first divergent tick and at least four more, each within the lifetime of evidence of the one
-- before, at any time ten minutes or more after the first.
pub stuck_device_escalates :
    (first : SetpointTick) (ts : List SetpointTick) (now : ℤ)
    → judge first ≡ diverged
    → Diverging first.now ts
    → 4 ≤ length ts
    → conv_fail_min_s ≤ℤ now -ℤ first.now
    → channel_escalated (run cleared (first ∷ ts)) now ≡ true
unfolding observe_sp channel_escalated
stuck_device_escalates first ts now j d n le =
    let step : observe_sp cleared first
        ≡ record { count = 1; since = some first.now; last = some first.now } =
      rw j refl in
    let whole = ap (λ c. run c ts) step ∙ run-Diverging 1 first.now first.now ts (omega arith) d in
    subst (λ c. channel_escalated c now ≡ true) (sym whole)
      (rw (le→leb_ℤ conv_fail_min_s (now -ℤ first.now) le) (ground arith))
