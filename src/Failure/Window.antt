-- ===== src/Failure/Window.antt =====
-- When a failure is flagged and how long it stands.
use poise_thermostat.Base.{◌≡◌, refl, true, none, some, List, [], ◌∷◌, arith}
use poise_thermostat.Base.Int.{
  ℤ, ◌≤ℤ◌, ◌<ℤ◌, ◌-ℤ◌, ltb_ℤ, neg_ℤ, le→ltb_ℤ, le→leb_ℤ, lt→leb_ℤ, -ℤ_parts,
}
use poise_thermostat.Failure.{Limits, Detector, Sample, demanded, update, mirrored, update_cooling}

abbrev pub run : Limits → Detector → List Sample → Detector
run c d [] = d
run c d (x ∷ xs) = run c (update c d x) xs

-- Every sample demands heat, at a time from `t` on at which the window since `t` has not yet passed.
abbrev pub Waiting : Limits → ℤ → List Sample → Type 0
Waiting c t [] = Unit
Waiting c t (x ∷ xs) =
    (demanded c x ≡ true) × (t ≤ℤ x.now_h) × (x.now_h -ℤ t <ℤ c.delay_h) × Waiting c t xs

begin-window :
    (c : Limits) (d : Detector) (x : Sample)
    → demanded c x ≡ true
    → d.start ≡ none
    → (update c d x).start ≡ some (x.now_h, x.room)
unfolding update
begin-window c d x h s = ground arith

stay-window :
    (c : Limits) (d : Detector) (x : Sample) (t r : ℤ)
    → demanded c x ≡ true
    → d.start ≡ some (t, r)
    → t ≤ℤ x.now_h
    → x.now_h -ℤ t <ℤ c.delay_h
    → (update c d x).start ≡ some (t, r)
unfolding update
stay-window c d x t r h s le lt =
    let anchored = le→ltb_ℤ x.now_h t le in
    let early = lt→leb_ℤ c.delay_h (x.now_h -ℤ t) lt in rw (h, s, anchored) (ground (arith, early))

close-window :
    (c : Limits) (d : Detector) (x : Sample) (t r : ℤ)
    → demanded c x ≡ true
    → d.start ≡ some (t, r)
    → t ≤ℤ x.now_h
    → c.delay_h ≤ℤ x.now_h -ℤ t
    → (update c d x).failed ≡ ltb_ℤ (x.room -ℤ r) c.min_rise
unfolding update
close-window c d x t r h s le late =
    let anchored = le→ltb_ℤ x.now_h t le in
    let passed = le→leb_ℤ c.delay_h (x.now_h -ℤ t) late in
    rw (h, s, anchored) (ground (arith, passed))

run-window :
    (c : Limits) (d : Detector) (xs : List Sample) (t r : ℤ)
    → d.start ≡ some (t, r)
    → Waiting c t xs
    → (run c d xs).start ≡ some (t, r)
run-window c d [] t r s w = s
run-window c d (x ∷ xs) t r s w =
    run-window c (update c d x) xs t r (stay-window c d x t r w.0 s w.1 w.2) w.3

-- A window that begins with demand, sees demand on every tick and lasts at least the delay ends with
-- the flag set exactly when the room has risen by less than the required rise since its beginning,
-- whatever the flag was before.
pub window_verdict :
    (c : Limits) (d : Detector) (first last : Sample) (xs : List Sample)
    → d.start ≡ none
    → demanded c first ≡ true
    → Waiting c first.now_h xs
    → demanded c last ≡ true
    → first.now_h ≤ℤ last.now_h
    → c.delay_h ≤ℤ last.now_h -ℤ first.now_h
    → (update c (run c d (first ∷ xs)) last).failed ≡ ltb_ℤ (last.room -ℤ first.room) c.min_rise
window_verdict c d first last xs s h w hl le late =
    let begun = begin-window c d first h s in
    let kept = run-window c (update c d first) xs first.now_h first.room begun w in
    close-window c (run c d (first ∷ xs)) last first.now_h first.room hl kept le late

abbrev pub run_cooling : Limits → Detector → List Sample → Detector
run_cooling c d [] = d
run_cooling c d (x ∷ xs) = run_cooling c (update_cooling c d x) xs

-- The sample demands cooling: the device cools and the room is `cmd_delta` above the setpoint.
abbrev pub CoolingDemanded : Limits → Sample → Type 0
CoolingDemanded c x = (x.running ≡ true) × (c.cmd_delta ≤ℤ x.room -ℤ x.setpoint)

abbrev pub CoolingWaiting : Limits → ℤ → List Sample → Type 0
CoolingWaiting c t [] = Unit
CoolingWaiting c t (x ∷ xs) =
    CoolingDemanded c x × (t ≤ℤ x.now_h) × (x.now_h -ℤ t <ℤ c.delay_h) × CoolingWaiting c t xs

mirrored-demanded : (c : Limits) (x : Sample) → CoolingDemanded c x → demanded c (mirrored x) ≡ true
unfolding demanded mirrored
mirrored-demanded c x (r, h) =
    let le =
      le→leb_ℤ c.cmd_delta (neg_ℤ x.setpoint -ℤ neg_ℤ x.room)
        (ground (arith, -ℤ_parts x.room x.setpoint, -ℤ_parts (neg_ℤ x.setpoint) (neg_ℤ x.room))) in
    rw (r, le) refl

mirrored_samples : List Sample → List Sample
mirrored_samples [] = []
mirrored_samples (x ∷ xs) = mirrored x ∷ mirrored_samples xs

mirrored-Waiting :
    (c : Limits) (t : ℤ) (xs : List Sample)
    → CoolingWaiting c t xs
    → Waiting c t (mirrored_samples xs)
unfolding mirrored_samples mirrored
mirrored-Waiting c t [] w = tt
mirrored-Waiting c t (x ∷ xs) w = (mirrored-demanded c x w.0, w.1, w.2, mirrored-Waiting c t xs w.3)

run_cooling-run :
    (c : Limits) (d : Detector) (xs : List Sample)
    → run_cooling c d xs ≡ run c d (mirrored_samples xs)
unfolding mirrored_samples update_cooling
run_cooling-run c d [] = refl
run_cooling-run c d (x ∷ xs) = run_cooling-run c (update_cooling c d x) xs

fall-rise :
    (room room0 rise : ℤ) → ltb_ℤ (neg_ℤ room -ℤ neg_ℤ room0) rise ≡ ltb_ℤ (room0 -ℤ room) rise
unfolding ◌-ℤ◌ ltb_ℤ
fall-rise room room0 rise = ground arith

-- The cooling detector's verdict on a window of cooling demand is the same with the fall of the room
-- in place of the rise.
cooling_window_verdict :
    (c : Limits) (d : Detector) (first last : Sample) (xs : List Sample)
    → d.start ≡ none
    → CoolingDemanded c first
    → CoolingWaiting c first.now_h xs
    → CoolingDemanded c last
    → first.now_h ≤ℤ last.now_h
    → c.delay_h ≤ℤ last.now_h -ℤ first.now_h
    → (update_cooling c (run_cooling c d (first ∷ xs)) last).failed
      ≡ ltb_ℤ (first.room -ℤ last.room) c.min_rise
unfolding update_cooling mirrored_samples mirrored
cooling_window_verdict c d first last xs s h w hl le late =
    rw
      (run_cooling-run c (update_cooling c d first) xs, ← fall-rise last.room first.room c.min_rise)
      (window_verdict c d (mirrored first) (mirrored last) (mirrored_samples xs) s
        (mirrored-demanded c first h) (mirrored-Waiting c first.now_h xs w)
        (mirrored-demanded c last hl) le late)
