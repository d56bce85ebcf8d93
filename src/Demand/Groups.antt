-- ===== src/Demand/Groups.antt =====
-- What the zones ask of shared sources: `group_call_for_heat` and `resolve_source_policy` of
-- custom_components/poise/control/hub_aggregate.py.  A dictionary is a list of its entries in order.
use Prim.Native.String.{String}
use text.Mathlib.Text.{◌==◌ as str_eq}
use poise_thermostat.Base.{
  ◌≡◌, refl, inl, inr, Bool, ◌||◌, Option, none, some, List, [], ◌∷◌, if◌then◌else◌, Bool-cases,
  keep,
}
use poise_thermostat.Demand.{ZoneRequest}

-- `out[group] = out.get(group, False) or heating`
unfoldable pub call_group : String → Bool → List (String × Bool) → List (String × Bool)
call_group g heating [] = (g, heating) ∷ []
call_group g heating ((k, b) ∷ out) =
    if str_eq k g then (k, b || heating) ∷ out else (k, b) ∷ call_group g heating out

unfoldable pub add_call : ZoneRequest → Option String → List (String × Bool) → List (String × Bool)
unfolding call_group
add_call r none out = out
add_call r (some g) out = if str_eq g "" then out else call_group g r.heating out

unfoldable pub add_calls : List ZoneRequest → List (String × Bool) → List (String × Bool)
unfolding add_call
add_calls [] out = out
add_calls (r ∷ rs) out = add_calls rs (add_call r r.compressor_group out)

unfoldable pub group_call_for_heat : List ZoneRequest → List (String × Bool)
unfolding add_calls
group_call_for_heat requests = add_calls requests []

abbrev preference : Option String → String
preference none = "auto"
preference (some s) = if str_eq s "" then "auto" else s

-- `(r.source_pref or "auto").lower()`, where `lower` is the lower-case form of a text
unfoldable pub granted : (String → String) → String → Option String → String
granted lower default_source source_pref =
    let pref = lower (preference source_pref) in
    if str_eq pref "radiator" || str_eq pref "heat_pump" then pref else default_source

-- `out[zone_id] = source`
unfoldable pub grant : String → String → List (String × String) → List (String × String)
grant z source [] = (z, source) ∷ []
grant z source ((k, v) ∷ out) =
    if str_eq k z then (k, source) ∷ out else (k, v) ∷ grant z source out

unfoldable pub add_grants :
    (String → String) → String → List ZoneRequest → List (String × String) → List (String × String)
unfolding granted grant
add_grants lower default_source [] out = out
add_grants lower default_source (r ∷ rs) out =
    add_grants lower default_source rs
      (if r.heating then grant r.zone_id (granted lower default_source r.source_pref) out else out)

unfoldable pub resolve_source_policy :
    (String → String) → List ZoneRequest → String → List (String × String)
unfolding add_grants
resolve_source_policy lower requests default_source = add_grants lower default_source requests []

-- Only zones that heat are granted a source.
resolve_source_policy-heating :
    (lower : String → String) (rs : List ZoneRequest) (d : String) (out : List (String × String))
    → add_grants lower d (keep (λ r. r.heating) rs) out ≡ add_grants lower d rs out
unfolding add_grants
resolve_source_policy-heating lower [] d out = refl
resolve_source_policy-heating lower (r ∷ rs) d out = elim (Bool-cases r.heating) [
  | inl e ↦ rw e (
      resolve_source_policy-heating lower rs d
        (grant r.zone_id (granted lower d r.source_pref) out))
  | inr e ↦ rw e (resolve_source_policy-heating lower rs d out)
]
