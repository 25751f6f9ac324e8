-- ===== src/Agents/Windows.antt =====
-- What the window of a policy (agent-upgrade-policies.js) admits.
use nuvrion.Common.{
  ℕ, ◌+◌, ◌-◌, ◌%◌, ◌<◌, String, true, false, ◌||◌, Option, some, List, [], ◌∷◌, ◌≡◌, refl, ap, inl,
  inr, str_eq, ltb, ◌==◌, Bool-cases, Option-cases, get, Assoc, eq_iff, arith,
}
use nuvrion.Common.Results.{ok, >>=-eq-ok}
use nuvrion.Common.Text.{codes, is_digit, is_time, minute_of}
use nuvrion.Common.Json.{is_truthy, Json, text, Platform, object_of, to_text}
use nuvrion.Agents.Policies.{
  Zones, Policy, or_null, is_given, differ, is_time_text, zone_of, switch_of, normalize_fields,
  check_window, policy_of, normalize_policy, minute_in, in_window, zone_or_utc, is_within_window,
}

minute_of-lt : (cs : List ℕ) → is_time cs ≡ true → minute_of cs < 1440
unfolding is_time minute_of is_digit
minute_of-lt [] h = absurd (cc)
minute_of-lt (a ∷ []) h = absurd (cc)
minute_of-lt (a ∷ b ∷ []) h = absurd (cc)
minute_of-lt (a ∷ b ∷ c ∷ []) h = absurd (cc)
minute_of-lt (a ∷ b ∷ c ∷ d ∷ []) h = absurd (cc)
minute_of-lt (a ∷ b ∷ c ∷ d ∷ e ∷ []) h = ground arith
minute_of-lt (a ∷ b ∷ c ∷ d ∷ e ∷ f ∷ r) h = absurd (cc)

in_window-around :
    (start end minutes : ℕ)
    → start < 1440
    → end < 1440
    → minutes < 1440
    → in_window (some start) (some end) minutes
      ≡ (start == end || ltb ((minutes + 1440 - start) % 1440) ((end + 1440 - start) % 1440))
unfolding in_window
in_window-around start end minutes hs he hm = ground arith

is_truthy-time : (s : String) → is_time (codes s) ≡ true → is_truthy (some (text s)) ≡ true
unfolding is_truthy is_time
is_truthy-time s h = elim (Bool-cases (str_eq s "")) [
  | inl e ↦ absurd (no_time (ap (λ t. is_time (codes t)) ((eq_iff s "").0 e)) h)
  | inr e ↦ rw e refl
]
  where
    no_time : is_time (codes s) ≡ false → is_time (codes s) ≡ true → ⊥
    no_time f t = cc

-- Both ends of a window that a policy keeps as texts are times.
check_window-is_time :
    (platform : Platform) (start end : Option Json) (a b : String) {u : Unit {0}}
    → check_window platform start end ≡ ok u
    → start ≡ some (text a)
    → end ≡ some (text b)
    → (is_time (codes a) ≡ true) × (is_time (codes b) ≡ true)
unfolding check_window is_given differ is_time_text to_text
check_window-is_time platform start end a b h hs he = ground arith

policy_of-is_time :
    (platform : Platform) (zones : Zones) (start end : Option Json) (fields : Assoc Json)
    (p : Policy) (a b : String)
    → policy_of platform zones start end fields ≡ ok p
    → p.window_start ≡ some (text a)
    → p.window_end ≡ some (text b)
    → (is_time (codes a) ≡ true) × (is_time (codes b) ≡ true)
unfolding policy_of
policy_of-is_time platform zones start end fields p a b h hs he =
    let (switch, _, k) = >>=-eq-ok (switch_of (get "autoUpgrade" fields)) _ h in
    let (u, checked, l) = >>=-eq-ok (check_window platform start end) _ k in
    let (zone, _, made) = >>=-eq-ok (zone_of zones (get "windowTimezone" fields)) _ l in
    check_window-is_time platform start end a b checked (cc) (cc)

-- A policy that normalizePolicy made, with both ends of a window as texts, admits a time exactly when
-- the ends are equal, or the minutes from the start to it, around the clock, are fewer than those to
-- the end.
pub is_within_window-around :
    (platform : Platform) (zones : Zones) (input : Option Json) (p : Policy) (a b : String)
    (now : ℕ)
    → normalize_policy platform zones input ≡ ok p
    → p.window_start ≡ some (text a)
    → p.window_end ≡ some (text b)
    → zones.minute_at (zone_or_utc p.window_timezone) now < 1440
    → is_within_window zones p now ≡ (
        minute_of (codes a) == minute_of (codes b)
        || ltb
            ((zones.minute_at (zone_or_utc p.window_timezone) now + 1440 - minute_of (codes a))
              % 1440)
            ((minute_of (codes b) + 1440 - minute_of (codes a)) % 1440))
unfolding normalize_policy normalize_fields is_within_window minute_in
is_within_window-around platform zones input p a b now h hs he hm =
    elim (Option-cases (object_of input)) [
      | inl none_e ↦ absurd (cc)
      | inr (fields, e) ↦
          let made : normalize_fields platform zones fields ≡ ok p = cc in
          let (ta, tb) =
            policy_of-is_time platform zones (or_null (get "windowStart" fields))
              (or_null (get "windowEnd" fields)) fields p a b made hs he in
          rw (hs, he, is_truthy-time a ta, is_truthy-time b tb)
            (in_window-around _ _ _ (minute_of-lt _ ta) (minute_of-lt _ tb) hm)
    ]
