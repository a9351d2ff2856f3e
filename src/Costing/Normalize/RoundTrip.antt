-- ===== src/Costing/Normalize/RoundTrip.antt =====
-- A model name in every dress that the API gives it, and that `NormalizeModel` takes it off.
use copilot_token_cost.Prelude.{
  ℕ, ◌≡◌, ◌≢◌, refl, ap, ◌∙◌, Bool, true, false, Option, none, some, List, [], ◌∷◌, ◌++◌,
  append-nil, Bytes, codes, length, if◌then◌else◌, has_prefix, arith, All,
}
use copilot_token_cost.Prelude.Patterns.{is_lower, is_lower_digit, is_word, matches}
use copilot_token_cost.Costing.Normalize.{
  after_route, strip_route, effort_mark, strip_effort, date_pattern, ends_in_date, strip_date,
  strip_gateway, normalize_model,
}
use copilot_token_cost.Costing.Normalize.Lemmas.{
  has_prefix-append_ne, has_prefix-longer, skip_some-append, NoColon, Stops, strip_effort-append,
  strip_effort-mark, strip_date-append,
}

pub data Gateway : Type 0 where
  direct capi sweagent : Gateway

pub gateway_text : Gateway → Bytes
gateway_text direct = []
gateway_text capi = codes "capi:"
gateway_text sweagent = codes "sweagent-capi:"

-- `capi-<region>-ptuc-<pool>-`, with `ib-` behind it or not.
pub record Route : Type 0 where
  pub region : Bytes
  pub pool : Bytes
  pub ib : Bool

pub route_text : Option Route → Bytes → Bytes
route_text none rest = rest
route_text (some r) rest =
    codes "capi-"
    ++ (r.region
        ++ (codes "-ptuc-"
            ++ (r.pool ++ (if r.ib then codes "-ib-" ++ rest else codes "-" ++ rest))))

pub effort_text : Option Bytes → Bytes → Bytes
effort_text none rest = rest
effort_text (some w) rest = effort_mark ++ (w ++ rest)

pub date_text : Option Bytes → Bytes
date_text none = []
date_text (some d) = d

abbrev pub IsRoute : Option Route → Type 0
IsRoute none = Unit
IsRoute (some r) =
    (r.region ≢ [])
    × All (λ b. is_lower b ≡ true) r.region
    × (r.pool ≢ [])
    × All (λ b. is_lower_digit b ≡ true) r.pool

abbrev pub IsEffort : Option Bytes → Type 0
IsEffort none = Unit
IsEffort (some w) = (w ≢ []) × All (λ b. is_word b ≡ true) w

abbrev pub IsDate : Option Bytes → Type 0
IsDate none = Unit
IsDate (some d) = (length d ≡ 11) × (matches date_pattern d ≡ true)

-- A name that no expression of `NormalizeModel` could take for a part of its dress.
pub record IsPlain (name : Bytes) : Type 0 where
  pub no_colon : NoColon name
  pub no_capi : has_prefix name (codes "capi") ≡ false
  pub no_sweagent : has_prefix name (codes "sweagent") ≡ false
  pub no_ib : has_prefix name (codes "ib") ≡ false
  pub no_date : ends_in_date name ≡ false

pub dressed : Gateway → Option Route → Bytes → Option Bytes → Option Bytes → Bytes
dressed g route name effort date =
    gateway_text g ++ route_text route (name ++ effort_text effort (date_text date))

-- What stands behind the name: nothing, or a text that begins with `:` or `-`.
data Tail : Bytes → Type 0 where
  ends : Tail []
  colon : (s : Bytes) → Tail (b':' ∷ s)
  dash : (s : Bytes) → Tail (b'-' ∷ s)

date-Tail : (d : Bytes) → length d ≡ 11 → matches date_pattern d ≡ true → Tail d
unfolding matches
date-Tail [] n h = ends
date-Tail (c ∷ d) n h = let e : c ≡ b'-' = ground arith in rw e (dash d)

text-Tail : (effort date : Option Bytes) → IsDate date → Tail (effort_text effort (date_text date))
unfolding effort_text date_text
text-Tail none none d = ends
text-Tail none (some d) (n, h) = date-Tail d n h
text-Tail (some w) date d = colon _

-- Behind a plain name no prefix of its own can be completed.
no_prefix :
    (s p : Bytes) {t : Bytes}
    → Tail t
    → All (λ b. b ≢ b':') p
    → All (λ b. b ≢ b'-') p
    → has_prefix s p ≡ false
    → has_prefix (s ++ t) p ≡ false
no_prefix s p ends _ _ h = rw append-nil h
no_prefix s p (colon t) k _ h = has_prefix-append_ne s p b':' t h k
no_prefix s p (dash t) _ k h = has_prefix-append_ne s p b'-' t h k

after_route-plain : (s : Bytes) → has_prefix s (codes "capi") ≡ false → after_route s ≡ none
unfolding after_route
after_route-plain s h = rw (has_prefix-longer s (codes "capi") (codes "-") h)

after_route-text :
    (region pool : Bytes) (ib : Bool) (rest : Bytes)
    → IsRoute (some (record { region = region; pool = pool; ib = ib }))
    → has_prefix rest (codes "ib") ≡ false
    → after_route (route_text (some (record { region = region; pool = pool; ib = ib })) rest)
      ≡ some rest
unfolding route_text after_route
after_route-text region pool true rest (hr, ar, hp, ap) k =
    rw (skip_some-append is_lower region _ _ hr ar refl)
      (rw (skip_some-append is_lower_digit pool _ _ hp ap refl) refl)
after_route-text region pool false rest (hr, ar, hp, ap) k =
    rw (skip_some-append is_lower region _ _ hr ar refl) (
      rw
        (
          skip_some-append is_lower_digit pool _ _ hp ap refl,
          has_prefix-longer rest (codes "ib") (codes "-") k,
        )
        refl)

strip_route-text :
    (route : Option Route) (rest : Bytes)
    → IsRoute route
    → has_prefix rest (codes "ib") ≡ false
    → has_prefix rest (codes "capi") ≡ false
    → strip_route (route_text route rest) ≡ rest
unfolding strip_route after_route route_text
strip_route-text none rest h i c = rw (after_route-plain rest c)
strip_route-text (some r) rest h i c = rw (after_route-text r.region r.pool r.ib rest h i)

strip_gateways :
    (g : Gateway) (route : Option Route) (rest : Bytes)
    → has_prefix rest (codes "capi") ≡ false
    → has_prefix rest (codes "sweagent") ≡ false
    → strip_gateway
        (codes "capi:")
        (strip_gateway (codes "sweagent-capi:") (gateway_text g ++ route_text route rest))
      ≡ route_text route rest
unfolding strip_gateway gateway_text route_text has_prefix
strip_gateways direct none rest c s = rw (
  has_prefix-longer rest (codes "sweagent") (codes "-capi:") s,
  has_prefix-longer rest (codes "capi") (codes ":") c,
)
strip_gateways direct (some r) rest c s = refl
strip_gateways capi route rest c s = refl
strip_gateways sweagent none rest c s = rw (has_prefix-longer rest (codes "capi") (codes ":") c)
strip_gateways sweagent (some r) rest c s = refl

matches-NoColon :
    (ps : List (ℕ → Bool)) (s : Bytes)
    → All (λ p. p b':' ≡ false) ps
    → matches ps s ≡ true
    → NoColon s
unfolding matches
matches-NoColon [] [] h m = tt
matches-NoColon [] (c ∷ s) h m = cc
matches-NoColon (p ∷ ps) [] h m = tt
matches-NoColon (p ∷ ps) (c ∷ s) (hp, hs) m =
    let both : (p c ≡ true) × (matches ps s ≡ true) = ground arith in
    (λ e. cc (both.0, ap p e), matches-NoColon ps s hs both.1)

date_text-NoColon : (date : Option Bytes) → IsDate date → NoColon (date_text date)
unfolding date_text
date_text-NoColon none d = tt
date_text-NoColon (some date) (n, h) = matches-NoColon date_pattern date (ground arith) h

Tail-Stops : {t : Bytes} → Tail t → Stops is_word t
Tail-Stops ends = tt
Tail-Stops (colon s) = refl
Tail-Stops (dash s) = refl

nothing_left : strip_effort 0 [] ≡ []
unfolding strip_effort
nothing_left = refl

strip_effort-date :
    (date : Option Bytes) → IsDate date → strip_effort 0 (date_text date) ≡ date_text date
strip_effort-date date d =
    let h = strip_effort-append (date_text date) [] (date_text-NoColon date d) in
    cc (h, append-nil (date_text date), nothing_left, append-nil (date_text date))

strip_effort-text :
    (effort date : Option Bytes)
    → IsEffort effort
    → IsDate date
    → strip_effort 0 (effort_text effort (date_text date)) ≡ date_text date
unfolding effort_text
strip_effort-text none date e d = strip_effort-date date d
strip_effort-text (some w) date (n, h) d =
    strip_effort-mark w (date_text date) n h (Tail-Stops (text-Tail none date d))
    ∙ strip_effort-date date d

strip_date-text :
    (name : Bytes) (date : Option Bytes)
    → ends_in_date name ≡ false
    → IsDate date
    → strip_date (name ++ date_text date) ≡ name
unfolding date_text
strip_date-text name none p d = unfold strip_date in rw (append-nil, p)
strip_date-text name (some date) p (n, h) = strip_date-append name date n h

strip_tail :
    (name : Bytes) (effort date : Option Bytes)
    → IsPlain name
    → IsEffort effort
    → IsDate date
    → strip_date (strip_effort 0 (name ++ effort_text effort (date_text date))) ≡ name
strip_tail name effort date p e d =
    rw (strip_effort-append name _ p.no_colon, strip_effort-text effort date e d)
      (strip_date-text name date p.no_date d)

-- `NormalizeModel` undoes every dress: whatever gateway, route, effort and date stand round a plain
-- name, the plain name is what it returns.
pub normalize-dressed :
    (g : Gateway) (route : Option Route) (name : Bytes) (effort date : Option Bytes)
    → IsPlain name
    → IsRoute route
    → IsEffort effort
    → IsDate date
    → normalize_model (dressed g route name effort date) ≡ name
unfolding dressed normalize_model
normalize-dressed g route name effort date p r e d =
    let t = text-Tail effort date d in
    let rest = name ++ effort_text effort (date_text date) in
    let ib : has_prefix rest (codes "ib") ≡ false =
      no_prefix name (codes "ib") t (omega arith) (omega arith) p.no_ib in
    let capi' : has_prefix rest (codes "capi") ≡ false =
      no_prefix name (codes "capi") t (omega arith) (omega arith) p.no_capi in
    let swe : has_prefix rest (codes "sweagent") ≡ false =
      no_prefix name (codes "sweagent") t (omega arith) (omega arith) p.no_sweagent in
    ap (λ s. strip_date (strip_effort 0 (strip_route s))) (strip_gateways g route rest capi' swe)
    ∙ ap (λ s. strip_date (strip_effort 0 s)) (strip_route-text route rest r ib capi')
    ∙ strip_tail name effort date p e d
