-- ===== src/Response/Flags/Precedence.antt =====
-- Which setting of a feature flag counts.
use flood_agent.Base.{
  ◌≡◌, refl, arith, Bool, true, false, not, ◌&&◌, Option, some, Ident, Text, List, [], ◌∷◌, All,
  filter_by, text_eq, Bool-cases, inl, inr, ◌⊎◌,
}
use flood_agent.Response.Enums.{OperatorRole}
use flood_agent.Response.Records.{FeatureFlagSetting}
use flood_agent.Response.Requests.{FlagKey}
use flood_agent.Response.Dispatch.{production}
use flood_agent.Response.Flags.{outranks, top_setting, applies, on_by_default, is_feature_enabled}

-- No setting of the list outranks `f`.
abbrev pub Unbeaten : FeatureFlagSetting → List FeatureFlagSetting → Type 0
Unbeaten f l = All (λ g. outranks g f ≡ false) l

outranks_trans :
    (f g h : FeatureFlagSetting)
    → outranks h g ≡ false
    → outranks g f ≡ false
    → outranks h f ≡ false
outranks_trans f g h a b = ground arith

outranks_asym : (f g : FeatureFlagSetting) → outranks g f ≡ true → outranks f g ≡ false
outranks_asym f g a = ground arith

outranks_irrefl : (f : FeatureFlagSetting) → outranks f f ≡ false
outranks_irrefl f = ground arith

Unbeaten-trans :
    (f g : FeatureFlagSetting) (l : List FeatureFlagSetting)
    → outranks g f ≡ false
    → Unbeaten g l
    → Unbeaten f l
Unbeaten-trans f g [] b h = tt
Unbeaten-trans f g (x ∷ l) b h = (outranks_trans f g x h.0 b, Unbeaten-trans f g l b h.1)

top_setting-Unbeaten :
    (Q : FeatureFlagSetting → Type 0) (x : FeatureFlagSetting) (l : List FeatureFlagSetting)
    → All Q (x ∷ l)
    → (f : FeatureFlagSetting) × (top_setting (x ∷ l) ≡ some f) × Q f × Unbeaten f (x ∷ l)
top_setting-Unbeaten Q x [] q = (x, refl, q.0, (outranks_irrefl x, tt))
top_setting-Unbeaten Q x (y ∷ l) q =
    let (g, top, qg, best) = top_setting-Unbeaten Q y l q.1 in
    elim (Bool-cases (outranks g x)) [
      | inl wins ↦ (g, ground arith, qg, (outranks_asym x g wins, best))
      | inr loses ↦
          (x, ground arith, q.0, (outranks_irrefl x, Unbeaten-trans x g (y ∷ l) loses best))
    ]

filtered :
    (p : FeatureFlagSetting → Bool) (l : List FeatureFlagSetting)
    → All (λ f. p f ≡ true) (filter_by p l)
filtered p [] = tt
filtered p (f ∷ l) = elim (Bool-cases (p f)) [
  | inl e ↦ rw e (e, filtered p l)
  | inr e ↦ rw e (filtered p l)
]

-- A feature flag is what a setting says that applies to the question and that no setting which
-- applies outranks, by the number of its scopes and then by its version; where no setting applies,
-- it is on outside production exactly for the keys that are on by default.
pub is_feature_enabled_cases :
    (flags : List FeatureFlagSetting) (key : FlagKey) (environment : Text) (event : Option Ident)
    (role : Option OperatorRole) (scenario : Option Ident)
    → let candidates = filter_by (applies key environment event role scenario) flags in
      let enabled = is_feature_enabled flags key environment event role scenario in
      ((candidates ≡ []) × (enabled ≡ (not (text_eq environment production) && on_by_default key)))
      ⊎ ((f : FeatureFlagSetting) × (applies key environment event role scenario f ≡ true)
          × Unbeaten f candidates
          × (enabled ≡ f.enabled))
unfolding is_feature_enabled
is_feature_enabled_cases flags key environment event role scenario =
    go (filter_by asked flags) refl (filtered asked flags)
  where
    asked : FeatureFlagSetting → Bool
    asked = applies key environment event role scenario

    enabled : Bool
    enabled = is_feature_enabled flags key environment event role scenario

    go :
        (l : List FeatureFlagSetting)
        → filter_by asked flags ≡ l
        → All (λ f. asked f ≡ true) l
        → ((l ≡ []) × (enabled ≡ (not (text_eq environment production) && on_by_default key)))
          ⊎ ((f : FeatureFlagSetting) × (asked f ≡ true) × Unbeaten f l × (enabled ≡ f.enabled))
    go [] e q = inl (refl, rw (e, is_feature_enabled) refl)
    go (x ∷ l) e q =
        let (f, top, fits, best) = top_setting-Unbeaten (λ f. asked f ≡ true) x l q in
        inr (f, fits, best, rw (e, is_feature_enabled) (rw top refl))
