-- ===== src/Slogx/Removal.antt =====
-- The logger of pkg/logger strips secrets.
use team_tasks.Base.{
  ℤ, String, true, false, ◌||◌, Bool, none, List, [], ◌∷◌, ◌≡◌, ◌≢◌, ◌↔◌, ◌⊎◌, inl, inr, refl, ap,
  ◌∙◌, arith, str_eq, str_eq_iff, Bool-cases, true_or_false,
}
use team_tasks.Slogx.Masker.{MaskMap}
use team_tasks.Slogx.Config.{
  Config, default_options, with_output, with_format, with_level, with_removal, add_removals,
  remove_all, with_context_keys,
}
use team_tasks.Slogx.Handler.{
  Attr, LogValue, level_value, any_value, string_value, Texts, removed, kept, replace_attr,
  name_level, mask_attr,
}
use team_tasks.Slogx.Logger.{apply_options, new_config, update_config, set_level, service_config}

-- The level is set any number of times.
abbrev pub set_levels : List ℤ → Config → Config
set_levels [] c = c
set_levels (l ∷ ls) c = set_levels ls (set_level l c)

set_levels-keys :
    (ls : List ℤ) (c : Config)
    → ((set_levels ls c).remove_keys ≡ c.remove_keys) × ((set_levels ls c).mask_keys ≡ c.mask_keys)
unfolding set_level update_config
set_levels-keys [] c = (refl, refl)
set_levels-keys (l ∷ ls) c = set_levels-keys ls (record c { level = l })

abbrev is_secret : String → Bool
is_secret key = str_eq key "secret" || (str_eq key "token" || (str_eq key "password" || false))

service_config-keys :
    (env : String)
    → ((service_config env).remove_keys ≡ is_secret)
      × ((service_config env).mask_keys ≡ (λ key. none))
unfolding service_config new_config apply_options with_output with_format with_level with_removal
    add_removals remove_all with_context_keys default_options
service_config-keys env = (refl, refl)

named-stays : (lib : Texts) (c : Config) (a : Attr) (v : LogValue) → name_level lib c a v ≢ removed
named-stays lib c a (level_value l) e = cc
named-stays lib c a (any_value b) e = cc
named-stays lib c a (string_value s) e = cc

kept-stays : (a : Attr) → kept a ≢ removed
kept-stays a e = cc

unmasked-stays : (lib : Texts) (c : Config) (a : Attr) → mask_attr lib c a none ≢ removed
unmasked-stays lib c a e = elim (Bool-cases (str_eq a.key "level")) [
  | inl level ↦ named-stays lib c a a.value (rw level at e)
  | inr other ↦ kept-stays a (rw other at e)
]

-- The keys whose values nobody shall see.
abbrev pub IsSecret : String → Type 0
IsSecret key = (key ≡ "password") ⊎ (key ≡ "token") ⊎ (key ≡ "secret")

is_secret_iff : (key : String) → (is_secret key ≡ true) ↔ IsSecret key
is_secret_iff key =
    ground (arith, str_eq_iff key "password", str_eq_iff key "token", str_eq_iff key "secret")

-- In every environment, and however often its level is set, the `ReplaceAttr` of the logger of the
-- service leaves out an attribute that it is called on, which is none of kind group, exactly if the
-- key is `password`, `token` or `secret`.
pub service_config-secrets :
    (lib : Texts) (env : String) (ls : List ℤ) (a : Attr)
    → (replace_attr lib (set_levels ls (service_config env)) a ≡ removed) ↔ IsSecret a.key
unfolding replace_attr
service_config-secrets lib env ls a =
    let (removes, masks) = set_levels-keys ls (service_config env) in
    let (secrets, unmasked) = service_config-keys env in
    let removes_at = ap (λ (f : String → Bool). f a.key) (removes ∙ secrets) in
    let masks_at = ap (λ (f : MaskMap). f a.key) (masks ∙ unmasked) in
    let stays = unmasked-stays lib (set_levels ls (service_config env)) a in
    elim (Bool-cases (is_secret a.key)) [
      | inl secret ↦ rw (removes_at, secret) ((λ e. (is_secret_iff a.key).0 secret), λ h. refl)
      | inr other ↦
          rw (removes_at, other, masks_at)
            (
              (λ e. absurd (stays e)),
              λ h. absurd (true_or_false (is_secret a.key) ((is_secret_iff a.key).1 h) other),
            )
    ]
