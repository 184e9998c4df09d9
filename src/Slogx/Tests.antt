-- ===== src/Slogx/Tests.antt =====
-- Runs of the masker and of the logger's rules, and the theorems on pkg/slogx at concrete inputs.
use team_tasks.Base.{String, none, some, List, [], ◌∷◌, ◌≡◌, ◌↔◌, refl}
use team_tasks.Slogx.Masker.{
  Bytes, mask_email, mask, mask_email_text, split_at, slice_to, slice_from,
}
use team_tasks.Slogx.Config.{level_debug, default_options}
use team_tasks.Slogx.Handler.{
  Slog, Texts, Attr, any_value, removed, replace_attr, Derived, build, with_attrs, with_group,
}
use team_tasks.Slogx.Logger.{service_config}
use team_tasks.Slogx.Removal.{set_levels, IsSecret, service_config-secrets}
use team_tasks.Slogx.Panics.{HasNoUser, mask-panics}
use team_tasks.Slogx.Cache.{advance, store_config, fresh_memory, waiting, using}
use team_tasks.Slogx.Alone as Alone

-- "bob@x" keeps the ends of its user.
email_masked :
    mask (98 ∷ 111 ∷ 98 ∷ 64 ∷ 120 ∷ []) mask_email
    ≡ some (98 ∷ 111 ∷ 42 ∷ 42 ∷ 42 ∷ 98 ∷ 64 ∷ 120 ∷ [])
unfolding mask mask_email_text split_at slice_to slice_from
email_masked = refl

-- "@x" has no user.
abbrev no_user : Bytes
no_user = 64 ∷ 120 ∷ []

mask-panics_example :
    (mask no_user mask_email ≡ none) ↔ ((mask_email ≡ mask_email) × HasNoUser no_user)
mask-panics_example = mask-panics no_user mask_email

abbrev texts : Texts
texts = record { sprint = λ v. no_user; upper_level = λ l. "DEBUG" }

abbrev password : Attr
password = record { key = "password"; value = any_value no_user }

service_config-secrets_example :
    (replace_attr texts (set_levels (level_debug ∷ []) (service_config "prod")) password ≡ removed)
    ↔ IsSecret "password"
service_config-secrets_example = service_config-secrets texts "prod" (level_debug ∷ []) password

-- A handler that is the list of what has been done to it.
abbrev marks : Slog (List String)
marks = record {
  json_handler = λ output level f. "json" ∷ [];
  text_handler = λ output level f. "text" ∷ [];
  with_attrs = λ attrs h. "attrs" ∷ h;
  with_group = λ name h. name ∷ h;
}

abbrev plain : Derived
plain = record { attrs = []; groups = [] }

-- A group and then an attribute is built as the attribute and then the group.
group_first :
    build marks texts default_options (with_attrs (password ∷ []) (with_group "g" plain))
    ≡ "g" ∷ "attrs" ∷ "text" ∷ []
unfolding build with_attrs with_group default_options
group_first = refl

abbrev one_record : List Alone.Move
one_record =
    Alone.step
    ∷ Alone.updates (λ c. record c { level = level_debug })
    ∷ Alone.step
    ∷ Alone.step
    ∷ Alone.step
    ∷ []

one_record_used :
    (Alone.moves marks texts plain one_record (fresh_memory default_options, waiting)).1
    ≡ using 0 ("text" ∷ [])
unfolding advance store_config build default_options
one_record_used = refl

moves-current_example :
    "text" ∷ []
    ≡ build marks texts
        ((Alone.moves marks texts plain one_record
            (fresh_memory default_options, waiting)).0.configs
          0)
        plain
moves-current_example =
    Alone.moves-current marks texts plain default_options one_record 0 ("text" ∷ []) one_record_used
