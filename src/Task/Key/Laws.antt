-- ===== src/Task/Key/Laws.antt =====
-- Which filters share a key.
use Prim.Native.String.{◌++◌}
use mathlib.Core.Option.{some-injective}
use text.Mathlib.TextLemmas.{append_cancel_left, append_assoc}
use team_tasks.Base.{
  String, Option, none, some, ◌≡◌, ◌≢◌, ◌↔◌, refl, sym, ap, ◌∙◌, arith, str_eq_iff, ◌⊎◌, inl, inr,
}
use team_tasks.Base.Texts.{NoColon, cut_at_colon}
use team_tasks.Base.Decimal.{decimal-injective, decimal-NoColon}
use team_tasks.Domain.{TaskFilter, TaskStatus, status_todo, status_in_progress, status_done}
use team_tasks.Domain.Ids.{Uuid}
use team_tasks.Task.Key.{cache_key, key_tail, cache_pattern, cache_key_all, text_or_all}

-- What `uuid.UUID.String` documents of its form, xxxxxxxx-xxxx-xxxx-xxxx-xxxxxxxxxxxx.
pub record IsUuidText (uuid_string : Uuid → String) : Type 0 where
  pub injective : (a b : Uuid) → uuid_string a ≡ uuid_string b → a ≡ b
  pub no_colon : (a : Uuid) → NoColon (uuid_string a)
  pub ne_all : (a : Uuid) → uuid_string a ≢ cache_key_all

-- The statuses that the domain names; nothing in the code checks a filter for them.
abbrev pub IsStatus : TaskStatus → Type 0
IsStatus s = (s ≡ status_todo) ⊎ (s ≡ status_in_progress) ⊎ (s ≡ status_done)

abbrev pub HasStatus : Option TaskStatus → Type 0
HasStatus none = Unit
HasStatus (some s) = IsStatus s

status-NoColon : (s : TaskStatus) → IsStatus s → NoColon s
status-NoColon s (inl e) = rw e (omega arith)
status-NoColon s (inr (inl e)) = rw e (omega arith)
status-NoColon s (inr (inr e)) = rw e (omega arith)

status-ne-all : (s : TaskStatus) → IsStatus s → s ≢ cache_key_all
status-ne-all s (inl e) = rw e (ground (arith, str_eq_iff status_todo cache_key_all))
status-ne-all s (inr (inl e)) = rw e (ground (arith, str_eq_iff status_in_progress cache_key_all))
status-ne-all s (inr (inr e)) = rw e (ground (arith, str_eq_iff status_done cache_key_all))

text_or_all-NoColon :
    {A : Type 0} (text : A → String) (o : Option A)
    → ((a : A) → o ≡ some a → NoColon (text a))
    → NoColon (text_or_all text o)
text_or_all-NoColon text none h = omega arith
text_or_all-NoColon text (some a) h = h a refl

text_or_all-injective :
    {A : Type 0} (text : A → String) (o p : Option A)
    → ((a b : A) → text a ≡ text b → a ≡ b)
    → ((a : A) → o ≡ some a → text a ≢ cache_key_all)
    → ((a : A) → p ≡ some a → text a ≢ cache_key_all)
    → text_or_all text o ≡ text_or_all text p
    → o ≡ p
text_or_all-injective text none none inj ho hp e = refl
text_or_all-injective text none (some b) inj ho hp e = absurd (hp b refl (sym e))
text_or_all-injective text (some a) none inj ho hp e = absurd (ho a refl e)
text_or_all-injective text (some a) (some b) inj ho hp e = ap some (inj a b e)

HasStatus-some : (o : Option TaskStatus) → HasStatus o → (s : TaskStatus) → o ≡ some s → IsStatus s
HasStatus-some none h s e = cc
HasStatus-some (some t) h s e = rw (← some-injective t s e) h

-- A filter by the status "all" shares its key with the filter of the same fields that has no status,
-- although the two are different filters.
cache_key-collides :
    (uuid_string : Uuid → String) (f : TaskFilter)
    → let all = record f { status = some cache_key_all } in
      let any = record f { status = none } in
      (cache_key uuid_string all ≡ cache_key uuid_string any) × (all ≢ any)
unfolding cache_key
cache_key-collides uuid_string f = (refl, λ e. cc (ap (λ (g : TaskFilter). g.status) e))

-- The text that the keys of a team's filters begin with.
abbrev pub team_prefix : (Uuid → String) → Uuid → String
team_prefix uuid_string team_id = ("tasks:" ++ uuid_string team_id) ++ ":"

module _ (uuid_string : Uuid → String) (form : IsUuidText uuid_string) where
  uuid_text-NoColon : (o : Option Uuid) → NoColon (text_or_all uuid_string o)
  uuid_text-NoColon o = text_or_all-NoColon uuid_string o (λ a e. form.no_colon a)

  uuid_text-injective :
      (o p : Option Uuid) → text_or_all uuid_string o ≡ text_or_all uuid_string p → o ≡ p
  uuid_text-injective o p =
      text_or_all-injective uuid_string o p form.injective (λ a e. form.ne_all a)
        (λ a e. form.ne_all a)

  status_text-NoColon : (o : Option TaskStatus) → HasStatus o → NoColon (text_or_all (λ s. s) o)
  status_text-NoColon o h =
      text_or_all-NoColon (λ s. s) o (λ s e. status-NoColon s (HasStatus-some o h s e))

  -- Two filters whose statuses are the domain's have the same cache key only if they are equal.
  pub cache_key-injective :
      (f g : TaskFilter)
      → HasStatus f.status
      → HasStatus g.status
      → cache_key uuid_string f ≡ cache_key uuid_string g
      → f ≡ g
  unfolding cache_key
  cache_key-injective f g hf hg e =
      let (teams, e1) =
        cut_at_colon _ _ _ _ (uuid_text-NoColon f.team_id) (uuid_text-NoColon g.team_id)
          (append_cancel_left "tasks:" _ _ e) in
      let (statuses, e2) =
        cut_at_colon _ _ _ _ (status_text-NoColon f.status hf) (status_text-NoColon g.status hg)
          e1 in
      let (assignees, e3) =
        cut_at_colon _ _ _ _ (uuid_text-NoColon f.assignee_id) (uuid_text-NoColon g.assignee_id)
          e2 in
      let (pages, e4) =
        cut_at_colon _ _ _ _ (decimal-NoColon f.page) (decimal-NoColon g.page)
          (append_cancel_left "p" _ _ e3) in
      let team_id = uuid_text-injective f.team_id g.team_id teams in
      let status =
        text_or_all-injective (λ s. s) f.status g.status (λ a b e. e)
          (λ s e. status-ne-all s (HasStatus-some f.status hf s e))
          (λ s e. status-ne-all s (HasStatus-some g.status hg s e)) statuses in
      let assignee_id = uuid_text-injective f.assignee_id g.assignee_id assignees in
      let page = decimal-injective f.page g.page pages in
      let limit = decimal-injective f.limit g.limit (append_cancel_left "l" _ _ e4) in
      λ i. record {
        team_id = team_id i;
        status = status i;
        assignee_id = assignee_id i;
        page = page i;
        limit = limit i;
      }

  -- The pattern of a team is a prefix and a star, and the keys with that prefix are those of the
  -- team's filters: each of its filters has such a key, and only its filters have one.
  pub cache_pattern_covers :
      (team_id : Uuid) (f : TaskFilter)
      → (cache_pattern uuid_string team_id ≡ team_prefix uuid_string team_id ++ "*")
        × (((rest : String) × (cache_key uuid_string f ≡ team_prefix uuid_string team_id ++ rest))
            ↔ (f.team_id ≡ some team_id))
  unfolding cache_key cache_pattern
  cache_pattern_covers team_id f = (
    sym (append_assoc _ ":" "*"),
    (
      λ (rest, e).
          let e' =
            append_cancel_left "tasks:" _ _
              (e ∙ append_assoc _ ":" rest ∙ append_assoc "tasks:" _ _) in
          uuid_text-injective f.team_id (some team_id)
            (cut_at_colon _ _ _ _ (uuid_text-NoColon f.team_id) (form.no_colon team_id) e').0,
      λ e. (key_tail uuid_string f, rw e (sym (append_assoc _ ":" _ ∙ append_assoc "tasks:" _ _))),
    ),
  )
