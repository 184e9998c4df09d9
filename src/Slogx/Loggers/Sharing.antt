-- ===== src/Slogx/Loggers/Sharing.antt =====
-- Who sees an update of the configuration.
use team_tasks.Base.{
  ℕ, ◌<◌, String, Option, none, some, List, [], ◌∷◌, ◌==◌, ◌≡◌, ◌≢◌, refl, ap, ◌∙◌, arith, str_eq,
  false, Bool-cases, inl, inr,
}
use team_tasks.Slogx.Config.{Config, Opt}
use team_tasks.Slogx.Handler.{Attr, Derived, with_attrs, with_group}
use team_tasks.Slogx.Logger.{new_config}
use team_tasks.Slogx.Clone.{Shared, Edit, view, put, alloc, updated_copy}
use team_tasks.Slogx.Clone.Separate.{IsBelow, all_edited, put_same, alloc-Made, updated_copy-Made}
use team_tasks.Slogx.Loggers.{
  AnyHandler, dynamic, library, Logger, Runtime, LibraryHandlers, new, with_args, logger_group,
  update_shared,
}

-- Each pointer that is in use holds a configuration on the heap.
abbrev pub IsRuntime : Runtime → Type 0
IsRuntime rt = (p : ℕ) → p < rt.next_cell → IsBelow rt.heap.free (rt.cells p)

-- The configuration that a handler would load.
abbrev pub loaded_config : Runtime → AnyHandler → Option Config
loaded_config rt (dynamic p d) = some (view rt.heap (rt.cells p))
loaded_config rt (library n) = none

-- A logger whose handler and own pointer are the same pointer, as `New` makes it.
abbrev pub IsOf : ℕ → Logger → Type 0
IsOf p l = (l.cfg_ptr ≡ some p) × (d : Derived) × (l.handler ≡ dynamic p d)

-- `With` and `WithGroup`
pub data Derivation : Type 0 where
  attrs : List Attr → Derivation
  group : String → Derivation

put_other : {A : Type 0} (p q : ℕ) (x : A) (f : ℕ → A) → q ≢ p → put p x f q ≡ f q
put_other p q x f apart = let other : (q == p) ≡ false = ground (arith, apart) in rw other refl

put-IsBelow :
    (p q n : ℕ) (c : Shared) (cells : ℕ → Shared)
    → IsBelow n c
    → (q ≢ p → IsBelow n (cells q))
    → IsBelow n (put p c cells q)
put-IsBelow p q n c cells new old = elim (Bool-cases (q == p)) [
  | inl same ↦ rw same new
  | inr other ↦ rw other (old (λ e. ground arith))
]

-- What `New` has made of the runtime.
pub record Started (opts : List (Option Opt)) (rt : Runtime) (s : Logger × Runtime) : Type 0 where
  pub own : IsOf rt.next_cell s.0
  pub known : rt.next_cell < s.1.next_cell
  pub configured : loaded_config s.1 s.0.handler ≡ some (new_config opts)
  pub others : (q : ℕ) → q < rt.next_cell → view s.1.heap (s.1.cells q) ≡ view rt.heap (rt.cells q)
  pub well_formed : IsRuntime s.1

pub new-Started :
    (opts : List (Option Opt)) (rt : Runtime) → IsRuntime rt → Started opts rt (new opts rt)
unfolding new
new-Started opts rt good =
    let (c, h) = alloc (new_config opts) rt.heap in
    let m = alloc-Made (new_config opts) rt.heap in
    let p = rt.next_cell in
    record {
      own = (refl, _, refl);
      known = omega arith;
      configured = ap some (ap (view h) (put_same p c rt.cells) ∙ m.made);
      others = λ q below.
          ap (view h) (put_other p q c rt.cells (λ e. omega arith))
          ∙ m.others (rt.cells q) (good q below);
      well_formed = λ q below.
          put-IsBelow p q h.free c rt.cells m.placed
            (λ apart. m.stays (rt.cells q) (good q (omega arith)));
    }

module _ (lib : LibraryHandlers) where
  abbrev derived_once : Derivation → Logger → Logger
  derived_once (attrs new) l = with_args lib new l
  derived_once (group name) l = logger_group lib name l

  abbrev pub derive : List Derivation → Logger → Logger
  derive [] l = l
  derive (s ∷ steps) l = derive steps (derived_once s l)

  derived_once-IsOf : (s : Derivation) (p : ℕ) (l : Logger) → IsOf p l → IsOf p (derived_once s l)
  unfolding with_args logger_group
  derived_once-IsOf (attrs []) p l h = h
  derived_once-IsOf (attrs (a ∷ more)) p l (ptr, d, e) = (ptr, with_attrs (a ∷ more) d, rw e refl)
  derived_once-IsOf (group name) p l (ptr, d, e) = elim (Bool-cases (str_eq name "")) [
    | inl empty ↦ rw empty (ptr, d, e)
    | inr named ↦ rw named (ptr, with_group name d, rw e refl)
  ]

  derive-IsOf : (steps : List Derivation) (p : ℕ) (l : Logger) → IsOf p l → IsOf p (derive steps l)
  derive-IsOf [] p l h = h
  derive-IsOf (s ∷ steps) p l h = derive-IsOf steps p _ (derived_once-IsOf s p l h)

  -- What an update through the pointer `p` makes of the runtime.
  pub record Shares (es : List Edit) (p : ℕ) (l : Logger) (rt rt' : Runtime) : Type 0 where
    pub seen :
        (steps : List Derivation)
        → loaded_config rt' (derive steps l).handler
          ≡ some (all_edited es (view rt.heap (rt.cells p)))
    pub others :
        (q : ℕ) → q < rt.next_cell → q ≢ p → view rt'.heap (rt'.cells q) ≡ view rt.heap (rt.cells q)
    pub loaded : (c : Shared) → IsBelow rt.heap.free c → view rt'.heap c ≡ view rt.heap c
    pub well_formed : IsRuntime rt'

  updated_runtime : List Edit → ℕ → Runtime → Runtime
  updated_runtime es p rt =
      let (c, h) = updated_copy es (rt.cells p) rt.heap in
      record rt { heap = h; cells = put p c rt.cells }

  updated-Shares :
      (es : List Edit) (p : ℕ) (l : Logger) (rt : Runtime)
      → IsRuntime rt
      → p < rt.next_cell
      → IsOf p l
      → Shares es p l rt (updated_runtime es p rt)
  unfolding updated_runtime
  updated-Shares es p l rt good known own =
      let (c, h) = updated_copy es (rt.cells p) rt.heap in
      let u = updated_copy-Made es (rt.cells p) rt.heap in
      record {
        seen = λ steps.
            let (ptr, d, e) = derive-IsOf steps p l own in
            ap (loaded_config (updated_runtime es p rt)) e
            ∙ ap some (ap (view h) (put_same p c rt.cells) ∙ u.made);
        others = λ q below apart.
            ap (view h) (put_other p q c rt.cells apart) ∙ u.others (rt.cells q) (good q below);
        loaded = u.others;
        well_formed = λ q below.
            put-IsBelow p q h.free c rt.cells u.placed
              (λ apart. u.stays (rt.cells q) (good q below));
      }

  -- Where every pointer in use has its configuration on the heap and a logger stems from `New`, an
  -- update through it or through any logger that `With` and `WithGroup` have derived from it comes
  -- back, and every logger that is derived from it then loads the configuration with all the
  -- edits. What the loggers of other pointers load is as before, and so is every configuration
  -- that has been loaded before the update, so that a record under way does not see half of it.
  pub update_shared-Shares :
      (es : List Edit) (steps : List Derivation) (p : ℕ) (l : Logger) (rt : Runtime)
      → IsRuntime rt
      → p < rt.next_cell
      → IsOf p l
      → (rt' : Runtime) × (update_shared es (derive steps l) rt ≡ some rt') × Shares es p l rt rt'
  unfolding update_shared updated_runtime
  update_shared-Shares es steps p l rt good known own =
      let (ptr, d, e) = derive-IsOf steps p l own in
      (updated_runtime es p rt, rw ptr refl, updated-Shares es p l rt good known own)
