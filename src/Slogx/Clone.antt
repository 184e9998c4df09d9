-- ===== src/Slogx/Clone.antt =====
-- `Config.Clone` of pkg/slogx/options.go and `UpdateConfig` of logger.go with the maps and the slice of
-- a configuration at addresses, since a configuration that is in use shares them with its copies
-- unless they are copied too.
pub mod Separate
use team_tasks.Base.{
  ℕ, zero, suc, ℤ, String, Bool, true, Option, some, List, [], ◌∷◌, ◌++◌, ◌==◌, ◌||◌, str_eq,
  if◌then◌else◌,
}
use team_tasks.Slogx.Masker.{MaskType, MaskMap}
use team_tasks.Slogx.Config.{Config, Format, Masker, RemoveMap, LevelNames, level_eq}

pub record Shared : Type 0 where
  pub level : ℤ
  pub format : Format
  pub output : ℕ
  pub mask_keys : ℕ
  pub remove_keys : ℕ
  pub level_names : ℕ
  pub masker : Masker
  pub context_keys : ℕ

-- What stands at the addresses, and the next free one.
pub record Heap : Type 0 where
  pub masks : ℕ → MaskMap
  pub removals : ℕ → RemoveMap
  pub names : ℕ → LevelNames
  pub keys : ℕ → List String
  pub free : ℕ

-- What a reader of a configuration sees.
abbrev pub view : Heap → Shared → Config
view h c = record {
  level = c.level;
  format = c.format;
  output = c.output;
  mask_keys = h.masks c.mask_keys;
  remove_keys = h.removals c.remove_keys;
  level_names = h.names c.level_names;
  masker = c.masker;
  context_keys = h.keys c.context_keys;
}

abbrev pub put : {A : Type 0} → ℕ → A → (ℕ → A) → ℕ → A
put a x f b = if b == a then x else f b

-- A configuration with maps and a slice of its own.
unfoldable pub alloc : Config → Heap → Shared × Heap
alloc c h =
    let n = h.free in
    (
      record {
        level = c.level;
        format = c.format;
        output = c.output;
        mask_keys = n;
        remove_keys = n;
        level_names = n;
        masker = c.masker;
        context_keys = n;
      },
      record {
        masks = put n c.mask_keys h.masks;
        removals = put n c.remove_keys h.removals;
        names = put n c.level_names h.names;
        keys = put n c.context_keys h.keys;
        free = suc n;
      },
    )

-- `Clone`: each map is made anew and filled from the old one, and so is the slice.
unfoldable pub clone : Shared → Heap → Shared × Heap
clone c h =
    let n = h.free in
    (
      record c { mask_keys = n; remove_keys = n; level_names = n; context_keys = n },
      record {
        masks = put n (h.masks c.mask_keys) h.masks;
        removals = put n (h.removals c.remove_keys) h.removals;
        names = put n (h.names c.level_names) h.names;
        keys = put n (h.keys c.context_keys) h.keys;
        free = suc n;
      },
    )

-- What the function of `UpdateConfig` may do to the configuration it is given: assign a field, put an
-- entry into a map, assign an element of the slice, append to it.
pub data Edit : Type 0 where
  assign_level : ℤ → Edit
  assign_format : Format → Edit
  assign_output : ℕ → Edit
  assign_masker : Masker → Edit
  put_mask : String → MaskType → Edit
  put_removal : String → Edit
  put_name : ℤ → String → Edit
  assign_context_key : ℕ → String → Edit
  append_context_keys : List String → Edit

abbrev pub set_at : ℕ → String → List String → List String
set_at i key [] = []
set_at zero key (k ∷ ks) = key ∷ ks
set_at (suc i) key (k ∷ ks) = k ∷ set_at i key ks

abbrev pub with_mask : String → MaskType → MaskMap → MaskMap
with_mask key kind masks other = if str_eq other key then some kind else masks other

abbrev pub with_removed : String → RemoveMap → RemoveMap
with_removed key removals other = str_eq other key || removals other

abbrev pub with_name : ℤ → String → LevelNames → LevelNames
with_name l name names other = if level_eq other l then some name else names other

-- Entries and elements are written in place. The slice has no room behind its elements, so `append`
-- makes a new one.
unfoldable pub edit : Edit → Shared × Heap → Shared × Heap
edit (assign_level l) (c, h) = (record c { level = l }, h)
edit (assign_format f) (c, h) = (record c { format = f }, h)
edit (assign_output w) (c, h) = (record c { output = w }, h)
edit (assign_masker m) (c, h) = (record c { masker = m }, h)
edit (put_mask key kind) (c, h) =
    (c, record h { masks = put c.mask_keys (with_mask key kind (h.masks c.mask_keys)) h.masks })
edit (put_removal key) (c, h) = (
  c,
  record h {
    removals = put c.remove_keys (with_removed key (h.removals c.remove_keys)) h.removals;
  },
)
edit (put_name l name) (c, h) =
    (c, record h { names = put c.level_names (with_name l name (h.names c.level_names)) h.names })
edit (assign_context_key i key) (c, h) =
    (c, record h { keys = put c.context_keys (set_at i key (h.keys c.context_keys)) h.keys })
edit (append_context_keys new) (c, h) = (
  record c { context_keys = h.free },
  record h { keys = put h.free (h.keys c.context_keys ++ new) h.keys; free = suc h.free },
)

abbrev pub edits : List Edit → Shared × Heap → Shared × Heap
edits [] s = s
edits (e ∷ es) s = edits es (edit e s)

-- `newCfg := Load().Clone()` and `fn(newCfg)`
unfoldable pub updated_copy : List Edit → Shared → Heap → Shared × Heap
updated_copy es c h = edits es (clone c h)
