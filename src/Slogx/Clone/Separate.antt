-- ===== src/Slogx/Clone/Separate.antt =====
-- A copy of a configuration and the configurations before it.
use team_tasks.Base.{ℕ, ◌<◌, ◌≤◌, List, [], ◌∷◌, ◌++◌, ◌==◌, ◌≡◌, refl, ap, ◌∙◌, arith, true, false}
use team_tasks.Slogx.Config.{Config}
use team_tasks.Slogx.Clone.{
  Shared, Heap, view, put, clone, alloc, Edit, assign_level, assign_format, assign_output,
  assign_masker, put_mask, put_removal, put_name, assign_context_key, append_context_keys, set_at,
  with_mask, with_removed, with_name, edit, edits, updated_copy,
}

-- The same change of a configuration as one value.
abbrev pub edited : Edit → Config → Config
edited (assign_level l) c = record c { level = l }
edited (assign_format f) c = record c { format = f }
edited (assign_output w) c = record c { output = w }
edited (assign_masker m) c = record c { masker = m }
edited (put_mask key kind) c = record c { mask_keys = with_mask key kind c.mask_keys }
edited (put_removal key) c = record c { remove_keys = with_removed key c.remove_keys }
edited (put_name l name) c = record c { level_names = with_name l name c.level_names }
edited (assign_context_key i key) c = record c { context_keys = set_at i key c.context_keys }
edited (append_context_keys new) c = record c { context_keys = c.context_keys ++ new }

abbrev pub all_edited : List Edit → Config → Config
all_edited [] c = c
all_edited (e ∷ es) c = all_edited es (edited e c)

-- All addresses of a configuration lie below `n`, or none does.
abbrev pub IsBelow : ℕ → Shared → Type 0
IsBelow n c = (c.mask_keys < n) × (c.remove_keys < n) × (c.level_names < n) × (c.context_keys < n)

abbrev IsFrom : ℕ → Shared → Type 0
IsFrom n c = (n ≤ c.mask_keys) × (n ≤ c.remove_keys) × (n ≤ c.level_names) × (n ≤ c.context_keys)

pub put_same : {A : Type 0} (a : ℕ) (x : A) (f : ℕ → A) → put a x f a ≡ x
put_same a x f = let same : (a == a) ≡ true = ground arith in rw same refl

put_below : {A : Type 0} (n a b : ℕ) (x : A) (f : ℕ → A) → b < n → n ≤ a → put a x f b ≡ f b
put_below n a b x f less more =
    let other : (b == a) ≡ false = ground (arith, less, more) in rw other refl

alloc-view : (c : Config) (h : Heap) → let (c', h') = alloc c h in view h' c' ≡ c
unfolding alloc
alloc-view c h i = record c {
  mask_keys = put_same h.free c.mask_keys h.masks i;
  remove_keys = put_same h.free c.remove_keys h.removals i;
  level_names = put_same h.free c.level_names h.names i;
  context_keys = put_same h.free c.context_keys h.keys i;
}

-- To copy a configuration is to allocate what is seen of it.
clone-alloc : (c : Shared) (h : Heap) → clone c h ≡ alloc (view h c) h
unfolding clone alloc
clone-alloc c h = refl

edit-view :
    (e : Edit) (c : Shared) (h : Heap)
    → let (c', h') = edit e (c, h) in view h' c' ≡ edited e (view h c)
unfolding edit
edit-view (assign_level l) c h = refl
edit-view (assign_format f) c h = refl
edit-view (assign_output w) c h = refl
edit-view (assign_masker m) c h = refl
edit-view (put_mask key kind) c h = λ i. record (view h c) {
  mask_keys = put_same c.mask_keys (with_mask key kind (h.masks c.mask_keys)) h.masks i;
}
edit-view (put_removal key) c h = λ i. record (view h c) {
  remove_keys = put_same c.remove_keys (with_removed key (h.removals c.remove_keys)) h.removals i;
}
edit-view (put_name l name) c h = λ i. record (view h c) {
  level_names = put_same c.level_names (with_name l name (h.names c.level_names)) h.names i;
}
edit-view (assign_context_key j key) c h = λ i. record (view h c) {
  context_keys = put_same c.context_keys (set_at j key (h.keys c.context_keys)) h.keys i;
}
edit-view (append_context_keys new) c h = λ i. record (view h c) {
  context_keys = put_same h.free (h.keys c.context_keys ++ new) h.keys i;
}

edits-view :
    (es : List Edit) (s : Shared × Heap)
    → view (edits es s).1 (edits es s).0 ≡ all_edited es (view s.1 s.0)
edits-view [] s = refl
edits-view (e ∷ es) (c, h) = edits-view es (edit e (c, h)) ∙ ap (all_edited es) (edit-view e c h)

-- An edit of a configuration above `n` is not seen by one below it.
edit-others :
    (e : Edit) (n : ℕ) (c c0 : Shared) (h : Heap)
    → n ≤ h.free
    → IsFrom n c
    → IsBelow n c0
    → view (edit e (c, h)).1 c0 ≡ view h c0
unfolding edit
edit-others (assign_level l) n c c0 h free above below = refl
edit-others (assign_format f) n c c0 h free above below = refl
edit-others (assign_output w) n c c0 h free above below = refl
edit-others (assign_masker m) n c c0 h free above below = refl
edit-others (put_mask key kind) n c c0 h free above below = λ i. record (view h c0) {
  mask_keys =
      put_below n c.mask_keys c0.mask_keys (with_mask key kind (h.masks c.mask_keys)) h.masks
        below.0 above.0 i;
}
edit-others (put_removal key) n c c0 h free above below = λ i. record (view h c0) {
  remove_keys =
      put_below n c.remove_keys c0.remove_keys (with_removed key (h.removals c.remove_keys))
        h.removals below.1 above.1 i;
}
edit-others (put_name l name) n c c0 h free above below = λ i. record (view h c0) {
  level_names =
      put_below n c.level_names c0.level_names (with_name l name (h.names c.level_names)) h.names
        below.2 above.2 i;
}
edit-others (assign_context_key j key) n c c0 h free above below = λ i. record (view h c0) {
  context_keys =
      put_below n c.context_keys c0.context_keys (set_at j key (h.keys c.context_keys)) h.keys
        below.3 above.3 i;
}
edit-others (append_context_keys new) n c c0 h free above below = λ i. record (view h c0) {
  context_keys =
      put_below n h.free c0.context_keys (h.keys c.context_keys ++ new) h.keys below.3 free i;
}

-- Where an edited configuration and the free addresses lie.
abbrev Placed : ℕ → Shared × Heap → Type 0
Placed n (c, h) = (n ≤ h.free) × IsFrom n c × IsBelow h.free c

edit-Placed : (e : Edit) (n : ℕ) (s : Shared × Heap) → Placed n s → Placed n (edit e s)
unfolding edit
edit-Placed (assign_level l) n (c, h) p = p
edit-Placed (assign_format f) n (c, h) p = p
edit-Placed (assign_output w) n (c, h) p = p
edit-Placed (assign_masker m) n (c, h) p = p
edit-Placed (put_mask key kind) n (c, h) p = p
edit-Placed (put_removal key) n (c, h) p = p
edit-Placed (put_name l name) n (c, h) p = p
edit-Placed (assign_context_key j key) n (c, h) p = p
edit-Placed (append_context_keys new) n (c, h) (room, (m, r, l, k), (m', r', l', k')) =
    (omega arith, (m, r, l, room), (omega arith, omega arith, omega arith, omega arith))

alloc-Placed : (c : Config) (h : Heap) → Placed h.free (alloc c h)
unfolding alloc
alloc-Placed c h = (
  omega arith,
  (omega arith, omega arith, omega arith, omega arith),
  (omega arith, omega arith, omega arith, omega arith),
)

alloc-others :
    (c : Config) (c0 : Shared) (h : Heap) → IsBelow h.free c0 → view (alloc c h).1 c0 ≡ view h c0
unfolding alloc
alloc-others c c0 h below = λ i. record (view h c0) {
  mask_keys = put_below h.free h.free c0.mask_keys c.mask_keys h.masks below.0 (omega arith) i;
  remove_keys =
      put_below h.free h.free c0.remove_keys c.remove_keys h.removals below.1 (omega arith) i;
  level_names =
      put_below h.free h.free c0.level_names c.level_names h.names below.2 (omega arith) i;
  context_keys =
      put_below h.free h.free c0.context_keys c.context_keys h.keys below.3 (omega arith) i;
}

edits-others :
    (es : List Edit) (n : ℕ) (s : Shared × Heap) (c0 : Shared)
    → Placed n s
    → IsBelow n c0
    → view (edits es s).1 c0 ≡ view s.1 c0
edits-others [] n s c0 p below = refl
edits-others (e ∷ es) n (c, h) c0 p below =
    edits-others es n (edit e (c, h)) c0 (edit-Placed e n (c, h) p) below
    ∙ edit-others e n c c0 h p.0 p.1 below

edits-Placed : (es : List Edit) (n : ℕ) (s : Shared × Heap) → Placed n s → Placed n (edits es s)
edits-Placed [] n s p = p
edits-Placed (e ∷ es) n s p = edits-Placed es n (edit e s) (edit-Placed e n s p)

IsBelow-mono : (n m : ℕ) (c : Shared) → n ≤ m → IsBelow n c → IsBelow m c
IsBelow-mono n m c h (a, b, d, e) = (omega arith, omega arith, omega arith, omega arith)

-- What has become of a heap where a configuration of that value has been made.
pub record Made (value : Config) (h : Heap) (s : Shared × Heap) : Type 0 where
  pub made : view s.1 s.0 ≡ value
  pub others : (c0 : Shared) → IsBelow h.free c0 → view s.1 c0 ≡ view h c0
  pub placed : IsBelow s.1.free s.0
  pub stays : (c0 : Shared) → IsBelow h.free c0 → IsBelow s.1.free c0

edits-Made :
    (es : List Edit) (c : Config) (h : Heap) → Made (all_edited es c) h (edits es (alloc c h))
edits-Made es c h =
    let placed = edits-Placed es h.free (alloc c h) (alloc-Placed c h) in
    record {
      made = edits-view es (alloc c h) ∙ ap (all_edited es) (alloc-view c h);
      others = λ c0 below.
          edits-others es h.free (alloc c h) c0 (alloc-Placed c h) below
          ∙ alloc-others c c0 h below;
      placed = placed.2;
      stays = λ c0 below. IsBelow-mono h.free _ c0 placed.0 below;
    }

pub alloc-Made : (c : Config) (h : Heap) → Made c h (alloc c h)
alloc-Made = edits-Made []

pub updated_copy-Made :
    (es : List Edit) (c : Shared) (h : Heap)
    → Made (all_edited es (view h c)) h (updated_copy es c h)
unfolding updated_copy
updated_copy-Made es c h = rw (clone-alloc c h) (edits-Made es (view h c) h)
