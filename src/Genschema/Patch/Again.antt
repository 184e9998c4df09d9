-- ===== src/Genschema/Patch/Again.antt =====
-- A README that is patched again.
use mathlib.Core.List.{append_assoc}
use mathlib.Core.Option.{some-injective}
use team_tasks.Base.{
  ℕ, ◌+◌, ◌<◌, true, Option, none, some, [], ◌∷◌, ◌++◌, ltb, ◌≡◌, ◌≢◌, inl, inr, refl, sym, ap,
  subst, ◌∙◌, arith, Bool-cases, length, All-append,
}
use team_tasks.Genschema.Text.{Bytes, text, slice_to, slice_from, index}
use team_tasks.Genschema.Patch.{start_marker, end_marker, patch_at, patch}
use team_tasks.Genschema.Patch.Index.{IsFree, slice_from-append, index_split}
use team_tasks.Genschema.Patch.Markers.{start_local, end_local, take_head, drop_head, longer}

abbrev nl : Bytes
nl = b'\n' ∷ []

abbrev between : Bytes → Bytes → Bytes → Bytes
between before content rest = before ++ (nl ++ (content ++ (nl ++ rest)))

-- A text with the two markers in their order.
record Marked (src before rest : Bytes) : Type 0 where
  si : ℕ
  ei : ℕ
  start : index src start_marker ≡ some si
  ending : index src end_marker ≡ some ei
  order : si < ei
  head : slice_to (si + length start_marker) src ≡ before
  tail : slice_from ei src ≡ rest

patch-Marked :
    (src before rest content : Bytes)
    → Marked src before rest
    → patch src content ≡ some (between before content rest)
unfolding patch text
patch-Marked src before rest content m =
    let less : ltb m.si m.ei ≡ true = ground (arith, m.order) in
    rw (m.start, m.ending, less) (λ i. some (between (m.head i) content (m.tail i)))

-- What is known of a text that has been patched.
patch_at_inv :
    (src content r : Bytes) (o p : Option ℕ)
    → patch_at src content o p ≡ some r
    → (si ei : ℕ) × (o ≡ some si)
      × (p ≡ some ei)
      × (si < ei)
      × (r ≡ between (slice_to (si + length start_marker) src) content (slice_from ei src))
unfolding text
patch_at_inv src content r none p e = cc
patch_at_inv src content r (some si) none e = cc
patch_at_inv src content r (some si) (some ei) e = elim (Bool-cases (ltb si ei)) [
  | inl less ↦
      let made : some
            (between (slice_to (si + length start_marker) src) content (slice_from ei src))
          ≡ some r =
        rw less at e in
      (si, ei, refl, refl, ground (arith, less), sym (some-injective _ r made))
  | inr more ↦ let never : none ≡ some r = rw more at e in cc
]

-- The content with its line breaks.
abbrev lines_of : Bytes → Bytes
lines_of content = nl ++ (content ++ nl)

lines_of-IsFree : (content : Bytes) → IsFree content → IsFree (lines_of content)
unfolding text
lines_of-IsFree content free =
    (omega arith, All-append (λ c. c ≢ b'<') content nl free (omega arith))

between_lines :
    (a content v : Bytes)
    → between (a ++ start_marker) content v ≡ a ++ (start_marker ++ (lines_of content ++ v))
between_lines a content v =
    append_assoc a start_marker (nl ++ (content ++ (nl ++ v)))
    ∙ sym (ap (λ (w : Bytes). a ++ (start_marker ++ (nl ++ w))) (append_assoc content nl v))

-- A text that holds the markers in their order, and the same text with other content between them.
record Split (src before rest : Bytes) : Type 0 where
  marked : Marked src before rest
  again : (content : Bytes) → IsFree content → Marked (between before content rest) before rest

parts_of_marked :
    (src : Bytes) (si ei : ℕ)
    → index src start_marker ≡ some si
    → index src end_marker ≡ some ei
    → si < ei
    → Split src (slice_to (si + length start_marker) src) (slice_from ei src)
parts_of_marked src si ei start ending order =
    let (a, t, ea, la) = index_split src start_marker si start in
    let (b, v, eb, lb) = index_split src end_marker ei ending in
    let head : slice_to (si + length start_marker) src ≡ a ++ start_marker =
      (λ i. slice_to (sym la i + length start_marker) (ea i)) ∙ take_head a t in
    let tail : slice_from ei src ≡ end_marker ++ v =
      (λ i. slice_from (sym lb i) (eb i)) ∙ slice_from-append b (end_marker ++ v) in
    let first : index (a ++ (start_marker ++ t)) start_marker ≡ some (length a) =
      subst (λ s. index s start_marker ≡ some (length a)) ea (start ∙ ap some (sym la)) in
    let last : index (a ++ (start_marker ++ t)) end_marker ≡ some ei =
      subst (λ s. index s end_marker ≡ some ei) ea ending in
    record {
      marked = record {
        si = si;
        ei = ei;
        start = start;
        ending = ending;
        order = order;
        head = refl;
        tail = refl;
      };
      again = λ content free.
          let u : Bytes = lines_of content in
          let whole : between (slice_to (si + length start_marker) src) content (slice_from ei src)
              ≡ a ++ (start_marker ++ (u ++ (end_marker ++ v))) =
            (λ i. between (head i) content (tail i)) ∙ between_lines a content (end_marker ++ v) in
          record {
            si = length a;
            ei = length a + length (start_marker ++ u);
            start =
                ap (λ s. index s start_marker) whole
                ∙ start_local a t (u ++ (end_marker ++ v)) first;
            ending =
                ap (λ s. index s end_marker) whole
                ∙ end_local a t u v ei last (omega (arith, order, la))
                    (lines_of-IsFree content free);
            order = longer (length a) u;
            head =
                ap (slice_to (length a + length start_marker)) whole
                ∙ take_head a (u ++ (end_marker ++ v))
                ∙ sym head;
            tail =
                ap (slice_from (length a + length (start_marker ++ u))) whole
                ∙ drop_head a u (end_marker ++ v)
                ∙ sym tail;
          };
    }

-- Where a text has been patched with a content without `<`, patching it again with another content
-- gives what patching the first text with that content gives: the markers are still found, and what
-- stood between them is replaced as a whole.
pub patch-patch :
    (src content content' r : Bytes)
    → IsFree content
    → patch src content ≡ some r
    → patch r content' ≡ patch src content'
unfolding patch
patch-patch src content content' r free e =
    let (si, ei, start, ending, order, made) = patch_at_inv src content r _ _ e in
    let parts = parts_of_marked src si ei start ending order in
    let before = slice_to (si + length start_marker) src in
    let rest = slice_from ei src in
    ap (λ s. patch s content') made
    ∙ patch-Marked (between before content rest) before rest content' (parts.again content free)
    ∙ sym (patch-Marked src before rest content' parts.marked)
