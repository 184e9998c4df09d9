-- ===== src/Genschema/Patch/Markers.antt =====
-- Where the markers of the README are found.
use mathlib.Core.List.{append_assoc}
use mathlib.Core.Option.{some-injective}
use team_tasks.Base.{ℕ, ◌+◌, ◌<◌, some, ◌++◌, ◌≡◌, inl, inr, sym, ap, ◌∙◌, arith, length}
use team_tasks.Genschema.Text.{Bytes, text, slice_to, slice_from, index, next}
use team_tasks.Genschema.Patch.{start_marker, end_marker}
use team_tasks.Genschema.Patch.Index.{
  IsFree, shift, slice_to-append, slice_from-append, length-append, index-append, index_free,
  index_local,
}

-- The markers after their `<`.
abbrev after_start : Bytes
after_start = text "!-- schema:start -->"

abbrev after_end : Bytes
after_end = text "!-- schema:end -->"

start-IsFree : IsFree after_start
unfolding text
start-IsFree = omega arith

end-IsFree : IsFree after_end
unfolding text
end-IsFree = omega arith

-- After the start marker and a text without `<`, the end marker is the first thing that matches it.
pub index_end :
    (u rest : Bytes)
    → IsFree u
    → index (start_marker ++ (u ++ (end_marker ++ rest))) end_marker
      ≡ some (length (start_marker ++ u))
unfolding text
index_end u rest free =
    ap next (
      index_free after_end end-IsFree after_start (u ++ (end_marker ++ rest)) start-IsFree
      ∙ ap (shift (length after_start)) (
          index_free after_end end-IsFree u (end_marker ++ rest) free
          ∙ ap (shift (length u)) (index-append end_marker rest)))
    ∙ ap some (omega (arith, length-append start_marker u))

-- The start marker is found where it was, whatever follows it.
pub start_local :
    (a y z : Bytes)
    → index (a ++ (start_marker ++ y)) start_marker ≡ some (length a)
    → index (a ++ (start_marker ++ z)) start_marker ≡ some (length a)
unfolding text
start_local a y z e = elim (index_local after_start start-IsFree a) [
  | inl (i, inside, found) ↦
      let same = some-injective i (length a) (sym (found (after_start ++ y)) ∙ e) in
      absurd (omega arith)
  | inr after ↦
      after (after_start ++ z)
      ∙ ap (shift (length a)) (index-append start_marker z)
      ∙ ap some (omega arith)
]

-- The end marker is found behind the start marker and a text without `<`, where it was not before.
pub end_local :
    (a y u rest : Bytes) (ei : ℕ)
    → index (a ++ (start_marker ++ y)) end_marker ≡ some ei
    → length a < ei
    → IsFree u
    → index (a ++ (start_marker ++ (u ++ (end_marker ++ rest)))) end_marker
      ≡ some (length a + length (start_marker ++ u))
unfolding text
end_local a y u rest ei e less free = elim (index_local after_end end-IsFree a) [
  | inl (i, inside, found) ↦
      let same = some-injective i ei (sym (found (after_start ++ y)) ∙ e) in absurd (omega arith)
  | inr after ↦
      after (after_start ++ (u ++ (end_marker ++ rest)))
      ∙ ap (shift (length a)) (index_end u rest free)
]

pub take_head :
    (a z : Bytes)
    → slice_to (length a + length start_marker) (a ++ (start_marker ++ z)) ≡ a ++ start_marker
take_head a z =
    rw (sym (length-append a start_marker), sym (append_assoc a start_marker z))
      (slice_to-append (a ++ start_marker) z)

pub drop_head :
    (a u v : Bytes)
    → slice_from (length a + length (start_marker ++ u)) (a ++ (start_marker ++ (u ++ v))) ≡ v
drop_head a u v =
    rw
      (
        sym (length-append a (start_marker ++ u)),
        sym (append_assoc start_marker u v),
        sym (append_assoc a (start_marker ++ u) v),
      )
      (slice_from-append (a ++ (start_marker ++ u)) v)

pub longer : (n : ℕ) (u : Bytes) → n < n + length (start_marker ++ u)
unfolding text
longer n u = omega arith
