-- ===== src/App/Pages.antt =====
-- The pages of a list, asked for one after the other from the task service of
-- internal/service/task/task.go over the statements of internal/storage/mysql/task.go.
use native.Mathlib.Nat.{le-mul_of_pos_right, mul-le-mul_right}
use mathlib.Core.List.{Permᴰ}
use team_tasks.Base.{
  ℕ, suc, pos, ◌*◌, ◌≤◌, ◌<◌, String, Option, List, ◌≡◌, sym, ap, subst, ◌∙◌, arith, length,
}
use team_tasks.Base.Int.{half64}
use team_tasks.Base.Ordered.{HasDistinct, falling-eq, length-Perm}
use team_tasks.Domain.{Task, TaskFilter}
use team_tasks.Domain.Ids.{Uuid}
use team_tasks.Domain.Errors.{ok}
use team_tasks.Store.{Tables}
use team_tasks.Task.Key.Laws.{HasStatus, IsUuidText}
use team_tasks.Task.Service.{
  Deps, CachedList, uuid_string, list, normalize_paging, default_page, clamp_limit,
}
use team_tasks.Task.Service.Caching.{IsTaskCache, IsFresh}
use team_tasks.Task.Service.Listing.{Listed, list-Listed}
use team_tasks.Mysql.Storage.Tasks.{offset, build_task_filter}
use team_tasks.Mysql.Paging.{offset-pages}
use team_tasks.Mysql.Query.{take, drop, IsOrder, task_query, selected, natural}
use team_tasks.Mysql.Pages.{pages_from, pages_from-drop}

-- The filter with the page after `k` others.
abbrev pub page_at : TaskFilter → ℕ → ℕ → TaskFilter
page_at f l k = record f { page = pos (suc k); limit = pos l }

normalize_lem :
    (f : TaskFilter) (l k : ℕ) → 0 < l → l ≤ 100 → normalize_paging (page_at f l k) ≡ page_at f l k
unfolding default_page clamp_limit
normalize_lem f l k low high =
    let kept : clamp_limit (pos l) ≡ pos l = ground arith in
    let page : default_page (pos (suc k)) ≡ pos (suc k) = ground arith in
    λ i. record f { page = page i; limit = kept i }

offset_lem :
    (l k : ℕ) → k < half64 → k * l < half64 → natural (offset (pos (suc k)) (pos l)) ≡ k * l
offset_lem l k small fits = ap natural (offset-pages k l small (omega arith)) ∙ ground (arith, fits)

-- What the query gives for that page, where its offset has 64 bits.
page_lem :
    (order : TaskFilter → List Task → List Task) (f : TaskFilter) (ts : List Task) (l k : ℕ)
    → k < half64
    → k * l < half64
    → task_query order (page_at f l k) ts ≡ (
      take l (drop (k * l) (order (page_at f l k) (selected f ts))),
      pos (length (selected f ts)),
    )
unfolding task_query build_task_filter
page_lem order f ts l k small fits =
    ap
      (λ (n : ℕ).
        (take l (drop n (order (page_at f l k) (selected f ts))), pos (length (selected f ts))))
      (offset_lem l k small fits)

module _ {W : Type 0} (s : Deps W) (view : W → Tables) (cached : W → String → Option (List ℕ))
    (order : TaskFilter → List Task → List Task) (orders : IsOrder order)
    (laws : IsTaskCache s view cached (task_query order)) (form : IsUuidText (uuid_string s)) where
  -- One page.
  page_found :
      (caller_id : Uuid) (f : TaskFilter) (l k : ℕ) (w : W) (found : CachedList)
      → 0 < l
      → l ≤ 100
      → k * l < half64
      → HasStatus f.status
      → IsFresh s view cached (task_query order) w
      → (list s caller_id (page_at f l k) w).0 ≡ ok found
      → found ≡ (
        take l (drop (k * l) (order (page_at f l k) (selected f (view w).tasks))),
        pos (length (selected f (view w).tasks)),
      )
  page_found caller_id f l k w found low high fits status fresh e =
      let listed =
        list-Listed s view cached (task_query order) laws form caller_id (page_at f l k) w fresh
          status in
      let small : k < half64 = omega (arith, le-mul_of_pos_right k low) in
      subst (Listed (task_query order) (page_at f l k) (view w)) e listed.1
      ∙ ap (λ (g : TaskFilter). task_query order g (view w).tasks) (normalize_lem f l k low high)
      ∙ page_lem order f (view w).tasks l k small fits

  -- Where the tables stay as they are and the cache is fresh, the lists for the first `n` pages of a
  -- filter with a status of the domain or none, of 1 to 100 tasks each and enough for all, contain
  -- together every task that the filter selects exactly once, if no two of these were created at
  -- the same time; each tells their number. The order in which MySQL puts equal times may differ
  -- from page to page.
  pub list-pages :
      (caller_id : Uuid) (f : TaskFilter) (l n : ℕ) (b : Tables) (w : ℕ → W)
      (found : ℕ → CachedList)
      → 0 < l
      → l ≤ 100
      → n * l < half64
      → HasStatus f.status
      → ((k : ℕ) → IsFresh s view cached (task_query order) (w k))
      → ((k : ℕ) → view (w k) ≡ b)
      → ((k : ℕ) → k < n → (list s caller_id (page_at f l k) (w k)).0 ≡ ok (found k))
      → HasDistinct (λ (t : Task). t.created_at) (selected f b.tasks)
      → length (selected f b.tasks) ≤ n * l
      → Permᴰ (pages_from found 0 n) (selected f b.tasks)
        × ((k : ℕ) → k < n → (found k).1 ≡ pos (length (selected f b.tasks)))
  list-pages caller_id f l n b w found low high fits status fresh same each distinct enough =
      let all = selected f b.tasks in
      let first = order (page_at f l 0) all in
      let page : (k : ℕ)
          → k < n
          → found k ≡ (take l (drop (k * l) (order (page_at f l k) all)), pos (length all)) =
        λ k h.
          let before : k * l < half64 =
            omega (arith, mul-le-mul_right {m = k} {n = n} l (omega arith)) in
          page_found caller_id f l k (w k) (found k) low high before status (fresh k) (each k h)
          ∙ ap
              (λ (c : Tables). (
                take l (drop (k * l) (order (page_at f l k) (selected f c.tasks))),
                pos (length (selected f c.tasks)),
              ))
              (same k) in
      let one_order : (k : ℕ) → order (page_at f l k) all ≡ first = λ k.
        falling-eq _ distinct (orders.perm _ all) (orders.falling _ all) (orders.perm _ all)
          (orders.falling _ all) in
      let none_before : 0 * l ≡ 0 = omega arith in
      let whole : pages_from found 0 n ≡ first =
        pages_from-drop found l first n 0 n (omega arith)
          (omega (arith, length-Perm (orders.perm (page_at f l 0) all)))
          (λ k h.
            ap (λ (p : CachedList). p.0) (page k h)
            ∙ ap (λ (ts : List Task). take l (drop (k * l) ts)) (one_order k))
        ∙ ap (λ (i : ℕ). drop i first) none_before in
      (
        subst (λ (ts : List Task). Permᴰ ts all) (sym whole) (orders.perm (page_at f l 0) all),
        λ k h. ap (λ (p : CachedList). p.1) (page k h),
      )
