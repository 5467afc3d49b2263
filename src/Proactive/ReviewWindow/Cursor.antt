-- ===== src/Proactive/ReviewWindow/Cursor.antt =====
-- proactive/review_window.py: the cursor between one review and the next.
use mathlib.Core.Option
use turning_good_agent.Prelude.{
  ℕ, zero, suc, ◌<◌, ◌≡◌, refl, sym, ap, ◌∙◌, String, false, Option, some, List, [], ◌∷◌, map,
  arith, pos→ne, length, last?, contains, ◌==◌, string_eq, eq_iff,
}
use turning_good_agent.Prelude.Result.{Result, ok, raise, ◌>>=◌}
use turning_good_agent.Sessions.{MessageRecord}
use turning_good_agent.Proactive.ReviewWindow.{
  ReviewCursor, ReviewSelection, ReviewError, Timed, eligible, sort_by_key, index_after_id,
  unread_start, last_cursor, select_from, select_review_window,
}
use turning_good_agent.Proactive.ReviewWindow.Coverage.{select_from-Covers, select_from_caught_up}

-- The ids of the source differ.
abbrev pub DistinctIds : List Timed → Type 0
DistinctIds [] = Unit
DistinctIds (t ∷ l) =
    (contains t.message.id (map (λ (m : Timed). m.message.id) l) ≡ false) × DistinctIds l

fresh-ne-last :
    (a : String) (l : List Timed) (last : Timed)
    → contains a (map (λ (m : Timed). m.message.id) l) ≡ false
    → last? l ≡ some last
    → (a == last.message.id) ≡ false
fresh-ne-last a [] last h e = cc
fresh-ne-last a (t ∷ []) last h e = ground (arith, eq_iff t.message.id a, eq_iff a last.message.id)
fresh-ne-last a (t ∷ u ∷ l) last h e = fresh-ne-last a (u ∷ l) last (ground arith) e

-- The cursor at the last message is found behind everything.
index_after_id-last :
    (source : List Timed) (last : Timed)
    → DistinctIds source
    → last? source ≡ some last
    → index_after_id last.message.id source ≡ some (length source)
unfolding index_after_id
index_after_id-last [] last d e = cc
index_after_id-last (t ∷ []) last d e = ground (arith, eq_iff t.message.id last.message.id)
index_after_id-last (t ∷ u ∷ l) last d e =
    rw (fresh-ne-last t.message.id (u ∷ l) last d.0 e)
      (ap (Option.map suc) (index_after_id-last (u ∷ l) last d.1 e))

last?-cons : (t : Timed) (l : List Timed) → (last : Timed) × (last? (t ∷ l) ≡ some last)
last?-cons t [] = (t, refl)
last?-cons t (u ∷ l) = last?-cons u l

-- From the cursor at the last message nothing is unread.
pub unread_start-last_cursor :
    (parse_time : String → Option ℕ) (t : Timed) (l : List Timed)
    → DistinctIds (t ∷ l)
    → unread_start parse_time (t ∷ l) (last_cursor (t ∷ l)) ≡ ok (length (t ∷ l))
unfolding unread_start
unread_start-last_cursor parse_time t l d =
    let (last, e) = last?-cons t l in
    rw (e, unread_start) (rw (index_after_id-last (t ∷ l) last d e))

-- The eligible messages in the order of the review.
abbrev pub source_of :
    (String → Option ℕ) → ℕ → List MessageRecord → Result ReviewError (List Timed)
source_of parse_time now messages =
    eligible parse_time now messages >>= λ source. ok (sort_by_key source)

through_sort :
    (m : Result ReviewError (List Timed)) (source : List Timed)
    (f : List Timed → Result ReviewError ReviewSelection)
    → (m >>= λ l. ok (sort_by_key l)) ≡ ok source
    → (m >>= λ l. f (sort_by_key l)) ≡ f source
through_sort (ok l) source f h = cc
through_sort (raise e) source f h = cc

module _ (parse_time : String → Option ℕ) (messages : List MessageRecord) (now : ℕ) where
  -- With positive limits a review is the selection from its sorted source.
  pub select_review_window-source :
      (cursor : Option ReviewCursor) (refresh token_limit : ℕ) (source : List Timed)
      → source_of parse_time now messages ≡ ok source
      → 0 < refresh
      → 0 < token_limit
      → select_review_window parse_time messages cursor now refresh token_limit
        ≡ select_from parse_time source cursor now refresh token_limit
  unfolding select_review_window
  select_review_window-source cursor refresh token_limit source h r t =
      rw (pos→ne token_limit t, pos→ne refresh r)
        (through_sort (eligible parse_time now messages) source
          (λ l. select_from parse_time l cursor now refresh token_limit) h)

  positive :
      (cursor : Option ReviewCursor) (refresh token_limit : ℕ) (s : ReviewSelection)
      → select_review_window parse_time messages cursor now refresh token_limit ≡ ok s
      → (0 < refresh) × (0 < token_limit)
  unfolding select_review_window
  positive cursor refresh zero s h = cc
  positive cursor zero (suc t) s h = cc (rw (pos→ne (suc t) (omega arith)) at h)
  positive cursor (suc r) (suc t) s h = omega arith

caught_up :
    (parse_time : String → Option ℕ) (source : List Timed) {cursor : Option ReviewCursor}
    → DistinctIds source
    → 0 < length source
    → cursor ≡ last_cursor source
    → unread_start parse_time source cursor ≡ ok (length source)
caught_up parse_time [] d h e = absurd (omega arith)
caught_up parse_time (t ∷ l) d h e = rw e (unread_start-last_cursor parse_time t l d)

-- A review of a history with distinct ids that succeeds with unread messages moves the cursor so
-- far that the next review of the same history at the same moment, whatever its window and limit
-- above 0, reads nothing again: no message is reviewed twice.
pub reviewed_once :
    (parse_time : String → Option ℕ) (messages : List MessageRecord) (cursor : Option ReviewCursor)
    (now refresh token_limit refresh' token_limit' start : ℕ) (source : List Timed)
    (s : ReviewSelection)
    → source_of parse_time now messages ≡ ok source
    → DistinctIds source
    → unread_start parse_time source cursor ≡ ok start
    → start < length source
    → select_review_window parse_time messages cursor now refresh token_limit ≡ ok s
    → 0 < refresh'
    → 0 < token_limit'
    → select_review_window parse_time messages s.advance_cursor now refresh' token_limit'
      ≡ ok (record { batches = []; advance_cursor = s.advance_cursor; skipped_before = false })
reviewed_once parse_time messages cursor now refresh token_limit refresh' token_limit' start source
      s sorted distinct found unread done r' t' =
    let (r, t) = positive parse_time messages now cursor refresh token_limit s done in
    let selected : select_from parse_time source cursor now refresh token_limit ≡ ok s =
      sym (
        select_review_window-source parse_time messages now cursor refresh token_limit source sorted
          r t)
      ∙ done in
    select_review_window-source parse_time messages now s.advance_cursor refresh' token_limit'
      source sorted r' t'
    ∙ select_from_caught_up parse_time source s.advance_cursor now refresh' token_limit'
        (length source)
        (caught_up parse_time source distinct (omega arith)
          (rw selected at (
            select_from-Covers parse_time source cursor now refresh token_limit start found
              unread)).advanced)
        (omega arith)
