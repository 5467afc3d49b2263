-- ===== src/Proactive/ReviewWindow/Coverage.antt =====
-- proactive/review_window.py: what a review reads.
use Prim.Native.Nat.{max}
use mathlib.Core.Option
use turning_good_agent.Prelude.{
  ℕ, zero, suc, ◌-◌, ◌≤◌, ◌<◌, ◌≡◌, refl, sym, ap, ◌∙◌, String, Bool, true, false, Bool-cases, inl,
  inr, Option, List, [], ◌∷◌, map, arith, ltb, leb, ltb→le, leb→le, leb→lt, le→leb, lt→leb, length,
  take, drop, last?, last?-drop, All, All-drop, string_eq, if◌then◌else◌,
}
use turning_good_agent.Prelude.Result.{Result, ok, raise, OnOk, ◌>>=◌}
use turning_good_agent.Sessions.{MessageRecord}
use turning_good_agent.Proactive.ReviewWindow.{
  ReviewCursor, ReviewBatch, ReviewSelection, ReviewError, Timed, messages_of, first_at_or_after,
  unread_start, cursor_for, batches_of, cursor_is_fresh, last_cursor, selected_start,
  finish_selection, select_from,
}
use turning_good_agent.Proactive.ReviewWindow.Batches.{AreBatches, batches_of-AreBatches}
use turning_good_agent.Proactive.ReviewWindow.Ordering.{Before, take-first_at_or_after}

abbrev pub batch_messages : ReviewSelection → List (List MessageRecord)
batch_messages s = map (λ (b : ReviewBatch). b.messages) s.batches

-- What a review with unread messages promises: `source[from:]` is read, whole and in order, in
-- bounded batches; what lies unread before it is older than the window; and the cursor moves to
-- the last message.
pub record Covers (source : List Timed) (start window_start token_limit : ℕ) (s : ReviewSelection)
    : Type 0 where
  pub from : ℕ
  pub at_or_after : start ≤ from
  pub batches : AreBatches token_limit (messages_of (drop from source)) (batch_messages s)
  pub skipped : All (Before window_start) (drop start (take from source))
  pub flagged : (s.skipped_before ≡ false) → from ≡ start
  pub advanced : s.advance_cursor ≡ last_cursor source

batch_messages-map :
    (bs : List (List MessageRecord))
    → map (λ (b : ReviewBatch). b.messages) (map (λ batch. record { messages = batch }) bs) ≡ bs
batch_messages-map [] = refl
batch_messages-map (b ∷ bs) = ap (λ l. b ∷ l) (batch_messages-map bs)

drop-take_self : (n : ℕ) (l : List Timed) → drop n (take n l) ≡ []
drop-take_self zero l = refl
drop-take_self (suc n) [] = refl
drop-take_self (suc n) (x ∷ l) = drop-take_self n l

skipped_are_old :
    (fresh : Bool) (start : ℕ) (source : List Timed) (window_start : ℕ)
    → All
        (Before window_start)
        (drop start (take (selected_start fresh start source window_start) source))
skipped_are_old true start source window_start = rw (drop-take_self start source) tt
skipped_are_old false start source window_start =
    let first : ℕ = first_at_or_after source window_start false in
    elim (Bool-cases (leb start first)) [
      | inl after ↦
          let e : max start first ≡ first = omega (arith, leb→le start first after) in
          rw e (All-drop (Before window_start) start _ (take-first_at_or_after source window_start))
      | inr before ↦
          let e : max start first ≡ start = omega (arith, leb→lt start first before) in
          rw e (rw (drop-take_self start source) tt)
    ]

drop-nonempty-lt :
    (n : ℕ) (l : List Timed) {t : Timed} {rest : List Timed} → drop n l ≡ t ∷ rest → n < length l
drop-nonempty-lt zero [] e = cc
drop-nonempty-lt zero (x ∷ l) e = omega arith
drop-nonempty-lt (suc n) [] e = cc
drop-nonempty-lt (suc n) (x ∷ l) e = omega (arith, drop-nonempty-lt n l e)

start-le-selected_start :
    (fresh : Bool) (start : ℕ) (source : List Timed) (window_start : ℕ)
    → start ≤ selected_start fresh start source window_start
start-le-selected_start true start source window_start = omega arith
start-le-selected_start false start source window_start = omega arith

unflagged :
    (fresh : Bool) (start : ℕ) (source : List Timed) (window_start : ℕ)
    → (if fresh then false else ltb start (selected_start fresh start source window_start)) ≡ false
    → selected_start fresh start source window_start ≡ start
unflagged true start source window_start h = refl
unflagged false start source window_start h =
    omega (arith, ltb→le start (selected_start false start source window_start) h)

-- With an empty selection the flag is `not cursor_is_fresh`.
all_unread :
    (fresh : Bool) (start : ℕ) (source : List Timed) (window_start : ℕ)
    → (if fresh then false else true) ≡ false
    → selected_start fresh start source window_start ≡ start
all_unread true start source window_start h = refl
all_unread false start source window_start h = cc

either : {A : Type 0} (b : Bool) {x y : A} → x ≡ y → (if b then y else x) ≡ y
either true e = refl
either false e = e

module _ (source : List Timed) (start window_start token_limit : ℕ) (fresh : Bool) where
  abbrev from : ℕ
  from = selected_start fresh start source window_start

  abbrev flag : Bool
  flag = if fresh then false else ltb start from

  finish_selection-Covers :
      (selected : List Timed)
      → drop from source ≡ selected
      → OnOk
          (Covers source start window_start token_limit)
          (finish_selection source selected fresh flag token_limit)
  unfolding finish_selection
  finish_selection-Covers [] e = record {
    from = from;
    at_or_after = start-le-selected_start fresh start source window_start;
    batches = rw e (tt, refl);
    skipped = skipped_are_old fresh start source window_start;
    flagged = all_unread fresh start source window_start;
    advanced = refl;
  }
  finish_selection-Covers (t ∷ rest) e =
      go (batches_of (messages_of (t ∷ rest)) token_limit)
        (batches_of-AreBatches token_limit (messages_of (t ∷ rest)))
    where
      last : last? (t ∷ rest) ≡ last? source
      last = sym (ap last? e) ∙ last?-drop from source (drop-nonempty-lt from source e)

      go :
          (made : Result ReviewError (List (List MessageRecord)))
          → OnOk (AreBatches token_limit (messages_of (t ∷ rest))) made
          → OnOk (Covers source start window_start token_limit) (
              made >>= λ batches. ok (record {
                batches = map (λ batch. record { messages = batch }) batches;
                advance_cursor = if flag then last_cursor source else last_cursor (t ∷ rest);
                skipped_before = flag;
              }))
      go (raise x) h = tt
      go (ok bs) h = record {
        from = from;
        at_or_after = start-le-selected_start fresh start source window_start;
        batches = rw (e, batch_messages-map bs) h;
        skipped = skipped_are_old fresh start source window_start;
        flagged = unflagged fresh start source window_start;
        advanced = either flag (ap (Option.map (λ (m : Timed). cursor_for m.message)) last);
      }

-- If the cursor is found and messages are unread, a review that succeeds reads the source from
-- some place on, whole and in order, in nonempty batches within the limit; what it skips unread is
-- older than the window and is flagged; and the cursor moves to the last message.
pub select_from-Covers :
    (parse_time : String → Option ℕ) (source : List Timed) (cursor : Option ReviewCursor)
    (now refresh token_limit start : ℕ)
    → unread_start parse_time source cursor ≡ ok start
    → start < length source
    → OnOk
        (Covers source start (now - refresh) token_limit)
        (select_from parse_time source cursor now refresh token_limit)
unfolding select_from
select_from-Covers parse_time [] cursor now refresh token_limit start found unread =
    absurd (omega arith)
select_from-Covers parse_time (t ∷ l) cursor now refresh token_limit start found unread = rw found (
    rw (lt→leb start (length (t ∷ l)) unread)
      (go (cursor_is_fresh parse_time (now - refresh) cursor)))
  where
    go :
        (fresh : Result ReviewError Bool)
        → OnOk (Covers (t ∷ l) start (now - refresh) token_limit) (
            fresh >>= λ fresh.
            finish_selection
              (t ∷ l)
              (drop (selected_start fresh start (t ∷ l) (now - refresh)) (t ∷ l))
              fresh
              (if fresh
                then false
                else ltb start (selected_start fresh start (t ∷ l) (now - refresh)))
              token_limit)
    go (raise e) = tt
    go (ok fresh) = finish_selection-Covers (t ∷ l) start (now - refresh) token_limit fresh _ refl

-- With none, it selects nothing and leaves the cursor.
pub select_from_caught_up :
    (parse_time : String → Option ℕ) (source : List Timed) (cursor : Option ReviewCursor)
    (now refresh token_limit start : ℕ)
    → unread_start parse_time source cursor ≡ ok start
    → length source ≤ start
    → select_from parse_time source cursor now refresh token_limit
      ≡ ok (record { batches = []; advance_cursor = cursor; skipped_before = false })
unfolding select_from
select_from_caught_up parse_time [] cursor now refresh token_limit start found all = refl
select_from_caught_up parse_time (t ∷ l) cursor now refresh token_limit start found all =
    rw found (rw (le→leb (length (t ∷ l)) start all))
