-- ===== src/Memory/Window.antt =====
-- `recent_window`: the newest complete turns that fit the limit.
use mathlib.Core.List.{reverse, reverse-cons, reverse-append, reverse-reverse}
use turning_good_agent.Prelude.{
  ℕ, ◌+◌, ◌≤◌, ◌<◌, ◌≡◌, refl, sym, ap, ◌∙◌, Bool-cases, inl, inr, List, [], ◌∷◌, ◌++◌, arith, ltb,
  ltb→lt, ltb→le, total-append, append-nil, append_assoc,
}
use turning_good_agent.Sessions.{MessageRecord}
use turning_good_agent.Memory.{
  ShortTermMemory, count_tokens, complete_turns, select_turns, recent_window,
}

abbrev pub concat : List (List MessageRecord) → List MessageRecord
concat [] = []
concat (turn ∷ turns) = turn ++ concat turns

pub concat-append : (xs ys : List (List MessageRecord)) → concat (xs ++ ys) ≡ concat xs ++ concat ys
concat-append [] ys = refl
concat-append (x ∷ xs) ys = rw (concat-append xs ys) (sym (append_assoc x (concat xs) (concat ys)))

concat-snoc :
    (newest : List (List MessageRecord)) (turn selected : List MessageRecord)
    → concat (reverse (turn ∷ newest)) ++ selected ≡ concat (reverse newest) ++ (turn ++ selected)
concat-snoc newest turn selected =
    rw (reverse-cons turn newest) (simp (concat-append, append-nil, append_assoc))

-- The next turn, seen from the newest one back, does not fit any more.
abbrev pub Stops : ℕ → List MessageRecord → List (List MessageRecord) → Type 0
Stops limit window [] = Unit
Stops limit window (turn ∷ older) = limit < count_tokens window + count_tokens turn

-- The turns `selected` is made of and those left, both from the newest back.
record Selection (limit : ℕ) (turns : List (List MessageRecord))
    (selected window : List MessageRecord) : Type 0 where
  newest : List (List MessageRecord)
  rest : List (List MessageRecord)
  split : turns ≡ newest ++ rest
  shape : window ≡ concat (reverse newest) ++ selected
  fits : count_tokens window ≤ limit
  stops : Stops limit window rest

select_turns-Selection :
    (limit : ℕ) (turns : List (List MessageRecord)) (selected : List MessageRecord) (total : ℕ)
    → count_tokens selected ≡ total
    → total ≤ limit
    → Selection limit turns selected (select_turns limit turns selected total)
unfolding select_turns
select_turns-Selection limit [] selected total e h = record {
  newest = [];
  rest = [];
  split = refl;
  shape = refl;
  fits = omega arith;
  stops = tt;
}
select_turns-Selection limit (turn ∷ older) selected total e h =
    elim (Bool-cases (ltb limit (count_tokens turn))) [
      | inl big ↦ rw big (record {
        newest = [];
        rest = turn ∷ older;
        split = refl;
        shape = refl;
        fits = omega arith;
        stops = omega (arith, ltb→lt limit (count_tokens turn) big);
      })
      | inr small ↦ elim (Bool-cases (ltb limit (total + count_tokens turn))) [
        | inl over ↦
            rw (small, over)
              (record {
                newest = [];
                rest = turn ∷ older;
                split = refl;
                shape = refl;
                fits = omega arith;
                stops = omega (arith, ltb→lt limit (total + count_tokens turn) over);
              })
        | inr room ↦
            rw (small, room)
              (extend (
                select_turns-Selection limit older (turn ++ selected) (total + count_tokens turn)
                  (omega (arith, total-append (λ (m : MessageRecord). m.token_count) turn selected))
                  (ltb→le limit (total + count_tokens turn) room)))
      ]
    ]
  where
    extend :
        {window : List MessageRecord}
        → Selection limit older (turn ++ selected) window
        → Selection limit (turn ∷ older) selected window
    extend s = record {
      newest = turn ∷ s.newest;
      rest = s.rest;
      split = ap (λ l. turn ∷ l) s.split;
      shape = s.shape ∙ sym (concat-snoc s.newest turn selected);
      fits = s.fits;
      stops = s.stops;
    }

-- `window` holds the newest complete turns, whole and in order. It fits the limit, and the next
-- older turn would not fit with it.
pub record IsNewest (limit : ℕ) (turns : List (List MessageRecord)) (window : List MessageRecord)
    : Type 0 where
  pub older : List (List MessageRecord)
  pub newer : List (List MessageRecord)
  pub split : turns ≡ older ++ newer
  pub whole : window ≡ concat newer
  pub fits : count_tokens window ≤ limit
  pub maximal : Stops limit window (reverse older)

-- The window is the longest run of newest complete turns within the token limit: a suffix of the
-- turns, within the limit, to which the next older turn does not fit.
pub recent_window-IsNewest :
    (memory : ShortTermMemory) (messages : List MessageRecord)
    → IsNewest memory.recent_window_token_limit
        (complete_turns messages)
        (recent_window memory messages)
unfolding recent_window
recent_window-IsNewest memory messages =
    newest (select_turns-Selection _ (reverse turns) [] 0 refl (omega arith))
  where
    turns : List (List MessageRecord)
    turns = complete_turns messages

    newest :
        {window : List MessageRecord}
        → Selection memory.recent_window_token_limit (reverse turns) [] window
        → IsNewest memory.recent_window_token_limit turns window
    newest s = record {
      older = reverse s.rest;
      newer = reverse s.newest;
      split = sym (reverse-reverse turns) ∙ ap reverse s.split ∙ reverse-append s.newest s.rest;
      whole = s.shape ∙ append-nil _;
      fits = s.fits;
      maximal = rw (reverse-reverse s.rest) s.stops;
    }
