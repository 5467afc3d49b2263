-- ===== src/Runtime/Turn/Silent.antt =====
-- runtime/state.py, `respond`: how an exception without a text is answered.
use mathlib.Core.Option
use turning_good_agent.Prelude.{ℕ, suc, ap, ◌∙◌, ◌≡◌, refl, String, false, Option, none, some}
use turning_good_agent.Prelude.Text.{append_text, is_empty}
use turning_good_agent.Runtime.Turn.{
  TurnState, in_session, in_respond, ok, error, Event, next_state, Attempt, returns, raises,
  completed_reply, TurnContext, Environment, new_turn, ◌>>=◌, ◌>>◌, done, call, modify, current,
  im_command_rejection, answer, command_after, command, session, respond, run_state, settle, traced,
  move, turn_loop, run_turn, and_then,
}
use turning_good_agent.Runtime.Turn.Path.{settled, turn_loop-suc}

module _ (env : Environment) (c : TurnContext) where
  -- COMMAND lets a plain message through.
  command_passes :
      im_command_rejection c.channel c.content ≡ none
      → env.handle_command ≡ returns none
      → command env c ≡ (returns ok, c)
  unfolding command command_after ◌>>=◌ current call done
  command_passes plain unhandled =
      ap (λ (r : Option String). command_after env r c) plain
      ∙ ap (λ (a : Attempt (Option String)). and_then (a, c) answer) unhandled

  -- SESSION fails with the exception of the cleaning.
  session_fails : env.cleanup ≡ raises "" → session env c ≡ (raises "", c)
  unfolding session ◌>>=◌ call
  session_fails fails = rw fails refl

  step :
      (fuel : ℕ) (r : Event × TurnContext) (state : TurnState)
      → settled env c ≡ r
      → next_state r.1.state r.0 ≡ some (some state)
      → turn_loop (suc fuel) env c ≡ turn_loop fuel env (move state (traced r.0 r.1))
  step fuel r state e goes =
      turn_loop-suc env fuel c (some (some state))
        (ap (λ (p : Event × TurnContext). next_state p.1.state p.0) e ∙ goes)
      ∙ ap (λ (p : Event × TurnContext). turn_loop fuel env (move state (traced p.0 p.1))) e

-- If a message is no command and the cleaning of the sessions raises an exception without a text,
-- the turn ends with a completed message, not with an error message.
pub silent_failure :
    (env : Environment) (channel content : String)
    → im_command_rejection channel content ≡ none
    → env.handle_command ≡ returns none
    → env.cleanup ≡ raises ""
    → Option.map (λ (c : TurnContext). c.outbound) (run_turn env channel content)
      ≡ some (some (completed_reply (append_text "请求失败：" "") false))
unfolding run_turn run_state settle next_state new_turn respond ◌>>◌ modify done is_empty
silent_failure env channel content plain unhandled fails =
    let c0 = new_turn channel content in
    let c1 = move in_session (traced ok c0) in
    let failed = record c1 { error = some ""; final_content = append_text "请求失败：" "" } in
    let c2 = move in_respond (traced error failed) in
    ap (Option.map (λ (c : TurnContext). c.outbound)) (
      step env c0 6 (ok, c0) in_session (ap settle (command_passes env c0 plain unhandled)) refl
      ∙ step env c1 5 (error, failed) in_respond (ap settle (session_fails env c1 fails)) refl
      ∙ turn_loop-suc env 4 c2 (some none) refl)
