-- ===== src/Server/Privacy.antt =====
-- Whom the WebSocket handler tells of a submission.
use byte_battle.Prelude.{
  ℕ, ◌≡◌, ◌≢◌, refl, ap, ◌∙◌, inl, inr, Bool, false, Option, some, String, arith,
}
use byte_battle.Db.Rows.{Uuid}
use byte_battle.Db.Exec.{World, Result, ok, err}
use byte_battle.Hub.{Hub, send_to_user}
use byte_battle.Hub.Delivery.{send_to_user-one}
use byte_battle.Problem.{Problem}
use byte_battle.Submission.{SubmissionResult, State, Executor, submit_code}
use byte_battle.Submission.Outcome.{submit_code-returns}
use byte_battle.Server.Rooms.{
  ServerMessage, submission_result, error_message, code_of, broadcast_error, report, reported,
  process_submit,
}

module _ (marshal : ServerMessage → ℕ) where
  send_to_user-others :
      (game u msg : ℕ) (h : Hub) (c : ℕ)
      → (h.clients c).user_id ≢ u
      → (send_to_user game u msg h).clients c ≡ h.clients c
  send_to_user-others game u msg h c other = elim (send_to_user-one game u msg h) [
    | inl (same, nobody) ↦ ap (λ f. f c) same
    | inr (d, (there, mine, got), rest) ↦
        rest c (λ e. other (ap (λ x. (h.clients x).user_id) e ∙ mine))
  ]

  -- A submission that is not accepted is told to its user only.
  report-private :
      (game : ℕ) (user : Uuid) (r : Result SubmissionResult) (w : World) (h : Hub) (c : ℕ)
      → ((s : SubmissionResult) → r ≡ ok s → s.accepted ≡ false)
      → (h.clients c).user_id ≢ user
      → (report marshal game user r w h).1.clients c ≡ h.clients c
  unfolding report broadcast_error
  report-private game user (err e) w h c refused other =
      send_to_user-others game user (marshal (error_message user (code_of marshal e))) h c other
  report-private game user (ok r) w h c refused other =
      let msg = marshal (submission_result user r.accepted r.stdout r.stderr r.failed_test) in
      let no : r.accepted ≡ false = refused r refl in
      let kept = send_to_user-others game user msg h c other in ground (arith, no, kept)

  -- processSubmit comes to an end from any state in which no other goroutine acts; unless Submit has
  -- returned an accepted result, the clients of all other users are as before.
  pub process_submit-private :
      {L : Type 0} (new_limiter : L) (allow : ℕ → L → Bool × L) (is_full : ℕ → L → Bool)
      (run : Executor) (load_problem : String → Option Problem) (game : ℕ) (user : Uuid)
      (code language : String) (st : State L) (h : Hub)
      → ((s : SubmissionResult) (st' : State L)
          → submit_code new_limiter allow is_full run load_problem game user code language st
            ≡ some (ok s, st')
          → s.accepted ≡ false)
      → (st' : State L) × (h' : Hub) × (process_submit marshal new_limiter allow is_full run
            load_problem game user code language st h
          ≡ some (st', h'))
        × ((c : ℕ) → (h.clients c).user_id ≢ user → h'.clients c ≡ h.clients c)
  unfolding process_submit
  process_submit-private new_limiter allow is_full run load_problem game user code language st h
        refused =
      let (r, st', e, _) =
        submit_code-returns new_limiter allow is_full run load_problem game user code language st in
      (
        record st' { world = (report marshal game user r st'.world h).0 },
        (report marshal game user r st'.world h).1,
        ap (reported marshal game user h) e,
        λ c other.
            report-private game user r st'.world h c
              (λ s is_s. refused s st' (e ∙ ap (λ x. some (x, st')) is_s)) other,
      )
