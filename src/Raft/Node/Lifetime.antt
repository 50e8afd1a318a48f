-- ===== src/Raft/Node/Lifetime.antt =====
-- The states that a peer reaches by messages, its timer and `submit`, and what they have in common.
use hamok_ts.Prelude.{ℕ, ◌≤◌, ◌≡◌, refl, arith}
use hamok_ts.Message.{HamokMessage}
use hamok_ts.Logs.Invariant.{IsValid, submit-IsValid}
use hamok_ts.Raft.Engine.{RaftEngine, RaftState, submit, leader, follower, candidate, empty}
use hamok_ts.Raft.Engine.Terms.{TermNoted}
use hamok_ts.Raft.Node.{Event, Environment, step}
use hamok_ts.Raft.Node.LogValidity.{step-IsValid}
use hamok_ts.Raft.Node.Terms.{step-TermNoted}

pub data Reaches (E : Type 0) (start : RaftEngine E) : RaftEngine E → Type 0 where
  stays : Reaches E start start
  steps :
      {e : RaftEngine E} (env : Environment) (ev : Event E)
      → Reaches E start e
      → Reaches E start (step env ev e).0
  submits :
      {e : RaftEngine E} (now : ℕ) (m : HamokMessage E)
      → Reaches E start e
      → Reaches E start (submit now m e).0

module _ {E : Type 0} where
  submit_frame :
      (now : ℕ) (m : HamokMessage E) (e : RaftEngine E)
      → ((submit now m e).0.props ≡ e.props) × ((submit now m e).0.state ≡ e.state)
  unfolding submit
  submit_frame now m e = ground arith

  submit_in-IsValid :
      (now : ℕ) (m : HamokMessage E) (s : RaftState E) (e : RaftEngine E)
      → e.state ≡ s
      → IsValid e.logs
      → IsValid (submit now m e).0.logs
  unfolding submit
  submit_in-IsValid now m (leader l) e st v =
      rw (submit, st) (submit-IsValid now e.props.current_term m e.logs v)
  submit_in-IsValid now m (follower f) e st v = rw (submit, st) v
  submit_in-IsValid now m (candidate c) e st v = rw (submit, st) v
  submit_in-IsValid now m empty e st v = rw (submit, st) v

  -- Over all that a peer reaches in any sequence of messages, timers and calls of submit, from a
  -- well-formed log and, as a follower or a leader, with the engine's own term in its state, its
  -- log stays well formed, also where a request gives negative indices, its term is never lower
  -- than at the start, and a follower or a leader still has the engine's own term.
  pub Reaches-IsValid :
      (start e : RaftEngine E)
      → Reaches E start e
      → IsValid start.logs
      → TermNoted start.state start.props.current_term
      → IsValid e.logs
        × (start.props.current_term ≤ e.props.current_term)
        × TermNoted e.state e.props.current_term
  Reaches-IsValid start _ stays v t = (v, omega arith, t)
  Reaches-IsValid start _ (steps {e} env ev path) v t =
      let before = Reaches-IsValid start e path v t in
      let after = step-TermNoted env ev e before.2 in
      (step-IsValid env ev e before.0, omega (arith, before.1, after.0), after.1)
  Reaches-IsValid start _ (submits {e} now m path) v t =
      let before = Reaches-IsValid start e path v t in
      let frame = submit_frame now m e in
      (
        submit_in-IsValid now m e.state e refl before.0,
        rw (frame.0) before.1,
        rw (frame.0, frame.1) before.2,
      )
